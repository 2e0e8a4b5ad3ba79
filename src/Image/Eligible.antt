-- ===== src/Image/Eligible.antt =====
-- Which images may be launched or pruned, and their order: internal/image/resolve.go.
use Prim.Native.Nat.{Ordering, compare}
use Prim.Native.String.{compare as compare_texts}
use bivouac.Prelude.{
  ℕ, Bool, true, false, not, ◌&&◌, ◌||◌, String, Option, none, some, List, [], ◌∷◌, ◌==◌, any, eqb,
  if◌then◌else◌,
}
use bivouac.Image.Markers.{Number, natural, negative, Markers, Scope, parse_markers}

-- provider.Image; `created` counts from Go's zero time.
pub record Image : Type 0 where
  pub id : String
  pub name : String
  pub kind : String
  pub status : String
  pub tags : List String
  pub regions : List String
  pub min_disk_gb : ℕ
  pub created : ℕ

-- The texts that ineligible gives, as values; none stands for the empty one.
pub data Reason : Type 0 where
  not_available not_snapshot not_ours unsupported_format other_arch other_region not_tagged : Reason

abbrev pub contains : String → List String → Bool
contains text = any (λ s. s == text)

abbrev pub is_one : Number → Bool
is_one (natural n) = eqb n 1
is_one (negative n) = false

-- compareIDs and the order of numbers
abbrev pub compare_numbers : Number → Number → Ordering
compare_numbers (natural a) (natural b) = compare a b
compare_numbers (natural a) (negative b) = Ordering.gt
compare_numbers (negative a) (natural b) = Ordering.lt
compare_numbers (negative a) (negative b) = compare b a

module _ (atoi : String → Option Number) where
  unfoldable pub mismatch : Image → Scope → Option Markers → Option Reason
  mismatch img s none = some not_ours
  mismatch img s (some mk) =
      if not (is_one mk.format)
      then some unsupported_format
      else if not (mk.arch == s.arch)
      then some other_arch
      else if not (mk.region == s.region) || not (contains s.region img.regions)
      then some other_region
      else if not (s.tag == "") && not (contains s.tag img.tags)
      then some not_tagged
      else none

  unfoldable pub ineligible : Image → Scope → Option Reason
  unfolding mismatch parse_markers
  ineligible img s =
      if not (img.status == "available")
      then some not_available
      else if not (img.kind == "snapshot")
      then some not_snapshot
      else mismatch img s (parse_markers atoi img.tags)

  abbrev pub no_reason : Option Reason → Bool
  no_reason none = true
  no_reason (some _) = false

  -- Eligible
  unfoldable pub eligible : Image → Scope → Bool
  unfolding ineligible
  eligible img s = no_reason (ineligible img s)

  unfoldable pub compare_parsed : String → String → Option Number → Option Number → Ordering
  compare_parsed a b (some x) (some y) = compare_numbers x y
  compare_parsed a b _ _ = compare_texts a b

  unfoldable pub compare_ids : String → String → Ordering
  unfolding compare_parsed
  compare_ids a b = compare_parsed a b (atoi a) (atoi b)

  abbrev pub is_gt : Ordering → Bool
  is_gt Ordering.gt = true
  is_gt _ = false

  -- Whether `a` has to stand behind `b`, which is not before it.
  unfoldable pub older : Image → Image → Bool
  unfolding compare_ids
  older a b = elim (compare b.created a.created) [
    | Ordering.lt ↦ false
    | Ordering.gt ↦ true
    | Ordering.eq ↦ is_gt (compare_ids b.id a.id)
  ]

  unfoldable pub by_age : Image → List Image → List Image
  unfolding older
  by_age img [] = img ∷ []
  by_age img (other ∷ l) =
      let rest = by_age img l in if older img other then other ∷ rest else img ∷ other ∷ l

  -- SortNewest, a stable sort
  unfoldable pub sort_newest : List Image → List Image
  unfolding by_age
  sort_newest [] = []
  sort_newest (img ∷ l) = by_age img (sort_newest l)
