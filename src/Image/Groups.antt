-- ===== src/Image/Groups.antt =====
-- GroupScopes of internal/image/retention.go, what the error of newestTagged names, and the boot
-- script of a launch: skipped of internal/image/resolve.go and bootMode of
-- internal/lifecycle/up_plan.go.
use Prim.Native.Nat.{Ordering}
use Prim.Native.String.{compare}
use bivouac.Prelude.{
  ℕ, zero, suc, Bool, true, false, not, ◌&&◌, ◌||◌, String, Option, none, some, List, [], ◌∷◌, ◌++◌,
  ◌==◌, any, length, if◌then◌else◌, Result, ok, err,
}
use bivouac.Image.Markers.{Number, Markers, Scope, parse_markers}
use bivouac.Image.Eligible.{Image, Reason, ineligible, eligible, sort_newest}
use bivouac.Image.Resolve.{Resolution}

abbrev pub same_scope : Scope → Scope → Bool
same_scope a b = a.tag == b.tag && a.arch == b.arch && a.region == b.region

abbrev pub narrowed : String → String → Bool
narrowed asked found = not (asked == "") && not (found == asked)

abbrev pub after_scope : Scope → Scope → Bool
after_scope a b = elim (compare a.region b.region) [
  | Ordering.lt ↦ false
  | Ordering.gt ↦ true
  | Ordering.eq ↦ elim (compare a.arch b.arch) [ Ordering.gt ↦ true | _ ↦ false ]
]

unfoldable pub by_scope : Scope → List Scope → List Scope
by_scope s [] = s ∷ []
by_scope s (t ∷ l) = let rest = by_scope s l in if after_scope s t then t ∷ rest else s ∷ t ∷ l

-- slices.SortFunc, of scopes that are all different
unfoldable pub sort_scopes : List Scope → List Scope
unfolding by_scope
sort_scopes [] = []
sort_scopes (s ∷ l) = by_scope s (sort_scopes l)

module _ (atoi : String → Option Number) (tag region arch : String) where
  abbrev pub scope_of : Markers → Scope
  scope_of mk = record { tag = tag; arch = mk.arch; region = mk.region }

  unfoldable pub add_scope : Image → List Scope → Option Markers → List Scope
  add_scope img out none = out
  add_scope img out (some mk) =
      if narrowed region mk.region || narrowed arch mk.arch
      then out
      else if eligible atoi img (scope_of mk) && not (any (same_scope (scope_of mk)) out)
      then out ++ scope_of mk ∷ []
      else out

  unfoldable pub add_scopes : List Scope → List Image → List Scope
  unfolding add_scope parse_markers
  add_scopes out [] = out
  add_scopes out (img ∷ l) = add_scopes (add_scope img out (parse_markers atoi img.tags)) l

  -- GroupScopes
  unfoldable pub group_scopes : List Image → List Scope
  unfolding add_scopes sort_scopes
  group_scopes imgs = sort_scopes (add_scopes [] imgs)

-- The first `n` images with the reason for each, and how many more there are.
unfoldable pub skipped_first :
    (String → Option Number) → Scope → ℕ → List Image → List (String × Option Reason) × ℕ
skipped_first atoi s zero l = ([], length l)
skipped_first atoi s (suc n) [] = ([], 0)
skipped_first atoi s (suc n) (img ∷ l) =
    let (named, more) = skipped_first atoi s n l in ((img.id, ineligible atoi img s) ∷ named, more)

-- skipped, with maxSkipped
unfoldable pub skipped :
    (String → Option Number) → Scope → List Image → List (String × Option Reason) × ℕ
unfolding skipped_first
skipped atoi s imgs = skipped_first atoi s 3 (sort_newest atoi imgs)

pub data BootMode : Type 0 where
  boot_stock boot_baked : BootMode

pub data BootError : Type 0 where
  other_image other_shell : BootError

-- bootMode, by the image and the shell of the configuration
unfoldable pub boot_mode : String → String → Resolution → Result BootError BootMode
boot_mode image shell img =
    if not (img.requested == image) || img.image == ""
    then err other_image
    else if not img.baked
    then ok boot_stock
    else if not (img.shell == shell)
    then err other_shell
    else ok boot_baked
