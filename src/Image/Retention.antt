-- ===== src/Image/Retention.antt =====
-- PlanPrune of internal/image/retention.go.
pub mod Laws
use bivouac.Prelude.{
  ℕ, zero, suc, ◌+◌, ◌%◌, ltb, ◌≤◌, Bool, true, false, not, ◌&&◌, ◌||◌, ◌≡◌, ◌≢◌, ◌⊎◌, inl, inr,
  refl, String, Option, none, some, List, [], ◌∷◌, ◌++◌, ◌==◌, reverse, keep, if◌then◌else◌, Result,
  ok, err,
}
use bivouac.Image.Markers.{Number, natural, negative, Scope, TagError, valid_user_tag}
use bivouac.Image.Eligible.{Image, eligible, sort_newest}

pub record PrunePlan : Type 0 where
  pub scope : Scope
  pub kept : List Image
  pub doomed : List Image

pub data PlanError : Type 0 where
  negative_keep incomplete_scope : PlanError
  bad_tag : TagError → PlanError

-- The images to keep and to delete, both newest first: the first `n`, and the protected one.
abbrev pub with_kept : Image → List Image × List Image → List Image × List Image
with_kept img (k, d) = (img ∷ k, d)

abbrev pub with_doomed : Image → List Image × List Image → List Image × List Image
with_doomed img (k, d) = (k, img ∷ d)

unfoldable pub split : ℕ → String → List Image → List Image × List Image
split n protected_id [] = ([], [])
split zero protected_id (img ∷ l) =
    let rest = split zero protected_id l in
    if img.id == protected_id then with_kept img rest else with_doomed img rest
split (suc n) protected_id (img ∷ l) = with_kept img (split n protected_id l)

-- 1 + keepPrevious is an int: past the greatest it is negative, and then no place in the list is below it.
abbrev pub wrapped : ℕ → ℕ
wrapped n = n % 18_446_744_073_709_551_616

abbrev pub keep_count : ℕ → ℕ
keep_count n = if ltb (wrapped (1 + n)) 9_223_372_036_854_775_808 then wrapped (1 + n) else 0

module _ (atoi : String → Option Number) where
  abbrev pub candidates : List Image → Scope → List Image
  candidates imgs s = sort_newest atoi (keep (λ img. eligible atoi img s) imgs)

  abbrev pub planned : Scope → List Image × List Image → PrunePlan
  planned s (k, d) = record { scope = s; kept = k; doomed = reverse d }

  unfoldable pub plan_tagged :
      List Image → Scope → ℕ → String → Option TagError → Result PlanError PrunePlan
  unfolding split
  plan_tagged imgs s n protected_id (some e) = err (bad_tag e)
  plan_tagged imgs s n protected_id none =
      if s.arch == "" || s.region == ""
      then err incomplete_scope
      else ok (planned s (split (keep_count n) protected_id (candidates imgs s)))

  -- PlanPrune
  unfoldable pub plan_prune : List Image → Scope → Number → String → Result PlanError PrunePlan
  unfolding plan_tagged
  plan_prune imgs s (negative n) protected_id = err negative_keep
  plan_prune imgs s (natural n) protected_id =
      plan_tagged imgs s n protected_id (valid_user_tag s.tag)
