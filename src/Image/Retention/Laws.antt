-- ===== src/Image/Retention/Laws.antt =====
-- What a plan keeps and what it deletes.
use bivouac.Prelude.{
  ℕ, ◌+◌, ◌≤◌, Bool, true, false, ◌||◌, ◌≡◌, ◌≢◌, ◌⊎◌, inl, inr, subst, String, Option, none, some,
  List, [], ◌∷◌, ◌==◌, keep, length, All, if◌then◌else◌, ok, err, arith, eq_iff, Result, Bool-cases,
}
use bivouac.State.Store.Atomic.{ok-injective}
use bivouac.Image.Markers.{Number, natural, Scope, TagError, valid_user_tag}
use bivouac.Image.Eligible.{Image, eligible, older, by_age, sort_newest}
use bivouac.Image.Retention.{
  PrunePlan, PlanError, bad_tag, incomplete_scope, split, candidates, planned, plan_tagged,
  plan_prune,
}

module _ (protected_id : String) where
  -- Where no place is kept, only the protected image is.
  split-protected : (l : List Image) → All (λ img. img.id ≡ protected_id) (split 0 protected_id l).0
  unfolding split
  split-protected [] = tt
  split-protected (img ∷ l) = elim (Bool-cases (img.id == protected_id)) [
    | inl own ↦ rw own ((eq_iff img.id protected_id).0 own, split-protected l)
    | inr other ↦ rw other (split-protected l)
  ]

module _ (atoi : String → Option Number) where
  by_age-All :
      (P : Image → Type 0) (img : Image) (l : List Image)
      → P img
      → All P l
      → All P (by_age atoi img l)
  unfolding by_age
  by_age-All P img [] p h = (p, tt)
  by_age-All P img (other ∷ l) p h = elim (Bool-cases (older atoi img other)) [
    | inl later ↦ rw later (h.0, by_age-All P img l p h.1)
    | inr first ↦ rw first (p, h)
  ]

  sort_newest-All : (P : Image → Type 0) (l : List Image) → All P l → All P (sort_newest atoi l)
  unfolding sort_newest
  sort_newest-All P [] h = tt
  sort_newest-All P (img ∷ l) h =
      by_age-All P img (sort_newest atoi l) h.0 (sort_newest-All P l h.1)

  keep-eligible :
      (s : Scope) (l : List Image)
      → All (λ img. eligible atoi img s ≡ true) (keep (λ img. eligible atoi img s) l)
  keep-eligible s [] = tt
  keep-eligible s (img ∷ l) = elim (Bool-cases (eligible atoi img s)) [
    | inl fits ↦ rw fits (fits, keep-eligible s l)
    | inr not_ours ↦ rw not_ours (keep-eligible s l)
  ]

  pub candidates-eligible :
      (imgs : List Image) (s : Scope)
      → All (λ img. eligible atoi img s ≡ true) (candidates atoi imgs s)
  candidates-eligible imgs s =
      sort_newest-All (λ img. eligible atoi img s ≡ true) (keep (λ img. eligible atoi img s) imgs)
        (keep-eligible s imgs)

  -- What holds of the plan that is made of `imgs`, keeping `1 + n` images.
  pub record IsPlan (imgs : List Image) (s : Scope) (n : ℕ) (protected_id : String)
      (plan : PrunePlan) : Type 0 where
    pub scope : plan.scope ≡ s
    pub deleted : All (λ img. (eligible atoi img s ≡ true) × (img.id ≢ protected_id)) plan.doomed
    pub all :
        length plan.kept + length plan.doomed ≡ length (keep (λ img. eligible atoi img s) imgs)
    pub enough : (1 + n ≤ length plan.kept) ⊎ (plan.doomed ≡ [])

  -- Asked to keep as many images as the greatest int says, a plan keeps none but the protected one.
  pub plan_prune-overflow :
      (imgs : List Image) (s : Scope) (protected_id : String) {plan : PrunePlan}
      → plan_prune atoi imgs s (natural 9_223_372_036_854_775_807) protected_id ≡ ok plan
      → All (λ img. img.id ≡ protected_id) plan.kept
  unfolding plan_prune plan_tagged
  plan_prune-overflow imgs s protected_id {plan} h =
      go (valid_user_tag s.tag) (s.arch == "" || s.region == "") h
    where
      go :
          (e : Option TagError) (b : Bool)
          → (elim e as (λ x. Result PlanError PrunePlan) [
            | some x ↦ err (bad_tag x)
            | none ↦
                if b
                then err incomplete_scope
                else ok (planned atoi s (split 0 protected_id (candidates atoi imgs s)))
          ])
            ≡ ok plan
          → All (λ img. img.id ≡ protected_id) plan.kept
      go (some x) b k = absurd (ground (arith, k))
      go none true k = absurd (ground (arith, k))
      go none false k =
          subst (λ x. All (λ img. img.id ≡ protected_id) x.kept) (ok-injective _ plan k)
            (split-protected protected_id (candidates atoi imgs s))
