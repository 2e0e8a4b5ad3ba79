-- ===== src/State/Validate/Sound.antt =====
-- The validation decides the contract of Spec: what it lets pass is well formed, and it lets
-- every well-formed record pass.
use mathlib.Core.Bool.{false≢true}
use bivouac.Prelude.{
  Bool, true, false, not, ◌≡◌, refl, sym, ◌∙◌, ◌≢◌, ◌⊎◌, inl, inr, String, Option, none, some, List,
  [], ◌∷◌, All, arith, eq_iff, any, ◌==◌, Bool-cases, eq_false, ne_of_eq_false,
}
use bivouac.State.Types.{
  AttachmentKind, AttachmentPhase, HerdrAttachment, EffectStatus, intended, done, Acceptance,
  Effects, Json,
}
use bivouac.State.Validate.{
  Invalid, ◌orelse◌, refuse_if, each, is_empty, check_kind, check_phase, validate_attachment,
  check_attachments, check_effects, check_acceptance, valid_effect_key, known_status,
}
use bivouac.State.Validate.Spec.{
  IsAddressed, IsHandled, IsAttachment, HasFreshIds, IsAcceptance, IsEffect,
}

pub orelse_split : (a b : Option Invalid) → (a orelse b) ≡ none → (a ≡ none) × (b ≡ none)
orelse_split none b h = (refl, h)
orelse_split (some i) b h = ground arith

pub orelse_join : (a b : Option Invalid) → a ≡ none → b ≡ none → (a orelse b) ≡ none
orelse_join none b h k = k
orelse_join (some i) b h k = h

pub refuse_split : (b : Bool) (i : Invalid) → refuse_if b i ≡ none → b ≡ false
refuse_split true i h = ground arith
refuse_split false i h = refl

pub refuse_join : (b : Bool) (i : Invalid) → b ≡ false → refuse_if b i ≡ none
refuse_join true i h = ground arith
refuse_join false i h = refl

full : (s : String) → is_empty s ≡ false → s ≢ ""
full s h = ne_of_eq_false s "" h

full_test : (s : String) → s ≢ "" → is_empty s ≡ false
full_test s h = eq_false s "" h

any-false :
    (seen : List String) (s : String) → any (λ id. id == s) seen ≡ false → All (λ id. id ≢ s) seen
any-false [] s h = tt
any-false (x ∷ seen) s h = elim (Bool-cases (x == s)) [
  | inl e ↦ absurd (false≢true (sym h ∙ rw e))
  | inr e ↦ (ne_of_eq_false x s e, any-false seen s (rw e at h))
]

any_none :
    (seen : List String) (s : String) → All (λ id. id ≢ s) seen → any (λ id. id == s) seen ≡ false
any_none [] s h = refl
any_none (x ∷ seen) s h = rw (eq_false x s h.0) (any_none seen s h.1)

valid_sound : (key : String) → not (valid_effect_key key) ≡ false → valid_effect_key key ≡ true
valid_sound key h = ground arith

status_sound : (s : EffectStatus) → not (known_status s) ≡ false → (s ≡ intended) ⊎ (s ≡ done)
status_sound s h = ground arith

-- A loop that returns the first error returns none just if every step does.
module _ {A : Type 0} (f : A → Option Invalid) (P : A → Type 0) where
  pub each_sound : ((a : A) → f a ≡ none → P a) → (l : List A) → each f l ≡ none → All P l
  each_sound step [] h = tt
  each_sound step (x ∷ l) h =
      let (first, rest) = orelse_split _ _ h in (step x first, each_sound step l rest)

  pub each_complete : ((a : A) → P a → f a ≡ none) → (l : List A) → All P l → each f l ≡ none
  each_complete step [] h = refl
  each_complete step (x ∷ l) h = orelse_join _ _ (step x h.0) (each_complete step l h.1)

module _ (json : Json) where
  check_kind_sound :
      (a : HerdrAttachment) (k : AttachmentKind) → check_kind a k ≡ none → IsAddressed k a.address
  unfolding check_kind
  check_kind_sound a k h = ground (
    arith,
    eq_iff a.address.machine_id "",
    eq_iff a.address.session "",
    eq_iff a.address.config_root "",
  )

  check_kind_complete :
      (a : HerdrAttachment) (k : AttachmentKind) → IsAddressed k a.address → check_kind a k ≡ none
  unfolding check_kind
  check_kind_complete a k h = ground (
    arith,
    eq_iff a.address.machine_id "",
    eq_iff a.address.session "",
    eq_iff a.address.config_root "",
  )

  check_phase_sound :
      (a : HerdrAttachment) (p : AttachmentPhase) → check_phase a p ≡ none → IsHandled p a.handle
  unfolding check_phase
  check_phase_sound a p h = ground (arith, eq_iff a.handle "")

  check_phase_complete :
      (a : HerdrAttachment) (p : AttachmentPhase) → IsHandled p a.handle → check_phase a p ≡ none
  unfolding check_phase
  check_phase_complete a p h = ground (arith, eq_iff a.handle "")

  validate_attachment_sound :
      (a : HerdrAttachment) → validate_attachment json a ≡ none → IsAttachment json a
  unfolding validate_attachment
  validate_attachment_sound a h = ground (
    arith,
    eq_iff a.id "",
    check_kind_sound a a.kind,
    check_phase_sound a a.phase,
    eq_iff a.proof.scheme "",
    eq_iff a.proof.payload "",
  )

  validate_attachment_complete :
      (a : HerdrAttachment) → IsAttachment json a → validate_attachment json a ≡ none
  unfolding validate_attachment
  validate_attachment_complete a h = ground (
    arith,
    eq_iff a.id "",
    check_kind_complete a a.kind,
    check_phase_complete a a.phase,
    eq_iff a.proof.scheme "",
    eq_iff a.proof.payload "",
  )

  pub check_attachments_sound :
      (seen : List String) (l : List HerdrAttachment)
      → check_attachments json seen l ≡ none
      → All (IsAttachment json) l × HasFreshIds seen l
  unfolding check_attachments
  check_attachments_sound seen [] h = (tt, tt)
  check_attachments_sound seen (a ∷ l) h =
      let (first, rest) = orelse_split _ _ h in
      let (fresh, last) = orelse_split _ _ rest in
      let (ok, distinct) = check_attachments_sound (a.id ∷ seen) l last in
      (
        (validate_attachment_sound a first, ok),
        (any-false seen a.id (refuse_split _ _ fresh), distinct),
      )

  pub check_attachments_complete :
      (seen : List String) (l : List HerdrAttachment)
      → All (IsAttachment json) l
      → HasFreshIds seen l
      → check_attachments json seen l ≡ none
  unfolding check_attachments
  check_attachments_complete seen [] h d = refl
  check_attachments_complete seen (a ∷ l) h d =
      orelse_join _ _ (validate_attachment_complete a h.0) (
        orelse_join _ _ (refuse_join _ _ (any_none seen a.id d.0))
          (check_attachments_complete (a.id ∷ seen) l h.1 d.1))

pub check_effects_sound : (l : Effects) → check_effects l ≡ none → All IsEffect l
unfolding check_effects
check_effects_sound [] h = tt
check_effects_sound ((key, status) ∷ l) h =
    let (known, rest) = orelse_split _ _ h in
    let (said, last) = orelse_split _ _ rest in
    (
      (valid_sound key (refuse_split _ _ known), status_sound status (refuse_split _ _ said)),
      check_effects_sound l last,
    )

pub check_effects_complete : (l : Effects) → All IsEffect l → check_effects l ≡ none
unfolding check_effects
check_effects_complete [] h = refl
check_effects_complete ((key, status) ∷ l) h =
    orelse_join _ _ (ground arith) (orelse_join _ _ (ground arith) (check_effects_complete l h.1))

pub check_acceptance_sound : (a : Acceptance) → check_acceptance a ≡ none → IsAcceptance a
unfolding check_acceptance
check_acceptance_sound a h =
    ground (arith, eq_iff a.source_tip "", eq_iff a.replay_base "", eq_iff a.verified_head "")

pub check_acceptance_complete : (a : Acceptance) → IsAcceptance a → check_acceptance a ≡ none
unfolding check_acceptance
check_acceptance_complete a h =
    ground (arith, eq_iff a.source_tip "", eq_iff a.replay_base "", eq_iff a.verified_head "")
