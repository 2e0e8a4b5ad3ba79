-- ===== src/State/Validate/Spec.antt =====
-- What a well-formed session is, said without the order of the checks: the contract that the
-- validation of session_lifecycle.go decides.
use bivouac.Prelude.{true, false, ◌≡◌, ◌≢◌, ◌⊎◌, String, Option, none, some, List, [], ◌∷◌, All}
use bivouac.State.Types.{
  AttachmentKind, workspace, named_session, legacy_profile, other_kind, AttachmentPhase,
  HerdrAddress, HerdrAttachment, merge, delete, EffectStatus, intended, done, Acceptance, Effects,
  Retirement, RetirementReceipt, Session, Record, Json,
}
use bivouac.State.Generation.{generation_ok}
use bivouac.State.Validate.{valid_effect_key, known_phase, advanced}

-- A workspace needs a whole address, a named session all but the machine.
abbrev pub IsAddressed : AttachmentKind → HerdrAddress → Type 0
IsAddressed workspace a = (a.machine_id ≢ "") × (a.session ≢ "") × (a.config_root ≢ "")
IsAddressed named_session a = (a.session ≢ "") × (a.config_root ≢ "")
IsAddressed legacy_profile a = Unit
IsAddressed (other_kind _) a = ⊥

-- Past creation an attachment has a handle.
abbrev pub IsHandled : AttachmentPhase → String → Type 0
IsHandled AttachmentPhase.creating h = Unit
IsHandled AttachmentPhase.active h = h ≢ ""
IsHandled AttachmentPhase.closing h = h ≢ ""
IsHandled AttachmentPhase.closed h = h ≢ ""
IsHandled (AttachmentPhase.other_phase _) h = ⊥

pub record IsAttachment (json : Json) (a : HerdrAttachment) : Type 0 where
  pub identified : a.id ≢ ""
  pub addressed : IsAddressed a.kind a.address
  pub handled : IsHandled a.phase a.handle
  pub proved :
      a.owned ≡ true
      → a.phase ≢ AttachmentPhase.creating
      → (a.proof.scheme ≢ "") × (a.proof.payload ≢ "") × (json.valid a.proof.payload ≡ true)

-- No identity occurs twice, nor among those given.
abbrev pub HasFreshIds : List String → List HerdrAttachment → Type 0
HasFreshIds seen [] = Unit
HasFreshIds seen (a ∷ rest) = All (λ id. id ≢ a.id) seen × HasFreshIds (a.id ∷ seen) rest

pub record IsAcceptance (a : Acceptance) : Type 0 where
  pub tip : a.source_tip ≢ ""
  pub base : a.replay_base ≢ ""
  pub head : a.verified_head ≢ ""

abbrev pub IsEffect : String × EffectStatus → Type 0
IsEffect (key, status) = (valid_effect_key key ≡ true) × ((status ≡ intended) ⊎ (status ≡ done))

abbrev pub IsJournal : Option Effects → Type 0
IsJournal none = ⊥
IsJournal (some effects) = All IsEffect effects

pub record IsRetirement (r : Retirement) : Type 0 where
  pub versioned : r.version ≡ 1
  pub operated : (r.operation ≡ merge) ⊎ (r.operation ≡ delete)
  pub forced : r.force ≡ true → r.operation ≡ delete
  pub phased : known_phase r.phase ≡ true
  pub repo : r.destination.local_repo ≢ ""
  pub git_dir : r.destination.git_dir ≢ ""
  pub branch : r.destination.branch ≢ ""
  pub accepted : All IsAcceptance r.accepted
  -- No advanced phase without evidence, unless a forced delete discards the work.
  pub evidence :
      advanced r.phase ≡ true → (r.accepted ≢ []) ⊎ ((r.operation ≡ delete) × (r.force ≡ true))
  pub journal : IsJournal r.effects

abbrev pub IsRetirable : String → Option Retirement → Type 0
IsRetirable generation none = Unit
IsRetirable generation (some r) = (generation ≢ "") × IsRetirement r

pub record IsSession (json : Json) (s : Session) : Type 0 where
  pub generation : s.generation ≢ "" → generation_ok s.generation ≡ true
  pub ownership : s.attachments_known ≡ false → s.attachments ≡ []
  pub attachments : All (IsAttachment json) s.attachments
  pub distinct : HasFreshIds [] s.attachments
  pub retirement : IsRetirable s.generation s.retirement

pub record IsReceipt (r : RetirementReceipt) : Type 0 where
  pub session : r.session ≢ ""
  pub local_repo : r.local_repo ≢ ""
  pub completed : r.completed_at ≢ 0
  pub generation : generation_ok r.generation ≡ true
  pub operation : (r.operation ≡ merge) ⊎ (r.operation ≡ delete)

pub record IsRecord (json : Json) (r : Record) : Type 0 where
  pub sessions : All (IsSession json) r.sessions
  pub receipts : All IsReceipt r.retirement_receipts
