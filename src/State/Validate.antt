-- ===== src/State/Validate.antt =====
-- The validation that every load and every save of the state file makes:
-- ValidateSessionLifecycle and what it calls in internal/state/session_lifecycle.go. An error is
-- a value; `none` is the source's nil.
pub mod Spec
pub mod Sound
pub mod Retired
use bivouac.Prelude.{
  ℕ, Bool, true, false, not, ◌&&◌, ◌||◌, String, Option, none, some, List, [], ◌∷◌, ◌==◌, any, eqb,
  cut_prefix, if◌then◌else◌,
}
use bivouac.State.Types.{
  AttachmentKind, workspace, named_session, legacy_profile, other_kind, AttachmentPhase,
  HerdrAttachment, RetirementOperation, merge, delete, other_operation, RetirementPhase,
  EffectStatus, intended, done, other_status, Acceptance, Effects, Retirement, RetirementReceipt,
  Session, Record, Json,
}
use bivouac.State.Generation.{generation_ok}

pub data Invalid : Type 0 where
  malformed_generation unknown_ownership duplicate_attachment no_generation : Invalid
  missing_id incomplete_address unknown_kind no_handle unknown_phase malformed_proof : Invalid
  unsupported_version unknown_operation force_on_merge incomplete_destination : Invalid
  no_effect_journal incomplete_acceptance no_evidence unknown_effect unknown_status : Invalid
  incomplete_receipt : Invalid

-- The first of two checks that fails.
infixr 30 ◌orelse◌
abbrev pub ◌orelse◌ : Option Invalid → Option Invalid → Option Invalid
none orelse e = e
(some i) orelse e = some i

-- `if b { return fmt.Errorf(…) }`
abbrev pub refuse_if : Bool → Invalid → Option Invalid
refuse_if true i = some i
refuse_if false i = none

-- A loop that returns the first error.
abbrev pub each {ℓ} : {A : Type ℓ} → (A → Option Invalid) → List A → Option Invalid
each f [] = none
each f (x ∷ xs) = f x orelse each f xs

abbrev pub is_empty : String → Bool
is_empty s = s == ""

abbrev pub is_creating : AttachmentPhase → Bool
is_creating AttachmentPhase.creating = true
is_creating _ = false

unfoldable pub check_kind : HerdrAttachment → AttachmentKind → Option Invalid
check_kind a workspace =
    refuse_if
      (is_empty a.address.machine_id
        || is_empty a.address.session
        || is_empty a.address.config_root)
      incomplete_address
check_kind a named_session =
    refuse_if (is_empty a.address.session || is_empty a.address.config_root) incomplete_address
check_kind a legacy_profile = none
check_kind a (other_kind _) = some unknown_kind

unfoldable pub check_phase : HerdrAttachment → AttachmentPhase → Option Invalid
check_phase a AttachmentPhase.creating = none
check_phase a AttachmentPhase.active = refuse_if (is_empty a.handle) no_handle
check_phase a AttachmentPhase.closing = refuse_if (is_empty a.handle) no_handle
check_phase a AttachmentPhase.closed = refuse_if (is_empty a.handle) no_handle
check_phase a (AttachmentPhase.other_phase _) = some unknown_phase

abbrev pub known_operation : RetirementOperation → Bool
known_operation merge = true
known_operation delete = true
known_operation (other_operation _) = false

abbrev pub is_delete : RetirementOperation → Bool
is_delete delete = true
is_delete _ = false

abbrev pub known_phase : RetirementPhase → Bool
known_phase (RetirementPhase.other_phase _) = false
known_phase _ = true

-- `advanced` of validateRetirement
abbrev pub advanced : RetirementPhase → Bool
advanced RetirementPhase.closing = true
advanced RetirementPhase.final_check = true
advanced RetirementPhase.removing = true
advanced _ = false

abbrev pub known_status : EffectStatus → Bool
known_status (other_status _) = false
known_status _ = true

abbrev pub no_acceptance : List Acceptance → Bool
no_acceptance [] = true
no_acceptance (_ ∷ _) = false

abbrev pub remote_checkout : String
remote_checkout = "remote-checkout"

abbrev pub local_worktree : String
local_worktree = "local-worktree"

abbrev pub beads_remote : String
beads_remote = "beads-remote"

abbrev pub git_remote : String
git_remote = "git-remote"

abbrev pub git_branch : String
git_branch = "git-branch"

abbrev pub replay_journal : String
replay_journal = "replay-journal"

unfoldable pub valid_effect_key : String → Bool
valid_effect_key key = elim (cut_prefix "herdr:" key) [
  | some rest ↦ not (is_empty rest)
  | none ↦
      key == remote_checkout
      || key == local_worktree
      || key == beads_remote
      || key == git_remote
      || key == git_branch
      || key == replay_journal
]

abbrev pub no_attachments : List HerdrAttachment → Bool
no_attachments [] = true
no_attachments (_ ∷ _) = false

unfoldable pub check_effects : Effects → Option Invalid
unfolding valid_effect_key
check_effects [] = none
check_effects ((key, status) ∷ rest) =
    refuse_if (not (valid_effect_key key)) unknown_effect
    orelse refuse_if (not (known_status status)) unknown_status
    orelse check_effects rest

unfoldable pub check_journal : Option Effects → Option Invalid
check_journal none = some no_effect_journal
check_journal (some _) = none

abbrev pub entries : Option Effects → Effects
entries none = []
entries (some effects) = effects

unfoldable pub check_acceptance : Acceptance → Option Invalid
check_acceptance a =
    refuse_if (is_empty a.source_tip || is_empty a.replay_base || is_empty a.verified_head)
      incomplete_acceptance

unfoldable pub check_evidence : Retirement → Option Invalid
check_evidence r =
    refuse_if
      (advanced r.phase && no_acceptance r.accepted && (not (is_delete r.operation) || not r.force))
      no_evidence

unfoldable pub validate_retirement : Retirement → Option Invalid
unfolding check_effects check_journal check_acceptance check_evidence
validate_retirement r =
    refuse_if (not (eqb r.version 1)) unsupported_version
    orelse refuse_if (not (known_operation r.operation)) unknown_operation
    orelse refuse_if (r.force && not (is_delete r.operation)) force_on_merge
    orelse refuse_if (not (known_phase r.phase)) unknown_phase
    orelse refuse_if
        (is_empty r.destination.local_repo
          || is_empty r.destination.git_dir
          || is_empty r.destination.branch)
        incomplete_destination
    orelse check_journal r.effects
    orelse each check_acceptance r.accepted
    orelse check_evidence r
    orelse check_effects (entries r.effects)

unfoldable pub check_retirement : Session → Option Retirement → Option Invalid
unfolding validate_retirement
check_retirement sess none = none
check_retirement sess (some r) =
    refuse_if (is_empty sess.generation) no_generation orelse validate_retirement r

unfoldable pub validate_receipt : RetirementReceipt → Option Invalid
validate_receipt receipt =
    refuse_if
      (is_empty receipt.session || is_empty receipt.local_repo || eqb receipt.completed_at 0)
      incomplete_receipt
    orelse refuse_if (not (generation_ok receipt.generation)) malformed_generation
    orelse refuse_if (not (known_operation receipt.operation)) unknown_operation

module _ (json : Json) where
  unfoldable pub validate_attachment : HerdrAttachment → Option Invalid
  unfolding check_kind check_phase
  validate_attachment a =
      refuse_if (is_empty a.id) missing_id
      orelse check_kind a a.kind
      orelse check_phase a a.phase
      orelse refuse_if
          (a.owned
            && not (is_creating a.phase)
            && (is_empty a.proof.scheme
                || is_empty a.proof.payload
                || not (json.valid a.proof.payload)))
          malformed_proof

  -- The loop over the attachments, with the identities seen so far.
  unfoldable pub check_attachments : List String → List HerdrAttachment → Option Invalid
  unfolding validate_attachment
  check_attachments seen [] = none
  check_attachments seen (a ∷ rest) =
      validate_attachment a
      orelse refuse_if (any (λ id. id == a.id) seen) duplicate_attachment
      orelse check_attachments (a.id ∷ seen) rest

  unfoldable pub validate_session_lifecycle : Session → Option Invalid
  unfolding check_attachments check_retirement
  validate_session_lifecycle sess =
      refuse_if (not (is_empty sess.generation) && not (generation_ok sess.generation))
        malformed_generation
      orelse refuse_if (not sess.attachments_known && not (no_attachments sess.attachments))
          unknown_ownership
      orelse check_attachments [] sess.attachments
      orelse check_retirement sess sess.retirement

  unfoldable pub validate_record_lifecycle : Record → Option Invalid
  unfolding validate_receipt
  validate_record_lifecycle r =
      each validate_session_lifecycle r.sessions orelse each validate_receipt r.retirement_receipts
