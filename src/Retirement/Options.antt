-- ===== src/Retirement/Options.antt =====
-- What RetireSession decides without asking anyone: its guards, the intents that may be replaced or
-- forced, the policy, and the values that it records (internal/lifecycle/retirement.go).
use bivouac.Prelude.{
  ℕ, Bool, true, false, not, ◌&&◌, ◌||◌, String, Option, none, some, [], ◌∷◌, ◌==◌, find,
  if◌then◌else◌, Result, ok, err,
}
use bivouac.State.Types.{
  RetirementOperation, merge, delete, other_operation, RetirementPhase, Effects, Retirement,
  Destination, RetirementReceipt, Session, Record,
}
use bivouac.State.Validate.{is_empty, known_operation, is_delete, no_acceptance}
use bivouac.State.Sessions.{find_session, put_session}
use bivouac.State.Store.{StoreError}
use bivouac.Retirement.Types.{
  RetirementOptions, RetirementResult, RetirementPolicy, Failure, MutateError, session_disappeared,
  RetireError, unsupported_operation, force_without_delete, accept_without_merge, session_not_found,
}
use bivouac.Retirement.Steps.{Loaded, is_removing, plain}

abbrev pub same_operation : RetirementOperation → RetirementOperation → Bool
same_operation merge merge = true
same_operation delete delete = true
same_operation (other_operation a) (other_operation b) = a == b
same_operation _ _ = false

abbrev pub same_bool : Bool → Bool → Bool
same_bool true b = b
same_bool false b = not b

abbrev pub is_merge : RetirementOperation → Bool
is_merge merge = true
is_merge _ = false

abbrev pub is_checking : RetirementPhase → Bool
is_checking RetirementPhase.checking = true
is_checking RetirementPhase.paused = true
is_checking _ = false

abbrev pub is_closing : RetirementPhase → Bool
is_closing RetirementPhase.closing = true
is_closing _ = false

abbrev pub is_final_check : RetirementPhase → Bool
is_final_check RetirementPhase.final_check = true
is_final_check _ = false

abbrev pub no_effects : Option Effects → Bool
no_effects none = true
no_effects (some []) = true
no_effects (some (_ ∷ _)) = false

-- The guards at the head of RetireSession.
unfoldable pub check_options : RetirementOptions → Option RetireError
check_options o =
    if not (known_operation o.operation)
    then some unsupported_operation
    else if o.force && not (is_delete o.operation)
    then some force_without_delete
    else if o.accept_unsynced && not (is_merge o.operation)
    then some accept_without_merge
    else none

-- Another intent than the one asked for.
abbrev pub other_intent : RetirementOptions → Retirement → Bool
other_intent o r = not (same_operation r.operation o.operation) || not (same_bool r.force o.force)

-- An intent that has protected nothing yet may be replaced by another.
unfoldable pub replaceable : RetirementOptions → Retirement → Bool
replaceable o r =
    other_intent o r && is_checking r.phase && no_acceptance r.accepted && no_effects r.effects

-- Force may be raised on a delete until its effects begin.
unfoldable pub raises_force : RetirementOptions → Retirement → Bool
raises_force o r =
    is_delete r.operation
    && is_delete o.operation
    && not r.force
    && o.force
    && not (is_removing r.phase)

-- mergeRetirementPolicy and deleteRetirementPolicy, as RetireSession chooses.
unfoldable pub policy_of : RetirementOptions → Retirement → RetirementPolicy
policy_of o r =
    if is_delete o.operation
    then record { operation = delete; force = r.force; accept_unsynced = false }
    else record { operation = merge; force = false; accept_unsynced = o.accept_unsynced }

abbrev pub new_retirement : RetirementOptions → Destination → Retirement
new_retirement o destination = record {
  version = 1;
  operation = o.operation;
  force = o.force;
  phase = RetirementPhase.checking;
  destination = destination;
  accepted = [];
  signed = [];
  effects = some [];
  last_failure = "";
  paused_on = "";
}

-- The mutation that records a new intent.
unfoldable pub set_retirement : Retirement → Session → Result MutateError Session
set_retirement r s = ok (record s { retirement = some r })

-- The mutation that gives an old session its generation.
unfoldable pub give_generation : String → String → Record → Result MutateError Record
give_generation session generation latest = elim (find_session latest session) [
  | none ↦ err session_disappeared
  | some current ↦
      if is_empty current.generation
      then ok (put_session latest (record current { generation = generation }))
      else ok latest
]

-- The zero values that the source goes on with where it ignores the error of a read.
abbrev pub zero_session : Session
zero_session = record {
  name = "";
  local_repo = "";
  base = "";
  repo_name = "";
  herdr_machine_id = "";
  generation = "";
  attachments_known = false;
  attachments = [];
  retirement = none;
  beads = none;
}

abbrev pub zero_record : Record
zero_record = record {
  name = "";
  provider = "";
  project = "";
  vm_id = "";
  ip = "";
  region = "";
  size = "";
  template = "";
  user = "";
  repo_path = "";
  tailscale_joined = false;
  herdr_machine_id = "";
  shell = "";
  image_ref = "";
  image_id = "";
  sessions = [];
  retirement_receipts = [];
}

abbrev pub or_zero : Option Session → Session
or_zero none = zero_session
or_zero (some s) = s

abbrev pub or_zero_record : Result (StoreError MutateError) (Option Record) → Record
or_zero_record (ok (some r)) = r
or_zero_record _ = zero_record

abbrev pub missing_ownership : Failure
missing_ownership = plain "session attachment ownership is unknown"

abbrev pub immutable_intent : Failure
immutable_intent = plain "session already has an immutable retirement intent"

-- The result for a session that was retired before.
unfoldable pub find_receipt :
    RetirementOptions → String → Record → Result RetireError RetirementResult
find_receipt o session r =
    elim (find (λ t. t.session == session && same_operation t.operation o.operation)
      r.retirement_receipts) [
        | none ↦ err session_not_found
        | some t ↦ ok (record {
          completed = true;
          already_completed = true;
          phase = RetirementPhase.other_phase "";
          signed = t.signed;
          issues = none;
        })
      ]

abbrev pub receipt_of : Loaded → ℕ → RetirementReceipt
receipt_of l now = record {
  session = l.sess.name;
  generation = l.sess.generation;
  local_repo = l.sess.local_repo;
  operation = l.retirement.operation;
  signed = l.retirement.signed;
  completed_at = now;
}
