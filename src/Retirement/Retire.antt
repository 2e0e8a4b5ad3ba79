-- ===== src/Retirement/Retire.antt =====
-- RetireSession of internal/lifecycle/retirement.go, one function for each of its stages. Beside an
-- error the source returns what it knows of the result so far, which is left out.
pub mod Completion
pub mod Finished
pub mod Safety
pub mod Frame
pub mod Accounts
pub mod Kept
pub mod Wedged
use bivouac.Prelude.{
  ℕ, Bool, true, false, not, ◌&&◌, ◌||◌, String, Option, none, some, List, [], ◌∷◌, ◌==◌, find,
  get_last?, if◌then◌else◌, Result, ok, err,
}
use bivouac.State.Types.{
  RetirementOperation, merge, delete, other_operation, RetirementPhase, Acceptance, Effects,
  Retirement, Destination, IssueReceipt, RetirementReceipt, Session, Record, Json,
}
use bivouac.State.Generation.{new_session_generation}
use bivouac.State.Validate.{is_empty, known_operation, is_delete, no_acceptance}
use bivouac.State.Sessions.{find_session, put_session}
use bivouac.State.Disk.{Disk}
use bivouac.State.Store.{StoreError, StoreFaults, CompleteError, get, complete_retirement}
use bivouac.Retirement.Types.{
  RetirementOptions, RetirementResult, RetirementPolicy, Failure, MutateError, session_disappeared,
  RetireError, unsupported_operation, force_without_delete, accept_without_merge, lock_refused,
  instance_not_found, session_not_found, no_randomness, completion_failed, no_destination,
  retirement_failed, Env,
}
use bivouac.Retirement.Journal.{
  retirement_attachments_done, retirement_effects_done, with_retirement, set_phase, accept_check,
}
use bivouac.Retirement.Exec.{World, Exec, pure, fail, ask, lift, ◌>>=◌, ◌>>◌}
use bivouac.Retirement.Steps.{
  Loaded, is_removing, plain, store_update, update_retirement, store_get, reload_retirement,
  pause_retirement, close_attachments, run_retirement_effects,
}
use bivouac.Retirement.Options.{
  same_operation, same_bool, is_merge, is_checking, is_closing, is_final_check, no_effects,
  check_options, other_intent, replaceable, raises_force, policy_of, new_retirement, set_retirement,
  give_generation, zero_session, zero_record, or_zero, or_zero_record, missing_ownership,
  immutable_intent, find_receipt, receipt_of,
}
use bivouac.Retirement.Intent.{
  read_or_zero, made_generation, ensure_generation, record_intent, start_intent, resume_intent,
  settle_intent,
}
use bivouac.Retirement.Phases.{
  after_check, check_step, close_step, final_step, complete, finish, effects_ran, run_all_effects,
  validated, remove_accepted, remove_step, run_phases,
}

module _ (json : Json) {env : Env} (o : RetirementOptions) (instance_name session : String) where
  unfoldable pub retire_active : Record → Session → Exec env RetirementResult
  unfolding ensure_generation settle_intent run_phases
  retire_active r s =
      if not s.attachments_known
      then fail (retirement_failed o.operation RetirementPhase.paused missing_ownership none)
      else do
        (r', s') ← ensure_generation json o instance_name session r s
        l ← settle_intent json o instance_name session r' s' s'.retirement
        run_phases json o instance_name session l

  unfoldable pub retire_session_of : Record → Option Session → Exec env RetirementResult
  unfolding retire_active find_receipt
  retire_session_of r none = lift (find_receipt o session r)
  retire_session_of r (some s) = retire_active r s

  unfoldable pub retire_record : Option Record → Exec env RetirementResult
  unfolding retire_session_of
  retire_record none = fail instance_not_found
  retire_record (some r) = retire_session_of r (find_session r session)

  unfoldable pub locked : Bool → Exec env (Unit {0})
  locked true = fail lock_refused
  locked false = pure tt

  unfoldable pub checked_retire : Option RetireError → Exec env RetirementResult
  unfolding retire_record locked
  checked_retire (some e) = fail e
  checked_retire none = do
    instance_refused ← ask env.lock
    locked instance_refused
    session_refused ← ask env.lock
    locked session_refused
    found ← store_get json instance_name
    retire_record found

  -- RetireSession
  unfoldable pub retire_session : Exec env RetirementResult
  unfolding check_options checked_retire
  retire_session = checked_retire (check_options o)
