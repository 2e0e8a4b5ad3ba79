-- ===== src/Retirement/Phases.antt =====
-- The phases of a retirement in RetireSession: check, close, final check, removal, completion.
use bivouac.Prelude.{
  true, false, not, String, Option, none, some, List, get_last?, if◌then◌else◌, Result, ok, err,
}
use bivouac.State.Types.{RetirementPhase, Acceptance, RetirementReceipt, Json}
use bivouac.State.Store.{StoreError, CompleteError, complete_retirement}
use bivouac.Retirement.Types.{
  RetirementOptions, RetirementResult, RetirementPolicy, Failure, RetireError, completion_failed,
  retirement_failed, Env,
}
use bivouac.Retirement.Journal.{
  retirement_attachments_done, retirement_effects_done, set_phase, accept_check,
}
use bivouac.Retirement.Exec.{World, Exec, pure, fail, ask, ◌>>=◌, ◌>>◌}
use bivouac.Retirement.Steps.{
  Loaded, is_removing, plain, update_retirement, reload_retirement, pause_retirement,
  close_attachments, run_retirement_effects,
}
use bivouac.Retirement.Options.{is_checking, is_closing, is_final_check, policy_of, receipt_of}

unfoldable pub completion :
    {env : Env}
    → Result (StoreError CompleteError) (Unit {0})
    → World env
    → Result RetireError (Unit {0}) × World env
completion (ok u) w = (ok u, w)
completion (err e) w = (err (completion_failed e), w)

module _ (json : Json) {env : Env} (o : RetirementOptions) (instance_name session : String) where
  -- A check has answered: its evidence is recorded with the next phase, or the retirement pauses.
  unfoldable pub after_check :
      Loaded → RetirementPhase → Result Failure (Acceptance × List String) → Exec env Loaded
  after_check l next (err cause) = pause_retirement json instance_name l cause
  after_check l next (ok (accepted, signed)) = do
    update_retirement json instance_name l.sess.generation (accept_check accepted signed next)
    reload_retirement json instance_name session

  -- Phases checking and paused.
  unfoldable pub check_step : RetirementPolicy → Loaded → Exec env Loaded
  unfolding after_check
  check_step policy l =
      if is_checking l.retirement.phase
      then (let closed = retirement_attachments_done l.sess in
          do
            answer ← ask (env.check policy l.instance_record l.sess closed)
            after_check l (if closed then RetirementPhase.removing else RetirementPhase.closing)
                answer)
      else pure l

  -- Phase closing.
  unfoldable pub close_step : Loaded → Exec env Loaded
  close_step l =
      if is_closing l.retirement.phase
      then (do
        close_attachments json instance_name l l.sess.attachments
        update_retirement json instance_name l.sess.generation
            (set_phase RetirementPhase.final_check)
        reload_retirement json instance_name session)
      else pure l

  -- Phase final-check.
  unfoldable pub final_step : RetirementPolicy → Loaded → Exec env Loaded
  unfolding after_check
  final_step policy l =
      if is_final_check l.retirement.phase
      then (do
        answer ← ask (env.check policy l.instance_record l.sess true)
        after_check l RetirementPhase.removing answer)
      else pure l

  -- CompleteRetirement, as an action.
  unfoldable pub complete : String → RetirementReceipt → Exec env (Unit {0})
  unfolding completion
  complete generation receipt w =
      let (f, out) = env.store_faults w.outside in
      let (res, d) = complete_retirement json f instance_name generation receipt w.disk in
      completion res (record { disk = d; outside = out })

  -- The receipt is written, and the result returned.
  unfoldable pub complete_now : Acceptance → Loaded → Exec env RetirementResult
  unfolding complete
  complete_now accepted done = do
    now ← ask env.now
    complete done.sess.generation (receipt_of done now)
    pure (record {
      completed = true;
      already_completed = false;
      phase = RetirementPhase.removing;
      signed = done.retirement.signed;
      issues = accepted.issues;
    })

  -- The effects have run: the retirement completes, unless one of them is not recorded as done.
  unfoldable pub finish : Loaded → Acceptance → Loaded → Exec env RetirementResult
  unfolding complete_now
  finish l accepted done =
      if not (retirement_effects_done done.sess done.retirement)
      then pause_retirement json instance_name done (plain "retirement effects remain incomplete")
      else complete_now accepted done

  -- An error of runRetirementEffects pauses the retirement too.
  unfoldable pub effects_ran :
      Loaded → Acceptance → Result RetireError (Unit {0}) → Exec env RetirementResult
  unfolding finish
  effects_ran l accepted (err e) = pause_retirement json instance_name l (plain (env.message e))
  effects_ran l accepted (ok _) = do
    done ← reload_retirement json instance_name session
    finish l accepted done

  unfoldable pub run_all_effects : Loaded → Exec env (Result RetireError (Unit {0}))
  run_all_effects l w =
      let (res, w') = run_retirement_effects json l.instance_record l.sess w in (ok res, w')

  unfoldable pub validated : Loaded → Acceptance → Option Failure → Exec env RetirementResult
  unfolding effects_ran run_all_effects
  validated l accepted (some cause) = pause_retirement json instance_name l cause
  validated l accepted none = do res ← run_all_effects l; effects_ran l accepted res

  -- Removal on the evidence accepted last.
  unfoldable pub remove_accepted :
      RetirementPolicy → Loaded → Option Acceptance → Exec env RetirementResult
  unfolding validated
  remove_accepted policy l none =
      pause_retirement json instance_name l (plain "missing required acceptance evidence")
  remove_accepted policy l (some accepted) = do
    answer ← ask (env.validate policy l.instance_record l.sess accepted)
    validated l accepted answer

  -- Phase removing.
  unfoldable pub remove_step : RetirementPolicy → Loaded → Exec env RetirementResult
  unfolding remove_accepted
  remove_step policy l =
      if is_removing l.retirement.phase
      then remove_accepted policy l (get_last? l.retirement.accepted)
      else fail (retirement_failed o.operation l.retirement.phase (plain "retirement paused") none)

  -- The phases, in their order, under the policy that the intent settles.
  unfoldable pub run_phases : Loaded → Exec env RetirementResult
  unfolding check_step close_step final_step remove_step
  run_phases l =
      let policy = policy_of o l.retirement in
      do
        checked ← check_step policy l
        closed ← close_step checked
        final ← final_step policy closed
        remove_step policy final
