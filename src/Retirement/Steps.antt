-- ===== src/Retirement/Steps.antt =====
-- The helpers of RetireSession that touch the state file: reloadRetirement, updateRetirement,
-- pauseRetirement, and the loops over attachments and effects.
use bivouac.Prelude.{
  Bool, true, false, not, ◌||◌, String, str_append, Option, none, some, List, [], ◌∷◌,
  if◌then◌else◌, Result, ok, err,
}
use bivouac.State.Types.{HerdrAttachment, RetirementPhase, Retirement, Session, Record, Json}
use bivouac.State.Sessions.{find_session}
use bivouac.State.Disk.{Disk}
use bivouac.State.Store.{StoreError, StoreFaults, get, update}
use bivouac.Retirement.Types.{
  Failure, MutateError, RetireError, instance_not_found, retirement_disappeared, effect_failures,
  store_failed, retirement_failed, Env,
}
use bivouac.Retirement.Journal.{
  herdr_key, effect_done, is_closed, with_retirement, intend, complete_attachment, finish_effect,
  update_sessions, retirement_effect_order,
}
use bivouac.Retirement.Exec.{World, Exec, pure, fail, ask, ◌>>=◌, ◌>>◌}

-- A record as it was read, its session, and that session's retirement.
pub record Loaded : Type 0 where
  pub instance_record : Record
  pub sess : Session
  pub retirement : Retirement

abbrev pub is_removing : RetirementPhase → Bool
is_removing RetirementPhase.removing = true
is_removing _ = false

-- The phase that a pause records.
abbrev pub pause_phase : RetirementPhase → RetirementPhase
pause_phase p = if is_removing p then RetirementPhase.removing else RetirementPhase.paused

abbrev pub plain : String → Failure
plain text = record { text = text; unproven = false; unsynced = false }

abbrev pub error_of : Result (StoreError MutateError) (Unit {0}) → Option (StoreError MutateError)
error_of (ok _) = none
error_of (err e) = some e

-- What an attachment that cannot be shown to be ours adds to the error.
abbrev pub advised : Failure → Failure
advised cause =
    if cause.unproven
    then record cause {
      text =
          str_append cause.text
            "; close the workspace in Herdr yourself and retry, or use --force to leave it open";
    }
    else cause

-- The mutation of pauseRetirement.
unfoldable pub record_failure : RetirementPhase → Failure → Session → Result MutateError Session
unfolding with_retirement
record_failure phase cause = with_retirement (λ r. ok (record r {
  phase = phase;
  last_failure = cause.text;
  paused_on = if cause.unsynced then "issues" else "";
}))

module _ (json : Json) {env : Env} where
  -- One operation on the state file, whose faults the world chooses.
  unfoldable pub on_store :
      (StoreFaults → Disk → Result (StoreError MutateError) (Unit {0}) × Disk)
      → World env
      → Result (StoreError MutateError) (Unit {0}) × World env
  on_store operation w =
      let (f, o) = env.store_faults w.outside in
      let (res, d) = operation f w.disk in (res, record { disk = d; outside = o })

  abbrev pub checked :
      Result (StoreError MutateError) (Unit {0}) × World env
      → Result RetireError (Unit {0}) × World env
  checked (ok u, w) = (ok u, w)
  checked (err e, w) = (err (store_failed e), w)

  -- store.Update
  unfoldable pub store_update : String → (Record → Result MutateError Record) → Exec env (Unit {0})
  unfolding on_store
  store_update instance_name mutate w =
      checked (on_store (λ f d. update json f instance_name mutate d) w)

  -- updateRetirement
  unfoldable pub update_retirement :
      String → String → (Session → Result MutateError Session) → Exec env (Unit {0})
  unfolding store_update
  update_retirement instance_name generation change =
      store_update instance_name (update_sessions generation change)

  unfoldable pub got :
      Result (StoreError MutateError) (Option Record)
      → World env
      → Result RetireError (Option Record) × World env
  got (ok o) w = (ok o, w)
  got (err e) w = (err (store_failed e), w)

  -- store.Get
  unfoldable pub store_get : String → Exec env (Option Record)
  unfolding got
  store_get instance_name w =
      let (f, o) = env.store_faults w.outside in
      got (get json f w.disk instance_name) (record w { outside = o })

  unfoldable pub loaded_retirement : Record → Session → Option Retirement → Exec env Loaded
  loaded_retirement r s none = fail retirement_disappeared
  loaded_retirement r s (some retirement) =
      pure (record { instance_record = r; sess = s; retirement = retirement })

  unfoldable pub loaded_session : Record → Option Session → Exec env Loaded
  unfolding loaded_retirement
  loaded_session r none = fail retirement_disappeared
  loaded_session r (some s) = loaded_retirement r s s.retirement

  unfoldable pub loaded : String → Option Record → Exec env Loaded
  unfolding loaded_session
  loaded session none = fail instance_not_found
  loaded session (some r) = loaded_session r (find_session r session)

  -- reloadRetirement
  unfoldable pub reload_retirement : String → String → Exec env Loaded
  unfolding loaded
  reload_retirement instance_name session = do o ← store_get instance_name; loaded session o

  -- pauseRetirement: the failure is recorded, and returned whether or not that worked.
  unfoldable pub pause_retirement : {A : Type 0} → String → Loaded → Failure → Exec env A
  unfolding on_store record_failure
  pause_retirement instance_name l cause w =
      let phase = pause_phase l.retirement.phase in
      let (res, w') =
        on_store
          (λ f d.
            update json f instance_name
              (update_sessions l.sess.generation (record_failure phase cause)) d)
          w in
      (err (retirement_failed l.retirement.operation phase cause (error_of res)), w')

  -- What a close that failed does: force steps over a workspace that cannot be shown to be ours.
  unfoldable pub close_failed : String → Loaded → Option Failure → Exec env (Unit {0})
  unfolding pause_retirement
  close_failed instance_name l none = pure tt
  close_failed instance_name l (some cause) =
      if not l.retirement.force || not cause.unproven
      then pause_retirement instance_name l (advised cause)
      else pure tt

  -- The loop over the attachments in phase closing.
  unfoldable pub close_attachments : String → Loaded → List HerdrAttachment → Exec env (Unit {0})
  unfolding close_failed
  close_attachments instance_name l [] = pure tt
  close_attachments instance_name l (a ∷ rest) =
      let later = close_attachments instance_name l rest in
      if is_closed a.phase then later else do
        update_retirement instance_name l.sess.generation (intend (herdr_key a.id))
        failed ← ask (env.close l.instance_record a)
        close_failed instance_name l failed
        update_retirement instance_name l.sess.generation
            (complete_attachment a.id (herdr_key a.id))
        later

  -- What follows the attempt at one effect: it is recorded as done, or fails the run at once unless
  -- the retirement is forced. The result says whether anything has failed so far.
  unfoldable pub effect_attempted :
      Record → Session → Loaded → String → Bool → Option Failure → Exec env Bool
  effect_attempted r sess current key failed none = do
    update_retirement r.name sess.generation (finish_effect key)
    pure failed
  effect_attempted r sess current key failed (some cause) =
      if current.retirement.force then pure true else fail effect_failures

  unfoldable pub effect_step : Record → Session → String → Bool → Loaded → Exec env Bool
  unfolding effect_attempted
  effect_step r sess key failed current =
      if effect_done current.retirement key then pure failed else do
        update_retirement r.name sess.generation (intend key)
        outcome ← ask (env.apply current.instance_record current.sess key)
        effect_attempted r sess current key failed outcome

  -- The loop of runRetirementEffects.
  unfoldable pub run_effects : Record → Session → List String → Bool → Exec env (Unit {0})
  unfolding effect_step
  run_effects r sess [] failed = if failed then fail effect_failures else pure tt
  run_effects r sess (key ∷ keys) failed = do
    current ← reload_retirement r.name sess.name
    failed' ← effect_step r sess key failed current
    run_effects r sess keys failed'

  -- runRetirementEffects
  unfoldable pub run_retirement_effects : Record → Session → Exec env (Unit {0})
  unfolding run_effects
  run_retirement_effects r sess = run_effects r sess retirement_effect_order false
