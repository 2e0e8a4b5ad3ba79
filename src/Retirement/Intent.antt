-- ===== src/Retirement/Intent.antt =====
-- The first stages of RetireSession: the generation of an old session, and the intent that a run
-- records or resumes.
use bivouac.Prelude.{true, not, String, Option, none, some, if◌then◌else◌, Result, ok, err}
use bivouac.State.Types.{Retirement, Destination, Session, Record, Json}
use bivouac.State.Generation.{new_session_generation}
use bivouac.State.Validate.{is_empty}
use bivouac.State.Sessions.{find_session}
use bivouac.State.Store.{get}
use bivouac.Retirement.Types.{
  RetirementOptions, Failure, no_randomness, no_destination, retirement_failed, Env,
}
use bivouac.Retirement.Journal.{with_retirement}
use bivouac.Retirement.Exec.{Exec, pure, fail, ask, ◌>>=◌, ◌>>◌}
use bivouac.Retirement.Steps.{Loaded, store_update, update_retirement}
use bivouac.Retirement.Options.{
  other_intent, replaceable, raises_force, new_retirement, set_retirement, give_generation, or_zero,
  or_zero_record, immutable_intent,
}

module _ (json : Json) {env : Env} (o : RetirementOptions) (instance_name session : String) where
  -- `record, _, _ = store.Get(instance)`
  unfoldable pub read_or_zero : Exec env Record
  read_or_zero w =
      let (f, out) = env.store_faults w.outside in
      (ok (or_zero_record (get json f w.disk instance_name)), record w { outside = out })

  unfoldable pub made_generation : Option String → Exec env Record
  unfolding give_generation read_or_zero
  made_generation none = fail no_randomness
  made_generation (some generation) = do
    store_update json instance_name (give_generation session generation)
    read_or_zero

  unfoldable pub ensure_generation : Record → Session → Exec env (Record × Session)
  unfolding made_generation
  ensure_generation r s = if not (is_empty s.generation) then pure (r, s) else do
    random ← ask env.random
    r' ← made_generation (new_session_generation random)
    pure (r', or_zero (find_session r' session))

  -- The intent of a session that has none: it is recorded, in phase checking.
  unfoldable pub record_intent : Record → Session → Result Failure Destination → Exec env Loaded
  unfolding set_retirement
  record_intent r s (err cause) = fail (no_destination cause)
  record_intent r s (ok destination) =
      let retirement = new_retirement o destination in
      do
        update_retirement json instance_name s.generation (set_retirement retirement)
        pure (record {
          instance_record = r;
          sess = record s { retirement = some retirement };
          retirement = retirement;
        })

  unfoldable pub start_intent : Record → Session → Exec env Loaded
  unfolding record_intent
  start_intent r s = do destination ← ask (env.destination s); record_intent r s destination

  -- The intent of a session that has one.
  unfoldable pub resume_intent : Record → Session → Retirement → Exec env Loaded
  resume_intent r s retirement =
      if other_intent o retirement
      then fail (retirement_failed o.operation retirement.phase immutable_intent none)
      else pure (record {
        instance_record = r;
        sess = record s { retirement = some retirement };
        retirement = retirement;
      })

  unfoldable pub settle_intent : Record → Session → Option Retirement → Exec env Loaded
  unfolding start_intent resume_intent
  settle_intent r s none = start_intent r s
  settle_intent r s (some retirement) =
      if replaceable o retirement
      then start_intent r (record s { retirement = none })
      else if raises_force o retirement
      then (do
        update_retirement json instance_name s.generation
            (with_retirement (λ x. ok (record x { force = true })))
        resume_intent r s (record retirement { force = true }))
      else resume_intent r s retirement
