-- ===== src/Retirement/Keeps.antt =====
-- The stages of RetireSession up to its completion keep every active generation active: one rule
-- for each way to build an action, and the stages by those rules.
use bivouac.Prelude.{
  Bool, true, false, String, Option, none, some, List, [], ◌∷◌, map, if◌then◌else◌, Result, ok, err,
}
use bivouac.State.Types.{
  HerdrAttachment, done, RetirementPhase, Acceptance, Retirement, Session, Record, Json,
}
use bivouac.State.Settle.{ReadsBack}
use bivouac.State.Sessions.{find_session}
use bivouac.State.Store.{StoreError, update, get}
use bivouac.Retirement.Types.{Failure, MutateError, RetireError, Env}
use bivouac.Retirement.Journal.{
  is_closed, effect_done, retirement_effect_order, append_acceptance, append_unique, intend,
  complete_attachment, finish_effect, set_phase, set_effect, accept_check, close_attachment,
  update_sessions,
}
use bivouac.Retirement.Exec.{World, Exec, pure, fail, ask, lift, ◌>>=◌, >>=-keeps}
use bivouac.Retirement.Steps.{
  Loaded, on_store, checked, store_update, update_retirement, got, store_get, loaded_retirement,
  loaded_session, loaded, reload_retirement, record_failure, pause_retirement, close_failed,
  close_attachments, effect_attempted, effect_step, run_effects, run_retirement_effects,
}
use bivouac.Retirement.Active.{
  IsActive, KeepsGeneration, KeepsActive, with_retirement-KeepsGeneration,
  update_sessions-KeepsActive, update-IsActive, has_generation,
}

pub intend-KeepsGeneration : (key : String) → KeepsGeneration (intend key)
unfolding intend
intend-KeepsGeneration key = with_retirement-KeepsGeneration _

pub finish_effect-KeepsGeneration : (key : String) → KeepsGeneration (finish_effect key)
unfolding finish_effect
finish_effect-KeepsGeneration key = with_retirement-KeepsGeneration _

pub set_phase-KeepsGeneration : (p : RetirementPhase) → KeepsGeneration (set_phase p)
unfolding set_phase
set_phase-KeepsGeneration p = with_retirement-KeepsGeneration (λ r. ok (record r { phase = p }))

pub accept_check-KeepsGeneration :
    (a : Acceptance) (signed : List String) (p : RetirementPhase)
    → KeepsGeneration (accept_check a signed p)
unfolding accept_check
accept_check-KeepsGeneration a signed p = with_retirement-KeepsGeneration (λ r. ok (record r {
  accepted = append_acceptance r.accepted a;
  signed = append_unique r.signed signed;
  phase = p;
  last_failure = "";
  paused_on = "";
}))

pub record_failure-KeepsGeneration :
    (p : RetirementPhase) (cause : Failure) → KeepsGeneration (record_failure p cause)
unfolding record_failure
record_failure-KeepsGeneration p cause = with_retirement-KeepsGeneration (λ r. ok (record r {
  phase = p;
  last_failure = cause.text;
  paused_on = if cause.unsynced then "issues" else "";
}))

pub complete_attachment-KeepsGeneration :
    (id key : String) → KeepsGeneration (complete_attachment id key)
unfolding complete_attachment
complete_attachment-KeepsGeneration id key s s' h =
    with_retirement-KeepsGeneration (set_effect key done)
      (record s { attachments = map (close_attachment id) s.attachments }) s' h

module _ (json : Json) (laws : ReadsBack json) (instance_name generation : String) {env : Env} where
  -- The action keeps the generation active, whether it returns or stops.
  pub record Keeps {A : Type 0} (m : Exec env A) : Type 0 where
    pub at :
        (w : World env)
        → IsActive json instance_name generation w.disk
        → IsActive json instance_name generation (m w).1.disk

  pub Keeps-pure : {A : Type 0} (a : A) → Keeps (pure a)
  unfolding pure
  Keeps-pure a = record { at = λ w h. h }

  pub Keeps-fail : {A : Type 0} (e : RetireError) → Keeps {A = A} (fail e)
  unfolding fail
  Keeps-fail e = record { at = λ w h. h }

  pub Keeps-lift : {A : Type 0} (r : Result RetireError A) → Keeps (lift r)
  unfolding lift
  Keeps-lift r = record { at = λ w h. h }

  pub Keeps-ask : {A : Type 0} (question : env.Outside → A × env.Outside) → Keeps (ask question)
  unfolding ask
  Keeps-ask question = record { at = λ w h. h }

  pub Keeps-if :
      {A : Type 0} (b : Bool) (m n : Exec env A) → Keeps m → Keeps n → Keeps (if b then m else n)
  Keeps-if true m n km kn = km
  Keeps-if false m n km kn = kn

  pub Keeps-bind :
      {A B : Type 0} (m : Exec env A) (f : A → Exec env B)
      → Keeps m
      → ((a : A) → Keeps (f a))
      → Keeps (m >>= f)
  Keeps-bind m f km kf = record {
    at = >>=-keeps (λ w. IsActive json instance_name generation w.disk) m f km.at (λ a. (kf a).at);
  }

  on_store-keeps :
      (written : String) (mutate : Record → Result MutateError Record) (w : World env)
      → KeepsActive generation mutate
      → IsActive json instance_name generation w.disk
      → IsActive json instance_name generation
          (on_store json (λ f d. update json f written mutate d) w).1.disk
  unfolding on_store
  on_store-keeps written mutate w k h =
      update-IsActive json laws instance_name generation (env.store_faults w.outside).0 written
        mutate w.disk k h

  pub Keeps-store_update :
      (written : String) (mutate : Record → Result MutateError Record)
      → KeepsActive generation mutate
      → Keeps (store_update json written mutate)
  unfolding store_update
  Keeps-store_update written mutate k = record {
    at = λ w h. go _ (on_store-keeps written mutate w k h);
  }
    where
      go :
          (r : Result (StoreError MutateError) (Unit {0}) × World env)
          → IsActive json instance_name generation r.1.disk
          → IsActive json instance_name generation (checked json r).1.disk
      go (ok u, v) h = h
      go (err e, v) h = h

  pub Keeps-update_retirement :
      (written g : String) (change : Session → Result MutateError Session)
      → KeepsGeneration change
      → Keeps (update_retirement json written g change)
  unfolding update_retirement
  Keeps-update_retirement written g change k =
      Keeps-store_update written (update_sessions g change)
        (update_sessions-KeepsActive generation g change k)

  Keeps-got :
      (r : Result (StoreError MutateError) (Option Record)) (w : World env)
      → IsActive json instance_name generation w.disk
      → IsActive json instance_name generation (got json r w).1.disk
  unfolding got
  Keeps-got (ok o) w h = h
  Keeps-got (err e) w h = h

  pub Keeps-store_get : (read : String) → Keeps (store_get json read)
  unfolding store_get
  Keeps-store_get read = record {
    at = λ w h.
        let (f, o) = env.store_faults w.outside in
        Keeps-got (get json f w.disk read) (record w { outside = o }) h;
  }

  pub Keeps-pause :
      {A : Type 0} (written : String) (l : Loaded) (cause : Failure)
      → Keeps {A = A} (pause_retirement json written l cause)
  unfolding pause_retirement
  Keeps-pause written l cause = record {
    at = λ w h.
        on_store-keeps written _ w
          (update_sessions-KeepsActive generation l.sess.generation _
            (record_failure-KeepsGeneration _ cause))
          h;
  }

  pub ruleset keeps_rules = (
    Keeps-pure, Keeps-fail, Keeps-lift, Keeps-ask, Keeps-if, Keeps-bind, Keeps-update_retirement,
    Keeps-store_get, Keeps-pause, intend-KeepsGeneration, finish_effect-KeepsGeneration,
    set_phase-KeepsGeneration, accept_check-KeepsGeneration, complete_attachment-KeepsGeneration,
    with_retirement-KeepsGeneration,
  )

  Keeps-loaded_retirement :
      (r : Record) (s : Session) (o : Option Retirement) → Keeps (loaded_retirement json r s o)
  unfolding loaded_retirement
  Keeps-loaded_retirement r s none = search keeps_rules
  Keeps-loaded_retirement r s (some x) = search keeps_rules

  Keeps-loaded_session : (r : Record) (o : Option Session) → Keeps (loaded_session json r o)
  unfolding loaded_session
  Keeps-loaded_session r none = search keeps_rules
  Keeps-loaded_session r (some s) = Keeps-loaded_retirement r s s.retirement

  Keeps-loaded : (session : String) (o : Option Record) → Keeps (loaded json session o)
  unfolding loaded
  Keeps-loaded session none = search keeps_rules
  Keeps-loaded session (some r) = Keeps-loaded_session r (find_session r session)

  pub Keeps-reload : (read session : String) → Keeps (reload_retirement json read session)
  unfolding reload_retirement
  Keeps-reload read session = search (keeps_rules, Keeps-loaded)

  Keeps-close_failed :
      (written : String) (l : Loaded) (o : Option Failure) → Keeps (close_failed json written l o)
  unfolding close_failed
  Keeps-close_failed written l none = search keeps_rules
  Keeps-close_failed written l (some cause) = search keeps_rules

  pub Keeps-close_attachments :
      (written : String) (l : Loaded) (rest : List HerdrAttachment)
      → Keeps (close_attachments json written l rest)
  unfolding close_attachments
  Keeps-close_attachments written l [] = search keeps_rules
  Keeps-close_attachments written l (a ∷ rest) =
      Keeps-if (is_closed a.phase) _ _ (Keeps-close_attachments written l rest) (
        Keeps-bind _ _ (search keeps_rules) λ _. Keeps-bind _ _ (Keeps-ask _) λ failed.
          Keeps-bind _ _ (Keeps-close_failed written l failed)
            λ _. Keeps-bind _ _ (search keeps_rules) λ _. Keeps-close_attachments written l rest)

  Keeps-effect_attempted :
      (r : Record) (s : Session) (current : Loaded) (key : String) (failed : Bool)
      (o : Option Failure)
      → Keeps (effect_attempted json r s current key failed o)
  unfolding effect_attempted
  Keeps-effect_attempted r s current key failed none = search keeps_rules
  Keeps-effect_attempted r s current key failed (some cause) = search keeps_rules

  Keeps-effect_step :
      (r : Record) (s : Session) (key : String) (failed : Bool) (current : Loaded)
      → Keeps (effect_step json r s key failed current)
  unfolding effect_step
  Keeps-effect_step r s key failed current =
      Keeps-if (effect_done current.retirement key) _ _ (search keeps_rules) (
        Keeps-bind _ _ (search keeps_rules)
          λ _. Keeps-bind _ _ (Keeps-ask _) λ o. Keeps-effect_attempted r s current key failed o)

  Keeps-run_effects :
      (r : Record) (s : Session) (keys : List String) (failed : Bool)
      → Keeps (run_effects json r s keys failed)
  unfolding run_effects
  Keeps-run_effects r s [] failed = search keeps_rules
  Keeps-run_effects r s (key ∷ keys) failed = Keeps-bind _ _ (Keeps-reload r.name s.name) λ current.
      Keeps-bind _ _ (Keeps-effect_step r s key failed current)
        λ failed'. Keeps-run_effects r s keys failed'

  pub Keeps-run_retirement_effects :
      (r : Record) (s : Session) → Keeps (run_retirement_effects json r s)
  unfolding run_retirement_effects
  Keeps-run_retirement_effects r s = Keeps-run_effects r s retirement_effect_order false
