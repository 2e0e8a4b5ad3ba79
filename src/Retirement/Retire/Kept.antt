-- ===== src/Retirement/Retire/Kept.antt =====
-- A retirement never loses a session: a generation that is active when RetireSession starts is, when
-- it is over, active still, or accounted for by a receipt.
use bivouac.Prelude.{
  Bool, true, false, not, ◌≢◌, String, Option, none, some, get_last?, Result, ok, err,
}
use bivouac.State.Types.{Acceptance, RetirementReceipt, Session, Record, Json}
use bivouac.State.Settle.{ReadsBack}
use bivouac.State.Sessions.{find_session}
use bivouac.State.Generation.{new_session_generation}
use bivouac.State.Validate.{is_empty}
use bivouac.State.Store.{StoreError, CompleteError, complete_retirement}
use bivouac.Retirement.Types.{RetirementOptions, RetirementPolicy, Failure, RetireError, Env}
use bivouac.Retirement.Exec.{World, Exec, ask}
use bivouac.Retirement.Steps.{Loaded}
use bivouac.Retirement.Active.{IsActive}
use bivouac.Retirement.Keeps.{
  Keeps, Keeps-if, Keeps-bind, Keeps-ask, Keeps-pure, Keeps-store_update, Keeps-reload,
  Keeps-run_retirement_effects,
}
use bivouac.Retirement.Options.{give_generation}
use bivouac.Retirement.Intent.{read_or_zero, made_generation, ensure_generation}
use bivouac.Retirement.Journal.{retirement_effects_done}
use bivouac.Retirement.Options.{policy_of, receipt_of, check_options}
use bivouac.Retirement.Steps.{is_removing, reload_retirement, store_update, store_get}
use bivouac.Retirement.Intent.{settle_intent}
use bivouac.Retirement.Keeps.{Keeps-fail, Keeps-lift, Keeps-store_get, Keeps-pause}
use bivouac.Retirement.Phases.{
  check_step, close_step, final_step, complete, complete_now, completion, finish, effects_ran,
  run_all_effects, validated, remove_accepted, remove_step, run_phases,
}
use bivouac.Retirement.Retire.{
  retire_active, retire_session_of, retire_record, locked, checked_retire, retire_session,
}
use bivouac.Retirement.Retire.Frame.{
  Keeps-settle_intent, Keeps-check_step, Keeps-close_step, Keeps-final_step,
}
use bivouac.Retirement.Retire.Accounts.{
  give_generation-KeepsActive, IsAccounted, Accounts, Accounts-Keeps, Accounts-if, Accounts-bind,
  Accounts-then, complete_retirement-IsAccounted,
}

module _ (json : Json) (laws : ReadsBack json) (instance_name generation : String) where
  module _ (o : RetirementOptions) (session : String) {env : Env} where
    abbrev Accounted : {A : Type 0} → Exec env A → Type 0
    Accounted m = Accounts json laws instance_name generation m

    Accounts-complete :
        (other : String) (receipt : RetirementReceipt)
        → Accounted (complete json o instance_name session other receipt)
    unfolding complete
    Accounts-complete other receipt = record {
      at = λ w h.
          let f = (env.store_faults w.outside).0 in
          let r = complete_retirement json f instance_name other receipt w.disk in
          go r.0 _ (
            complete_retirement-IsAccounted json laws instance_name generation f other receipt
              w.disk h);
    }
      where
        go :
            (res : Result (StoreError CompleteError) (Unit {0})) (v : World env)
            → IsAccounted json laws instance_name generation v.disk
            → IsAccounted json laws instance_name generation (completion res v).1.disk
        go (ok u) v k = k
        go (err e) v k = k

    Accounts-complete_now :
        (a : Acceptance) (done : Loaded)
        → Accounted (complete_now json o instance_name session a done)
    unfolding complete_now
    Accounts-complete_now a done =
        Accounts-bind json laws instance_name generation (ask env.now) _
          (Keeps-ask json laws instance_name generation env.now)
          λ now.
            Accounts-then json laws instance_name generation
              (complete json o instance_name session done.sess.generation (receipt_of done now)) _
              (Accounts-complete done.sess.generation (receipt_of done now))

    Accounts-finish :
        (l done : Loaded) (a : Acceptance)
        → Accounted (finish json o instance_name session l a done)
    unfolding finish
    Accounts-finish l done a =
        Accounts-if json laws instance_name generation
          (not (retirement_effects_done done.sess done.retirement)) _ _
          (Accounts-Keeps json laws instance_name generation _
            (Keeps-pause json laws instance_name generation instance_name done _))
          (Accounts-complete_now a done)

    Accounts-effects_ran :
        (l : Loaded) (a : Acceptance) (r : Result RetireError (Unit {0}))
        → Accounted (effects_ran json o instance_name session l a r)
    unfolding effects_ran
    Accounts-effects_ran l a (err e) =
        Accounts-Keeps json laws instance_name generation _
          (Keeps-pause json laws instance_name generation instance_name l _)
    Accounts-effects_ran l a (ok u) =
        Accounts-bind json laws instance_name generation
          (reload_retirement json instance_name session) _
          (Keeps-reload json laws instance_name generation instance_name session)
          λ done. Accounts-finish l done a

    Keeps-run_all_effects :
        (l : Loaded)
        → Keeps json laws instance_name generation {env = env}
            (run_all_effects json o instance_name session l)
    unfolding run_all_effects
    Keeps-run_all_effects l = record {
      at =
          (Keeps-run_retirement_effects json laws instance_name generation l.instance_record
            l.sess).at;
    }

    Accounts-validated :
        (l : Loaded) (a : Acceptance) (answer : Option Failure)
        → Accounted (validated json o instance_name session l a answer)
    unfolding validated
    Accounts-validated l a (some cause) =
        Accounts-Keeps json laws instance_name generation _
          (Keeps-pause json laws instance_name generation instance_name l cause)
    Accounts-validated l a none =
        Accounts-bind json laws instance_name generation
          (run_all_effects json o instance_name session l) _ (Keeps-run_all_effects l)
          λ r. Accounts-effects_ran l a r

    Accounts-remove_accepted :
        (policy : RetirementPolicy) (l : Loaded) (e : Option Acceptance)
        → Accounted (remove_accepted json o instance_name session policy l e)
    unfolding remove_accepted
    Accounts-remove_accepted policy l none =
        Accounts-Keeps json laws instance_name generation _
          (Keeps-pause json laws instance_name generation instance_name l _)
    Accounts-remove_accepted policy l (some a) =
        Accounts-bind json laws instance_name generation
          (ask (env.validate policy l.instance_record l.sess a)) _
          (Keeps-ask json laws instance_name generation _) λ answer. Accounts-validated l a answer

    Accounts-remove_step :
        (policy : RetirementPolicy) (l : Loaded)
        → Accounted (remove_step json o instance_name session policy l)
    unfolding remove_step
    Accounts-remove_step policy l =
        Accounts-if json laws instance_name generation (is_removing l.retirement.phase) _ _
          (Accounts-remove_accepted policy l (get_last? l.retirement.accepted))
          (Accounts-Keeps json laws instance_name generation _
            (Keeps-fail json laws instance_name generation _))

    Accounts-run_phases : (l : Loaded) → Accounted (run_phases json o instance_name session l)
    unfolding run_phases
    Accounts-run_phases l =
        let policy = policy_of o l.retirement in
        Accounts-bind json laws instance_name generation
          (check_step json o instance_name session policy l) _
          (Keeps-check_step json laws o instance_name session generation policy l)
          λ checked.
            Accounts-bind json laws instance_name generation
              (close_step json o instance_name session checked) _
              (Keeps-close_step json laws o instance_name session generation checked)
              λ closed.
                Accounts-bind json laws instance_name generation
                  (final_step json o instance_name session policy closed) _
                  (Keeps-final_step json laws o instance_name session generation policy closed)
                  λ final. Accounts-remove_step policy final

    Keeps-made_generation :
        generation ≢ ""
        → (given : Option String)
        → Keeps json laws instance_name generation {env = env}
            (made_generation json o instance_name session given)
    unfolding made_generation read_or_zero
    Keeps-made_generation named none = Keeps-fail json laws instance_name generation _
    Keeps-made_generation named (some given) =
        Keeps-bind json laws instance_name generation
          (store_update json instance_name (give_generation session given)) _
          (Keeps-store_update json laws instance_name generation instance_name _
            (give_generation-KeepsActive generation session given named))
          λ _. record { at = λ w h. h }

    Keeps-ensure_generation :
        (r : Record) (s : Session)
        → generation ≢ ""
        → Keeps json laws instance_name generation {env = env}
            (ensure_generation json o instance_name session r s)
    unfolding ensure_generation
    Keeps-ensure_generation r s named =
        Keeps-if json laws instance_name generation (not (is_empty s.generation)) _ _
          (Keeps-pure json laws instance_name generation _)
          (Keeps-bind json laws instance_name generation (ask env.random) _
            (Keeps-ask json laws instance_name generation env.random)
            λ random.
              Keeps-bind json laws instance_name generation
                (made_generation json o instance_name session (new_session_generation random)) _
                (Keeps-made_generation named (new_session_generation random))
                λ r'. Keeps-pure json laws instance_name generation _)

    Accounts-retire_active :
        (r : Record) (s : Session)
        → generation ≢ ""
        → Accounted (retire_active json o instance_name session r s)
    unfolding retire_active
    Accounts-retire_active r s named =
        Accounts-if json laws instance_name generation (not s.attachments_known) _ _
          (Accounts-Keeps json laws instance_name generation _
            (Keeps-fail json laws instance_name generation _))
          (Accounts-bind json laws instance_name generation
            (ensure_generation json o instance_name session r s) _
            (Keeps-ensure_generation r s named)
            λ (r', s').
              Accounts-bind json laws instance_name generation
                (settle_intent json o instance_name session r' s' s'.retirement) _
                (Keeps-settle_intent json laws o instance_name session generation r' s'
                  s'.retirement)
                λ l. Accounts-run_phases l)

    Accounts-retire_record :
        (found : Option Record)
        → generation ≢ ""
        → Accounted (retire_record json o instance_name session found)
    unfolding retire_record retire_session_of
    Accounts-retire_record none named =
        Accounts-Keeps json laws instance_name generation _
          (Keeps-fail json laws instance_name generation _)
    Accounts-retire_record (some r) named = go (find_session r session)
      where
        go : (s : Option Session) → Accounted (retire_session_of json o instance_name session r s)
        go none =
            Accounts-Keeps json laws instance_name generation _
              (Keeps-lift json laws instance_name generation _)
        go (some s) = Accounts-retire_active r s named

    Keeps-locked :
        (b : Bool)
        → Keeps json laws instance_name generation {env = env}
            (locked json o instance_name session b)
    unfolding locked
    Keeps-locked true = Keeps-fail json laws instance_name generation _
    Keeps-locked false = Keeps-pure json laws instance_name generation _

    Accounts-checked_retire :
        (refused : Option RetireError)
        → generation ≢ ""
        → Accounted (checked_retire json o instance_name session refused)
    unfolding checked_retire
    Accounts-checked_retire (some e) named =
        Accounts-Keeps json laws instance_name generation _
          (Keeps-fail json laws instance_name generation e)
    Accounts-checked_retire none named =
        Accounts-bind json laws instance_name generation (ask env.lock) _
          (Keeps-ask json laws instance_name generation env.lock)
          λ a.
            Accounts-bind json laws instance_name generation (locked json o instance_name session a)
              _ (Keeps-locked a)
              λ _.
                Accounts-bind json laws instance_name generation (ask env.lock) _
                  (Keeps-ask json laws instance_name generation env.lock)
                  λ b.
                    Accounts-bind json laws instance_name generation
                      (locked json o instance_name session b) _ (Keeps-locked b)
                      λ _.
                        Accounts-bind json laws instance_name generation
                          (store_get json instance_name) _
                          (Keeps-store_get json laws instance_name generation instance_name)
                          λ found. Accounts-retire_record found named

    -- Whatever RetireSession is asked to retire in an instance, and whatever fails on the way: a
    -- generation other than the empty one that a session of the instance had in the state file
    -- before is afterwards still that of a session in the file, or of a receipt in it.
    pub retire_session-IsAccounted :
        (w : World env)
        → generation ≢ ""
        → IsActive json instance_name generation w.disk
        → IsAccounted json laws instance_name generation
            (retire_session json o instance_name session w).1.disk
    unfolding retire_session
    retire_session-IsAccounted w named h = (Accounts-checked_retire (check_options o) named).at w h
