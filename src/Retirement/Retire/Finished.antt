-- ===== src/Retirement/Retire/Finished.antt =====
-- What the last phases of RetireSession have established when they return a result.
use bivouac.Prelude.{
  true, false, not, ◌≡◌, ◌≢◌, refl, ◌∙◌, ap, subst, inl, inr, ℕ, String, Option, none, some, arith,
  get_last?, Result, ok, err,
}
use bivouac.State.Types.{Acceptance, RetirementPhase, RetirementReceipt, Json}
use bivouac.State.Settle.{ReadsBack}
use bivouac.State.Store.{StoreError, CompleteError, complete_retirement}
use bivouac.Retirement.Types.{
  RetirementOptions, RetirementResult, RetirementPolicy, Failure, RetireError, Env,
}
use bivouac.Retirement.Journal.{retirement_effects_done}
use bivouac.Retirement.Exec.{World, pure, fail, ask, >>=-eq-ok, if-ok}
use bivouac.Retirement.Options.{policy_of, receipt_of}
use bivouac.Retirement.Steps.{Loaded, is_removing, pause_retirement, reload_retirement, got}
use bivouac.Retirement.Phases.{
  check_step, close_step, final_step, complete, complete_now, completion, finish, effects_ran,
  run_all_effects, validated, remove_accepted, remove_step, run_phases,
}
use bivouac.Retirement.Retire.Completion.{HasReceipt, complete_retirement-HasReceipt}

-- What stands behind a retirement that completed: evidence accepted last and found valid, the effects all
-- recorded as done in the session that was then read again, and the receipt of that session, which was
-- completed at once, in the state file.
pub record Retired (json : Json) {env : Env} (o : RetirementOptions)
    (instance_name session : String) (result : RetirementResult) (w : World env) : Type 0 where
  pub intent : Loaded
  pub before : Loaded
  pub evidence : Acceptance
  pub removing : is_removing before.retirement.phase ≡ true
  pub accepted : get_last? before.retirement.accepted ≡ some evidence
  pub closed : Loaded
  pub earlier : World env
  pub at : World env
  pub passed :
      final_step json o instance_name session (policy_of o intent.retirement) closed earlier
      ≡ (ok before, at)
  pub validated :
      (env.validate
        (policy_of o intent.retirement)
        before.instance_record
        before.sess
        evidence
        at.outside).0
      ≡ none
  pub after : Loaded
  pub reading : World env
  pub reread : World env
  pub again : reload_retirement json instance_name session reading ≡ (ok after, reread)
  pub effects : retirement_effects_done after.sess after.retirement ≡ true
  pub now : ℕ
  pub timed : World env
  pub clock : ask env.now reread ≡ (ok now, timed)
  pub completed :
      complete json o instance_name session after.sess.generation (receipt_of after now) timed
      ≡ (ok tt, w)
  pub receipt : HasReceipt json instance_name (receipt_of after now) w.disk
  pub reported : result ≡ record {
    completed = true;
    already_completed = false;
    phase = RetirementPhase.removing;
    signed = after.retirement.signed;
    issues = evidence.issues;
  }

completion-ok :
    {env : Env} (r : Result (StoreError CompleteError) (Unit {0})) (w v : World env)
    → completion r w ≡ (ok tt, v)
    → (r ≡ ok tt) × (w ≡ v)
unfolding completion
completion-ok (ok tt) w v h = (refl, ap (λ p. p.1) h)
completion-ok (err e) w v h = absurd (ground arith)

pause_retirement-fails :
    (json : Json) {env : Env} {A : Type 0} (instance_name : String) (l : Loaded) (cause : Failure)
    (w : World env) {a : A} {w' : World env}
    → pause_retirement json instance_name l cause w ≢ (ok a, w')
unfolding pause_retirement
pause_retirement-fails json instance_name l cause w h = ground arith

module _ (json : Json) (laws : ReadsBack json) {env : Env} (o : RetirementOptions)
    (instance_name session : String) where
  complete-HasReceipt :
      (generation : String) (receipt : RetirementReceipt) (w v : World env)
      → complete json o instance_name session generation receipt w ≡ (ok tt, v)
      → HasReceipt json instance_name receipt v.disk
  unfolding complete
  complete-HasReceipt generation receipt w v h =
      let f = (env.store_faults w.outside).0 in
      let r = complete_retirement json f instance_name generation receipt w.disk in
      let (good, same) = completion-ok r.0 _ v h in
      subst (λ x. HasReceipt json instance_name receipt x.disk) same
        (complete_retirement-HasReceipt json laws instance_name generation receipt f w.disk good)

  complete_now-ok :
      (a : Acceptance) (done : Loaded) (w : World env) {result : RetirementResult} {w' : World env}
      → complete_now json o instance_name session a done w ≡ (ok result, w')
      → (now : ℕ) × (timed : World env) × (ask env.now w ≡ (ok now, timed))
        × (complete json o instance_name session done.sess.generation (receipt_of done now) timed
            ≡ (ok tt, w'))
        × HasReceipt json instance_name (receipt_of done now) w'.disk
        × (result ≡ record {
          completed = true;
          already_completed = false;
          phase = RetirementPhase.removing;
          signed = done.retirement.signed;
          issues = a.issues;
        })
  unfolding complete_now pure
  complete_now-ok a done w h =
      let (now, v, clock, rest) = >>=-eq-ok (ask env.now) _ w h in
      let (u, v', made, last) =
        >>=-eq-ok (complete json o instance_name session done.sess.generation (receipt_of done now))
          _ v rest in
      (
        now,
        v,
        clock,
        made ∙ ap (λ x. (ok tt, x)) (ap (λ p. p.1) last),
        subst (λ x. HasReceipt json instance_name (receipt_of done now) x.disk) (ap (λ p. p.1) last)
            (complete-HasReceipt done.sess.generation (receipt_of done now) v v' made),
        ground arith,
      )

  finish-ok :
      (l done : Loaded) (a : Acceptance) (w : World env) {result : RetirementResult}
      {w' : World env}
      → finish json o instance_name session l a done w ≡ (ok result, w')
      → (retirement_effects_done done.sess done.retirement ≡ true)
        × (complete_now json o instance_name session a done w ≡ (ok result, w'))
  unfolding finish
  finish-ok l done a w h =
      elim (if-ok (not (retirement_effects_done done.sess done.retirement)) _ _ w h) [
        | inl (_, stopped) ↦ absurd (pause_retirement-fails json instance_name done _ w stopped)
        | inr (all_done, went) ↦ (ground arith, went)
      ]

  effects_ran-ok :
      (l : Loaded) (a : Acceptance) (r : Result RetireError (Unit {0})) (w : World env)
      {result : RetirementResult} {w' : World env}
      → effects_ran json o instance_name session l a r w ≡ (ok result, w')
      → (done : Loaded) × (x v : World env) × (reload_retirement json instance_name session x
          ≡ (ok done, v))
        × (finish json o instance_name session l a done v ≡ (ok result, w'))
  unfolding effects_ran
  effects_ran-ok l a (err e) w h = absurd (pause_retirement-fails json instance_name l _ w h)
  effects_ran-ok l a (ok u) w h =
      let (done, v, read, rest) = >>=-eq-ok (reload_retirement json instance_name session) _ w h in
      (done, w, v, read, rest)

  validated-ok :
      (l : Loaded) (a : Acceptance) (answer : Option Failure) (w : World env)
      {result : RetirementResult} {w' : World env}
      → validated json o instance_name session l a answer w ≡ (ok result, w')
      → (answer ≡ none)
        × (done : Loaded) × (x v : World env) × (reload_retirement json instance_name session x
            ≡ (ok done, v))
        × (finish json o instance_name session l a done v ≡ (ok result, w'))
  unfolding validated
  validated-ok l a (some cause) w h = absurd (pause_retirement-fails json instance_name l _ w h)
  validated-ok l a none w h =
      let (r, v, _, rest) = >>=-eq-ok (run_all_effects json o instance_name session l) _ w h in
      let (done, x, u, read, finished) = effects_ran-ok l a r v rest in
      (refl, done, x, u, read, finished)

  asked-ok :
      {A : Type 0} (question : env.Outside → A × env.Outside) (w v : World env) (a : A)
      → ask question w ≡ (ok a, v)
      → (question w.outside).0 ≡ a
  unfolding ask
  asked-ok question w v a h = ground arith

  -- The removal on the evidence `a`, taken apart.
  remove_some :
      (policy : RetirementPolicy) (l : Loaded) (a : Acceptance) (w : World env)
      {result : RetirementResult} {w' : World env}
      → remove_accepted json o instance_name session policy l (some a) w ≡ (ok result, w')
      → ((env.validate policy l.instance_record l.sess a w.outside).0 ≡ none)
        × (done : Loaded) × (x v : World env) × (reload_retirement json instance_name session x
            ≡ (ok done, v))
        × (finish json o instance_name session l a done v ≡ (ok result, w'))
  unfolding remove_accepted
  remove_some policy l a w h =
      let (answer, v, got, rest) =
        >>=-eq-ok (ask (env.validate policy l.instance_record l.sess a)) _ w h in
      let (none_failed, done, x, u, read, finished) = validated-ok l a answer v rest in
      (
        asked-ok (env.validate policy l.instance_record l.sess a) w v answer got ∙ none_failed,
        done,
        x,
        u,
        read,
        finished,
      )

  remove_accepted-ok :
      (policy : RetirementPolicy) (l : Loaded) (e : Option Acceptance) (w : World env)
      {result : RetirementResult} {w' : World env}
      → remove_accepted json o instance_name session policy l e w ≡ (ok result, w')
      → (a : Acceptance) × (e ≡ some a)
        × ((env.validate policy l.instance_record l.sess a w.outside).0 ≡ none)
        × (done : Loaded) × (x v : World env) × (reload_retirement json instance_name session x
            ≡ (ok done, v))
        × (finish json o instance_name session l a done v ≡ (ok result, w'))
  unfolding remove_accepted
  remove_accepted-ok policy l none w h = absurd (pause_retirement-fails json instance_name l _ w h)
  remove_accepted-ok policy l (some a) w h =
      let (valid, done, x, v, read, finished) = remove_some policy l a w h in
      (a, refl, valid, done, x, v, read, finished)

  pub fail-fails :
      {A : Type 0} (e : RetireError) (w : World env) {a : A} {w' : World env}
      → fail e w ≢ (ok a, w')
  unfolding fail
  fail-fails e w h = ground arith

  pub run_phases-ok :
      (intent : Loaded) (w : World env) {result : RetirementResult} {w' : World env}
      → run_phases json o instance_name session intent w ≡ (ok result, w')
      → Retired json o instance_name session result w'
  unfolding run_phases remove_step
  run_phases-ok intent w {result} {w'} h =
      let policy = policy_of o intent.retirement in
      let (checked, w1, _, rest1) =
        >>=-eq-ok (check_step json o instance_name session policy intent) _ w h in
      let (closed, w2, _, rest2) =
        >>=-eq-ok (close_step json o instance_name session checked) _ w1 rest1 in
      let (l, w3, passed, rest3) =
        >>=-eq-ok (final_step json o instance_name session policy closed) _ w2 rest2 in
      elim (if-ok (is_removing l.retirement.phase) _ _ w3 rest3) [
        | inr (_, stopped) ↦ absurd (fail-fails _ w3 stopped)
        | inl (removing, went) ↦
            let (a, accepted, valid, done, x, v, read, finished) =
              remove_accepted-ok policy l (get_last? l.retirement.accepted) w3 went in
            let (effects, completed) = finish-ok l done a v finished in
            let (now, timed, clock, made, receipt, reported) = complete_now-ok a done v completed in
            record {
              intent = intent;
              before = l;
              evidence = a;
              removing = removing;
              accepted = accepted;
              closed = closed;
              earlier = w2;
              at = w3;
              passed = passed;
              validated = valid;
              after = done;
              reading = x;
              reread = v;
              again = read;
              effects = effects;
              now = now;
              timed = timed;
              clock = clock;
              completed = made;
              receipt = receipt;
              reported = reported;
            }
      ]
