-- ===== src/Retirement/Retire/Frame.antt =====
-- The stages of RetireSession before the removal keep every active generation active.
use bivouac.Prelude.{String, Option, none, some, List, arith, Result, ok, err}
use bivouac.State.Types.{
  RetirementPhase, Acceptance, Retirement, Destination, Session, Record, Json,
}
use bivouac.State.Settle.{ReadsBack}
use bivouac.Retirement.Types.{RetirementOptions, RetirementPolicy, Failure, Env}
use bivouac.Retirement.Exec.{Exec}
use bivouac.Retirement.Steps.{Loaded}
use bivouac.Retirement.Active.{KeepsGeneration}
use bivouac.Retirement.Keeps.{Keeps, Keeps-reload, Keeps-close_attachments, keeps_rules}
use bivouac.Retirement.Options.{set_retirement}
use bivouac.Retirement.Intent.{record_intent, start_intent, resume_intent, settle_intent}
use bivouac.Retirement.Phases.{after_check, check_step, close_step, final_step}

set_retirement-KeepsGeneration : (r : Retirement) → KeepsGeneration (set_retirement r)
unfolding set_retirement
set_retirement-KeepsGeneration r s s' h = ground arith

module _ (json : Json) (laws : ReadsBack json) (o : RetirementOptions)
    (instance_name session generation : String) {env : Env} where
  abbrev KeepsIt : {A : Type 0} → Exec env A → Type 0
  KeepsIt m = Keeps json laws instance_name generation m

  Keeps-record_intent :
      (r : Record) (s : Session) (d : Result Failure Destination)
      → KeepsIt (record_intent json o instance_name session r s d)
  unfolding record_intent
  Keeps-record_intent r s (err cause) = search keeps_rules
  Keeps-record_intent r s (ok d) = search (keeps_rules, set_retirement-KeepsGeneration)

  Keeps-start_intent :
      (r : Record) (s : Session) → KeepsIt (start_intent json o instance_name session r s)
  unfolding start_intent
  Keeps-start_intent r s = search (keeps_rules, Keeps-record_intent)

  Keeps-resume_intent :
      (r : Record) (s : Session) (x : Retirement)
      → KeepsIt (resume_intent json o instance_name session r s x)
  unfolding resume_intent
  Keeps-resume_intent r s x = search keeps_rules

  pub Keeps-settle_intent :
      (r : Record) (s : Session) (x : Option Retirement)
      → KeepsIt (settle_intent json o instance_name session r s x)
  unfolding settle_intent
  Keeps-settle_intent r s none = Keeps-start_intent r s
  Keeps-settle_intent r s (some x) =
      search (keeps_rules, Keeps-start_intent, Keeps-resume_intent) depth 7

  Keeps-after_check :
      (l : Loaded) (p : RetirementPhase) (answer : Result Failure (Acceptance × List String))
      → KeepsIt (after_check json o instance_name session l p answer)
  unfolding after_check
  Keeps-after_check l p (err cause) = search keeps_rules
  Keeps-after_check l p (ok (a, signed)) = search (keeps_rules, Keeps-reload)

  pub Keeps-check_step :
      (policy : RetirementPolicy) (l : Loaded)
      → KeepsIt (check_step json o instance_name session policy l)
  unfolding check_step
  Keeps-check_step policy l = search (keeps_rules, Keeps-after_check)

  pub Keeps-close_step : (l : Loaded) → KeepsIt (close_step json o instance_name session l)
  unfolding close_step
  Keeps-close_step l = search (keeps_rules, Keeps-reload, Keeps-close_attachments) depth 7

  pub Keeps-final_step :
      (policy : RetirementPolicy) (l : Loaded)
      → KeepsIt (final_step json o instance_name session policy l)
  unfolding final_step
  Keeps-final_step policy l = search (keeps_rules, Keeps-after_check)
