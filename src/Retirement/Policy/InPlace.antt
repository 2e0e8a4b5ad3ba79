-- ===== src/Retirement/Policy/InPlace.antt =====
-- The policies in RetireSession: checkRetirementWork and validateRetirementWork of retirement.go, and what a
-- retirement that completed then says of its evidence.
use bivouac.Prelude.{String, Option, none, some, List, Result, ok, err}
use bivouac.State.Types.{Acceptance}
use bivouac.Git.{GitEnv, GitWorld, WorkError}
use bivouac.Retirement.Types.{Failure, Env}
use bivouac.Retirement.Policy.{Instance, validate_acceptance}
use bivouac.Retirement.Policy.Merge.{check}

-- git in the world of a retirement: how a state of it holds one of git's, and what an error reads as.
pub record GitInside (env : Env) (git : GitEnv) : Type 0 where
  pub inside : env.Outside → GitWorld git
  pub put_back : GitWorld git → env.Outside → env.Outside
  pub failure : WorkError → Failure

module _ (env : Env) (git : GitEnv) (at : GitInside env git) (instance : Instance git) where
  abbrev checked_answer :
      env.Outside
      → Result WorkError (Acceptance × List String) × GitWorld git
      → Result Failure (Acceptance × List String) × env.Outside
  checked_answer o (ok answer, w) = (ok answer, at.put_back w o)
  checked_answer o (err e, w) = (err (at.failure e), at.put_back w o)

  abbrev validated_answer :
      env.Outside → Result WorkError (Unit {0}) × GitWorld git → Option Failure × env.Outside
  validated_answer o (ok u, w) = (none, at.put_back w o)
  validated_answer o (err e, w) = (some (at.failure e), at.put_back w o)

  abbrev pub with_policies : Env
  with_policies = record env {
    check = λ p r s final o. checked_answer o (check instance p r s final (at.inside o));
    validate = λ p r s a o. validated_answer o (validate_acceptance p s a (at.inside o));
  }
