-- ===== src/Retirement/Policy/Issued.antt =====
-- The checks with the issues of the session in place: the instance of the policies made from bd, and
-- what an accepted merge says of the issues.
use bivouac.Prelude.{
  Bool, ◌≡◌, refl, ap, subst, String, Option, none, some, List, ◌==◌, arith, Result, ok, err, inl,
  inr,
}
use bivouac.State.Types.{Record, Session, Acceptance, SessionBeads}
use bivouac.Retirement.Types.{RetirementPolicy}
use bivouac.Act.{pure, fail, >>=-ok, if-ran}
use bivouac.Git.{
  GitCommand, GitEnv, GitWorld, WorkError, run_git, head_commit, is_ancestor, require_base_exists,
  session_replay_range,
}
use bivouac.Beads.{BeadsEnv}
use bivouac.Beads.Issues.{IssuePause, Evidence, pull_beads_required, check_beads_landed}
use bivouac.Beads.Laws.{IsGated, pull_beads_required-IsGated}
use bivouac.Retirement.Policy.{
  Instance, range_of, require_retirement_worktrees_clean, retirement_destination,
  validate_acceptance,
}
use bivouac.Retirement.Policy.Merge.{
  other_branch, last_accepted, ask, replay_or_skip, accept_replay, accept_later, accept_by,
  accept_onto, check_merge,
}

-- The acceptance records these issues.
abbrev HasIssues : Evidence → Acceptance × List String → Type 0
HasIssues issues answer = (answer.0.issue_evidence ≡ issues.0) × (answer.0.issues ≡ issues.1)

module _ {env : GitEnv} where
  accept_replay-HasIssues :
      (s : Session) (ref tip : String) (issues : Evidence) (base range : String) (w : GitWorld env)
      {answer : Acceptance × List String} {v : GitWorld env}
      → accept_replay s ref tip issues base range w ≡ (ok answer, v)
      → HasIssues issues answer
  unfolding accept_replay pure
  accept_replay-HasIssues s ref tip issues base range w {answer} {v} e =
      let (count, u, counted, rest) =
        >>=-ok (run_git s.local_repo (GitCommand.rev_count range)) _ w e in
      let (result, x, done, more) =
        >>=-ok (replay_or_skip s.local_repo ref range base count) _ u rest in
      let (head, y, read, last) = >>=-ok (head_commit s.local_repo) _ x more in
      (ground (arith, last), ground (arith, last))

  accept_later-HasIssues :
      (s : Session) (ref tip : String) (issues : Evidence) (base : String) (prior : Acceptance)
      (w : GitWorld env) {answer : Acceptance × List String} {v : GitWorld env}
      → accept_later s ref tip issues base prior w ≡ (ok answer, v)
      → HasIssues issues answer
  unfolding accept_later pure fail
  accept_later-HasIssues s ref tip issues base prior w {answer} {v} e =
      elim (if-ran (prior.source_tip == tip) _ _ w e) [
        | inl (same, k) ↦ (ground (arith, k), ground (arith, k))
        | inr (other, k) ↦
            let (forward, u, asked, rest) =
              >>=-ok (is_ancestor s.local_repo prior.source_tip tip) _ w k in
            elim (if-ran forward _ _ u rest) [
              | inl (t, more) ↦
                  accept_replay-HasIssues s ref tip issues base (range_of prior.source_tip ref) u
                    more
              | inr (f, more) ↦ absurd (ground (arith, more))
            ]
      ]

  accept_by-HasIssues :
      (p : RetirementPolicy) (s : Session) (ref tip : String) (issues : Evidence) (base : String)
      (prior : Option Acceptance) (w : GitWorld env) {answer : Acceptance × List String}
      {v : GitWorld env}
      → accept_by p s ref tip issues base prior w ≡ (ok answer, v)
      → HasIssues issues answer
  unfolding accept_by
  accept_by-HasIssues p s ref tip issues base none w e =
      accept_replay-HasIssues s ref tip issues base (session_replay_range s.base ref) w e
  accept_by-HasIssues p s ref tip issues base (some prior) w e =
      let (u, x, valid, rest) = >>=-ok (validate_acceptance p s prior) _ w e in
      accept_later-HasIssues s ref tip issues base prior x rest

  accept_onto-HasIssues :
      (p : RetirementPolicy) (s : Session) (ref tip : String) (issues : Evidence)
      (destination : String × String) (w : GitWorld env) {answer : Acceptance × List String}
      {v : GitWorld env}
      → accept_onto p s ref tip issues destination w ≡ (ok answer, v)
      → HasIssues issues answer
  unfolding accept_onto fail
  accept_onto-HasIssues p s ref tip issues (branch, base) w e =
      elim (if-ran (other_branch s.retirement branch) _ _ w e) [
        | inl (t, k) ↦ absurd (ground (arith, k))
        | inr (f, k) ↦ accept_by-HasIssues p s ref tip issues base (last_accepted s.retirement) w k
      ]

  -- An accepted merge records what the pull of the issues answered in the same run.
  check_merge-HasIssues :
      (instance : Instance env) (p : RetirementPolicy) (r : Record) (s : Session) (final : Bool)
      (w : GitWorld env) {answer : Acceptance × List String} {v : GitWorld env}
      → check_merge instance p r s final w ≡ (ok answer, v)
      → (issues : Evidence) × (x y : GitWorld env) × (ask
            (instance.pull r s p.accept_unsynced final)
            x
          ≡ (ok issues, y))
        × HasIssues issues answer
  unfolding check_merge
  check_merge-HasIssues instance p r s final w e =
      let (u1, w1, based, e1) = >>=-ok (require_base_exists s.local_repo s.base) _ w e in
      let (u2, w2, clean, e2) = >>=-ok (require_retirement_worktrees_clean s) _ w1 e1 in
      let (rescued, w3, rescue_ran, e3) = >>=-ok (ask (instance.rescue r s)) _ w2 e2 in
      let (issues, w4, pulled, e4) =
        >>=-ok (ask (instance.pull r s p.accept_unsynced final)) _ w3 e3 in
      let (destination, w5, found, e5) = >>=-ok (retirement_destination s.local_repo) _ w4 e4 in
      (
        issues,
        w3,
        w4,
        pulled,
        accept_onto-HasIssues p s rescued.0 rescued.1 issues destination w5 e5,
      )

-- bd in the world of git: `outside` says how a state of git's world holds one of bd's.
pub record InWorld (git : GitEnv) (bd : BeadsEnv) : Type 0 where
  pub inside : git.Outside → bd.Outside
  pub put_back : bd.Outside → git.Outside → git.Outside

abbrev as_work : {A E : Type 0} → Result E A → Result WorkError A
as_work (ok a) = ok a
as_work (err e) = err (WorkError.other_failure "issues")

module _ {git : GitEnv} {bd : BeadsEnv} (at : InWorld git bd) where
  unfoldable pub run_bd :
      {A E : Type 0}
      → (bd.Outside → Result E A × bd.Outside)
      → git.Outside
      → Result WorkError A × git.Outside
  run_bd m o = let (r, b) = m (at.inside o) in (as_work r, at.put_back b o)

  -- The instance whose issues are pulled and checked by bd.
  unfoldable pub with_issues :
      (Record → Session → git.Outside → Result WorkError (String × String) × git.Outside)
      → Instance git
  unfolding run_bd
  with_issues rescue = record {
    rescue = rescue;
    pull = λ r s accept final. run_bd (pull_beads_required bd s accept final);
    landed = λ r s. run_bd (check_beads_landed bd s.name);
  }

  -- A merge of a session that has a start record of its issues is accepted only with evidence that passed the gate:
  -- every change up to the pin has landed here, or the flag let it through; and the acceptance records it.
  pub check_merge-IsGated :
      (rescue : Record → Session → git.Outside → Result WorkError (String × String) × git.Outside)
      (p : RetirementPolicy) (r : Record) (s : Session) (start : SessionBeads) (final : Bool)
      (w : GitWorld git) (answer : Acceptance × List String) (v : GitWorld git)
      → s.beads ≡ some start
      → check_merge (with_issues rescue) p r s final w ≡ (ok answer, v)
      → IsGated bd start p.accept_unsynced (answer.0.issue_evidence, answer.0.issues)
  unfolding with_issues run_bd ask
  check_merge-IsGated rescue p r s start final w answer v recorded e =
      let (issues, x, y, pulled, (evidence, receipt)) =
        check_merge-HasIssues (with_issues rescue) p r s final w e in
      let gated =
        go x issues (pull_beads_required bd s p.accept_unsynced final (at.inside x.outside)) refl
          (ap (λ z. z.0) pulled) in
      ground (arith, gated, evidence, receipt)
    where
      go :
          (x : GitWorld git) (issues : Evidence) (run : Result IssuePause Evidence × bd.Outside)
          → pull_beads_required bd s p.accept_unsynced final (at.inside x.outside) ≡ run
          → as_work run.0 ≡ ok issues
          → IsGated bd start p.accept_unsynced issues
      go x issues (ok found, b) k same =
          let this : found ≡ issues = ground (arith, same) in
          subst (IsGated bd start p.accept_unsynced) this (
            pull_beads_required-IsGated bd s start p.accept_unsynced final (at.inside x.outside)
              found b recorded k)
      go x issues (err e, b) k same = absurd (ground (arith, same))
