-- ===== src/Retirement/Policy/Merge.antt =====
-- Check of retirement_work.go: checkMerge and checkDelete.
use bivouac.Prelude.{
  ℕ, Bool, false, not, ◌&&◌, String, Option, none, some, List, [], ◌∷◌, ◌==◌, if◌then◌else◌,
  get_last?, Result, eqb,
}
use bivouac.State.Types.{Record, Session, Acceptance, Retirement, IssueReceipt}
use bivouac.Retirement.Types.{RetirementPolicy}
use bivouac.Act.{pure, fail, ◌>>=◌, ◌>>◌}
use bivouac.Git.{
  GitCommand, GitEnv, Work, WorkError, try_git, run_git, head_commit, is_ancestor,
  verify_signatures, require_base_exists, session_replay_range,
}
use bivouac.Git.Lines.{trim_line}
use bivouac.Replay.{replay_signed_range}
use bivouac.Retirement.Policy.{
  Instance, is_merge, is_delete, discard_authorised, session_branch, range_of,
  require_retirement_worktrees_clean, retirement_destination, count_unmerged, validate_acceptance,
}

-- A recorded branch that is not the branch.
abbrev pub other_branch : Option Retirement → String → Bool
other_branch none branch = false
other_branch (some t) branch =
    not (t.destination.branch == "") && not (t.destination.branch == branch)

abbrev pub last_accepted : Option Retirement → Option Acceptance
last_accepted none = none
last_accepted (some t) = get_last? t.accepted

abbrev pub head_or_discard : Option String → String
head_or_discard none = discard_authorised
head_or_discard (some out) = trim_line out

module _ {env : GitEnv} where
  -- The code that asks the instance.
  unfoldable pub ask : {A : Type 0} → (env.Outside → Result WorkError A × env.Outside) → Work env A
  ask question w = let (r, o) = question w.outside in (r, record w { outside = o })

  unfoldable pub verified_range : String → String → String → Work env (List String)
  unfolding verify_signatures
  verified_range repo base head =
      if head == base then pure [] else verify_signatures repo (range_of base head)

  -- The replay, with the base and the lines of its verified commits.
  unfoldable pub replayed : String → String → String → Work env (String × List String)
  unfolding replay_signed_range head_commit verified_range
  replayed repo ref range = do
    base ← replay_signed_range repo ref range
    head ← head_commit repo
    signed ← verified_range repo base head
    pure (base, signed)

  unfoldable pub replay_or_skip :
      String → String → String → String → String → Work env (String × List String)
  unfolding replayed
  replay_or_skip repo ref range base count =
      if trim_line count == "0" then pure (base, []) else replayed repo ref range

  unfoldable pub accept_replay :
      Session
      → String
      → String
      → String × Option IssueReceipt
      → String
      → String
      → Work env (Acceptance × List String)
  unfolding run_git replay_or_skip head_commit
  accept_replay s ref tip issues base range = do
    count ← run_git s.local_repo (GitCommand.rev_count range)
    result ← replay_or_skip s.local_repo ref range base count
    head ← head_commit s.local_repo
    pure (
      record {
        source_tip = tip;
        replay_base = result.0;
        verified_head = head;
        issue_evidence = issues.0;
        issues = issues.1;
      },
      result.1,
    )

  unfoldable pub accept_later :
      Session
      → String
      → String
      → String × Option IssueReceipt
      → String
      → Acceptance
      → Work env (Acceptance × List String)
  unfolding is_ancestor accept_replay
  accept_later s ref tip issues base prior =
      if prior.source_tip == tip
      then pure (record prior { issue_evidence = issues.0; issues = issues.1 }, [])
      else do
        forward ← is_ancestor s.local_repo prior.source_tip tip
        if forward
            then accept_replay s ref tip issues base (range_of prior.source_tip ref)
            else fail WorkError.source_moved

  -- By the last acceptance, if there is one.
  unfoldable pub accept_by :
      RetirementPolicy
      → Session
      → String
      → String
      → String × Option IssueReceipt
      → String
      → Option Acceptance
      → Work env (Acceptance × List String)
  unfolding validate_acceptance accept_later accept_replay
  accept_by p s ref tip issues base none =
      accept_replay s ref tip issues base (session_replay_range s.base ref)
  accept_by p s ref tip issues base (some prior) = do
    validate_acceptance p s prior
    accept_later s ref tip issues base prior

  unfoldable pub accept_onto :
      RetirementPolicy
      → Session
      → String
      → String
      → String × Option IssueReceipt
      → String × String
      → Work env (Acceptance × List String)
  unfolding accept_by
  accept_onto p s ref tip issues (branch, base) =
      if other_branch s.retirement branch
      then fail WorkError.branch_changed
      else accept_by p s ref tip issues base (last_accepted s.retirement)

  -- checkMerge
  unfoldable pub check_merge :
      Instance env
      → RetirementPolicy
      → Record
      → Session
      → Bool
      → Work env (Acceptance × List String)
  unfolding require_base_exists require_retirement_worktrees_clean ask retirement_destination
      accept_onto
  check_merge instance p r s final = do
    require_base_exists s.local_repo s.base
    require_retirement_worktrees_clean s
    rescued ← ask (instance.rescue r s)
    issues ← ask (instance.pull r s p.accept_unsynced final)
    destination ← retirement_destination s.local_repo
    accept_onto p s rescued.0 rescued.1 issues destination

  unfoldable pub nothing_unmerged : Option ℕ → Work env (Unit {0})
  nothing_unmerged none = fail WorkError.unknown_unmerged
  nothing_unmerged (some n) = if eqb n 0 then pure tt else fail WorkError.unmerged_commits

  unfoldable pub require_merged : String → List String → Work env (Unit {0})
  unfolding count_unmerged nothing_unmerged
  require_merged repo [] = pure tt
  require_merged repo (rev ∷ revs) = do
    unmerged ← count_unmerged repo rev
    nothing_unmerged unmerged
    require_merged repo revs

  unfoldable pub check_discard : Session → Work env (Acceptance × List String)
  unfolding try_git
  check_discard s = do
    out ← try_git s.local_repo (GitCommand.resolve "HEAD")
    pure (
      record {
        source_tip = discard_authorised;
        replay_base = head_or_discard out;
        verified_head = head_or_discard out;
        issue_evidence = discard_authorised;
        issues = none;
      },
      [],
    )

  -- checkDelete
  unfoldable pub check_delete :
      Instance env → RetirementPolicy → Record → Session → Work env (Acceptance × List String)
  unfolding check_discard require_retirement_worktrees_clean ask require_merged head_commit
  check_delete instance p r s = if p.force then check_discard s else do
    require_retirement_worktrees_clean s
    rescued ← ask (instance.rescue r s)
    require_merged s.local_repo (rescued.0 ∷ session_branch s.name ∷ [])
    ask (instance.landed r s)
    head ← head_commit s.local_repo
    pure (
      record {
        source_tip = rescued.1;
        replay_base = head;
        verified_head = head;
        issue_evidence = "landed";
        issues = none;
      },
      [],
    )

  -- Check
  unfoldable pub check :
      Instance env
      → RetirementPolicy
      → Record
      → Session
      → Bool
      → Work env (Acceptance × List String)
  unfolding check_merge check_delete
  check instance p r s final =
      if is_merge p.operation
      then check_merge instance p r s final
      else if is_delete p.operation
      then check_delete instance p r s
      else fail WorkError.unsupported_operation
