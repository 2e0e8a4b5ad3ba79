-- ===== src/Retirement/Policy.antt =====
-- What a merge and a deletion demand before anything is removed: internal/lifecycle/retirement_work.go,
-- with requireCleanSessionWorktree of merge.go, cherryPickInProgress of replayprogress.go and countUnmerged
-- of sessioninfo.go.
pub mod Merge
pub mod Laws
pub mod Valid
pub mod Checked
pub mod Deleted
pub mod Issued
pub mod InPlace
use bivouac.Prelude.{
  ℕ, Bool, true, false, not, ◌&&◌, String, str_append, Option, none, some, List, [], ◌∷◌, ◌==◌,
  if◌then◌else◌, eqb, length, keep, get_last?, Result, ok, err,
}
use bivouac.State.Types.{
  RetirementOperation, Record, Session, Acceptance, Destination, Retirement, IssueReceipt,
}
use bivouac.Retirement.Types.{RetirementPolicy}
use bivouac.Act.{pure, fail, ◌>>=◌, ◌>>◌}
use bivouac.Git.{
  GitCommand, GitEnv, GitWorld, Work, WorkError, try_git, run_git, head_commit, is_some,
  verify_signatures,
}
use bivouac.Git.Lines.{trim_line, non_empty_lines}
use bivouac.Trailers.{has_prefix}

-- `rescue` is RescueSession, which gives the session's reference and its tip on the instance and runs ssh;
-- `pull` stands for pullBeadsRequired and `landed` for checkBeadsLanded.
pub record Instance (git : GitEnv) : Type 0 where
  pub rescue : Record → Session → git.Outside → Result WorkError (String × String) × git.Outside
  pub pull :
      Record
      → Session
      → Bool
      → Bool
      → git.Outside
      → Result WorkError (String × Option IssueReceipt) × git.Outside
  pub landed : Record → Session → git.Outside → Result WorkError (Unit {0}) × git.Outside

-- mergeRetirementPolicy and deleteRetirementPolicy
abbrev pub merge_retirement_policy : Bool → RetirementPolicy
merge_retirement_policy accept = record {
  operation = RetirementOperation.merge;
  force = false;
  accept_unsynced = accept;
}

abbrev pub delete_retirement_policy : Bool → RetirementPolicy
delete_retirement_policy force = record {
  operation = RetirementOperation.delete;
  force = force;
  accept_unsynced = false;
}

abbrev pub is_merge : RetirementOperation → Bool
is_merge RetirementOperation.merge = true
is_merge _ = false

abbrev pub is_delete : RetirementOperation → Bool
is_delete RetirementOperation.delete = true
is_delete _ = false

abbrev pub discard_authorised : String
discard_authorised = "discard-authorised"

-- The branch is not the recorded one.
abbrev pub left_branch : Option Retirement → String → Bool
left_branch none branch = false
left_branch (some t) branch = not (branch == t.destination.branch)

abbrev pub session_branch : String → String
session_branch session = str_append "bivouac/" session

abbrev pub range_of : String → String → String
range_of from to = str_append from (str_append ".." to)

abbrev pub unmerged_lines : Option String → Option ℕ
unmerged_lines none = none
unmerged_lines (some out) = some (length (keep (has_prefix "+") (non_empty_lines out)))

module _ {env : GitEnv} where
  unfoldable pub exists : String → Work env Bool
  exists path w = let (there, o) = env.stat path w.outside in (ok there, record w { outside = o })

  unfoldable pub open_pick : Option String → Work env Bool
  unfolding exists
  open_pick none = pure false
  open_pick (some out) = exists (env.join_path (trim_line out ∷ "CHERRY_PICK_HEAD" ∷ []))

  -- cherryPickInProgress
  unfoldable pub cherry_pick_in_progress : String → Work env Bool
  unfolding try_git open_pick
  cherry_pick_in_progress repo = do out ← try_git repo GitCommand.absolute_git_dir; open_pick out

  unfoldable pub clean_or : WorkError → String → Work env (Unit {0})
  clean_or e output = if trim_line output == "" then pure tt else fail e

  -- requireCleanSessionWorktree
  unfoldable pub require_clean_session_worktree : String → Work env (Unit {0})
  unfolding exists run_git clean_or
  require_clean_session_worktree local = do
    there ← exists local
    if there
        then (run_git local GitCommand.status >>= clean_or WorkError.dirty_session)
        else pure tt

  -- requireRetirementWorktreesClean
  unfoldable pub require_retirement_worktrees_clean : Session → Work env (Unit {0})
  unfolding cherry_pick_in_progress run_git clean_or require_clean_session_worktree
  require_retirement_worktrees_clean s = do
    open_one ← cherry_pick_in_progress s.local_repo
    if open_one then fail WorkError.pick_open else do
      output ← run_git s.local_repo GitCommand.status
      clean_or WorkError.dirty_tree output
      require_clean_session_worktree (env.join_path (s.local_repo ∷ ".worktrees" ∷ s.name ∷ []))

  -- retirementDestination: the branch, and its head
  unfoldable pub retirement_destination : String → Work env (String × String)
  unfolding run_git head_commit
  retirement_destination repo = do
    out ← run_git repo GitCommand.current_branch
    head ← head_commit repo
    pure (trim_line out, head)

  -- retirementDestinationState of retirement.go
  unfoldable pub retirement_destination_state : Session → Work env Destination
  unfolding run_git
  retirement_destination_state s = do
    branch ← run_git s.local_repo GitCommand.symbolic_branch
    dir ← run_git s.local_repo GitCommand.absolute_git_dir
    pure (record { local_repo = s.local_repo; git_dir = trim_line dir; branch = trim_line branch })

  -- countUnmerged; `none` is not known
  unfoldable pub count_unmerged : String → String → Work env (Option ℕ)
  unfolding try_git
  count_unmerged repo rev = do out ← try_git repo (GitCommand.cherry rev); pure (unmerged_lines out)

  unfoldable pub signed_again : RetirementPolicy → String → Acceptance → Work env (Unit {0})
  unfolding verify_signatures
  signed_again p repo accepted =
      if is_merge p.operation && not (accepted.replay_base == accepted.verified_head)
      then (verify_signatures repo (range_of accepted.replay_base accepted.verified_head)
          >> pure tt)
      else pure tt

  unfoldable pub validate_head : RetirementPolicy → String → Acceptance → Work env (Unit {0})
  unfolding head_commit signed_again
  validate_head p repo accepted = do
    head ← head_commit repo
    if head == accepted.verified_head
        then signed_again p repo accepted
        else fail WorkError.destination_moved

  -- Validate
  unfoldable pub validate_acceptance : RetirementPolicy → Session → Acceptance → Work env (Unit {0})
  unfolding run_git validate_head
  validate_acceptance p s accepted =
      if is_delete p.operation && p.force && accepted.source_tip == discard_authorised
      then pure tt
      else do
        branch ← run_git s.local_repo GitCommand.current_branch
        if left_branch s.retirement (trim_line branch)
            then fail WorkError.branch_changed
            else validate_head p s.local_repo accepted
