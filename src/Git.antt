-- ===== src/Git.antt =====
-- git as the program runs it: internal/lifecycle/gitexec.go, the argument lists of gitlocal.go, and the
-- readers of merge.go and replayprogress.go. What git answers is the world's choice.
pub mod Lines
use bivouac.Prelude.{
  ℕ, ◌<◌, Bool, true, false, not, String, str_append, Option, none, some, List, [], ◌∷◌, ◌++◌, ◌==◌,
  if◌then◌else◌, all, Result, ok, err,
}
use bivouac.State.Disk.{Disk, Faults}
use bivouac.Act.{Act, pure, fail, ◌>>=◌}
use bivouac.Trailers.{Strings, strip_agent_trailers}
use bivouac.Git.Lines.{trim_line, non_empty_lines, atoi, has_suffix}

-- The git commands of a replay and of its checks; `args` has what each is called with.
pub data GitCommand : Type 0 where
  absolute_git_dir current_branch symbolic_branch head_message : GitCommand
  resolve rev_list rev_count cherry_pick amend cat_file signatures cherry : String → GitCommand
  merge_base : String → String → GitCommand
  status : GitCommand

-- countRangeArgs, cherryPickSignArgs, signatureStatusArgs, and the calls that have their own list
abbrev pub args : GitCommand → List String
args absolute_git_dir = "rev-parse" ∷ "--absolute-git-dir" ∷ []
args current_branch = "rev-parse" ∷ "--abbrev-ref" ∷ "HEAD" ∷ []
args symbolic_branch = "symbolic-ref" ∷ "--quiet" ∷ "--short" ∷ "HEAD" ∷ []
args head_message = "log" ∷ "-1" ∷ "--format=%B" ∷ []
args (resolve ref) = "rev-parse" ∷ ref ∷ []
args (rev_list range) = "rev-list" ∷ "--reverse" ∷ range ∷ []
args (rev_count range) = "rev-list" ∷ "--count" ∷ range ∷ []
args (cherry_pick range) = "cherry-pick" ∷ "--empty=drop" ∷ "-S" ∷ range ∷ []
args (amend message) = "commit" ∷ "--amend" ∷ "--quiet" ∷ "-S" ∷ "-m" ∷ message ∷ []
args (cherry rev) = "cherry" ∷ "HEAD" ∷ rev ∷ []
args (cat_file commit) = "cat-file" ∷ "-e" ∷ str_append commit "^{commit}" ∷ []
args (signatures range) = "log" ∷ "--pretty=%H %G?" ∷ range ∷ []
args (merge_base commit descendant) = "merge-base" ∷ "--is-ancestor" ∷ commit ∷ descendant ∷ []
args status = "status" ∷ "--porcelain" ∷ []

-- replayProgress
pub record ReplayProgress : Type 0 where
  pub version : ℕ
  pub ref : String
  pub base : String
  pub done : String
  pub stopped : String
  pub onto : String

-- What fails in the next access to the progress file.
pub record FileFaults : Type 0 where
  pub read : Bool
  pub mkdir : Bool
  pub write : Faults
  pub remove : Bool

pub data WorkError : Type 0 where
  git_failed : GitCommand → WorkError
  unreadable_progress corrupt_progress incomplete_progress : WorkError
  no_directory unencodable_progress unwritable_progress : WorkError
  base_gone pick_open dirty_tree dirty_session branch_changed destination_moved : WorkError
  nothing_signed unverified source_moved unknown_unmerged unmerged_commits unsupported_operation :
      WorkError
  -- The cherry-pick of a commit failed, and the progress was saved or not.
  pick_stopped pick_not_saved progress_not_saved : String → WorkError
  other_failure : String → WorkError

-- The world: `git` is tool.RunCombined, the output where git exits with 0; `encode` and `decode` are
-- json.Marshal and json.Unmarshal of the progress. `stat` says whether a path
-- exists, and `join_path` is filepath.Join.
pub record GitEnv : Type 1 where
  pub Outside : Type 0
  pub git : String → List String → Outside → Option String × Outside
  pub stat : String → Outside → Bool × Outside
  pub join_path : List String → String
  pub faults : Outside → FileFaults × Outside
  pub encode : ReplayProgress → Option String
  pub decode : String → Option ReplayProgress
  pub strings : Strings

module _ (env : GitEnv) where
  open env use {Outside}

  -- `disk` has the progress file of the session, and `calls` the git commands so far, oldest first.
  pub record GitWorld : Type 0 where
    pub disk : Disk
    pub outside : Outside
    pub calls : List GitCommand

  abbrev pub Work : Type 0 → Type 0
  Work A = Act WorkError GitWorld A

unfoldable pub is_some : Option String → Bool
is_some none = false
is_some (some out) = true

unfoldable pub counted : Option String → Option ℕ
counted none = none
counted (some out) = atoi (trim_line out)

module _ {env : GitEnv} where
  -- runLocalGit, where a failure is not an error yet
  unfoldable pub try_git : String → GitCommand → Work env (Option String)
  try_git repo command w =
      let (answer, o) = env.git repo (args command) w.outside in
      (ok answer, record w { outside = o; calls = w.calls ++ command ∷ [] })

  unfoldable pub answered : GitCommand → Option String → Work env String
  answered command none = fail (git_failed command)
  answered command (some out) = pure out

  -- runLocalGit, where a failure stops the caller
  unfoldable pub run_git : String → GitCommand → Work env String
  unfolding try_git answered
  run_git repo command = do out ← try_git repo command; answered command out

  -- HeadCommit
  unfoldable pub head_commit : String → Work env String
  unfolding run_git
  head_commit repo = do out ← run_git repo (resolve "HEAD"); pure (trim_line out)

  -- isAncestor
  unfoldable pub is_ancestor : String → String → String → Work env Bool
  unfolding try_git is_some
  is_ancestor repo commit descendant =
      if commit == ""
      then pure false
      else do out ← try_git repo (merge_base commit descendant); pure (is_some out)

  -- countCommits; `none` is its -1, and a negative count
  unfoldable pub count_commits : String → String → Work env (Option ℕ)
  unfolding try_git counted
  count_commits repo range = do out ← try_git repo (rev_count range); pure (counted out)

  unfoldable pub all_good : List String → Work env (List String)
  all_good lines = if all (has_suffix " G") lines then pure lines else fail unverified

  unfoldable pub checked_lines : List String → Work env (List String)
  unfolding all_good
  checked_lines [] = fail nothing_signed
  checked_lines (line ∷ lines) = all_good (line ∷ lines)

  -- verifySignatures
  unfoldable pub verify_signatures : String → String → Work env (List String)
  unfolding run_git checked_lines
  verify_signatures repo range = do
    out ← run_git repo (signatures range)
    checked_lines (non_empty_lines out)

  -- requireBaseExists
  unfoldable pub require_base_exists : String → String → Work env (Unit {0})
  unfolding try_git is_some
  require_base_exists repo base =
      if base == ""
      then pure tt
      else do out ← try_git repo (cat_file base); if is_some out then pure tt else fail base_gone

-- sessionReplayRange
abbrev pub session_replay_range : String → String → String
session_replay_range base ref =
    if base == "" then str_append "HEAD.." ref else str_append base (str_append ".." ref)
