-- ===== src/Replay.antt =====
-- Replaying a session's commits onto the checked-out branch: internal/lifecycle/replayprogress.go and
-- replaySignedRange of internal/lifecycle/merge.go.
pub mod Progress
pub mod Resume
pub mod Saved
pub mod Errors
pub mod Stops
pub mod Interrupted
pub mod Picks
pub mod Live
pub mod Ends
use bivouac.Prelude.{
  ℕ, zero, suc, ◌+◌, ◌-◌, ◌<◌, Bool, true, false, not, String, str_append, Option, none, some, List,
  [], ◌∷◌, ◌++◌, ◌==◌, if◌then◌else◌, ltb, Result, ok, err,
}
use bivouac.Act.{Act, pure, fail, ◌>>=◌, ◌>>◌}
use bivouac.Git.{
  GitCommand, GitEnv, GitWorld, Work, ReplayProgress, WorkError, try_git, run_git, answered,
  head_commit, is_some,
}
use bivouac.Git.Lines.{trim_line, non_empty_lines}
use bivouac.Trailers.{strip_agent_trailers}
use bivouac.Replay.Progress.{save_progress, validate_progress}
use bivouac.Replay.Resume.{Resumed, resume_at, drop, before_start}

abbrev pub first_progress : String → List String → Resumed → String → ReplayProgress
first_progress tip commits at head = record {
  version = 0;
  ref = tip;
  base = at.base;
  done = before_start at.start commits;
  stopped = "";
  onto = head;
}

module _ {env : GitEnv} where
  -- resignHandFinished
  unfoldable pub resign_hand_finished : String → Work env (Unit {0})
  unfolding run_git
  resign_hand_finished repo = do
    message ← run_git repo GitCommand.head_message
    run_git repo (GitCommand.amend (strip_agent_trailers env.strings message))
    pure tt

  -- cleanReplayedMessage
  unfoldable pub clean_message : String → String → Work env (Unit {0})
  unfolding run_git
  clean_message repo message =
      let cleaned = strip_agent_trailers env.strings message in
      if cleaned == message then pure tt else (run_git repo (GitCommand.amend cleaned) >> pure tt)

  unfoldable pub clean_replayed_message : String → Work env (Unit {0})
  unfolding run_git clean_message
  clean_replayed_message repo = do
    message ← run_git repo GitCommand.head_message
    clean_message repo message

  unfoldable pub stopped_answer :
      String
      → Result WorkError (Unit {0}) × GitWorld env
      → Result WorkError ReplayProgress × GitWorld env
  stopped_answer sha (ok u, w) = (err (WorkError.pick_stopped sha), w)
  stopped_answer sha (err e, w) = (err (WorkError.pick_not_saved sha), w)

  unfoldable pub after_answer :
      ReplayProgress
      → String
      → Result WorkError (Unit {0}) × GitWorld env
      → Result WorkError ReplayProgress × GitWorld env
  after_answer progress sha (ok u, w) = (ok progress, w)
  after_answer progress sha (err e, w) = (err (WorkError.progress_not_saved sha), w)

  -- A pick that failed: the progress names the commit before the error is returned.
  unfoldable pub save_stopped : String → ReplayProgress → String → Work env ReplayProgress
  unfolding save_progress stopped_answer
  save_stopped repo progress sha w = stopped_answer sha (save_progress repo progress w)

  unfoldable pub save_after : String → ReplayProgress → String → Work env ReplayProgress
  unfolding save_progress after_answer
  save_after repo progress sha w = after_answer progress sha (save_progress repo progress w)

  -- The head after a pick, whose message is cleaned if the pick made a commit.
  unfoldable pub cleaned_head : String → String → Work env String
  unfolding head_commit clean_replayed_message
  cleaned_head repo before = do
    after ← head_commit repo
    if after == before then pure after else (clean_replayed_message repo >> head_commit repo)

  unfoldable pub picked :
      String → ReplayProgress → String → String → Option String → Work env ReplayProgress
  unfolding save_stopped save_after cleaned_head
  picked repo progress sha before none =
      save_stopped repo (record progress { stopped = sha; onto = before }) sha
  picked repo progress sha before (some out) = do
    after ← cleaned_head repo before
    save_after repo (record progress { done = sha; stopped = ""; onto = after }) sha

  -- One round of the loop.
  unfoldable pub pick : String → ReplayProgress → String → Work env ReplayProgress
  unfolding head_commit try_git picked
  pick repo progress sha = do
    before ← head_commit repo
    out ← try_git repo (GitCommand.cherry_pick sha)
    picked repo progress sha before out

  unfoldable pub pick_all : String → ReplayProgress → List String → Work env ReplayProgress
  unfolding pick
  pick_all repo progress [] = pure progress
  pick_all repo progress (sha ∷ commits) = do
    progress' ← pick repo progress sha
    pick_all repo progress' commits

  -- The hand-finished commit is signed, and the head after that.
  unfoldable pub resigned_head : String → String → Bool → Work env String
  unfolding resign_hand_finished head_commit
  resigned_head repo head hand_finished =
      if hand_finished then (resign_hand_finished repo >> head_commit repo) else pure head

  unfoldable pub save_if : Bool → String → ReplayProgress → Work env (Unit {0})
  unfolding save_progress
  save_if hand_finished repo progress =
      if hand_finished then save_progress repo progress else pure tt

  -- The replay of the commits from where it goes on.
  unfoldable pub replay_from : String → String → List String → String → Resumed → Work env String
  unfolding resigned_head save_if pick_all
  replay_from repo tip commits head at = do
    now ← resigned_head repo head at.hand_finished
    save_if at.hand_finished repo (first_progress tip commits at now)
    pick_all repo (first_progress tip commits at now) (drop at.start commits)
    pure at.base

  -- replaySignedRange
  unfoldable pub replay_signed_range : String → String → String → Work env String
  unfolding validate_progress run_git head_commit resume_at replay_from
  replay_signed_range repo ref range = do
    validate_progress repo
    list ← run_git repo (GitCommand.rev_list range)
    tip ← run_git repo (GitCommand.resolve ref)
    head ← head_commit repo
    at ← resume_at repo (trim_line tip) head (non_empty_lines list)
    replay_from repo (trim_line tip) (non_empty_lines list) head at
