-- ===== src/Tests/Merges.antt =====
-- A merge of a session with issues, in the small repository and with the small board.
use bivouac.Prelude.{false, String, some, List, [], ◌≡◌, refl, Result, ok}
use bivouac.State.Types.{Acceptance}
use bivouac.State.Disk.{write_file_atomic}
use bivouac.Retirement.Options.{zero_record}
use bivouac.Act.{◌>>=◌, then_with, pure, fail, lift}
use bivouac.Git.{
  GitWorld, WorkError, try_git, run_git, answered, head_commit, is_some, require_base_exists,
}
use bivouac.Replay.Progress.{
  next_faults, the_disk, validate_progress, load_at, load_progress, write_progress, save_progress,
}
use bivouac.Replay.Resume.{resume_by, resume_at}
use bivouac.Replay.{
  after_answer, save_after, cleaned_head, picked, pick, pick_all, resigned_head, save_if,
  replay_from, replay_signed_range,
}
use bivouac.Retirement.Policy.{
  merge_retirement_policy, exists, open_pick, cherry_pick_in_progress, clean_or,
  require_clean_session_worktree, require_retirement_worktrees_clean, retirement_destination,
}
use bivouac.Retirement.Policy.Merge.{
  ask, verified_range, replayed, replay_or_skip, accept_replay, accept_by, accept_onto, check_merge,
}
use bivouac.Retirement.Policy.Issued.{InWorld, run_bd, with_issues, check_merge-IsGated}
use bivouac.Beads.{classify_diff, all_dated}
use bivouac.Beads.Sync.{
  check_synced, instance_bd, local_bd, instance_commit, diff_output, with_times, changes_in,
  session_changes, local_issues, pull_issues,
}
use bivouac.Beads.Issues.{
  count_changes, issue_receipt, gate_issues, says, attempt, local_answer, verify_issues, pause,
  pin_commit, verified_or_pause, pull_recorded, pull_connected, pull_beads_required,
}
use bivouac.Beads.Laws.{IsGated}
use bivouac.Tests.Replays.{calm_env, fresh}
use bivouac.Tests.Boards.{board, begun, boarded, landed_receipt}

abbrev same_world : InWorld calm_env board
same_world = record { inside = λ o. o; put_back = λ b o. b }

abbrev quiet : GitWorld calm_env
quiet = fresh {env = calm_env} false

abbrev merge_run : Result WorkError (Acceptance × List String) × GitWorld calm_env
merge_run =
    check_merge (with_issues same_world (λ r s o. (ok ("bivouac-work/bivouac/work", "t"), o)))
      (merge_retirement_policy false) zero_record boarded false quiet

abbrev merge_answer : Acceptance × List String
merge_answer = (
  record {
    source_tip = "t";
    replay_base = "h0";
    verified_head = "h0";
    issue_evidence = "verified:c2";
    issues = some landed_receipt;
  },
  [],
)

merge_run_accepts : merge_run ≡ (ok merge_answer, merge_run.1)
unfolding with_issues run_bd check_merge accept_onto accept_by accept_replay replay_or_skip replayed
    verified_range ask replay_signed_range replay_from resigned_head save_if pick_all pick picked
    cleaned_head save_after after_answer save_progress write_progress next_faults the_disk
    head_commit run_git try_git answered ◌>>=◌ then_with pure fail lift write_file_atomic
    require_base_exists is_some require_retirement_worktrees_clean cherry_pick_in_progress open_pick
    exists clean_or require_clean_session_worktree retirement_destination validate_progress
    resume_at load_progress load_at resume_by pull_beads_required pull_connected pull_recorded
    verified_or_pause pin_commit verify_issues local_answer attempt says gate_issues issue_receipt
    count_changes check_synced session_changes diff_output changes_in with_times local_issues
    pull_issues instance_commit instance_bd local_bd classify_diff all_dated pause
merge_run_accepts = refl

check_merge-IsGated_example : IsGated board begun false ("verified:c2", some landed_receipt)
check_merge-IsGated_example =
    check_merge-IsGated same_world (λ r s o. (ok ("bivouac-work/bivouac/work", "t"), o))
      (merge_retirement_policy false) zero_record boarded begun false quiet merge_answer merge_run.1
      refl merge_run_accepts
