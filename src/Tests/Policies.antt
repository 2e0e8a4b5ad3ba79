-- ===== src/Tests/Policies.antt =====
-- The laws of the policies, each applied in the small repository.
use bivouac.Prelude.{true, false, String, none, List, [], ◌∷◌, ◌≡◌, refl, Result, ok}
use bivouac.State.Types.{Acceptance}
use bivouac.Retirement.Options.{zero_record}
use bivouac.Act.{◌>>=◌, then_with, pure, fail}
use bivouac.Git.{GitWorld, WorkError, try_git, run_git, answered, head_commit}
use bivouac.Retirement.Policy.{
  Instance, session_branch, merge_retirement_policy, delete_retirement_policy, exists, open_pick,
  cherry_pick_in_progress, clean_or, require_clean_session_worktree,
  require_retirement_worktrees_clean, count_unmerged, validate_acceptance,
}
use bivouac.Retirement.Policy.Merge.{
  ask, check_merge, nothing_unmerged, require_merged, check_delete, check,
}
use bivouac.Retirement.Policy.Deleted.{AreMerged, check_delete-AreMerged, check-forced}
use bivouac.Tests.Machine.{working}
use bivouac.Tests.Replays.{calm_env, fresh}

-- The instance gives the tip t, and its issues have landed.
abbrev ready : Instance calm_env
ready = record {
  rescue = λ r s o. (ok ("bivouac-work/bivouac/work", "t"), o);
  pull = λ r s accept final o. (ok ("pulled", none), o);
  landed = λ r s o. (ok tt, o);
}

abbrev quiet : GitWorld calm_env
quiet = fresh {env = calm_env} false

abbrev merge_run : Result WorkError (Acceptance × List String) × GitWorld calm_env
merge_run = check_merge ready (merge_retirement_policy false) zero_record working false quiet

abbrev merge_answer : Acceptance × List String
merge_answer = (
  record {
    source_tip = "t";
    replay_base = "h0";
    verified_head = "h0";
    issue_evidence = "pulled";
    issues = none;
  },
  [],
)

abbrev delete_run : Result WorkError (Acceptance × List String) × GitWorld calm_env
delete_run = check_delete ready (delete_retirement_policy false) zero_record working quiet

abbrev delete_answer : Acceptance × List String
delete_answer = (
  record {
    source_tip = "t";
    replay_base = "h0";
    verified_head = "h0";
    issue_evidence = "landed";
    issues = none;
  },
  [],
)

delete_run_accepts : delete_run ≡ (ok delete_answer, delete_run.1)
unfolding check_delete require_merged nothing_unmerged count_unmerged ask head_commit run_git
    try_git answered ◌>>=◌ then_with pure fail require_retirement_worktrees_clean
    cherry_pick_in_progress open_pick exists clean_or require_clean_session_worktree
delete_run_accepts = refl

check_delete-AreMerged_example :
    (rescued : String × String) × (x y : GitWorld calm_env) × (ask
        (ready.rescue zero_record working)
        x
      ≡ (ok rescued, y))
    × AreMerged calm_env "/repo" (rescued.0 ∷ session_branch "work" ∷ [])
    × ((a b : GitWorld calm_env) × (ask (ready.landed zero_record working) a ≡ (ok tt, b)))
    × (delete_answer.0.source_tip ≡ rescued.1)
    × (delete_answer.0.replay_base ≡ delete_answer.0.verified_head)
check_delete-AreMerged_example =
    check_delete-AreMerged ready (delete_retirement_policy false) zero_record working quiet
      delete_answer delete_run.1 refl delete_run_accepts

check-forced_example :
    (accepted : Acceptance) × (v : GitWorld calm_env) × (check ready
        (delete_retirement_policy true)
        zero_record
        working
        true
        quiet
      ≡ (ok (accepted, []), v))
    × (validate_acceptance (delete_retirement_policy true) working accepted quiet ≡ (ok tt, quiet))
check-forced_example = check-forced ready zero_record working true quiet quiet
