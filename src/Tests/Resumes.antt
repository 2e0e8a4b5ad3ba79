-- ===== src/Tests/Resumes.antt =====
-- The laws of a replay and of the policies, each applied in the small repository.
use bivouac.Prelude.{
  ℕ, true, false, String, some, List, [], ◌∷◌, ◌≡◌, ◌≤◌, ◌⊎◌, refl, ne_of_eq_false, Result, ok, err,
}
use bivouac.State.Disk.{write_file_atomic}
use bivouac.Act.{◌>>=◌, then_with, pure, fail}
use bivouac.Git.{
  GitWorld, ReplayProgress, WorkError, try_git, run_git, answered, head_commit, is_some,
  is_ancestor,
}
use bivouac.Replay.Progress.{
  next_faults, the_disk, load_at, load_progress, write_progress, save_progress, usable_file,
}
use bivouac.Replay.Resume.{
  Resumed, from_top, place, resume_recorded, resume_on, resume_by, resume_at,
}
use bivouac.Replay.Resume.Laws.{IsStopped, IsPlaced, resume_at-start}
use bivouac.Replay.Resume.Stopped.{IsContinued, resume_at-IsContinued}
use bivouac.Replay.Live.{no_file_faults}
use bivouac.Replay.Interrupted.{replay_from-IsStopped}
use bivouac.Replay.Picks.{ArePicked, replay_from-Picks}
use bivouac.Replay.Ends.{IsWhole, replay_signed_range-returns}
use bivouac.Replay.{
  stopped_answer, after_answer, save_stopped, save_after, cleaned_head, picked, pick, pick_all,
  resigned_head, save_if, replay_from, replay_signed_range,
}
use bivouac.Tests.Replays.{
  stopping, stopping-ReadsBack, stopped_record, calm_env, calm_env-IsCalm, fresh,
}

abbrev three : List String
three = "c1" ∷ "c2" ∷ "c3" ∷ []

-- The replay goes on behind c1.
abbrev behind_first : Resumed
behind_first = record { start = 1; base = "h0"; hand_finished = false }

abbrev stop_run : Result WorkError String × GitWorld stopping
stop_run = replay_from "/repo" "t" three "h0" behind_first (fresh {env = stopping} true)

stop_run_stops : stop_run ≡ (err (WorkError.pick_stopped "c2"), stop_run.1)
unfolding replay_from resigned_head save_if pick_all pick picked save_stopped stopped_answer
    save_progress write_progress next_faults head_commit run_git try_git answered ◌>>=◌ then_with
    pure fail write_file_atomic
stop_run_stops = refl

replay_from-IsStopped_example :
    (i : ℕ) × (p : ReplayProgress) × (1 ≤ i)
    × (usable_file stopping.decode no_file_faults stop_run.1.disk.file ≡ some p)
    × IsStopped "t" "h0" three i "c2" p
replay_from-IsStopped_example =
    replay_from-IsStopped "/repo" "t" three "h0" behind_first "c2" (fresh {env = stopping} true)
      stop_run.1 no_file_faults stopping-ReadsBack (ne_of_eq_false "t" "" refl)
      (ne_of_eq_false "h0" "" refl) refl stop_run_stops

abbrev interrupted : GitWorld stopping
interrupted = record {
  disk = record {
    file = some (record { text = "stopped at c2"; mode = 384; synced = true });
    leftovers = 0;
  };
  outside = true;
  calls = [];
}

loaded :
    load_progress "/repo" interrupted
    ≡ (ok (some stopped_record), (load_progress "/repo" interrupted).1)
unfolding load_progress load_at next_faults the_disk try_git ◌>>=◌ then_with pure
loaded = refl

landed :
    is_ancestor "/repo" "h0" "h0" (load_progress "/repo" interrupted).1
    ≡ (ok true, (is_ancestor "/repo" "h0" "h0" (load_progress "/repo" interrupted).1).1)
unfolding load_progress load_at next_faults the_disk try_git ◌>>=◌ then_with pure is_ancestor
    is_some
landed = refl

-- The user backed out of the conflict: the head is where it was.
resume_at-IsContinued_example :
    (at : Resumed) × (v' : GitWorld stopping) × (resume_at "/repo" "t" "h0" three interrupted
      ≡ (ok at, v'))
    × IsContinued stopped_record "h0" 1 at
    × (at.base ≡ "h0")
resume_at-IsContinued_example =
    resume_at-IsContinued "/repo" "t" "h0" "h0" three 1 "c2" stopped_record interrupted
      (load_progress "/repo" interrupted).1
      (is_ancestor "/repo" "h0" "h0" (load_progress "/repo" interrupted).1).1
      (refl, (refl, (refl, tt)), (refl, (refl, tt), (refl, tt, tt)))
      (refl, refl, ("c3" ∷ [], refl), refl, refl) loaded landed

resumed_run :
    resume_at "/repo" "t" "h0" three interrupted
    ≡ (ok behind_first, (resume_at "/repo" "t" "h0" three interrupted).1)
unfolding resume_at resume_by resume_on resume_recorded place load_progress load_at next_faults
    the_disk try_git ◌>>=◌ then_with pure is_ancestor is_some
resumed_run = refl

resume_at-start_example :
    (1 ≤ 3)
    × ((behind_first ≡ from_top "h0")
        ⊎ ((p : ReplayProgress) × (u : GitWorld stopping) × (load_progress "/repo" interrupted
              ≡ (ok (some p), u))
            × (p.ref ≡ "t")
            × IsPlaced p "h0" three behind_first))
resume_at-start_example =
    resume_at-start "/repo" "t" "h0" three interrupted behind_first
      (resume_at "/repo" "t" "h0" three interrupted).1 resumed_run

abbrev quiet_run : Result WorkError String × GitWorld calm_env
quiet_run = replay_from "/repo" "t" three "h0" behind_first (fresh {env = calm_env} false)

quiet_run_returns : quiet_run ≡ (ok "h0", quiet_run.1)
unfolding replay_from resigned_head save_if pick_all pick picked cleaned_head save_after
    after_answer save_progress write_progress next_faults head_commit run_git try_git answered ◌>>=◌
    then_with pure fail write_file_atomic
quiet_run_returns = refl

replay_from-Picks_example :
    ArePicked "/repo" ("c2" ∷ "c3" ∷ []) (fresh {env = calm_env} false) quiet_run.1
    × (behind_first.base ≡ behind_first.base)
replay_from-Picks_example =
    replay_from-Picks "/repo" "t" three "h0" behind_first (fresh {env = calm_env} false)
      behind_first.base quiet_run.1 quiet_run_returns

replay_signed_range-returns_example :
    (base : String) × (w' : GitWorld calm_env) × (replay_signed_range "/repo" "r" "b..r"
        (fresh {env = calm_env} false)
      ≡ (ok base, w'))
    × IsWhole "/repo" "r" "b..r" base (fresh {env = calm_env} false) w'
replay_signed_range-returns_example =
    replay_signed_range-returns calm_env-IsCalm "/repo" "r" "b..r" (fresh {env = calm_env} false)
      refl
