-- ===== src/Replay/Interrupted.antt =====
-- What an interrupted replay leaves for the next one.
use bivouac.Prelude.{
  ℕ, ◌≤◌, Bool, false, String, some, List, ◌≡◌, refl, subst, inl, inr, ◌≢◌, eq_false, arith, Result,
  err,
}
use bivouac.Act.{pure, >>=-cases, Fails, pure-Fails, if-Fails}
use bivouac.Git.{GitEnv, GitWorld, ReplayProgress, FileFaults, WorkError}
use bivouac.Replay.Progress.{usable_file}
use bivouac.Replay.Resume.{Resumed, drop}
use bivouac.Replay.Resume.Laws.{IsStopped}
use bivouac.Replay.Saved.{versioned, IsSaved, ReadsBack, usable_file-IsSaved}
use bivouac.Replay.Errors.{IsOther, resigned_head-IsOther, save_progress-IsOther}
use bivouac.Replay.Stops.{pick_all-IsStopped}
use bivouac.Replay.{first_progress, pick_all, resigned_head, save_if, replay_from}

module _ {env : GitEnv} where
  save_if-IsOther :
      (b : Bool) (repo : String) (p : ReplayProgress) → Fails IsOther (save_if {env = env} b repo p)
  unfolding save_if
  save_if-IsOther b repo p =
      if-Fails IsOther b _ _ (save_progress-IsOther repo p) (pure-Fails IsOther tt)

  replay_from-IsSaved :
      (repo tip : String) (commits : List String) (head : String) (at : Resumed) (sha : String)
      (w w' : GitWorld env)
      → replay_from repo tip commits head at w ≡ (err (WorkError.pick_stopped sha), w')
      → (i : ℕ) × (q : ReplayProgress) × (at.start ≤ i)
        × IsStopped tip at.base commits i sha q
        × IsSaved q w'
  unfolding replay_from pure
  replay_from-IsSaved repo tip commits head at sha w w' h =
      elim (>>=-cases (resigned_head repo head at.hand_finished) _ w h) [
        | inl (e, failed, same) ↦ absurd (
            subst IsOther (back same)
              (resigned_head-IsOther repo head at.hand_finished w e w' failed))
        | inr (now, u, first, rest) ↦
            elim (>>=-cases (save_if at.hand_finished repo (first_progress tip commits at now)) _ u
              rest) [
                | inl (e, failed, same) ↦ absurd (
                    subst IsOther (back same) (
                      save_if-IsOther at.hand_finished repo (first_progress tip commits at now) u e
                        w' failed))
                | inr (s, v, second, more) ↦
                    elim (>>=-cases
                      (pick_all repo (first_progress tip commits at now) (drop at.start commits)) _
                      v more) [
                        | inl (e, failed, same) ↦
                            pick_all-IsStopped repo commits sha w' (drop at.start commits) at.start
                              (first_progress tip commits at now) v refl refl
                              (subst
                                (λ x.
                                  pick_all repo (first_progress tip commits at now)
                                    (drop at.start commits) v
                                  ≡ (err x, w'))
                                (back same) failed)
                        | inr (p, x, third, last) ↦ ground (arith, last)
                      ]
              ]
      ]
    where
      back :
          {e : WorkError}
          → ◌≡◌ {A = Result WorkError String} (err (WorkError.pick_stopped sha)) (err e)
          → e ≡ WorkError.pick_stopped sha
      back k = ground (arith, k)

  -- A replay that stopped at a commit, which it reports, reached it from its start, and left a record that
  -- is read back as the record of that stop: of this tip and base, with the commits before as landed.
  -- The tip and the base are not empty, and the record's encoding is read back.
  pub replay_from-IsStopped :
      (repo tip : String) (commits : List String) (head : String) (at : Resumed) (sha : String)
      (w w' : GitWorld env) (f : FileFaults)
      → ReadsBack env
      → tip ≢ ""
      → at.base ≢ ""
      → f.read ≡ false
      → replay_from repo tip commits head at w ≡ (err (WorkError.pick_stopped sha), w')
      → (i : ℕ) × (p : ReplayProgress) × (at.start ≤ i)
        × (usable_file env.decode f w'.disk.file ≡ some p)
        × IsStopped tip at.base commits i sha p
  replay_from-IsStopped repo tip commits head at sha w w' f back named based readable h =
      let (i, q, later, stopped, saved) = replay_from-IsSaved repo tip commits head at sha w w' h in
      (
        i,
        versioned q,
        later,
        usable_file-IsSaved q w' f back saved readable
            (rw (stopped.0, stopped.1, eq_false tip "" named, eq_false at.base "" based) refl),
        stopped,
      )
