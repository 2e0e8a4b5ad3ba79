-- ===== src/Replay/Ends.antt =====
-- Termination of a replay as a whole.
use bivouac.Prelude.{
  Bool, true, false, not, ◌&&◌, String, str_append, Option, none, some, List, ◌≡◌, refl, ap, ◌∙◌,
  ◌==◌, ok,
}
use bivouac.Act.{>>=-ok, lift, ◌>>=◌, then_with, Answers, pure-Answers, >>=-Answers, if-Answers}
use bivouac.Git.{
  GitCommand, GitEnv, GitWorld, run_git, head_commit, ReplayProgress, is_ancestor, is_some,
}
use bivouac.Git.Lines.{trim_line, non_empty_lines}
use bivouac.Replay.Progress.{
  valid_file, validate_progress, next_faults, the_disk, load_at, load_progress,
}
use bivouac.Replay.Picks.{ArePicked, replay_from-Picks}
use bivouac.Replay.Resume.{
  Resumed, drop, place, resume_recorded, resume_on, resume_by, resume_at, from_top,
}
use bivouac.Replay.Resume.Stopped.{try_git-Answers, count_commits-Answers}
use bivouac.Replay.Live.{
  no_file_faults, IsCalm, >>=-AnswersAt, run_git-kept, run_git-Answers, calm_faults,
  head_commit-Answers, replay_from-Answers,
}
use bivouac.Replay.{replay_signed_range}

module _ {env : GitEnv} where
  load_progress-Answers : (repo : String) → Answers (load_progress {env = env} repo)
  unfolding load_progress load_at next_faults the_disk
  load_progress-Answers repo =
      >>=-Answers _ _ (try_git-Answers repo GitCommand.absolute_git_dir) (λ o.
        elim o as (λ x. Answers (load_at {env = env} x)) [
          | none ↦ pure-Answers none
          | some dir ↦
              >>=-Answers next_faults _ (λ w. (_, _, refl))
                (λ f. >>=-Answers the_disk _ (λ w. (_, _, refl)) (λ d. pure-Answers _))
        ])

  resume_on-Answers :
      (repo : String) (p : ReplayProgress) (head : String) (commits : List String) (landed : Bool)
      → Answers (resume_on {env = env} repo p head commits landed)
  unfolding resume_on resume_recorded
  resume_on-Answers repo p head commits false = pure-Answers (from_top head)
  resume_on-Answers repo p head commits true =
      if-Answers (not (p.stopped == "") && not (head == p.onto)) _ _
        (>>=-Answers _ _ (count_commits-Answers repo (str_append p.onto (str_append ".." head)))
          (λ n. pure-Answers _))
        (pure-Answers (place p p.done false head commits))

  is_ancestor-Answers :
      (repo commit descendant : String) → Answers (is_ancestor {env = env} repo commit descendant)
  unfolding is_ancestor
  is_ancestor-Answers repo commit descendant = if-Answers (commit == "") _ _ (pure-Answers false) (
      >>=-Answers _ _ (try_git-Answers repo (GitCommand.merge_base commit descendant))
        (λ o. pure-Answers (is_some o)))

  resume_by-Answers :
      (repo ref head : String) (commits : List String) (o : Option ReplayProgress)
      → Answers (resume_by {env = env} repo ref head commits o)
  unfolding resume_by
  resume_by-Answers repo ref head commits none = pure-Answers (from_top head)
  resume_by-Answers repo ref head commits (some p) =
      if-Answers (p.ref == ref) _ _
        (>>=-Answers _ _ (is_ancestor-Answers repo p.onto head)
          (λ landed. resume_on-Answers repo p head commits landed))
        (pure-Answers (from_top head))

  resume_at-Answers :
      (repo ref head : String) (commits : List String)
      → Answers (resume_at {env = env} repo ref head commits)
  unfolding resume_at
  resume_at-Answers repo ref head commits =
      >>=-Answers _ _ (load_progress-Answers repo) (λ o. resume_by-Answers repo ref head commits o)

  -- What a replay that returned has done: it listed the range, started at the place that resumeAt gave, picked
  -- every commit from there on, and returned the base of that place.
  abbrev pub IsWhole : String → String → String → String → GitWorld env → GitWorld env → Type 0
  IsWhole repo ref range base w w' =
      (list tip head : String) × (a b c d v : GitWorld env) × (at : Resumed) × (validate_progress
          repo w
        ≡ (ok tt, a))
      × (run_git repo (GitCommand.rev_list range) a ≡ (ok list, b))
      × (run_git repo (GitCommand.resolve ref) b ≡ (ok tip, c))
      × (head_commit repo c ≡ (ok head, d))
      × (resume_at repo (trim_line tip) head (non_empty_lines list) d ≡ (ok at, v))
      × ArePicked repo (drop at.start (non_empty_lines list)) v w'
      × (base ≡ at.base)

  replay_signed_range-IsWhole :
      (repo ref range : String) (w : GitWorld env) {base : String} {w' : GitWorld env}
      → replay_signed_range repo ref range w ≡ (ok base, w')
      → IsWhole repo ref range base w w'
  unfolding replay_signed_range
  replay_signed_range-IsWhole repo ref range w {base} {w'} e =
      let (u, w1, valid, e1) = >>=-ok (validate_progress repo) _ w e in
      let (list, w2, listed, e2) = >>=-ok (run_git repo (GitCommand.rev_list range)) _ w1 e1 in
      let (tip, w3, resolved, e3) = >>=-ok (run_git repo (GitCommand.resolve ref)) _ w2 e2 in
      let (head, w4, read, e4) = >>=-ok (head_commit repo) _ w3 e3 in
      let (at, w5, resumed, e5) =
        >>=-ok (resume_at repo (trim_line tip) head (non_empty_lines list)) _ w4 e4 in
      let (applied, same) =
        replay_from-Picks repo (trim_line tip) (non_empty_lines list) head at w5 base w' e5 in
      (
        list, tip, head, w1, w2, w3, w4, w5, at, valid, listed, resolved, read, resumed, applied,
        same,
      )

module _ {env : GitEnv} (calm : IsCalm env) where
  validate_progress-answers :
      (repo : String) (w : GitWorld env)
      → valid_file env.decode no_file_faults w.disk.file ≡ ok tt
      → (v : GitWorld env) × (validate_progress repo w ≡ (ok tt, v))
  unfolding validate_progress the_disk lift ◌>>=◌ then_with
  validate_progress-answers repo w valid =
      let (dir, v, located, kept) = run_git-kept calm repo GitCommand.absolute_git_dir w tt in
      let (u, asked, same) = calm_faults calm v in
      (
        u,
        ap
              (then_with
                (λ d. next_faults >>= λ f. the_disk >>= λ x. lift (valid_file env.decode f x.file)))
              located
            ∙ ap (then_with (λ f. the_disk >>= λ x. lift (valid_file env.decode f x.file))) asked
            ∙ ap (λ x. (valid_file env.decode no_file_faults x.file, u)) (same ∙ kept)
            ∙ ap (λ r. (r, u)) valid,
      )

  -- A replay ends, and with every commit behind the place of resumeAt picked and its base returned, wherever the
  -- progress file is absent or complete, git runs the commands of the replay, no access to the file fails, and the
  -- record can be encoded.
  pub replay_signed_range-returns :
      (repo ref range : String) (w : GitWorld env)
      → valid_file env.decode no_file_faults w.disk.file ≡ ok tt
      → (base : String) × (w' : GitWorld env) × (replay_signed_range repo ref range w
          ≡ (ok base, w'))
        × IsWhole repo ref range base w w'
  unfolding replay_signed_range
  replay_signed_range-returns repo ref range w valid =
      let (base, w', ran) = answers in
      (base, w', ran, replay_signed_range-IsWhole repo ref range w ran)
    where
      answers :
          (base : String) × (w' : GitWorld env) × (replay_signed_range repo ref range w
            ≡ (ok base, w'))
      answers =
          let (v, checked) = validate_progress-answers repo w valid in
          >>=-AnswersAt calm (validate_progress repo) _ w tt v checked (
            >>=-Answers _ _ (run_git-Answers calm repo (GitCommand.rev_list range) tt)
              (λ list.
                >>=-Answers _ _ (run_git-Answers calm repo (GitCommand.resolve ref) tt) (λ tip.
                  >>=-Answers _ _ (head_commit-Answers calm repo) (λ head.
                    >>=-Answers _ _
                      (resume_at-Answers repo (trim_line tip) head (non_empty_lines list))
                      (λ at.
                        replay_from-Answers calm repo (trim_line tip) (non_empty_lines list) head
                          at))))
              v)
