-- ===== src/Replay/Live.antt =====
-- A replay that nothing disturbs ends with a value.
use bivouac.Prelude.{
  Bool, false, String, Option, none, some, List, [], ◌∷◌, ◌≡◌, refl, ap, ◌∙◌, ◌==◌, arith, ok, ◌++◌,
}
use bivouac.State.Disk.{write_file_atomic}
use bivouac.Act.{pure, ◌>>=◌, ◌>>◌, then_with, Answers, pure-Answers, >>=-Answers, if-Answers}
use bivouac.Git.{
  GitCommand, args, GitEnv, GitWorld, Work, ReplayProgress, FileFaults, try_git, run_git, answered,
  head_commit,
}
use bivouac.Trailers.{strip_agent_trailers}
use bivouac.Replay.Progress.{next_faults, write_progress, save_progress}
use bivouac.Replay.Resume.{Resumed, drop}
use bivouac.Replay.Saved.{versioned}
use bivouac.Replay.{
  first_progress, resign_hand_finished, clean_message, clean_replayed_message, after_answer,
  save_after, cleaned_head, picked, pick, pick_all, resigned_head, save_if, replay_from,
}

abbrev pub no_file_faults : FileFaults
no_file_faults = record {
  read = false;
  mkdir = false;
  write = record {
    mkdir = false;
    stat = false;
    create = false;
    chmod = false;
    write = false;
    sync = false;
    close = false;
    rename = false;
    open_dir = false;
    sync_dir = false;
    close_dir = false;
    unlink = false;
    stored = "";
  };
  remove = false;
}

-- The commands whose failure stops a replay; merge-base and rev-list --count may fail.
abbrev pub IsRequired : GitCommand → Type 0
IsRequired (GitCommand.merge_base commit descendant) = ⊥
IsRequired (GitCommand.rev_count range) = ⊥
IsRequired _ = Unit

-- git runs these commands, no access to the progress file fails, and a record can be encoded.
abbrev pub IsCalm : GitEnv → Type 0
IsCalm env =
    ((repo : String) (command : GitCommand) (o : env.Outside)
      → IsRequired command
      → (out : String) × (o' : env.Outside) × (env.git repo (args command) o ≡ (some out, o')))
    × ((o : env.Outside) → (env.faults o).0 ≡ no_file_faults)
    × ((p : ReplayProgress) → (text : String) × (env.encode p ≡ some text))

module _ {env : GitEnv} (calm : IsCalm env) where
  -- It answers in this world.
  abbrev AnswersAt : {A : Type 0} → Work env A → GitWorld env → Type 0
  AnswersAt {A = A} m w = (a : A) × (v : GitWorld env) × (m w ≡ (ok a, v))

  pub >>=-AnswersAt :
      {A B : Type 0} (m : Work env A) (f : A → Work env B) (w : GitWorld env) (a : A)
      (v : GitWorld env)
      → m w ≡ (ok a, v)
      → AnswersAt (f a) v
      → AnswersAt (m >>= f) w
  unfolding ◌>>=◌
  >>=-AnswersAt m f w a v first (b, u, second) = (b, u, ap (then_with f) first ∙ second)

  -- The output of a required command, with the file as it was.
  pub run_git-kept :
      (repo : String) (command : GitCommand) (w : GitWorld env)
      → IsRequired command
      → (out : String) × (v : GitWorld env) × (run_git repo command w ≡ (ok out, v))
        × (v.disk ≡ w.disk)
  unfolding run_git try_git answered pure ◌>>=◌ then_with
  run_git-kept repo command w needed =
      let (out, o', ran) = calm.0 repo command w.outside needed in
      (
        out,
        record w { outside = o'; calls = w.calls ++ command ∷ [] },
        ap (λ x. answered command x.0 (record w { outside = x.1; calls = w.calls ++ command ∷ [] }))
            ran,
        refl,
      )

  pub run_git-Answers :
      (repo : String) (command : GitCommand)
      → IsRequired command
      → Answers (run_git {env = env} repo command)
  run_git-Answers repo command needed w =
      let (out, v, ran, kept) = run_git-kept repo command w needed in (out, v, ran)

  pub calm_faults :
      (w : GitWorld env)
      → (v : GitWorld env) × (next_faults w ≡ (ok no_file_faults, v)) × (v.disk ≡ w.disk)
  unfolding next_faults
  calm_faults w = (
    record w { outside = (env.faults w.outside).1 },
    ap (λ f. (ok f, record w { outside = (env.faults w.outside).1 })) (calm.1 w.outside),
    refl,
  )

  write_progress-Answers :
      (o : Option String) (text : String)
      → o ≡ some text
      → Answers (write_progress {env = env} no_file_faults o)
  unfolding write_progress write_file_atomic
  write_progress-Answers none text e w = ground (arith, e)
  write_progress-Answers (some t) text e w = (tt, _, refl)

  save_progress-Answers :
      (repo : String) (p : ReplayProgress) → Answers (save_progress {env = env} repo p)
  unfolding save_progress
  save_progress-Answers repo p =
      >>=-Answers (run_git repo GitCommand.absolute_git_dir) _
        (run_git-Answers repo GitCommand.absolute_git_dir tt)
        (λ dir w.
          let (v, asked, kept) = calm_faults w in
          let (text, encoded) = calm.2 (versioned p) in
          >>=-AnswersAt next_faults _ w no_file_faults v asked
            (write_progress-Answers (env.encode (versioned p)) text encoded v))

  save_if-Answers :
      (b : Bool) (repo : String) (p : ReplayProgress) → Answers (save_if {env = env} b repo p)
  unfolding save_if
  save_if-Answers b repo p = if-Answers b _ _ (save_progress-Answers repo p) (pure-Answers tt)

  pub head_commit-Answers : (repo : String) → Answers (head_commit {env = env} repo)
  unfolding head_commit
  head_commit-Answers repo =
      >>=-Answers _ _ (run_git-Answers repo (GitCommand.resolve "HEAD") tt) (λ out. pure-Answers _)

  amend-Answers :
      (repo message : String)
      → Answers (run_git {env = env} repo (GitCommand.amend message) >> pure tt)
  amend-Answers repo message =
      >>=-Answers _ _ (run_git-Answers repo (GitCommand.amend message) tt) (λ out. pure-Answers tt)

  cleaned_head-Answers : (repo before : String) → Answers (cleaned_head {env = env} repo before)
  unfolding cleaned_head clean_replayed_message clean_message
  cleaned_head-Answers repo before = >>=-Answers _ _ (head_commit-Answers repo) (λ after.
      if-Answers (after == before) _ _ (pure-Answers after) (
        >>=-Answers _ _
          (>>=-Answers _ _ (run_git-Answers repo GitCommand.head_message tt) (λ message.
            if-Answers (strip_agent_trailers env.strings message == message) _ _ (pure-Answers tt)
              (amend-Answers repo (strip_agent_trailers env.strings message))))
          (λ u. head_commit-Answers repo)))

  resigned_head-Answers :
      (repo head : String) (b : Bool) → Answers (resigned_head {env = env} repo head b)
  unfolding resigned_head resign_hand_finished
  resigned_head-Answers repo head b =
      if-Answers b _ _
        (>>=-Answers _ _
          (>>=-Answers _ _ (run_git-Answers repo GitCommand.head_message tt)
            (λ message. amend-Answers repo (strip_agent_trailers env.strings message)))
          (λ u. head_commit-Answers repo))
        (pure-Answers head)

  save_after-Answers :
      (repo : String) (p : ReplayProgress) (sha : String)
      → Answers (save_after {env = env} repo p sha)
  unfolding save_after after_answer
  save_after-Answers repo p sha w =
      let (u, v, saved) = save_progress-Answers repo p w in (p, v, ap (after_answer p sha) saved)

  pick-Answers :
      (repo : String) (p : ReplayProgress) (sha : String) → Answers (pick {env = env} repo p sha)
  unfolding pick picked try_git
  pick-Answers repo p sha = >>=-Answers _ _ (head_commit-Answers repo) (λ before w.
      let (out, o', ran) = calm.0 repo (GitCommand.cherry_pick sha) w.outside tt in
      >>=-AnswersAt (try_git repo (GitCommand.cherry_pick sha)) (picked repo p sha before) w
        (some out) (record w { outside = o'; calls = w.calls ++ GitCommand.cherry_pick sha ∷ [] })
        (ap
          (λ x. (
            ok x.0,
            record w { outside = x.1; calls = w.calls ++ GitCommand.cherry_pick sha ∷ [] },
          ))
          ran)
        (>>=-Answers _ _ (cleaned_head-Answers repo before)
          (λ after.
            save_after-Answers repo (record p { done = sha; stopped = ""; onto = after }) sha)
          _))

  pick_all-Answers :
      (repo : String) (c : List String) (p : ReplayProgress)
      → Answers (pick_all {env = env} repo p c)
  unfolding pick_all
  pick_all-Answers repo [] p = pure-Answers p
  pick_all-Answers repo (sha ∷ c) p =
      >>=-Answers _ _ (pick-Answers repo p sha) (λ p'. pick_all-Answers repo c p')

  pub replay_from-Answers :
      (repo tip : String) (commits : List String) (head : String) (at : Resumed)
      → Answers (replay_from {env = env} repo tip commits head at)
  unfolding replay_from
  replay_from-Answers repo tip commits head at =
      >>=-Answers _ _ (resigned_head-Answers repo head at.hand_finished) (λ now.
        >>=-Answers _ _ (save_if-Answers at.hand_finished repo (first_progress tip commits at now))
          (λ u.
            >>=-Answers _ _
              (pick_all-Answers repo (drop at.start commits) (first_progress tip commits at now))
              (λ p. pure-Answers at.base)))
