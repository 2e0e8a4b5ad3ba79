-- ===== src/Replay/Errors.antt =====
-- Which steps of a replay cannot report that a pick stopped with its progress saved.
use bivouac.Prelude.{Bool, String, Option, none, some, ◌≡◌, subst, ◌==◌, arith, err}
use bivouac.Act.{pure, fail, ◌>>=◌, ◌>>◌, Fails, pure-Fails, fail-Fails, >>=-Fails, if-Fails}
use bivouac.Git.{
  GitCommand, args, GitEnv, GitWorld, ReplayProgress, FileFaults, WorkError, try_git, run_git,
  answered, head_commit,
}
use bivouac.Trailers.{strip_agent_trailers}
use bivouac.Replay.Progress.{save_progress, write_progress, next_faults}
use bivouac.Replay.Saved.{versioned}
use bivouac.Replay.{
  resign_hand_finished, clean_message, clean_replayed_message, cleaned_head, resigned_head,
}

-- Every error but the one of a pick that stopped with its progress saved.
abbrev pub IsOther : WorkError → Type 0
IsOther (WorkError.pick_stopped sha) = ⊥
IsOther _ = Unit

module _ {env : GitEnv} where
  pub run_git-IsOther :
      (repo : String) (command : GitCommand) → Fails IsOther (run_git {env = env} repo command)
  unfolding run_git try_git answered ◌>>=◌ pure fail
  run_git-IsOther repo command w e v h = go (env.git repo (args command) w.outside).0 _ h
    where
      go :
          (o : Option String) (x : GitWorld env)
          → answered {env = env} command o x ≡ (err e, v)
          → IsOther e
      go none x k =
          let same : WorkError.git_failed command ≡ e = ground (arith, k) in subst IsOther same tt
      go (some out) x k = ground (arith, k)

  pub head_commit-IsOther : (repo : String) → Fails IsOther (head_commit {env = env} repo)
  unfolding head_commit
  head_commit-IsOther repo =
      >>=-Fails IsOther _ _ (run_git-IsOther repo (GitCommand.resolve "HEAD"))
        (λ out. pure-Fails IsOther _)

  pub amend-IsOther :
      (repo message : String)
      → Fails IsOther (run_git {env = env} repo (GitCommand.amend message) >> pure tt)
  amend-IsOther repo message =
      >>=-Fails IsOther _ _ (run_git-IsOther repo (GitCommand.amend message))
        (λ out. pure-Fails IsOther tt)

  pub clean_replayed_message-IsOther :
      (repo : String) → Fails IsOther (clean_replayed_message {env = env} repo)
  unfolding clean_replayed_message clean_message
  clean_replayed_message-IsOther repo =
      >>=-Fails IsOther _ _ (run_git-IsOther repo GitCommand.head_message) (λ message.
        if-Fails IsOther (strip_agent_trailers env.strings message == message) _ _
          (pure-Fails IsOther tt) (amend-IsOther repo (strip_agent_trailers env.strings message)))

  pub cleaned_head-IsOther :
      (repo before : String) → Fails IsOther (cleaned_head {env = env} repo before)
  unfolding cleaned_head
  cleaned_head-IsOther repo before = >>=-Fails IsOther _ _ (head_commit-IsOther repo) (λ after.
      if-Fails IsOther (after == before) _ _ (pure-Fails IsOther after) (
        >>=-Fails IsOther _ _ (clean_replayed_message-IsOther repo)
          (λ u. head_commit-IsOther repo)))

  pub resigned_head-IsOther :
      (repo head : String) (hand_finished : Bool)
      → Fails IsOther (resigned_head {env = env} repo head hand_finished)
  unfolding resigned_head resign_hand_finished
  resigned_head-IsOther repo head hand_finished =
      if-Fails IsOther hand_finished _ _
        (>>=-Fails IsOther _ _
          (>>=-Fails IsOther _ _ (run_git-IsOther repo GitCommand.head_message)
            (λ message. amend-IsOther repo (strip_agent_trailers env.strings message)))
          (λ u. head_commit-IsOther repo))
        (pure-Fails IsOther head)

  pub next_faults-IsOther : Fails IsOther (next_faults {env = env})
  unfolding next_faults
  next_faults-IsOther w e v h = ground (arith, h)

  pub write_progress-IsOther :
      (f : FileFaults) (o : Option String) → Fails IsOther (write_progress {env = env} f o)
  unfolding write_progress
  write_progress-IsOther f none w e v h =
      let same : WorkError.unencodable_progress ≡ e = ground (arith, h) in subst IsOther same tt
  write_progress-IsOther f (some text) w e v h = ground (arith, h)

  pub save_progress-IsOther :
      (repo : String) (p : ReplayProgress) → Fails IsOther (save_progress {env = env} repo p)
  unfolding save_progress
  save_progress-IsOther repo p =
      >>=-Fails IsOther _ _ (run_git-IsOther repo GitCommand.absolute_git_dir) (λ dir.
        >>=-Fails IsOther _ _ next_faults-IsOther (λ f.
          if-Fails IsOther f.mkdir _ _ (fail-Fails IsOther WorkError.no_directory tt)
            (write_progress-IsOther f (env.encode (versioned p)))))
