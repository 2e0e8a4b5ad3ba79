-- ===== src/Replay/Resume/Stopped.antt =====
-- The record of a replay that was interrupted brings the next one to the right commit.
use bivouac.Prelude.{
  ℕ, suc, ◌≡◌, ◌≢◌, refl, sym, ap, ◌∙◌, subst, ◌⊎◌, inl, inr, Bool, true, false, not, ◌&&◌,
  Bool-cases, String, str_append, some, List, ◌==◌, eq_iff, ne_of_eq_false, if◌then◌else◌, arith,
  ok,
}
use bivouac.Act.{Answers, pure-Answers, >>=-Answers, pure, ◌>>=◌, then_with}
use bivouac.Git.{
  GitEnv, GitWorld, ReplayProgress, is_ancestor, try_git, count_commits, counted, GitCommand,
}
use bivouac.Replay.Progress.{load_progress}
use bivouac.Replay.Resume.{Resumed, place, is_one, resume_recorded, resume_on, resume_by, resume_at}
use bivouac.Replay.Resume.Laws.{IsListing, IsStopped, place-done, place-stopped, named_at}

-- The place, seen from the head and the record.
abbrev pub IsContinued : ReplayProgress → String → ℕ → Resumed → Type 0
IsContinued p head i at =
    (at.base ≡ p.base)
    × (((head ≡ p.onto) × (at.start ≡ i) × (at.hand_finished ≡ false))
        ⊎ ((head ≢ p.onto) × (at.start ≡ suc i)))

-- The first branch of an action, if the test passes.
if_true : {A W : Type 0} (b : Bool) (m n : W → A) (w : W) → b ≡ true → (if b then m else n) w ≡ m w
if_true true m n w e = refl
if_true false m n w e = ground arith

and_false : (b : Bool) → (b && false) ≡ false
and_false true = refl
and_false false = refl

module _ {env : GitEnv} where
  resume_at-recorded :
      (repo tip head : String) (commits : List String) (p : ReplayProgress) (w u v : GitWorld env)
      → p.ref ≡ tip
      → load_progress repo w ≡ (ok (some p), u)
      → is_ancestor repo p.onto head u ≡ (ok true, v)
      → resume_at repo tip head commits w ≡ resume_recorded repo p head commits v
  unfolding resume_at resume_by resume_on ◌>>=◌ then_with
  resume_at-recorded repo tip head commits p w u v same loaded landed =
      ap (then_with (resume_by repo tip head commits)) loaded ∙ chosen
    where
      test : (p.ref == tip) ≡ true
      test = (eq_iff p.ref tip).1 same

      chosen : resume_by repo tip head commits (some p) u ≡ resume_recorded repo p head commits v
      chosen = rw test (ap (then_with (resume_on repo p head commits)) landed)

  pub try_git-Answers :
      (repo : String) (command : GitCommand) → Answers (try_git {env = env} repo command)
  unfolding try_git
  try_git-Answers repo command w = (_, _, refl)

  pub count_commits-Answers : (repo range : String) → Answers (count_commits {env = env} repo range)
  unfolding count_commits
  count_commits-Answers repo range =
      >>=-Answers (try_git repo (GitCommand.rev_count range)) (λ out. pure (counted out))
        (try_git-Answers repo (GitCommand.rev_count range)) (λ out. pure-Answers (counted out))

  at_stopped :
      (repo tip base head : String) (commits : List String) (i : ℕ) (sha : String)
      (p : ReplayProgress) (v : GitWorld env)
      → IsListing commits
      → IsStopped tip base commits i sha p
      → (head == p.onto) ≡ true
      → (resume_recorded repo p head commits v
          ≡ (ok (record { start = i; base = p.base; hand_finished = false }), v))
  unfolding resume_recorded pure
  at_stopped repo tip base head commits i sha p v listing (ref, based, (rest, here), done, stopped)
        same =
      rw (same, and_false (not (p.stopped == "")))
        (ap (λ x. (ok x, v))
          (ap (λ x. place p x false head commits) done
            ∙ place-done p head i commits rest sha false listing here))

  resume_recorded-IsContinued :
      (repo tip base head : String) (commits : List String) (i : ℕ) (sha : String)
      (p : ReplayProgress) (v : GitWorld env)
      → IsListing commits
      → IsStopped tip base commits i sha p
      → (at : Resumed) × (v' : GitWorld env) × (resume_recorded repo p head commits v ≡ (ok at, v'))
        × IsContinued p head i at
  unfolding resume_recorded pure ◌>>=◌ then_with
  resume_recorded-IsContinued repo tip base head commits i sha p v listing
        (ref, based, (rest, here), done, stopped) =
      elim (Bool-cases (head == p.onto)) [
        | inl same ↦ (
          record { start = i; base = p.base; hand_finished = false },
          v,
          at_stopped repo tip base head commits i sha p v listing
              (ref, based, (rest, here), done, stopped) same,
          (refl, inl ((eq_iff head p.onto).0 same, refl, refl)),
        )
        | inr other ↦
            let (n, u, asked) =
              count_commits-Answers repo (str_append p.onto (str_append ".." head)) v in
            (
              record { start = suc i; base = p.base; hand_finished = is_one n },
              u,
              if_true (not (p.stopped == "") && not (head == p.onto)) _ _ v (rw (other, named) refl)
                  ∙ (ap (then_with (λ m. pure (place p p.stopped (is_one m) head commits))) asked
                      ∙ ap (λ x. (ok x, u))
                          (ap (λ x. place p x (is_one n) head commits) stopped
                            ∙ place-stopped p head i commits rest sha (is_one n) listing here)),
              (refl, inr (ne_of_eq_false head p.onto other, refl)),
            )
      ]
    where
      named : (p.stopped == "") ≡ false
      named =
          subst (λ x. (x == "") ≡ false) (sym stopped) (named_at i commits rest sha listing here)

  -- After a replay that stopped at a commit, where git still finds the recorded head behind the branch, the
  -- next replay has the same base. It starts with that commit if the head is where it was, and
  -- behind that commit if the head has moved.
  pub resume_at-IsContinued :
      (repo tip base head : String) (commits : List String) (i : ℕ) (sha : String)
      (p : ReplayProgress) (w u v : GitWorld env)
      → IsListing commits
      → IsStopped tip base commits i sha p
      → load_progress repo w ≡ (ok (some p), u)
      → is_ancestor repo p.onto head u ≡ (ok true, v)
      → (at : Resumed) × (v' : GitWorld env) × (resume_at repo tip head commits w ≡ (ok at, v'))
        × IsContinued p head i at
        × (at.base ≡ base)
  resume_at-IsContinued repo tip base head commits i sha p w u v listing stopped loaded landed =
      let (at, v', ran, continued) =
        resume_recorded-IsContinued repo tip base head commits i sha p v listing stopped in
      (
        at,
        v',
        resume_at-recorded repo tip head commits p w u v stopped.0 loaded landed ∙ ran,
        continued,
        continued.0 ∙ stopped.1,
      )
