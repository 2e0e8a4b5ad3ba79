-- ===== src/Replay/Stops.antt =====
-- A replay that stops at a commit leaves the record of that stop.
use bivouac.Prelude.{
  ℕ, suc, ◌≤◌, String, Option, none, some, List, [], ◌∷◌, ◌≡◌, ◌≢◌, refl, sym, ap, ◌∙◌, subst, inl,
  inr, arith, Result, ok, err,
}
use bivouac.Act.{pure, >>=-ok, >>=-cases, Fails}
use bivouac.Git.{GitCommand, GitEnv, GitWorld, ReplayProgress, WorkError, try_git, head_commit}
use bivouac.Replay.Progress.{save_progress}
use bivouac.Replay.Resume.{drop, before_start}
use bivouac.Replay.Resume.Laws.{IsStopped, drop-suc, before_start-at}
use bivouac.Replay.Errors.{IsOther, head_commit-IsOther, cleaned_head-IsOther}
use bivouac.Replay.Saved.{IsSaved, save_progress-IsSaved}
use bivouac.Replay.{
  stopped_answer, after_answer, save_stopped, save_after, cleaned_head, picked, pick, pick_all,
}

module _ {env : GitEnv} where
  -- One round: how it goes on, and how it stops.
  save_after-ok :
      (repo : String) (p : ReplayProgress) (sha : String) (w : GitWorld env) {p' : ReplayProgress}
      {w' : GitWorld env}
      → save_after repo p sha w ≡ (ok p', w')
      → p ≡ p'
  unfolding save_after after_answer
  save_after-ok repo p sha w {p'} {w'} h = go (save_progress repo p w) h
    where
      go :
          (r : Result WorkError (Unit {0}) × GitWorld env)
          → after_answer p sha r ≡ (ok p', w')
          → p ≡ p'
      go (ok u, v) k = ground (arith, k)
      go (err e, v) k = ground (arith, k)

  save_after-IsOther :
      (repo : String) (p : ReplayProgress) (sha : String)
      → Fails IsOther (save_after {env = env} repo p sha)
  unfolding save_after after_answer
  save_after-IsOther repo p sha w e v h = go (save_progress repo p w) h
    where
      go :
          (r : Result WorkError (Unit {0}) × GitWorld env)
          → after_answer p sha r ≡ (err e, v)
          → IsOther e
      go (ok u, x) k = ground (arith, k)
      go (err y, x) k =
          let same : WorkError.progress_not_saved sha ≡ e = ground (arith, k) in
          subst IsOther same tt

  save_stopped-IsSaved :
      (repo : String) (p : ReplayProgress) (sha s : String) (w : GitWorld env) {w' : GitWorld env}
      → save_stopped repo p sha w ≡ (err (WorkError.pick_stopped s), w')
      → (sha ≡ s) × IsSaved p w'
  unfolding save_stopped stopped_answer
  save_stopped-IsSaved repo p sha s w {w'} h = go (save_progress repo p w) refl h
    where
      go :
          (r : Result WorkError (Unit {0}) × GitWorld env)
          → save_progress repo p w ≡ r
          → stopped_answer sha r ≡ (err (WorkError.pick_stopped s), w')
          → (sha ≡ s) × IsSaved p w'
      go (ok u, v) e k =
          let same : v ≡ w' = ground (arith, k) in
          (ground (arith, k), subst (IsSaved p) same (save_progress-IsSaved repo p w e))
      go (err y, v) e k = absurd (ground (arith, k))

  save_stopped-stops :
      (repo : String) (p : ReplayProgress) (sha : String) (w : GitWorld env) {p' : ReplayProgress}
      {w' : GitWorld env}
      → save_stopped repo p sha w ≢ (ok p', w')
  unfolding save_stopped stopped_answer
  save_stopped-stops repo p sha w {p'} {w'} h = go (save_progress repo p w) h
    where
      go : (r : Result WorkError (Unit {0}) × GitWorld env) → stopped_answer sha r ≢ (ok p', w')
      go (ok u, v) k = ground (arith, k)
      go (err y, v) k = ground (arith, k)

  -- A round that returned: the commit has landed, and the record says so.
  pick-ok :
      (repo : String) (p : ReplayProgress) (sha : String) (w : GitWorld env) {p' : ReplayProgress}
      {w' : GitWorld env}
      → pick repo p sha w ≡ (ok p', w')
      → (after : String) × (record p { done = sha; stopped = ""; onto = after } ≡ p')
  unfolding pick picked
  pick-ok repo p sha w {p'} {w'} h =
      let (before, u, read, rest) = >>=-ok (head_commit repo) _ w h in
      let (out, v, tried, more) = >>=-ok (try_git repo (GitCommand.cherry_pick sha)) _ u rest in
      go before out v more
    where
      go :
          (before : String) (out : Option String) (v : GitWorld env)
          → picked repo p sha before out v ≡ (ok p', w')
          → (after : String) × (record p { done = sha; stopped = ""; onto = after } ≡ p')
      go before none v k =
          absurd (save_stopped-stops repo (record p { stopped = sha; onto = before }) sha v k)
      go before (some text) v k =
          let (after, x, cleaned, last) = >>=-ok (cleaned_head repo before) _ v k in
          (
            after,
            save_after-ok repo (record p { done = sha; stopped = ""; onto = after }) sha x last,
          )

  -- A round that stopped: the record names the commit, and is saved.
  pick-stopped :
      (repo : String) (p : ReplayProgress) (sha s : String) (w : GitWorld env) {w' : GitWorld env}
      → pick repo p sha w ≡ (err (WorkError.pick_stopped s), w')
      → (sha ≡ s) × ((before : String) × IsSaved (record p { stopped = sha; onto = before }) w')
  unfolding pick picked try_git
  pick-stopped repo p sha s w {w'} h = elim (>>=-cases (head_commit repo) _ w h) [
    | inl (e, failed, same) ↦ absurd (other same (head_commit-IsOther repo w e w' failed))
    | inr (before, u, read, rest) ↦
        elim (>>=-cases (try_git repo (GitCommand.cherry_pick sha)) _ u rest) [
          | inl (e, failed, same) ↦ ground (arith, failed)
          | inr (out, v, tried, more) ↦ go before out v more
        ]
  ]
    where
      other :
          {e : WorkError}
          → ◌≡◌ {A = Result WorkError ReplayProgress} (err (WorkError.pick_stopped s)) (err e)
          → IsOther e
          → ⊥
      other {e} k n =
          let same : e ≡ WorkError.pick_stopped s = ground (arith, k) in subst IsOther same n

      go :
          (before : String) (out : Option String) (v : GitWorld env)
          → picked repo p sha before out v ≡ (err (WorkError.pick_stopped s), w')
          → (sha ≡ s) × ((onto : String) × IsSaved (record p { stopped = sha; onto = onto }) w')
      go before none v k =
          let (same, saved) =
            save_stopped-IsSaved repo (record p { stopped = sha; onto = before }) sha s v k in
          (same, (before, saved))
      go before (some text) v k = elim (>>=-cases (cleaned_head repo before) _ v k) [
        | inl (e, failed, same) ↦
            absurd (other same (cleaned_head-IsOther repo before v e w' failed))
        | inr (after, x, cleaned, last) ↦ absurd (
            save_after-IsOther repo (record p { done = sha; stopped = ""; onto = after }) sha x _ w'
              last)
      ]

  -- The loop that stopped, at the commit with the index `i`.
  pub pick_all-IsStopped :
      (repo : String) (commits : List String) (sha : String) (w' : GitWorld env) (c : List String)
      (n : ℕ) (p : ReplayProgress) (w : GitWorld env)
      → drop n commits ≡ c
      → p.done ≡ before_start n commits
      → pick_all repo p c w ≡ (err (WorkError.pick_stopped sha), w')
      → (i : ℕ) × (q : ReplayProgress) × (n ≤ i)
        × IsStopped p.ref p.base commits i sha q
        × IsSaved q w'
  unfolding pick_all pure
  pick_all-IsStopped repo commits sha w' [] n p w at done h = ground (arith, h)
  pick_all-IsStopped repo commits sha w' (s ∷ c) n p w at done h =
      elim (>>=-cases (pick repo p s) _ w h) [
        | inl (e, failed, same) ↦
            let this : e ≡ WorkError.pick_stopped sha = ground (arith, same) in
            let (named, (before, saved)) =
              pick-stopped repo p s sha w
                (subst (λ x. pick repo p s w ≡ (err x, w')) this failed) in
            (
              n,
              record p { stopped = s; onto = before },
              omega arith,
              (refl, refl, (c, at ∙ ap (λ x. x ∷ c) named), done, named),
              saved,
            )
        | inr (p', v, picked_it, rest) ↦
            let (after, same) = pick-ok repo p s w picked_it in
            let (i, q, later, stopped, saved) =
              pick_all-IsStopped repo commits sha w' c (suc n)
                (record p { done = s; stopped = ""; onto = after }) v (drop-suc n commits c s at)
                (sym (before_start-at n commits c s at))
                (subst (λ x. pick_all repo x c v ≡ (err (WorkError.pick_stopped sha), w'))
                  (sym same) rest) in
            (i, q, omega (arith, later), stopped, saved)
      ]
