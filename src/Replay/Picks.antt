-- ===== src/Replay/Picks.antt =====
-- Which commits a replay picks, by the git commands that it runs.
use bivouac.Prelude.{
  Bool, true, false, String, Option, none, some, List, [], ◌∷◌, ◌++◌, ◌≡◌, ◌≢◌, refl, sym, ap, ◌∙◌,
  subst, ◌==◌, if◌then◌else◌, arith, Result, ok, err,
}
use mathlib.Core.List.{append_assoc, append-nil}
use bivouac.Act.{pure, fail, ◌>>=◌, ◌>>◌, >>=-ok, >>=-kept}
use bivouac.Git.{
  GitCommand, GitEnv, GitWorld, Work, ReplayProgress, FileFaults, WorkError, try_git, run_git,
  answered, head_commit,
}
use bivouac.Trailers.{strip_agent_trailers}
use bivouac.Replay.Progress.{save_progress, write_progress, next_faults}
use bivouac.Replay.Resume.{Resumed, drop}
use bivouac.Replay.{
  first_progress, resign_hand_finished, clean_message, clean_replayed_message, stopped_answer,
  after_answer, save_stopped, save_after, cleaned_head, picked, pick, pick_all, resigned_head,
  save_if, replay_from,
}

-- The commits that were picked, in order.
abbrev pub pick_of : GitCommand → List String
pick_of (GitCommand.cherry_pick sha) = sha ∷ []
pick_of _ = []

abbrev pub picks : List GitCommand → List String
picks [] = []
picks (command ∷ commands) = pick_of command ++ picks commands

picks-append : (a b : List GitCommand) → picks (a ++ b) ≡ picks a ++ picks b
picks-append [] b = refl
picks-append (c ∷ a) b =
    ap (λ x. pick_of c ++ x) (picks-append a b) ∙ sym (append_assoc (pick_of c) (picks a) (picks b))

module _ {env : GitEnv} where
  -- The action picks `new`.
  abbrev Picks : List String → GitWorld env → GitWorld env → Type 0
  Picks new w v = picks v.calls ≡ picks w.calls ++ new

  abbrev Same : GitWorld env → GitWorld env → Type 0
  Same w v = picks v.calls ≡ picks w.calls

  -- It picks nothing, however it ends.
  abbrev IsPickFree : {A : Type 0} → Work env A → Type 0
  IsPickFree m = (w : GitWorld env) → Same w (m w).1

  >>=-IsPickFree :
      {A B : Type 0} (m : Work env A) (f : A → Work env B)
      → IsPickFree m
      → ((a : A) → IsPickFree (f a))
      → IsPickFree (m >>= f)
  >>=-IsPickFree m f hm hf = >>=-kept Same m f (λ u v w h k. k ∙ h) hm hf

  pure-IsPickFree : {A : Type 0} (a : A) → IsPickFree (pure a)
  unfolding pure
  pure-IsPickFree a w = refl

  if-IsPickFree :
      {A : Type 0} (b : Bool) (m n : Work env A)
      → IsPickFree m
      → IsPickFree n
      → IsPickFree (if b then m else n)
  if-IsPickFree true m n hm hn = hm
  if-IsPickFree false m n hm hn = hn

  try_git-Picks :
      (repo : String) (command : GitCommand) (w : GitWorld env)
      → Picks (pick_of command) w (try_git repo command w).1
  unfolding try_git
  try_git-Picks repo command w =
      picks-append w.calls (command ∷ []) ∙ ap (λ x. picks w.calls ++ x) (append-nil _)

  run_git-IsPickFree :
      (repo : String) (command : GitCommand)
      → pick_of command ≡ []
      → IsPickFree (run_git repo command)
  unfolding run_git answered pure fail
  run_git-IsPickFree repo command free =
      >>=-IsPickFree (try_git repo command) (answered command)
        (λ w. try_git-Picks repo command w ∙ ap (λ x. picks w.calls ++ x) free ∙ append-nil _)
        (λ o. elim o as (λ x. IsPickFree (answered command x)) [
          | none ↦ λ w. refl
          | some out ↦ λ w. refl
        ])

  head_commit-IsPickFree : (repo : String) → IsPickFree (head_commit repo)
  unfolding head_commit
  head_commit-IsPickFree repo =
      >>=-IsPickFree _ _ (run_git-IsPickFree repo (GitCommand.resolve "HEAD") refl)
        (λ out. pure-IsPickFree _)

  amend-IsPickFree :
      (repo message : String) → IsPickFree (run_git repo (GitCommand.amend message) >> pure tt)
  amend-IsPickFree repo message =
      >>=-IsPickFree _ _ (run_git-IsPickFree repo (GitCommand.amend message) refl)
        (λ out. pure-IsPickFree tt)

  clean_replayed_message-IsPickFree : (repo : String) → IsPickFree (clean_replayed_message repo)
  unfolding clean_replayed_message clean_message
  clean_replayed_message-IsPickFree repo =
      >>=-IsPickFree _ _ (run_git-IsPickFree repo GitCommand.head_message refl) (λ message.
        if-IsPickFree (strip_agent_trailers env.strings message == message) _ _ (pure-IsPickFree tt)
          (amend-IsPickFree repo (strip_agent_trailers env.strings message)))

  cleaned_head-IsPickFree : (repo before : String) → IsPickFree (cleaned_head repo before)
  unfolding cleaned_head
  cleaned_head-IsPickFree repo before = >>=-IsPickFree _ _ (head_commit-IsPickFree repo) (λ after.
      if-IsPickFree (after == before) _ _ (pure-IsPickFree after) (
        >>=-IsPickFree _ _ (clean_replayed_message-IsPickFree repo)
          (λ u. head_commit-IsPickFree repo)))

  resigned_head-IsPickFree :
      (repo head : String) (b : Bool) → IsPickFree (resigned_head repo head b)
  unfolding resigned_head resign_hand_finished
  resigned_head-IsPickFree repo head b =
      if-IsPickFree b _ _
        (>>=-IsPickFree _ _
          (>>=-IsPickFree _ _ (run_git-IsPickFree repo GitCommand.head_message refl)
            (λ message. amend-IsPickFree repo (strip_agent_trailers env.strings message)))
          (λ u. head_commit-IsPickFree repo))
        (pure-IsPickFree head)

  write_progress-IsPickFree : (f : FileFaults) (o : Option String) → IsPickFree (write_progress f o)
  unfolding write_progress
  write_progress-IsPickFree f none w = refl
  write_progress-IsPickFree f (some text) w = refl

  save_progress-IsPickFree :
      (repo : String) (p : ReplayProgress) → IsPickFree (save_progress repo p)
  unfolding save_progress next_faults fail
  save_progress-IsPickFree repo p =
      >>=-IsPickFree _ _ (run_git-IsPickFree repo GitCommand.absolute_git_dir refl) (λ dir.
        >>=-IsPickFree next_faults _ (λ w. refl)
          (λ f. if-IsPickFree f.mkdir _ _ (λ w. refl) (write_progress-IsPickFree f _)))

  save_if-IsPickFree :
      (b : Bool) (repo : String) (p : ReplayProgress) → IsPickFree (save_if b repo p)
  unfolding save_if
  save_if-IsPickFree b repo p =
      if-IsPickFree b _ _ (save_progress-IsPickFree repo p) (pure-IsPickFree tt)

  save_after-IsPickFree :
      (repo : String) (p : ReplayProgress) (sha : String) → IsPickFree (save_after repo p sha)
  unfolding save_after after_answer
  save_after-IsPickFree repo p sha w =
      go (save_progress repo p w) (save_progress-IsPickFree repo p w)
    where
      go :
          (r : Result WorkError (Unit {0}) × GitWorld env)
          → Same w r.1
          → Same w (after_answer p sha r).1
      go (ok u, v) h = h
      go (err e, v) h = h

  save_stopped-IsPickFree :
      (repo : String) (p : ReplayProgress) (sha : String) → IsPickFree (save_stopped repo p sha)
  unfolding save_stopped stopped_answer
  save_stopped-IsPickFree repo p sha w =
      go (save_progress repo p w) (save_progress-IsPickFree repo p w)
    where
      go :
          (r : Result WorkError (Unit {0}) × GitWorld env)
          → Same w r.1
          → Same w (stopped_answer sha r).1
      go (ok u, v) h = h
      go (err e, v) h = h

  picked-IsPickFree :
      (repo : String) (p : ReplayProgress) (sha before : String) (o : Option String)
      → IsPickFree (picked repo p sha before o)
  unfolding picked
  picked-IsPickFree repo p sha before none =
      save_stopped-IsPickFree repo (record p { stopped = sha; onto = before }) sha
  picked-IsPickFree repo p sha before (some out) =
      >>=-IsPickFree _ _ (cleaned_head-IsPickFree repo before) (λ after.
        save_after-IsPickFree repo (record p { done = sha; stopped = ""; onto = after }) sha)

  -- The answer's world of an action that ran.
  ran :
      {A : Type 0} (m : Work env A) {w v : GitWorld env} {r : Result WorkError A}
      → IsPickFree m
      → m w ≡ (r, v)
      → Same w v
  ran m {w} free e = subst (λ x. Same w x.1) e (free w)

  save_stopped-fails :
      (repo : String) (p : ReplayProgress) (sha : String) (w : GitWorld env) {p' : ReplayProgress}
      {w' : GitWorld env}
      → save_stopped repo p sha w ≢ (ok p', w')
  unfolding save_stopped stopped_answer
  save_stopped-fails repo p sha w h = go (save_progress repo p w) h
    where
      go :
          (r : Result WorkError (Unit {0}) × GitWorld env) {p' : ReplayProgress} {w' : GitWorld env}
          → stopped_answer sha r ≢ (ok p', w')
      go (ok u, v) k = ground (arith, k)
      go (err e, v) k = ground (arith, k)

  -- From one world to another git was told to pick exactly these commits, one after the other, and each pick
  -- answered without an error.
  abbrev pub ArePicked : String → List String → GitWorld env → GitWorld env → Type 0
  ArePicked repo [] w v = picks v.calls ≡ picks w.calls
  ArePicked repo (sha ∷ commits) w v =
      (u x : GitWorld env) × (out : String) × (picks u.calls ≡ picks w.calls)
      × (try_git repo (GitCommand.cherry_pick sha) u ≡ (ok (some out), x))
      × ArePicked repo commits x v

  ArePicked-before :
      (repo : String) (c : List String) (w u v : GitWorld env)
      → Same w u
      → ArePicked repo c u v
      → ArePicked repo c w v
  ArePicked-before repo [] w u v h k = k ∙ h
  ArePicked-before repo (sha ∷ c) w u v h (x, y, out, same, tried, rest) =
      (x, y, out, same ∙ h, tried, rest)

  pick-ArePicked :
      (repo : String) (p : ReplayProgress) (sha : String) (w : GitWorld env) {p' : ReplayProgress}
      {w' : GitWorld env}
      → pick repo p sha w ≡ (ok p', w')
      → (u x : GitWorld env) × (out : String) × Same w u
        × (try_git repo (GitCommand.cherry_pick sha) u ≡ (ok (some out), x))
        × Same x w'
  unfolding pick picked
  pick-ArePicked repo p sha w {p'} {w'} h =
      let (before, u, read, rest) = >>=-ok (head_commit repo) _ w h in
      let (o, v, tried, more) = >>=-ok (try_git repo (GitCommand.cherry_pick sha)) _ u rest in
      go before u v o (ran (head_commit repo) (head_commit-IsPickFree repo) read) tried more
    where
      go :
          (before : String) (u v : GitWorld env) (o : Option String)
          → Same w u
          → try_git repo (GitCommand.cherry_pick sha) u ≡ (ok o, v)
          → picked repo p sha before o v ≡ (ok p', w')
          → (u x : GitWorld env) × (out : String) × Same w u
            × (try_git repo (GitCommand.cherry_pick sha) u ≡ (ok (some out), x))
            × Same x w'
      go before u v none same tried k =
          absurd (save_stopped-fails repo (record p { stopped = sha; onto = before }) sha v k)
      go before u v (some out) same tried k = (
        u,
        v,
        out,
        same,
        tried,
        ran (picked repo p sha before (some out)) (picked-IsPickFree repo p sha before (some out))
            k,
      )

  pick_all-ArePicked :
      (repo : String) (c : List String) (p : ReplayProgress) (w : GitWorld env)
      {p' : ReplayProgress} {w' : GitWorld env}
      → pick_all repo p c w ≡ (ok p', w')
      → ArePicked repo c w w'
  unfolding pick_all pure
  pick_all-ArePicked repo [] p w {p'} {w'} h =
      let same : w ≡ w' = ground (arith, h) in ap (λ x. picks x.calls) (sym same)
  pick_all-ArePicked repo (sha ∷ c) p w {p'} {w'} h =
      let (p1, v, first, rest) = >>=-ok (pick repo p sha) _ w h in
      let (u, x, out, same, tried, after) = pick-ArePicked repo p sha w first in
      (
        u,
        x,
        out,
        same,
        tried,
        ArePicked-before repo c x v w' after (pick_all-ArePicked repo c p1 v rest),
      )

  -- A replay that returned told git to cherry-pick the commits from its start on, each once, in the order of the
  -- list, and no other, and git picked each of them without an error; and it returned its base.
  pub replay_from-Picks :
      (repo tip : String) (commits : List String) (head : String) (at : Resumed) (w : GitWorld env)
      (base : String) (w' : GitWorld env)
      → replay_from repo tip commits head at w ≡ (ok base, w')
      → ArePicked repo (drop at.start commits) w w' × (base ≡ at.base)
  unfolding replay_from pure
  replay_from-Picks repo tip commits head at w base w' h =
      let (now, u, first, rest) = >>=-ok (resigned_head repo head at.hand_finished) _ w h in
      let (s, v, second, more) =
        >>=-ok (save_if at.hand_finished repo (first_progress tip commits at now)) _ u rest in
      let (p, x, third, last) =
        >>=-ok (pick_all repo (first_progress tip commits at now) (drop at.start commits)) _ v
          more in
      let same : x ≡ w' = ground (arith, last) in
      (
        subst (ArePicked repo (drop at.start commits) w) same (
            ArePicked-before repo (drop at.start commits) w v x
              (ran (save_if at.hand_finished repo (first_progress tip commits at now))
                  (save_if-IsPickFree at.hand_finished repo (first_progress tip commits at now))
                  second
                ∙ ran (resigned_head repo head at.hand_finished)
                    (resigned_head-IsPickFree repo head at.hand_finished) first)
              (pick_all-ArePicked repo (drop at.start commits) (first_progress tip commits at now) v
                third)),
        ground (arith, last),
      )
