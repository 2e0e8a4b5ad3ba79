-- ===== src/Replay/Resume.antt =====
-- Where a replay goes on: resumeAt of internal/lifecycle/replayprogress.go.
pub mod Laws
pub mod Stopped
use bivouac.Prelude.{
  ℕ, zero, suc, Bool, true, false, not, ◌&&◌, String, str_append, Option, none, some, List, [], ◌∷◌,
  ◌==◌, if◌then◌else◌, eqb,
}
use bivouac.Act.{pure, ◌>>=◌}
use bivouac.Git.{GitEnv, Work, ReplayProgress, is_ancestor, count_commits}
use bivouac.Replay.Progress.{load_progress}

-- commits[start:], and commits[start-1] where there is one; `before_start` is empty where the index is out of range
abbrev pub drop {ℓ} : {A : Type ℓ} → ℕ → List A → List A
drop zero xs = xs
drop (suc n) [] = []
drop (suc n) (x ∷ xs) = drop n xs

abbrev pub before_start : ℕ → List String → String
before_start zero commits = ""
before_start (suc n) [] = ""
before_start (suc zero) (c ∷ commits) = c
before_start (suc (suc n)) (c ∷ commits) = before_start (suc n) commits

-- The three results of resumeAt.
pub record Resumed : Type 0 where
  pub start : ℕ
  pub base : String
  pub hand_finished : Bool

abbrev pub from_top : String → Resumed
from_top head = record { start = 0; base = head; hand_finished = false }

-- The index behind the first commit that is `last`.
abbrev next_index : Option ℕ → Option ℕ
next_index none = none
next_index (some i) = some (suc i)

abbrev pub index_behind : String → List String → Option ℕ
index_behind last [] = none
index_behind last (sha ∷ commits) =
    let rest = next_index (index_behind last commits) in if sha == last then some 1 else rest

abbrev pub placed : Option ℕ → ReplayProgress → Bool → String → Resumed
placed none p hand_finished head = from_top head
placed (some i) p hand_finished head = record {
  start = i;
  base = p.base;
  hand_finished = hand_finished;
}

-- The end of resumeAt, from the last commit that has landed.
unfoldable pub place : ReplayProgress → String → Bool → String → List String → Resumed
place p last hand_finished head commits =
    if last == ""
    then record { start = 0; base = p.base; hand_finished = hand_finished }
    else placed (index_behind last commits) p hand_finished head

abbrev pub is_one : Option ℕ → Bool
is_one none = false
is_one (some n) = eqb n 1

module _ {env : GitEnv} where
  unfoldable pub resume_recorded : String → ReplayProgress → String → List String → Work env Resumed
  unfolding count_commits place
  resume_recorded repo p head commits =
      if not (p.stopped == "") && not (head == p.onto)
      then (do
        n ← count_commits repo (str_append p.onto (str_append ".." head))
        pure (place p p.stopped (is_one n) head commits))
      else pure (place p p.done false head commits)

  unfoldable pub resume_on :
      String → ReplayProgress → String → List String → Bool → Work env Resumed
  unfolding resume_recorded
  resume_on repo p head commits true = resume_recorded repo p head commits
  resume_on repo p head commits false = pure (from_top head)

  unfoldable pub resume_by :
      String → String → String → List String → Option ReplayProgress → Work env Resumed
  unfolding is_ancestor resume_on
  resume_by repo ref head commits none = pure (from_top head)
  resume_by repo ref head commits (some p) =
      if p.ref == ref
      then (do landed ← is_ancestor repo p.onto head; resume_on repo p head commits landed)
      else pure (from_top head)

  -- resumeAt
  unfoldable pub resume_at : String → String → String → List String → Work env Resumed
  unfolding load_progress resume_by
  resume_at repo ref head commits = do p ← load_progress repo; resume_by repo ref head commits p
