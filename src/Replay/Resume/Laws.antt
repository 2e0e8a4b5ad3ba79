-- ===== src/Replay/Resume/Laws.antt =====
-- Where a replay goes on after each kind of interruption.
use bivouac.Prelude.{
  ℕ, zero, suc, ◌≤◌, ◌≡◌, ◌≢◌, refl, sym, ap, ◌∙◌, subst, ◌⊎◌, inl, inr, Bool, true, false, not,
  ◌&&◌, Bool-cases, String, Option, none, some, List, [], ◌∷◌, ◌==◌, eq_iff, length, All, arith, ok,
}
use bivouac.Act.{pure, >>=-ok, if-ran}
use bivouac.Git.{GitEnv, GitWorld, ReplayProgress, is_ancestor, count_commits}
use bivouac.Replay.Progress.{load_progress}
use bivouac.Replay.Resume.{
  drop, before_start, Resumed, from_top, index_behind, placed, place, is_one, resume_recorded,
  resume_on, resume_by, resume_at,
}

-- No commit is listed twice, and each has a name.
abbrev pub IsListing : List String → Type 0
IsListing [] = Unit
IsListing (c ∷ commits) =
    ((c == "") ≡ false) × All (λ d. (c == d) ≡ false) commits × IsListing commits

drop-nil : (i : ℕ) (rest : List String) (sha : String) → drop i [] ≢ sha ∷ rest
drop-nil zero rest sha e = ground arith
drop-nil (suc i) rest sha e = ground arith

All-at :
    (P : String → Type 0) (i : ℕ) (commits rest : List String) (sha : String)
    → All P commits
    → drop i commits ≡ sha ∷ rest
    → P sha
All-at P zero [] rest sha h e = ground arith
All-at P zero (c ∷ commits) rest sha h e = let same : c ≡ sha = ground arith in subst P same h.0
All-at P (suc i) [] rest sha h e = ground arith
All-at P (suc i) (c ∷ commits) rest sha h e = All-at P i commits rest sha h.1 e

pub named_at :
    (i : ℕ) (commits rest : List String) (sha : String)
    → IsListing commits
    → drop i commits ≡ sha ∷ rest
    → (sha == "") ≡ false
named_at i [] rest sha h e = absurd (drop-nil i rest sha e)
named_at zero (c ∷ commits) rest sha h e =
    let same : c ≡ sha = ground arith in subst (λ x. (x == "") ≡ false) same h.0
named_at (suc i) (c ∷ commits) rest sha h e = named_at i commits rest sha h.2 e

index_behind-at :
    (i : ℕ) (commits rest : List String) (sha : String)
    → IsListing commits
    → drop i commits ≡ sha ∷ rest
    → index_behind sha commits ≡ some (suc i)
index_behind-at i [] rest sha h e = absurd (drop-nil i rest sha e)
index_behind-at zero (c ∷ commits) rest sha h e = ground (arith, eq_iff c sha)
index_behind-at (suc i) (c ∷ commits) rest sha h e = ground (
  arith,
  All-at (λ d. (c == d) ≡ false) i commits rest sha h.1 e,
  index_behind-at i commits rest sha h.2 e,
)

index_behind_bounds :
    (last : String) (commits : List String) (i : ℕ)
    → index_behind last commits ≡ some i
    → i ≤ length commits
index_behind_bounds last [] i e = ground arith
index_behind_bounds last (c ∷ commits) i e =
    go (index_behind last commits) (index_behind_bounds last commits) refl
  where
    go :
        (o : Option ℕ)
        → ((j : ℕ) → index_behind last commits ≡ some j → j ≤ length commits)
        → index_behind last commits ≡ o
        → i ≤ suc (length commits)
    go none rest k = ground (arith, e, k)
    go (some j) rest k = ground (arith, e, k, rest j k)

placed_bounds :
    (o : Option ℕ) (commits : List String) (p : ReplayProgress) (hand_finished : Bool)
    (head : String)
    → ((i : ℕ) → o ≡ some i → i ≤ length commits)
    → (placed o p hand_finished head).start ≤ length commits
placed_bounds none commits p hand_finished head h = omega arith
placed_bounds (some i) commits p hand_finished head h = h i refl

place_bounds :
    (p : ReplayProgress) (last : String) (hand_finished : Bool) (head : String)
    (commits : List String)
    → (place p last hand_finished head commits).start ≤ length commits
unfolding place
place_bounds p last hand_finished head commits = elim (Bool-cases (last == "")) [
  | inl e ↦ ground (arith, e)
  | inr e ↦ ground (
    arith,
    e,
    placed_bounds (index_behind last commits) commits p hand_finished head
        (index_behind_bounds last commits),
  )
]

-- What the record says: the last commit that it counts as landed, and the place behind that.
abbrev pub IsPlaced : ReplayProgress → String → List String → Resumed → Type 0
IsPlaced p head commits at =
    (at ≡ place p p.done false head commits)
    ⊎ ((hand_finished : Bool) × (at ≡ place p p.stopped hand_finished head commits))

IsPlaced-bounds :
    (p : ReplayProgress) (head : String) (commits : List String) (at : Resumed)
    → IsPlaced p head commits at
    → at.start ≤ length commits
IsPlaced-bounds p head commits at (inl e) =
    subst (λ x. x.start ≤ length commits) (sym e) (place_bounds p p.done false head commits)
IsPlaced-bounds p head commits at (inr (b, e)) =
    subst (λ x. x.start ≤ length commits) (sym e) (place_bounds p p.stopped b head commits)

module _ {env : GitEnv} where
  resume_recorded-IsPlaced :
      (repo : String) (p : ReplayProgress) (head : String) (commits : List String)
      (w : GitWorld env) {at : Resumed} {v : GitWorld env}
      → resume_recorded repo p head commits w ≡ (ok at, v)
      → IsPlaced p head commits at
  unfolding resume_recorded pure
  resume_recorded-IsPlaced repo p head commits w e =
      elim (if-ran (not (p.stopped == "") && not (head == p.onto)) _ _ w e) [
        | inl (t, k) ↦
            let (n, u, asked, rest) = >>=-ok (count_commits repo _) _ w k in
            inr (is_one n, ground (arith, rest))
        | inr (f, k) ↦ inl (ground (arith, k))
      ]

  resume_on-IsPlaced :
      (repo : String) (p : ReplayProgress) (head : String) (commits : List String) (landed : Bool)
      (w : GitWorld env) {at : Resumed} {v : GitWorld env}
      → resume_on repo p head commits landed w ≡ (ok at, v)
      → (at ≡ from_top head) ⊎ IsPlaced p head commits at
  unfolding resume_on pure
  resume_on-IsPlaced repo p head commits true w e =
      inr (resume_recorded-IsPlaced repo p head commits w e)
  resume_on-IsPlaced repo p head commits false w e = inl (ground (arith, e))

  resume_by-IsPlaced :
      (repo ref head : String) (commits : List String) (o : Option ReplayProgress)
      (w : GitWorld env) {at : Resumed} {v : GitWorld env}
      → resume_by repo ref head commits o w ≡ (ok at, v)
      → (at ≡ from_top head)
        ⊎ ((p : ReplayProgress) × (o ≡ some p) × (p.ref ≡ ref) × IsPlaced p head commits at)
  unfolding resume_by pure
  resume_by-IsPlaced repo ref head commits none w e = inl (ground (arith, e))
  resume_by-IsPlaced repo ref head commits (some p) w {at} {v} e =
      elim (if-ran (p.ref == ref) _ _ w e) [
        | inl (t, k) ↦
            let (landed, u, asked, rest) = >>=-ok (is_ancestor repo p.onto head) _ w k in
            elim (resume_on-IsPlaced repo p head commits landed u rest) [
              | inl top ↦ inl top
              | inr at_record ↦ inr (p, refl, (eq_iff p.ref ref).0 t, at_record)
            ]
        | inr (f, k) ↦ inl (ground (arith, k))
      ]

  -- Where resumeAt answers, the start is an index of the list or its end. It answers with the top of the
  -- list, based on the head, or it read a record for this tip, and then the place is the one behind the
  -- commit that the record counts as landed last.
  pub resume_at-start :
      (repo ref head : String) (commits : List String) (w : GitWorld env) (at : Resumed)
      (v : GitWorld env)
      → resume_at repo ref head commits w ≡ (ok at, v)
      → (at.start ≤ length commits)
        × ((at ≡ from_top head)
            ⊎ ((p : ReplayProgress) × (u : GitWorld env) × (load_progress repo w ≡ (ok (some p), u))
                × (p.ref ≡ ref)
                × IsPlaced p head commits at))
  unfolding resume_at
  resume_at-start repo ref head commits w at v e =
      let (o, u, loaded, rest) = >>=-ok (load_progress repo) _ w e in
      elim (resume_by-IsPlaced repo ref head commits o u rest) [
        | inl top ↦ (subst (λ x. x.start ≤ length commits) (sym top) (omega arith), inl top)
        | inr (p, read, same, at_record) ↦ (
          IsPlaced-bounds p head commits at at_record,
          inr (p, u, loaded ∙ ap (λ x. (ok x, u)) read, same, at_record),
        )
      ]

-- A record of a replay onto `tip`, based on `base`, that stopped at the commit with the index `i`.
abbrev pub IsStopped : String → String → List String → ℕ → String → ReplayProgress → Type 0
IsStopped tip base commits i sha p =
    (p.ref ≡ tip)
    × (p.base ≡ base)
    × ((rest : List String) × (drop i commits ≡ sha ∷ rest))
    × (p.done ≡ before_start i commits)
    × (p.stopped ≡ sha)

pub before_start-at :
    (i : ℕ) (commits rest : List String) (sha : String)
    → drop i commits ≡ sha ∷ rest
    → before_start (suc i) commits ≡ sha
before_start-at i [] rest sha e = absurd (drop-nil i rest sha e)
before_start-at zero (c ∷ commits) rest sha e = ground arith
before_start-at (suc i) (c ∷ commits) rest sha e = before_start-at i commits rest sha e

pub drop-suc :
    (i : ℕ) (commits rest : List String) (sha : String)
    → drop i commits ≡ sha ∷ rest
    → drop (suc i) commits ≡ rest
drop-suc i [] rest sha e = absurd (drop-nil i rest sha e)
drop-suc zero (c ∷ commits) rest sha e = ground arith
drop-suc (suc i) (c ∷ commits) rest sha e = drop-suc i commits rest sha e

-- The commit before a commit that is listed.
listed_before :
    (i : ℕ) (commits rest : List String) (sha : String)
    → drop (suc i) commits ≡ sha ∷ rest
    → drop i commits ≡ before_start (suc i) commits ∷ sha ∷ rest
listed_before i [] rest sha e = absurd (drop-nil (suc i) rest sha e)
listed_before zero (c ∷ commits) rest sha e = ap (λ x. c ∷ x) e
listed_before (suc i) (c ∷ commits) rest sha e = listed_before i commits rest sha e

-- The place behind the commits that have landed.
pub place-done :
    (p : ReplayProgress) (head : String) (i : ℕ) (commits rest : List String) (sha : String)
    (hand_finished : Bool)
    → IsListing commits
    → drop i commits ≡ sha ∷ rest
    → place p (before_start i commits) hand_finished head commits
      ≡ record { start = i; base = p.base; hand_finished = hand_finished }
unfolding place
place-done p head zero commits rest sha hand_finished h e = refl
place-done p head (suc i) commits rest sha hand_finished h e =
    let here = listed_before i commits rest sha e in
    rw (named_at i commits (sha ∷ rest) _ h here, index_behind-at i commits (sha ∷ rest) _ h here)
      refl

pub place-stopped :
    (p : ReplayProgress) (head : String) (i : ℕ) (commits rest : List String) (sha : String)
    (hand_finished : Bool)
    → IsListing commits
    → drop i commits ≡ sha ∷ rest
    → place p sha hand_finished head commits
      ≡ record { start = suc i; base = p.base; hand_finished = hand_finished }
unfolding place
place-stopped p head i commits rest sha hand_finished h e =
    rw (named_at i commits rest sha h e, index_behind-at i commits rest sha h e) refl
