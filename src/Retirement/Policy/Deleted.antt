-- ===== src/Retirement/Policy/Deleted.antt =====
-- The check of a deletion as a whole.
use bivouac.Prelude.{
  ℕ, Bool, true, false, String, Option, none, some, List, [], ◌∷◌, ◌≡◌, refl, inl, inr, eqb, length,
  keep, All, Bool-cases, arith, ok,
}
use bivouac.State.Types.{Record, Session, Acceptance}
use bivouac.Retirement.Types.{RetirementPolicy}
use bivouac.Act.{pure, fail, ◌>>=◌, >>=-ok, if-ran, then_with}
use bivouac.Git.Lines.{non_empty_lines}
use bivouac.Git.{GitCommand, GitEnv, GitWorld, try_git, head_commit}
use bivouac.Retirement.Policy.{
  has_prefix, Instance, session_branch, delete_retirement_policy,
  require_retirement_worktrees_clean, count_unmerged, unmerged_lines, validate_acceptance,
}
use bivouac.Retirement.Policy.Merge.{
  ask, nothing_unmerged, require_merged, check_discard, check_delete, check,
}

-- git compared each of these revisions with the branch, and marked no commit as one that the branch lacks.
abbrev pub AreMerged : GitEnv → String → List String → Type 0
AreMerged env repo [] = Unit
AreMerged env repo (rev ∷ revs) =
    ((w v : GitWorld env) × (out : String) × (try_git repo (GitCommand.cherry rev) w
        ≡ (ok (some out), v))
      × All (λ line. has_prefix "+" line ≡ false) (non_empty_lines out))
    × AreMerged env repo revs

keep_none : (p : String → Bool) (l : List String) → length (keep p l) ≡ 0 → All (λ x. p x ≡ false) l
keep_none p [] h = tt
keep_none p (x ∷ l) h = elim (Bool-cases (p x)) [
  | inl t ↦ absurd (ground (arith, t, h))
  | inr f ↦ (f, keep_none p l (ground (arith, f, h)))
]

module _ {env : GitEnv} where
  count_unmerged-zero :
      (repo rev : String) (w : GitWorld env) {n : Option ℕ} {v : GitWorld env}
      → n ≡ some 0
      → count_unmerged repo rev w ≡ (ok n, v)
      → (a b : GitWorld env) × (out : String) × (try_git repo (GitCommand.cherry rev) a
          ≡ (ok (some out), b))
        × All (λ line. has_prefix "+" line ≡ false) (non_empty_lines out)
  unfolding count_unmerged pure
  count_unmerged-zero repo rev w {n} {v} zero_of e =
      let (o, u, asked, last) = >>=-ok (try_git repo (GitCommand.cherry rev)) _ w e in
      go o u asked (ground (arith, last, zero_of))
    where
      go :
          (o : Option String) (u : GitWorld env)
          → try_git repo (GitCommand.cherry rev) w ≡ (ok o, u)
          → unmerged_lines o ≡ some 0
          → (a b : GitWorld env) × (out : String) × (try_git repo (GitCommand.cherry rev) a
              ≡ (ok (some out), b))
            × All (λ line. has_prefix "+" line ≡ false) (non_empty_lines out)
      go none u asked k = absurd (ground (arith, k))
      go (some out) u asked k =
          (w, u, out, asked, keep_none (has_prefix "+") (non_empty_lines out) (ground (arith, k)))

  require_merged-None :
      (repo : String) (revs : List String) (w : GitWorld env) {u : Unit {0}} {v : GitWorld env}
      → require_merged repo revs w ≡ (ok u, v)
      → AreMerged env repo revs
  unfolding require_merged nothing_unmerged fail pure
  require_merged-None repo [] w e = tt
  require_merged-None repo (rev ∷ revs) w e =
      let (n, w1, counted, e1) = >>=-ok (count_unmerged repo rev) _ w e in
      let (u2, w2, zero_of, e2) = >>=-ok (nothing_unmerged n) _ w1 e1 in
      (
        count_unmerged-zero repo rev w (go n w1 zero_of) counted,
        require_merged-None repo revs w2 e2,
      )
    where
      go :
          (n : Option ℕ) (w1 : GitWorld env) {u2 : Unit {0}} {w2 : GitWorld env}
          → nothing_unmerged n w1 ≡ (ok u2, w2)
          → n ≡ some 0
      go none w1 k = absurd (ground (arith, k))
      go (some n) w1 k = elim (if-ran (eqb n 0) _ _ w1 k) [
        | inl (t, m) ↦ ground (arith, t)
        | inr (f, m) ↦ absurd (ground (arith, m))
      ]

  -- A deletion that is not forced is accepted only if git answered about the session's fetched reference and
  -- about its branch, and marked no commit of theirs as missing, and nothing of its issues was found missing; the acceptance is of
  -- the rescued tip, and has the same commit as base and as verified head.
  pub check_delete-AreMerged :
      (instance : Instance env) (p : RetirementPolicy) (r : Record) (s : Session) (w : GitWorld env)
      (answer : Acceptance × List String) (v : GitWorld env)
      → p.force ≡ false
      → check_delete instance p r s w ≡ (ok answer, v)
      → (rescued : String × String) × (x y : GitWorld env) × (ask (instance.rescue r s) x
          ≡ (ok rescued, y))
        × AreMerged env s.local_repo (rescued.0 ∷ session_branch s.name ∷ [])
        × ((a b : GitWorld env) × (ask (instance.landed r s) a ≡ (ok tt, b)))
        × (answer.0.source_tip ≡ rescued.1)
        × (answer.0.replay_base ≡ answer.0.verified_head)
  unfolding check_delete pure
  check_delete-AreMerged instance p r s w answer v unforced e = elim (if-ran p.force _ _ w e) [
    | inl (t, k) ↦ absurd (ground (arith, t, unforced))
    | inr (f, k) ↦
        let (u1, w1, clean, e1) = >>=-ok (require_retirement_worktrees_clean s) _ w k in
        let (rescued, w2, rescue_ran, e2) = >>=-ok (ask (instance.rescue r s)) _ w1 e1 in
        let (u3, w3, merged, e3) =
          >>=-ok (require_merged s.local_repo (rescued.0 ∷ session_branch s.name ∷ [])) _ w2 e2 in
        let (u4, w4, landed, e4) = >>=-ok (ask (instance.landed r s)) _ w3 e3 in
        let (head, w5, read, last) = >>=-ok (head_commit s.local_repo) _ w4 e4 in
        (
          rescued,
          w1,
          w2,
          rescue_ran,
          require_merged-None s.local_repo (rescued.0 ∷ session_branch s.name ∷ []) w2 merged,
          (w3, w4, landed),
          ground (arith, last),
          ground (arith, last),
        )
  ]

  -- The check of a forced deletion answers in every world with no commit listed, and what it accepted is valid
  -- in every world.
  pub check-forced :
      (instance : Instance env) (r : Record) (s : Session) (final : Bool) (w later : GitWorld env)
      → (accepted : Acceptance) × (v : GitWorld env) × (check instance
            (delete_retirement_policy true)
            r
            s
            final
            w
          ≡ (ok (accepted, []), v))
        × (validate_acceptance (delete_retirement_policy true) s accepted later ≡ (ok tt, later))
  unfolding check check_delete check_discard try_git validate_acceptance pure ◌>>=◌ then_with
  check-forced instance r s final w later = (_, _, refl, refl)
