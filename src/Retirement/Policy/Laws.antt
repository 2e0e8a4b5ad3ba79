-- ===== src/Retirement/Policy/Laws.antt =====
-- What a check that answered has established.
use bivouac.Prelude.{
  true, String, Option, List, [], ◌∷◌, ◌≡◌, ◌≢◌, refl, ap, ◌∙◌, subst, ◌⊎◌, inl, inr, ◌==◌, eq_iff,
  ne_of_eq_false, all, arith, Result, ok,
}
use bivouac.State.Types.{Session, Acceptance, IssueReceipt}
use bivouac.Act.{pure, fail, >>=-ok, if-ran}
use bivouac.Git.{
  GitCommand, GitEnv, GitWorld, WorkError, run_git, head_commit, is_ancestor, checked_lines,
  all_good, verify_signatures,
}
use bivouac.Git.Lines.{trim_line, non_empty_lines, has_suffix}
use bivouac.Replay.{replay_signed_range}
use bivouac.Retirement.Policy.{range_of}
use bivouac.Retirement.Policy.Merge.{
  verified_range, replayed, replay_or_skip, accept_replay, accept_later,
}

module _ (env : GitEnv) where
  -- git's own check of a range, asked in the one world and answered in the other, gave these lines, one at
  -- least, and calls each commit good.
  abbrev pub AreSignedAt : String → String → List String → GitWorld env → GitWorld env → Type 0
  AreSignedAt repo range lines w v =
      (out : String) × (run_git repo (GitCommand.signatures range) w ≡ (ok out, v))
      × (lines ≡ non_empty_lines out)
      × (lines ≢ [])
      × (all (has_suffix " G") lines ≡ true)

  abbrev pub AreSigned : String → String → List String → Type 0
  AreSigned repo range lines = (w v : GitWorld env) × AreSignedAt repo range lines w v

  -- At some moment git said that the head is this commit.
  abbrev pub HeadWas : String → String → Type 0
  HeadWas repo head = (w v : GitWorld env) × (head_commit repo w ≡ (ok head, v))

  -- The head that git gave after the replay, in the first world, is the base, and no commit is listed; or it is another, and
  -- git then found the commits from the base to it signed.
  abbrev pub IsVerified : String → String → List String → GitWorld env → GitWorld env → Type 0
  IsVerified repo base signed w v =
      (head : String) × (x : GitWorld env) × (head_commit repo w ≡ (ok head, x))
      × (((head ≡ base) × (signed ≡ []) × (x ≡ v))
          ⊎ ((head ≢ base) × AreSignedAt repo (range_of base head) signed x v))

  -- There was nothing to replay, or the replay of the range ran and gave the base, and what followed is verified.
  abbrev pub IsReplayed :
      String
      → String
      → String
      → String
      → String × List String
      → GitWorld env
      → GitWorld env
      → Type 0
  IsReplayed repo ref range base (replay_base, signed) w v =
      (count : String) × (u : GitWorld env) × (run_git repo (GitCommand.rev_count range) w
        ≡ (ok count, u))
      × (((trim_line count ≡ "0") × (replay_base ≡ base) × (signed ≡ []) × (u ≡ v))
          ⊎ ((x : GitWorld env) × (replay_signed_range repo ref range u ≡ (ok replay_base, x))
              × IsVerified repo replay_base signed x v))

  -- The acceptance is of this tip; what it lists is verified, one step after the other, and its verified head is
  -- the one that git gave right after that.
  abbrev pub IsAccepted :
      Session → String → String → String → String → Acceptance × List String → GitWorld env → Type 0
  IsAccepted s ref range base tip (a, signed) last =
      (a.source_tip ≡ tip)
      × (w v : GitWorld env) × IsReplayed s.local_repo ref range base (a.replay_base, signed) w v
      × (head_commit s.local_repo v ≡ (ok a.verified_head, last))

module _ {env : GitEnv} where
  checked_lines-ok :
      (lines : List String) (w : GitWorld env) {signed : List String} {v : GitWorld env}
      → checked_lines lines w ≡ (ok signed, v)
      → (signed ≡ lines) × (signed ≢ []) × (all (has_suffix " G") signed ≡ true) × (w ≡ v)
  unfolding checked_lines all_good pure fail
  checked_lines-ok [] w e = ground (arith, e)
  checked_lines-ok (line ∷ lines) w {signed} {v} e =
      elim (if-ran (all (has_suffix " G") (line ∷ lines)) _ _ w e) [
        | inl (good, k) ↦
            let same : line ∷ lines ≡ signed = ground (arith, k) in
            subst (λ x. (x ≡ line ∷ lines) × (x ≢ []) × (all (has_suffix " G") x ≡ true) × (w ≡ v))
              same (refl, (λ n. ground (arith, n)), good, ground (arith, k))
        | inr (bad, k) ↦ ground (arith, k)
      ]

  verify_signatures-AreSignedAt :
      (repo range : String) (w : GitWorld env) {signed : List String} {v : GitWorld env}
      → verify_signatures repo range w ≡ (ok signed, v)
      → AreSignedAt env repo range signed w v
  unfolding verify_signatures
  verify_signatures-AreSignedAt repo range w e =
      let (out, u, listed, rest) = >>=-ok (run_git repo (GitCommand.signatures range)) _ w e in
      let (same, some_line, good, kept) = checked_lines-ok (non_empty_lines out) u rest in
      (out, listed ∙ ap (λ x. (ok out, x)) kept, same, some_line, good)

  pub verify_signatures-AreSigned :
      (repo range : String) (w : GitWorld env) {signed : List String} {v : GitWorld env}
      → verify_signatures repo range w ≡ (ok signed, v)
      → AreSigned env repo range signed
  verify_signatures-AreSigned repo range w {signed} {v} e =
      (w, v, verify_signatures-AreSignedAt repo range w e)

  verified_range-IsVerified :
      (repo base head : String) (w x : GitWorld env) {signed : List String} {v : GitWorld env}
      → head_commit repo w ≡ (ok head, x)
      → verified_range repo base head x ≡ (ok signed, v)
      → IsVerified env repo base signed w v
  unfolding verified_range pure
  verified_range-IsVerified repo base head w x read e = (
    head,
    x,
    read,
    elim (if-ran (head == base) _ _ x e) [
      | inl (same, k) ↦ inl ((eq_iff head base).0 same, ground (arith, k), ground (arith, k))
      | inr (other, k) ↦ inr (
        ne_of_eq_false head base other,
        verify_signatures-AreSignedAt repo (range_of base head) x k,
      )
    ],
  )

  replayed-IsVerified :
      (repo ref range : String) (w : GitWorld env) {result : String × List String}
      {v : GitWorld env}
      → replayed repo ref range w ≡ (ok result, v)
      → (x : GitWorld env) × (replay_signed_range repo ref range w ≡ (ok result.0, x))
        × IsVerified env repo result.0 result.1 x v
  unfolding replayed pure
  replayed-IsVerified repo ref range w {result} {v} k =
      let (b, u, replay_ran, rest) = >>=-ok (replay_signed_range repo ref range) _ w k in
      let (head, x, read, more) = >>=-ok (head_commit repo) _ u rest in
      let (signed, y, checked, last) = >>=-ok (verified_range repo b head) _ x more in
      let same : (b, signed) ≡ result = ground (arith, last) in
      let there : y ≡ v = ground (arith, last) in
      subst
        (λ z.
          (x : GitWorld env) × (replay_signed_range repo ref range w ≡ (ok z.0, x))
          × IsVerified env repo z.0 z.1 x v)
        same
        (
          u,
          replay_ran,
          subst (IsVerified env repo b signed u) there
              (verified_range-IsVerified repo b head u x read checked),
        )

  replay_or_skip-IsReplayed :
      (repo ref range base count : String) (w u : GitWorld env) {result : String × List String}
      {v : GitWorld env}
      → run_git repo (GitCommand.rev_count range) w ≡ (ok count, u)
      → replay_or_skip repo ref range base count u ≡ (ok result, v)
      → IsReplayed env repo ref range base result w v
  unfolding replay_or_skip pure
  replay_or_skip-IsReplayed repo ref range base count w u {result} {v} counted e = (
    count,
    u,
    counted,
    elim (if-ran (trim_line count == "0") _ _ u e) [
      | inl (nothing, k) ↦ inl (
        (eq_iff (trim_line count) "0").0 nothing,
        ground (arith, k),
        ground (arith, k),
        ground (arith, k),
      )
      | inr (some_commit, k) ↦ inr (replayed-IsVerified repo ref range u k)
    ],
  )

  pub accept_replay-IsAccepted :
      (s : Session) (ref tip : String) (issues : String × Option IssueReceipt) (base range : String)
      (w : GitWorld env) {answer : Acceptance × List String} {v : GitWorld env}
      → accept_replay s ref tip issues base range w ≡ (ok answer, v)
      → IsAccepted env s ref range base tip answer v
  unfolding accept_replay pure
  accept_replay-IsAccepted s ref tip issues base range w {answer} {v} e =
      let (count, u, counted, rest) =
        >>=-ok (run_git s.local_repo (GitCommand.rev_count range)) _ w e in
      let (result, x, done, more) =
        >>=-ok (replay_or_skip s.local_repo ref range base count) _ u rest in
      let (head, y, read, last) = >>=-ok (head_commit s.local_repo) _ x more in
      let accepted : Acceptance × List String = (
        record {
          source_tip = tip;
          replay_base = result.0;
          verified_head = head;
          issue_evidence = issues.0;
          issues = issues.1;
        },
        result.1,
      ) in
      let same : accepted ≡ answer = ap-answer accepted answer y v last in
      let there : y ≡ v = ap (λ z. z.1) last in
      subst (λ z. IsAccepted env s ref range base tip z v) same
        (
          refl,
          w,
          x,
          replay_or_skip-IsReplayed s.local_repo ref range base count w u counted done,
          read ∙ ap (λ z. (ok head, z)) there,
        )
    where
      ap-answer :
          (a b : Acceptance × List String) (y z : GitWorld env)
          → ◌≡◌ {A = Result WorkError (Acceptance × List String) × GitWorld env} (ok a, y) (ok b, z)
          → a ≡ b
      ap-answer a b y z k = ground (arith, k)

  -- The last acceptance again, with new issues, or a new one.
  pub accept_later-IsAccepted :
      (s : Session) (ref tip : String) (issues : String × Option IssueReceipt) (base : String)
      (prior : Acceptance) (w : GitWorld env) {answer : Acceptance × List String} {v : GitWorld env}
      → accept_later s ref tip issues base prior w ≡ (ok answer, v)
      → ((prior.source_tip ≡ tip)
          × (answer ≡ (record prior { issue_evidence = issues.0; issues = issues.1 }, [])))
        ⊎ IsAccepted env s ref (range_of prior.source_tip ref) base tip answer v
  unfolding accept_later pure fail
  accept_later-IsAccepted s ref tip issues base prior w {answer} {v} e =
      elim (if-ran (prior.source_tip == tip) _ _ w e) [
        | inl (same, k) ↦ inl ((eq_iff prior.source_tip tip).0 same, ground (arith, k))
        | inr (other, k) ↦
            let (forward, u, asked, rest) =
              >>=-ok (is_ancestor s.local_repo prior.source_tip tip) _ w k in
            elim (if-ran forward _ _ u rest) [
              | inl (t, more) ↦ inr (
                  accept_replay-IsAccepted s ref tip issues base (range_of prior.source_tip ref) u
                    more)
              | inr (f, more) ↦ ground (arith, more)
            ]
      ]
