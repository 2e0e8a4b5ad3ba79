-- ===== src/Beads/Evidence.antt =====
-- What the evidence of a verification of issues says of their changes.
use bivouac.Prelude.{
  none, some, subst, Bool, true, false, not, ◌≡◌, ◌≢◌, refl, ap, ◌∙◌, ◌⊎◌, inl, inr, Bool-cases,
  String, str_append, Option, some, List, [], ◌∷◌, map, All, if◌then◌else◌, arith, Result, ok, err,
}
use bivouac.State.Types.{IssueReceipt, UnsyncedIssue, SessionBeads}
use bivouac.Act.{lift, >>=-cases, pure, >>=-ok}
use bivouac.Beads.{BdCommand, bd_args, decode_json, Issue, Change, BeadsError, BeadsEnv}
use bivouac.Beads.Sync.{local_issues, local_bd, check_one, check_synced, session_changes}
use bivouac.Beads.Issues.{
  readable, is_synced, empty_receipt, issue_receipt, Evidence, accepted_unsynced, is_rewritten,
  gate_issues, local_answer, verify_issues,
}
use bivouac.Beads.Gate.{open_changes, HasLanded, check_one-HasLanded}

-- The answer for this receipt: verified without the flag's help, or let through by the flag.
abbrev pub IsPassed : IssueReceipt → String → Bool → Evidence → Type 0
IsPassed r pinned accept answer =
    ((r.unsynced ≡ []) × (answer ≡ (str_append "verified:" pinned, some r)))
    ⊎ ((accept ≡ true) × (answer ≡ accepted_unsynced pinned r))

is_rewritten-eq : (e : BeadsError) → is_rewritten e ≡ true → e ≡ BeadsError.history_rewritten
is_rewritten-eq e t = ground (arith, t)

pub gate_issues-ok :
    (session : String) (r : Result BeadsError IssueReceipt) (pinned : String) (accept final : Bool)
    {answer : Evidence}
    → gate_issues session r pinned accept final ≡ ok answer
    → ((receipt : IssueReceipt) × (r ≡ ok receipt) × IsPassed receipt pinned accept answer)
      ⊎ ((r ≡ err BeadsError.history_rewritten)
          × (accept ≡ true)
          × (answer ≡ accepted_unsynced pinned empty_receipt))
unfolding gate_issues
gate_issues-ok session (err e) pinned true final h = elim (Bool-cases (is_rewritten e)) [
  | inl t ↦ inr (ap err (is_rewritten-eq e t), refl, ground (arith, t, h))
  | inr f ↦ absurd (ground (arith, f, h))
]
gate_issues-ok session (err e) pinned false final h = elim (Bool-cases (is_rewritten e)) [
  | inl t ↦ absurd (ground (arith, t, h))
  | inr f ↦ absurd (ground (arith, f, h))
]
gate_issues-ok session (ok r) pinned accept final {answer} h =
    inl (r, refl, go r.unsynced refl accept refl h)
  where
    go :
        (us : List UnsyncedIssue)
        → r.unsynced ≡ us
        → (a : Bool) → accept ≡ a
        → gate_issues session (ok r) pinned a final ≡ ok answer
        → IsPassed r pinned accept answer
    go [] e a k x = inl (e, ground (arith, e, x))
    go (u ∷ us) e true k x = inr (k, ground (arith, e, x))
    go (u ∷ us) e false k x = absurd (ground (arith, e, x))

pub changes_landed :
    (issues : Option (List Issue)) (changes : List Change)
    → open_changes (check_synced issues changes) ≡ []
    → All (HasLanded issues) changes
unfolding check_synced
changes_landed issues [] e = tt
changes_landed issues (c ∷ changes) e =
    go (changes_landed issues changes) (is_synced (check_one issues c).sync) refl e
  where
    go :
        (open_changes (check_synced issues changes) ≡ [] → All (HasLanded issues) changes)
        → (b : Bool) → is_synced (check_one issues c).sync ≡ b
        → (if not b
            then check_one issues c ∷ open_changes (check_synced issues changes)
            else open_changes (check_synced issues changes))
          ≡ []
        → HasLanded issues c × All (HasLanded issues) changes
    go rest true k x = (check_one-HasLanded issues c k, rest x)
    go rest false k x = absurd (ground (arith, x))

pub map-nil : {A B : Type 0} (f : A → B) (l : List A) → map f l ≡ [] → l ≡ []
map-nil f [] e = refl
map-nil f (x ∷ l) e = ground (arith, e)

-- The issues of the local database, as bd here listed them, or none, where it was not asked or did not answer.
abbrev pub AreLocal : BeadsEnv → Option (List Issue) → Type 0
AreLocal env none = Unit
AreLocal env (some issues) =
    (o o' : env.Outside) × (out : String) × (env.locally (bd_args BdCommand.list_all) o
      ≡ (ok out, o'))
    × (decode_json env.read_issues out ≡ ok issues)

module _ (env : BeadsEnv) where
  local_issues-AreLocal :
      (o : env.Outside) (r : Result BeadsError (List Issue)) {o' : env.Outside}
      → local_issues env o ≡ (r, o')
      → AreLocal env (readable r)
  unfolding local_issues local_bd lift
  local_issues-AreLocal o (err e) h = tt
  local_issues-AreLocal o (ok issues) h =
      let (out, u, listed, read) = >>=-ok (local_bd env BdCommand.list_all) _ o h in
      go (env.locally (bd_args BdCommand.list_all) o) refl listed (ground (arith, read))
    where
      go :
          (x : Result String String × env.Outside) {out : String} {u : env.Outside}
          → env.locally (bd_args BdCommand.list_all) o ≡ x
          → ◌≡◌ {A = Result BeadsError String × env.Outside}
              (
                elim x.0 as (λ y. Result BeadsError String) [
                  | err e ↦ err BeadsError.bd_failed
                  | ok text ↦ ok text
                ],
                x.1,
              )
              (ok out, u)
          → decode_json env.read_issues out ≡ ok issues
          → AreLocal env (some issues)
      go (err e, v) asked k read = absurd (ground (arith, k))
      go (ok text, v) {out} asked k read =
          let same : text ≡ out = ground (arith, k) in
          (o, v, text, asked, ap (decode_json env.read_issues) same ∙ read)

  local_answer-AreLocal :
      (available : Bool) (o : env.Outside) {issues : Option (List Issue)} {o' : env.Outside}
      → local_answer env available o ≡ (ok issues, o')
      → AreLocal env issues
  unfolding local_answer
  local_answer-AreLocal true o {issues} h =
      let same : readable (local_issues env o).0 ≡ issues = ground (arith, h) in
      subst (AreLocal env) same (local_issues-AreLocal o (local_issues env o).0 refl)
  local_answer-AreLocal false o {issues} h =
      let same : none ≡ issues = ground (arith, h) in subst (AreLocal env) same tt

  -- The receipt of a verification that returned is that of the changes up to the pin, against one local answer.
  pub verify_issues-ok :
      (start : SessionBeads) (pinned : String) (available : Bool) (o : env.Outside)
      {receipt : IssueReceipt} {o' : env.Outside}
      → verify_issues env start pinned available o ≡ (ok receipt, o')
      → (changes : List Change) × (issues : Option (List Issue)) × (u : env.Outside) × AreLocal env
          issues
        × (session_changes env start.start_commit pinned o ≡ (ok changes, u))
        × (receipt ≡ issue_receipt env.format_time (check_synced issues changes))
  unfolding verify_issues pure
  verify_issues-ok start pinned available o {receipt} {o'} e =
      let (changes, u, listed, e1) = >>=-ok (session_changes env start.start_commit pinned) _ o e in
      let (issues, v, answered, last) = >>=-ok (local_answer env available) _ u e1 in
      (changes, issues, u, local_answer-AreLocal available u answered, listed, ground (arith, last))

  local_answer-answers :
      (available : Bool) (o : env.Outside) {e : BeadsError} {o' : env.Outside}
      → local_answer env available o ≢ (err e, o')
  unfolding local_answer
  local_answer-answers true o h = ground (arith, h)
  local_answer-answers false o h = ground (arith, h)

  -- A verification fails only where the changes could not be listed.
  pub verify_issues-err :
      (start : SessionBeads) (pinned : String) (available : Bool) (o : env.Outside) {e : BeadsError}
      {o' : env.Outside}
      → verify_issues env start pinned available o ≡ (err e, o')
      → session_changes env start.start_commit pinned o ≡ (err e, o')
  unfolding verify_issues pure
  verify_issues-err start pinned available o {e} {o'} h =
      elim (>>=-cases (session_changes env start.start_commit pinned) _ o h) [
        | inl (x, failed, same) ↦
            let back : x ≡ e = ground (arith, same) in failed ∙ ap (λ y. (err y, o')) back
        | inr (changes, u, listed, rest) ↦ elim (>>=-cases (local_answer env available) _ u rest) [
          | inl (x, failed, same) ↦ absurd (local_answer-answers available u failed)
          | inr (issues, v, answered, last) ↦ absurd (ground (arith, last))
        ]
      ]
