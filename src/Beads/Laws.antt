-- ===== src/Beads/Laws.antt =====
-- What lets a merge pass the gate of its session's issues.
use bivouac.Prelude.{
  Bool, true, false, ◌≡◌, sym, ap, ◌∙◌, subst, ◌⊎◌, inl, inr, String, str_append, Option, none,
  some, List, All, if◌then◌else◌, arith, Result, ok, err,
}
use bivouac.State.Types.{IssueReceipt, SessionBeads, Session}
use bivouac.Act.{pure, fail, lift, ◌>>=◌, >>=-ok}
use bivouac.Beads.{Issue, Change, BeadsError, BeadsEnv}
use bivouac.Beads.Sync.{check_synced, session_changes}
use bivouac.Beads.Issues.{
  empty_receipt, issue_receipt, Evidence, accepted_unsynced, gate_issues, says, attempt,
  verify_issues, pause, pin_commit, verified_or_pause, pull_recorded, pull_connected, has_record,
  pull_beads_required, unsynced_issue,
}
use bivouac.Beads.Gate.{issue_receipt-HasCounts, HasLanded}
use bivouac.Beads.Evidence.{
  AreLocal, gate_issues-ok, changes_landed, map-nil, verify_issues-ok, verify_issues-err,
}

-- What passed the gate: the changes of the session up to the pin have all landed, or the flag let it through.
abbrev pub IsGated : BeadsEnv → SessionBeads → Bool → Evidence → Type 0
IsGated env start accept answer =
    (pinned : String) × (((changes : List Change) × (issues : Option (List Issue)) × (u
          v : env.Outside)
        × AreLocal env issues
        × (session_changes env start.start_commit pinned u ≡ (ok changes, v))
        × (((answer ≡ (
          str_append "verified:" pinned,
          some (issue_receipt env.format_time (check_synced issues changes)),
        ))
              × All (HasLanded issues) changes)
            ⊎ ((accept ≡ true)
                × (answer
                    ≡ accepted_unsynced pinned
                        (issue_receipt env.format_time (check_synced issues changes))))))
      ⊎ (((u v : env.Outside) × (session_changes env start.start_commit pinned u
              ≡ (err BeadsError.history_rewritten, v)))
          × (accept ≡ true)
          × (answer ≡ accepted_unsynced pinned empty_receipt)))

module _ (env : BeadsEnv) where
  verified-IsGated :
      (session : String) (start : SessionBeads) (available accept final : Bool) (pinned : String)
      (o : env.Outside) (r : Result BeadsError IssueReceipt) (u : env.Outside) {answer : Evidence}
      → verify_issues env start pinned available o ≡ (r, u)
      → gate_issues session r pinned accept final ≡ ok answer
      → IsGated env start accept answer
  verified-IsGated session start available accept final pinned o r u {answer} ran passed = (
    pinned,
    elim (gate_issues-ok session r pinned accept final passed) [
      | inr (rewritten, allowed, same) ↦ inr (
        (o, u, verify_issues-err env start pinned available o (ran ∙ ap (λ x. (x, u)) rewritten)),
        allowed,
        same,
      )
      | inl (receipt, returned, by_receipt) ↦
          let (changes, issues, v, local, listed, made) =
            verify_issues-ok env start pinned available o (ran ∙ ap (λ x. (x, u)) returned) in
          inl (
            changes,
            issues,
            o,
            v,
            local,
            listed,
            elim by_receipt [
              | inl (nothing, same) ↦ inl (
                same ∙ ap (λ x. (str_append "verified:" pinned, some x)) made,
                changes_landed issues changes (
                    map-nil (unsynced_issue env.format_time) _ (
                      sym (issue_receipt-HasCounts env.format_time (check_synced issues changes)).1
                      ∙ ap (λ x. x.unsynced) (sym made)
                      ∙ nothing)),
              )
              | inr (allowed, same) ↦ inr (allowed, same ∙ ap (accepted_unsynced pinned) made)
            ],
          )
    ],
  )

  verified_or_pause-IsGated :
      (session : String) (start : SessionBeads) (available accept final : Bool)
      (r : Result BeadsError String) (o : env.Outside) {answer : Evidence} {o' : env.Outside}
      → verified_or_pause env session start available accept final r o ≡ (ok answer, o')
      → IsGated env start accept answer
  unfolding verified_or_pause pause fail attempt lift
  verified_or_pause-IsGated session start available accept final (err e) o h =
      absurd (ground (arith, h))
  verified_or_pause-IsGated session start available accept final (ok pinned) o {answer} {o'} h =
      let (r, u, ran, last) =
        >>=-ok (attempt env (verify_issues env start pinned available)) _ o h in
      verified-IsGated session start available accept final pinned o r u (ground (arith, ran))
        (ground (arith, last))

  -- Where a session has a start record, its issues let a merge pass only if every change up to the pin has
  -- landed in the local database, which bd listed here, or if the flag --accept-unsynced was given; the
  -- evidence says which, and has the receipt of those changes, but an empty one if the history was rewritten.
  pub pull_beads_required-IsGated :
      (s : Session) (start : SessionBeads) (accept final : Bool) (o : env.Outside)
      (answer : Evidence) (o' : env.Outside)
      → s.beads ≡ some start
      → pull_beads_required env s accept final o ≡ (ok answer, o')
      → IsGated env start accept answer
  unfolding pull_beads_required pull_connected pull_recorded pause fail
  pull_beads_required-IsGated s start accept final o answer o' recorded h = go s.beads recorded h
    where
      connected_to :
          (b : Bool) (u : env.Outside)
          → (if b
                then pull_recorded env s.name accept final (some start)
                else pause env s.name BeadsError.not_connected final)
              u
            ≡ (ok answer, o')
          → IsGated env start accept answer
      connected_to false u e = absurd (ground (arith, e))
      connected_to true u e =
          let (available, v, asked, e1) = >>=-ok (says env env.available) _ u e in
          let (pinned, w, pulled, e2) =
            >>=-ok (attempt env (pin_commit env s.name available)) _ v e1 in
          verified_or_pause-IsGated s.name start available accept final pinned w e2

      go :
          (b : Option SessionBeads)
          → b ≡ some start
          → (if has_record b
                then (says env env.connect >>= λ c.
                    if c
                    then pull_recorded env s.name accept final b
                    else pause env s.name BeadsError.not_connected final)
                else (says env env.wired >>= λ w.
                    if w
                    then (says env env.connect >>= λ c.
                        if c
                        then pull_recorded env s.name accept final b
                        else pause env s.name BeadsError.not_connected final)
                    else pure ("pulled", none)))
              o
            ≡ (ok answer, o')
          → IsGated env start accept answer
      go none k e = absurd (ground (arith, k))
      go (some b) k e =
          let same : b ≡ start = ground (arith, k) in
          let (c, u, asked, e1) = >>=-ok (says env env.connect) _ o e in
          connected_to c u (
            subst
              (λ x.
                (if c
                    then pull_recorded env s.name accept final (some x)
                    else pause env s.name BeadsError.not_connected final)
                  u
                ≡ (ok answer, o'))
              same e1)
