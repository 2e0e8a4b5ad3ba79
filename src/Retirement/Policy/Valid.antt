-- ===== src/Retirement/Policy/Valid.antt =====
-- When an acceptance is valid.
use bivouac.Prelude.{
  true, false, not, ◌&&◌, ◌≡◌, subst, ◌⊎◌, inl, inr, String, List, ◌==◌, eq_iff, arith, ok,
}
use bivouac.State.Types.{Session, Acceptance}
use bivouac.Retirement.Types.{RetirementPolicy}
use bivouac.Act.{fail, >>=-ok, if-ran}
use bivouac.Git.{GitCommand, GitEnv, GitWorld, run_git, head_commit, verify_signatures}
use bivouac.Git.Lines.{trim_line}
use bivouac.Retirement.Policy.{
  is_merge, is_delete, discard_authorised, left_branch, range_of, signed_again, validate_head,
  validate_acceptance,
}
use bivouac.Retirement.Policy.Laws.{AreSigned, HeadWas, verify_signatures-AreSigned}

-- What makes an acceptance valid: it is of a forced deletion, or git gave its head, and for a merge called the
-- commits from its base to its head good.
abbrev pub IsValidated : GitEnv → RetirementPolicy → Session → Acceptance → Type 0
IsValidated env p s a =
    ((is_delete p.operation && p.force && a.source_tip == discard_authorised) ≡ true)
    ⊎ (HeadWas env s.local_repo a.verified_head
        × (((is_merge p.operation && not (a.replay_base == a.verified_head)) ≡ false)
            ⊎ ((lines : List String) × AreSigned env s.local_repo
                  (range_of a.replay_base a.verified_head) lines)))

module _ {env : GitEnv} where
  signed_again-AreSigned :
      (p : RetirementPolicy) (repo : String) (a : Acceptance) (w : GitWorld env) {u : Unit {0}}
      {v : GitWorld env}
      → signed_again p repo a w ≡ (ok u, v)
      → ((is_merge p.operation && not (a.replay_base == a.verified_head)) ≡ false)
        ⊎ ((lines : List String) × AreSigned env repo
              (range_of a.replay_base a.verified_head)
              lines)
  unfolding signed_again
  signed_again-AreSigned p repo a w e =
      elim (if-ran (is_merge p.operation && not (a.replay_base == a.verified_head)) _ _ w e) [
        | inr (f, k) ↦ inl f
        | inl (t, k) ↦
            let (lines, v, verified, rest) =
              >>=-ok (verify_signatures repo (range_of a.replay_base a.verified_head)) _ w k in
            inr (
              lines,
              verify_signatures-AreSigned repo (range_of a.replay_base a.verified_head) w verified,
            )
      ]

  pub validate_acceptance-IsValidated :
      (p : RetirementPolicy) (s : Session) (a : Acceptance) (w : GitWorld env) {u : Unit {0}}
      {v : GitWorld env}
      → validate_acceptance p s a w ≡ (ok u, v)
      → IsValidated env p s a
  unfolding validate_acceptance validate_head fail
  validate_acceptance-IsValidated p s a w e =
      elim (if-ran (is_delete p.operation && p.force && a.source_tip == discard_authorised) _ _ w
        e) [
          | inl (discard, k) ↦ inl discard
          | inr (other, k) ↦
              let (out, x, branch_read, rest) =
                >>=-ok (run_git s.local_repo GitCommand.current_branch) _ w k in
              elim (if-ran (left_branch s.retirement (trim_line out)) _ _ x rest) [
                | inl (left, more) ↦ absurd (ground (arith, more))
                | inr (same, more) ↦
                    let (head, y, head_read, last) = >>=-ok (head_commit s.local_repo) _ x more in
                    elim (if-ran (head == a.verified_head) _ _ y last) [
                      | inl (t, k2) ↦ inr (
                        subst (HeadWas env s.local_repo) ((eq_iff head a.verified_head).0 t)
                            (x, y, head_read),
                        signed_again-AreSigned p s.local_repo a y k2,
                      )
                      | inr (f, k2) ↦ absurd (ground (arith, k2))
                    ]
              ]
        ]
