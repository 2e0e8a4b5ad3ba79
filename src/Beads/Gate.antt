-- ===== src/Beads/Gate.antt =====
-- What a receipt counts, and when a change counts as landed.
use mathlib.Core.List.{append_assoc, append-nil}
use bivouac.Prelude.{
  ℕ, ◌+◌, ◌≤◌, Bool, true, false, not, ◌≡◌, ◌≢◌, refl, sym, ap, ◌∙◌, String, Option, none, some,
  List, [], ◌∷◌, ◌++◌, map, keep, length, if◌then◌else◌, arith,
}
use bivouac.State.Types.{IssueReceipt, UnsyncedIssue}
use bivouac.Beads.{Issue, ChangeKind, Change, by_id}
use bivouac.Beads.Sync.{IssueSync, both_dated, sync_of, check_one}
use bivouac.Beads.Issues.{
  is_synced, unsynced_issue, count_kind, empty_receipt, count_changes, issue_receipt,
}

-- How many of the changes are of a kind.
abbrev pub is_kind : ChangeKind → ChangeKind → Bool
is_kind ChangeKind.created ChangeKind.created = true
is_kind ChangeKind.closed ChangeKind.closed = true
is_kind ChangeKind.updated ChangeKind.updated = true
is_kind ChangeKind.removed ChangeKind.removed = true
is_kind _ _ = false

abbrev pub of_kind : ChangeKind → List IssueSync → ℕ
of_kind kind changes = length (keep (λ c. is_kind kind c.change.kind) changes)

-- A receipt has these counts more than another.
abbrev pub HasCounts : List IssueSync → IssueReceipt → IssueReceipt → Type 0
HasCounts changes r q =
    (q.created ≡ r.created + of_kind ChangeKind.created changes)
    × (q.closed ≡ r.closed + of_kind ChangeKind.closed changes)
    × (q.updated ≡ r.updated + of_kind ChangeKind.updated changes)
    × (q.removed ≡ r.removed + of_kind ChangeKind.removed changes)

count_kind-HasCounts :
    (c : IssueSync) (changes : List IssueSync) (r q : IssueReceipt)
    → HasCounts changes (count_kind c.change.kind r) q
    → HasCounts (c ∷ changes) r q
count_kind-HasCounts c changes r q h = go c.change.kind h
  where
    go :
        (kind : ChangeKind)
        → HasCounts changes (count_kind kind r) q
        → HasCounts (record c { change = record c.change { kind = kind } } ∷ changes) r q
    go ChangeKind.created (a, b, d, e) = (omega (arith, a), b, d, e)
    go ChangeKind.closed (a, b, d, e) = (a, omega (arith, b), d, e)
    go ChangeKind.updated (a, b, d, e) = (a, b, omega (arith, d), e)
    go ChangeKind.removed (a, b, d, e) = (a, b, d, omega (arith, e))

count_kind-unsynced :
    (kind : ChangeKind) (r : IssueReceipt) → (count_kind kind r).unsynced ≡ r.unsynced
count_kind-unsynced ChangeKind.created r = refl
count_kind-unsynced ChangeKind.closed r = refl
count_kind-unsynced ChangeKind.updated r = refl
count_kind-unsynced ChangeKind.removed r = refl

-- The changes that are not known to have landed.
abbrev pub open_changes : List IssueSync → List IssueSync
open_changes changes = keep (λ c. not (is_synced c.sync)) changes

module _ (format_time : ℕ → String) where
  abbrev listed : List IssueSync → List UnsyncedIssue
  listed changes = map (unsynced_issue format_time) (open_changes changes)

  -- The counts of a receipt after more changes.
  abbrev IsCounted : List IssueSync → IssueReceipt → Type 0
  IsCounted changes r =
      HasCounts changes r (count_changes format_time r changes)
      × ((count_changes format_time r changes).unsynced ≡ r.unsynced ++ listed changes)

  count_step :
      (c : IssueSync) (changes : List IssueSync) (r : IssueReceipt)
      → ((q : IssueReceipt) → IsCounted changes q)
      → IsCounted (c ∷ changes) r
  unfolding count_changes
  count_step c changes r rest = go (is_synced c.sync)
    where
      counted : IssueReceipt
      counted = count_kind c.change.kind r

      with_open : IssueReceipt
      with_open = record counted {
        unsynced = counted.unsynced ++ unsynced_issue format_time c ∷ [];
      }

      go :
          (b : Bool)
          → HasCounts
              (c ∷ changes)
              r
              (count_changes format_time (if b then counted else with_open) changes)
            × ((count_changes format_time (if b then counted else with_open) changes).unsynced
                ≡ r.unsynced
                  ++ map
                      (unsynced_issue format_time)
                      (if not b then c ∷ open_changes changes else open_changes changes))
      go true =
          let (sum, list) = rest counted in
          (
            count_kind-HasCounts c changes r (count_changes format_time counted changes) sum,
            list ∙ ap (λ l. l ++ listed changes) (count_kind-unsynced c.change.kind r),
          )
      go false =
          let (sum, list) = rest with_open in
          (
            count_kind-HasCounts c changes r (count_changes format_time with_open changes) sum,
            list
                ∙ ap (λ l. (l ++ unsynced_issue format_time c ∷ []) ++ listed changes)
                    (count_kind-unsynced c.change.kind r)
                ∙ append_assoc r.unsynced (unsynced_issue format_time c ∷ []) (listed changes),
          )

  count_changes_lem :
      (changes : List IssueSync) (r : IssueReceipt)
      → HasCounts changes r (count_changes format_time r changes)
        × ((count_changes format_time r changes).unsynced ≡ r.unsynced ++ listed changes)
  unfolding count_changes
  count_changes_lem [] r =
      ((omega arith, omega arith, omega arith, omega arith), sym (append-nil r.unsynced))
  count_changes_lem (c ∷ changes) r = count_step c changes r (count_changes_lem changes)

  -- A receipt counts for each of the four kinds the changes of it, and lists exactly the ones that are not known to have
  -- landed, in their order.
  pub issue_receipt-HasCounts :
      (changes : List IssueSync)
      → HasCounts changes empty_receipt (issue_receipt format_time changes)
        × ((issue_receipt format_time changes).unsynced
            ≡ map (unsynced_issue format_time) (open_changes changes))
  unfolding issue_receipt
  issue_receipt-HasCounts changes = count_changes_lem changes empty_receipt

-- The local database was read and has the change: a removed issue is not in it, and any other is in it
-- with a time that is not before the change's, where both have one.
abbrev pub HasLanded : Option (List Issue) → Change → Type 0
HasLanded none c = ⊥
HasLanded (some issues) c = elim c.kind as (λ k. Type 0) [
  | ChangeKind.removed ↦ by_id c.issue.id issues ≡ none
  | _ ↦
      (l : Issue) × (by_id c.issue.id issues ≡ some l)
      × (c.issue.updated_at ≢ 0)
      × (l.updated_at ≢ 0)
      × (c.issue.updated_at ≤ l.updated_at)
]

both_dated-synced :
    (issue l : Issue)
    → is_synced (both_dated issue l) ≡ true
    → (issue.updated_at ≢ 0) × (l.updated_at ≢ 0) × (issue.updated_at ≤ l.updated_at)
both_dated-synced issue l e = ground (arith, e)

-- A change that CheckSynced calls synced has landed.
pub check_one-HasLanded :
    (issues : Option (List Issue)) (c : Change)
    → is_synced (check_one issues c).sync ≡ true
    → HasLanded issues c
check_one-HasLanded none c e = ground (arith, e)
check_one-HasLanded (some issues) c e = go c.kind (by_id c.issue.id issues) refl e
  where
    found :
        (l : Issue)
        → by_id c.issue.id issues ≡ some l
        → is_synced (both_dated c.issue l) ≡ true
        → (x : Issue) × (by_id c.issue.id issues ≡ some x)
          × (c.issue.updated_at ≢ 0)
          × (x.updated_at ≢ 0)
          × (c.issue.updated_at ≤ x.updated_at)
    found l k t = let (a, b, d) = both_dated-synced c.issue l t in (l, k, a, b, d)

    go :
        (kind : ChangeKind) (o : Option Issue)
        → by_id c.issue.id issues ≡ o
        → is_synced (sync_of kind c.issue o) ≡ true
        → HasLanded (some issues) (record c { kind = kind })
    go ChangeKind.removed none k t = k
    go ChangeKind.removed (some l) k t = absurd (ground (arith, t))
    go ChangeKind.created none k t = absurd (ground (arith, t))
    go ChangeKind.created (some l) k t = found l k t
    go ChangeKind.closed none k t = absurd (ground (arith, t))
    go ChangeKind.closed (some l) k t = found l k t
    go ChangeKind.updated none k t = absurd (ground (arith, t))
    go ChangeKind.updated (some l) k t = found l k t
