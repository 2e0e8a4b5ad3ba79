-- ===== src/Tests/Boards.antt =====
-- A small issue board, and the laws of the issues applied to it.
use bivouac.Prelude.{
  ℕ, Bool, true, false, String, none, some, List, [], ◌∷◌, map, ◌≡◌, ◌≤◌, ◌⊎◌, refl, ap, subst,
  ◌==◌, if◌then◌else◌, arith, Result, ok, err,
}
use bivouac.State.Types.{Session, SessionBeads, IssueReceipt}
use bivouac.Act.{◌>>=◌, then_with, pure, fail, lift}
use bivouac.Beads.{Issue, ChangeKind, BeadsError, BeadsEnv, decode_json, classify_diff, all_dated}
use bivouac.Beads.Sync.{
  SyncState, IssueSync, check_synced, instance_bd, local_bd, instance_commit, diff_output,
  with_times, changes_in, session_changes, local_issues, pull_issues,
}
use bivouac.Beads.Tree.{children_of, descendants}
use bivouac.Beads.TreeLaws.{IsTree, IsWhole, weight_of, descendants-ends}
use bivouac.Beads.Issues.{
  count_changes, issue_receipt, gate_issues, Evidence, IssuePause, unsynced_issue, empty_receipt,
  says, attempt, local_answer, verify_issues, pause, pin_commit, verified_or_pause, pull_recorded,
  pull_connected, pull_beads_required,
}
use bivouac.Beads.Gate.{HasCounts, open_changes, issue_receipt-HasCounts}
use bivouac.Beads.Laws.{IsGated, pull_beads_required-IsGated}
use bivouac.Tests.Machine.{working}

abbrev filed : Issue
filed = record { id = "i1"; title = "a bug"; status = "open"; updated_at = 5 }

abbrev answer_of : List String → String
answer_of [] = ""
answer_of (command ∷ rest) =
    if command == "vc"
    then "{commit"
    else if command == "diff"
    then "[diff"
    else if command == "children"
    then "[none"
    else "[all"

abbrev pub board : BeadsEnv
board = record {
  Outside = Bool;
  on_instance = λ list o. (ok (answer_of list), o);
  locally = λ list o. (ok (answer_of list), o);
  connect = λ o. (true, o);
  wired = λ o. (true, o);
  available = λ o. (true, o);
  read_commit = λ text. some "c2";
  read_issues = λ text. if text == "[all" then some (filed ∷ []) else some [];
  read_entries =
      λ text. some (record { diff_type = "added"; old_value = none; new_value = some filed } ∷ []);
  trim_space = λ s. s;
  format_time = λ t. "now";
}

-- An issue with one child.
abbrev child : Issue
child = record { id = "i1.1"; title = "a part"; status = "open"; updated_at = 5 }

abbrev family_answer : List String → String
family_answer (command ∷ id ∷ more) =
    if command == "children" then (if id == "i1" then "[child" else "[none") else "[all"
family_answer _ = ""

abbrev family : BeadsEnv
family = record board {
  on_instance = λ list o. (ok (family_answer list), o);
  read_issues = λ text.
      if text == "[all"
      then some (filed ∷ [])
      else if text == "[child"
      then some (child ∷ [])
      else some [];
}

abbrev below : String → ℕ
below id = if id == "i1" then 1 else 0

family-IsTree : IsTree family below
unfolding children_of instance_bd ◌>>=◌ then_with lift
family-IsTree issue kids o o' e = go (issue.id == "i1") refl (ap (λ x. x.0) e)
  where
    go :
        (b : Bool)
        → (issue.id == "i1") ≡ b
        → decode_json family.read_issues (if b then "[child" else "[none") ≡ ok kids
        → weight_of below kids ≤ (if b then 1 else 0)
    go true k same =
        let this : child ∷ [] ≡ kids = ground (arith, same) in
        subst (λ l. weight_of below l ≤ 1) this (omega arith)
    go false k same =
        let this : [] ≡ kids = ground (arith, same) in
        subst (λ l. weight_of below l ≤ 0) this (omega arith)

descendants-ends_example :
    ((e : BeadsError) × ((descendants family 2 "i1" true).0 ≡ err e))
    ⊎ ((l : List Issue) × ((descendants family 2 "i1" true).0 ≡ ok (some l))
        × IsWhole family "i1" l)
descendants-ends_example =
    descendants-ends family below family-IsTree 1 "i1" true (λ root. ground arith)

abbrev two_changes : List IssueSync
two_changes =
    record {
      change = record { issue = filed; kind = ChangeKind.created };
      sync = SyncState.synced;
      local = some filed;
    }
    ∷ record {
      change = record { issue = filed; kind = ChangeKind.removed };
      sync = SyncState.unknown;
      local = none;
    }
    ∷ []

abbrev clock : ℕ → String
clock t = "now"

issue_receipt-HasCounts_example :
    HasCounts two_changes empty_receipt (issue_receipt clock two_changes)
    × ((issue_receipt clock two_changes).unsynced
        ≡ map (unsynced_issue clock) (open_changes two_changes))
issue_receipt-HasCounts_example = issue_receipt-HasCounts clock two_changes

abbrev pub begun : SessionBeads
begun = record { start_commit = "c1"; issue = ""; planned = [] }

abbrev pub boarded : Session
boarded = record working { beads = some begun }

abbrev pull_run : Result IssuePause Evidence × Bool
pull_run = pull_beads_required board boarded false false true

abbrev pub landed_receipt : IssueReceipt
landed_receipt = record {
  created = 1;
  closed = 0;
  updated = 0;
  removed = 0;
  unsynced = [];
  accepted = false;
}

pull_run_passes : pull_run ≡ (ok ("verified:c2", some landed_receipt), true)
unfolding pull_beads_required pull_connected pull_recorded verified_or_pause pin_commit
    verify_issues local_answer attempt says gate_issues issue_receipt count_changes check_synced
    session_changes diff_output changes_in with_times local_issues pull_issues instance_commit
    instance_bd local_bd classify_diff all_dated ◌>>=◌ then_with pure fail lift pause
pull_run_passes = refl

pull_beads_required-IsGated_example : IsGated board begun false ("verified:c2", some landed_receipt)
pull_beads_required-IsGated_example =
    pull_beads_required-IsGated board boarded begun false false true
      ("verified:c2", some landed_receipt) true refl pull_run_passes
