-- ===== src/Beads/Progress.antt =====
-- What a session's issues look like now: ReadBeadsStart, listIssues, readProgress, plannedStatus, closedPlanned
-- and removedCount of internal/lifecycle/issues.go.
use bivouac.Prelude.{
  ℕ, ◌-◌, Bool, true, false, not, ◌&&◌, String, Option, none, some, List, [], ◌∷◌, ◌++◌, map, ◌==◌,
  if◌then◌else◌, ltb, keep, any, find, length, Result, ok, err,
}
use bivouac.State.Types.{SessionBeads}
use bivouac.Act.{pure, ◌>>=◌}
use bivouac.Beads.{Issue, ChangeKind, Change, BeadsError, BeadsEnv, is_removed}
use bivouac.Beads.Sync.{IssueSync, check_synced, Bd, instance_commit, session_changes}
use bivouac.Beads.Tree.{descendants}
use bivouac.Beads.Issues.{local_answer}

-- PlannedIssue
pub record PlannedIssue : Type 0 where
  pub id : String
  pub title : String
  pub status : String
  pub removed : Bool

abbrev pub planned_one : String → Option Issue → PlannedIssue
planned_one id none = record { id = id; title = ""; status = "removed"; removed = true }
planned_one id (some is) = record { id = id; title = is.title; status = is.status; removed = false }

-- plannedStatus: the first issue with the id wins
unfoldable pub planned_status : List String → List Issue → List PlannedIssue
planned_status planned now = map (λ id. planned_one id (find (λ is. is.id == id) now)) planned

-- closedPlanned and removedCount
unfoldable pub closed_planned : List PlannedIssue → ℕ
closed_planned planned = length (keep (λ p. not p.removed && (p.status == "closed")) planned)

unfoldable pub removed_count : List PlannedIssue → ℕ
removed_count planned = length (keep (λ p. p.removed) planned)

-- The attention lines.
pub data Attention : Type 0 where
  base_rewritten history_rewritten closed_target : Attention

-- SessionProgress without the header facts, which DescribeProgress adds
pub record SessionProgress : Type 0 where
  pub issue : String
  pub start_commit : String
  pub instance_commit : String
  pub planned : List PlannedIssue
  pub closed_planned_count : ℕ
  pub discovered : List Change
  pub closed_count : ℕ
  pub updated_count : ℕ
  pub attention : List Attention

abbrev pub is_kind : ChangeKind → ChangeKind → Bool
is_kind ChangeKind.created ChangeKind.created = true
is_kind ChangeKind.closed ChangeKind.closed = true
is_kind ChangeKind.updated ChangeKind.updated = true
is_kind ChangeKind.removed ChangeKind.removed = true
is_kind _ _ = false

abbrev pub of_kind : ChangeKind → List Change → List Change
of_kind kind changes = keep (λ c. is_kind c.kind kind) changes

abbrev pub base_progress : SessionBeads → String → List Change → List Attention → SessionProgress
base_progress start now changes attention = record {
  issue = start.issue;
  start_commit = start.start_commit;
  instance_commit = now;
  planned = [];
  closed_planned_count = 0;
  discovered = of_kind ChangeKind.created changes;
  closed_count = length (of_kind ChangeKind.closed changes);
  updated_count = length (of_kind ChangeKind.updated changes);
  attention = attention;
}

-- The tree, and the issues that the diff still has.
abbrev pub current_issues : List Issue → List Change → List Issue
current_issues tree changes =
    tree ++ map (λ c. c.issue) (keep (λ c. not (is_removed c.kind)) changes)

abbrev pub steps_of : SessionBeads → List String
steps_of start = keep (λ id. not (id == start.issue)) start.planned

abbrev pub root_closed : List Issue → Bool
root_closed [] = false
root_closed (root ∷ tree) = root.status == "closed"

unfoldable pub with_tree :
    SessionBeads → SessionProgress → List Change → List Issue → SessionProgress
unfolding planned_status closed_planned removed_count
with_tree start p changes tree =
    let planned = planned_status (steps_of start) (current_issues tree changes) in
    let attention =
      if root_closed tree && ltb (closed_planned planned) (length planned - removed_count planned)
      then p.attention ++ Attention.closed_target ∷ []
      else p.attention in
    record p {
      planned = planned;
      closed_planned_count = closed_planned planned;
      attention = attention;
    }

-- The changes, or none with a warning if the history was rewritten.
abbrev pub or_rewritten :
    Result BeadsError (List Change) → Result BeadsError (List Change × List Attention)
or_rewritten (ok changes) = ok (changes, [])
or_rewritten (err BeadsError.history_rewritten) = ok ([], Attention.history_rewritten ∷ [])
or_rewritten (err e) = err e

-- IssueListing of a session with a start record
pub record IssueListing : Type 0 where
  pub session : String
  pub issue : String
  pub issue_status : String
  pub start_commit : String
  pub instance_commit : String
  pub history_rewritten : Bool
  pub changes : List IssueSync
  pub outside_epic : List String

abbrev pub root_status : List Issue → String
root_status [] = ""
root_status (root ∷ tree) = root.status

-- The issues created in the session that are not in the tree.
abbrev pub outside_of : List Issue → List Change → List String
outside_of tree changes =
    map (λ c. c.issue.id)
      (keep (λ c. is_kind c.kind ChangeKind.created && not (any (λ is. is.id == c.issue.id) tree))
        changes)

abbrev pub listing_of : String → SessionBeads → String → Bool → List IssueSync → IssueListing
listing_of session start now rewritten changes = record {
  session = session;
  issue = start.issue;
  issue_status = "";
  start_commit = start.start_commit;
  instance_commit = now;
  history_rewritten = rewritten;
  changes = changes;
  outside_epic = [];
}

abbrev pub list_tree : IssueListing → List Change → Option (List Issue) → Option IssueListing
list_tree l changes none = none
list_tree l changes (some tree) =
    some (record l { issue_status = root_status tree; outside_epic = outside_of tree changes })

abbrev pub is_history_rewritten : List Attention → Bool
is_history_rewritten [] = false
is_history_rewritten (a ∷ more) = true

-- `none` where the fuel of Descendants ran out
abbrev pub add_tree :
    SessionBeads → SessionProgress → List Change → Option (List Issue) → Option SessionProgress
add_tree start p changes none = none
add_tree start p changes (some tree) = some (with_tree start p changes tree)

abbrev pub planned_by : String → String → Option (List Issue) → Option SessionBeads
planned_by commit issue none = none
planned_by commit issue (some tree) =
    some (record { start_commit = commit; issue = issue; planned = map (λ is. is.id) tree })

module _ (env : BeadsEnv) where
  unfoldable pub changes_since : SessionBeads → String → Bd env (List Change × List Attention)
  unfolding session_changes
  changes_since start now o =
      let (r, o') = session_changes env start.start_commit now o in (or_rewritten r, o')

  -- readProgress
  unfoldable pub read_progress : ℕ → SessionBeads → Bd env (Option SessionProgress)
  unfolding instance_commit changes_since descendants with_tree
  read_progress fuel start = do
    now ← instance_commit env
    found ← changes_since start now
    if start.issue == "" then pure (some (base_progress start now found.0 found.1)) else do
      tree ← descendants env fuel start.issue
      pure (add_tree start (base_progress start now found.0 found.1) found.0 tree)

  -- ReadBeadsStart
  unfoldable pub read_beads_start : ℕ → String → Bd env (Option SessionBeads)
  unfolding instance_commit descendants
  read_beads_start fuel issue = do
    commit ← instance_commit env
    if issue == ""
        then pure (some (record { start_commit = commit; issue = issue; planned = [] }))
        else do tree ← descendants env fuel issue; pure (planned_by commit issue tree)

  unfoldable pub list_changes :
      ℕ
      → String
      → SessionBeads
      → String
      → List Change
      → Option (List Issue)
      → Bd env (Option IssueListing)
  unfolding descendants
  list_changes fuel session start now changes issues =
      let l = listing_of session start now false (check_synced issues changes) in
      if start.issue == ""
      then pure (some l)
      else do tree ← descendants env fuel start.issue; pure (list_tree l changes tree)

  -- listIssues; a rewritten history is shown, and nothing else is looked at
  unfoldable pub list_issues : ℕ → String → SessionBeads → Bool → Bd env (Option IssueListing)
  unfolding instance_commit changes_since local_answer list_changes
  list_issues fuel session start available = do
    now ← instance_commit env
    found ← changes_since start now
    if is_history_rewritten found.1 then pure (some (listing_of session start now true [])) else do
      issues ← local_answer env available
      list_changes fuel session start now found.0 issues
