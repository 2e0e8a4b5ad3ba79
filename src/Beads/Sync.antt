-- ===== src/Beads/Sync.antt =====
-- What a session changed, and whether it has landed here: SessionChanges, LocalIssues and CheckSynced of
-- internal/beads/report.go, Pull and Unpulled of internal/beads/sync.go.
use bivouac.Prelude.{
  Bool, true, false, not, ◌&&◌, String, str_append, Option, none, some, List, [], ◌∷◌, map, ◌==◌,
  if◌then◌else◌, ltb, keep, Result, ok, err,
}
use bivouac.Act.{Act, pure, lift, ◌>>=◌, ◌>>◌}
use bivouac.Trailers.{has_prefix, contains}
use bivouac.Beads.{
  Issue, ChangeKind, Change, BeadsError, BdCommand, bd_args, BeadsEnv, decode_json, classified,
  is_undated, is_zero, by_id, all_dated,
}

-- SyncState and IssueSync
pub data SyncState : Type 0 where
  synced not_synced unknown : SyncState

pub record IssueSync : Type 0 where
  pub change : Change
  pub sync : SyncState
  pub local : Option Issue

abbrev pub sync_if : Bool → SyncState
sync_if true = SyncState.synced
sync_if false = SyncState.not_synced

abbrev pub both_dated : Issue → Issue → SyncState
both_dated issue l =
    if not (is_zero issue.updated_at) && not (is_zero l.updated_at)
    then sync_if (not (ltb l.updated_at issue.updated_at))
    else SyncState.unknown

-- What the local database says of a change, where it could be read.
abbrev pub sync_of : ChangeKind → Issue → Option Issue → SyncState
sync_of ChangeKind.removed issue none = SyncState.synced
sync_of ChangeKind.removed issue (some l) = SyncState.not_synced
sync_of _ issue none = SyncState.not_synced
sync_of _ issue (some l) = both_dated issue l

abbrev pub check_one : Option (List Issue) → Change → IssueSync
check_one none c = record { change = c; sync = SyncState.unknown; local = none }
check_one (some issues) c =
    let l = by_id c.issue.id issues in
    record { change = c; sync = sync_of c.kind c.issue l; local = l }

-- CheckSynced; `none` where the local database could not be read
unfoldable pub check_synced : Option (List Issue) → List Change → List IssueSync
check_synced issues changes = map (check_one issues) changes

-- Actions on the machines.
abbrev pub Bd : BeadsEnv → Type 0 → Type 0
Bd env A = Act BeadsError env.Outside A

-- A call that failed for a commit that is not there says so in its output only.
abbrev pub diff_failed : String → BeadsError
diff_failed out =
    if contains "commit not found" out then BeadsError.history_rewritten else BeadsError.bd_failed

module _ (env : BeadsEnv) where
  unfoldable pub instance_bd : BdCommand → Bd env String
  instance_bd command o =
      let (r, o') = env.on_instance (bd_args command) o in
      (
        elim r as (λ x. Result BeadsError String) [
          | err out ↦ err BeadsError.bd_failed
          | ok out ↦ ok out
        ],
        o',
      )

  unfoldable pub local_bd : BdCommand → Bd env String
  local_bd command o =
      let (r, o') = env.locally (bd_args command) o in
      (
        elim r as (λ x. Result BeadsError String) [
          | err out ↦ err BeadsError.bd_failed
          | ok out ↦ ok out
        ],
        o',
      )

  abbrev pub some_commit : String → Result BeadsError String
  some_commit commit = if commit == "" then err BeadsError.no_commit else ok commit

  -- InstanceCommit
  unfoldable pub instance_commit : Bd env String
  unfolding instance_bd lift
  instance_commit = do
    out ← instance_bd BdCommand.vc_status
    commit ← lift (decode_json env.read_commit out)
    lift (some_commit commit)

  unfoldable pub diff_output : String → String → Bd env String
  diff_output from to o =
      let (r, o') = env.on_instance (bd_args (BdCommand.diff from to)) o in
      (
        elim r as (λ x. Result BeadsError String) [
          | err out ↦ err (diff_failed out)
          | ok out ↦ ok out
        ],
        o',
      )

  abbrev pub ids_of : List Change → List String
  ids_of changes = map (λ c. c.issue.id) (keep is_undated changes)

  -- The times that bd left out are read at the pin, in one call, if there are any.
  unfoldable pub with_times : String → List Change → List String → Bd env (List Change)
  unfolding instance_bd lift
  with_times to changes [] = pure changes
  with_times to changes (id ∷ ids) = do
    out ← instance_bd (BdCommand.show_at to (id ∷ ids))
    issues ← lift (decode_json env.read_issues out)
    lift (all_dated issues changes)

  unfoldable pub changes_in : String → String → Bd env (List Change)
  unfolding with_times lift
  changes_in to out = if has_prefix "No changes" (env.trim_space out) then pure [] else do
    entries ← lift (decode_json env.read_entries out)
    with_times to (classified entries) (ids_of (classified entries))

  -- SessionChanges
  unfoldable pub session_changes : String → String → Bd env (List Change)
  unfolding diff_output changes_in
  session_changes from to = do out ← diff_output from to; changes_in to out

  -- LocalIssues
  unfoldable pub local_issues : Bd env (List Issue)
  unfolding local_bd lift
  local_issues = do out ← local_bd BdCommand.list_all; lift (decode_json env.read_issues out)

  -- Pull: the commit that was pinned before the issues were published
  unfoldable pub pull_issues : String → Bd env String
  unfolding instance_commit instance_bd local_bd
  pull_issues session = do
    commit ← instance_commit
    instance_bd BdCommand.dolt_push
    local_bd (BdCommand.dolt_pull (str_append "bivouac-" session))
    pure commit
