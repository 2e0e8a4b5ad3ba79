-- ===== src/Beads/Issues.antt =====
-- The receipt of a session's issues and the gate of a merge: internal/lifecycle/issues.go, beads.go and
-- pullBeadsRequired of retirement_work.go.
use bivouac.Prelude.{
  ℕ, ◌+◌, Bool, true, false, not, String, str_append, Option, none, some, List, [], ◌∷◌, ◌++◌, map,
  if◌then◌else◌, Result, ok, err,
}
use bivouac.State.Types.{IssueReceipt, UnsyncedIssue, SessionBeads, Session}
use bivouac.Act.{Act, pure, fail, lift, ◌>>=◌, ◌>>◌}
use bivouac.Beads.{Issue, ChangeKind, BeadsError, BeadsEnv, is_zero}
use bivouac.Beads.Sync.{
  SyncState, IssueSync, check_synced, Bd, instance_commit, session_changes, local_issues,
  pull_issues,
}

abbrev pub is_synced : SyncState → Bool
is_synced SyncState.synced = true
is_synced _ = false

abbrev pub sync_text : SyncState → String
sync_text SyncState.synced = "synced"
sync_text SyncState.not_synced = "not-synced"
sync_text SyncState.unknown = "unknown"

-- rfc3339
abbrev pub rfc3339 : (ℕ → String) → ℕ → String
rfc3339 format_time t = if is_zero t then "" else format_time t

abbrev pub local_time : (ℕ → String) → Option Issue → String
local_time format_time none = ""
local_time format_time (some l) = rfc3339 format_time l.updated_at

abbrev pub count_kind : ChangeKind → IssueReceipt → IssueReceipt
count_kind ChangeKind.created r = record r { created = r.created + 1 }
count_kind ChangeKind.closed r = record r { closed = r.closed + 1 }
count_kind ChangeKind.updated r = record r { updated = r.updated + 1 }
count_kind ChangeKind.removed r = record r { removed = r.removed + 1 }

abbrev pub unsynced_issue : (ℕ → String) → IssueSync → UnsyncedIssue
unsynced_issue format_time c = record {
  id = c.change.issue.id;
  title = c.change.issue.title;
  sync = sync_text c.sync;
  instance_updated = rfc3339 format_time c.change.issue.updated_at;
  local_updated = local_time format_time c.local;
}

abbrev pub add_unsynced : (ℕ → String) → IssueSync → IssueReceipt → IssueReceipt
add_unsynced format_time c r =
    if is_synced c.sync
    then r
    else record r { unsynced = r.unsynced ++ unsynced_issue format_time c ∷ [] }

abbrev pub empty_receipt : IssueReceipt
empty_receipt = record {
  created = 0;
  closed = 0;
  updated = 0;
  removed = 0;
  unsynced = [];
  accepted = false;
}

-- The loop of issueReceipt.
unfoldable pub count_changes : (ℕ → String) → IssueReceipt → List IssueSync → IssueReceipt
count_changes format_time r [] = r
count_changes format_time r (c ∷ changes) =
    count_changes format_time (add_unsynced format_time c (count_kind c.change.kind r)) changes

-- issueReceipt
unfoldable pub issue_receipt : (ℕ → String) → List IssueSync → IssueReceipt
unfolding count_changes
issue_receipt format_time changes = count_changes format_time empty_receipt changes

-- issuePause: what stopped the merge, whether the flag would let it through, and whether it is the late check
pub data Cause : Type 0 where
  failed : BeadsError → Cause
  not_here : List String → Cause

pub record IssuePause : Type 0 where
  pub session : String
  pub cause : Cause
  pub override : Bool
  pub final : Bool

abbrev pub Evidence : Type 0
Evidence = String × Option IssueReceipt

-- strings.Join(ids, ",")
abbrev pub join_ids : List String → String
join_ids [] = ""
join_ids (id ∷ ids) = elim ids [
  | [] ↦ id
  | next ∷ rest ↦ str_append id (str_append "," (join_ids ids))
]

abbrev pub accepted_unsynced : String → IssueReceipt → Evidence
accepted_unsynced pinned r = (
  str_append "accepted-unsynced:"
      (str_append pinned (str_append ":" (join_ids (map (λ u. u.id) r.unsynced)))),
  some (record r { accepted = true }),
)

abbrev pub is_rewritten : BeadsError → Bool
is_rewritten BeadsError.history_rewritten = true
is_rewritten _ = false

-- gateIssues, by what verifyIssues returned; beside an error it returns an empty receipt
unfoldable pub gate_issues :
    String → Result BeadsError IssueReceipt → String → Bool → Bool → Result IssuePause Evidence
gate_issues session (err e) pinned accept final =
    if not (is_rewritten e)
    then err (record { session = session; cause = failed e; override = false; final = final })
    else if accept
    then ok (accepted_unsynced pinned empty_receipt)
    else err (record { session = session; cause = failed e; override = true; final = final })
gate_issues session (ok r) pinned accept final = elim r.unsynced [
  | [] ↦ ok (str_append "verified:" pinned, some r)
  | u ∷ us ↦
      if accept
      then ok (accepted_unsynced pinned r)
      else err (record {
        session = session;
        cause = not_here (map (λ v. v.id) r.unsynced);
        override = true;
        final = final;
      })
]

-- Actions that stop with a pause.
abbrev pub Gated : BeadsEnv → Type 0 → Type 0
Gated env A = Act IssuePause env.Outside A

abbrev pub has_record : Option SessionBeads → Bool
has_record none = false
has_record (some start) = true

abbrev pub readable : Result BeadsError (List Issue) → Option (List Issue)
readable (err e) = none
readable (ok issues) = some issues

module _ (env : BeadsEnv) where
  unfoldable pub says : (env.Outside → Bool × env.Outside) → Gated env Bool
  says question o = let (b, o') = question o in (ok b, o')

  -- The answer of an action that may fail.
  unfoldable pub attempt : {A : Type 0} → Bd env A → Gated env (Result BeadsError A)
  attempt m o = let (r, o') = m o in (ok r, o')

  -- checkSynced: without bd here nothing is looked at
  unfoldable pub local_answer : Bool → Bd env (Option (List Issue))
  unfolding local_issues
  local_answer true o = let (r, o') = local_issues env o in (ok (readable r), o')
  local_answer false o = (ok none, o)

  -- verifyIssues
  unfoldable pub verify_issues : SessionBeads → String → Bool → Bd env IssueReceipt
  unfolding session_changes local_answer
  verify_issues start pinned available = do
    changes ← session_changes env start.start_commit pinned
    issues ← local_answer available
    pure (issue_receipt env.format_time (check_synced issues changes))

  -- pullBeads, whether it synced
  unfoldable pub pull_beads : String → Gated env Bool
  unfolding says pull_issues attempt
  pull_beads session = do
    wired ← says env.wired
    if wired
        then (do
          r ← attempt (pull_issues env session)
          pure (elim r [ ok commit ↦ true | err e ↦ false ]))
        else pure true

  unfoldable pub pause : String → BeadsError → Bool → Gated env Evidence
  pause session e final =
      fail (record { session = session; cause = failed e; override = false; final = final })

  unfoldable pub pin_commit : String → Bool → Bd env String
  unfolding pull_issues instance_commit
  pin_commit session true = pull_issues env session
  pin_commit session false = instance_commit env

  unfoldable pub verified_or_pause :
      String → SessionBeads → Bool → Bool → Bool → Result BeadsError String → Gated env Evidence
  unfolding pause attempt verify_issues
  verified_or_pause session start available accept final (err e) = pause session e final
  verified_or_pause session start available accept final (ok pinned) = do
    r ← attempt (verify_issues start pinned available)
    lift (gate_issues session r pinned accept final)

  unfoldable pub pull_recorded : String → Bool → Bool → Option SessionBeads → Gated env Evidence
  unfolding pull_beads pause says attempt pin_commit verified_or_pause
  pull_recorded session accept final none = do
    synced ← pull_beads session
    if synced then pure ("pulled", none) else pause session BeadsError.did_not_sync final
  pull_recorded session accept final (some start) = do
    available ← says env.available
    pinned ← attempt (pin_commit session available)
    verified_or_pause session start available accept final pinned

  unfoldable pub pull_connected : Session → Bool → Bool → Gated env Evidence
  unfolding says pull_recorded pause
  pull_connected s accept final = do
    connected ← says env.connect
    if connected
        then pull_recorded s.name accept final s.beads
        else pause s.name BeadsError.not_connected final

  -- pullBeadsRequired
  unfoldable pub pull_beads_required : Session → Bool → Bool → Gated env Evidence
  unfolding says pull_connected
  pull_beads_required s accept final =
      if has_record s.beads then pull_connected s accept final else do
        wired ← says env.wired
        if wired then pull_connected s accept final else pure ("pulled", none)

  -- requireBeadsLanded, with Unpulled, and checkBeadsLanded
  unfoldable pub require_beads_landed : String → Bd env (Unit {0})
  unfolding pull_issues
  require_beads_landed session o =
      let (wired, o') = env.wired o in
      if wired then (pull_issues env session >> pure tt) o' else (ok tt, o')

  unfoldable pub check_beads_landed : String → Bd env (Unit {0})
  unfolding require_beads_landed
  check_beads_landed session o =
      let (connected, o') = env.connect o in
      if connected then require_beads_landed session o' else (err BeadsError.not_connected, o')
