-- ===== src/Beads.antt =====
-- The issues of a session, kept by the program bd on both machines: internal/beads/report.go, and Pull and
-- Unpulled of internal/beads/sync.go.
pub mod Sync
pub mod Tree
pub mod TreeLaws
pub mod Issues
pub mod Gate
pub mod Evidence
pub mod Laws
pub mod Progress
use Prim.Native.Char.{code}
use bivouac.Prelude.{
  ℕ, Bool, true, false, not, ◌&&◌, ◌||◌, String, Option, none, some, List, [], ◌∷◌, ◌++◌, map, ◌==◌,
  if◌then◌else◌, eqb, keep, find, Result, ok, err,
}
use bivouac.Act.{Act, pure, fail, ◌>>=◌, ◌>>◌}
use bivouac.Trailers.{has_prefix, contains}

-- Issue; `updated_at` counts from Go's zero time.
pub record Issue : Type 0 where
  pub id : String
  pub title : String
  pub status : String
  pub updated_at : ℕ

-- ChangeKind, Change and diffEntry
pub data ChangeKind : Type 0 where
  created closed updated removed : ChangeKind

pub record Change : Type 0 where
  pub issue : Issue
  pub kind : ChangeKind

pub record DiffEntry : Type 0 where
  pub diff_type : String
  pub old_value : Option Issue
  pub new_value : Option Issue

pub data BeadsError : Type 0 where
  bd_failed no_json bad_json no_commit history_rewritten no_such_issue not_connected : BeadsError
  missing_issue : String → BeadsError
  did_not_sync : BeadsError

-- The calls of bd, by their arguments.
pub data BdCommand : Type 0 where
  vc_status list_all dolt_push : BdCommand
  show children dolt_pull : String → BdCommand
  diff : String → String → BdCommand
  show_at : String → List String → BdCommand

abbrev id_args : List String → List String
id_args [] = []
id_args (id ∷ ids) = "--id" ∷ id ∷ id_args ids

abbrev pub bd_args : BdCommand → List String
bd_args vc_status = "vc" ∷ "status" ∷ "--json" ∷ []
bd_args list_all = "list" ∷ "--all" ∷ "--limit" ∷ "0" ∷ "--json" ∷ []
bd_args dolt_push = "dolt" ∷ "push" ∷ []
bd_args (show id) = "show" ∷ id ∷ "--json" ∷ []
bd_args (children id) = "children" ∷ id ∷ "--json" ∷ []
bd_args (dolt_pull remote) = "dolt" ∷ "pull" ∷ "--remote" ∷ remote ∷ []
bd_args (diff from to) = "diff" ∷ from ∷ to ∷ "--json" ∷ []
bd_args (show_at commit ids) = "show" ∷ "--as-of" ∷ commit ∷ "--json" ∷ id_args ids

-- The machines. A call answers with its output, also where it fails. `wired` is beads.Wired, `available`
-- says whether bd is on this machine, and `connect` whether the instance answers. The readers are
-- json.Decoder for the types of report.go, and `trim_space` is strings.TrimSpace.
pub record BeadsEnv : Type 1 where
  pub Outside : Type 0
  pub on_instance : List String → Outside → Result String String × Outside
  pub locally : List String → Outside → Result String String × Outside
  pub connect : Outside → Bool × Outside
  pub wired : Outside → Bool × Outside
  pub available : Outside → Bool × Outside
  pub read_commit : String → Option String
  pub read_issues : String → Option (List Issue)
  pub read_entries : String → Option (List DiffEntry)
  pub trim_space : String → String
  pub format_time : ℕ → String

-- decodeJSON: the text from the first [ or { on
abbrev pub from_json : String → Option String
from_json String.[] = none
from_json (String.◌∷◌ c s) =
    let rest = from_json s in
    if eqb (code c) 91 || eqb (code c) 123 then some (String.◌∷◌ c s) else rest

abbrev pub read_from : {A : Type 0} → (String → Option A) → Option String → Result BeadsError A
read_from read none = err BeadsError.no_json
read_from read (some text) = elim (read text) [ none ↦ err BeadsError.bad_json | some a ↦ ok a ]

abbrev pub decode_json : {A : Type 0} → (String → Option A) → String → Result BeadsError A
decode_json read out = read_from read (from_json out)

-- time.Time.IsZero
abbrev pub is_zero : ℕ → Bool
is_zero t = eqb t 0

-- classifyDiff
abbrev pub was_closed : Option Issue → Bool
was_closed none = false
was_closed (some old) = old.status == "closed"

abbrev pub classify_new : Option Issue → Issue → Change
classify_new old new = record {
  issue = new;
  kind = if new.status == "closed" && not (was_closed old) then closed else updated;
}

abbrev pub with_kind : ChangeKind → Option Issue → Option Change
with_kind kind none = none
with_kind kind (some issue) = some (record { issue = issue; kind = kind })

abbrev pub modified : Option Issue → Option Issue → Option Change
modified old none = none
modified old (some new) = some (classify_new old new)

unfoldable pub classify_diff : DiffEntry → Option Change
classify_diff e =
    if e.diff_type == "added"
    then with_kind created e.new_value
    else if e.diff_type == "removed"
    then with_kind removed e.old_value
    else if e.diff_type == "modified"
    then modified e.old_value e.new_value
    else none

abbrev pub prepend : Option Change → List Change → List Change
prepend none changes = changes
prepend (some c) changes = c ∷ changes

abbrev pub classified : List DiffEntry → List Change
classified [] = []
classified (e ∷ entries) = prepend (classify_diff e) (classified entries)

abbrev pub is_removed : ChangeKind → Bool
is_removed removed = true
is_removed _ = false

-- A change whose issue has no time, which is read at the pin.
abbrev pub is_undated : Change → Bool
is_undated c = not (is_removed c.kind) && is_zero c.issue.updated_at

-- A map from the ids of issues, in which a later issue replaces an earlier one.
abbrev pub by_id : String → List Issue → Option Issue
by_id id [] = none
by_id id (issue ∷ issues) = elim (by_id id issues) [
  | some later ↦ some later
  | none ↦ if issue.id == id then some issue else none
]

abbrev pub dated_with : List Issue → Change → Option Issue → Result BeadsError Change
dated_with issues c none = err (BeadsError.missing_issue c.issue.id)
dated_with issues c (some issue) = ok (record c { issue = issue })

-- The changes, with the undated ones read from the issues at the pin.
abbrev pub dated : List Issue → Change → Result BeadsError Change
dated issues c = if is_undated c then dated_with issues c (by_id c.issue.id issues) else ok c

abbrev join :
    Result BeadsError Change → Result BeadsError (List Change) → Result BeadsError (List Change)
join (err e) rest = err e
join (ok c) (err e) = err e
join (ok c) (ok cs) = ok (c ∷ cs)

unfoldable pub all_dated : List Issue → List Change → Result BeadsError (List Change)
all_dated issues [] = ok []
all_dated issues (c ∷ changes) = join (dated issues c) (all_dated issues changes)
