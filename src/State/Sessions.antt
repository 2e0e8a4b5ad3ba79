-- ===== src/State/Sessions.antt =====
-- The methods of Record and Session in internal/state/state.go, and the start of a session in
-- internal/state/session_lifecycle.go.
pub mod Laws
pub mod Start
use bivouac.Prelude.{
  ℕ, Bool, true, false, not, ◌&&◌, ◌||◌, String, Option, none, some, List, [], ◌∷◌, ◌++◌, ◌==◌,
  find, keep, if◌then◌else◌,
}
use bivouac.State.Types.{Session, Record, Retirement, RetirementReceipt, RetirementOperation}
use bivouac.State.Generation.{new_session_generation}
use bivouac.State.Validate.{is_empty}

-- Session.RepoNameOr
unfoldable pub repo_name_or : Session → String → String
repo_name_or s instance_name = if is_empty s.repo_name then instance_name else s.repo_name

-- Record.FindSession
unfoldable pub find_session : Record → String → Option Session
find_session r name = find (λ s. s.name == name) r.sessions

unfoldable pub put : Session → List Session → List Session
put s [] = s ∷ []
put s (t ∷ l) = if t.name == s.name then s ∷ l else t ∷ put s l

-- Record.PutSession
unfoldable pub put_session : Record → Session → Record
unfolding put
put_session r s = record r { sessions = put s r.sessions }

-- Record.RemoveSession
unfoldable pub remove_session : Record → String → Record
remove_session r name = record r { sessions = keep (λ s. not (s.name == name)) r.sessions }

-- Record.FindRetirementReceipt
unfoldable pub find_retirement_receipt : Record → String → String → Option RetirementReceipt
find_retirement_receipt r session local_repo =
    find (λ t. t.session == session && t.local_repo == local_repo) r.retirement_receipts

-- The receipts that stay when those of one session and repository are dropped.
abbrev pub other_receipts : String → String → List RetirementReceipt → List RetirementReceipt
other_receipts session local_repo =
    keep (λ t. not (t.session == session) || not (t.local_repo == local_repo))

pub data StartError : Type 0 where
  retirement_pending : RetirementOperation → StartError
  other_checkout no_randomness : StartError

pub data Started : Type 0 where
  started : Record → Session → Started
  refused : StartError → Started

-- The identity of an existing session: one recorded field that differs from the asked one.
abbrev differs : String → String → Bool
differs recorded asked = not (is_empty recorded) && not (recorded == asked)

abbrev pub is_other : Session → String → String → String → Bool
is_other existing local_repo base repo_name =
    differs existing.local_repo local_repo
    || differs existing.base base
    || differs existing.repo_name repo_name

abbrev pub retried : Session → String → String → String → String → Session
retried existing generation local_repo base repo_name = record existing {
  local_repo = local_repo;
  base = base;
  repo_name = repo_name;
  generation = generation;
}

unfoldable pub resume_start :
    Record → Session → Option Retirement → String → String → String → Option String → Started
resume_start r existing (some retirement) local_repo base repo_name fresh =
    refused (retirement_pending retirement.operation)
resume_start r existing none local_repo base repo_name fresh =
    if is_other existing local_repo base repo_name
    then refused other_checkout
    else if not (is_empty existing.generation)
    then (let s = retried existing existing.generation local_repo base repo_name in
        started (put_session r s) s)
    else elim fresh [
      | none ↦ refused no_randomness
      | some generation ↦
          let s = retried existing generation local_repo base repo_name in
          started (put_session r s) s
    ]

abbrev pub new_session : String → String → String → String → String → Session
new_session name local_repo base repo_name generation = record {
  name = name;
  local_repo = local_repo;
  base = base;
  repo_name = repo_name;
  herdr_machine_id = "";
  generation = generation;
  attachments_known = true;
  attachments = [];
  retirement = none;
  beads = none;
}

unfoldable pub fresh_start : Record → String → String → String → String → Option String → Started
fresh_start r name local_repo base repo_name none = refused no_randomness
fresh_start r name local_repo base repo_name (some generation) =
    let s = new_session name local_repo base repo_name generation in
    let r' = put_session r s in
    started
      (record r' { retirement_receipts = other_receipts name local_repo r'.retirement_receipts }) s

-- The two halves of PrepareSessionStart, by what FindSession gives.
unfoldable pub start_found :
    Record → String → String → String → String → Option String → Option Session → Started
unfolding put_session resume_start fresh_start
start_found r name local_repo base repo_name fresh (some existing) =
    resume_start r existing existing.retirement local_repo base repo_name fresh
start_found r name local_repo base repo_name fresh none =
    fresh_start r name local_repo base repo_name fresh

-- Record.PrepareSessionStart; `random` is what the random source would fill the generation with.
unfoldable pub prepare_session_start :
    Record → String → String → String → String → Option (List ℕ) → Started
unfolding find_session start_found
prepare_session_start r name local_repo base repo_name random =
    start_found r name local_repo base repo_name (new_session_generation random)
      (find_session r name)
