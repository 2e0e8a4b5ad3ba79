-- ===== src/Retirement/Types.antt =====
-- Options, results and errors of RetireSession, and what it asks of the machines around it.
use bivouac.Prelude.{ℕ, Bool, String, Option, List, Result}
use bivouac.State.Types.{
  RetirementOperation, RetirementPhase, HerdrAttachment, Destination, IssueReceipt, Acceptance,
  Session, Record,
}
use bivouac.State.Store.{StoreError, StoreFaults, CompleteError}

pub record RetirementOptions : Type 0 where
  pub operation : RetirementOperation
  pub force : Bool
  pub accept_unsynced : Bool

pub record RetirementResult : Type 0 where
  pub completed : Bool
  pub already_completed : Bool
  pub phase : RetirementPhase
  pub signed : List String
  pub issues : Option IssueReceipt

-- An error value: its text, and whether it wraps errOwnershipUnproven or ErrIssuesUnsynced.
pub record Failure : Type 0 where
  pub text : String
  pub unproven : Bool
  pub unsynced : Bool

-- retirementPolicy of retirement_work.go
pub record RetirementPolicy : Type 0 where
  pub operation : RetirementOperation
  pub force : Bool
  pub accept_unsynced : Bool

-- Why a mutation of a session is refused; `nil_pointer` is the panic of the source on a session
-- without a retirement, or on a retirement without an effect journal.
pub data MutateError : Type 0 where
  generation_inactive session_disappeared nil_pointer : MutateError

pub data RetireError : Type 0 where
  unsupported_operation force_without_delete accept_without_merge : RetireError
  lock_refused instance_not_found session_not_found no_randomness : RetireError
  retirement_disappeared effect_failures : RetireError
  store_failed : StoreError MutateError → RetireError
  completion_failed : StoreError CompleteError → RetireError
  no_destination : Failure → RetireError
  -- RetirementError; the last field is the error of recording the failure, if it has one.
  retirement_failed :
      RetirementOperation
      → RetirementPhase
      → Failure
      → Option (StoreError MutateError)
      → RetireError

-- What RetireSession asks of the rest of the world, each answer from the world's state and with the
-- state after it. `store_faults` says what fails in the next operation on the state file.
-- `close`, `check`, `validate` and `now` are the package variables closeRetirementAttachment,
-- checkRetirementWork, validateRetirementWork and retirementNow; `apply` is applyRetirementEffect
-- and `destination` retirementDestinationState, which run git and ssh.
pub record Env : Type 1 where
  pub Outside : Type 0
  pub store_faults : Outside → StoreFaults × Outside
  pub lock : Outside → Bool × Outside
  pub random : Outside → Option (List ℕ) × Outside
  pub destination : Session → Outside → Result Failure Destination × Outside
  pub close : Record → HerdrAttachment → Outside → Option Failure × Outside
  pub check :
      RetirementPolicy
      → Record
      → Session
      → Bool
      → Outside
      → Result Failure (Acceptance × List String) × Outside
  pub validate :
      RetirementPolicy → Record → Session → Acceptance → Outside → Option Failure × Outside
  pub apply : Record → Session → String → Outside → Option Failure × Outside
  pub now : Outside → ℕ × Outside
  -- The text of an error, as Error() gives it.
  pub message : RetireError → String
