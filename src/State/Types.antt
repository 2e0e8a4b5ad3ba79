-- ===== src/State/Types.antt =====
-- The records of internal/state/state.go and internal/state/session_lifecycle.go.
-- A named string type of the source (AttachmentKind and the like) is a data type with one
-- constructor for each constant and one for any other text that a state file may hold.
use bivouac.Prelude.{ℕ, Bool, String, Option, List}

pub data AttachmentKind : Type 0 where
  workspace named_session legacy_profile : AttachmentKind
  other_kind : String → AttachmentKind

pub data AttachmentPhase : Type 0 where
  creating active closing closed : AttachmentPhase
  other_phase : String → AttachmentPhase

pub data RetirementOperation : Type 0 where
  merge delete : RetirementOperation
  other_operation : String → RetirementOperation

pub data RetirementPhase : Type 0 where
  checking paused closing final_check removing : RetirementPhase
  other_phase : String → RetirementPhase

pub data EffectStatus : Type 0 where
  intended done : EffectStatus
  other_status : String → EffectStatus

pub record HerdrAddress : Type 0 where
  pub machine_id : String
  pub session : String
  pub config_root : String

-- `payload` is the raw JSON text of the field `data`, empty where none was given.
pub record OwnershipProof : Type 0 where
  pub scheme : String
  pub payload : String

pub record HerdrAttachment : Type 0 where
  pub id : String
  pub kind : AttachmentKind
  pub address : HerdrAddress
  pub handle : String
  pub proof : OwnershipProof
  pub owned : Bool
  pub phase : AttachmentPhase

pub record Destination : Type 0 where
  pub local_repo : String
  pub git_dir : String
  pub branch : String

pub record UnsyncedIssue : Type 0 where
  pub id : String
  pub title : String
  pub sync : String
  pub instance_updated : String
  pub local_updated : String

pub record IssueReceipt : Type 0 where
  pub created : ℕ
  pub closed : ℕ
  pub updated : ℕ
  pub removed : ℕ
  pub unsynced : List UnsyncedIssue
  pub accepted : Bool

pub record Acceptance : Type 0 where
  pub source_tip : String
  pub replay_base : String
  pub verified_head : String
  pub issue_evidence : String
  pub issues : Option IssueReceipt

-- A Go map from effect keys to statuses, as the list of its entries in the order of the keys.
abbrev pub Effects : Type 0
Effects = List (String × EffectStatus)

-- `effects` is `none` where the source's map is nil.
pub record Retirement : Type 0 where
  pub version : ℕ
  pub operation : RetirementOperation
  pub force : Bool
  pub phase : RetirementPhase
  pub destination : Destination
  pub accepted : List Acceptance
  pub signed : List String
  pub effects : Option Effects
  pub last_failure : String
  pub paused_on : String

-- `completed_at` counts from Go's zero time.
pub record RetirementReceipt : Type 0 where
  pub session : String
  pub generation : String
  pub local_repo : String
  pub operation : RetirementOperation
  pub signed : List String
  pub completed_at : ℕ

pub record SessionBeads : Type 0 where
  pub start_commit : String
  pub issue : String
  pub planned : List String

pub record Session : Type 0 where
  pub name : String
  pub local_repo : String
  pub base : String
  pub repo_name : String
  pub herdr_machine_id : String
  pub generation : String
  pub attachments_known : Bool
  pub attachments : List HerdrAttachment
  pub retirement : Option Retirement
  pub beads : Option SessionBeads

-- Record of state.go; its field SSH, which nothing here reads, is left out.
pub record Record : Type 0 where
  pub name : String
  pub provider : String
  pub project : String
  pub vm_id : String
  pub ip : String
  pub region : String
  pub size : String
  pub template : String
  pub user : String
  pub repo_path : String
  pub tailscale_joined : Bool
  pub herdr_machine_id : String
  pub shell : String
  pub image_ref : String
  pub image_id : String
  pub sessions : List Session
  pub retirement_receipts : List RetirementReceipt

-- The contents of the state file, a Go map by instance name: its entries in the order of the
-- names, which is the order in which encoding/json writes them.
abbrev pub Records : Type 0
Records = List (String × Record)

-- What encoding/json does for the state file. `indented` is how
-- json.MarshalIndent writes a raw message. `unmarshal` is `none` on text that is no JSON of this
-- shape, and `some none` on `null`, which leaves the map nil.
pub record Json : Type 0 where
  pub valid : String → Bool
  pub indented : String → String
  pub marshal : Records → Option String
  pub unmarshal : String → Option (Option Records)
