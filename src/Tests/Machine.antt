-- ===== src/Tests/Machine.antt =====
-- An instance, its state file before and after the retirement of its session, and a world in which
-- nothing fails.
use bivouac.Prelude.{true, false, String, none, some, List, [], ◌∷◌, ok}
use bivouac.State.Types.{
  AttachmentPhase, workspace, HerdrAttachment, merge, done, RetirementPhase, Acceptance, Retirement,
  RetirementReceipt, Session, Record, Records,
}
use bivouac.State.Disk.{Disk, Faults}
use bivouac.State.Store.{StoreFaults, state_mode}
use bivouac.Retirement.Types.{RetirementOptions, Env}
use bivouac.Retirement.Options.{zero_session, zero_record}
use bivouac.Retirement.Exec.{World}

abbrev pub some_generation : String
some_generation = "000102030405060708090a0b0c0d0e0f"

abbrev pub evidence : Acceptance
evidence = record {
  source_tip = "c2";
  replay_base = "c1";
  verified_head = "c3";
  issue_evidence = "";
  issues = none;
}

-- The retirement of a merge, all of whose effects are done.
abbrev pub merging : Retirement
merging = record {
  version = 1;
  operation = merge;
  force = false;
  phase = RetirementPhase.removing;
  destination = record { local_repo = "/repo"; git_dir = "/repo/.git"; branch = "main" };
  accepted = evidence ∷ [];
  signed = "c3" ∷ [];
  effects = some (
      ("remote-checkout", done)
      ∷ ("local-worktree", done)
      ∷ ("beads-remote", done)
      ∷ ("git-remote", done)
      ∷ ("git-branch", done)
      ∷ ("replay-journal", done)
      ∷ []);
  last_failure = "";
  paused_on = "";
}

abbrev pub working : Session
working = record zero_session {
  name = "work";
  local_repo = "/repo";
  generation = some_generation;
  attachments_known = true;
}

-- A workspace that Herdr never created.
abbrev pub never_created : HerdrAttachment
never_created = record {
  id = "a1";
  kind = workspace;
  address = record { machine_id = "m"; session = "default"; config_root = "/c" };
  handle = "";
  proof = record { scheme = ""; payload = "" };
  owned = true;
  phase = AttachmentPhase.creating;
}

abbrev pub instance_of : List Session → List RetirementReceipt → Record
instance_of sessions receipts = record zero_record {
  name = "box";
  sessions = sessions;
  retirement_receipts = receipts;
}

abbrev pub merged : RetirementReceipt
merged = record {
  session = "work";
  generation = some_generation;
  local_repo = "/repo";
  operation = merge;
  signed = "c3" ∷ [];
  completed_at = 7;
}

abbrev pub retiring : Session
retiring = record working { retirement = some merging }

-- In phase closing, with the workspace that was never created.
abbrev pub stuck : Session
stuck = record working {
  attachments = never_created ∷ [];
  retirement = some (record merging { phase = RetirementPhase.closing });
}

abbrev pub table : List (String × Records)
table =
    ("plain", ("box", instance_of (working ∷ []) []) ∷ [])
    ∷ ("retiring", ("box", instance_of (retiring ∷ []) []) ∷ [])
    ∷ ("retired", ("box", instance_of [] (merged ∷ [])) ∷ [])
    ∷ ("stuck", ("box", instance_of (stuck ∷ []) []) ∷ [])
    ∷ ("empty", [])
    ∷ []

abbrev pub file_of : String → Disk
file_of text = record {
  file = some (record { text = text; mode = state_mode; synced = true });
  leftovers = 0;
}

abbrev pub works : Faults
works = record {
  mkdir = false;
  stat = false;
  create = false;
  chmod = false;
  write = false;
  sync = false;
  close = false;
  rename = false;
  open_dir = false;
  sync_dir = false;
  close_dir = false;
  unlink = false;
  stored = "";
}

abbrev pub no_faults : StoreFaults
no_faults = record { lock = false; read = false; mkdir = false; write = works }

-- Every question is answered as one would wish, and the clock stands at 7.
abbrev pub calm : Env
calm = record {
  Outside = Unit {0};
  store_faults = λ u. (no_faults, u);
  lock = λ u. (false, u);
  random = λ u. (none, u);
  destination =
      λ s u. (ok (record { local_repo = "/repo"; git_dir = "/repo/.git"; branch = "main" }), u);
  close = λ r a u. (none, u);
  check = λ p r s final u. (ok (evidence, []), u);
  validate = λ p r s a u. (none, u);
  apply = λ r s key u. (none, u);
  now = λ u. (7, u);
  message = λ e. "failed";
}

abbrev pub start : String → World calm
start text = record { disk = file_of text; outside = tt }

abbrev pub merge_it : RetirementOptions
merge_it = record { operation = merge; force = false; accept_unsynced = false }
