-- ===== src/State/Store.antt =====
-- Store of internal/state/state.go: each operation locks, reads and validates the whole file, and
-- a write validates and replaces it. A Store is the disk that holds its file; a failing lock, read
-- or write is chosen by `StoreFaults`. The errors of releasing a lock are ignored by the source.
pub mod Atomic
pub mod Access
pub mod Refines
pub mod Receipts
use Prim.Native.String.{compare}
use Prim.Native.Nat.{Ordering}
use bivouac.Prelude.{
  ℕ, Bool, true, false, not, ◌&&◌, ◌||◌, String, Option, none, some, List, [], ◌∷◌, ◌++◌, ◌==◌,
  keep, if◌then◌else◌, Result, ok, err, ◌>>=◌,
}
use bivouac.State.Types.{Session, RetirementReceipt, Record, Records, Json}
use bivouac.State.Validate.{Invalid, each, validate_record_lifecycle}
use bivouac.State.Entries.{lookup, insert, erase, values}
use bivouac.State.Sessions.{other_receipts}
use bivouac.State.Disk.{File, Disk, Faults, write_file_atomic}

pub data StoreError (E : Type 0) : Type 0 where
  locked unreadable corrupt no_directory unencodable unwritable : StoreError E
  invalid : Invalid → StoreError E
  instance_missing : String → StoreError E
  mutation : E → StoreError E

pub record StoreFaults : Type 0 where
  pub lock : Bool
  pub read : Bool
  pub mkdir : Bool
  pub write : Faults

-- 0o600
abbrev pub state_mode : ℕ
state_mode = 384

abbrev pub before : String → String → Bool
before a b = elim (compare a b) [ Ordering.lt ↦ true | _ ↦ false ]

unfoldable pub by_name : Record → List Record → List Record
by_name r [] = r ∷ []
by_name r (s ∷ l) = if before r.name s.name then r ∷ s ∷ l else s ∷ by_name r l

-- sort.Slice by name
unfoldable pub sort_records : List Record → List Record
unfolding by_name
sort_records [] = []
sort_records (r ∷ l) = by_name r (sort_records l)

module _ (json : Json) {E : Type 0} where
  unfoldable pub check_records : Records → Result (StoreError E) Records
  check_records m = elim (each (validate_record_lifecycle json) (values m)) [
    | none ↦ ok m
    | some i ↦ err (invalid i)
  ]

  unfoldable pub decoded : Option (Option Records) → Result (StoreError E) Records
  decoded none = err corrupt
  decoded (some none) = ok []
  decoded (some (some m)) = check_records m

  unfoldable pub read_file : Option File → Result (StoreError E) Records
  read_file none = ok []
  read_file (some file) = decoded (json.unmarshal file.text)

  -- allUnlocked
  unfoldable pub all_unlocked : StoreFaults → Disk → Result (StoreError E) Records
  unfolding check_records decoded read_file
  all_unlocked f d = if f.read then err unreadable else read_file d.file

  unfoldable pub written : Disk × Bool → Result (StoreError E) (Unit {0}) × Disk
  written (d, true) = (err unwritable, d)
  written (d, false) = (ok tt, d)

  unfoldable pub publish :
      StoreFaults → Option String → Disk → Result (StoreError E) (Unit {0}) × Disk
  publish f none d = (err unencodable, d)
  publish f (some text) d = written (write_file_atomic f.write text state_mode d)

  unfoldable pub replace :
      StoreFaults → Disk → Result (StoreError E) Records → Result (StoreError E) (Unit {0}) × Disk
  replace f d (err e) = (err e, d)
  replace f d (ok m) = if f.mkdir then (err no_directory, d) else publish f (json.marshal m) d

  -- saveUnlocked
  unfoldable pub save_unlocked :
      StoreFaults → Records → Disk → Result (StoreError E) (Unit {0}) × Disk
  unfolding check_records written publish replace
  save_unlocked f m d = replace f d (check_records m)

  unfoldable pub save_changed :
      StoreFaults → Disk → Result (StoreError E) Records → Result (StoreError E) (Unit {0}) × Disk
  unfolding save_unlocked
  save_changed f d (err e) = (err e, d)
  save_changed f d (ok m) = save_unlocked f m d

  -- The shape of every write: lock, load, change the map, save.
  unfoldable pub transact :
      StoreFaults
      → (Records → Result (StoreError E) Records)
      → Disk
      → Result (StoreError E) (Unit {0}) × Disk
  unfolding all_unlocked save_changed
  transact f change d =
      if f.lock then (err locked, d) else save_changed f d (all_unlocked f d >>= change)

  -- Store.Get
  unfoldable pub get : StoreFaults → Disk → String → Result (StoreError E) (Option Record)
  unfolding all_unlocked
  get f d name = if f.lock then err locked else (all_unlocked f d >>= λ m. ok (lookup name m))

  -- Store.Put
  unfoldable pub put : StoreFaults → Record → Disk → Result (StoreError E) (Unit {0}) × Disk
  put f r = transact f (λ m. ok (insert r.name r m))

  unfoldable pub mutated : String → Records → Result E Record → Result (StoreError E) Records
  mutated instance_name m (ok r) = ok (insert instance_name r m)
  mutated instance_name m (err e) = err (mutation e)

  unfoldable pub update_entry :
      (Record → Result E Record) → String → Records → Option Record → Result (StoreError E) Records
  unfolding mutated
  update_entry mutate instance_name m none = err (instance_missing instance_name)
  update_entry mutate instance_name m (some r) = mutated instance_name m (mutate r)

  -- Store.Update
  unfoldable pub update :
      StoreFaults
      → String
      → (Record → Result E Record)
      → Disk
      → Result (StoreError E) (Unit {0}) × Disk
  unfolding update_entry
  update f instance_name mutate =
      transact f (λ m. update_entry mutate instance_name m (lookup instance_name m))

  -- Store.Delete
  unfoldable pub delete : StoreFaults → String → Disk → Result (StoreError E) (Unit {0}) × Disk
  delete f name = transact f (λ m. ok (erase name m))

  -- Store.List
  unfoldable pub list : StoreFaults → Disk → Result (StoreError E) (List Record)
  unfolding all_unlocked sort_records
  list f d = if f.lock then err locked else (all_unlocked f d >>= λ m. ok (sort_records (values m)))

pub data CompleteError : Type 0 where
  generation_inactive receipt_mismatch : CompleteError

-- The first session of a generation, and the sessions without it.
pub data Extracted : Type 0 where
  absent : Extracted
  extracted : Session → List Session → Extracted

abbrev pub behind : Session → Extracted → Extracted
behind s absent = absent
behind s (extracted t l) = extracted t (s ∷ l)

unfoldable pub extract : String → List Session → Extracted
extract generation [] = absent
extract generation (s ∷ l) =
    if s.generation == generation then extracted s l else behind s (extract generation l)

unfoldable pub complete_session :
    String → RetirementReceipt → Record → Extracted → Result CompleteError Record
complete_session generation receipt r absent = err generation_inactive
complete_session generation receipt r (extracted s rest) =
    if not (receipt.generation == generation) || not (receipt.session == s.name)
    then err receipt_mismatch
    else ok (record r {
      sessions = rest;
      retirement_receipts =
          other_receipts receipt.session receipt.local_repo r.retirement_receipts ++ receipt ∷ [];
    })

-- The mutation of CompleteRetirement.
unfoldable pub complete_record : String → RetirementReceipt → Record → Result CompleteError Record
unfolding extract complete_session
complete_record generation receipt r =
    complete_session generation receipt r (extract generation r.sessions)

-- Store.CompleteRetirement
unfoldable pub complete_retirement :
    Json
    → StoreFaults
    → String
    → String
    → RetirementReceipt
    → Disk
    → Result (StoreError CompleteError) (Unit {0}) × Disk
complete_retirement json f instance_name generation receipt =
    update json f instance_name (complete_record generation receipt)
