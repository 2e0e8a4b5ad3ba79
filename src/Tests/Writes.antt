-- ===== src/Tests/Writes.antt =====
-- The laws of the writes to the state file, each applied to a run in which its hypotheses hold.
use native.Mathlib.Decide.{ℕ_discrete}
use bivouac.Prelude.{true, ◌≡◌, ◌≢◌, ◌⊎◌, refl, none, some, List, [], ◌∷◌, All, Result, ok, ◌>>=◌}
use bivouac.State.Types.{Record, Records}
use bivouac.State.Generation.{generation_ok}
use bivouac.State.Validate.{validate_record_lifecycle, validate_session_lifecycle}
use bivouac.State.Validate.Spec.{IsRecord}
use bivouac.State.Disk.{write_file_atomic}
use bivouac.State.Entries.{lookup, insert, erase, values}
use bivouac.State.Settle.{settle, settle_record}
use bivouac.State.Store.{
  StoreError, CompleteError, StoreFaults, all_unlocked, get, put, delete, update, read_file,
  decoded, check_records, transact, complete_record,
}
use bivouac.State.Store.Atomic.{Left, unsynced, transact_outcome, transact-readable}
use bivouac.State.Store.Access.{get-update, get-put, get-delete}
use bivouac.State.Store.Refines.{
  View, StoreOp, delete_op, put_op, run_ops, Shows, AreSteps, run_ops-AreSteps,
}
use bivouac.Tests.Codec.{codec, codec-ReadsBack}
use bivouac.Tests.Machine.{table, file_of, no_faults, some_generation, merged}
use bivouac.Tests.Stores.{before, after}

abbrev files : Records
files = ("box", before) ∷ []

read_plain : read_file (codec table) {E = CompleteError} (file_of "plain").file ≡ ok files
unfolding read_file codec lookup validate_record_lifecycle validate_session_lifecycle generation_ok
    decoded check_records values
read_plain = refl

-- The session has gone, and the instance has the receipt.
abbrev finish_it : Records → Result (StoreError CompleteError) Records
finish_it m = ok (("box", after) ∷ [])

transact_outcome_example :
    ((((transact (codec table) no_faults finish_it (file_of "plain")).0 ≢ ok tt)
        × ((transact (codec table) no_faults finish_it (file_of "plain")).1.file
            ≡ (file_of "plain").file))
      ⊎ ((m : Records) × ((all_unlocked (codec table) no_faults (file_of "plain") >>= finish_it)
            ≡ ok m)
          × Left
              (codec table)
              CompleteError
              m
              (transact (codec table) no_faults finish_it (file_of "plain")).1
          × (((transact (codec table) no_faults finish_it (file_of "plain")).0 ≡ ok tt)
              ⊎ (unsynced no_faults ≡ true))))
transact_outcome_example =
    transact_outcome (codec table) (codec-ReadsBack table) CompleteError no_faults finish_it
      (file_of "plain")

transact-readable_example :
    (n : Records) × (read_file
        (codec table)
        {E = CompleteError}
        (transact (codec table) no_faults finish_it (file_of "plain")).1.file
      ≡ ok n)
    × All (IsRecord (codec table)) (values n)
transact-readable_example =
    transact-readable (codec table) (codec-ReadsBack table) CompleteError no_faults finish_it
      (file_of "plain") {m = files} read_plain

update_done_run :
    (update
      (codec table)
      no_faults
      "box"
      (complete_record some_generation merged)
      (file_of "plain")).0
    ≡ ok tt
unfolding update transact read_file codec lookup insert values settle complete_record
    validate_record_lifecycle validate_session_lifecycle generation_ok decoded check_records
    write_file_atomic ℕ_discrete
update_done_run = refl

get-update_example :
    (m : Records) × (r : Record) × (r' : Record) × (all_unlocked
        (codec table)
        {E = CompleteError}
        no_faults
        (file_of "plain")
      ≡ ok m)
    × (lookup "box" m ≡ some r)
    × (complete_record some_generation merged r ≡ ok r')
    × (get
          (codec table)
          {E = CompleteError}
          no_faults
          (update
            (codec table)
            no_faults
            "box"
            (complete_record some_generation merged)
            (file_of "plain")).1
          "box"
        ≡ ok (some (settle_record (codec table).indented r')))
get-update_example =
    get-update (codec table) (codec-ReadsBack table) CompleteError no_faults "box"
      (complete_record some_generation merged) (file_of "plain") no_faults "box" update_done_run
      refl refl

put_run : (put (codec table) {E = CompleteError} no_faults before (file_of "retired")).0 ≡ ok tt
unfolding put transact read_file codec lookup insert values settle validate_record_lifecycle
    validate_session_lifecycle generation_ok decoded check_records write_file_atomic ℕ_discrete
put_run = refl

get-put_example :
    (m : Records) × (all_unlocked (codec table) {E = CompleteError} no_faults (file_of "retired")
      ≡ ok m)
    × (get
          (codec table)
          {E = CompleteError}
          no_faults
          (put (codec table) {E = CompleteError} no_faults before (file_of "retired")).1
          "box"
        ≡ ok (some (settle_record (codec table).indented before)))
get-put_example =
    get-put (codec table) (codec-ReadsBack table) CompleteError no_faults before (file_of "retired")
      no_faults "box" put_run refl refl

delete_run : (delete (codec table) {E = CompleteError} no_faults "box" (file_of "plain")).0 ≡ ok tt
unfolding delete transact read_file codec lookup erase values settle validate_record_lifecycle
    validate_session_lifecycle generation_ok decoded check_records write_file_atomic ℕ_discrete
delete_run = refl

get-delete_example :
    (m : Records) × (all_unlocked (codec table) {E = CompleteError} no_faults (file_of "plain")
      ≡ ok m)
    × (get
          (codec table)
          {E = CompleteError}
          no_faults
          (delete (codec table) {E = CompleteError} no_faults "box" (file_of "plain")).1
          "box"
        ≡ ok none)
get-delete_example =
    get-delete (codec table) (codec-ReadsBack table) CompleteError no_faults "box" (file_of "plain")
      no_faults "box" delete_run refl refl

abbrev writes : List (StoreFaults × StoreOp CompleteError)
writes = (no_faults, delete_op "box") ∷ (no_faults, put_op after) ∷ []

abbrev plain_view : View
plain_view = λ key. lookup key files

run_ops-AreSteps_example :
    (g : View) × AreSteps
      (codec table)
      (codec-ReadsBack table)
      CompleteError
      writes
      (file_of "plain")
      plain_view
      g
    × Shows
        (codec table)
        (codec-ReadsBack table)
        CompleteError
        (run_ops (codec table) writes (file_of "plain"))
        g
run_ops-AreSteps_example =
    run_ops-AreSteps (codec table) (codec-ReadsBack table) CompleteError writes (file_of "plain")
      plain_view (files, read_plain, refl)
