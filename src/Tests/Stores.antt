-- ===== src/Tests/Stores.antt =====
-- The laws of the records and their sessions, each applied to a run in which its hypotheses hold.
use bivouac.Prelude.{
  ℕ, true, false, ◌≡◌, ◌≢◌, ◌⊎◌, ◌↔◌, refl, String, none, some, List, [], ◌∷◌, ◌&&◌, ◌++◌, ◌==◌,
  ◌<◌, arith, All, if◌then◌else◌, ok,
}
use bivouac.State.Types.{Session, Record}
use bivouac.State.Generation.{generation_ok, new_session_generation}
use bivouac.State.Generation.Laws.{new_session_generation_ok}
use bivouac.State.Validate.{validate_record_lifecycle, validate_session_lifecycle}
use bivouac.State.Validate.Spec.{IsRecord}
use bivouac.State.Validate.Retired.{validate_record_iff}
use bivouac.State.Disk.{write_file_atomic}
use bivouac.State.Disk.Laws.{published, write_file_atomic_whole}
use bivouac.State.Sessions.{
  find_session, put_session, find_retirement_receipt, started, prepare_session_start,
}
use bivouac.State.Sessions.Laws.{find_session-put_session}
use bivouac.State.Sessions.Start.{IsStart, start_keeps, start_fresh, prepare_session_start-IsStart}
use bivouac.State.Store.{complete_record}
use bivouac.State.Store.Receipts.{complete_record-ok}
use bivouac.Tests.Codec.{codec}
use bivouac.Tests.Machine.{
  table, file_of, works, some_generation, working, retiring, merged, instance_of,
}

abbrev pub before : Record
before = instance_of (working ∷ []) []

abbrev pub after : Record
after = instance_of [] (merged ∷ [])

abbrev sixteen : List ℕ
sixteen = 0 ∷ 1 ∷ 2 ∷ 3 ∷ 4 ∷ 5 ∷ 6 ∷ 7 ∷ 8 ∷ 9 ∷ 10 ∷ 11 ∷ 12 ∷ 13 ∷ 14 ∷ 15 ∷ []

sixteen_bytes : All (λ b. b < 256) sixteen
sixteen_bytes = ground arith

sixteen_generation : new_session_generation (some sixteen) ≡ some some_generation
unfolding new_session_generation
sixteen_generation = refl

new_session_generation_ok_example : generation_ok some_generation ≡ true
new_session_generation_ok_example =
    new_session_generation_ok sixteen some_generation sixteen_bytes refl sixteen_generation

validate_record_iff_example :
    (validate_record_lifecycle (codec table) before ≡ none) ↔ IsRecord (codec table) before
validate_record_iff_example = validate_record_iff (codec table) before

write_file_atomic_whole_example :
    (((write_file_atomic works "new" 384 (file_of "old")).0.file ≡ (file_of "old").file)
      × ((write_file_atomic works "new" 384 (file_of "old")).1 ≡ true))
    ⊎ (((write_file_atomic works "new" 384 (file_of "old")).0.file
          ≡ some (published "new" 384 (file_of "old")))
        × ((write_file_atomic works "new" 384 (file_of "old")).1 ≡ false))
write_file_atomic_whole_example = write_file_atomic_whole works "new" 384 (file_of "old")

find_session-put_session_example : find_session (put_session before retiring) "work" ≡ some retiring
find_session-put_session_example = find_session-put_session before retiring "work"

before-IsRecord : IsRecord (codec table) before
unfolding validate_record_lifecycle validate_session_lifecycle generation_ok
before-IsRecord = (validate_record_iff (codec table) before).0 refl

prepare_session_start-IsStart_example :
    IsStart (codec table) (prepare_session_start before "other" "/repo" "main" "" (some sixteen))
prepare_session_start-IsStart_example =
    prepare_session_start-IsStart (codec table) before before-IsRecord "other" "/repo" "main" ""
      (some sixteen) (sixteen_bytes, refl)

restart : prepare_session_start before "work" "/repo" "" "" (some sixteen) ≡ started before working
unfolding prepare_session_start find_session
restart = refl

working_found : find_session before "work" ≡ some working
unfolding find_session
working_found = refl

start_keeps_example :
    (working.retirement ≡ none)
    × (working.retirement ≡ none)
    × (working.attachments ≡ working.attachments)
    × (working.attachments_known ≡ working.attachments_known)
    × ((working.generation ≡ "") ⊎ (working.generation ≡ working.generation))
    × (find_session before "work" ≡ some working)
    × (before.retirement_receipts ≡ before.retirement_receipts)
start_keeps_example =
    start_keeps before "work" "/repo" "" "" (some sixteen) {existing = working} {r' = before}
      {s = working} working_found restart

abbrev again : Session
again = record working { base = "main"; repo_name = "r" }

started_again :
    prepare_session_start after "work" "/repo" "main" "r" (some sixteen)
    ≡ started (instance_of (again ∷ []) []) again
unfolding prepare_session_start new_session_generation
started_again = refl

nothing_found : find_session after "work" ≡ none
unfolding find_session
nothing_found = refl

start_fresh_example :
    (again.attachments ≡ [])
    × (again.attachments_known ≡ true)
    × (again.retirement ≡ none)
    × (find_session (instance_of (again ∷ []) []) "work" ≡ some again)
    × (find_retirement_receipt (instance_of (again ∷ []) []) "work" "/repo" ≡ none)
start_fresh_example =
    start_fresh after "work" "/repo" "main" "r" (some sixteen) {r' = instance_of (again ∷ []) []}
      {s = again} nothing_found started_again

completed : complete_record some_generation merged before ≡ ok after
unfolding complete_record
completed = refl

complete_record-ok_example :
    (s : Session) × (l : List Session) × (k : List Session) × (before.sessions ≡ l ++ s ∷ k)
    × (after.sessions ≡ l ++ k)
    × (s.generation ≡ some_generation)
    × All (λ t. t.generation ≢ some_generation) l
    × (merged.generation ≡ some_generation)
    × (merged.session ≡ s.name)
    × ((session repo : String)
        → find_retirement_receipt after session repo ≡ (
            if merged.session == session && merged.local_repo == repo
            then some merged
            else find_retirement_receipt before session repo))
complete_record-ok_example = complete_record-ok some_generation merged before {r' = after} completed
