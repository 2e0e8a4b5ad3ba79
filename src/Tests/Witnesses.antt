-- ===== src/Tests/Witnesses.antt =====
-- The laws of a retirement, each applied to a run in which its hypotheses hold.
use bivouac.Prelude.{true, false, ◌≡◌, ◌≢◌, refl, none, some, [], ◌∷◌, ne_of_eq_false, ok}
use bivouac.State.Types.{RetirementPhase}
use bivouac.State.Store.{update, read_file, decoded, check_records}
use bivouac.State.Entries.{lookup, values}
use bivouac.State.Validate.{validate_record_lifecycle, validate_session_lifecycle}
use bivouac.State.Generation.{generation_ok}
use bivouac.Retirement.Types.{RetirementResult, MutateError}
use bivouac.Retirement.Journal.{herdr_key, update_sessions, complete_attachment}
use bivouac.Retirement.Active.{IsActive}
use bivouac.Retirement.Retire.{retire_session}
use bivouac.Retirement.Retire.Accounts.{IsAccounted}
use bivouac.Retirement.Retire.Kept.{retire_session-IsAccounted}
use bivouac.Retirement.Retire.Wedged.{complete_attachment-refused}
use bivouac.Tests.Codec.{codec, codec-ReadsBack}
use bivouac.Tests.Machine.{
  start, table, merge_it, file_of, calm, some_generation, no_faults, instance_of, stuck,
  never_created,
}

abbrev merged_result : RetirementResult
merged_result = record {
  completed = true;
  already_completed = false;
  phase = RetirementPhase.removing;
  signed = "c3" ∷ [];
  issues = none;
}

IsActive-before : IsActive (codec table) "box" some_generation (file_of "retiring")
unfolding read_file codec lookup validate_record_lifecycle validate_session_lifecycle generation_ok
    decoded check_records values
IsActive-before = (_, _, refl, refl, refl)

some_generation_given : some_generation ≢ ""
some_generation_given = ne_of_eq_false some_generation "" refl

retire_session-IsAccounted_example :
    IsAccounted
      (codec table)
      (codec-ReadsBack table)
      "box"
      some_generation
      (retire_session (codec table) {env = calm} merge_it "box" "work" (start "retiring")).1.disk
retire_session-IsAccounted_example =
    retire_session-IsAccounted (codec table) (codec-ReadsBack table) "box" some_generation merge_it
      "work" {env = calm} (start "retiring") some_generation_given IsActive-before

stuck_file :
    read_file (codec table) {E = MutateError} (file_of "stuck").file
    ≡ ok (("box", instance_of (stuck ∷ []) []) ∷ [])
unfolding read_file codec lookup validate_record_lifecycle validate_session_lifecycle generation_ok
    decoded check_records values
stuck_file = refl

stuck_entry :
    lookup "box" (("box", instance_of (stuck ∷ []) []) ∷ []) ≡ some (instance_of (stuck ∷ []) [])
unfolding lookup
stuck_entry = refl

complete_attachment-refused_example :
    ((update
        (codec table)
        no_faults
        "box"
        (update_sessions some_generation (complete_attachment "a1" (herdr_key "a1")))
        (file_of "stuck")).0
      ≢ ok tt)
    × ((update
          (codec table)
          no_faults
          "box"
          (update_sessions some_generation (complete_attachment "a1" (herdr_key "a1")))
          (file_of "stuck")).1.file
        ≡ (file_of "stuck").file)
complete_attachment-refused_example =
    complete_attachment-refused (codec table) (codec-ReadsBack table) "box" some_generation "a1"
      (herdr_key "a1") no_faults (file_of "stuck") {m = ("box", instance_of (stuck ∷ []) []) ∷ []}
      {r = instance_of (stuck ∷ []) []} {s = stuck} {a = never_created} stuck_file stuck_entry refl
      refl refl
