-- ===== src/Retirement/Retire/Completion.antt =====
-- CompleteRetirement as the last step of RetireSession: its receipt is in the state file.
use mathlib.Core.Option
use bivouac.Prelude.{◌≡◌, refl, ◌∙◌, ap, String, some, eq_refl, ok}
use bivouac.State.Types.{RetirementReceipt, Record, Records, Json}
use bivouac.State.Entries.{lookup, insert, lookup-insert}
use bivouac.State.Settle.{settle, settle_record, lookup-settle, ReadsBack}
use bivouac.State.Sessions.{find_retirement_receipt}
use bivouac.State.Disk.{Disk}
use bivouac.State.Store.{
  StoreFaults, CompleteError, read_file, complete_record, complete_retirement,
}
use bivouac.State.Store.Atomic.{Left, read_file_any}
use bivouac.State.Store.Access.{update_done}
use bivouac.State.Store.Receipts.{complete_record-ok}
use bivouac.Retirement.Types.{MutateError}

-- The file can be read, and its record of the instance has the receipt for the session and the
-- repository that the receipt names.
abbrev pub HasReceipt : Json → String → RetirementReceipt → Disk → Type 0
HasReceipt json instance_name receipt d =
    (m : Records) × (r : Record) × (read_file json {E = MutateError} d.file ≡ ok m)
    × (lookup instance_name m ≡ some r)
    × (find_retirement_receipt r receipt.session receipt.local_repo ≡ some receipt)

module _ (json : Json) (laws : ReadsBack json) (instance_name generation : String)
    (receipt : RetirementReceipt) where
  complete_record-receipt :
      (r r' : Record)
      → complete_record generation receipt r ≡ ok r'
      → find_retirement_receipt (settle_record json.indented r') receipt.session receipt.local_repo
        ≡ some receipt
  unfolding settle_record find_retirement_receipt
  complete_record-receipt r r' h =
      let (_, _, _, _, _, _, _, _, _, finds) = complete_record-ok generation receipt r h in
      finds receipt.session receipt.local_repo
      ∙ rw (eq_refl receipt.session, eq_refl receipt.local_repo) refl

  pub Left-HasReceipt :
      (m : Records) (r r' : Record) (d : Disk)
      → complete_record generation receipt r ≡ ok r'
      → Left json CompleteError (insert instance_name r' m) d
      → HasReceipt json instance_name receipt d
  Left-HasReceipt m r r' d made left = (
    settle json.indented (insert instance_name r' m),
    settle_record json.indented r',
    read_file_any json d.file (settle json.indented (insert instance_name r' m)) left,
    lookup-settle json.indented instance_name (insert instance_name r' m)
        ∙ ap (Option.map (settle_record json.indented)) {y = some r'}
            (lookup-insert instance_name instance_name r' m ∙ rw (eq_refl instance_name) refl),
    complete_record-receipt r r' made,
  )

  pub complete_retirement-HasReceipt :
      (f : StoreFaults) (d : Disk)
      → (complete_retirement json f instance_name generation receipt d).0 ≡ ok tt
      → HasReceipt json instance_name receipt
          (complete_retirement json f instance_name generation receipt d).1
  unfolding complete_retirement
  complete_retirement-HasReceipt f d good =
      let (m, r, r', read, found, made, left) =
        update_done json laws CompleteError f instance_name (complete_record generation receipt) d
          good in
      Left-HasReceipt m r r' (complete_retirement json f instance_name generation receipt d).1 made
        left
