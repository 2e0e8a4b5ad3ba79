-- ===== src/State/Validate/Retired.antt =====
-- The validation of a retirement, of a session and of a whole record decides its contract.
use bivouac.Prelude.{
  ◌≡◌, refl, ◌↔◌, Option, none, some, [], arith, eq_iff, eq_false, ne_of_eq_false,
}
use bivouac.State.Types.{Effects, Retirement, RetirementReceipt, Session, Record, Json}
use bivouac.State.Validate.{
  check_acceptance, check_effects, check_journal, validate_retirement, check_retirement,
  validate_receipt, validate_session_lifecycle, validate_record_lifecycle, entries,
}
use bivouac.State.Validate.Spec.{
  IsAcceptance, IsJournal, IsRetirement, IsRetirable, IsSession, IsReceipt, IsRecord,
}
use bivouac.State.Validate.Sound.{
  orelse_split, orelse_join, refuse_split, refuse_join, each_sound, each_complete,
  check_attachments_sound, check_attachments_complete, check_effects_sound, check_effects_complete,
  check_acceptance_sound, check_acceptance_complete,
}

check_journal-sound :
    (o : Option Effects) → check_journal o ≡ none → check_effects (entries o) ≡ none → IsJournal o
unfolding check_journal
check_journal-sound none h k = ground arith
check_journal-sound (some l) h k = check_effects_sound l k

check_journal_complete :
    (o : Option Effects)
    → IsJournal o
    → (check_journal o ≡ none) × (check_effects (entries o) ≡ none)
unfolding check_journal
check_journal_complete none h = absurd h
check_journal_complete (some l) h = (refl, check_effects_complete l h)

validate_retirement_sound : (r : Retirement) → validate_retirement r ≡ none → IsRetirement r
unfolding validate_retirement
validate_retirement_sound r h = ground (
  arith,
  eq_iff r.destination.local_repo "",
  eq_iff r.destination.git_dir "",
  eq_iff r.destination.branch "",
  each_sound check_acceptance IsAcceptance check_acceptance_sound r.accepted,
  check_journal-sound r.effects,
)

validate_retirement_complete : (r : Retirement) → IsRetirement r → validate_retirement r ≡ none
unfolding validate_retirement
validate_retirement_complete r h = ground (
  arith,
  eq_iff r.destination.local_repo "",
  eq_iff r.destination.git_dir "",
  eq_iff r.destination.branch "",
  each_complete check_acceptance IsAcceptance check_acceptance_complete r.accepted,
  check_journal_complete r.effects,
)

check_retirement_sound :
    (s : Session) (o : Option Retirement) → check_retirement s o ≡ none → IsRetirable s.generation o
unfolding check_retirement
check_retirement_sound s none h = tt
check_retirement_sound s (some r) h =
    let (named, rest) = orelse_split _ _ h in
    (ne_of_eq_false s.generation "" (refuse_split _ _ named), validate_retirement_sound r rest)

check_retirement_complete :
    (s : Session) (o : Option Retirement) → IsRetirable s.generation o → check_retirement s o ≡ none
unfolding check_retirement
check_retirement_complete s none h = refl
check_retirement_complete s (some r) h =
    orelse_join _ _ (refuse_join _ _ (eq_false s.generation "" h.0))
      (validate_retirement_complete r h.1)

validate_receipt_sound : (r : RetirementReceipt) → validate_receipt r ≡ none → IsReceipt r
unfolding validate_receipt
validate_receipt_sound r h = ground (arith, eq_iff r.session "", eq_iff r.local_repo "")

validate_receipt_complete : (r : RetirementReceipt) → IsReceipt r → validate_receipt r ≡ none
unfolding validate_receipt
validate_receipt_complete r h = ground (arith, eq_iff r.session "", eq_iff r.local_repo "")

module _ (json : Json) where
  pub validate_session_sound :
      (s : Session) → validate_session_lifecycle json s ≡ none → IsSession json s
  unfolding validate_session_lifecycle
  validate_session_sound s h = ground (
    arith,
    eq_iff s.generation "",
    check_attachments_sound json [] s.attachments,
    check_retirement_sound s s.retirement,
  )

  pub validate_session_complete :
      (s : Session) → IsSession json s → validate_session_lifecycle json s ≡ none
  unfolding validate_session_lifecycle
  validate_session_complete s h = ground (
    arith,
    eq_iff s.generation "",
    check_attachments_complete json [] s.attachments,
    check_retirement_complete s s.retirement,
  )

  validate_record_sound : (r : Record) → validate_record_lifecycle json r ≡ none → IsRecord json r
  unfolding validate_record_lifecycle
  validate_record_sound r h =
      let (sessions, receipts) = orelse_split _ _ h in
      record {
        sessions = each_sound _ (IsSession json) validate_session_sound r.sessions sessions;
        receipts = each_sound _ IsReceipt validate_receipt_sound r.retirement_receipts receipts;
      }

  validate_record_complete :
      (r : Record) → IsRecord json r → validate_record_lifecycle json r ≡ none
  unfolding validate_record_lifecycle
  validate_record_complete r h =
      orelse_join _ _
        (each_complete _ (IsSession json) validate_session_complete r.sessions h.sessions)
        (each_complete _ IsReceipt validate_receipt_complete r.retirement_receipts h.receipts)

  -- The validation of a record, which every load and save of the state file makes, passes exactly
  -- the records whose sessions and receipts are well formed: attachments with an address, a handle
  -- and a proof where their kind, phase and owner ask for it and with distinct identities,
  -- retirements with a known operation, phase and effects and with the evidence of their phase, and
  -- whole receipts.
  pub validate_record_iff :
      (r : Record) → (validate_record_lifecycle json r ≡ none) ↔ IsRecord json r
  validate_record_iff r = (validate_record_sound r, validate_record_complete r)
