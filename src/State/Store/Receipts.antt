-- ===== src/State/Store/Receipts.antt =====
-- CompleteRetirement: exactly the session of the generation goes, and its receipt is found.
use bivouac.Prelude.{
  Bool, ◌&&◌, ◌≡◌, refl, subst, ◌∙◌, ◌≢◌, inl, inr, String, none, some, List, [], ◌∷◌, ◌++◌, ◌==◌,
  eq_iff, arith, All, find, if◌then◌else◌, Bool-cases, ok, err, eq_false, ne_of_eq_false,
}
use bivouac.State.Types.{Session, RetirementReceipt, Record}
use bivouac.State.Sessions.{other_receipts, find_retirement_receipt}
use bivouac.State.Sessions.Laws.{find-other_receipts}
use bivouac.State.Store.{
  generation_inactive, Extracted, absent, extracted, behind, extract, complete_session,
  complete_record,
}

abbrev pub OfOthers : String → List Session → Type 0
OfOthers generation = All (λ s. s.generation ≢ generation)

-- Where a session was extracted: the list, taken apart at it.
abbrev IsExtract : String → List Session → Extracted → Type 0
IsExtract generation l absent = OfOthers generation l
IsExtract generation l (extracted s rest) =
    (before : List Session) × (after : List Session) × (l ≡ before ++ s ∷ after)
    × (rest ≡ before ++ after)
    × (s.generation ≡ generation)
    × OfOthers generation before

behind-IsExtract :
    (generation : String) (s : Session) (l : List Session) (x : Extracted)
    → s.generation ≢ generation
    → IsExtract generation l x
    → IsExtract generation (s ∷ l) (behind s x)
behind-IsExtract generation s l absent h k = (h, k)
behind-IsExtract generation s l (extracted t rest) h (before, after, whole, left, of, others) =
    (s ∷ before, after, rw whole, rw left, of, (h, others))

extract-IsExtract :
    (generation : String) (l : List Session) → IsExtract generation l (extract generation l)
unfolding extract
extract-IsExtract generation [] = tt
extract-IsExtract generation (s ∷ l) = elim (Bool-cases (s.generation == generation)) [
  | inl e ↦ rw e ([], l, refl, refl, (eq_iff s.generation generation).0 e, tt)
  | inr e ↦
      rw e
        (behind-IsExtract generation s l _ (ne_of_eq_false _ _ e) (extract-IsExtract generation l))
]

find-append :
    (p : RetirementReceipt → Bool) (xs ys : List RetirementReceipt)
    → find p (xs ++ ys) ≡ elim (find p xs) [ none ↦ find p ys | some x ↦ some x ]
find-append p [] ys = refl
find-append p (x ∷ xs) ys = ground (arith, find-append p xs ys)

find_receipt-append :
    (receipt : RetirementReceipt) (session repo : String) (l : List RetirementReceipt)
    → find
        (λ t. t.session == session && t.local_repo == repo)
        (other_receipts receipt.session receipt.local_repo l ++ receipt ∷ [])
      ≡ (if receipt.session == session && receipt.local_repo == repo
          then some receipt
          else find (λ t. t.session == session && t.local_repo == repo) l)
find_receipt-append receipt session repo l = ground (
  arith,
  find-append (λ t. t.session == session && t.local_repo == repo)
      (other_receipts receipt.session receipt.local_repo l) (receipt ∷ []),
  find-other_receipts receipt.session receipt.local_repo session repo l,
)

complete_session-ok :
    (generation : String) (receipt : RetirementReceipt) (r : Record) (x : Extracted) {r' : Record}
    → complete_session generation receipt r x ≡ ok r'
    → (s : Session) × (rest : List Session) × (x ≡ extracted s rest)
      × (receipt.generation ≡ generation)
      × (receipt.session ≡ s.name)
      × (r'.sessions ≡ rest)
      × (r'.retirement_receipts
          ≡ other_receipts receipt.session receipt.local_repo r.retirement_receipts ++ receipt ∷ [])
unfolding complete_session
complete_session-ok generation receipt r absent h = absurd (ground arith)
complete_session-ok generation receipt r (extracted s rest) {r'} h = (
  s,
  rest,
  refl,
  ground (arith, eq_iff receipt.generation generation),
  ground (arith, eq_iff receipt.session s.name),
  ground arith,
  ground arith,
)

extract-OfOthers :
    (generation : String) (l : List Session) → OfOthers generation l → extract generation l ≡ absent
unfolding extract
extract-OfOthers generation [] h = refl
extract-OfOthers generation (s ∷ l) h =
    rw (eq_false s.generation generation h.0, extract-OfOthers generation l h.1)

module _ (generation : String) (receipt : RetirementReceipt) (r : Record) where
  -- Where completing a retirement succeeds, the record had a session of the generation, which the
  -- receipt names; exactly the first such session is gone and all others stay, in their order; and
  -- the receipt is the one found for its session and repository, while every other session or
  -- repository has the receipts it had.
  pub complete_record-ok :
      {r' : Record}
      → complete_record generation receipt r ≡ ok r'
      → (s : Session) × (before : List Session) × (after : List Session) × (r.sessions
          ≡ before ++ s ∷ after)
        × (r'.sessions ≡ before ++ after)
        × (s.generation ≡ generation)
        × All (λ t. t.generation ≢ generation) before
        × (receipt.generation ≡ generation)
        × (receipt.session ≡ s.name)
        × ((session repo : String)
            → find_retirement_receipt r' session repo ≡ (
                if receipt.session == session && receipt.local_repo == repo
                then some receipt
                else find_retirement_receipt r session repo))
  unfolding complete_record find_retirement_receipt
  complete_record-ok {r'} h =
      let (s, rest, found, named, owned, left, receipts) =
        complete_session-ok generation receipt r (extract generation r.sessions) h in
      let (before, after, whole, split, of, others) : IsExtract generation r.sessions
          (extracted s rest) =
        subst (IsExtract generation r.sessions) found (extract-IsExtract generation r.sessions) in
      (
        s,
        before,
        after,
        whole,
        left ∙ split,
        of,
        others,
        named,
        owned,
        λ session repo.
            rw receipts (find_receipt-append receipt session repo r.retirement_receipts),
      )

  -- Completing a retirement whose generation no session has any more is refused.
  pub complete_record_inactive :
      OfOthers generation r.sessions
      → complete_record generation receipt r ≡ err generation_inactive
  unfolding complete_record complete_session
  complete_record_inactive h = rw (extract-OfOthers generation r.sessions h)
