-- ===== src/State/Sessions/Start.antt =====
-- PrepareSessionStart: what a start keeps of a session that exists, what it makes of one that does
-- not, and that it keeps the record well formed.
use bivouac.Prelude.{
  ℕ, ◌<◌, true, ◌≡◌, refl, ◌≢◌, ◌⊎◌, inl, inr, String, Option, none, some, List, [], ◌∷◌, ◌==◌,
  eq_iff, eq_refl, arith, All, length, find-passes, find-All, keep-All, Bool-cases, ne_of_eq_false,
}
use bivouac.State.Types.{Session, Record, Retirement, Json}
use bivouac.State.Generation.{generation_ok, new_session_generation}
use bivouac.State.Generation.Laws.{new_session_generation_ok}
use bivouac.State.Validate.Spec.{IsSession, IsReceipt, IsRecord}
use bivouac.State.Sessions.{
  new_session, start_found, is_other, retried, find_session, put, put_session,
  find_retirement_receipt, Started, started, refused, resume_start, fresh_start,
  prepare_session_start,
}
use bivouac.State.Sessions.Laws.{find_session-put_session, find-other_receipts}

-- The session that a name finds has that name.
pub name-find_session :
    (r : Record) (name : String) (s : Session) → find_session r name ≡ some s → s.name ≡ name
unfolding find_session
name-find_session r name s h =
    (eq_iff s.name name).0 (find-passes (λ t. t.name == name) r.sessions h)

module _ (r : Record) (name local_repo base repo_name : String) where
  -- Starting a session that exists changes only the fields of its identity: it is refused while a
  -- retirement is pending, and otherwise keeps the attachments, what is known of them, and a
  -- generation that it has; FindSession then gives the returned session, and the receipts stay.
  pub start_keeps :
      (random : Option (List ℕ)) {existing : Session} {r' : Record} {s : Session}
      → find_session r name ≡ some existing
      → prepare_session_start r name local_repo base repo_name random ≡ started r' s
      → (existing.retirement ≡ none)
        × (s.retirement ≡ none)
        × (s.attachments ≡ existing.attachments)
        × (s.attachments_known ≡ existing.attachments_known)
        × ((existing.generation ≡ "") ⊎ (s.generation ≡ existing.generation))
        × (find_session r' name ≡ some s)
        × (r'.retirement_receipts ≡ r.retirement_receipts)
  unfolding resume_start prepare_session_start
  start_keeps random {existing} {r'} {s} found run = ground (
    arith,
    eq_iff existing.generation "",
    name-find_session r name existing found,
    find_session-put_session r s name,
    eq_refl name,
  )

  -- Starting a session that does not exist gives one with no attachments, whose ownership is known,
  -- and no retirement; FindSession gives it, no receipt of an earlier use of the name in this
  -- repository is found any more.
  pub start_fresh :
      (random : Option (List ℕ)) {r' : Record} {s : Session}
      → find_session r name ≡ none
      → prepare_session_start r name local_repo base repo_name random ≡ started r' s
      → (s.attachments ≡ [])
        × (s.attachments_known ≡ true)
        × (s.retirement ≡ none)
        × (find_session r' name ≡ some s)
        × (find_retirement_receipt r' name local_repo ≡ none)
  unfolding prepare_session_start find_retirement_receipt
  start_fresh random {r'} {s} missing run = ground (
    arith,
    eq_iff name name,
    eq_iff local_repo local_repo,
    find_session-put_session r s name,
    find-other_receipts name local_repo name local_repo r.retirement_receipts,
  )

  -- A start hides no receipt of another session or another repository.
  start_other_receipts :
      (random : Option (List ℕ)) {r' : Record} {s : Session} (other repo : String)
      → prepare_session_start r name local_repo base repo_name random ≡ started r' s
      → (other ≢ name) ⊎ (repo ≢ local_repo)
      → find_retirement_receipt r' other repo ≡ find_retirement_receipt r other repo
  unfolding prepare_session_start find_retirement_receipt
  start_other_receipts random {r'} {s} other repo run apart = ground (
    arith,
    eq_iff name other,
    eq_iff local_repo repo,
    find-other_receipts name local_repo other repo r.retirement_receipts,
  )

put-All : (P : Session → Type 0) (s : Session) (l : List Session) → P s → All P l → All P (put s l)
unfolding put
put-All P s [] h k = (h, tt)
put-All P s (t ∷ l) h k = elim (Bool-cases (t.name == s.name)) [
  | inl e ↦ rw e (h, k.1)
  | inr e ↦ rw e (k.0, put-All P s l h k.1)
]

module _ (json : Json) where
  -- A session as a start leaves it: of the old one only the identity has changed.
  retried-IsSession :
      (existing : Session) (generation local_repo base repo_name : String)
      → IsSession json existing
      → existing.retirement ≡ none
      → generation_ok generation ≡ true
      → IsSession json (retried existing generation local_repo base repo_name)
  retried-IsSession existing generation local_repo base repo_name h e g = record {
    generation = λ _. g;
    ownership = h.ownership;
    attachments = h.attachments;
    distinct = h.distinct;
    retirement = rw e tt;
  }

  new_session-IsSession :
      (name local_repo base repo_name generation : String)
      → generation_ok generation ≡ true
      → IsSession json (new_session name local_repo base repo_name generation)
  new_session-IsSession name local_repo base repo_name generation g = record {
    generation = λ _. g;
    ownership = λ h. ground arith;
    attachments = tt;
    distinct = tt;
    retirement = tt;
  }

  put_session-IsRecord :
      (r : Record) (s : Session)
      → IsRecord json r
      → IsSession json s
      → IsRecord json (put_session r s)
  unfolding put_session
  put_session-IsRecord r s h k = record {
    sessions = put-All (IsSession json) s r.sessions k h.sessions;
    receipts = h.receipts;
  }

  find_session-IsSession :
      (r : Record) (name : String) {s : Session}
      → IsRecord json r
      → find_session r name ≡ some s
      → IsSession json s
  unfolding find_session
  find_session-IsSession r name h e = find-All (IsSession json) _ r.sessions h.sessions e

-- The random source, where it does not fail, fills sixteen bytes.
abbrev pub IsRandom : Option (List ℕ) → Type 0
IsRandom none = Unit
IsRandom (some raw) = All (λ b. b < 256) raw × (length raw ≡ 16)

generation_of_random :
    (random : Option (List ℕ)) {g : String}
    → IsRandom random
    → new_session_generation random ≡ some g
    → generation_ok g ≡ true
unfolding new_session_generation
generation_of_random none h e = ground arith
generation_of_random (some raw) {g} h e = new_session_generation_ok raw g h.0 h.1 e

-- What a started session leaves in the record, and the session itself, are well formed.
abbrev pub IsStart : Json → Started → Type 0
IsStart json (started r s) = IsRecord json r × IsSession json s
IsStart json (refused e) = Unit

module _ (json : Json) (r : Record) (h : IsRecord json r) where
  started-IsStart : (s : Session) → IsSession json s → IsStart json (started (put_session r s) s)
  started-IsStart s k = (put_session-IsRecord json r s h k, k)

  resume_start-IsStart :
      (existing : Session) (local_repo base repo_name : String) (fresh : Option String)
      → IsSession json existing
      → ((g : String) → fresh ≡ some g → generation_ok g ≡ true)
      → (o : Option Retirement) → existing.retirement ≡ o
      → IsStart json (resume_start r existing o local_repo base repo_name fresh)
  unfolding resume_start
  resume_start-IsStart existing local_repo base repo_name fresh k g (some retirement) e = tt
  resume_start-IsStart existing local_repo base repo_name none k g none e =
      elim (Bool-cases (is_other existing local_repo base repo_name)) [
        | inl other ↦ rw other tt
        | inr same ↦ rw same (elim (Bool-cases (existing.generation == "")) [
          | inl empty ↦ rw empty tt
          | inr full ↦ rw full (
              started-IsStart _ (
                retried-IsSession json existing existing.generation local_repo base repo_name k e
                  (k.generation (ne_of_eq_false existing.generation "" full))))
        ])
      ]
  resume_start-IsStart existing local_repo base repo_name (some new) k g none e =
      elim (Bool-cases (is_other existing local_repo base repo_name)) [
        | inl other ↦ rw other tt
        | inr same ↦ rw same (elim (Bool-cases (existing.generation == "")) [
          | inl empty ↦ rw empty (
              started-IsStart _
                (retried-IsSession json existing new local_repo base repo_name k e (g new refl)))
          | inr full ↦ rw full (
              started-IsStart _ (
                retried-IsSession json existing existing.generation local_repo base repo_name k e
                  (k.generation (ne_of_eq_false existing.generation "" full))))
        ])
      ]

  fresh_start-IsStart :
      (name local_repo base repo_name : String) (fresh : Option String)
      → ((g : String) → fresh ≡ some g → generation_ok g ≡ true)
      → IsStart json (fresh_start r name local_repo base repo_name fresh)
  unfolding fresh_start
  fresh_start-IsStart name local_repo base repo_name none g = tt
  fresh_start-IsStart name local_repo base repo_name (some new) g =
      let s = new_session-IsSession json name local_repo base repo_name new (g new refl) in
      let put = put_session-IsRecord json r _ h s in
      (record { sessions = put.sessions; receipts = keep-All IsReceipt _ _ put.receipts }, s)

  start_found-IsStart :
      (name local_repo base repo_name : String) (fresh : Option String)
      → ((g : String) → fresh ≡ some g → generation_ok g ≡ true)
      → (o : Option Session) → find_session r name ≡ o
      → IsStart json (start_found r name local_repo base repo_name fresh o)
  unfolding start_found
  start_found-IsStart name local_repo base repo_name fresh g none e =
      fresh_start-IsStart name local_repo base repo_name fresh g
  start_found-IsStart name local_repo base repo_name fresh g (some existing) e =
      resume_start-IsStart existing local_repo base repo_name fresh
        (find_session-IsSession json r name h e) g existing.retirement refl

  -- From a well-formed record, and a random source that gives sixteen bytes or fails,
  -- PrepareSessionStart makes a well-formed record and session, or is refused.
  pub prepare_session_start-IsStart :
      (name local_repo base repo_name : String) (random : Option (List ℕ))
      → IsRandom random
      → IsStart json (prepare_session_start r name local_repo base repo_name random)
  unfolding prepare_session_start
  prepare_session_start-IsStart name local_repo base repo_name random ok =
      start_found-IsStart name local_repo base repo_name (new_session_generation random)
        (λ g e. generation_of_random random ok e) (find_session r name) refl
