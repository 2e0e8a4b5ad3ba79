-- ===== src/State/Settle.antt =====
-- What a round trip through the state file changes: json.MarshalIndent indents a json.RawMessage as it
-- does the rest, and an empty one is written as `null` and read back as those four bytes. Only the
-- field Data of OwnershipProof is of that type.
use mathlib.Core.Option
use bivouac.Prelude.{
  ◌≡◌, ◌≢◌, true, refl, String, some, List, [], ◌∷◌, ◌==◌, eq_false, arith, All, map, find,
  if◌then◌else◌,
}
use bivouac.State.Types.{OwnershipProof, HerdrAttachment, Session, Record, Records, Json}
use bivouac.State.Validate.{is_empty}
use bivouac.State.Validate.Spec.{IsAttachment, HasFreshIds, IsSession, IsRecord}
use bivouac.State.Entries.{lookup, values}
use bivouac.State.Sessions.{find_session}

module _ (indented : String → String) where
  unfoldable pub settle_proof : OwnershipProof → OwnershipProof
  settle_proof p = record p { payload = if is_empty p.payload then "null" else indented p.payload }

  unfoldable pub settle_attachment : HerdrAttachment → HerdrAttachment
  unfolding settle_proof
  settle_attachment a = record a { proof = settle_proof a.proof }

  unfoldable pub settle_session : Session → Session
  unfolding settle_attachment
  settle_session s = record s { attachments = map settle_attachment s.attachments }

  unfoldable pub settle_record : Record → Record
  unfolding settle_session
  settle_record r = record r { sessions = map settle_session r.sessions }

  -- The records as the state file gives them back.
  unfoldable pub settle : Records → Records
  unfolding settle_record
  settle [] = []
  settle ((k, r) ∷ m) = (k, settle_record r) ∷ settle m

-- What the stores rely on of encoding/json: text that was made of records gives them back, up to the space
-- in their raw messages, which stay valid and not empty.
pub record ReadsBack (json : Json) : Type 0 where
  pub reads_back :
      (m : Records) (text : String)
      → json.marshal m ≡ some text
      → json.unmarshal text ≡ some (some (settle json.indented m))
  pub stays_valid :
      (payload : String)
      → payload ≢ ""
      → json.valid payload ≡ true
      → (json.indented payload ≢ "") × (json.valid (json.indented payload) ≡ true)

pub lookup-settle :
    (indented : String → String) (k : String) (m : Records)
    → lookup k (settle indented m) ≡ Option.map (settle_record indented) (lookup k m)
unfolding lookup settle
lookup-settle indented k [] = refl
lookup-settle indented k ((j, r) ∷ m) = ground (arith, lookup-settle indented k m)

pub find_session-settle_record :
    (indented : String → String) (name : String) (r : Record)
    → find_session (settle_record indented r) name
      ≡ Option.map (settle_session indented) (find_session r name)
unfolding find_session settle_record
find_session-settle_record indented name r = go r.sessions
  where
    go :
        (l : List Session)
        → find (λ s. s.name == name) (map (settle_session indented) l)
          ≡ Option.map (settle_session indented) (find (λ s. s.name == name) l)
    go [] = refl
    go (s ∷ l) = ground (arith, go l)

module _ (json : Json) (laws : ReadsBack json) where
  settle_attachment-IsAttachment :
      (a : HerdrAttachment)
      → IsAttachment json a
      → IsAttachment json (settle_attachment json.indented a)
  unfolding settle_attachment
  settle_attachment-IsAttachment a h = record {
    identified = h.identified;
    addressed = h.addressed;
    handled = h.handled;
    proved = λ owned past.
        let (scheme, payload, valid) = h.proved owned past in
        let (kept, still) = laws.stays_valid a.proof.payload payload valid in
        rw (eq_false a.proof.payload "" payload) (scheme, kept, still);
  }

  settle-All :
      (l : List HerdrAttachment)
      → All (IsAttachment json) l
      → All (IsAttachment json) (map (settle_attachment json.indented) l)
  settle-All [] h = tt
  settle-All (a ∷ l) h = (settle_attachment-IsAttachment a h.0, settle-All l h.1)

  settle-HasFreshIds :
      (seen : List String) (l : List HerdrAttachment)
      → HasFreshIds seen l
      → HasFreshIds seen (map (settle_attachment json.indented) l)
  unfolding settle_attachment
  settle-HasFreshIds seen [] h = tt
  settle-HasFreshIds seen (a ∷ l) h = (h.0, settle-HasFreshIds (a.id ∷ seen) l h.1)

  settle_session-IsSession :
      (s : Session) → IsSession json s → IsSession json (settle_session json.indented s)
  unfolding settle_session
  settle_session-IsSession s h = record {
    generation = h.generation;
    ownership = λ unknown. rw (h.ownership unknown);
    attachments = settle-All s.attachments h.attachments;
    distinct = settle-HasFreshIds [] s.attachments h.distinct;
    retirement = h.retirement;
  }

  settle_sessions :
      (l : List Session)
      → All (IsSession json) l
      → All (IsSession json) (map (settle_session json.indented) l)
  settle_sessions [] h = tt
  settle_sessions (s ∷ l) h = (settle_session-IsSession s h.0, settle_sessions l h.1)

  pub settle_record-IsRecord :
      (r : Record) → IsRecord json r → IsRecord json (settle_record json.indented r)
  unfolding settle_record
  settle_record-IsRecord r h = record {
    sessions = settle_sessions r.sessions h.sessions;
    receipts = h.receipts;
  }

  pub settle-All_records :
      (m : Records)
      → All (IsRecord json) (values m)
      → All (IsRecord json) (values (settle json.indented m))
  unfolding values settle
  settle-All_records [] h = tt
  settle-All_records ((k, r) ∷ m) h = (settle_record-IsRecord r h.0, settle-All_records m h.1)
