-- ===== src/Retirement/Retire/Wedged.antt =====
-- A Herdr workspace whose creation failed in phase closing: its attachment has no handle, and the
-- write that would mark it closed is refused.
use mathlib.Core.Option
use bivouac.Prelude.{
  ◌≡◌, refl, sym, ◌∙◌, ap, subst, ◌≢◌, inl, inr, String, Option, none, some, List, [], ◌∷◌, ◌==◌,
  eq_refl, arith, All, map, find, Result, ok, err, Bool-cases,
}
use bivouac.State.Types.{
  HerdrAttachment, AttachmentPhase, done, Retirement, Session, Record, Records, Json,
}
use bivouac.State.Entries.{lookup, insert, lookup-insert, lookup-All}
use bivouac.State.Validate.Spec.{IsAttachment, IsSession, IsRecord}
use bivouac.State.Settle.{
  settle, settle_attachment, settle_session, settle_record, lookup-settle, ReadsBack,
}
use bivouac.State.Disk.{Disk}
use bivouac.State.Store.{StoreFaults, read_file, update}
use bivouac.State.Store.Atomic.{Left, ok-injective, read_file-valid}
use bivouac.State.Store.Access.{update_outcome, update_done}
use bivouac.Retirement.Types.{MutateError}
use bivouac.Retirement.Journal.{
  close_attachment, complete_attachment, set_effect, with_retirement, on_retirement, in_generation,
  with_sessions, update_sessions,
}
use bivouac.Retirement.Active.{with_head-ok, with_tail-ok}

module _ (json : Json) where
  -- Attachments that are valid after the one with an identity is closed: it has a handle.
  closed-handled :
      (id : String) (l : List HerdrAttachment) {a : HerdrAttachment}
      → All
          (IsAttachment json)
          (map (settle_attachment json.indented) (map (close_attachment id) l))
      → find (λ a. a.id == id) l ≡ some a
      → a.handle ≢ ""
  unfolding settle_attachment close_attachment
  closed-handled id [] h e = absurd (ground arith)
  closed-handled id (b ∷ l) {a} h e = elim (Bool-cases (b.id == id)) [
    | inl own ↦
        let same : b ≡ a = ground arith in
        let valid : IsAttachment json
            (settle_attachment json.indented (record b { phase = AttachmentPhase.closed })) =
          rw own at h.0 in
        λ bare. valid.handled (ap (λ x. x.handle) same ∙ bare)
    | inr other ↦ closed-handled id l {a = a} h.1 (rw other at e)
  ]

with_retirement-attachments :
    (change : Retirement → Result MutateError Retirement) (s s' : Session)
    → with_retirement change s ≡ ok s'
    → s'.attachments ≡ s.attachments
unfolding with_retirement
with_retirement-attachments change s s' h = go s.retirement h
  where
    go : (o : Option Retirement) → on_retirement change s o ≡ ok s' → s'.attachments ≡ s.attachments
    go none h' = absurd (ground arith)
    go (some r) h' = ground arith

complete_attachment-attachments :
    (id key : String) (s s' : Session)
    → complete_attachment id key s ≡ ok s'
    → s'.attachments ≡ map (close_attachment id) s.attachments
unfolding complete_attachment
complete_attachment-attachments id key s s' h =
    with_retirement-attachments (set_effect key done)
      (record s { attachments = map (close_attachment id) s.attachments }) s' h

-- The session that a mutation is applied to is among the sessions afterwards.
in_generation-All :
    {P : Session → Type 0} (g : String) (change : Session → Result MutateError Session)
    (l l' : List Session) {s : Session}
    → find (λ t. t.generation == g) l ≡ some s
    → in_generation g change l ≡ ok l'
    → All P l'
    → (s' : Session) × (change s ≡ ok s') × P s'
unfolding in_generation
in_generation-All g change [] l' at e h = absurd (ground arith)
in_generation-All {P} g change (t ∷ l) l' {s} at e h = elim (Bool-cases (t.generation == g)) [
  | inl own ↦
      let (s', made, same) = with_head-ok l (change t) l' (rw own at e) in
      let here : t ≡ s = ground arith in (s', ap change (sym here) ∙ made, (subst (All P) same h).0)
  | inr other ↦
      let (k, made, same) = with_tail-ok t (in_generation g change l) l' (rw other at e) in
      in_generation-All g change l k {s = s} (rw other at at) made (subst (All P) same h).1
]

with_sessions-ok :
    (r r' : Record) (c : Result MutateError (List Session))
    → with_sessions r c ≡ ok r'
    → (c ≡ ok r'.sessions)
unfolding with_sessions
with_sessions-ok r r' (ok l) h = ground arith
with_sessions-ok r r' (err e) h = absurd (ground arith)

All-settled :
    (json : Json) (l : List Session)
    → All (IsSession json) (map (settle_session json.indented) l)
    → All (λ s. IsSession json (settle_session json.indented s)) l
All-settled json [] h = tt
All-settled json (s ∷ l) h = (h.0, All-settled json l h.1)

module _ (json : Json) (laws : ReadsBack json) (instance_name generation id key : String) where
  update_sessions-handled :
      (r r' : Record) {s : Session} {a : HerdrAttachment}
      → find (λ t. t.generation == generation) r.sessions ≡ some s
      → find (λ a. a.id == id) s.attachments ≡ some a
      → update_sessions generation (complete_attachment id key) r ≡ ok r'
      → IsRecord json (settle_record json.indented r')
      → a.handle ≢ ""
  unfolding update_sessions settle_record settle_session
  update_sessions-handled r r' {s} {a} at here made valid =
      let (s', changed, fine) =
        in_generation-All {P = λ s. IsSession json (settle_session json.indented s)} generation
          (complete_attachment id key) r.sessions r'.sessions {s = s} at
          (with_sessions-ok r r' _ made) (All-settled json r'.sessions valid.sessions) in
      closed-handled json id s.attachments {a = a}
        (subst (λ l. All (IsAttachment json) (map (settle_attachment json.indented) l))
          (complete_attachment-attachments id key s s' changed) fine.attachments)
        here

  Left-handled :
      (m : Records) (r r' : Record) (d : Disk) {s : Session} {a : HerdrAttachment}
      → Left json MutateError (insert instance_name r' m) d
      → find (λ t. t.generation == generation) r.sessions ≡ some s
      → find (λ a. a.id == id) s.attachments ≡ some a
      → update_sessions generation (complete_attachment id key) r ≡ ok r'
      → a.handle ≢ ""
  Left-handled m r r' d {s} {a} left at here made =
      update_sessions-handled r r' {s = s} {a = a} at here made (
        lookup-All (IsRecord json) instance_name (settle json.indented (insert instance_name r' m))
          (read_file-valid json d.file (settle json.indented (insert instance_name r' m)) left)
          (lookup-settle json.indented instance_name (insert instance_name r' m)
            ∙ ap (Option.map (settle_record json.indented)) {y = some r'}
                (lookup-insert instance_name instance_name r' m ∙ rw (eq_refl instance_name) refl)))

  -- The write at the end of closing an attachment, on a state file in which the first session of the
  -- generation has an attachment of that identity, and the first such has no handle: whatever else
  -- works or fails, the write returns an error, and the file stays as it was.
  pub complete_attachment-refused :
      (f : StoreFaults) (d : Disk) {m : Records} {r : Record} {s : Session} {a : HerdrAttachment}
      → read_file json {E = MutateError} d.file ≡ ok m
      → lookup instance_name m ≡ some r
      → find (λ t. t.generation == generation) r.sessions ≡ some s
      → find (λ a. a.id == id) s.attachments ≡ some a
      → a.handle ≡ ""
      → let (res, d') =
          update json f instance_name (update_sessions generation (complete_attachment id key)) d in
        (res ≢ ok tt) × (d'.file ≡ d.file)
  complete_attachment-refused f d {m} {r} {s} {a} read found at here bare = (
    λ good.
        let (m', r', made, read', found', changed, left) =
          update_done json laws MutateError f instance_name
            (update_sessions generation (complete_attachment id key)) d good in
        never m' r' made read' found' changed left,
    elim (update_outcome json laws MutateError f instance_name
        (update_sessions generation (complete_attachment id key)) d) [
          | inl same ↦ same
          | inr (m', r', made, read', found', changed, left) ↦
              absurd (never m' r' made read' found' changed left)
        ],
  )
    where
      d' : Disk
      d' =
          (update json f instance_name (update_sessions generation (complete_attachment id key))
            d).1

      never :
          (m' : Records) (r' made : Record)
          → read_file json {E = MutateError} d.file ≡ ok m'
          → lookup instance_name m' ≡ some r'
          → update_sessions generation (complete_attachment id key) r' ≡ ok made
          → Left json MutateError (insert instance_name made m') d'
          → ⊥
      never m' r' made read' found' changed left =
          let same : m ≡ m' = ok-injective m m' (sym read ∙ read') in
          let entry : r ≡ r' = cc (found, found', same) in
          Left-handled m' r' made d' {s = s} {a = a} left
            (ap (λ x. find (λ t. t.generation == generation) x.sessions) (sym entry) ∙ at) here
            changed bare
