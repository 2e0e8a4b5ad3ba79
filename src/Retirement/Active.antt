-- ===== src/Retirement/Active.antt =====
-- A generation is active while a session of the instance has it. What keeps it so: every mutation
-- of a retirement, and every write of one to the state file, whatever fails.
use mathlib.Core.Option
use bivouac.Prelude.{
  Bool, true, ◌≡◌, refl, sym, ◌∙◌, ap, subst, ◌⊎◌, inl, inr, String, Option, none, some, List, [],
  ◌∷◌, ◌==◌, eq_iff, arith, any, map, Bool-cases, Result, ok, err,
}
use bivouac.State.Types.{Session, Retirement, Record, Records, Json}
use bivouac.State.Entries.{lookup, insert, lookup-insert}
use bivouac.State.Settle.{settle, settle_record, settle_session, lookup-settle, ReadsBack}
use bivouac.State.Disk.{Disk}
use bivouac.State.Store.{StoreFaults, read_file, update}
use bivouac.State.Store.Atomic.{Left, ok-injective, read_file_any}
use bivouac.State.Store.Access.{update_outcome}
use bivouac.Retirement.Types.{MutateError}
use bivouac.Retirement.Journal.{
  on_retirement, with_retirement, with_head, with_tail, in_generation, with_sessions,
  update_sessions,
}

abbrev pub has_generation : String → List Session → Bool
has_generation generation = any (λ s. s.generation == generation)

-- The file can be read, and a session of the instance has the generation.
abbrev pub IsActive : Json → String → String → Disk → Type 0
IsActive json instance_name generation d =
    (m : Records) × (r : Record) × (read_file json {E = MutateError} d.file ≡ ok m)
    × (lookup instance_name m ≡ some r)
    × (has_generation generation r.sessions ≡ true)

-- A mutation of a session that leaves its generation alone, and one of a record that keeps a
-- generation active.
abbrev pub KeepsGeneration : (Session → Result MutateError Session) → Type 0
KeepsGeneration change = (s s' : Session) → change s ≡ ok s' → s'.generation ≡ s.generation

abbrev pub KeepsActive : {E : Type 0} → String → (Record → Result E Record) → Type 0
KeepsActive generation mutate =
    (r r' : Record)
    → has_generation generation r.sessions ≡ true
    → mutate r ≡ ok r'
    → has_generation generation r'.sessions ≡ true

pub with_retirement-KeepsGeneration :
    (change : Retirement → Result MutateError Retirement) → KeepsGeneration (with_retirement change)
unfolding with_retirement
with_retirement-KeepsGeneration change s s' h = go s.retirement h
  where
    go : (o : Option Retirement) → on_retirement change s o ≡ ok s' → s'.generation ≡ s.generation
    go none h = absurd (ground arith)
    go (some r) h = ground arith

pub with_head-ok :
    (l : List Session) (c : Result MutateError Session) (l' : List Session)
    → with_head l c ≡ ok l'
    → (s : Session) × (c ≡ ok s) × (l' ≡ s ∷ l)
unfolding with_head
with_head-ok l (ok s) l' h = (s, refl, ground arith)
with_head-ok l (err e) l' h = absurd (ground arith)

pub with_tail-ok :
    (s : Session) (c : Result MutateError (List Session)) (l' : List Session)
    → with_tail s c ≡ ok l'
    → (l : List Session) × (c ≡ ok l) × (l' ≡ s ∷ l)
unfolding with_tail
with_tail-ok s (ok l) l' h = (l, refl, ground arith)
with_tail-ok s (err e) l' h = absurd (ground arith)

in_generation-head :
    (g : String) (change : Session → Result MutateError Session) (s : Session) (l l' : List Session)
    → in_generation g change (s ∷ l) ≡ ok l'
    → (with_head l (change s) ≡ ok l') ⊎ (with_tail s (in_generation g change l) ≡ ok l')
unfolding in_generation
in_generation-head g change s l l' h = elim (Bool-cases (s.generation == g)) [
  | inl e ↦ inl (sym (rw e) ∙ h)
  | inr e ↦ inr (sym (rw e) ∙ h)
]

in_generation-keeps :
    (generation g : String) (change : Session → Result MutateError Session) (l l' : List Session)
    → KeepsGeneration change
    → has_generation generation l ≡ true
    → in_generation g change l ≡ ok l'
    → has_generation generation l' ≡ true
in_generation-keeps generation g change [] l' k h e = absurd (ground arith)
in_generation-keeps generation g change (s ∷ l) l' k h e =
    elim (in_generation-head g change s l l' e) [
      | inl here ↦
          let (s', made, same) = with_head-ok l (change s) l' here in rw (same, k s s' made) h
      | inr there ↦
          let (t, made, same) = with_tail-ok s (in_generation g change l) l' there in
          elim (Bool-cases (s.generation == generation)) [
            | inl own ↦ rw (same, own)
            | inr other ↦
                rw (same, other)
                  (in_generation-keeps generation g change l t k (rw other at h) made)
          ]
    ]

pub update_sessions-KeepsActive :
    (generation g : String) (change : Session → Result MutateError Session)
    → KeepsGeneration change
    → KeepsActive generation (update_sessions g change)
unfolding update_sessions
update_sessions-KeepsActive generation g change k r r' h e =
    go (in_generation g change r.sessions) refl e
  where
    go :
        (c : Result MutateError (List Session))
        → in_generation g change r.sessions ≡ c
        → with_sessions r c ≡ ok r'
        → has_generation generation r'.sessions ≡ true
    go (ok l) made h' =
        subst (λ x. has_generation generation x.sessions ≡ true) (ok-injective _ _ h')
          (in_generation-keeps generation g change r.sessions l k h made)
    go (err x) made h' = absurd (ground arith)

has_generation-settle :
    (indented : String → String) (generation : String) (l : List Session)
    → has_generation generation (map (settle_session indented) l) ≡ has_generation generation l
unfolding settle_session
has_generation-settle indented generation [] = refl
has_generation-settle indented generation (s ∷ l) =
    ground (arith, has_generation-settle indented generation l)

module _ (json : Json) (laws : ReadsBack json) (instance_name generation : String) where
  Left-IsActive :
      {E : Type 0} (m : Records) (r : Record) (d : Disk)
      → Left json E m d
      → lookup instance_name m ≡ some r
      → has_generation generation r.sessions ≡ true
      → IsActive json instance_name generation d
  unfolding settle_record
  Left-IsActive m r d left found has = (
    settle json.indented m,
    settle_record json.indented r,
    read_file_any json d.file (settle json.indented m) left,
    lookup-settle json.indented instance_name m
        ∙ ap (Option.map (settle_record json.indented)) found,
    has_generation-settle json.indented generation r.sessions ∙ has,
  )

  -- A write that keeps the generation active in the record that it changes keeps it active in the
  -- file, whatever instance it writes and whatever fails.
  pub update-IsActive :
      {E : Type 0} (f : StoreFaults) (written : String) (mutate : Record → Result E Record)
      (d : Disk)
      → KeepsActive generation mutate
      → IsActive json instance_name generation d
      → IsActive json instance_name generation (update json f written mutate d).1
  update-IsActive {E} f written mutate d k (m, r, read, found, has) =
      elim (update_outcome json laws E f written mutate d) [
        | inl same ↦ (m, r, ap (read_file json) same ∙ read, found, has)
        | inr (m', s, s', read', found', made, left) ↦
            let same : m' ≡ m = ok-injective m' m (sym read' ∙ read_file_any json d.file m read) in
            let at = lookup-insert written instance_name s' m' in
            elim (Bool-cases (written == instance_name)) [
              | inl own ↦
                  let here : written ≡ instance_name = (eq_iff written instance_name).0 own in
                  let record_same : s ≡ r = cc (found, found', same, here) in
                  Left-IsActive (insert written s' m') s' (update json f written mutate d).1 left
                    (at ∙ rw own)
                    (k s s' (ap (λ x. has_generation generation x.sessions) record_same ∙ has) made)
              | inr other ↦
                  Left-IsActive (insert written s' m') r (update json f written mutate d).1 left
                    (at ∙ rw other (ap (lookup instance_name) same ∙ found)) has
            ]
      ]
