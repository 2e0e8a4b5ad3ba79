-- ===== src/Retirement/Retire/Accounts.antt =====
-- What it is to account for a generation: an active one stays active or gets a receipt. The changes
-- of a retirement that touch the list of sessions, and the rules for actions.
use bivouac.Prelude.{
  Bool, true, false, ◌≡◌, refl, sym, ◌∙◌, ap, subst, ◌≢◌, ◌⊎◌, inl, inr, String, Option, none, some,
  List, [], ◌∷◌, ◌++◌, ◌==◌, eq_iff, arith, if◌then◌else◌, Result, ok, err, Bool-cases, eq_false,
  ne_of_eq_false,
}
use bivouac.State.Types.{RetirementReceipt, Session, Record, Records, Json}
use bivouac.State.Settle.{ReadsBack}
use bivouac.State.Entries.{lookup, insert}
use bivouac.State.Sessions.{find_session, put_session}
use bivouac.State.Sessions.Laws.{put_session-any}
use bivouac.State.Sessions.Start.{name-find_session}
use bivouac.State.Validate.{is_empty}
use bivouac.State.Disk.{Disk}
use bivouac.State.Store.{
  StoreFaults, CompleteError, read_file, complete_record, complete_retirement,
}
use bivouac.State.Store.Atomic.{Left, ok-injective}
use bivouac.State.Store.Access.{update_outcome}
use bivouac.State.Store.Receipts.{complete_record-ok}
use bivouac.Retirement.Types.{session_disappeared, RetireError, Env}
use bivouac.Retirement.Exec.{World, Exec, pure, ◌>>=◌, continue}
use bivouac.Retirement.Active.{IsActive, KeepsActive, has_generation, update-IsActive}
use bivouac.Retirement.Keeps.{Keeps}
use bivouac.Retirement.Options.{give_generation}
use bivouac.Retirement.Retire.Completion.{HasReceipt, Left-HasReceipt}

pub give_generation-KeepsActive :
    (generation session given : String)
    → generation ≢ ""
    → KeepsActive generation (give_generation session given)
unfolding give_generation
give_generation-KeepsActive generation session given named r r' has e =
    go (find_session r session) refl e
  where
    go :
        (o : Option Session)
        → find_session r session ≡ o
        → (elim o [
          | none ↦ err session_disappeared
          | some current ↦
              if is_empty current.generation
              then ok (put_session r (record current { generation = given }))
              else ok r
        ])
          ≡ ok r'
        → has_generation generation r'.sessions ≡ true
    go none at e' = absurd (ground arith)
    go (some current) at e' = elim (Bool-cases (is_empty current.generation)) [
      | inl old ↦
          subst (λ x. has_generation generation x.sessions ≡ true)
            (ok-injective (put_session r (record current { generation = given })) r' (rw old at e'))
            (put_session-any (λ s. s.generation == generation) r
              (record current { generation = given }) current
              (ap (find_session r) (name-find_session r session current at) ∙ at)
              (eq_false current.generation generation
                (λ same. named (sym same ∙ (eq_iff current.generation "").0 old)))
              has)
      | inr new ↦
          subst (λ x. has_generation generation x.sessions ≡ true)
            (ok-injective r r' (rw new at e')) has
    ]

has_generation-append :
    (generation : String) (before after : List Session) (s : Session)
    → s.generation ≢ generation
    → has_generation generation (before ++ s ∷ after) ≡ true
    → has_generation generation (before ++ after) ≡ true
has_generation-append generation [] after s h e = ground (arith, eq_iff s.generation generation)
has_generation-append generation (t ∷ before) after s h e =
    ground (arith, has_generation-append generation before after s h)

complete_record-KeepsActive :
    (generation other : String) (receipt : RetirementReceipt)
    → other ≢ generation
    → KeepsActive generation (complete_record other receipt)
complete_record-KeepsActive generation other receipt h r r' has made =
    let (s, before, after, whole, left, own, _, _, _, _) =
      complete_record-ok other receipt r made in
    rw left (
      has_generation-append generation before after s (λ e. h (sym own ∙ e))
        (subst (λ l. has_generation generation l ≡ true) whole has))

module _ (json : Json) (laws : ReadsBack json) (instance_name generation : String) where
  -- The generation is active, or a receipt in the file names it.
  pub data IsAccounted (d : Disk) : Type 0 where
    active : IsActive json instance_name generation d → IsAccounted d
    receipted :
        (receipt : RetirementReceipt)
        → receipt.generation ≡ generation
        → HasReceipt json instance_name receipt d
        → IsAccounted d

  pub complete_retirement-IsAccounted :
      (f : StoreFaults) (other : String) (receipt : RetirementReceipt) (d : Disk)
      → IsActive json instance_name generation d
      → IsAccounted (complete_retirement json f instance_name other receipt d).1
  unfolding complete_retirement
  complete_retirement-IsAccounted f other receipt d h = elim (Bool-cases (other == generation)) [
    | inl own ↦
        go ((eq_iff other generation).0 own)
          (update_outcome json laws CompleteError f instance_name (complete_record other receipt) d)
    | inr away ↦ active (
        update-IsActive json laws instance_name generation f instance_name
          (complete_record other receipt) d
          (complete_record-KeepsActive generation other receipt
            (ne_of_eq_false other generation away))
          h)
  ]
    where
      d' : Disk
      d' = (complete_retirement json f instance_name other receipt d).1

      go :
          other ≡ generation
          → ((d'.file ≡ d.file)
              ⊎ ((m : Records) × (r : Record) × (r' : Record) × (read_file json {E = CompleteError}
                      d.file
                    ≡ ok m)
                  × (lookup instance_name m ≡ some r)
                  × (complete_record other receipt r ≡ ok r')
                  × Left json CompleteError (insert instance_name r' m) d'))
          → IsAccounted d'
      go same (inl kept) =
          let (m, r, read, found, has) = h in
          active (m, r, ap (read_file json) kept ∙ read, found, has)
      go same (inr (m, r, r', read, found, made, left)) =
          let (_, _, _, _, _, _, _, names, _, _) = complete_record-ok other receipt r made in
          receipted receipt (names ∙ same)
            (Left-HasReceipt json laws instance_name other receipt m r r' d' made left)

  module _ {env : Env} where
    -- The action accounts for the generation, whether it returns or stops.
    pub record Accounts {A : Type 0} (m : Exec env A) : Type 0 where
      pub at :
          (w : World env) → IsActive json instance_name generation w.disk → IsAccounted (m w).1.disk

    pub Accounts-Keeps :
        {A : Type 0} (m : Exec env A) → Keeps json laws instance_name generation m → Accounts m
    Accounts-Keeps m k = record { at = λ w h. active (k.at w h) }

    pub Accounts-if :
        {A : Type 0} (b : Bool) (m n : Exec env A)
        → Accounts m
        → Accounts n
        → Accounts (if b then m else n)
    Accounts-if true m n km kn = km
    Accounts-if false m n km kn = kn

    pub Accounts-bind :
        {A B : Type 0} (m : Exec env A) (f : A → Exec env B)
        → Keeps json laws instance_name generation m
        → ((a : A) → Accounts (f a))
        → Accounts (m >>= f)
    unfolding ◌>>=◌
    Accounts-bind {A} m f km kf = record { at = λ w h. go (m w) (km.at w h) }
      where
        go :
            (r : Result RetireError A × World env)
            → IsActive json instance_name generation r.1.disk
            → IsAccounted (continue r f).1.disk
        go (ok a, v) k = (kf a).at v k
        go (err e, v) k = active k

    -- What a last pure step leaves.
    pub Accounts-then :
        {A B : Type 0} (m : Exec env A) (b : B) → Accounts m → Accounts (m >>= λ _. pure b)
    unfolding ◌>>=◌ pure
    Accounts-then {A} m b km = record { at = λ w h. go (m w) (km.at w h) }
      where
        go :
            (r : Result RetireError A × World env)
            → IsAccounted r.1.disk
            → IsAccounted (continue r (λ _. pure b)).1.disk
        go (ok a, v) k = k
        go (err e, v) k = k
