-- ===== src/State/Store/Refines.antt =====
-- A store is a map from names to records: every sequence of its writes is one of writes to the map.
use mathlib.Core.Option
use bivouac.Prelude.{
  ◌≡◌, ◌≢◌, refl, sym, ap, ◌∙◌, subst, ◌⊎◌, inl, inr, String, Option, none, some, List, [], ◌∷◌,
  ◌==◌, if◌then◌else◌, arith, Result, ok, err, ◌>>=◌, >>=-eq-ok,
}
use bivouac.State.Types.{Record, Records, Json}
use bivouac.State.Entries.{lookup, insert, erase, lookup-insert, lookup-erase}
use bivouac.State.Settle.{settle, settle_record, lookup-settle, ReadsBack}
use bivouac.State.Disk.{Disk}
use bivouac.State.Store.{
  StoreError, StoreFaults, read_file, all_unlocked, put, update_entry, update, delete, transact,
}
use bivouac.State.Store.Atomic.{Left, ok-injective, transact_atomic}
use bivouac.State.Store.Access.{all_unlocked-read, update_entry-ok}

abbrev pub View : Type 0
View = String → Option Record

pub data StoreOp (E : Type 0) : Type 0 where
  put_op : Record → StoreOp E
  delete_op : String → StoreOp E
  update_op : String → (Record → Result E Record) → StoreOp E

-- The map with one entry replaced, and its records as the file format settles them.
abbrev pub replaced : (String → String) → String → Option Record → View → View
replaced indented name o f =
    λ key. Option.map (settle_record indented) (if name == key then o else f key)

-- A write to the map; an update is given the record that is there.
abbrev pub IsStep : (String → String) → {E : Type 0} → StoreOp E → View → View → Type 0
IsStep indented (put_op r) f g = g ≡ replaced indented r.name (some r) f
IsStep indented (delete_op name) f g = g ≡ replaced indented name none f
IsStep indented (update_op name mutate) f g =
    (r : Record) × (r' : Record) × (f name ≡ some r)
    × (mutate r ≡ ok r')
    × (g ≡ replaced indented name (some r') f)

module _ (json : Json) {E : Type 0} where
  unfoldable pub run_op : StoreFaults → StoreOp E → Disk → Result (StoreError E) (Unit {0}) × Disk
  unfolding put delete update
  run_op f (put_op r) d = put json f r d
  run_op f (delete_op name) d = delete json f name d
  run_op f (update_op name mutate) d = update json f name mutate d

  unfoldable pub run_ops : List (StoreFaults × StoreOp E) → Disk → Disk
  unfolding run_op
  run_ops [] d = d
  run_ops ((f, op) ∷ ops) d = run_ops ops (run_op f op d).1

module _ (json : Json) (laws : ReadsBack json) (E : Type 0) where
  -- The file can be read, and has the entries of the map.
  abbrev pub Shows : Disk → View → Type 0
  Shows d f = (m : Records) × (read_file json {E = E} d.file ≡ ok m) × ((λ key. lookup key m) ≡ f)

  -- The writes one after another: each is one to the map, or returned an error and left the map as it was.
  abbrev pub AreSteps : List (StoreFaults × StoreOp E) → Disk → View → View → Type 0
  AreSteps [] d f g = f ≡ g
  AreSteps ((φ, op) ∷ ops) d f g =
      (h : View) × (IsStep json.indented op f h ⊎ ((f ≡ h) × ((run_op json φ op d).0 ≢ ok tt)))
      × AreSteps ops (run_op json φ op d).1 h g

  change_of : StoreOp E → Records → Result (StoreError E) Records
  change_of (put_op r) m = ok (insert r.name r m)
  change_of (delete_op name) m = ok (erase name m)
  change_of (update_op name mutate) m = update_entry json mutate name m (lookup name m)

  run_op-transact :
      (φ : StoreFaults) (op : StoreOp E) (d : Disk)
      → run_op json φ op d ≡ transact json φ (change_of op) d
  unfolding run_op change_of put delete update
  run_op-transact φ (put_op r) d = refl
  run_op-transact φ (delete_op name) d = refl
  run_op-transact φ (update_op name mutate) d = refl

  -- The entries of a settled map, one of whose entries was replaced.
  settled_view :
      (name : String) (o : Option Record) (m n : Records)
      → ((key : String) → lookup key n ≡ (if name == key then o else lookup key m))
      → (λ key. lookup key (settle json.indented n))
        ≡ replaced json.indented name o (λ key. lookup key m)
  settled_view name o m n entries = λ i key.
      (lookup-settle json.indented key n
          ∙ ap (Option.map (settle_record json.indented)) (entries key))
        i

  change_of-IsStep :
      (op : StoreOp E) (m n : Records)
      → change_of op m ≡ ok n
      → IsStep json.indented op (λ key. lookup key m) (λ key. lookup key (settle json.indented n))
  unfolding change_of
  change_of-IsStep (put_op r) m n e =
      settled_view r.name (some r) m n
        (λ key. ap (lookup key) (sym (ok-injective _ _ e)) ∙ lookup-insert r.name key r m)
  change_of-IsStep (delete_op name) m n e =
      settled_view name none m n
        (λ key. ap (lookup key) (sym (ok-injective _ _ e)) ∙ lookup-erase name key m)
  change_of-IsStep (update_op name mutate) m n e =
      let (r, r', found, made, same) =
        update_entry-ok json laws E mutate name m (lookup name m) e in
      (
        r,
        r',
        found,
        made,
        settled_view name (some r') m n (λ key. ap (lookup key) same ∙ lookup-insert name key r' m),
      )

  -- One write to the store.
  run_op-IsStep :
      (φ : StoreFaults) (op : StoreOp E) (d : Disk) (f : View)
      → Shows d f
      → (h : View) × (IsStep json.indented op f h ⊎ ((f ≡ h) × ((run_op json φ op d).0 ≢ ok tt)))
        × Shows (run_op json φ op d).1 h
  run_op-IsStep φ op d f (m, read, shown) =
      subst
        (λ x. (h : View) × (IsStep json.indented op f h ⊎ ((f ≡ h) × (x.0 ≢ ok tt))) × Shows x.1 h)
        (sym (run_op-transact φ op d)) (go (transact json φ (change_of op) d).0 refl)
    where
      applied :
          (d' : Disk)
          → (n : Records) × ((all_unlocked json φ d >>= change_of op) ≡ ok n) × Left json E n d'
          → (h : View) × IsStep json.indented op f h × Shows d' h
      applied d' (n, changed, left) =
          let (m', again, made) = >>=-eq-ok (all_unlocked json φ d) _ changed in
          let same : m' ≡ m =
            ok-injective _ _ (sym (all_unlocked-read json laws E φ d m' again) ∙ read) in
          (
            (λ key. lookup key (settle json.indented n)),
            subst (λ v. IsStep json.indented op v (λ key. lookup key (settle json.indented n)))
                (ap (λ x. λ key. lookup key x) same ∙ shown) (change_of-IsStep op m' n made),
            (settle json.indented n, left, refl),
          )

      go :
          (r : Result (StoreError E) (Unit {0}))
          → (transact json φ (change_of op) d).0 ≡ r
          → (h : View) × (IsStep json.indented op f h
              ⊎ ((f ≡ h) × ((transact json φ (change_of op) d).0 ≢ ok tt)))
            × Shows (transact json φ (change_of op) d).1 h
      go (ok u) k =
          let (h, step, shows) =
            applied (transact json φ (change_of op) d).1
              ((transact_atomic json laws E φ (change_of op) d).0 k) in
          (h, inl step, shows)
      go (err e) k = elim (transact_atomic json laws E φ (change_of op) d).1 [
        | inl kept ↦ (
          f,
          inr (refl, λ done. ground (arith, k, done)),
          (m, ap (λ file. read_file json file) kept ∙ read, shown),
        )
        | inr written ↦
            let (h, step, shows) = applied (transact json φ (change_of op) d).1 written in
            (h, inl step, shows)
      ]

  -- Whatever fails in them, a sequence of writes to a file that shows a map leaves a file that shows the map after
  -- the same writes to it, in order, but for ones that returned an error: such a write was made or not.
  pub run_ops-AreSteps :
      (ops : List (StoreFaults × StoreOp E)) (d : Disk) (f : View)
      → Shows d f
      → (g : View) × AreSteps ops d f g × Shows (run_ops json ops d) g
  unfolding run_ops
  run_ops-AreSteps [] d f shows = (f, refl, shows)
  run_ops-AreSteps ((φ, op) ∷ ops) d f shows =
      let (h, step, next) = run_op-IsStep φ op d f shows in
      let (g, steps, last) = run_ops-AreSteps ops (run_op json φ op d).1 h next in
      (g, (h, step, steps), last)
