-- ===== src/State/Store/Access.antt =====
-- What the reads of a store give after its writes.
use mathlib.Core.Option
use bivouac.Prelude.{
  Bool, true, false, ◌≡◌, refl, sym, subst, ◌∙◌, ap, ◌⊎◌, inl, inr, String, Option, none, some,
  ◌==◌, arith, if◌then◌else◌, Result, ok, err, ◌>>=◌, >>=-eq-ok,
}
use bivouac.State.Types.{Record, Records, Json}
use bivouac.State.Entries.{lookup, insert, lookup-insert, lookup-erase}
use bivouac.State.Settle.{settle_record, lookup-settle, ReadsBack}
use bivouac.State.Disk.{Disk}
use bivouac.State.Store.{
  locked, StoreFaults, read_file, all_unlocked, get, put, mutated, update_entry, update, delete,
}
use bivouac.State.Store.Atomic.{Left, ok-injective, transact_atomic}

module _ (json : Json) (laws : ReadsBack json) (E : Type 0) where
  get-Left :
      (m : Records) (g : StoreFaults) (d : Disk) (name : String)
      → Left json E m d
      → g.lock ≡ false
      → g.read ≡ false
      → get json {E = E} g d name ≡ ok (Option.map (settle_record json.indented) (lookup name m))
  unfolding get all_unlocked
  get-Left m g d name left lock read = ground (arith, left, lookup-settle json.indented name m)

  pub all_unlocked-read :
      (f : StoreFaults) (d : Disk) (m : Records)
      → all_unlocked json {E = E} f d ≡ ok m
      → read_file json {E = E} d.file ≡ ok m
  unfolding all_unlocked
  all_unlocked-read f d m h = ground arith

  -- A Get that answers has read the file.
  pub get-ok :
      (f : StoreFaults) (d : Disk) (name : String) {o : Option Record}
      → get json {E = E} f d name ≡ ok o
      → (m : Records) × (read_file json {E = E} d.file ≡ ok m) × (lookup name m ≡ o)
  unfolding get
  get-ok f d name {o} h = go f.lock h
    where
      go :
          (b : Bool)
          → (if b then err locked else (all_unlocked json {E = E} f d >>= λ m. ok (lookup name m)))
            ≡ ok o
          → (m : Records) × (read_file json {E = E} d.file ≡ ok m) × (lookup name m ≡ o)
      go true h' = absurd (ground arith)
      go false h' =
          let (m, read, same) = >>=-eq-ok (all_unlocked json f d) _ h' in
          (m, all_unlocked-read f d m read, ok-injective _ _ same)

  mutated-ok :
      (name : String) (m : Records) (c : Result E Record) {n : Records}
      → mutated json name m c ≡ ok n
      → (r : Record) × (c ≡ ok r) × (n ≡ insert name r m)
  unfolding mutated
  mutated-ok name m (ok r) h = (r, refl, ground arith)
  mutated-ok name m (err e) h = absurd (ground arith)

  pub update_entry-ok :
      (mutate : Record → Result E Record) (name : String) (m : Records) (o : Option Record)
      {n : Records}
      → update_entry json mutate name m o ≡ ok n
      → (r : Record) × (r' : Record) × (o ≡ some r) × (mutate r ≡ ok r') × (n ≡ insert name r' m)
  unfolding update_entry mutated
  update_entry-ok mutate name m none h = absurd (ground arith)
  update_entry-ok mutate name m (some r) h =
      let (r', made, same) = mutated-ok name m (mutate r) h in (r, r', refl, made, same)

  -- An update leaves the file as it was, or with the mutated record of the records that were read.
  pub update_outcome :
      (f : StoreFaults) (instance_name : String) (mutate : Record → Result E Record) (d : Disk)
      → ((update json f instance_name mutate d).1.file ≡ d.file)
        ⊎ ((m : Records) × (r : Record) × (r' : Record) × (read_file json {E = E} d.file ≡ ok m)
            × (lookup instance_name m ≡ some r)
            × (mutate r ≡ ok r')
            × Left json E (insert instance_name r' m) (update json f instance_name mutate d).1)
  unfolding update
  update_outcome f instance_name mutate d = elim (transact_atomic json laws E f _ d).1 [
    | inl same ↦ inl same
    | inr (n, changed, left) ↦
        let (m, read, made) = >>=-eq-ok (all_unlocked json f d) _ changed in
        let (r, r', found, mutate_ok, same) =
          update_entry-ok mutate instance_name m (lookup instance_name m) made in
        inr (
          m,
          r,
          r',
          all_unlocked-read f d m read,
          found,
          mutate_ok,
          subst (λ k. Left json E k (update json f instance_name mutate d).1) same left,
        )
  ]

  -- An update without an error leaves the mutated record of the records that were read.
  pub update_done :
      (f : StoreFaults) (instance_name : String) (mutate : Record → Result E Record) (d : Disk)
      → (update json f instance_name mutate d).0 ≡ ok tt
      → (m : Records) × (r : Record) × (r' : Record) × (read_file json {E = E} d.file ≡ ok m)
        × (lookup instance_name m ≡ some r)
        × (mutate r ≡ ok r')
        × Left json E (insert instance_name r' m) (update json f instance_name mutate d).1
  unfolding update
  update_done f instance_name mutate d good =
      let (n, changed, left) = (transact_atomic json laws E f _ d).0 good in
      let (m, read, made) = >>=-eq-ok (all_unlocked json f d) _ changed in
      let (r, r', found, mutate_ok, same) =
        update_entry-ok mutate instance_name m (lookup instance_name m) made in
      (
        m,
        r,
        r',
        all_unlocked-read f d m read,
        found,
        mutate_ok,
        subst (λ k. Left json E k (update json f instance_name mutate d).1) same left,
      )

  -- Update without an error: the mutation was given the record that was read under the name, and a
  -- Get that can lock and read then gives what it made of it, as the file format settles it, under
  -- that name, and what the file held before under every other.
  pub get-update :
      (f : StoreFaults) (instance_name : String) (mutate : Record → Result E Record) (d : Disk)
      (g : StoreFaults) (name : String)
      → (update json f instance_name mutate d).0 ≡ ok tt
      → g.lock ≡ false
      → g.read ≡ false
      → (m : Records) × (r : Record) × (r' : Record) × (all_unlocked json {E = E} f d ≡ ok m)
        × (lookup instance_name m ≡ some r)
        × (mutate r ≡ ok r')
        × (get json {E = E} g (update json f instance_name mutate d).1 name
            ≡ ok (
                Option.map
                  (settle_record json.indented)
                  (if instance_name == name then some r' else lookup name m)))
  unfolding update
  get-update f instance_name mutate d g name done lock read' =
      let (n, changed, left) = (transact_atomic json laws E f _ d).0 done in
      let (m, read, made) = >>=-eq-ok (all_unlocked json f d) _ changed in
      let (r, r', found, mutate_ok, same) =
        update_entry-ok mutate instance_name m (lookup instance_name m) made in
      (
        m,
        r,
        r',
        read,
        found,
        mutate_ok,
        get-Left n g _ name left lock read'
            ∙ ap (λ x. ok (Option.map (settle_record json.indented) x))
                (ap (lookup name) same ∙ lookup-insert instance_name name r' m),
      )

  -- Put without an error: a Get that can lock and read then gives the record that was put, as the
  -- file format settles it, under its name, and what the file held before under every other.
  pub get-put :
      (f : StoreFaults) (r : Record) (d : Disk) (g : StoreFaults) (name : String)
      → (put json {E = E} f r d).0 ≡ ok tt
      → g.lock ≡ false
      → g.read ≡ false
      → (m : Records) × (all_unlocked json {E = E} f d ≡ ok m)
        × (get json {E = E} g (put json {E = E} f r d).1 name
            ≡ ok (
                Option.map
                  (settle_record json.indented)
                  (if r.name == name then some r else lookup name m)))
  unfolding put
  get-put f r d g name done lock read' =
      let (n, changed, left) = (transact_atomic json laws E f _ d).0 done in
      let (m, read, made) = >>=-eq-ok (all_unlocked json f d) _ changed in
      (
        m,
        read,
        get-Left n g _ name left lock read'
            ∙ ap (λ x. ok (Option.map (settle_record json.indented) x))
                (ap (lookup name) (sym (ok-injective _ _ made)) ∙ lookup-insert r.name name r m),
      )

  -- Delete without an error: a Get that can lock and read then gives nothing under the deleted name,
  -- and what the file held before under every other.
  pub get-delete :
      (f : StoreFaults) (gone : String) (d : Disk) (g : StoreFaults) (name : String)
      → (delete json {E = E} f gone d).0 ≡ ok tt
      → g.lock ≡ false
      → g.read ≡ false
      → (m : Records) × (all_unlocked json {E = E} f d ≡ ok m)
        × (get json {E = E} g (delete json {E = E} f gone d).1 name
            ≡ ok (
                Option.map
                  (settle_record json.indented)
                  (if gone == name then none else lookup name m)))
  unfolding delete
  get-delete f gone d g name done lock read' =
      let (n, changed, left) = (transact_atomic json laws E f _ d).0 done in
      let (m, read, made) = >>=-eq-ok (all_unlocked json f d) _ changed in
      (
        m,
        read,
        get-Left n g _ name left lock read'
            ∙ ap (λ x. ok (Option.map (settle_record json.indented) x))
                (ap (lookup name) (sym (ok-injective _ _ made)) ∙ lookup-erase gone name m),
      )
