-- ===== src/State/Store/Atomic.antt =====
-- A write is all or nothing, and what it leaves in the file loads again.
use bivouac.Prelude.{
  ℕ, Bool, true, false, ◌||◌, ◌≡◌, refl, subst, sym, ◌∙◌, ap, ◌≢◌, ◌⊎◌, inl, inr, String, Option,
  none, some, [], arith, All, if◌then◌else◌, Bool-cases, Option-cases, Result, ok, err, ◌>>=◌,
}
use bivouac.State.Types.{Records, Json}
use bivouac.State.Validate.{each, validate_record_lifecycle}
use bivouac.State.Validate.Spec.{IsRecord}
use bivouac.State.Validate.Sound.{each_sound, each_complete}
use bivouac.State.Validate.Retired.{validate_record_iff}
use bivouac.State.Entries.{values}
use bivouac.State.Settle.{settle, ReadsBack, settle-All_records}
use bivouac.State.Disk.{File, Disk, write_file_atomic}
use bivouac.State.Disk.Laws.{published, write_file_atomic_cases}
use bivouac.State.Store.{
  StoreError, locked, no_directory, StoreFaults, check_records, decoded, read_file, all_unlocked,
  state_mode, written, publish, replace, save_changed, transact,
}

-- The directory could not be synced after the file was in place: the one error behind which the new
-- contents stand.
abbrev pub unsynced : StoreFaults → Bool
unsynced f = f.write.open_dir || f.write.sync_dir || f.write.close_dir

pub ok-injective {ℓ} : {E A : Type ℓ} (a b : A) → ◌≡◌ {A = Result E A} (ok a) (ok b) → a ≡ b
ok-injective a b h = cc

-- What a write that reached the file leaves there: the records, read back.
abbrev pub Left : Json → Type 0 → Records → Disk → Type 0
Left json E m d = read_file json {E = E} d.file ≡ ok (settle json.indented m)

module _ (json : Json) {E : Type 0} where
  check_records-ok :
      (m n : Records)
      → check_records json {E = E} m ≡ ok n
      → (m ≡ n) × All (IsRecord json) (values m)
  unfolding check_records
  check_records-ok m n h = elim (Option-cases (each (validate_record_lifecycle json) (values m))) [
    | inl valid ↦ (
      ground arith,
      each_sound _ (IsRecord json) (λ r. (validate_record_iff json r).0) (values m) valid,
    )
    | inr (i, bad) ↦ ground arith
  ]

  check_records_of_valid :
      (m : Records) → All (IsRecord json) (values m) → check_records json {E = E} m ≡ ok m
  unfolding check_records
  check_records_of_valid m h =
      let valid =
        each_complete _ (IsRecord json) (λ r. (validate_record_iff json r).1) (values m) h in
      ground arith

  decoded-valid :
      (o : Option (Option Records)) (m : Records)
      → decoded json {E = E} o ≡ ok m
      → All (IsRecord json) (values m)
  unfolding decoded values
  decoded-valid none m h = absurd (ground arith)
  decoded-valid (some none) m h =
      subst (λ n. All (IsRecord json) (values n)) (ok-injective [] m h) tt
  decoded-valid (some (some n)) m h =
      let (same, valid) = check_records-ok n m h in
      subst (λ k. All (IsRecord json) (values k)) same valid

  -- What a file holds does not depend on the errors of the operation that reads it.
  pub read_file_any :
      {F : Type 0} (o : Option File) (m : Records)
      → read_file json {E = E} o ≡ ok m
      → read_file json {E = F} o ≡ ok m
  unfolding read_file decoded check_records
  read_file_any o m h = ground arith

  -- A file that was read holds valid records.
  pub read_file-valid :
      (o : Option File) (m : Records)
      → read_file json {E = E} o ≡ ok m
      → All (IsRecord json) (values m)
  unfolding read_file values
  read_file-valid none m h = subst (λ n. All (IsRecord json) (values n)) (ok-injective [] m h) tt
  read_file-valid (some file) m h = decoded-valid (json.unmarshal file.text) m h

module _ (json : Json) (laws : ReadsBack json) (E : Type 0) where
  -- The text of valid records reads back as the settled records.
  read_back :
      (m : Records) (text : String) (mode : ℕ) (synced : Bool)
      → All (IsRecord json) (values m)
      → json.marshal m ≡ some text
      → read_file json {E = E} (some (record { text = text; mode = mode; synced = synced }))
        ≡ ok (settle json.indented m)
  unfolding read_file decoded
  read_back m text mode synced h e =
      rw (laws.reads_back m text e)
        (check_records_of_valid json (settle json.indented m) (settle-All_records json laws m h))

  published-Left :
      (m : Records) (text : String) (mode : ℕ) (d : Disk)
      → All (IsRecord json) (values m)
      → json.marshal m ≡ some text
      → d.file ≡ some (record { text = text; mode = mode; synced = true })
      → Left json E m d
  published-Left m text mode d h e at =
      subst (λ o. read_file json {E = E} o ≡ ok (settle json.indented m)) (sym at)
        (read_back m text mode true h e)

  written-outcome :
      (f : StoreFaults) (m : Records) (text : String) (d : Disk) (r : Disk × Bool)
      → All (IsRecord json) (values m)
      → json.marshal m ≡ some text
      → ((r.0.file ≡ d.file) ⊎ (r.0.file ≡ some (published text state_mode d)))
        × (r.1 ≡ false → r.0.file ≡ some (published text state_mode d))
        × (r.1 ≡ true → unsynced f ≡ false → r.0.file ≡ d.file)
      → let (res, d') = written json {E = E} r in
        (res ≡ ok tt → Left json E m d')
        × ((d'.file ≡ d.file) ⊎ Left json E m d')
        × (res ≢ ok tt → unsynced f ≡ false → d'.file ≡ d.file)
  unfolding written
  written-outcome f m text d (d', true) h e (whole, good, bad) = (
    λ no. absurd (ground arith),
    elim whole [ inl same ↦ inl same | inr new ↦ inr (published-Left m text _ d' h e new) ],
    λ _. bad refl,
  )
  written-outcome f m text d (d', false) h e (whole, good, bad) =
      let left = published-Left m text _ d' h e (good refl) in
      (λ _. left, inr left, λ no. absurd (no refl))

  publish-outcome :
      (f : StoreFaults) (m : Records) (o : Option String) (d : Disk)
      → All (IsRecord json) (values m)
      → json.marshal m ≡ o
      → let (res, d') = publish json {E = E} f o d in
        (res ≡ ok tt → Left json E m d')
        × ((d'.file ≡ d.file) ⊎ Left json E m d')
        × (res ≢ ok tt → unsynced f ≡ false → d'.file ≡ d.file)
  unfolding publish
  publish-outcome f m none d h e = (λ bad. absurd (ground arith), inl refl, λ _ _. refl)
  publish-outcome f m (some text) d h e =
      written-outcome f m text d (write_file_atomic f.write text state_mode d) h e
        (write_file_atomic_cases f.write text state_mode d)

  -- The results of a save of `m`, and of a write that changed the records into `c`.
  abbrev IsReplaced :
      StoreFaults → Records → Disk → Result (StoreError E) (Unit {0}) × Disk → Type 0
  IsReplaced f m d (res, d') =
      (res ≡ ok tt → Left json E m d')
      × ((d'.file ≡ d.file) ⊎ Left json E m d')
      × (res ≢ ok tt → unsynced f ≡ false → d'.file ≡ d.file)

  abbrev IsChanged :
      StoreFaults
      → Result (StoreError E) Records
      → Disk
      → Result (StoreError E) (Unit {0}) × Disk
      → Type 0
  IsChanged f c d (res, d') =
      (res ≡ ok tt → (m : Records) × (c ≡ ok m) × Left json E m d')
      × ((d'.file ≡ d.file) ⊎ ((m : Records) × (c ≡ ok m) × Left json E m d'))
      × (res ≢ ok tt → unsynced f ≡ false → d'.file ≡ d.file)

  replace-outcome :
      (f : StoreFaults) (d : Disk) (m : Records) (c : Result (StoreError E) Records)
      → check_records json {E = E} m ≡ c
      → IsReplaced f m d (replace json f d c)
  unfolding replace
  replace-outcome f d m (err e) h = (λ no. absurd (ground arith), inl refl, λ _ _. refl)
  replace-outcome f d m (ok n) h =
      let (same, valid) = check_records-ok json m n h in
      elim f.mkdir
        as (λ b.
          IsReplaced f m d
            (if b then (err no_directory, d) else publish json f (json.marshal n) d)) [
              | true ↦ (λ no. absurd (ground arith), inl refl, λ _ _. refl)
              | false ↦ rw (← same) (publish-outcome f m (json.marshal m) d valid refl)
            ]

  save_changed-outcome :
      (f : StoreFaults) (d : Disk) (c : Result (StoreError E) Records)
      → IsChanged f c d (save_changed json f d c)
  unfolding save_changed
  save_changed-outcome f d (err e) = (λ no. absurd (ground arith), inl refl, λ _ _. refl)
  save_changed-outcome f d (ok m) =
      let (good, whole, bad) = replace-outcome f d m (check_records json m) refl in
      (
        λ done. (m, refl, good done),
        elim whole [ inl same ↦ inl same | inr left ↦ inr (m, refl, left) ],
        bad,
      )

  -- The outcome of a write by its result and by its file.
  pub transact_atomic :
      (f : StoreFaults) (change : Records → Result (StoreError E) Records) (d : Disk)
      → let (res, d') = transact json f change d in
        (res ≡ ok tt
          → (m : Records) × ((all_unlocked json f d >>= change) ≡ ok m) × Left json E m d')
        × ((d'.file ≡ d.file)
            ⊎ ((m : Records) × ((all_unlocked json f d >>= change) ≡ ok m) × Left json E m d'))
        × (res ≢ ok tt → unsynced f ≡ false → d'.file ≡ d.file)
  unfolding transact
  transact_atomic f change d =
      let c = all_unlocked json f d >>= change in
      elim f.lock
        as (λ b. IsChanged f c d (if b then (err locked, d) else save_changed json f d c)) [
          | true ↦ (λ no. absurd (ground arith), inl refl, λ _ _. refl)
          | false ↦ save_changed-outcome f d c
        ]

  ok-or-not : (r : Result (StoreError E) (Unit {0})) → (r ≡ ok tt) ⊎ (r ≢ ok tt)
  ok-or-not (ok tt) = inl refl
  ok-or-not (err e) = inr (λ h. ground arith)

  -- A write to the store, whichever of its steps fail: either it returns an error and the file is as
  -- it was; or the change applied to the records that were read, reading the file gives the changed
  -- records as the file format settles them, and no error is returned, unless the new file was in
  -- place already and its directory could not be synced.
  pub transact_outcome :
      (f : StoreFaults) (change : Records → Result (StoreError E) Records) (d : Disk)
      → let (res, d') = transact json f change d in
        ((res ≢ ok tt) × (d'.file ≡ d.file))
        ⊎ ((m : Records) × ((all_unlocked json f d >>= change) ≡ ok m)
            × Left json E m d'
            × ((res ≡ ok tt) ⊎ (unsynced f ≡ true)))
  transact_outcome f change d =
      let (good, file, bad) = transact_atomic f change d in
      elim (ok-or-not (transact json f change d).0) [
        | inl done ↦ let (m, changed, left) = good done in inr (m, changed, left, inl done)
        | inr failed ↦ elim file [
          | inl same ↦ inl (failed, same)
          | inr (m, changed, left) ↦ elim (Bool-cases (unsynced f)) [
            | inl late ↦ inr (m, changed, left, inr late)
            | inr synced ↦ inl (failed, bad failed synced)
          ]
        ]
      ]

  -- A file that can be read is never replaced by one that cannot: whatever the change, and whatever
  -- fails, the file after a write can be read and validates.
  pub transact-readable :
      (f : StoreFaults) (change : Records → Result (StoreError E) Records) (d : Disk) {m : Records}
      → read_file json {E = E} d.file ≡ ok m
      → (n : Records) × (read_file json {E = E} (transact json f change d).1.file ≡ ok n)
        × All (IsRecord json) (values n)
  transact-readable f change d h = elim (transact_atomic f change d).1 [
    | inl same ↦ (_, ap (read_file json) same ∙ h, read_file-valid json _ _ h)
    | inr (n, changed, left) ↦ (settle json.indented n, left, read_file-valid json _ _ left)
  ]
