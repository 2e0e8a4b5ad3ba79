-- ===== src/KeyPlan/Laws.antt =====
-- A key that was registered is the one that was selected.
use bivouac.Prelude.{
  Bool, true, false, not, ◌≡◌, refl, String, Option, none, some, List, [], ◌∷◌, eq_iff, arith,
  if◌then◌else◌, Result, ok, err,
}
use bivouac.State.Entries.{lookup, insert, lookup-insert}
use bivouac.Image.Markers.{has_prefix}
use bivouac.KeyPlan.{
  Key, SshKey, KeyError, unapproved, KeyWorld, account_of, next, read_selected, existing_key, raced,
  created, register_public,
}

-- Every key of the account stands under its own fingerprint.
abbrev IsAccount : List (String × SshKey) → Type 0
IsAccount m = (fp : String) (key : SshKey) → lookup fp m ≡ some key → key.fingerprint ≡ fp

insert-IsAccount :
    (key : SshKey) (m : List (String × SshKey))
    → IsAccount m
    → IsAccount (insert key.fingerprint key m)
insert-IsAccount key m h fp k e =
    ground (arith, lookup-insert key.fingerprint fp key m, eq_iff key.fingerprint fp, h fp k)

account_of-IsAccount :
    (m : List (String × SshKey)) (keys : List SshKey) → IsAccount m → IsAccount (account_of m keys)
unfolding account_of
account_of-IsAccount m [] h = h
account_of-IsAccount m (key ∷ keys) h =
    account_of-IsAccount (insert key.fingerprint key m) keys (insert-IsAccount key m h)

empty-IsAccount : IsAccount []
unfolding lookup
empty-IsAccount fp key e = ground arith

module _ (w : KeyWorld) where
  raced-fingerprint :
      (key : Key) (r : Result KeyError (List SshKey) × w.Outside) {made : SshKey} {o : w.Outside}
      → raced w key r ≡ (ok made, o)
      → made.fingerprint ≡ key.fingerprint
  unfolding raced existing_key
  raced-fingerprint key (err e, o') h = absurd (ground arith)
  raced-fingerprint key (ok account, o') {made} {o} h =
      go (lookup key.fingerprint (account_of [] account)) refl h
    where
      go :
          (found : Option SshKey)
          → lookup key.fingerprint (account_of [] account) ≡ found
          → existing_key w found o' ≡ (ok made, o)
          → made.fingerprint ≡ key.fingerprint
      go none at h' = absurd (ground arith)
      go (some existing) at h' =
          let own = account_of-IsAccount [] account empty-IsAccount key.fingerprint existing at in
          ground arith

  created-fingerprint :
      (key : Key) (r : Result KeyError SshKey × w.Outside) {made : SshKey} {o : w.Outside}
      → created w key r ≡ (ok made, o)
      → made.fingerprint ≡ key.fingerprint
  unfolding created
  created-fingerprint key (err e, o') h = raced-fingerprint key (w.list_keys o') h
  created-fingerprint key (ok k, o') {made} {o} h =
      ground (arith, eq_iff k.fingerprint key.fingerprint)

  approved-fingerprint :
      (key : Key) (name : String) (b : Bool) (o1 : w.Outside) {made : SshKey} {o : w.Outside}
      → (if b then (err unapproved, o1) else created w key (w.create_key name key o1))
        ≡ (ok made, o)
      → made.fingerprint ≡ key.fingerprint
  approved-fingerprint key name true o1 h = absurd (ground arith)
  approved-fingerprint key name false o1 h = created-fingerprint key (w.create_key name key o1) h

  -- RegisterPublic, where it returns a key, returns one with the fingerprint of the selected key:
  -- the one that was created, or after an error of creation the one that the account then has.
  pub register_public-fingerprint :
      (key : Key) (name : String) (o : w.Outside) {made : SshKey} {o' : w.Outside}
      → register_public w key name o ≡ (ok made, o')
      → made.fingerprint ≡ key.fingerprint
  unfolding register_public next
  register_public-fingerprint key name o {made} {o'} h = go (read_selected w key o) h
    where
      go :
          (r : Result KeyError Key × w.Outside)
          → next w r (λ current o1.
            if not (has_prefix "bivouac-" name)
            then (err unapproved, o1)
            else created w key (w.create_key name key o1))
            ≡ (ok made, o')
          → made.fingerprint ≡ key.fingerprint
      go (err e, o1) h' = absurd (ground arith)
      go (ok current, o1) h' =
          approved-fingerprint key name (not (has_prefix "bivouac-" name)) o1 h'
