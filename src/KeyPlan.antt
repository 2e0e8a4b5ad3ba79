-- ===== src/KeyPlan.antt =====
-- The registration of public SSH keys on an account: internal/keyplan/plan.go. Reading a key file,
-- choosing and checking signers, and the account itself are answers of the world.
pub mod Laws
use bivouac.Prelude.{
  Bool, true, false, not, ◌&&◌, ◌||◌, String, str_append, Option, none, some, List, [], ◌∷◌, ◌++◌,
  ◌==◌, any, if◌then◌else◌, Result, ok, err,
}
use bivouac.State.Entries.{lookup, insert}
use bivouac.Image.Markers.{has_prefix}

-- sshkeys.Key, of which only these fields matter here.
pub record Key : Type 0 where
  pub path : String
  pub fingerprint : String
  pub public_key : String

-- provider.SSHKey
pub record SshKey : Type 0 where
  pub id : String
  pub name : String
  pub fingerprint : String

pub record Entry : Type 0 where
  pub key : Key
  pub registered : Bool
  pub account_name : String

pub data KeyError : Type 0 where
  unreadable changed no_signer cannot_list unapproved create_failed other_identity : KeyError
  no_longer_registered unapproved_name : KeyError

-- `base_name` is the name that Build gives a key that is not on the account, without its prefix.
pub record KeyWorld : Type 1 where
  pub Outside : Type 0
  pub Identities : Type 0
  pub read_public : Key → Outside → Result KeyError Key × Outside
  pub select : List Key → Outside → Result KeyError Identities × Outside
  pub check_signers : Identities → Outside → Option KeyError × Outside
  pub list_keys : Outside → Result KeyError (List SshKey) × Outside
  pub create_key : String → Key → Outside → Result KeyError SshKey × Outside
  pub base_name : String → String

-- accountMap
unfoldable pub account_of : List (String × SshKey) → List SshKey → List (String × SshKey)
account_of m [] = m
account_of m (key ∷ keys) = account_of (insert key.fingerprint key m) keys

-- The comparison of readSelected
unfoldable pub same_key : Key → Key → Result KeyError Key
same_key key current =
    if not (current.public_key == key.public_key) || not (current.fingerprint == key.fingerprint)
    then err changed
    else ok current

abbrev pub id_of : SshKey → String
id_of key = if key.id == "" then key.fingerprint else key.id

module _ (w : KeyWorld) where
  open w use {Outside, Identities}

  abbrev pub Run : Type 0 → Type 0
  Run A = Outside → Result KeyError A × Outside

  module _ {A B : Type 0} where
    unfoldable pub next : Result KeyError A × Outside → (A → Run B) → Result KeyError B × Outside
    next (ok a, o) f = f a o
    next (err e, o) f = (err e, o)

  unfoldable pub checked_key : Key → Result KeyError Key × Outside → Result KeyError Key × Outside
  unfolding same_key
  checked_key key (err e, o) = (err e, o)
  checked_key key (ok current, o) = (same_key key current, o)

  -- readSelected
  unfoldable pub read_selected : Key → Run Key
  unfolding checked_key
  read_selected key o = checked_key key (w.read_public key o)

  -- The first loop of Build: each fingerprint once.
  unfoldable pub read_all : List Key → List Key → Run (List Key)
  unfolding read_selected next
  read_all selected [] o = (ok selected, o)
  read_all selected (key ∷ keys) o = next (read_selected key o) λ current o'.
      read_all
        (if any (λ k. k.fingerprint == current.fingerprint) selected
          then selected
          else selected ++ current ∷ [])
        keys o'

  unfoldable pub entry_of : Key → Option SshKey → Entry
  entry_of key none = record {
    key = key;
    registered = false;
    account_name = str_append "bivouac-" (w.base_name key.path);
  }
  entry_of key (some known) = record { key = key; registered = true; account_name = known.name }

  unfoldable pub entries_of : List (String × SshKey) → List Key → List Entry
  unfolding entry_of
  entries_of account [] = []
  entries_of account (key ∷ keys) =
      entry_of key (lookup key.fingerprint account) ∷ entries_of account keys

  -- Build
  unfoldable pub build : List Key → Run (List Entry × Identities)
  unfolding read_all entries_of account_of next
  build keys o = next (read_all [] keys o) λ selected o1.
      next (w.select selected o1) λ identities o2.
        next (w.list_keys o2)
          λ account o3. (ok (entries_of (account_of [] account) selected, identities), o3)

  unfoldable pub existing_key : Option SshKey → Run SshKey
  existing_key none o = (err create_failed, o)
  existing_key (some existing) o = (ok existing, o)

  unfoldable pub raced :
      Key → Result KeyError (List SshKey) × Outside → Result KeyError SshKey × Outside
  unfolding account_of existing_key
  raced key (err e, o) = (err create_failed, o)
  raced key (ok account, o) = existing_key (lookup key.fingerprint (account_of [] account)) o

  unfoldable pub created : Key → Result KeyError SshKey × Outside → Result KeyError SshKey × Outside
  unfolding raced
  created key (err e, o) = raced key (w.list_keys o)
  created key (ok made, o) =
      if not (made.fingerprint == key.fingerprint) then (err other_identity, o) else (ok made, o)

  -- RegisterPublic, on an account that can be listed
  unfoldable pub register_public : Key → String → Run SshKey
  unfolding read_selected created next
  register_public key name o = next (read_selected key o) λ current o'.
      if not (has_prefix "bivouac-" name)
      then (err unapproved, o')
      else created key (w.create_key name key o')

  unfoldable pub key_for : Entry → Option SshKey → Run SshKey
  unfolding register_public
  key_for entry (some key) o = (ok key, o)
  key_for entry none o =
      if entry.registered
      then (err no_longer_registered, o)
      else if not (has_prefix "bivouac-" entry.account_name)
      then (err unapproved_name, o)
      else register_public entry.key entry.account_name o

  -- The second loop of Register; a key that was found is put into the account anew, which changes
  -- nothing.
  unfoldable pub register_all : List (String × SshKey) → List Entry → Run (List String)
  unfolding key_for next
  register_all account [] o = (ok [], o)
  register_all account (entry ∷ entries) o =
      next (key_for entry (lookup entry.key.fingerprint account) o) λ key o1.
        next (register_all (insert entry.key.fingerprint key account) entries o1)
          λ ids o2. (ok (id_of key ∷ ids), o2)

  unfoldable pub reread_all : List Entry → Run (Unit {0})
  unfolding read_selected next
  reread_all [] o = (ok tt, o)
  reread_all (entry ∷ entries) o = next (read_selected entry.key o) λ _ o'. reread_all entries o'

  unfoldable pub signed : Option KeyError × Outside → Result KeyError (Unit {0}) × Outside
  signed (none, o) = (ok tt, o)
  signed (some e, o) = (err e, o)

  -- Register
  unfoldable pub register : List Entry → Identities → Run (List String)
  unfolding reread_all signed account_of register_all next
  register entries identities o = next (reread_all entries o) λ _ o1.
      next (signed (w.check_signers identities o1))
        λ _ o2. next (w.list_keys o2) λ account o3. register_all (account_of [] account) entries o3
