-- ===== src/Tests/Keys.antt =====
-- The law of key registration, applied to a run in which its hypotheses hold.
use bivouac.Prelude.{◌≡◌, refl, none, [], ◌∷◌, ok, err}
use bivouac.KeyPlan.{Key, SshKey, create_failed, KeyWorld, register_public}
use bivouac.KeyPlan.Laws.{register_public-fingerprint}
use bivouac.State.Entries.{lookup, insert}

abbrev mine : Key
mine = record { path = "/k.pub"; fingerprint = "aa"; public_key = "ssh-ed25519 A" }

abbrev on_account : SshKey
on_account = record { id = "9"; name = "bivouac-k"; fingerprint = "aa" }

-- A competitor has just created the same key.
abbrev contested : KeyWorld
contested = record {
  Outside = Unit {0};
  Identities = Unit {0};
  read_public = λ key o. (ok key, o);
  select = λ keys o. (ok tt, o);
  check_signers = λ i o. (none, o);
  list_keys = λ o. (ok (on_account ∷ []), o);
  create_key = λ name key o. (err create_failed, o);
  base_name = λ path. "k";
}

raced_run : register_public contested mine "bivouac-k" tt ≡ (ok on_account, tt)
unfolding register_public lookup insert
raced_run = refl

register_public-fingerprint_example : on_account.fingerprint ≡ mine.fingerprint
register_public-fingerprint_example =
    register_public-fingerprint contested mine "bivouac-k" tt {made = on_account} {o' = tt}
      raced_run
