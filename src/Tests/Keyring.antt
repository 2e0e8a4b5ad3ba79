-- ===== src/Tests/Keyring.antt =====
-- The keys found on a machine whose agent and files hold the same one.
use mathlib.Core.Option
use bivouac.Prelude.{◌≡◌, String, none, some, [], ◌∷◌, ◌==◌, if◌then◌else◌}
use bivouac.SshKeys.{Key, KeyEnv, discover, find}
use bivouac.SshKeys.Indexed.{with_path, path_of}
use bivouac.SshKeys.Discovered.{AreDistinct, all_keys, find-discover}

abbrev keyring : KeyEnv
keyring = record {
  trim_space = λ s. s;
  agent_list = λ sock.
      some (record { format = "ssh-ed25519"; comment = ""; fingerprint = "aa"; text = "A" } ∷ []);
  glob = λ dir. some ("a.pub" ∷ "gone.pub" ∷ "b.pub" ∷ []);
  read_file = λ path. if path == "gone.pub" then none else some path;
  parse = λ line. some (record {
    fingerprint = (if line == "a.pub" then "aa" else "bb");
    text = (if line == "a.pub" then "A" else "B");
    comment = "";
    rest = "";
  });
  base = λ path. path;
}

find-discover_example :
    AreDistinct (discover keyring "agent" ".ssh")
    × ((fingerprint : String)
        → find (discover keyring "agent" ".ssh") fingerprint
          ≡ Option.map {A = Key}
              (with_path (path_of fingerprint (all_keys keyring "agent" ".ssh")))
              (find (all_keys keyring "agent" ".ssh") fingerprint))
find-discover_example = find-discover keyring "agent" ".ssh"
