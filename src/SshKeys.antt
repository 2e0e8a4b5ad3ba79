-- ===== src/SshKeys.antt =====
-- The public keys that this machine holds: internal/sshkeys, discover with the keys of the agent and of the
-- files, ReadPublicFile and Find. The agent, the files and the parser of keys are answers of a KeyEnv.
pub mod Indexed
pub mod Discovered
use bivouac.Prelude.{
  ℕ, zero, suc, Bool, not, ◌&&◌, ◌||◌, String, Option, none, some, List, [], ◌∷◌, ◌++◌, map, length,
  ◌==◌, if◌then◌else◌, Result, ok, err,
}
use bivouac.State.Entries.{lookup, insert}
use bivouac.Image.Markers.{has_prefix}
use bivouac.Git.Lines.{split_lines}

pub data Source : Type 0 where
  agent disk : Source

pub record Key : Type 0 where
  pub path : String
  pub fingerprint : String
  pub comment : String
  pub source : Source
  pub public_key : String

-- A key that the agent lists, with its fingerprint and its text.
pub record AgentKey : Type 0 where
  pub format : String
  pub comment : String
  pub fingerprint : String
  pub text : String

-- What ssh.ParseAuthorizedKey returns of a line, the key by its fingerprint and its text.
pub record ParsedKey : Type 0 where
  pub fingerprint : String
  pub text : String
  pub comment : String
  pub rest : String

pub data FileError : Type 0 where
  unreadable multiple_keys not_a_key trailing_content no_key : FileError

-- `base` is filepath.Base without a suffix .pub, `glob` the matches of a pattern in the directory, sorted.
pub record KeyEnv : Type 0 where
  pub trim_space : String → String
  pub agent_list : String → Option (List AgentKey)
  pub glob : String → Option (List String)
  pub read_file : String → Option String
  pub parse : String → Option ParsedKey
  pub base : String → String

-- keys[i].Path = k.Path, where the key has none
unfoldable pub fill_path : ℕ → String → List Key → List Key
fill_path i path [] = []
fill_path zero path (k ∷ keys) =
    (if k.path == "" && not (path == "") then record k { path = path } else k) ∷ keys
fill_path (suc i) path (k ∷ keys) = k ∷ fill_path i path keys

-- The keys of discover, and the index of each fingerprint that was seen.
pub record Found : Type 0 where
  pub keys : List Key
  pub seen : List (String × ℕ)

-- The closure `add` of discover
unfoldable pub add : Key → Found → Found
unfolding fill_path
add k found = elim (lookup k.fingerprint found.seen) [
  | some i ↦ record found { keys = fill_path i k.path found.keys }
  | none ↦ record {
    keys = found.keys ++ k ∷ [];
    seen = insert k.fingerprint (length found.keys) found.seen;
  }
]

unfoldable pub add_all : List Key → Found → Found
unfolding add
add_all [] found = found
add_all (k ∷ keys) found = add_all keys (add k found)

module _ (env : KeyEnv) where
  unfoldable pub listed : AgentKey → Key
  listed k = record {
    path = "";
    fingerprint = k.fingerprint;
    comment =
        (let comment = env.trim_space k.comment in if comment == "" then k.format else comment);
    source = Source.agent;
    public_key = env.trim_space k.text;
  }

  unfoldable pub answer_keys : Option (List AgentKey) → List Key
  unfolding listed
  answer_keys none = []
  answer_keys (some keys) = map listed keys

  unfoldable pub agent_keys : String → List Key
  unfolding answer_keys
  agent_keys sock = if sock == "" then [] else answer_keys (env.agent_list sock)

  -- One line of ReadPublicFile that is neither empty nor a comment
  unfoldable pub parsed_line : String → Option ParsedKey → Result FileError Key
  parsed_line path none = err not_a_key
  parsed_line path (some p) =
      if not (env.trim_space p.rest == "")
      then err trailing_content
      else ok (record {
        path = path;
        fingerprint = p.fingerprint;
        comment = env.trim_space p.comment;
        source = Source.disk;
        public_key = env.trim_space p.text;
      })

  abbrev pub is_skipped : String → Bool
  is_skipped line = line == "" || has_prefix "#" line

  -- The loop of ReadPublicFile over the lines, with the key so far
  unfoldable pub read_lines : String → Key → List String → Result FileError Key
  unfolding parsed_line
  read_lines path key [] = if key.public_key == "" then err no_key else ok key
  read_lines path key (l ∷ ls) =
      let line = env.trim_space l in
      elim (is_skipped line) [
        | Bool.true ↦ read_lines path key ls
        | Bool.false ↦ elim (not (key.public_key == "")) [
          | Bool.true ↦ err multiple_keys
          | Bool.false ↦ elim (parsed_line path (env.parse line)) [
            | err e ↦ err e
            | ok found ↦ read_lines path found ls
          ]
        ]
      ]

  abbrev pub zero_key : Key
  zero_key = record {
    path = "";
    fingerprint = "";
    comment = "";
    source = Source.agent;
    public_key = "";
  }

  unfoldable pub read_content : String → Option String → Result FileError Key
  unfolding read_lines
  read_content path none = err unreadable
  read_content path (some raw) = read_lines path zero_key (split_lines raw)

  unfoldable pub read_public_file : String → Result FileError Key
  unfolding read_content
  read_public_file path = read_content path (env.read_file path)

  -- The body of the loop of diskKeys
  unfoldable pub with_file : String → Result FileError Key → List Key → List Key
  with_file path (err e) keys = keys
  with_file path (ok key) keys =
      (if key.comment == "" then record key { comment = env.base path } else key) ∷ keys

  unfoldable pub files_keys : List String → List Key
  unfolding with_file read_public_file
  files_keys [] = []
  files_keys (path ∷ paths) = with_file path (read_public_file path) (files_keys paths)

  unfoldable pub matched_keys : Option (List String) → List Key
  unfolding files_keys
  matched_keys none = []
  matched_keys (some paths) = files_keys paths

  unfoldable pub disk_keys : String → List Key
  unfolding matched_keys
  disk_keys ssh_dir = matched_keys (env.glob ssh_dir)

  unfoldable pub discover : String → String → List Key
  unfolding agent_keys disk_keys add_all
  discover agent_sock ssh_dir =
      (add_all (disk_keys ssh_dir)
        (add_all (agent_keys agent_sock) (record { keys = []; seen = [] }))).keys

-- Find, of which the error says no more than that there is no key
unfoldable pub find : List Key → String → Option Key
find [] fingerprint = none
find (k ∷ keys) fingerprint = if k.fingerprint == fingerprint then some k else find keys fingerprint
