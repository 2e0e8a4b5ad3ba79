-- ===== src/Tests/Replays.antt =====
-- A small repository, and the laws of a replay, of the progress file and of the policies applied to it.
use bivouac.Prelude.{
  Bool, true, false, ◌&&◌, String, Option, none, some, List, [], ◌∷◌, ◌≡◌, refl, sym, ap, subst,
  ◌==◌, eq_iff, if◌then◌else◌, eqb, arith,
}
use bivouac.Git.{args, GitEnv, GitWorld, ReplayProgress}
use bivouac.Trailers.{Strings}
use bivouac.Replay.Live.{no_file_faults, IsCalm}
use bivouac.Replay.Saved.{ReadsBack}

abbrev pub plain_strings : Strings
plain_strings = record { to_lower = λ s. s; equal_fold = λ a b. a == b; trim_space = λ s. s }

-- The head stays at h0, and three commits are listed.
abbrev pub output : List String → String
output (command ∷ option ∷ more) =
    if option == "HEAD"
    then "h0\n"
    else if option == "--abbrev-ref"
    then "main\n"
    else if option == "--absolute-git-dir"
    then "/repo/.git\n"
    else if option == "--reverse"
    then "c1\nc2\nc3\n"
    else if option == "--count"
    then "3\n"
    else if command == "rev-parse"
    then "t\n"
    else ""
output _ = ""

-- git in this repository, where a pick of c2 stops if the world says so.
abbrev is_second : List String → Bool
is_second (command ∷ empty ∷ sign ∷ sha ∷ more) = (command == "cherry-pick") && (sha == "c2")
is_second _ = false

abbrev pub small_git : String → List String → Bool → Option String × Bool
small_git repo list stops = (if stops && is_second list then none else some (output list), stops)

abbrev pub stopped_record : ReplayProgress
stopped_record = record {
  version = 1;
  ref = "t";
  base = "h0";
  done = "c1";
  stopped = "c2";
  onto = "h0";
}

abbrev pub is_record : ReplayProgress → Bool
is_record p =
    eqb p.version 1
    && (p.ref == "t")
    && (p.base == "h0")
    && (p.done == "c1")
    && (p.stopped == "c2")
    && (p.onto == "h0")

-- A codec that has a text for the one record that is saved, and none for another.
abbrev pub one_text : ReplayProgress → Option String
one_text p = if is_record p then some "stopped at c2" else none

abbrev pub small_env :
    (String → List String → Bool → Option String × Bool) → (ReplayProgress → Option String) → GitEnv
small_env git encode = record {
  Outside = Bool;
  git = git;
  stat = λ path o. (false, o);
  join_path = λ parts. "";
  faults = λ o. (no_file_faults, o);
  encode = encode;
  decode = λ text. if text == "stopped at c2" then some stopped_record else none;
  strings = plain_strings;
}

abbrev pub stopping : GitEnv
stopping = small_env small_git one_text

is_record-eq : (p : ReplayProgress) → is_record p ≡ true → p ≡ stopped_record
is_record-eq p t = ground (
  arith,
  t,
  eq_iff p.ref "t",
  eq_iff p.base "h0",
  eq_iff p.done "c1",
  eq_iff p.stopped "c2",
  eq_iff p.onto "h0",
)

read_back :
    (p : ReplayProgress) (text : String) (b : Bool)
    → is_record p ≡ b
    → (if b then some "stopped at c2" else none) ≡ some text
    → (if text == "stopped at c2" then some stopped_record else none) ≡ some p
read_back p text true t e =
    let same : "stopped at c2" ≡ text = ground (arith, e) in
    subst (λ x. (if x == "stopped at c2" then some stopped_record else none) ≡ some p) same
      (ap some (sym (is_record-eq p t)))
read_back p text false t e = absurd (ground (arith, e))

pub stopping-ReadsBack : ReadsBack stopping
stopping-ReadsBack p text e = read_back p text (is_record p) refl e

abbrev pub calm_env : GitEnv
calm_env = small_env (λ repo list o. (some (output list), o)) (λ p. some "saved")

abbrev pub fresh : {env : GitEnv} → env.Outside → GitWorld env
fresh o = record { disk = record { file = none; leftovers = 0 }; outside = o; calls = [] }

pub calm_env-IsCalm : IsCalm calm_env
calm_env-IsCalm = (
  (λ repo command o needed. (output (args command), o, refl)),
  (λ o. refl),
  (λ p. ("saved", refl)),
)
