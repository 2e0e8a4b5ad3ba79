-- ===== src/Tests/Ends.antt =====
-- A retirement that completes under the policies, in a repository whose head is the verified one.
use bivouac.Prelude.{true, false, String, none, some, List, [], ◌∷◌, ◌==◌, if◌then◌else◌, ok}
use bivouac.State.Types.{RetirementPhase}
use bivouac.Retirement.Types.{RetirementResult, Env}
use bivouac.Retirement.Exec.{World}
use bivouac.Act
use bivouac.Git.{GitEnv}
use bivouac.Replay.Live.{no_file_faults}
use bivouac.Retirement.Policy.{Instance}
use bivouac.Retirement.Policy.InPlace.{GitInside, with_policies}
use bivouac.Tests.Machine.{calm, file_of}
use bivouac.Tests.Replays.{plain_strings, fresh}

abbrev at_c3 : List String → String
at_c3 [] = ""
at_c3 (command ∷ rest) =
    if command == "log"
    then "c2 G\nc3 G\n"
    else elim rest [ [] ↦ "" | option ∷ more ↦ if option == "HEAD" then "c3\n" else "main\n" ]

abbrev signed_env : GitEnv
signed_env = record {
  Outside = Unit {0};
  git = λ repo list u. (some (at_c3 list), u);
  stat = λ path u. (false, u);
  join_path = λ parts. "";
  faults = λ u. (no_file_faults, u);
  encode = λ p. none;
  decode = λ text. none;
  strings = plain_strings;
}

abbrev nobody : Instance signed_env
nobody = record {
  rescue = λ r s u. (ok ("ref", "c2"), u);
  pull = λ r s accept final u. (ok ("pulled", none), u);
  landed = λ r s u. (ok tt, u);
}

abbrev beside : GitInside calm signed_env
beside = record {
  inside = λ u. fresh {env = signed_env} u;
  put_back = λ w u. u;
  failure = λ e. record { text = "failed"; unproven = false; unsynced = false };
}

abbrev policed : Env
policed = with_policies calm signed_env beside nobody

abbrev in_file : String → World policed
in_file text = record { disk = file_of text; outside = tt }

abbrev merged_result : RetirementResult
merged_result = record {
  completed = true;
  already_completed = false;
  phase = RetirementPhase.removing;
  signed = "c3" ∷ [];
  issues = none;
}
