-- ===== src/Replay/Progress.antt =====
-- The progress file: internal/lifecycle/replayprogress.go. It stands at one path under the directory
-- that git answers with.
use bivouac.Prelude.{
  ℕ, Bool, not, ◌&&◌, String, Option, none, some, ◌==◌, if◌then◌else◌, eqb, Result, ok, err,
}
use bivouac.State.Disk.{File, Disk, write_file_atomic}
use bivouac.Act.{pure, fail, lift, ◌>>=◌, ◌>>◌}
use bivouac.Git.{GitCommand, GitEnv, Work, ReplayProgress, FileFaults, WorkError, try_git, run_git}

-- replayProgressVersion
abbrev pub replay_progress_version : ℕ
replay_progress_version = 1

-- 0o600
abbrev pub progress_mode : ℕ
progress_mode = 384

abbrev pub is_complete : ReplayProgress → Bool
is_complete p =
    eqb p.version replay_progress_version
    && not (p.ref == "")
    && not (p.base == "")
    && not (p.onto == "")

abbrev pub is_usable : ReplayProgress → Bool
is_usable p = not (p.ref == "") && not (p.base == "")

abbrev pub valid_record : Option ReplayProgress → Result WorkError (Unit {0})
valid_record none = err WorkError.corrupt_progress
valid_record (some p) = if is_complete p then ok tt else err WorkError.incomplete_progress

abbrev pub valid_file :
    (String → Option ReplayProgress) → FileFaults → Option File → Result WorkError (Unit {0})
valid_file decode f none = ok tt
valid_file decode f (some file) =
    if f.read then err WorkError.unreadable_progress else valid_record (decode file.text)

abbrev pub usable_record : Option ReplayProgress → Option ReplayProgress
usable_record none = none
usable_record (some p) = if is_usable p then some p else none

abbrev pub usable_file :
    (String → Option ReplayProgress) → FileFaults → Option File → Option ReplayProgress
usable_file decode f none = none
usable_file decode f (some file) = if f.read then none else usable_record (decode file.text)

module _ {env : GitEnv} where
  -- What fails in the next access to the file.
  unfoldable pub next_faults : Work env FileFaults
  next_faults w = let (f, o) = env.faults w.outside in (ok f, record w { outside = o })

  unfoldable pub the_disk : Work env Disk
  the_disk w = (ok w.disk, w)

  -- validateReplayProgressFile
  unfoldable pub validate_progress : String → Work env (Unit {0})
  unfolding run_git next_faults the_disk lift
  validate_progress repo = do
    run_git repo GitCommand.absolute_git_dir
    f ← next_faults
    d ← the_disk
    lift (valid_file env.decode f d.file)

  unfoldable pub load_at : Option String → Work env (Option ReplayProgress)
  unfolding next_faults the_disk
  load_at none = pure none
  load_at (some dir) = do f ← next_faults; d ← the_disk; pure (usable_file env.decode f d.file)

  -- loadReplayProgress
  unfoldable pub load_progress : String → Work env (Option ReplayProgress)
  unfolding try_git load_at
  load_progress repo = do dir ← try_git repo GitCommand.absolute_git_dir; load_at dir

  unfoldable pub write_progress : FileFaults → Option String → Work env (Unit {0})
  write_progress f none w = (err WorkError.unencodable_progress, w)
  write_progress f (some text) w =
      let (d, failed) = write_file_atomic f.write text progress_mode w.disk in
      (if failed then err WorkError.unwritable_progress else ok tt, record w { disk = d })

  -- saveReplayProgress
  unfoldable pub save_progress : String → ReplayProgress → Work env (Unit {0})
  unfolding run_git next_faults write_progress
  save_progress repo p = do
    run_git repo GitCommand.absolute_git_dir
    f ← next_faults
    if f.mkdir
        then fail WorkError.no_directory
        else write_progress f (env.encode (record p { version = replay_progress_version }))

  unfoldable pub remove_file : FileFaults → Work env (Unit {0})
  remove_file f w =
      (ok tt, if f.remove then w else record w { disk = record w.disk { file = none } })

  unfoldable pub clear_at : Option String → Work env (Unit {0})
  unfolding next_faults remove_file
  clear_at none = pure tt
  clear_at (some dir) = next_faults >>= remove_file

  -- clearReplayProgress
  unfoldable pub clear_progress : String → Work env (Unit {0})
  unfolding try_git clear_at
  clear_progress repo = do dir ← try_git repo GitCommand.absolute_git_dir; clear_at dir
