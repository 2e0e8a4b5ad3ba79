-- ===== src/State/Disk.antt =====
-- The file that WriteFileAtomic of internal/state/atomic.go replaces, and its directory. What the
-- operating system refuses is chosen by `Faults`, one test for each call that may fail.
pub mod Laws
use bivouac.Prelude.{ℕ, ◌+◌, Bool, true, false, String, Option, none, some, if◌then◌else◌}

-- `mode` holds the permission bits; `synced` says that the text has reached the file system.
pub record File : Type 0 where
  pub text : String
  pub mode : ℕ
  pub synced : Bool

-- `leftovers` counts the temporary files that could not be removed.
pub record Disk : Type 0 where
  pub file : Option File
  pub leftovers : ℕ

pub record Faults : Type 0 where
  pub mkdir : Bool
  pub stat : Bool
  pub create : Bool
  pub chmod : Bool
  pub write : Bool
  pub sync : Bool
  pub close : Bool
  pub rename : Bool
  pub open_dir : Bool
  pub sync_dir : Bool
  pub close_dir : Bool
  pub unlink : Bool
  -- The part of the text that a write has stored when it fails.
  pub stored : String

-- An existing file's permissions are retained.
abbrev pub kept_mode : Option File → ℕ → ℕ
kept_mode none mode = mode
kept_mode (some old) mode = old.mode

-- The deferred os.Remove of the temporary file, whose own error is ignored.
unfoldable pub discard : Faults → Disk → Disk
discard f d = if f.unlink then record d { leftovers = d.leftovers + 1 } else d

-- The calls on the temporary file: what it is afterwards, and whether an error is returned.
abbrev pub empty_temp : File
empty_temp = record { text = ""; mode = 384; synced = false }

abbrev pub chmod : Faults → ℕ → File → File × Bool
chmod f mode temp = if f.chmod then (temp, true) else (record temp { mode = mode }, false)

abbrev pub write : Faults → String → File → File × Bool
write f text temp =
    if f.write
    then (record temp { text = f.stored; synced = false }, true)
    else (record temp { text = text; synced = false }, false)

abbrev pub sync : Faults → File → File × Bool
sync f temp = if f.sync then (temp, true) else (record temp { synced = true }, false)

-- The descriptor is of no use afterwards, whether or not there was an error.
abbrev pub close : Faults → File → File × Bool
close f temp = (temp, f.close)

-- The opening, the Sync and the deferred Close of the directory: whether an error is returned.
abbrev pub sync_directory : Faults → Bool
sync_directory f = if f.open_dir then true else if f.sync_dir then true else f.close_dir

-- os.Rename puts the temporary file in the place of the file; then the directory is synced.
abbrev pub rename : Faults → File → Disk → Disk × Bool
rename f temp d =
    if f.rename then (discard f d, true) else (record d { file = some temp }, sync_directory f)

-- A step that returned an error ends the run, which removes the temporary file.
abbrev pub unless_failed : Faults → Disk → File × Bool → (File → Disk × Bool) → Disk × Bool
unless_failed f d (temp, true) rest = (discard f d, true)
unless_failed f d (temp, false) rest = rest temp

-- WriteFileAtomic: the directory afterwards, and whether an error is returned. After the rename
-- the temporary name is gone, so that the deferred removal does nothing.
unfoldable pub write_file_atomic : Faults → String → ℕ → Disk → Disk × Bool
unfolding discard
write_file_atomic f text mode d =
    if f.mkdir
    then (d, true)
    else if f.stat
    then (d, true)
    else if f.create
    then (d, true)
    else unless_failed f d (chmod f (kept_mode d.file mode) empty_temp) (λ moded.
      unless_failed f d (write f text moded) (λ written.
        unless_failed f d (sync f written)
          (λ synced. unless_failed f d (close f synced) (λ closed. rename f closed d))))
