-- ===== src/State/Disk/Laws.antt =====
-- A replacement is whole or absent.
use bivouac.Prelude.{ℕ, true, false, ◌||◌, ◌≡◌, ◌⊎◌, String, some, arith}
use bivouac.State.Disk.{File, Disk, Faults, kept_mode, write_file_atomic}

-- The file that a replacement publishes.
abbrev pub published : String → ℕ → Disk → File
published text mode d = record { text = text; mode = kept_mode d.file mode; synced = true }

-- Whatever fails: either the file is as it was and an error is returned, or the file is the whole new
-- one, synced and with the old one's permissions if there was one, and an error is returned exactly if the
-- directory could not be opened, synced or closed afterwards.
pub write_file_atomic_whole :
    (f : Faults) (text : String) (mode : ℕ) (d : Disk)
    → (((write_file_atomic f text mode d).0.file ≡ d.file)
        × ((write_file_atomic f text mode d).1 ≡ true))
      ⊎ (((write_file_atomic f text mode d).0.file ≡ some (published text mode d))
          × ((write_file_atomic f text mode d).1 ≡ (f.open_dir || f.sync_dir || f.close_dir)))
unfolding write_file_atomic
write_file_atomic_whole f text mode d = ground arith

-- The same by the error that is returned.
pub write_file_atomic_cases :
    (f : Faults) (text : String) (mode : ℕ) (d : Disk)
    → (((write_file_atomic f text mode d).0.file ≡ d.file)
        ⊎ ((write_file_atomic f text mode d).0.file ≡ some (published text mode d)))
      × ((write_file_atomic f text mode d).1 ≡ false
          → (write_file_atomic f text mode d).0.file ≡ some (published text mode d))
      × ((write_file_atomic f text mode d).1 ≡ true
          → (f.open_dir || f.sync_dir || f.close_dir) ≡ false
          → (write_file_atomic f text mode d).0.file ≡ d.file)
unfolding write_file_atomic
write_file_atomic_cases f text mode d = ground arith
