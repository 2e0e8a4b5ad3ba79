-- ===== src/Replay/Saved.antt =====
-- What a successful save leaves in the progress file, and that it is read back.
use bivouac.Prelude.{
  Bool, true, false, not, ◌&&◌, String, Option, none, some, ◌≡◌, refl, sym, ap, ◌∙◌, inl, inr, ◌==◌,
  arith, ok,
}
use bivouac.State.Disk.{File, write_file_atomic}
use bivouac.State.Disk.Laws.{write_file_atomic_cases}
use bivouac.Act.{fail, >>=-ok, if-ran}
use bivouac.Git.{GitCommand, GitEnv, GitWorld, ReplayProgress, FileFaults, run_git}
use bivouac.Replay.Progress.{
  replay_progress_version, progress_mode, usable_file, next_faults, write_progress, save_progress,
}

-- The record as it is saved.
abbrev pub versioned : ReplayProgress → ReplayProgress
versioned p = record p { version = replay_progress_version }

-- json.Unmarshal gives back what json.Marshal was given.
abbrev pub ReadsBack : GitEnv → Type 0
ReadsBack env =
    (p : ReplayProgress) (text : String) → env.encode p ≡ some text → env.decode text ≡ some p

module _ {env : GitEnv} where
  -- The file has the record.
  abbrev pub IsSaved : ReplayProgress → GitWorld env → Type 0
  IsSaved p w =
      (file : File) × (w.disk.file ≡ some file) × (env.encode (versioned p) ≡ some file.text)

  write_progress-IsSaved :
      (f : FileFaults) (p : ReplayProgress) (o : Option String) (w : GitWorld env) {u : Unit {0}}
      {w' : GitWorld env}
      → env.encode (versioned p) ≡ o
      → write_progress f o w ≡ (ok u, w')
      → IsSaved p w'
  unfolding write_progress
  write_progress-IsSaved f p none w e h = ground (arith, h)
  write_progress-IsSaved f p (some text) w {u} {w'} e h =
      go (write_file_atomic f.write text progress_mode w.disk).1 refl
    where
      whole : (write_file_atomic f.write text progress_mode w.disk).1 ≡ false → IsSaved p w'
      whole good =
          let there = (write_file_atomic_cases f.write text progress_mode w.disk).1 good in
          let same : record w { disk = (write_file_atomic f.write text progress_mode w.disk).0 }
              ≡ w' =
            ground (arith, h) in
          (_, ap (λ x. x.disk.file) (sym same) ∙ there, e)

      go : (b : Bool) → (write_file_atomic f.write text progress_mode w.disk).1 ≡ b → IsSaved p w'
      go true k = absurd (ground (arith, h, k))
      go false k = whole k

  pub save_progress-IsSaved :
      (repo : String) (p : ReplayProgress) (w : GitWorld env) {u : Unit {0}} {w' : GitWorld env}
      → save_progress repo p w ≡ (ok u, w')
      → IsSaved p w'
  unfolding save_progress fail
  save_progress-IsSaved repo p w h =
      let (dir, v, located, rest) = >>=-ok (run_git repo GitCommand.absolute_git_dir) _ w h in
      let (f, x, asked, more) = >>=-ok next_faults _ v rest in
      elim (if-ran f.mkdir _ _ x more) [
        | inl (t, k) ↦ ground (arith, k)
        | inr (t, k) ↦ write_progress-IsSaved f p (env.encode (versioned p)) x refl k
      ]

  -- A saved record is read back, if it has a tip and a base and the file can be read.
  pub usable_file-IsSaved :
      (p : ReplayProgress) (w : GitWorld env) (f : FileFaults)
      → ReadsBack env
      → IsSaved p w
      → f.read ≡ false
      → (not (p.ref == "") && not (p.base == "")) ≡ true
      → usable_file env.decode f w.disk.file ≡ some (versioned p)
  usable_file-IsSaved p w f back (file, there, text) readable named =
      rw (there, readable, back (versioned p) file.text text, named) refl
