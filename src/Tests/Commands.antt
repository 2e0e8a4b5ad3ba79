-- ===== src/Tests/Commands.antt =====
-- The laws of the shell quoting, each applied to a command.
use bivouac.Prelude.{◌≡◌, refl, some, [], ◌∷◌, codes}
use bivouac.Shell.{Bytes, remote_line, remote}
use bivouac.Shell.Words.{words, read_all, read_by, read_bare}
use bivouac.Shell.Laws.{AreWords, words-remote}

abbrev its_title : Bytes
its_title = codes "it's a $(title)"

git_and_path-AreWords : AreWords (codes "git" ∷ codes "-C" ∷ []) (codes "git" ∷ codes "-C" ∷ [])
unfolding read_all read_by read_bare
git_and_path-AreWords = ((λ done. refl), ((λ done. refl), tt))

words-remote_example :
    (words (remote (codes "git" ∷ codes "-C" ∷ []) (its_title ∷ [] ∷ []))
      ≡ some (
          codes "bash"
          ∷ codes "-lc"
          ∷ remote_line (codes "git" ∷ codes "-C" ∷ []) (its_title ∷ [] ∷ [])
          ∷ []))
    × (words (remote_line (codes "git" ∷ codes "-C" ∷ []) (its_title ∷ [] ∷ []))
        ≡ some (codes "git" ∷ codes "-C" ∷ its_title ∷ [] ∷ []))
words-remote_example =
    words-remote (codes "git" ∷ codes "-C" ∷ []) (codes "git" ∷ codes "-C" ∷ [])
      (its_title ∷ [] ∷ []) git_and_path-AreWords
