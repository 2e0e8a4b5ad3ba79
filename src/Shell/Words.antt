-- ===== src/Shell/Words.antt =====
-- How a POSIX shell takes a command line apart into words, where the line has only blanks, plain
-- characters, text in single quotes, and characters behind a backslash: the specification that the
-- quoting is for. Any other line is refused.
use bivouac.Prelude.{
  ℕ, Bool, ◌&&◌, ◌||◌, Option, none, some, List, [], ◌∷◌, ◌++◌, eqb, leb, if◌then◌else◌,
}

-- Between words, in a word, in single quotes, behind a backslash.
pub data Mode : Type 0 where
  between inside quoted behind : Mode

-- `done` has the words before the one that is being read.
pub record Reader : Type 0 where
  pub mode : Mode
  pub word : List ℕ
  pub done : List (List ℕ)

-- Letters, digits and the marks - _ . / : = @ % + ,
abbrev pub is_plain : ℕ → Bool
is_plain c =
    (leb 65 c && leb c 90)
    || (leb 97 c && leb c 122)
    || (leb 45 c && leb c 58)
    || eqb c 95
    || eqb c 61
    || eqb c 64
    || eqb c 37
    || eqb c 43
    || eqb c 44

abbrev pub add : ℕ → Reader → Reader
add c r = record r { mode = inside; word = r.word ++ c ∷ [] }

abbrev pub close_word : Mode → Reader → Reader
close_word between r = r
close_word _ r = record { mode = between; word = []; done = r.done ++ r.word ∷ [] }

unfoldable pub read_bare : Reader → ℕ → Option Reader
read_bare r c =
    if eqb c 32
    then some (close_word r.mode r)
    else if eqb c 39
    then some (record r { mode = quoted })
    else if eqb c 92
    then some (record r { mode = behind })
    else if is_plain c
    then some (add c r)
    else none

unfoldable pub read_by : Mode → Reader → ℕ → Option Reader
unfolding read_bare
read_by between r c = read_bare r c
read_by inside r c = read_bare r c
read_by quoted r c =
    if eqb c 39
    then some (record r { mode = inside })
    else some (record r { word = r.word ++ c ∷ [] })
-- a newline behind a backslash joins two lines, which are not read here
read_by behind r c = if eqb c 10 then none else some (add c r)

unfoldable pub read_all : Reader → List ℕ → Option Reader
unfolding read_by
read_all r [] = some r
read_all r (c ∷ s) = elim (read_by r.mode r c) [ none ↦ none | some r' ↦ read_all r' s ]

abbrev pub start : List (List ℕ) → Reader
start done = record { mode = between; word = []; done = done }

-- In a word, which has been read so far.
abbrev pub at_word : List ℕ → List (List ℕ) → Reader
at_word word done = record { mode = inside; word = word; done = done }

abbrev pub finished : Mode → Reader → Option (List (List ℕ))
finished between r = some r.done
finished inside r = some (r.done ++ r.word ∷ [])
finished quoted r = none
finished behind r = none

unfoldable pub ended : Option Reader → Option (List (List ℕ))
ended none = none
ended (some r) = finished r.mode r

unfoldable pub words : List ℕ → Option (List (List ℕ))
unfolding read_all ended
words line = ended (read_all (start []) line)
