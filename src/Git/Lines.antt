-- ===== src/Git/Lines.antt =====
-- The output of git taken apart: trimLine and nonEmptyLines of internal/lifecycle/gitexec.go, and the
-- parts of strconv and strings that are used on it.
use Prim.Native.Char.{code}
use bivouac.Prelude.{
  ℕ, ◌+◌, ◌-◌, ◌*◌, Bool, true, not, ◌&&◌, ◌||◌, String, Option, none, some, List, [], ◌∷◌, map,
  ◌==◌, if◌then◌else◌, eqb, leb, ltb, codes, keep,
}

-- trimLine
abbrev pub trim_line : String → String
trim_line String.[] = ""
trim_line (String.◌∷◌ c s) =
    let rest = trim_line s in
    if rest == "" && (eqb (code c) 10 || eqb (code c) 13 || eqb (code c) 32)
    then ""
    else String.◌∷◌ c rest

-- strings.Split(s, "\n")
abbrev pub on_first : (String → String) → List String → List String
on_first f [] = []
on_first f (l ∷ ls) = f l ∷ ls

abbrev pub split_lines : String → List String
split_lines String.[] = "" ∷ []
split_lines (String.◌∷◌ c s) =
    let rest = split_lines s in if eqb (code c) 10 then "" ∷ rest else on_first (String.◌∷◌ c) rest

-- nonEmptyLines
abbrev pub non_empty_lines : String → List String
non_empty_lines s = keep (λ l. not (l == "")) (map trim_line (split_lines s))

-- strings.HasSuffix
abbrev pub has_suffix : String → String → Bool
has_suffix suffix String.[] = suffix == ""
has_suffix suffix (String.◌∷◌ c s) =
    let rest = has_suffix suffix s in if suffix == String.◌∷◌ c s then true else rest

-- strconv.Atoi, for a number that is not negative
abbrev digits : ℕ → List ℕ → Option ℕ
digits n [] = if ltb n 9_223_372_036_854_775_808 then some n else none
digits n (c ∷ cs) =
    let more = digits (10 * n + (c - 48)) cs in if leb 48 c && leb c 57 then more else none

abbrev unsigned : List ℕ → Option ℕ
unsigned [] = none
unsigned (c ∷ cs) = digits 0 (c ∷ cs)

abbrev signed : List ℕ → Option ℕ
signed [] = none
signed (c ∷ cs) = if eqb c 43 then unsigned cs else unsigned (c ∷ cs)

abbrev pub atoi : String → Option ℕ
atoi s = signed (codes s)
