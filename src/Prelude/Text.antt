-- ===== src/Prelude/Text.antt =====
-- Texts taken apart by their characters: prefixes and codes.
use Prim.Native.Nat.{ℕ}
use Prim.Native.Char.{code}
use Prim.Native.String.{String}
use mathlib.Core.Option.{Option, none, some}
use mathlib.Core.List.{List, [], ◌∷◌}
use bivouac.Prelude.Tests.{eqb, if◌then◌else◌}

-- The code points of a text: its bytes, if it is ASCII.
abbrev pub codes : String → List ℕ
codes String.[] = []
codes (String.◌∷◌ c s) = code c ∷ codes s

-- strings.CutPrefix: what follows `begin` in a text that begins with it.
abbrev pub cut_prefix : String → String → Option String
cut_prefix String.[] text = some text
cut_prefix (String.◌∷◌ b begin) text = elim text [
  | String.[] ↦ none
  | String.◌∷◌ t rest ↦
      let more = cut_prefix begin rest in if eqb (code b) (code t) then more else none
]
