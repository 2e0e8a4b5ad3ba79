-- ===== src/Shell.antt =====
-- Shell commands as they are built for an instance: internal/shellcmd/shellcmd.go. A Go string is the
-- list of its bytes.
pub mod Words
pub mod Laws
use bivouac.Prelude.{ℕ, true, false, List, [], ◌∷◌, ◌++◌, map, codes, eqb, if◌then◌else◌}

abbrev pub Bytes : Type 0
Bytes = List ℕ

-- ' and space
abbrev pub apostrophe : ℕ
apostrophe = 39

abbrev pub blank_byte : ℕ
blank_byte = 32

-- '\'' in the place of each apostrophe
abbrev pub escaped : Bytes
escaped = 39 ∷ 92 ∷ 39 ∷ 39 ∷ []

-- strings.ReplaceAll(s, "'", `'\''`)
unfoldable pub escape : Bytes → Bytes
escape [] = []
escape (c ∷ s) = (if eqb c apostrophe then escaped else c ∷ []) ++ escape s

-- Quote
unfoldable pub quote : Bytes → Bytes
unfolding escape
quote s = apostrophe ∷ escape s ++ apostrophe ∷ []

-- strings.Join(words, " ")
unfoldable pub join_words : List Bytes → Bytes
join_words [] = []
join_words (w ∷ []) = w
join_words (w ∷ v ∷ ws) = w ++ blank_byte ∷ join_words (v ∷ ws)

-- LoginShell
unfoldable pub login_shell : Bytes → Bytes
unfolding quote
login_shell inner = codes "bash -lc " ++ quote inner

-- The command line that Remote hands to the login shell, and Remote.
unfoldable pub remote_line : List Bytes → List Bytes → Bytes
unfolding quote join_words
remote_line prefix args = join_words (prefix ++ map quote args)

unfoldable pub remote : List Bytes → List Bytes → Bytes
unfolding login_shell remote_line
remote prefix args = login_shell (remote_line prefix args)
