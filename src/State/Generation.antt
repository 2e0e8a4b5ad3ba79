-- ===== src/State/Generation.antt =====
-- Session generations, opaque 128-bit identities written in hexadecimal: NewSessionGeneration and
-- validateGeneration of internal/state/session_lifecycle.go, and the parts of encoding/hex and
-- crypto/rand that they call. A text is read by its characters; every byte of a character outside
-- ASCII is refused by encoding/hex, as its character is here.
pub mod Laws
use Prim.Native.Char.{Char}
use bivouac.Prelude.{
  ℕ, ◌+◌, ◌-◌, ◌*◌, ◌/◌, ◌%◌, Bool, true, false, ◌&&◌, String, Option, none, some, List, [], ◌∷◌,
  leb, eqb, codes, length, if◌then◌else◌,
}

-- The value of a hexadecimal digit.
unfoldable pub hex_digit : ℕ → Option ℕ
hex_digit c =
    if leb b'0' c && leb c b'9'
    then some (c - b'0')
    else if leb b'a' c && leb c b'f'
    then some (c - b'a' + 10)
    else if leb b'A' c && leb c b'F'
    then some (c - b'A' + 10)
    else none

unfoldable pub pair : Option ℕ → Option ℕ → Option (List ℕ) → Option (List ℕ)
pair (some high) (some low) (some rest) = some ((high * 16 + low) ∷ rest)
pair _ _ _ = none

unfoldable pub hex_decode : List ℕ → Option (List ℕ)
unfolding hex_digit pair
hex_decode [] = some []
hex_decode (a ∷ []) = none
hex_decode (a ∷ b ∷ rest) = pair (hex_digit a) (hex_digit b) (hex_decode rest)

unfoldable pub hex_char : ℕ → Char
hex_char n =
    if eqb n 0
    then "0"
    else if eqb n 1
    then "1"
    else if eqb n 2
    then "2"
    else if eqb n 3
    then "3"
    else if eqb n 4
    then "4"
    else if eqb n 5
    then "5"
    else if eqb n 6
    then "6"
    else if eqb n 7
    then "7"
    else if eqb n 8
    then "8"
    else if eqb n 9
    then "9"
    else if eqb n 10
    then "a"
    else if eqb n 11
    then "b"
    else if eqb n 12
    then "c"
    else if eqb n 13
    then "d"
    else if eqb n 14
    then "e"
    else "f"

unfoldable pub hex_encode : List ℕ → String
unfolding hex_char
hex_encode [] = ""
hex_encode (b ∷ bytes) =
    String.◌∷◌ (hex_char (b / 16)) (String.◌∷◌ (hex_char (b % 16)) (hex_encode bytes))

unfoldable pub is_sixteen : Option (List ℕ) → Bool
is_sixteen none = false
is_sixteen (some raw) = eqb (length raw) 16

-- validateGeneration: true where the source returns nil.
unfoldable pub generation_ok : String → Bool
unfolding hex_decode is_sixteen
generation_ok generation = is_sixteen (hex_decode (codes generation))

-- NewSessionGeneration, given what rand.Read filled the buffer with, or that it failed.
unfoldable pub new_session_generation : Option (List ℕ) → Option String
unfolding hex_encode
new_session_generation none = none
new_session_generation (some raw) = some (hex_encode raw)
