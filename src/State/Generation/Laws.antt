-- ===== src/State/Generation/Laws.antt =====
-- A generation that was made is one that validates.
use Prim.Native.Char.{code}
use bivouac.Prelude.{
  ℕ, zero, suc, ◌/◌, ◌%◌, ◌<◌, ◌≡◌, refl, Bool, true, false, if◌then◌else◌, String, Option, none,
  some, List, [], ◌∷◌, arith, All, eqb, codes, length,
}
use bivouac.State.Generation.{
  hex_digit, hex_char, hex_decode, hex_encode, generation_ok, new_session_generation,
}

passes_below : (ℕ → Bool) → ℕ → Bool
passes_below test zero = true
passes_below test (suc bound) = if test bound then passes_below test bound else false

passes_at :
    (test : ℕ → Bool) (bound k : ℕ) → k < bound → passes_below test bound ≡ true → test k ≡ true
unfolding passes_below
passes_at test zero k less h = absurd (omega arith)
passes_at test (suc bound) k less h = ground (arith, passes_at test bound k)

abbrev is_digit : ℕ → Option ℕ → Bool
is_digit n none = false
is_digit n (some m) = eqb m n

is_digit_sound : (n : ℕ) (o : Option ℕ) → is_digit n o ≡ true → o ≡ some n
is_digit_sound n none h = ground arith
is_digit_sound n (some m) h = ground arith

-- The sixteen digits, read back.
digits_table : passes_below (λ n. is_digit n (hex_digit (code (hex_char n)))) 16 ≡ true
unfolding passes_below hex_digit hex_char
digits_table = refl

hex_digit-hex_char : (n : ℕ) → n < 16 → hex_digit (code (hex_char n)) ≡ some n
hex_digit-hex_char n h =
    is_digit_sound n _
      (passes_at (λ n. is_digit n (hex_digit (code (hex_char n)))) 16 n h digits_table)

hex_decode-hex_encode :
    (raw : List ℕ) → All (λ b. b < 256) raw → hex_decode (codes (hex_encode raw)) ≡ some raw
unfolding hex_decode hex_encode
hex_decode-hex_encode [] h = refl
hex_decode-hex_encode (b ∷ raw) h =
    ground
      (arith, hex_digit-hex_char (b / 16), hex_digit-hex_char (b % 16), hex_decode-hex_encode raw)

-- Whatever sixteen bytes the random source gives, the generation made of them passes the check
-- that every later load and save makes.
pub new_session_generation_ok :
    (raw : List ℕ) (g : String)
    → All (λ b. b < 256) raw
    → length raw ≡ 16
    → new_session_generation (some raw) ≡ some g
    → generation_ok g ≡ true
unfolding new_session_generation generation_ok
new_session_generation_ok raw g bytes sixteen made = ground (arith, hex_decode-hex_encode raw)
