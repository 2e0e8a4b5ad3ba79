-- ===== src/Tests/Codec.antt =====
-- An encoding/json for tests: a table of the contents that it can write, each with its text.
use native.Mathlib.Decide.{ℕ_discrete}
use bivouac.Prelude.{
  Bool, true, false, ◌≡◌, ◌≢◌, ◌||◌, if◌then◌else◌, refl, ap, ◌⊎◌, inl, inr, String, Option, none,
  some, List, [], ◌∷◌, ◌==◌, eq_iff, ne_of_eq_false, arith,
}
use bivouac.State.Types.{Records, Json}
use bivouac.State.Entries.{lookup}
use bivouac.State.Settle.{settle, ReadsBack}

text_discrete : Discrete String
text_discrete s t = go (s == t) refl
  where
    go : (b : Bool) → (s == t) ≡ b → Dec (s ≡ t)
    go true e = yes ((eq_iff s t).0 e)
    go false e = no (ne_of_eq_false s t e)

Contents-discrete : Discrete (Option Records)
Contents-discrete = hlevel (ℕ_discrete, text_discrete)

abbrev pub entry : Option Records → Option (Option Records)
entry none = none
entry (some m) = some (some m)

-- The one text that is valid, as it is and as it is written.
abbrev spaced : String → String
spaced text = if text == "1" then " 1" else text

spaced_valid :
    (payload : String)
    → payload ≢ ""
    → (payload == "1" || payload == " 1") ≡ true
    → (spaced payload ≢ "") × ((spaced payload == "1" || spaced payload == " 1") ≡ true)
spaced_valid payload some_text valid = go (payload == "1") refl
  where
    go :
        (b : Bool)
        → (payload == "1") ≡ b
        → ((if b then " 1" else payload) ≢ "")
          × (((if b then " 1" else payload) == "1" || (if b then " 1" else payload) == " 1") ≡ true)
    go true one = (ne_of_eq_false " 1" "" refl, refl)
    go false other = (some_text, valid)

module _ (table : List (String × Records)) where
  chosen :
      (text : String) (m : Records)
      → Dec (lookup text table ≡ some (settle spaced m))
      → Option String
      → Option String
  chosen text m (yes _) rest = some text
  chosen text m (no _) rest = rest

  -- The first text among those given that reads back as the settled records.
  text_of : Records → List (String × Records) → Option String
  unfolding Contents-discrete chosen
  text_of m [] = none
  text_of m ((text, n) ∷ l) =
      chosen text m (Contents-discrete (lookup text table) (some (settle spaced m))) (text_of m l)

  unfoldable pub codec : Json
  unfolding text_of text_discrete
  codec = record {
    valid = λ text. text == "1" || text == " 1";
    indented = spaced;
    marshal = λ m. text_of m table;
    unmarshal = λ text. entry (lookup text table);
  }

  chosen_sound :
      (text t : String) (m : Records) (d : Dec (lookup text table ≡ some (settle spaced m)))
      (rest : Option String)
      → chosen text m d rest ≡ some t
      → (lookup t table ≡ some (settle spaced m)) ⊎ (rest ≡ some t)
  unfolding chosen
  chosen_sound text t m (yes e) rest h = inl (ground arith)
  chosen_sound text t m (no e) rest h = inr h

  text_of_sound :
      (m : Records) (l : List (String × Records)) (text : String)
      → text_of m l ≡ some text
      → lookup text table ≡ some (settle spaced m)
  unfolding text_of
  text_of_sound m [] text h = absurd (ground arith)
  text_of_sound m ((t, n) ∷ l) text h =
      elim (chosen_sound t text m (Contents-discrete (lookup t table) (some (settle spaced m)))
        (text_of m l) h) [ inl here ↦ here | inr there ↦ text_of_sound m l text there ]

  pub codec-ReadsBack : ReadsBack codec
  unfolding codec
  codec-ReadsBack = record {
    reads_back = λ m text h. ap entry (text_of_sound m table text h);
    stays_valid = spaced_valid;
  }
