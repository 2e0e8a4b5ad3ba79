-- ===== src/Shell/Laws.antt =====
-- What was quoted is read back by the shell as one word, whatever its bytes are.
use mathlib.Core.List.{append_assoc, append-nil}
use bivouac.Prelude.{
  ℕ, Bool, true, false, ◌≡◌, refl, sym, ap, subst, ◌∙◌, Option, none, some, List, [], ◌∷◌, ◌++◌,
  map, codes, eqb, if◌then◌else◌, arith,
}
use bivouac.Shell.{Bytes, escaped, escape, quote, join_words, login_shell, remote_line, remote}
use bivouac.Shell.Words.{quoted, Reader, read_bare, read_by, read_all, start, at_word, ended, words}

read_all-cons :
    (r r' : Reader) (c : ℕ) (s : Bytes)
    → read_by r.mode r c ≡ some r'
    → read_all r (c ∷ s) ≡ read_all r' s
unfolding read_all
read_all-cons r r' c s e =
    subst
      (λ o.
        elim o as (λ x. Option Reader) [ none ↦ none | some r1 ↦ read_all r1 s ] ≡ read_all r' s)
      (sym e) refl

-- The step of `read_all-append`, which has the claim for the rest.
append_step :
    (o : Option Reader) (r r' : Reader) (c : ℕ) (a b : Bytes)
    → ((r1 : Reader) → read_all r1 a ≡ some r' → read_all r1 (a ++ b) ≡ read_all r' b)
    → read_by r.mode r c ≡ o
    → read_all r (c ∷ a) ≡ some r'
    → read_all r (c ∷ a ++ b) ≡ read_all r' b
unfolding read_all
append_step none r r' c a b rest e h = absurd (ground (arith, e, h))
append_step (some r1) r r' c a b rest e h =
    read_all-cons r r1 c (a ++ b) e ∙ rest r1 (sym (read_all-cons r r1 c a e) ∙ h)

read_all-append :
    (r r' : Reader) (a b : Bytes) → read_all r a ≡ some r' → read_all r (a ++ b) ≡ read_all r' b
unfolding read_all
read_all-append r r' [] b h = let same : r ≡ r' = ground arith in ap (λ x. read_all x b) same
read_all-append r r' (c ∷ a) b h =
    append_step (read_by r.mode r c) r r' c a b (λ r1. read_all-append r1 r' a b) refl h

abbrev in_quotes : Bytes → List Bytes → Reader
in_quotes word done = record { mode = quoted; word = word; done = done }

-- One byte of the quoted text, by what the test for an apostrophe said.
escaped_by :
    (b : Bool) (c : ℕ) (word : Bytes) (done : List Bytes)
    → eqb c 39 ≡ b
    → read_all (in_quotes word done) (if b then escaped else c ∷ [])
      ≡ some (in_quotes (word ++ c ∷ []) done)
unfolding read_all read_by read_bare
escaped_by true c word done e =
    let same : c ≡ 39 = ground (arith, e) in
    subst (λ x. some (in_quotes (word ++ 39 ∷ []) done) ≡ some (in_quotes (word ++ x ∷ []) done))
      (sym same) refl
escaped_by false c word done e =
    read_all-cons (in_quotes word done) (in_quotes (word ++ c ∷ []) done) c [] (ground (arith, e))

read_all-escape :
    (s word : Bytes) (done : List Bytes)
    → read_all (in_quotes word done) (escape s) ≡ some (in_quotes (word ++ s) done)
unfolding escape read_all
read_all-escape [] word done = rw append-nil refl
read_all-escape (c ∷ s) word done =
    read_all-append (in_quotes word done) (in_quotes (word ++ c ∷ []) done)
      (if eqb c 39 then escaped else c ∷ []) (escape s) (escaped_by (eqb c 39) c word done refl)
    ∙ read_all-escape s (word ++ c ∷ []) done
    ∙ ap (λ w. some (in_quotes w done)) (append_assoc word (c ∷ []) s)

-- A quoted text between words or after the start of one.
read_all-quote :
    (s : Bytes) (done : List Bytes) → read_all (start done) (quote s) ≡ some (at_word s done)
unfolding quote read_all read_by
read_all-quote s done =
    read_all-append (in_quotes [] done) (in_quotes s done) (escape s) (39 ∷ [])
      (read_all-escape s [] done)

-- A text that the shell reads as one word.
abbrev pub IsWord : Bytes → Bytes → Type 0
IsWord text word = (done : List Bytes) → read_all (start done) text ≡ some (at_word word done)

abbrev pub AreWords : List Bytes → List Bytes → Type 0
AreWords [] [] = Unit
AreWords (t ∷ texts) (w ∷ values) = IsWord t w × AreWords texts values
AreWords _ _ = ⊥

read_all-blank :
    (word : Bytes) (done : List Bytes) (s : Bytes)
    → read_all (at_word word done) (32 ∷ s) ≡ read_all (start (done ++ word ∷ [])) s
unfolding read_all read_by
read_all-blank word done s = refl

join_words-read :
    (texts values : List Bytes) (done : List Bytes)
    → AreWords texts values
    → ended (read_all (start done) (join_words texts)) ≡ some (done ++ values)
unfolding join_words ended read_all
join_words-read [] [] done h = rw append-nil refl
join_words-read [] (w ∷ values) done h = elim h [ ]
join_words-read (t ∷ []) [] done h = elim h [ ]
join_words-read (t ∷ []) (w ∷ v ∷ values) done h = elim h.1 [ ]
join_words-read (t ∷ u ∷ texts) [] done h = elim h [ ]
join_words-read (t ∷ u ∷ texts) (w ∷ []) done h = elim h.1 [ ]
join_words-read (t ∷ []) (w ∷ []) done h = ap ended (h.0 done)
join_words-read (t ∷ u ∷ texts) (w ∷ v ∷ values) done h =
    ap ended (
      read_all-append (start done) (at_word w done) t _ (h.0 done)
      ∙ read_all-blank w done (join_words (u ∷ texts)))
    ∙ join_words-read (u ∷ texts) (v ∷ values) (done ++ w ∷ []) h.1
    ∙ ap some (append_assoc done (w ∷ []) (v ∷ values))

AreWords-append :
    (texts values more news : List Bytes)
    → AreWords texts values
    → AreWords more news
    → AreWords (texts ++ more) (values ++ news)
AreWords-append [] [] more news h k = k
AreWords-append [] (v ∷ values) more news h k = elim h [ ]
AreWords-append (t ∷ texts) [] more news h k = elim h [ ]
AreWords-append (t ∷ texts) (v ∷ values) more news h k =
    (h.0, AreWords-append texts values more news h.1 k)

quote-AreWords : (args : List Bytes) → AreWords (map quote args) args
quote-AreWords [] = tt
quote-AreWords (s ∷ args) = (read_all-quote s, quote-AreWords args)

-- The shell reads a command line that was wrapped for the login shell as the three words bash, -lc and
-- the line itself.
words-login_shell :
    (inner : Bytes) → words (login_shell inner) ≡ some (codes "bash" ∷ codes "-lc" ∷ inner ∷ [])
unfolding words ended login_shell read_all read_by read_bare
words-login_shell inner = ap ended (
    read_all-append (start []) (start (codes "bash" ∷ codes "-lc" ∷ [])) (codes "bash -lc ")
      (quote inner) refl
    ∙ read_all-quote inner (codes "bash" ∷ codes "-lc" ∷ []))

-- A remote command passes two shells: the first reads the words bash, -lc and a line, and the second reads
-- from that line the words of the prefix and then the arguments, each with the bytes that it had; where
-- the shell reads each text of the prefix as one word.
pub words-remote :
    (prefix values args : List Bytes)
    → AreWords prefix values
    → (words (remote prefix args)
        ≡ some (codes "bash" ∷ codes "-lc" ∷ remote_line prefix args ∷ []))
      × (words (remote_line prefix args) ≡ some (values ++ args))
unfolding words remote remote_line
words-remote prefix values args h = (
  words-login_shell (remote_line prefix args),
  join_words-read (prefix ++ map quote args) (values ++ args) []
      (AreWords-append prefix values (map quote args) args h (quote-AreWords args)),
)
