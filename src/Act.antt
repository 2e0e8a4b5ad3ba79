-- ===== src/Act.antt =====
-- Go code that runs commands and may stop: a function of the world that answers with a value or an
-- error and the world afterwards. What was done before an error stays done.
use bivouac.Prelude.{
  Bool, true, false, if◌then◌else◌, ◌≡◌, ◌⊎◌, inl, inr, refl, ap, subst, ◌∙◌, arith, Result, ok,
  err,
}

abbrev pub Act : Type 0 → Type 0 → Type 0 → Type 0
Act E W A = W → Result E A × W

module _ {E W A : Type 0} where
  unfoldable pub pure : A → Act E W A
  pure a w = (ok a, w)

  unfoldable pub fail : E → Act E W A
  fail e w = (err e, w)

  unfoldable pub lift : Result E A → Act E W A
  lift r w = (r, w)

module _ {E W A B : Type 0} where
  unfoldable pub then_with : (A → Act E W B) → Result E A × W → Result E B × W
  then_with f (ok a, w) = f a w
  then_with f (err e, w) = (err e, w)

  infixl 5 ◌>>=◌ ◌>>◌
  unfoldable pub ◌>>=◌ : Act E W A → (A → Act E W B) → Act E W B
  unfolding then_with
  ◌>>=◌ m f w = then_with f (m w)

  abbrev pub ◌>>◌ : Act E W A → Act E W B → Act E W B
  m >> n = m >>= λ _. n

  -- A block ran in one of two ways: its first part stopped, with the block's answer, or it answered
  -- and the rest gave the block's answer.
  pub >>=-cases :
      (m : Act E W A) (f : A → Act E W B) (w : W) {r : Result E B} {w' : W}
      → (m >>= f) w ≡ (r, w')
      → ((e : E) × (m w ≡ (err e, w')) × (r ≡ err e))
        ⊎ ((a : A) × (v : W) × (m w ≡ (ok a, v)) × (f a v ≡ (r, w')))
  unfolding ◌>>=◌
  >>=-cases m f w {r} {w'} h = go (m w) refl h
    where
      go :
          (first : Result E A × W)
          → m w ≡ first
          → then_with f first ≡ (r, w')
          → ((e : E) × (m w ≡ (err e, w')) × (r ≡ err e))
            ⊎ ((a : A) × (v : W) × (m w ≡ (ok a, v)) × (f a v ≡ (r, w')))
      go (ok a, v) e k = inr (a, v, e, k)
      go (err x, v) e k = inl (x, ground (arith, e, k), ground arith)

  -- A block that answered with a value: so did both parts.
  pub >>=-ok :
      (m : Act E W A) (f : A → Act E W B) (w : W) {b : B} {w' : W}
      → (m >>= f) w ≡ (ok b, w')
      → (a : A) × (v : W) × (m w ≡ (ok a, v)) × (f a v ≡ (ok b, w'))
  >>=-ok m f w h = elim (>>=-cases m f w h) [ inl p ↦ absurd (ground (arith, p.2)) | inr p ↦ p ]

  -- A relation between the world before and the world after, kept by both parts of a block.
  pub >>=-kept :
      (R : W → W → Type 0) (m : Act E W A) (f : A → Act E W B)
      → ((u v w : W) → R u v → R v w → R u w)
      → ((w : W) → R w (m w).1)
      → ((a : A) (w : W) → R w (f a w).1)
      → (w : W) → R w ((m >>= f) w).1
  unfolding ◌>>=◌
  >>=-kept R m f join km kf w = go (m w) (km w)
    where
      go : (first : Result E A × W) → R w first.1 → R w (then_with f first).1
      go (ok a, v) h = join w v (f a v).1 h (kf a v)
      go (err x, v) h = h

-- A branch that ran, with the answer of its test.
pub if-ran :
    {E W A : Type 0} (b : Bool) (m n : Act E W A) (w : W) {r : Result E A × W}
    → (if b then m else n) w ≡ r
    → ((b ≡ true) × (m w ≡ r)) ⊎ ((b ≡ false) × (n w ≡ r))
if-ran true m n w h = inl (refl, h)
if-ran false m n w h = inr (refl, h)

-- It answers with a value in every world.
abbrev pub Answers : {E W A : Type 0} → Act E W A → Type 0
Answers {W = W} {A = A} m = (w : W) → (a : A) × (v : W) × (m w ≡ (ok a, v))

module _ {E W : Type 0} where
  pub pure-Answers : {A : Type 0} (a : A) → Answers (pure {E = E} {W = W} a)
  unfolding pure
  pure-Answers a w = (a, w, refl)

  pub >>=-Answers :
      {A B : Type 0} (m : Act E W A) (f : A → Act E W B)
      → Answers m
      → ((a : A) → Answers (f a))
      → Answers (m >>= f)
  unfolding ◌>>=◌
  >>=-Answers m f hm hf w =
      let (a, v, first) = hm w in
      let (b, u, second) = hf a v in (b, u, ap (then_with f) first ∙ second)

  pub if-Answers :
      {A : Type 0} (b : Bool) (m n : Act E W A)
      → Answers m
      → Answers n
      → Answers (if b then m else n)
  if-Answers true m n hm hn = hm
  if-Answers false m n hm hn = hn

-- Each error of an action satisfies `P`.
abbrev pub Fails : {E W A : Type 0} → (E → Type 0) → Act E W A → Type 0
Fails {E = E} {W = W} P m = (w : W) (e : E) (v : W) → m w ≡ (err e, v) → P e

module _ {E W : Type 0} (P : E → Type 0) where
  pub pure-Fails : {A : Type 0} (a : A) → Fails P (pure {E = E} {W = W} a)
  unfolding pure
  pure-Fails a w e v h = ground (arith, h)

  pub fail-Fails : {A : Type 0} (e : E) → P e → Fails P (fail {E = E} {W = W} {A = A} e)
  unfolding fail
  fail-Fails e p w x v h = let same : e ≡ x = ground (arith, h) in subst P same p

  pub >>=-Fails :
      {A B : Type 0} (m : Act E W A) (f : A → Act E W B)
      → Fails P m
      → ((a : A) → Fails P (f a))
      → Fails P (m >>= f)
  >>=-Fails m f hm hf w e v h = elim (>>=-cases m f w h) [
    | inl (x, stopped, same) ↦
        let back : x ≡ e = ground (arith, same) in subst P back (hm w x v stopped)
    | inr (a, u, first, second) ↦ hf a u e v second
  ]

  pub if-Fails :
      {A : Type 0} (b : Bool) (m n : Act E W A)
      → Fails P m
      → Fails P n
      → Fails P (if b then m else n)
  if-Fails true m n hm hn = hm
  if-Fails false m n hm hn = hn
