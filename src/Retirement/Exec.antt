-- ===== src/Retirement/Exec.antt =====
-- Actions of a retirement: they run against the state file and the rest of the world, and stop at
-- the first error. What was written before an error stays written.
use bivouac.Prelude.{
  Bool, true, false, if◌then◌else◌, ◌≡◌, ◌⊎◌, inl, inr, refl, arith, Result, ok, err,
}
use bivouac.State.Disk.{Disk}
use bivouac.Retirement.Types.{RetireError, Env}

module _ (env : Env) where
  open env use {Outside}

  pub record World : Type 0 where
    pub disk : Disk
    pub outside : Outside

  abbrev pub Exec : Type 0 → Type 0
  Exec A = World → Result RetireError A × World

module _ {env : Env} where
  module _ {A : Type 0} where
    unfoldable pub pure : A → Exec env A
    pure a w = (ok a, w)

    unfoldable pub fail : RetireError → Exec env A
    fail e w = (err e, w)

    -- A question to the world.
    unfoldable pub ask : (env.Outside → A × env.Outside) → Exec env A
    ask question w = let (a, o) = question w.outside in (ok a, record w { outside = o })

    -- A branch that returned, with the answer of its test.
    pub if-ok :
        (b : Bool) (m n : Exec env A) (w : World env) {r : Result RetireError A × World env}
        → (if b then m else n) w ≡ r
        → ((b ≡ true) × (m w ≡ r)) ⊎ ((b ≡ false) × (n w ≡ r))
    if-ok true m n w h = inl (refl, h)
    if-ok false m n w h = inr (refl, h)

    unfoldable pub lift : Result RetireError A → Exec env A
    lift r w = (r, w)

  module _ {A B : Type 0} where
    unfoldable pub continue :
        Result RetireError A × World env → (A → Exec env B) → Result RetireError B × World env
    continue (ok a, w) f = f a w
    continue (err e, w) f = (err e, w)

    infixl 5 ◌>>=◌ ◌>>◌
    unfoldable pub ◌>>=◌ : Exec env A → (A → Exec env B) → Exec env B
    unfolding continue
    ◌>>=◌ m f w = continue (m w) f

    abbrev pub ◌>>◌ : Exec env A → Exec env B → Exec env B
    m >> n = m >>= λ _. n

    -- A block that returned: its first action returned, and so did the rest after it.
    pub >>=-eq-ok :
        (m : Exec env A) (f : A → Exec env B) (w : World env) {b : B} {w' : World env}
        → (m >>= f) w ≡ (ok b, w')
        → (a : A) × (v : World env) × (m w ≡ (ok a, v)) × (f a v ≡ (ok b, w'))
    unfolding ◌>>=◌
    >>=-eq-ok m f w {b} {w'} h = go (m w) refl h
      where
        go :
            (r : Result RetireError A × World env)
            → m w ≡ r
            → continue r f ≡ (ok b, w')
            → (a : A) × (v : World env) × (m w ≡ (ok a, v)) × (f a v ≡ (ok b, w'))
        go (ok a, v) e k = (a, v, e, k)
        go (err x, v) e k = absurd (ground arith)

    -- What holds of the state and is kept by both parts of a block is kept by the block, whether
    -- it returns or stops.
    pub >>=-keeps :
        (P : World env → Type 0) (m : Exec env A) (f : A → Exec env B)
        → ((w : World env) → P w → P (m w).1)
        → ((a : A) (w : World env) → P w → P (f a w).1)
        → (w : World env) → P w
        → P ((m >>= f) w).1
    unfolding ◌>>=◌
    >>=-keeps P m f km kf w h = go (m w) (km w h)
      where
        go : (r : Result RetireError A × World env) → P r.1 → P (continue r f).1
        go (ok a, v) k = kf a v k
        go (err x, v) k = k
