-- ===== src/Prelude/Lists.antt =====
-- Lists measured by native numbers, predicates by recursion, and searches by a Boolean test.
use Prim.Native.Nat.{ℕ, suc, ◌+◌}
use mathlib.Core.Path.{subst, ◌≡◌}
use mathlib.Core.Bool.{Bool, true, false, ◌&&◌}
use mathlib.Core.Logic.{inl, inr}
use mathlib.Core.Option.{Option, none, some, none-ne-some}
use mathlib.Core.List.{List, [], ◌∷◌, ◌++◌}
use native.Mathlib.Omega.{arith}
use bivouac.Prelude.Tests.{if◌then◌else◌, Bool-cases}

module _ {ℓ} {A : Type ℓ} where
  abbrev pub length : List A → ℕ
  length [] = 0
  length (x ∷ xs) = suc (length xs)

  -- Holds of every element.
  abbrev pub All {κ} : (A → Type κ) → List A → Type κ
  All P [] = Unit
  All P (x ∷ xs) = P x × All P xs

  abbrev pub all : (A → Bool) → List A → Bool
  all p [] = true
  all p (x ∷ xs) = p x && all p xs

  abbrev pub any : (A → Bool) → List A → Bool
  any p [] = false
  any p (x ∷ xs) = if p x then true else any p xs

  -- The first element that passes.
  abbrev pub find : (A → Bool) → List A → Option A
  find p [] = none
  find p (x ∷ xs) = if p x then some x else find p xs

  -- The elements that pass, in their order.
  abbrev pub keep : (A → Bool) → List A → List A
  keep p [] = []
  keep p (x ∷ xs) = let rest = keep p xs in if p x then x ∷ rest else rest

  abbrev pub get_last? : List A → Option A
  get_last? [] = none
  get_last? (x ∷ []) = some x
  get_last? (x ∷ y ∷ xs) = get_last? (y ∷ xs)

module _ {ℓ} {A : Type ℓ} where
  pub length-append : (xs ys : List A) → length (xs ++ ys) ≡ length xs + length ys
  length-append [] ys = omega arith
  length-append (x ∷ xs) ys = omega (arith, length-append xs ys)

  pub All-append {κ} : (P : A → Type κ) (xs ys : List A) → All P xs → All P ys → All P (xs ++ ys)
  All-append P [] ys hx hy = hy
  All-append P (x ∷ xs) ys hx hy = (hx.0, All-append P xs ys hx.1 hy)

  pub find-passes : (p : A → Bool) (l : List A) {x : A} → find p l ≡ some x → p x ≡ true
  find-passes p [] e = ground arith
  find-passes p (y ∷ l) {x} e = ground (arith, find-passes p l {x = x})

  find-head :
      (p : A → Bool) (y : A) (l : List A) {x : A} → p y ≡ true → find p (y ∷ l) ≡ some x → y ≡ x
  find-head p y l t e = ground arith

  find-tail :
      (p : A → Bool) (y : A) (l : List A) {x : A}
      → p y ≡ false
      → find p (y ∷ l) ≡ some x
      → find p l ≡ some x
  find-tail p y l t e = ground arith

  -- What `find` returns has every property of the elements.
  pub find-All {κ} :
      (P : A → Type κ) (p : A → Bool) (l : List A) {x : A} → All P l → find p l ≡ some x → P x
  find-All P p [] h e = absurd (none-ne-some _ e)
  find-All P p (y ∷ l) h e = elim (Bool-cases (p y)) [
    | inl t ↦ subst P (find-head p y l t e) h.0
    | inr f ↦ find-All P p l h.1 (find-tail p y l f e)
  ]

  pub keep-All {κ} : (P : A → Type κ) (p : A → Bool) (l : List A) → All P l → All P (keep p l)
  keep-All P p [] h = tt
  keep-All P p (y ∷ l) h = elim (Bool-cases (p y)) [
    | inl t ↦ rw t (h.0, keep-All P p l h.1)
    | inr f ↦ rw f (keep-All P p l h.1)
  ]
