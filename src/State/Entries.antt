-- ===== src/State/Entries.antt =====
-- A Go map with text keys, as the list of its entries in the order of the keys.
use Prim.Native.Nat.{Ordering}
use Prim.Native.String.{compare}
use bivouac.Prelude.{
  not, ◌≡◌, refl, String, Option, none, some, List, [], ◌∷◌, ◌==◌, eq_iff, arith, All, keep,
  if◌then◌else◌, Bool-cases, ◌⊎◌, inl, inr, subst,
}

module _ {V : Type 0} where
  unfoldable pub lookup : String → List (String × V) → Option V
  lookup k [] = none
  lookup k ((j, v) ∷ m) = if j == k then some v else lookup k m

  unfoldable pub insert : String → V → List (String × V) → List (String × V)
  insert k v [] = (k, v) ∷ []
  insert k v ((j, w) ∷ m) = elim (compare k j) [
    | Ordering.lt ↦ (k, v) ∷ (j, w) ∷ m
    | Ordering.eq ↦ (k, v) ∷ m
    | Ordering.gt ↦ (j, w) ∷ insert k v m
  ]

  unfoldable pub erase : String → List (String × V) → List (String × V)
  erase k m = keep (λ e. not (e.0 == k)) m

  -- The values, in the order of the keys.
  unfoldable pub values : List (String × V) → List V
  values [] = []
  values ((k, v) ∷ m) = v ∷ values m

  pub lookup-insert :
      (written read : String) (value : V) (entries : List (String × V))
      → lookup read (insert written value entries)
        ≡ (if written == read then some value else lookup read entries)
  unfolding insert lookup
  lookup-insert written read value [] = refl
  lookup-insert written read value ((key, old) ∷ rest) = ground (
    arith,
    eq_iff written read,
    eq_iff key written,
    eq_iff key read,
    lookup-insert written read value rest,
  )

  pub lookup-erase :
      (k j : String) (m : List (String × V))
      → lookup j (erase k m) ≡ (if k == j then none else lookup j m)
  unfolding lookup erase
  lookup-erase k j [] = ground arith
  lookup-erase k j ((i, w) ∷ m) =
      ground (arith, eq_iff k j, eq_iff i k, eq_iff i j, lookup-erase k j m)

  lookup-cons :
      (k j : String) (w : V) (m : List (String × V)) {v : V}
      → lookup k ((j, w) ∷ m) ≡ some v
      → (w ≡ v) ⊎ (lookup k m ≡ some v)
  unfolding lookup
  lookup-cons k j w m e = ground arith

  lookup-nil : (k : String) {v : V} → lookup k [] ≡ some v → ⊥
  unfolding lookup
  lookup-nil k e = ground arith

module _ {V : Type 0} (P : V → Type 0) where
  pub lookup-All :
      (k : String) (m : List (String × V)) {v : V} → All P (values m) → lookup k m ≡ some v → P v
  unfolding values
  lookup-All k [] h e = absurd (lookup-nil k e)
  lookup-All k ((j, w) ∷ m) h e = elim (lookup-cons k j w m e) [
    | inl here ↦ subst P here h.0
    | inr there ↦ lookup-All k m h.1 there
  ]

  pub insert-All :
      (k : String) (v : V) (m : List (String × V))
      → P v
      → All P (values m)
      → All P (values (insert k v m))
  unfolding values insert
  insert-All k v [] p h = (p, tt)
  insert-All k v ((j, w) ∷ m) p h =
      elim (compare k j)
        as (λ o. All P (
          values (elim o [
            | Ordering.lt ↦ (k, v) ∷ (j, w) ∷ m
            | Ordering.eq ↦ (k, v) ∷ m
            | Ordering.gt ↦ (j, w) ∷ insert k v m
          ]))) [
            | Ordering.lt ↦ (p, h)
            | Ordering.eq ↦ (p, h.1)
            | Ordering.gt ↦ (h.0, insert-All k v m p h.1)
          ]

  pub erase-All :
      (k : String) (m : List (String × V)) → All P (values m) → All P (values (erase k m))
  unfolding values erase
  erase-All k [] h = tt
  erase-All k ((j, w) ∷ m) h = elim (Bool-cases (j == k)) [
    | inl t ↦ rw t (erase-All k m h.1)
    | inr f ↦ rw f (h.0, erase-All k m h.1)
  ]
