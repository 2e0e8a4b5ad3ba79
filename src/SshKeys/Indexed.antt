-- ===== src/SshKeys/Indexed.antt =====
-- The keys of a list by their fingerprints.
use mathlib.Core.Option
use bivouac.Prelude.{
  ℕ, zero, suc, false, not, ◌&&◌, ◌≡◌, refl, String, Option, none, some, List, [], ◌∷◌, ◌++◌,
  length, ◌==◌, eq_iff, if◌then◌else◌, arith,
}
use bivouac.SshKeys.{Key, fill_path, find}

abbrev pub or_else : String → String → String
or_else path rest = if path == "" then rest else path

-- The first path among the keys of the fingerprint.
abbrev pub path_of : String → List Key → String
path_of f [] = ""
path_of f (k ∷ keys) =
    let rest = path_of f keys in if k.fingerprint == f then or_else k.path rest else rest

abbrev pub index_of : String → List Key → Option ℕ
index_of f [] = none
index_of f (k ∷ keys) = if k.fingerprint == f then some 0 else Option.map suc (index_of f keys)

-- A key with another path, where it has none.
abbrev pub with_path : String → Key → Key
with_path path k = record k { path = or_else k.path path }

pub index_of-fill_path :
    (f : String) (i : ℕ) (path : String) (keys : List Key)
    → index_of f (fill_path i path keys) ≡ index_of f keys
unfolding fill_path
index_of-fill_path f i path [] = refl
index_of-fill_path f zero path (k ∷ keys) = ground arith
index_of-fill_path f (suc i) path (k ∷ keys) = ground (arith, index_of-fill_path f i path keys)

pub index_of-append :
    (f : String) (keys : List Key) (k : Key)
    → index_of f (keys ++ k ∷ []) ≡ elim (index_of f keys) [
      | some i ↦ some i
      | none ↦ if k.fingerprint == f then some (length keys) else none
    ]
index_of-append f [] k = refl
index_of-append f (x ∷ keys) k = ground (arith, index_of-append f keys k)

-- The first key has the fingerprint, or a later one.
index_of-suc :
    (g : String) (k : Key) (keys : List Key) {i : ℕ}
    → index_of g (k ∷ keys) ≡ some (suc i)
    → ((k.fingerprint == g) ≡ false) × (index_of g keys ≡ some i)
index_of-suc g k keys h = ground (arith, h)

index_of-zero :
    (g : String) (k : Key) (keys : List Key) → index_of g (k ∷ keys) ≡ some 0 → k.fingerprint ≡ g
index_of-zero g k keys h = ground (arith, h, eq_iff k.fingerprint g)

with_path-if :
    (path : String) (k : Key)
    → (if k.path == "" && not (path == "") then record k { path = path } else k) ≡ with_path path k
with_path-if path k = ground (arith, eq_iff k.path "", eq_iff path "")

pub find-fill_path :
    (f g : String) (i : ℕ) (path : String) (keys : List Key)
    → index_of g keys ≡ some i
    → find (fill_path i path keys) f
      ≡ (if g == f then Option.map {A = Key} (with_path path) (find keys f) else find keys f)
unfolding fill_path find
find-fill_path f g i path [] h = absurd (ground (arith, h))
find-fill_path f g zero path (k ∷ keys) h =
    ground (arith, index_of-zero g k keys h, with_path-if path k)
find-fill_path f g (suc i) path (k ∷ keys) h = ground (
  arith,
  eq_iff k.fingerprint f,
  eq_iff k.fingerprint g,
  eq_iff g f,
  (index_of-suc g k keys h).0,
  find-fill_path f g i path keys (index_of-suc g k keys h).1,
)

pub find-append :
    (f : String) (keys : List Key) (k : Key)
    → find (keys ++ k ∷ []) f
      ≡ elim (find keys f) [ some x ↦ some x | none ↦ if k.fingerprint == f then some k else none ]
unfolding find
find-append f [] k = refl
find-append f (x ∷ keys) k = ground (arith, find-append f keys k)

pub find-none : (f : String) (keys : List Key) → index_of f keys ≡ none → find keys f ≡ none
unfolding find
find-none f [] h = refl
find-none f (k ∷ keys) h = ground (arith, h, find-none f keys)

pub index_of-none : (f : String) (keys : List Key) → find keys f ≡ none → index_of f keys ≡ none
unfolding find
index_of-none f [] h = refl
index_of-none f (k ∷ keys) h = ground (arith, h, index_of-none f keys)

pub with_path-nil : (k : Key) → with_path "" k ≡ k
with_path-nil k = ground (arith, eq_iff k.path "")
