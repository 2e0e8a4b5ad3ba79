-- ===== src/SshKeys/Discovered.antt =====
-- What discover finds of each fingerprint.
use mathlib.Core.Option
use bivouac.Prelude.{
  ℕ, zero, suc, ◌≡◌, refl, sym, ap, ◌∙◌, subst, String, Option, none, some, List, [], ◌∷◌, ◌++◌,
  length, ◌==◌, eq_iff, if◌then◌else◌, arith,
}
use bivouac.State.Entries.{lookup, insert, lookup-insert}
use bivouac.SshKeys.{
  Key, Found, fill_path, add, add_all, find, KeyEnv, agent_keys, disk_keys, discover,
}
use bivouac.SshKeys.Indexed.{
  path_of, index_of, with_path, index_of-fill_path, index_of-append, find-fill_path, find-append,
  find-none, index_of-none, with_path-nil,
}

-- The first key of the fingerprint, found already or among these, with the first path of them.
abbrev pub with_paths : String → List Key → Option Key → Option Key
with_paths f l none = Option.map {A = Key} (with_path (path_of f l)) (find l f)
with_paths f l (some k) = some (with_path (path_of f l) k)

record IsIndexed (found : Found) : Type 0 where
  at : (f : String) → lookup f found.seen ≡ index_of f found.keys

-- A key more, for a fingerprint of which this was found.
abbrev with_key : String → Key → Option Key → Option Key
with_key f k none = if k.fingerprint == f then some k else none
with_key f k (some x) = some (if k.fingerprint == f then with_path k.path x else x)

module _ (k : Key) (found : Found) (h : IsIndexed found) where
  add-IsIndexed : IsIndexed (add k found)
  unfolding add
  add-IsIndexed = record { at = λ f. go f (lookup k.fingerprint found.seen) refl }
    where
      go :
          (f : String) (o : Option ℕ)
          → lookup k.fingerprint found.seen ≡ o
          → lookup f (add k found).seen ≡ index_of f (add k found).keys
      go f (some i) e = ground (arith, e, h.at f, index_of-fill_path f i k.path found.keys)
      go f none e = ground (
        arith,
        e,
        h.at f,
        h.at k.fingerprint,
        index_of-append f found.keys k,
        eq_iff k.fingerprint f,
        lookup-insert k.fingerprint f (length found.keys) found.seen,
      )

  add-find : (f : String) → find (add k found).keys f ≡ with_key f k (find found.keys f)
  unfolding add
  add-find f = go (lookup k.fingerprint found.seen) refl
    where
      filled :
          (i : ℕ)
          → lookup k.fingerprint found.seen ≡ some i
          → index_of k.fingerprint found.keys ≡ some i
          → (o : Option Key) → find found.keys f ≡ o
          → find (add k found).keys f ≡ with_key f k (find found.keys f)
      filled i e at none g = ground (
        arith,
        e,
        g,
        eq_iff k.fingerprint f,
        find-fill_path f k.fingerprint i k.path found.keys at,
        index_of-none k.fingerprint found.keys,
        at,
      )
      filled i e at (some x) g =
          ground (arith, e, g, find-fill_path f k.fingerprint i k.path found.keys at)

      go :
          (o : Option ℕ)
          → lookup k.fingerprint found.seen ≡ o
          → find (add k found).keys f ≡ with_key f k (find found.keys f)
      go (some i) e =
          let at : index_of k.fingerprint found.keys ≡ some i = sym (h.at k.fingerprint) ∙ e in
          filled i e at (find found.keys f) refl
      go none e = ground (
        arith,
        e,
        h.at k.fingerprint,
        find-append f found.keys k,
        eq_iff k.fingerprint f,
        find-none k.fingerprint found.keys,
      )

add_all-IsIndexed : (l : List Key) (found : Found) → IsIndexed found → IsIndexed (add_all l found)
unfolding add_all
add_all-IsIndexed [] found h = h
add_all-IsIndexed (k ∷ l) found h = add_all-IsIndexed l (add k found) (add-IsIndexed k found h)

with_paths-cons :
    (f : String) (k : Key) (l : List Key) (o : Option Key)
    → with_paths f l (with_key f k o) ≡ with_paths f (k ∷ l) o
unfolding find
with_paths-cons f k l none = ground (arith)
with_paths-cons f k l (some x) = ground (arith)

add_all-find :
    (f : String) (l : List Key) (found : Found)
    → IsIndexed found
    → find (add_all l found).keys f ≡ with_paths f l (find found.keys f)
unfolding add_all find
add_all-find f [] found h = go (find found.keys f)
  where
    go : (o : Option Key) → o ≡ with_paths f [] o
    go none = refl
    go (some x) = ap some (sym (with_path-nil x))
add_all-find f (k ∷ l) found h =
    add_all-find f l (add k found) (add-IsIndexed k found h)
    ∙ ap (with_paths f l) (add-find k found h f)
    ∙ with_paths-cons f k l (find found.keys f)

-- No two keys have a fingerprint in common.
abbrev pub AreDistinct : List Key → Type 0
AreDistinct [] = Unit
AreDistinct (k ∷ keys) = (find keys k.fingerprint ≡ none) × AreDistinct keys

append-AreDistinct :
    (keys : List Key) (k : Key)
    → AreDistinct keys
    → find keys k.fingerprint ≡ none
    → AreDistinct (keys ++ k ∷ [])
unfolding find
append-AreDistinct [] k h e = (refl, tt)
append-AreDistinct (x ∷ keys) k (absent, h) e = (
  ground (
    arith,
    e,
    absent,
    find-append x.fingerprint keys k,
    eq_iff x.fingerprint k.fingerprint,
    eq_iff k.fingerprint x.fingerprint,
  ),
  append-AreDistinct keys k h (ground (arith, e)),
)

find-fill_path-none :
    (f : String) (i : ℕ) (path : String) (keys : List Key)
    → find keys f ≡ none
    → find (fill_path i path keys) f ≡ none
unfolding find
find-fill_path-none f i path keys h =
    find-none f (fill_path i path keys) (index_of-fill_path f i path keys ∙ index_of-none f keys h)

fill_path-AreDistinct :
    (i : ℕ) (path : String) (keys : List Key)
    → AreDistinct keys
    → AreDistinct (fill_path i path keys)
unfolding fill_path
fill_path-AreDistinct i path [] h = tt
fill_path-AreDistinct zero path (k ∷ keys) (absent, h) = (ground (arith, absent), h)
fill_path-AreDistinct (suc i) path (k ∷ keys) (absent, h) =
    (find-fill_path-none k.fingerprint i path keys absent, fill_path-AreDistinct i path keys h)

module _ (k : Key) (found : Found) where
  added : Option ℕ → Found
  added (some i) = record found { keys = fill_path i k.path found.keys }
  added none = record {
    keys = found.keys ++ k ∷ [];
    seen = insert k.fingerprint (length found.keys) found.seen;
  }

  add-added : add k found ≡ added (lookup k.fingerprint found.seen)
  unfolding add added
  add-added = ground arith

  add-AreDistinct : IsIndexed found → AreDistinct found.keys → AreDistinct (add k found).keys
  unfolding added
  add-AreDistinct h distinct =
      subst (λ x. AreDistinct x.keys) (sym add-added) (go (lookup k.fingerprint found.seen) refl)
    where
      go : (o : Option ℕ) → lookup k.fingerprint found.seen ≡ o → AreDistinct (added o).keys
      go (some i) e = fill_path-AreDistinct i k.path found.keys distinct
      go none e =
          append-AreDistinct found.keys k distinct
            (find-none k.fingerprint found.keys (sym (h.at k.fingerprint) ∙ e))

add_all-AreDistinct :
    (l : List Key) (found : Found)
    → IsIndexed found
    → AreDistinct found.keys
    → AreDistinct (add_all l found).keys
unfolding add_all
add_all-AreDistinct [] found h distinct = distinct
add_all-AreDistinct (k ∷ l) found h distinct =
    add_all-AreDistinct l (add k found) (add-IsIndexed k found h)
      (add-AreDistinct k found h distinct)

module _ (env : KeyEnv) where
  abbrev pub all_keys : String → String → List Key
  all_keys agent_sock ssh_dir = agent_keys env agent_sock ++ disk_keys env ssh_dir

  add_all-append :
      (l k : List Key) (found : Found) → add_all k (add_all l found) ≡ add_all (l ++ k) found
  unfolding add_all
  add_all-append [] k found = refl
  add_all-append (x ∷ l) k found = add_all-append l k (add x found)

  -- discover finds each fingerprint once, and of each what the agent and the files have of it: the first key, an
  -- agent's before a file's, with the first path of those, where the key has none.
  pub find-discover :
      (agent_sock ssh_dir : String)
      → AreDistinct (discover env agent_sock ssh_dir)
        × ((fingerprint : String)
            → find (discover env agent_sock ssh_dir) fingerprint
              ≡ Option.map {A = Key}
                  (with_path (path_of fingerprint (all_keys agent_sock ssh_dir)))
                  (find (all_keys agent_sock ssh_dir) fingerprint))
  unfolding discover lookup find
  find-discover agent_sock ssh_dir =
      let start : Found = record { keys = []; seen = [] } in
      let whole = add_all-append (agent_keys env agent_sock) (disk_keys env ssh_dir) start in
      let indexed : IsIndexed start = record { at = λ g. refl } in
      (
        subst (λ x. AreDistinct x.keys) (sym whole)
            (add_all-AreDistinct (all_keys agent_sock ssh_dir) start indexed tt),
        λ f.
            ap (λ x. find x.keys f) whole
            ∙ add_all-find f (all_keys agent_sock ssh_dir) start indexed,
      )
