-- ===== src/Beads/TreeLaws.antt =====
-- Descendants ends on a tree.
use mathlib.Core.List.{append_assoc, append-nil}
use bivouac.Prelude.{
  ℕ, zero, suc, ◌+◌, ◌≤◌, ◌≡◌, refl, sym, ap, ◌∙◌, subst, All, ◌⊎◌, inl, inr, String, Option, some,
  List, [], ◌∷◌, ◌++◌, arith, Result, ok, err,
}
use bivouac.Act.{pure, lift, >>=-ok}
use bivouac.Beads.{Issue, BeadsError, BdCommand, BeadsEnv, decode_json}
use bivouac.Beads.Sync.{instance_bd}
use bivouac.Beads.Tree.{first_issue, children_of, expand, descendants}

-- How many issues a list counts for, if an issue has at most `weight` below it.
abbrev pub weight_of : (String → ℕ) → List Issue → ℕ
weight_of weight [] = 0
weight_of weight (issue ∷ issues) = suc (weight issue.id + weight_of weight issues)

-- bd children, whenever it answers, lists less than `weight` allows: the issues are a tree.
abbrev pub IsTree : BeadsEnv → (String → ℕ) → Type 0
IsTree env weight =
    (issue : Issue) (kids : List Issue) (o o' : env.Outside)
    → children_of env issue o ≡ (ok kids, o')
    → weight_of weight kids ≤ weight issue.id

weight_of-append :
    (weight : String → ℕ) (a b : List Issue)
    → weight_of weight (a ++ b) ≡ weight_of weight a + weight_of weight b
weight_of-append weight [] b = omega arith
weight_of-append weight (issue ∷ a) b = omega (arith, weight_of-append weight a b)

-- bd answered with the children of the issue, and they stand in the list, one after the other.
abbrev pub HasChildren : BeadsEnv → List Issue → Issue → Type 0
HasChildren env l issue =
    (kids : List Issue) × (o o' : env.Outside) × (children_of env issue o ≡ (ok kids, o'))
    × (a b : List Issue) × (l ≡ a ++ (kids ++ b))

-- The issue that bd showed for the name, and with each issue of the list its children.
abbrev pub IsWhole : BeadsEnv → String → List Issue → Type 0
IsWhole env id l =
    (root : Issue) × (rest : List Issue) × (l ≡ root ∷ rest)
    × ((o o' : env.Outside) × (out : String) × (others : List Issue) × (instance_bd env
            (BdCommand.show id) o
          ≡ (ok out, o'))
        × (decode_json env.read_issues out ≡ ok (root ∷ others)))
    × All (HasChildren env l) l

module _ (env : BeadsEnv) (weight : String → ℕ) (tree : IsTree env weight) where
  expand-ok :
      (fuel : ℕ) (passed queue : List Issue) (o : env.Outside) {x : Option (List Issue)}
      {o' : env.Outside}
      → weight_of weight queue ≤ fuel
      → expand env fuel passed queue o ≡ (ok x, o')
      → (l : List Issue) × (x ≡ some l)
        × (rest : List Issue) × (l ≡ passed ++ (queue ++ rest))
        × All (HasChildren env l) (queue ++ rest)
  unfolding expand pure
  expand-ok zero passed [] o {x} {o'} h e =
      let same : some passed ≡ x = ground (arith, e) in
      (passed, sym same, [], sym (append-nil passed), tt)
  expand-ok (suc fuel) passed [] o {x} {o'} h e =
      let same : some passed ≡ x = ground (arith, e) in
      (passed, sym same, [], sym (append-nil passed), tt)
  expand-ok zero passed (issue ∷ queue) o h e = absurd (omega (arith, h))
  expand-ok (suc fuel) passed (issue ∷ queue) o h e =
      let (kids, u, answered, rest) = >>=-ok (children_of env issue) _ o e in
      let bound : weight_of weight (queue ++ kids) ≤ fuel =
        omega (arith, h, weight_of-append weight queue kids, tree issue kids o u answered) in
      let (l, same, more, whole, below) =
        expand-ok fuel (passed ++ issue ∷ []) (queue ++ kids) u bound rest in
      (
        l,
        same,
        kids ++ more,
        whole
            ∙ append_assoc passed (issue ∷ []) ((queue ++ kids) ++ more)
            ∙ ap (λ r. passed ++ issue ∷ r) (append_assoc queue kids more),
        (
          (
            kids,
            o,
            u,
            answered,
            (passed ++ issue ∷ []) ++ queue,
            more,
            whole
                ∙ ap (λ r. (passed ++ issue ∷ []) ++ r) (append_assoc queue kids more)
                ∙ sym (append_assoc (passed ++ issue ∷ []) queue (kids ++ more)),
          ),
          subst (All (HasChildren env l)) (append_assoc queue kids more) below,
        ),
      )

  first_issue-cons :
      (roots : List Issue) {root : Issue}
      → first_issue roots ≡ ok root
      → (others : List Issue) × (roots ≡ root ∷ others)
  first_issue-cons [] h = absurd (ground (arith, h))
  first_issue-cons (x ∷ others) {root} h =
      let same : x ≡ root = ground (arith, h) in (others, ap (λ y. y ∷ others) same)

  descendants-ok :
      (fuel : ℕ) (id : String) (o : env.Outside) {x : Option (List Issue)} {o' : env.Outside}
      → ((root : Issue) → weight root.id ≤ fuel)
      → descendants env (suc fuel) id o ≡ (ok x, o')
      → (l : List Issue) × (x ≡ some l) × IsWhole env id l
  unfolding descendants lift
  descendants-ok fuel id o enough e =
      let (out, u, shown, e1) = >>=-ok (instance_bd env (BdCommand.show id)) _ o e in
      let (roots, v, read, e2) = >>=-ok (lift (decode_json env.read_issues out)) _ u e1 in
      let (root, w, first, e3) = >>=-ok (lift (first_issue roots)) _ v e2 in
      let (others, from) = first_issue-cons roots (ap (λ x. x.0) first) in
      let (l, same, rest, whole, below) =
        expand-ok (suc fuel) [] (root ∷ []) w (omega (arith, enough root)) e3 in
      (
        l,
        same,
        (
          root,
          rest,
          whole,
          (o, u, out, others, shown, ap (λ x. x.0) read ∙ ap ok from),
          subst (All (HasChildren env l)) (sym whole) below,
        ),
      )

  -- On a tree in which no issue has more than `fuel` below it, the loop of Descendants ends: with an error of
  -- bd, or with a list that begins with the first issue that bd shows for the name, and has of each issue in
  -- it the children that bd answered with.
  pub descendants-ends :
      (fuel : ℕ) (id : String) (o : env.Outside)
      → ((root : Issue) → weight root.id ≤ fuel)
      → ((e : BeadsError) × ((descendants env (suc fuel) id o).0 ≡ err e))
        ⊎ ((l : List Issue) × ((descendants env (suc fuel) id o).0 ≡ ok (some l))
            × IsWhole env id l)
  descendants-ends fuel id o enough = go (descendants env (suc fuel) id o).0 refl
    where
      go :
          (r : Result BeadsError (Option (List Issue)))
          → (descendants env (suc fuel) id o).0 ≡ r
          → ((e : BeadsError) × ((descendants env (suc fuel) id o).0 ≡ err e))
            ⊎ ((l : List Issue) × ((descendants env (suc fuel) id o).0 ≡ ok (some l))
                × IsWhole env id l)
      go (err e) k = inl (e, k)
      go (ok x) k =
          let (l, same, whole) =
            descendants-ok fuel id o enough
              (ap (λ r. (r, (descendants env (suc fuel) id o).1)) k) in
          inr (l, k ∙ ap ok same, whole)
