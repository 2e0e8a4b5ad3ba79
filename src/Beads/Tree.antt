-- ===== src/Beads/Tree.antt =====
-- The tree under an issue: Descendants of internal/beads/report.go. The loop runs over a list that grows;
-- the model has the part that the loop has passed and the part that it has not, and fuel for its rounds.
use bivouac.Prelude.{ℕ, zero, suc, String, Option, none, some, List, [], ◌∷◌, ◌++◌, Result, ok, err}
use bivouac.Act.{pure, lift, ◌>>=◌}
use bivouac.Beads.{Issue, BeadsError, BdCommand, BeadsEnv, decode_json}
use bivouac.Beads.Sync.{Bd, instance_bd}

-- The root that bd show answered with.
abbrev pub first_issue : List Issue → Result BeadsError Issue
first_issue [] = err BeadsError.no_such_issue
first_issue (issue ∷ issues) = ok issue

module _ (env : BeadsEnv) where
  unfoldable pub children_of : Issue → Bd env (List Issue)
  unfolding instance_bd lift
  children_of issue = do
    out ← instance_bd env (BdCommand.children issue.id)
    lift (decode_json env.read_issues out)

  -- `none` where the fuel ran out
  unfoldable pub expand : ℕ → List Issue → List Issue → Bd env (Option (List Issue))
  unfolding children_of
  expand fuel passed [] = pure (some passed)
  expand zero passed (issue ∷ queue) = pure none
  expand (suc fuel) passed (issue ∷ queue) = do
    kids ← children_of issue
    expand fuel (passed ++ issue ∷ []) (queue ++ kids)

  -- Descendants
  unfoldable pub descendants : ℕ → String → Bd env (Option (List Issue))
  unfolding instance_bd lift expand
  descendants fuel id = do
    out ← instance_bd env (BdCommand.show id)
    roots ← lift (decode_json env.read_issues out)
    root ← lift (first_issue roots)
    expand fuel [] (root ∷ [])
