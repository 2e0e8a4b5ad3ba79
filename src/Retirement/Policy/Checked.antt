-- ===== src/Retirement/Policy/Checked.antt =====
-- The check of a merge as a whole.
use bivouac.Prelude.{String, Option, none, some, List, [], ◌≡◌, ◌⊎◌}
use bivouac.State.Types.{Session, Acceptance}
use bivouac.Git.{GitEnv, GitWorld, session_replay_range}
use bivouac.Retirement.Policy.{range_of}
use bivouac.Retirement.Policy.Laws.{HeadWas, IsAccepted}

-- What an accepted merge rests on, by the acceptance that was there before.
abbrev pub IsMerged :
    (env : GitEnv)
    → Session
    → String × String
    → String
    → Option Acceptance
    → Acceptance × List String
    → GitWorld env
    → Type 0
IsMerged env s (ref, tip) base none answer last =
    IsAccepted env s ref (session_replay_range s.base ref) base tip answer last
IsMerged env s (ref, tip) base (some prior) answer last =
    HeadWas env s.local_repo prior.verified_head
    × (((answer.0.source_tip ≡ tip)
          × (answer.0.verified_head ≡ prior.verified_head)
          × (answer.1 ≡ []))
        ⊎ IsAccepted env s ref (range_of prior.source_tip ref) base tip answer last)
