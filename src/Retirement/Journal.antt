-- ===== src/Retirement/Journal.antt =====
-- The changes that a retirement makes to the session it retires: appendAcceptance, appendUnique,
-- the effect journal, and the tests of what is done.
use bivouac.Prelude.{
  Bool, true, false, not, ◌&&◌, String, str_append, Option, none, some, List, [], ◌∷◌, ◌++◌, ◌==◌,
  any, all, map, if◌then◌else◌, Result, ok, err,
}
use bivouac.State.Types.{
  AttachmentPhase, HerdrAttachment, EffectStatus, intended, done, other_status, Acceptance, Effects,
  Retirement, RetirementPhase, Session, Record,
}
use bivouac.State.Entries.{lookup, insert}
use bivouac.State.Validate.{
  remote_checkout, local_worktree, beads_remote, git_remote, git_branch, replay_journal,
}
use bivouac.Retirement.Types.{MutateError, generation_inactive, nil_pointer}

-- retirementEffectOrder
abbrev pub retirement_effect_order : List String
retirement_effect_order =
    remote_checkout ∷ local_worktree ∷ beads_remote ∷ git_remote ∷ git_branch ∷ replay_journal ∷ []

-- The key of an attachment in the journal.
unfoldable pub herdr_key : String → String
herdr_key id = str_append "herdr:" id

unfoldable pub append_acceptance : List Acceptance → Acceptance → List Acceptance
append_acceptance [] a = a ∷ []
append_acceptance (b ∷ l) a =
    if b.source_tip == a.source_tip then a ∷ l else b ∷ append_acceptance l a

-- appendUnique: each value that is not there yet, also not among those just appended.
unfoldable pub append_unique : List String → List String → List String
append_unique existing [] = existing
append_unique existing (v ∷ values) =
    append_unique (if any (λ s. s == v) existing then existing else existing ++ v ∷ []) values

abbrev pub is_done : EffectStatus → Bool
is_done done = true
is_done _ = false

abbrev pub status_of : Option EffectStatus → EffectStatus
status_of none = other_status ""
status_of (some s) = s

abbrev pub journal : Option Effects → Effects
journal none = []
journal (some effects) = effects

-- retirement.Effects[key].Status == EffectDone; a missing key has the empty status.
unfoldable pub effect_done : Retirement → String → Bool
effect_done r key = is_done (status_of (lookup key (journal r.effects)))

abbrev pub is_closed : AttachmentPhase → Bool
is_closed AttachmentPhase.closed = true
is_closed _ = false

unfoldable pub no_acceptance : List Acceptance → Bool
no_acceptance [] = true
no_acceptance (_ ∷ _) = false

unfoldable pub attachments_done : Session → Option Retirement → Bool
unfolding no_acceptance
attachments_done sess none = false
attachments_done sess (some r) =
    not (no_acceptance r.accepted) && all (λ a. is_closed a.phase) sess.attachments

-- retirementAttachmentsDone
unfoldable pub retirement_attachments_done : Session → Bool
unfolding attachments_done
retirement_attachments_done sess = attachments_done sess sess.retirement

-- retirementEffectsDone, of a session with this retirement
unfoldable pub retirement_effects_done : Session → Retirement → Bool
unfolding effect_done herdr_key
retirement_effects_done sess r =
    all (λ a. effect_done r (herdr_key a.id)) sess.attachments
    && all (λ key. effect_done r key) retirement_effect_order

-- A write of the journal; the source panics on a nil map.
unfoldable pub write_effect :
    String → EffectStatus → Retirement → Option Effects → Result MutateError Retirement
write_effect key status r none = err nil_pointer
write_effect key status r (some effects) =
    ok (record r { effects = some (insert key status effects) })

unfoldable pub set_effect : String → EffectStatus → Retirement → Result MutateError Retirement
unfolding write_effect
set_effect key status r = write_effect key status r r.effects

unfoldable pub on_retirement :
    (Retirement → Result MutateError Retirement)
    → Session
    → Option Retirement
    → Result MutateError Session
on_retirement change sess none = err nil_pointer
on_retirement change sess (some r) = elim (change r) [
  | ok r' ↦ ok (record sess { retirement = some r' })
  | err e ↦ err e
]

-- A mutation of current.Retirement.
unfoldable pub with_retirement :
    (Retirement → Result MutateError Retirement) → Session → Result MutateError Session
unfolding on_retirement
with_retirement change sess = on_retirement change sess sess.retirement

-- The mutation of intendEffect.
unfoldable pub intend : String → Session → Result MutateError Session
unfolding effect_done set_effect with_retirement
intend key = with_retirement (λ r. if effect_done r key then ok r else set_effect key intended r)

unfoldable pub close_attachment : String → HerdrAttachment → HerdrAttachment
close_attachment id a = if a.id == id then record a { phase = AttachmentPhase.closed } else a

-- The mutation of completeAttachmentEffect.
unfoldable pub complete_attachment : String → String → Session → Result MutateError Session
unfolding close_attachment set_effect with_retirement
complete_attachment id key sess =
    with_retirement (set_effect key done)
      (record sess { attachments = map (close_attachment id) sess.attachments })

-- The mutation at the end of one effect of runRetirementEffects.
unfoldable pub finish_effect : String → Session → Result MutateError Session
unfolding set_effect with_retirement
finish_effect key = with_retirement (set_effect key done)

-- The mutation of setRetirementPhase.
unfoldable pub set_phase : RetirementPhase → Session → Result MutateError Session
unfolding with_retirement
set_phase phase = with_retirement (λ r. ok (record r { phase = phase }))

-- The mutation after a check that passed, with clearRetirementFailure.
unfoldable pub accept_check :
    Acceptance → List String → RetirementPhase → Session → Result MutateError Session
unfolding append_acceptance append_unique with_retirement
accept_check accepted signed phase = with_retirement (λ r. ok (record r {
  accepted = append_acceptance r.accepted accepted;
  signed = append_unique r.signed signed;
  phase = phase;
  last_failure = "";
  paused_on = "";
}))

unfoldable pub with_head :
    List Session → Result MutateError Session → Result MutateError (List Session)
with_head l (ok s) = ok (s ∷ l)
with_head l (err e) = err e

unfoldable pub with_tail :
    Session → Result MutateError (List Session) → Result MutateError (List Session)
with_tail s (ok l) = ok (s ∷ l)
with_tail s (err e) = err e

-- The first session of the generation is mutated: the loop of updateRetirement.
unfoldable pub in_generation :
    String
    → (Session → Result MutateError Session)
    → List Session
    → Result MutateError (List Session)
unfolding with_head with_tail
in_generation generation change [] = err generation_inactive
in_generation generation change (s ∷ l) =
    let rest = in_generation generation change l in
    if s.generation == generation then with_head l (change s) else with_tail s rest

unfoldable pub with_sessions :
    Record → Result MutateError (List Session) → Result MutateError Record
with_sessions r (ok l) = ok (record r { sessions = l })
with_sessions r (err e) = err e

-- The mutation that updateRetirement hands to Store.Update.
unfoldable pub update_sessions :
    String → (Session → Result MutateError Session) → Record → Result MutateError Record
unfolding in_generation with_sessions
update_sessions generation change r = with_sessions r (in_generation generation change r.sessions)
