-- ===== src/State/Sessions/Laws.antt =====
-- Lookup after a write: PutSession and RemoveSession against FindSession.
use bivouac.Prelude.{
  any, Bool-cases, inl, inr, Bool, true, false, not, ◌&&◌, ◌≡◌, refl, String, none, some, List, [],
  ◌∷◌, ◌==◌, eq_iff, arith, find, keep, if◌then◌else◌,
}
use bivouac.State.Types.{Session, Record, RetirementReceipt}
use bivouac.State.Sessions.{find_session, put, put_session, remove_session, other_receipts}

find-put :
    (s : Session) (name : String) (l : List Session)
    → find (λ t. t.name == name) (put s l)
      ≡ (if s.name == name then some s else find (λ t. t.name == name) l)
unfolding put
find-put s name [] = refl
find-put s name (t ∷ l) =
    ground (arith, eq_iff t.name s.name, eq_iff t.name name, eq_iff s.name name, find-put s name l)

-- After PutSession, FindSession gives the session that was put under its name, and what it gave
-- before under every other name.
pub find_session-put_session :
    (r : Record) (s : Session) (name : String)
    → find_session (put_session r s) name ≡ (if s.name == name then some s else find_session r name)
unfolding find_session put_session
find_session-put_session r s name = find-put s name r.sessions

find-keep :
    (gone name : String) (l : List Session)
    → find (λ t. t.name == name) (keep (λ s. not (s.name == gone)) l)
      ≡ (if gone == name then none else find (λ t. t.name == name) l)
find-keep gone name [] = ground arith
find-keep gone name (t ∷ l) =
    ground (arith, eq_iff t.name gone, eq_iff t.name name, eq_iff gone name, find-keep gone name l)

-- After RemoveSession, FindSession finds nothing under the removed name, and what it gave before
-- under every other name.
pub find_session-remove_session :
    (r : Record) (gone name : String)
    → find_session (remove_session r gone) name
      ≡ (if gone == name then none else find_session r name)
unfolding find_session remove_session
find_session-remove_session r gone name = find-keep gone name r.sessions

put-any :
    (p : Session → Bool) (name : String) (s current : Session) (l : List Session)
    → find (λ t. t.name == name) l ≡ some current
    → s.name ≡ name
    → p current ≡ false
    → any p l ≡ true
    → any p (put s l) ≡ true
unfolding put
put-any p name s current [] e n f h = ground arith
put-any p name s current (t ∷ l) e n f h = elim (Bool-cases (t.name == name)) [
  | inl same ↦ ground (arith, eq_iff t.name name, eq_iff t.name s.name)
  | inr other ↦ ground (arith, eq_iff t.name s.name, eq_iff t.name name, put-any p name s current l)
]

-- PutSession over a session that fails a test leaves a session that passes it, where there was one.
pub put_session-any :
    (p : Session → Bool) (r : Record) (s current : Session)
    → find_session r s.name ≡ some current
    → p current ≡ false
    → any p r.sessions ≡ true
    → any p (put_session r s).sessions ≡ true
unfolding put_session find_session
put_session-any p r s current e f h = put-any p s.name s current r.sessions e refl f h

-- Dropping the receipts of one session and repository hides those and no others.
pub find-other_receipts :
    (session local_repo s repo : String) (l : List RetirementReceipt)
    → find (λ t. t.session == s && t.local_repo == repo) (other_receipts session local_repo l) ≡ (
        if session == s && local_repo == repo
        then none
        else find (λ t. t.session == s && t.local_repo == repo) l)
find-other_receipts session local_repo s repo [] = ground arith
find-other_receipts session local_repo s repo (t ∷ l) = ground (
  arith,
  eq_iff session s,
  eq_iff local_repo repo,
  eq_iff t.session session,
  eq_iff t.local_repo local_repo,
  eq_iff t.session s,
  eq_iff t.local_repo repo,
  find-other_receipts session local_repo s repo l,
)
