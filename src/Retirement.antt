-- ===== src/Retirement.antt =====
-- The retirement of a session, internal/lifecycle/retirement.go and retirement_effects.go: a merge
-- or a delete that checks the session's work, closes its attachments, checks again, removes what it
-- left on both machines, and only then drops it from the state.
pub mod Types
pub mod Journal
pub mod Exec
pub mod Steps
pub mod Options
pub mod Intent
pub mod Phases
pub mod Active
pub mod Keeps
pub mod Retire
pub mod Policy
