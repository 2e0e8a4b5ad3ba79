-- ===== src/Tests.antt =====
-- Runs at concrete inputs, of the laws that have hypotheses.
pub mod Codec
pub mod Machine
pub mod Boards
mod Commands
mod Images
mod Keys
mod Keyring
pub mod Replays
mod Resumes
mod Policies
mod Merges
mod Ends
pub mod Stores
mod Writes
mod Witnesses
