-- ===== src/Image.antt =====
-- The images of internal/image: markers, eligibility, order, retention and its execution.
pub mod Markers
pub mod Eligible
pub mod Retention
pub mod Execute
pub mod Resolve
pub mod Groups
