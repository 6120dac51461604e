-- ===== src/Qualified.antt =====
-- qualified/: memory that is qualified for one receiver, its append-only journal of events, and the
-- runtime that exposes and uses it.
pub mod Wire
pub mod Model
pub mod Lines
pub mod Native
pub mod Journal
pub mod Eligibility
pub mod Decision
pub mod Consumer
pub mod Runtime
pub mod Use
