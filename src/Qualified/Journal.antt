-- ===== src/Qualified/Journal.antt =====
-- qualified/store.py: the append-only journal of the events of qualified memory.
pub mod State
pub mod Apply
pub mod Settle
pub mod Replay
pub mod Steps
pub mod Dicts
pub mod Backed
pub mod Kept
pub mod Verdict
pub mod Sound
pub mod Store
pub mod Appended
pub mod Inserted
