-- ===== src/Core.antt =====
-- core/models.py and core/transitions.py: the domain models and the lane rules.
pub mod Lane
pub mod Record
pub mod Event
pub mod Receipt
pub mod Contract
pub mod Transitions
pub mod Move
