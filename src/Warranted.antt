-- ===== src/Warranted.antt =====
-- The certified memories of a store and the receipts that stand behind them, over the kernel's methods
-- that Histories lists: observe, propose_memory, verify, promote, correct_memory, contradict, retire,
-- supersede, retrieve and run of runtime/kernel.py.
pub mod Base
pub mod Writes
pub mod Promoting
pub mod Certifying
pub mod Operating
pub mod Histories
