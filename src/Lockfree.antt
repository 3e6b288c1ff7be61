-- ===== src/Lockfree.antt =====
-- The lock-free data structures: crates/entangle-lockfree.
pub mod Fifo
pub mod SpscQueue
pub mod IndexSet
pub mod AtomicBitSet
pub mod MpmcContainer
pub mod RelocatablePtr
