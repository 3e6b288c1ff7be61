-- ===== src/Transport.antt =====
-- The transport layer: crates/entangle-transport.
pub mod Contracts
pub mod PointerOffset
pub mod PoolAllocator
pub mod DataSegment
pub mod SegmentManager
pub mod Channel
