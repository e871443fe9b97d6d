-- ===== src/MemPool.antt =====
-- The pool of equal items (src/mempool/goodtp_mem_pool.cpp): nodes, and a bitmap of those in use.
pub mod Pool
pub mod Scan
pub mod Search
pub mod Invariant
pub mod Calls
pub mod Refine
pub mod Start
pub mod Reuse
pub mod Tests
