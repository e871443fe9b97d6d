-- ===== src/Arq.antt =====
-- src/arq/goodtp_arq.{h,cpp}: the sender's list of packets that are not acknowledged yet.
pub mod Types
pub mod Retransmit
pub mod Boost
pub mod Feedback
pub mod Timer
pub mod Entry
pub mod Termination
pub mod TimerEnd
pub mod Words
pub mod Ownership
pub mod BoostOwnership
pub mod TimerOwnership
pub mod History
pub mod Lookup
pub mod Release
pub mod Acked
mod Tests
