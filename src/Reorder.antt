-- ===== src/Reorder.antt =====
-- The buffer that puts received frames back in order (src/session/goodtp_session.cpp).
pub mod Buffer
pub mod Slots
pub mod Valid
pub mod Enqueue
pub mod Operations
pub mod Jump
pub mod History
pub mod Order
pub mod Delivery
pub mod Sequence
pub mod Rising
mod Tests
