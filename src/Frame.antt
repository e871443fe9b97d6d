-- ===== src/Frame.antt =====
-- The packets of frames: what a session puts in front of a frame and what its peer reads of it
-- (src/session/goodtp_session.cpp, src/interface/goodtp_interface.cpp).
pub mod Packet
pub mod Bytes
pub mod Sendable
pub mod Sent
pub mod RoundTrip
mod Tests
