-- ===== src/Fec2.antt =====
-- The FEC code over packets (src/fec2/goodtp_fec2_buffer.cpp, src/fec2/goodtp_fec2.cpp).
pub mod Buffer
pub mod Clear
pub mod Counted
pub mod History
pub mod RoundTrip
pub mod Xor
pub mod XorBytes
pub mod XorEncode
pub mod Recovery
pub mod Parity
pub mod Restore
pub mod Lost
pub mod Positions
pub mod Zones
mod CodeTests
mod Tests
