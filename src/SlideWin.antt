-- ===== src/SlideWin.antt =====
-- The receiver's window of the proxy (socks5udpf/src/slide_win.cpp, slide_win.h, buf_operation.h).
pub mod Buffer
pub mod Bits
pub mod Window
pub mod ByteMasks
pub mod Clear
pub mod Spec
pub mod Border
pub mod Refine
pub mod Runs
pub mod Repeats
pub mod Tests
