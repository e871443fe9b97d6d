-- ===== src/SlidWin.antt =====
-- The session's sliding window (src/slidwin/slidwin.cpp): its tests of numbers and positions, the entry
-- of numbers and the moves.
pub mod Stats
pub mod Window
pub mod Move
pub mod Entry
pub mod Clear
pub mod Refine
pub mod Marked
pub mod Steps
pub mod Enter
pub mod Fresh
pub mod Blocks
pub mod BlockSet
pub mod Rate
pub mod Tmout
pub mod Overdue
pub mod Nack
pub mod NackEntry
pub mod NackEnd
pub mod Spans
mod Tests
