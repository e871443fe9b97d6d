-- ===== src/SlidWin/BlockSet.antt =====
-- BlockSnEntryWin of the session's window (src/slidwin/slidwin.cpp) as an operation on sets of numbers.
use udpfec.Base.{ℕ, ◌+◌, Bool, ◌&&◌, ◌||◌, ltb, leb}
use udpfec.SlidWin.Window.{SlidWin}

-- What a set of numbers is with all `n` of a block where `all` holds, and with none else.
abbrev pub with_block : Bool → ℕ → ℕ → (ℕ → Bool) → ℕ → Bool
with_block all begin_sn n seen k = (all && (leb begin_sn k && ltb k (begin_sn + n))) || seen k
