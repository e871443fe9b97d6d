-- ===== src/SlideWin/Spec.antt =====
-- What the window promises, without the ring: the newest number, and which numbers were seen.
use udpfec.Base.{
  ℕ, ◌+◌, ◌-◌, ◌%◌, Bool, true, false, not, ◌&&◌, ◌||◌, Option, none, some, ltb, ◌==◌,
  if◌then◌else◌,
}

pub record Seen : Type 0 where
  pub newest : ℕ
  pub seen : ℕ → Bool

-- How far a number lies behind the newest one, and how far ahead.
abbrev pub age : ℕ → ℕ → ℕ
age newest x = (newest + 65536 - x) % 65536

abbrev pub ahead : ℕ → ℕ → ℕ
ahead newest x = (x + 65536 - newest) % 65536

-- The numbers of `seen`, and `sn` unless it is only checked.
abbrev pub with_sn : (ℕ → Bool) → ℕ → Bool → ℕ → Bool
with_sn seen sn only_check x = seen x || (not only_check && x == sn)

abbrev pub start_at : ℕ → Bool → Seen × Bool
start_at sn only_check = (record { newest = sn; seen = with_sn (λ x. false) sn only_check }, true)

-- The window is the 4096 numbers up to the newest one. A number in it is new where it was not seen;
-- one up to 1023 ahead moves the window; any other starts over.
unfoldable pub next_seen : Option Seen → ℕ → Bool → Seen × Bool
next_seen none sn only_check = start_at sn only_check
next_seen (some s) sn only_check =
    if ltb (age s.newest sn) 4096
    then (record s { seen = with_sn s.seen sn only_check }, not (s.seen sn))
    else if ltb (ahead s.newest sn) 1024
    then (
      record {
        newest = sn;
        seen = with_sn (λ x. ltb (age s.newest x) 4096 && s.seen x) sn only_check;
      },
      true,
    )
    else start_at sn only_check
