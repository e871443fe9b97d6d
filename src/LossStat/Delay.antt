-- ===== src/LossStat/Delay.antt =====
-- `dly_cache` (socks5udpf/src/dly_cache.cpp): the start time of a packet, carried on by the time that it
-- spends here.
use udpfec.Base.{ℕ, ◌+◌, ◌-◌, ◌%◌, ◌<◌, ◌≤◌, ◌≡◌, ◌∙◌, ltb, if◌then◌else◌, arith}
use Prim.Native.Nat.{bit_and}
use udpfec.Base.Masks.{bit_and-mask}

pub record DlyCache : Type 0 where
  pub pkg_start_time_ms : ℕ
  pub used : ℕ
  pub pkg_enter_sys_time_ms : ℕ

unfoldable pub update_start_time : ℕ → ℕ → DlyCache
update_start_time cur_ms pkg_start_time_ms = record {
  pkg_start_time_ms = bit_and pkg_start_time_ms 32767;
  used = 1;
  pkg_enter_sys_time_ms = bit_and cur_ms 4294967295;
}

unfoldable pub get_start_time : DlyCache → ℕ → ℕ
get_start_time d ts_ms =
    let cur_sys_time_ms = bit_and ts_ms 4294967295 in
    let delta =
      if ltb cur_sys_time_ms d.pkg_enter_sys_time_ms
      then (4294967295 - d.pkg_enter_sys_time_ms + cur_sys_time_ms) % 4294967296
      else cur_sys_time_ms - d.pkg_enter_sys_time_ms in
    bit_and ((delta + d.pkg_start_time_ms) % 4294967296) 32767

-- A packet that enters at time `enter_ms` with the start time `start` and leaves less than 2 ^ 32
-- milliseconds later has the start time carried on by the difference, modulo 2 ^ 15, where the lower 32 bits
-- of the clock do not turn in between; where they turn, it is carried on by one millisecond less.
pub get_start_time-update_start_time :
    (enter_ms leave_ms start : ℕ)
    → enter_ms ≤ leave_ms
    → leave_ms < enter_ms + 4294967296
    → get_start_time (update_start_time enter_ms start) leave_ms ≡ (
        if ltb (leave_ms % 4294967296) (enter_ms % 4294967296)
        then (start + (leave_ms - enter_ms - 1)) % 32768
        else (start + (leave_ms - enter_ms)) % 32768)
unfolding get_start_time update_start_time
get_start_time-update_start_time enter_ms leave_ms start h k =
    let low = bit_and-mask 15 start in
    let entered = bit_and-mask 32 enter_ms in
    let left = bit_and-mask 32 leave_ms in
    rw (low, entered, left) (bit_and-mask 15 _ ∙ ground (arith, h, k))
