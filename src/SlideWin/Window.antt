-- ===== src/SlideWin/Window.antt =====
-- `slide_win` (socks5udpf/src/slide_win.cpp): a window of 4096 sequence numbers of 16 bits, as bits
-- in a ring of 512 bytes. The assertions are not part of the model.
use udpfec.Base.{
  ℕ, ◌+◌, ◌-◌, ◌*◌, ◌/◌, ◌%◌, ◌^◌, List, Bool, true, false, ◌&&◌, ◌||◌, ltb, leb, ◌==◌,
  if◌then◌else◌, replicate,
}
use Prim.Native.Nat.{bit_and}
use udpfec.SlideWin.Buffer.{get_buf_bit, set_buf_bit, clr_buf_bit, clr_buf_bit_mask}
use udpfec.Base.Memory.{zero_bytes}

abbrev pub k_slide_win_size : ℕ
k_slide_win_size = 4096

abbrev pub k_slide_win_buf_size : ℕ
k_slide_win_buf_size = 512

abbrev pub k_slide_win_max_step : ℕ
k_slide_win_max_step = 1024

abbrev pub u16_mod : ℕ
u16_mod = 65536

pub record SlideWin : Type 0 where
  pub slide_win_buf : List ℕ
  pub win_pos_idx_lower : ℕ
  pub win_pos_idx_upper : ℕ
  pub win_pkg_sn_lower : ℕ
  pub win_pkg_sn_upper : ℕ
  pub first_pkg_sn : Bool

-- `pos & (k_slide_win_size - 1)`
unfoldable pub wrap_pos : ℕ → ℕ
wrap_pos pos = bit_and pos 4095

unfoldable pub reset : ℕ → SlideWin
unfolding wrap_pos
reset pkg_sn =
    let tmp_pkg_sn = pkg_sn + 65535 + 1 - (k_slide_win_size - 1) in
    let lower = bit_and tmp_pkg_sn 65535 in
    record {
      slide_win_buf = replicate 512 0;
      win_pos_idx_lower = wrap_pos lower;
      win_pos_idx_upper = wrap_pos pkg_sn;
      win_pkg_sn_lower = lower;
      win_pkg_sn_upper = pkg_sn;
      first_pkg_sn = true;
    }

-- The constructor.
unfoldable pub slide_win : SlideWin
slide_win = reset 65535

unfoldable pub first_pkg_sn_valid : ℕ → SlideWin
first_pkg_sn_valid pkg_sn = record (reset (if pkg_sn == 0 then 65535 else pkg_sn - 1)) {
  first_pkg_sn = false;
}

unfoldable pub pkg_sn_in_win : SlideWin → ℕ → Bool
pkg_sn_in_win w pkg_sn =
    if ltb w.win_pkg_sn_lower w.win_pkg_sn_upper
    then leb pkg_sn w.win_pkg_sn_upper && leb w.win_pkg_sn_lower pkg_sn
    else leb pkg_sn w.win_pkg_sn_upper || leb w.win_pkg_sn_lower pkg_sn

-- The difference to the upper border, with a turn of the 16-bit numbers added where it is negative.
unfoldable pub get_slide_step : SlideWin → ℕ → ℕ
unfolding pkg_sn_in_win
get_slide_step w pkg_sn =
    if pkg_sn_in_win w pkg_sn
    then 0
    else if ltb pkg_sn w.win_pkg_sn_upper
    then pkg_sn + u16_mod - w.win_pkg_sn_upper
    else pkg_sn - w.win_pkg_sn_upper

-- The bits of the first byte, from bit `first` on: `(0xFF >> (8 - n)) << first` in 8 bits.
unfoldable pub first_mask : ℕ → ℕ → ℕ
first_mask first n = 255 / 2 ^ (8 - n) * 2 ^ first % 256

-- `(uint8_t)(~(0xFF << n))`
unfoldable pub last_mask : ℕ → ℕ
last_mask n = 255 - 255 * 2 ^ n % 256

-- The rest of the last byte, in `clear_bit_range`.
unfoldable pub clear_last : List ℕ → ℕ → ℕ → List ℕ
clear_last buf current_bit bits_remaining =
    if ltb 0 bits_remaining
    then clr_buf_bit_mask buf k_slide_win_buf_size current_bit (last_mask bits_remaining)
    else buf

-- The whole bytes, with the turn at the end of the buffer, then the rest.
unfoldable pub clear_whole : List ℕ → ℕ → ℕ → List ℕ
unfolding wrap_pos
clear_whole buf current_bit bits_remaining =
    let full_bytes = bits_remaining / 8 in
    let byte_start = current_bit / 8 in
    let first_part = k_slide_win_buf_size - byte_start in
    let cleared =
      if leb (byte_start + full_bytes) k_slide_win_buf_size
      then zero_bytes buf byte_start full_bytes
      else zero_bytes (zero_bytes buf byte_start first_part) 0 (full_bytes - first_part) in
    if full_bytes == 0
    then clear_last buf current_bit bits_remaining
    else clear_last cleared (wrap_pos (current_bit + full_bytes * 8))
        (bits_remaining - full_bytes * 8)

-- The first byte where it is not whole, then the others.
unfoldable pub clear_first : List ℕ → ℕ → ℕ → List ℕ
unfolding wrap_pos
clear_first buf current_bit bits_remaining =
    let first = bit_and current_bit 7 in
    let n = if ltb (8 - first) bits_remaining then 8 - first else bits_remaining in
    let cleared = clr_buf_bit_mask buf k_slide_win_buf_size current_bit (first_mask first n) in
    if first == 0
    then clear_whole buf current_bit bits_remaining
    else if bits_remaining - n == 0
    then cleared
    else clear_whole cleared (wrap_pos (current_bit + n)) (bits_remaining - n)

unfoldable pub clear_bit_range : List ℕ → ℕ → ℕ → List ℕ
unfolding wrap_pos
clear_bit_range buf start_bit num_bits =
    if num_bits == 0
    then buf
    else if num_bits == 1
    then clr_buf_bit buf k_slide_win_buf_size start_bit
    else clear_first buf (wrap_pos start_bit) num_bits

unfoldable pub win_boundary_moving : SlideWin → ℕ → SlideWin
unfolding wrap_pos
win_boundary_moving w sliding_step =
    let lower = w.win_pos_idx_lower in
    let moved = (lower + sliding_step) % u16_mod in
    let fits = ltb moved k_slide_win_size in
    let to_end = clear_bit_range w.slide_win_buf lower (k_slide_win_size - lower) in
    let new_lower = if fits then moved else wrap_pos moved in
    record w {
      slide_win_buf =
          if fits
          then clear_bit_range w.slide_win_buf lower sliding_step
          else clear_bit_range to_end 0 (sliding_step - (k_slide_win_size - lower));
      win_pos_idx_lower = new_lower;
      win_pos_idx_upper = if new_lower == 0 then k_slide_win_size - 1 else new_lower - 1;
    }

unfoldable pub slide : SlideWin → ℕ → ℕ → SlideWin
slide w pkg_sn slide_step =
    if slide_step == 0
    then w
    else win_boundary_moving
        (record w {
          win_pkg_sn_lower = bit_and (w.win_pkg_sn_lower + slide_step) 65535;
          win_pkg_sn_upper = pkg_sn;
        })
        slide_step

-- The test for a repeated packet, and the mark of a new one.
unfoldable pub mark : SlideWin → ℕ → Bool → SlideWin × Bool
unfolding wrap_pos
mark w pkg_sn only_check =
    let pos = wrap_pos pkg_sn in
    if get_buf_bit w.slide_win_buf k_slide_win_buf_size pos
    then (w, false)
    else if only_check
    then (w, true)
    else (record w { slide_win_buf = set_buf_bit w.slide_win_buf k_slide_win_buf_size pos }, true)

unfoldable pub started : SlideWin → ℕ → SlideWin
started w pkg_sn = if w.first_pkg_sn then first_pkg_sn_valid pkg_sn else w

unfoldable pub pkg_sn_valid : SlideWin → ℕ → Bool → SlideWin × Bool
unfolding started slide mark
pkg_sn_valid w0 pkg_sn only_check =
    let w = started w0 pkg_sn in
    let slide_step = get_slide_step w pkg_sn in
    if leb k_slide_win_max_step slide_step
    then mark (slide (first_pkg_sn_valid pkg_sn) pkg_sn 1) pkg_sn only_check
    else mark (slide w pkg_sn slide_step) pkg_sn only_check
