-- ===== src/SlidWin/Fresh.antt =====
-- ResetWin of the session's window (src/slidwin/slidwin.cpp).
use udpfec.Base.{
  ℕ, ◌+◌, ◌/◌, ◌%◌, ◌≤◌, ◌<◌, ◌≡◌, refl, ap, ◌∙◌, List, true, false, ◌&&◌, ltb, leb, get_or,
  if◌then◌else◌, length, arith,
}
use udpfec.Base.Bits.{bit, bit-zero}
use udpfec.Base.Memory.{zero_bytes, length-zero_bytes, get_or-zero_bytes}
use udpfec.SlidWin.Window.{SlidWin}
use udpfec.SlidWin.Move.{reset_win}
use udpfec.SlidWin.Refine.{bit_at, Refines}

zero_bit :
    (bit_map : List ℕ) (i : ℕ)
    → length bit_map ≡ 128
    → i < 4096
    → bit_at (zero_bytes bit_map 0 64) ((0 + i) % 8192) ≡ 0
zero_bit bit_map i words h =
    let pos = (0 + i) % 8192 in
    let first : pos / 64 < 64 = omega arith in
    let cleared : (leb 0 (pos / 64) && ltb (pos / 64) (0 + 64)) ≡ true = ground (arith, first) in
    let word = get_or-zero_bytes 64 0 (pos / 64) bit_map (omega (arith, words)) in
    ap (λ t. bit t (pos % 64))
      (word ∙ ap (λ t. if t then 0 else get_or bit_map (pos / 64) 0) cleared)
    ∙ bit-zero (pos % 64)

-- After ResetWin the window holds no number.
pub reset_win-Refines :
    (w : SlidWin) (start ts_us : ℕ)
    → length w.sn_bit_map ≡ 128
    → length w.sn_ts_ms ≡ 8192
    → start + 8192 ≤ 4294967296
    → Refines (reset_win w start ts_us) (λ _. false)
unfolding reset_win
reset_win-Refines w start ts_us words times far = record {
  order = record {
    on_ring = omega arith;
    aligned = omega arith;
    right_pos = omega arith;
    right_sn = omega arith;
    no_turn = far;
    size = refl;
    words = length-zero_bytes 64 0 w.sn_bit_map ∙ words;
    times = times;
    max_on_ring = omega arith;
    max_is_sn = omega arith;
    max_place = omega arith;
  };
  marks = λ i h. zero_bit w.sn_bit_map i words h;
  ahead = λ k h. refl;
}
