-- ===== src/SlidWin/Spans.antt =====
-- Spans, steps and borders of the session's window (src/slidwin/slidwin.cpp).
use udpfec.Base.{
  ℕ, ◌+◌, ◌-◌, ◌/◌, ◌%◌, ◌<◌, ◌≤◌, ◌≡◌, refl, Bool, true, false, ltb, leb, if◌then◌else◌, arith,
  inl, inr, ◌≢◌, Bool-cases,
}
use Prim.Native.Nat.{max}
use udpfec.Base.Masks.{bit_and-mask}
use udpfec.Base.Words.{bit_and-clear}
use udpfec.SlidWin.Window.{
  SlidWin, SnState, sn_success, sn_error, sn_out_l, sn_out_r, MoveStep, no_move, must_reset,
  move_by, pos_span, sn_span, is_repeat, check_is_repeat_packet_sn, update_max_sn_pos, is_move_win,
  sn_is_valid,
}

-- What a move means for a position `span` behind the left border, of a window with `half` its size.
abbrev pub Moves : ℕ → ℕ → MoveStep → Type 0
Moves span half no_move = span < half
Moves span half must_reset = half + 3072 ≤ span
Moves span half (move_by step) =
    (half ≤ span)
    × (step % 64 ≡ 0)
    × (step ≤ 3072)
    × (span < half + step)
    × (half + step ≤ span + 64)

pub is_move_win-Moves :
    (w : SlidWin) (pos : ℕ)
    → w.l_border_pos < 8192
    → pos < 8192
    → w.cur_win_size ≤ 6144
    → Moves (pos_span w pos) (w.cur_win_size / 2) (is_move_win w pos)
unfolding is_move_win pos_span
is_move_win-Moves w pos h k size =
    let half = w.cur_win_size / 2 in
    let small : half ≤ 3072 = omega (arith, size) in
    let mid = bit_and-mask 13 (w.l_border_pos + half) in
    let span =
      if leb w.l_border_pos pos then pos - w.l_border_pos else 8192 - w.l_border_pos + pos in
    let mid_pos = (w.l_border_pos + half) % 8192 in
    let mv = if leb mid_pos pos then pos - mid_pos else 8192 - mid_pos + pos in
    elim (Bool-cases (ltb span half)) [
      | inl inside ↦ rw inside (ground arith)
      | inr outside ↦
          let on_ring : mv ≡ span - half = ground (arith, h, k, small, outside) in
          let bound : mv < 8192 = ground (arith, h, k, small, outside) in
          let reach : half ≤ span = ground arith in
          let steps = bit_and-clear 6 32 mv (omega arith) (omega (arith, bound)) in
          rw (outside, mid, steps)
            (elim (Bool-cases (ltb 3072 (mv - mv % 64 + 64))) [
              | inl far ↦ rw far (ground (arith, on_ring, reach))
              | inr near ↦ rw near (
                reach,
                omega arith,
                ground arith,
                omega (arith, on_ring, reach),
                omega (arith, on_ring, reach),
              )
            ])
    ]

abbrev is_success : SnState → Bool
is_success sn_success = true
is_success sn_error = false
is_success sn_out_l = false
is_success sn_out_r = false

-- For 32-bit numbers and a window of up to 6144 positions, a number is valid exactly where its distance to
-- the left border, modulo 2 ^ 32, is at most the window's size, or at most one more where the numbers turn
-- between the two.
sn_is_valid_lem :
    (w : SlidWin) (sn : ℕ)
    → w.l_border_sn < 4294967296
    → sn < 4294967296
    → w.cur_win_size ≤ 6144
    → let distance = (sn + 4294967296 - w.l_border_sn) % 4294967296 in
      let reach = if leb w.l_border_sn sn then w.cur_win_size else w.cur_win_size + 1 in
      is_success (sn_is_valid w sn) ≡ leb distance reach
unfolding sn_is_valid sn_span
sn_is_valid_lem w sn h k size = ground (arith, h, k, size)

-- The newest position never falls back: its distance to the left border is then the larger one of the old
-- newest position's and the new position's, unless the new position is beyond the window; then nothing
-- changes.
update_max_sn_pos_lem :
    (w : SlidWin) (pos sn : ℕ)
    → let (w', valid) = update_max_sn_pos w pos sn in
      (valid ≡ leb (pos_span w pos) w.cur_win_size)
      × (pos_span w' w'.max_sn_pos ≡ (
          if valid
          then max (pos_span w w.max_sn_pos) (pos_span w pos)
          else pos_span w w.max_sn_pos))
unfolding update_max_sn_pos pos_span
update_max_sn_pos_lem w pos sn = ground arith

-- What `SnIsValid` rejects, `CheckIsRepeatPacketSn` of a receive window takes for a repeated number.
check_is_repeat_packet_sn-sn_is_valid :
    (w : SlidWin) (sn : ℕ)
    → w.is_receive_win ≡ true
    → sn_is_valid w sn ≢ sn_success
    → check_is_repeat_packet_sn w sn ≡ is_repeat
unfolding sn_is_valid check_is_repeat_packet_sn
check_is_repeat_packet_sn-sn_is_valid w sn receives rejected =
    elim (Bool-cases (ltb w.cur_win_size (sn_span w sn))) [
      | inl beyond ↦
          let out : leb w.cur_win_size (sn_span w sn) ≡ true = ground arith in
          rw (receives, out, check_is_repeat_packet_sn) refl
      | inr within ↦ absurd (rejected (rw (within, sn_is_valid) refl))
    ]
