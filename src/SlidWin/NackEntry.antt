-- ===== src/SlidWin/NackEntry.antt =====
-- What NackSnEntryWin (src/slidwin/slidwin.cpp) does to the window before it computes the loss: it marks the
-- numbers of a NACK's range as received, and clears the ones that the NACK lists as lost.
use udpfec.Base.{
  ℕ, zero, suc, ◌+◌, ◌-◌, ◌*◌, ◌/◌, ◌%◌, ◌^◌, ltb, leb, ◌==◌, if◌then◌else◌, get_or, set, List, [],
  ◌∷◌, Option, some, none,
}
use Prim.Native.Nat.{bit_and, bit_or}
use udpfec.SlidWin.Window.{SlidWin, sn_span, win_pos_mask}
use udpfec.SlidWin.Move.{slid_win_u64_buf_sz}
use udpfec.SlidWin.Nack.{check_nack_is_valid}

abbrev pub full_word : ℕ
full_word = 18446744073709551615

abbrev pub NackMap : Type 0
NackMap = List ℕ × ℕ

-- The blocks from the head's to the one in front of the tail's.
unfoldable pub fill_blocks : ℕ → NackMap → ℕ → ℕ → Option NackMap
fill_blocks zero (bits, num) block end_block = none
fill_blocks (suc fuel) (bits, num) block end_block =
    let next = if leb slid_win_u64_buf_sz (block + 1) then 0 else block + 1 in
    let rest =
      fill_blocks fuel (set bits block full_word, (num + 64) % 4294967296) next end_block in
    if end_block == block then some (bits, num) else rest

-- The loop sets a bit and shifts it, so many times.
unfoldable pub set_bits : ℕ → ℕ → ℕ → ℕ
set_bits zero bit_value word = word
set_bits (suc n) bit_value word =
    set_bits n (bit_value * 2 % 18446744073709551616) (bit_or word bit_value)

-- The tail's block: the loop runs once more than there are bits up to the tail's.
unfoldable pub mark_tail : NackMap → ℕ → NackMap
unfolding set_bits
mark_tail (bits, num) tail_pos =
    let block = tail_pos / 64 in
    let move_pos = bit_and tail_pos 63 in
    if move_pos == 63 then (set bits block full_word, (num + 64) % 4294967296) else (
      set bits block (set_bits (move_pos + 2) 1 (get_or bits block 0)),
      (num + move_pos + 1) % 4294967296,
    )

-- The block in front of the head's, from the head's bit on.
unfoldable pub mark_head : NackMap → ℕ → NackMap
unfolding set_bits
mark_head (bits, num) head_pos =
    let move_pos = bit_and head_pos 63 in
    let block = if head_pos / 64 == 0 then slid_win_u64_buf_sz - 1 else head_pos / 64 - 1 in
    if move_pos == 0 then (bits, num) else (
      set bits block (set_bits (64 - move_pos) (2 ^ move_pos) (get_or bits block 0)),
      (num + (64 - move_pos)) % 4294967296,
    )

-- The numbers of the list, as offsets from the head's, up to the newest one.
unfoldable pub clear_lost : SlidWin → ℕ → List ℕ → List ℕ → List ℕ
unfolding sn_span
clear_lost w head_sn [] bits = bits
clear_lost w head_sn (sn_offset ∷ offsets) bits =
    let span = sn_span w ((head_sn + sn_offset) % 4294967296) in
    let pos = bit_and ((span + w.l_border_pos) % 4294967296) win_pos_mask in
    let word = get_or bits (pos / 64) 0 in
    let cleared = set bits (pos / 64) (bit_and word (full_word - 2 ^ bit_and pos 63)) in
    clear_lost w head_sn offsets (if ltb w.max_sn_span span then bits else cleared)

-- The range marked and the list cleared; the blocks of the ring are enough fuel.
unfoldable pub enter_nack : SlidWin → ℕ → ℕ → ℕ → List ℕ → Option SlidWin
unfolding sn_span fill_blocks mark_tail mark_head clear_lost
enter_nack w comb_head_sn comb_tail_sn head_sn offsets =
    let head_pos = bit_and ((w.l_border_pos + sn_span w comb_head_sn) % 4294967296) win_pos_mask in
    let tail_pos = bit_and ((w.l_border_pos + sn_span w comb_tail_sn) % 4294967296) win_pos_mask in
    elim (fill_blocks (slid_win_u64_buf_sz + 1) (w.sn_bit_map, w.no_calc_loss_sn_num)
      (head_pos / 64) (tail_pos / 64)) [
        | none ↦ none
        | some filled ↦
            let (bits, num) = mark_head (mark_tail filled tail_pos) head_pos in
            some (record w {
              max_rcv_sn_pos = tail_pos;
              sn_bit_map = clear_lost w head_sn offsets bits;
              no_calc_loss_sn_num = num;
            })
      ]

-- The inner none stands for kInvalidNackSn.
unfoldable pub nack_checked : SlidWin → Option (ℕ × ℕ) → ℕ → List ℕ → Option (Option SlidWin)
unfolding enter_nack
nack_checked w none head_sn offsets = some none
nack_checked w (some (comb_head_sn, comb_tail_sn)) head_sn offsets =
    elim (enter_nack w comb_head_sn comb_tail_sn head_sn offsets) [
      | none ↦ none
      | some entered_win ↦ some (some entered_win)
    ]

unfoldable pub nack_sn_entry : SlidWin → ℕ → ℕ → List ℕ → Option (Option SlidWin)
unfolding check_nack_is_valid nack_checked
nack_sn_entry w head_sn tail_sn offsets =
    let checked = nack_checked w (check_nack_is_valid w head_sn tail_sn) head_sn offsets in
    if w.is_receive_win then some (some w) else checked
