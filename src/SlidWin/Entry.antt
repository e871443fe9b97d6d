-- ===== src/SlidWin/Entry.antt =====
-- The entry of numbers and of blocks of numbers into `SlidWin` (src/slidwin/slidwin.cpp) with
-- `calc_loss_flag` SELF_NO, as the session enters a bitmap of confirmed packets into its send window. Log
-- output is left out.
use udpfec.Base.{
  ℕ, zero, suc, ◌+◌, ◌-◌, ◌/◌, ◌%◌, ◌^◌, List, true, false, ltb, leb, ◌==◌, if◌then◌else◌, get_or,
  set, Option, none, some,
}
use Prim.Native.Nat.{bit_and, bit_or}
use udpfec.SlidWin.Stats.{calc_pps, check_real_exist_loss}
use udpfec.SlidWin.Window.{
  SlidWin, SnState, sn_success, sn_error, sn_out_l, sn_out_r, no_move, must_reset, move_by,
  win_pos_mask, sn_span, sn_is_valid, is_move_win, update_max_sn_pos,
}
use udpfec.SlidWin.Move.{reset_win, move_win}

abbrev pub max_reset_recv_win_thrshld : ℕ
max_reset_recv_win_thrshld = 4

unfoldable pub ts_us_to_ms : ℕ → ℕ
ts_us_to_ms ts_us = ts_us / 1000 % 65536

-- The position of a number; across the turn of the numbers it is one less.
unfoldable pub sn_pos : SlidWin → ℕ → ℕ
sn_pos w sn =
    bit_and
      ((if leb w.l_border_sn sn
          then sn - w.l_border_sn + w.l_border_pos
          else 4294967295 - w.l_border_sn + sn + w.l_border_pos)
        % 4294967296)
      win_pos_mask

unfoldable pub mark_pos : List ℕ → ℕ → List ℕ
mark_pos bit_map pos =
    set bit_map (pos / 64) (bit_or (get_or bit_map (pos / 64) 0) (2 ^ bit_and pos 63))

pub data EntryResult : Type 0 where
  entered : EntryResult
  sn_invalid : EntryResult
  was_reset : EntryResult

-- The window starts over at the number without its bits 1 to 3, and the left border is marked.
unfoldable pub entry_reset : SlidWin → ℕ → ℕ → ℕ → SlidWin
unfolding reset_win mark_pos ts_us_to_ms
entry_reset w cur_sn_pos sn ts_us =
    let r = reset_win w (bit_and sn 4294967281) ts_us in
    record r {
      no_calc_loss_sn_num = (r.no_calc_loss_sn_num + 1) % 4294967296;
      sn_bit_map = mark_pos r.sn_bit_map 0;
      sn_ts_ms =
          if w.is_receive_win then set r.sn_ts_ms cur_sn_pos (ts_us_to_ms ts_us) else r.sn_ts_ms;
      bit_map_update = true;
    }

-- A number that is not in the window; the fourth one beyond it in a row resets a receive window.
unfoldable pub refuse_sn : SlidWin → SnState → ℕ → ℕ → SlidWin × EntryResult
unfolding entry_reset
refuse_sn w state sn ts_us =
    let counted = record w { recv_out_r_counter = (w.recv_out_r_counter + 1) % 256 } in
    let beyond =
      if w.is_receive_win
      then elim state [ sn_out_r ↦ true | sn_success ↦ false | sn_error ↦ false | sn_out_l ↦ false ]
      else false in
    if beyond
    then if leb max_reset_recv_win_thrshld counted.recv_out_r_counter
      then (entry_reset counted 0 sn ts_us, was_reset)
      else (counted, sn_invalid)
    else (w, sn_invalid)

-- The number is marked in a window that has moved to it.
unfoldable pub mark_sn : SlidWin → ℕ → ℕ → ℕ → SlidWin
unfolding mark_pos ts_us_to_ms update_max_sn_pos check_real_exist_loss
mark_sn w cur_sn_pos sn ts_us =
    let marked = record w { force_calc_num = 0; sn_bit_map = mark_pos w.sn_bit_map cur_sn_pos } in
    if w.is_receive_win
    then (update_max_sn_pos
        (record marked {
          stats = (check_real_exist_loss w.stats w.expect_next_recv_sn sn ts_us).0;
          sn_ts_ms = set w.sn_ts_ms cur_sn_pos (ts_us_to_ms ts_us);
        })
        cur_sn_pos sn).0
    else record marked { max_rcv_sn_pos = cur_sn_pos }

-- The members that a block updates before the window moves.
unfoldable pub note_block : ℕ → SlidWin → ℕ → ℕ → SlidWin
note_block n w cur_sn_pos ts_us = record w {
  max_rcv_sn_pos = bit_and (cur_sn_pos + (n - 1)) win_pos_mask;
  force_calc_num = 0;
  current_ts_us = ts_us;
  last_recv_ts_us = ts_us;
}

-- The window moves or starts over for the first number of the block; with the block's position.
unfoldable pub move_to_block : SlidWin → ℕ → ℕ → ℕ → Option (SlidWin × ℕ)
unfolding reset_win move_win is_move_win
move_to_block w cur_sn_pos begin_sn ts_us = elim (is_move_win w cur_sn_pos) [
  | must_reset ↦ some (reset_win w begin_sn ts_us, 0)
  | no_move ↦ some (w, cur_sn_pos)
  | move_by step ↦ elim (move_win w step) [ none ↦ none | some moved ↦ some (moved, cur_sn_pos) ]
]

unfoldable pub place_block : ℕ → SlidWin → ℕ → ℕ → Option (SlidWin × ℕ)
unfolding sn_span note_block move_to_block
place_block n w begin_sn ts_us =
    let cur_sn_pos = bit_and ((w.l_border_pos + sn_span w begin_sn) % 4294967296) win_pos_mask in
    move_to_block (note_block n w cur_sn_pos ts_us) cur_sn_pos begin_sn ts_us

module _ (scaled : ℕ → ℕ → ℕ) where
  -- The members that an entry of a valid number updates before the window moves.
  unfoldable pub note_entry : SlidWin → ℕ → SlidWin
  unfolding calc_pps
  note_entry w ts_us =
      let noted = record w {
        recv_out_r_counter = 0;
        current_ts_us = ts_us;
        last_recv_ts_us = ts_us;
        no_calc_loss_sn_num = (w.no_calc_loss_sn_num + 1) % 4294967296;
      } in
      let counted = record w.stats { current_sn_num = (w.stats.current_sn_num + 1) % 4294967296 } in
      if w.is_receive_win
      then record noted { bit_map_update = true; stats = calc_pps scaled counted ts_us }
      else noted

  unfoldable pub sn_entry_win : SlidWin → ℕ → ℕ → Option (SlidWin × EntryResult)
  unfolding refuse_sn note_entry move_win mark_sn entry_reset sn_pos
  sn_entry_win w sn ts_us =
      let cur_sn_pos = sn_pos w sn in
      let noted = note_entry w ts_us in
      elim (sn_is_valid w sn) [
        | sn_error ↦ some (refuse_sn w sn_error sn ts_us)
        | sn_out_l ↦ some (refuse_sn w sn_out_l sn ts_us)
        | sn_out_r ↦ some (refuse_sn w sn_out_r sn ts_us)
        | sn_success ↦ elim (is_move_win noted cur_sn_pos) [
          | must_reset ↦ some (entry_reset noted cur_sn_pos sn ts_us, was_reset)
          | no_move ↦ some (mark_sn noted cur_sn_pos sn ts_us, entered)
          | move_by step ↦ elim (move_win noted step) [
            | none ↦ none
            | some moved ↦ some (mark_sn moved cur_sn_pos sn ts_us, entered)
          ]
        ]
      ]

  -- The loop over the bits of a block: the mask of the bit is the same in every round.
  unfoldable pub block_loop : ℕ → SlidWin → ℕ → ℕ → ℕ → Option SlidWin
  unfolding sn_entry_win
  block_loop zero w sn_bit_map sn ts_us = some w
  block_loop (suc n) w sn_bit_map sn ts_us =
      let next : Option SlidWin =
        if bit_and sn_bit_map 1 == 0
        then some w
        else elim (sn_entry_win w sn ts_us) [ none ↦ none | some (w', _) ↦ some w' ] in
      elim next [ none ↦ none | some w' ↦ block_loop n w' sn_bit_map ((sn + 1) % 4294967296) ts_us ]

  -- A block of `n` numbers, 64 or 32, at its position, with the function that writes a block of ones.
  unfoldable pub enter_block :
      ℕ → (List ℕ → ℕ → List ℕ) → ℕ → ℕ → ℕ → SlidWin × ℕ → Option (SlidWin × EntryResult)
  unfolding block_loop
  enter_block n fill sn_bit_map begin_sn ts_us (w, pos) =
      if sn_bit_map == 2 ^ n - 1
      then some (
        record w {
          sn_bit_map = fill w.sn_bit_map pos;
          no_calc_loss_sn_num = (w.no_calc_loss_sn_num + n) % 4294967296;
        },
        entered,
      )
      else elim (block_loop n w sn_bit_map begin_sn ts_us) [
        | none ↦ none
        | some w' ↦ some (w', entered)
      ]

  unfoldable pub block_sn_entry :
      ℕ → (List ℕ → ℕ → List ℕ) → SlidWin → ℕ → ℕ → ℕ → Option (SlidWin × EntryResult)
  unfolding enter_block place_block
  block_sn_entry n fill w sn_bit_map begin_sn ts_us =
      if w.is_receive_win
      then some (w, entered)
      else if ltb w.max_sn_span (sn_span w begin_sn)
      then some (w, sn_invalid)
      else elim (place_block n w begin_sn ts_us) [
        | none ↦ none
        | some placed ↦ enter_block n fill sn_bit_map begin_sn ts_us placed
      ]

  -- The word is overwritten with ones.
  unfoldable pub block_u64_sn_entry_win : SlidWin → ℕ → ℕ → ℕ → Option (SlidWin × EntryResult)
  unfolding block_sn_entry
  block_u64_sn_entry_win = block_sn_entry 64 (λ bit_map pos. set bit_map (pos / 64) (2 ^ 64 - 1))

  -- The upper or the lower half of the word is set to ones.
  unfoldable pub block_u32_sn_entry_win : SlidWin → ℕ → ℕ → ℕ → Option (SlidWin × EntryResult)
  unfolding block_sn_entry
  block_u32_sn_entry_win = block_sn_entry 32 (λ bit_map pos. set bit_map (pos / 64) (
      bit_or (get_or bit_map (pos / 64) 0)
        (if bit_and pos 63 == 0 then 2 ^ 32 - 1 else 2 ^ 64 - 2 ^ 32)))
