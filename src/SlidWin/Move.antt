-- ===== src/SlidWin/Move.antt =====
-- The moves of `SlidWin` (src/slidwin/slidwin.cpp) and its reset. Log output is left out. A ring is cleared
-- with one round for each slot, and running out of rounds is `none`.
use udpfec.Base.{
  ℕ, zero, suc, ◌+◌, ◌-◌, ◌/◌, ◌%◌, List, [], ◌∷◌, false, leb, ◌==◌, if◌then◌else◌, set, Option,
  none, some,
}
use Prim.Native.Nat.{bit_and}
use udpfec.Base.Memory.{zero_bytes}
use udpfec.SlidWin.Stats.{WinStats, row_of, table, reset_stats}
use udpfec.SlidWin.Window.{SlidWin, win_buf_size, win_pos_mask, min_win_sz}

abbrev pub slid_win_u64_buf_sz : ℕ
slid_win_u64_buf_sz = win_buf_size / 64

-- The members of the statistics are reset by `reset_stats`.
unfoldable pub reset_win : SlidWin → ℕ → ℕ → SlidWin
reset_win w current_sn ts_us = record w {
  l_border_pos = 0;
  r_border_pos = min_win_sz;
  l_border_sn = current_sn;
  r_border_sn = (current_sn + min_win_sz) % 4294967296;
  cur_win_size = min_win_sz;
  current_ts_us = ts_us;
  recv_out_r_counter = 0;
  no_calc_loss_sn_num = 0;
  max_sn_pos = 0;
  max_sn = current_sn;
  max_sn_span = 0;
  last_recv_ts_us = ts_us;
  max_rcv_sn_pos = 0;
  bit_map_update = false;
  expect_next_recv_sn = current_sn;
  sn_bit_map = zero_bytes w.sn_bit_map 0 (min_win_sz / 64);
  stats = reset_stats w.is_receive_win ts_us w.stats;
}

abbrev pub std_filter_reserve_size : List (List ℕ)
std_filter_reserve_size =
    (256 ∷ 256 ∷ 256 ∷ 256 ∷ [])
    ∷ (256 ∷ 256 ∷ 256 ∷ 256 ∷ [])
    ∷ (320 ∷ 320 ∷ 320 ∷ 320 ∷ [])
    ∷ (384 ∷ 384 ∷ 384 ∷ 384 ∷ [])
    ∷ (448 ∷ 448 ∷ 448 ∷ 448 ∷ [])
    ∷ (512 ∷ 512 ∷ 512 ∷ 512 ∷ [])
    ∷ []

unfoldable pub calc_filter_win_reserve_size : WinStats → ℕ
unfolding row_of table
calc_filter_win_reserve_size s =
    table std_filter_reserve_size (row_of (50 ∷ 100 ∷ 150 ∷ 200 ∷ 300 ∷ []) s.avg_pps)
      (row_of (50000 ∷ 100000 ∷ 150000 ∷ []) s.cur_rtt_us)

abbrev pub std_tran_reserve_size : List (List ℕ)
std_tran_reserve_size =
    (128 ∷ 128 ∷ 192 ∷ 192 ∷ [])
    ∷ (192 ∷ 192 ∷ 192 ∷ 256 ∷ [])
    ∷ (192 ∷ 256 ∷ 256 ∷ 320 ∷ [])
    ∷ (256 ∷ 256 ∷ 320 ∷ 384 ∷ [])
    ∷ (320 ∷ 320 ∷ 384 ∷ 448 ∷ [])
    ∷ (448 ∷ 448 ∷ 448 ∷ 512 ∷ [])
    ∷ (512 ∷ 512 ∷ 512 ∷ 640 ∷ [])
    ∷ (640 ∷ 640 ∷ 640 ∷ 768 ∷ [])
    ∷ []

unfoldable pub calc_tran_win_reserve_size : WinStats → ℕ
unfolding row_of table
calc_tran_win_reserve_size s =
    table std_tran_reserve_size (row_of (50 ∷ 100 ∷ 150 ∷ 200 ∷ 300 ∷ 400 ∷ 500 ∷ []) s.avg_pps)
      (row_of (50000 ∷ 100000 ∷ 150000 ∷ []) s.cur_rtt_us)

-- The loop of the macro ClearMemory, which clears from a position on up to the end position, around the
-- end of the memory, and the end position too.
unfoldable pub clear_memory : ℕ → List ℕ → ℕ → ℕ → ℕ → Option (List ℕ)
clear_memory zero mem size pos end_pos = none
clear_memory (suc fuel) mem size pos end_pos =
    let cleared = set mem pos 0 in
    let next = if leb size (pos + 1) then 0 else pos + 1 in
    let rest = clear_memory fuel cleared size next end_pos in
    if next == end_pos then some (set cleared end_pos 0) else rest

-- The memory that comes into the window, from its old right border to the new one.
unfoldable pub clear_between : List ℕ → ℕ → ℕ → ℕ → Option (List ℕ)
unfolding zero_bytes clear_memory
clear_between mem size begin_pos end_pos =
    if leb begin_pos end_pos
    then some (zero_bytes mem begin_pos (end_pos - begin_pos))
    else clear_memory size mem size begin_pos end_pos

abbrev pub block_of : ℕ → ℕ
block_of pos = if leb slid_win_u64_buf_sz (pos / 64) then 0 else pos / 64

unfoldable pub move_borders : SlidWin → ℕ → Option SlidWin
move_borders w step =
    let new_r = bit_and ((w.r_border_pos + step) % 4294967296) win_pos_mask in
    let new_l = bit_and ((w.l_border_pos + step) % 4294967296) win_pos_mask in
    elim (clear_between w.sn_ts_ms win_buf_size w.r_border_pos new_r) [
      | none ↦ none
      | some times ↦
          elim (clear_between w.sn_bit_map slid_win_u64_buf_sz (block_of w.r_border_pos)
            (block_of new_r)) [
              | none ↦ none
              | some bits ↦ some (record w {
                r_border_pos = new_r;
                l_border_pos = new_l;
                r_border_sn = (w.r_border_sn + step) % 4294967296;
                l_border_sn = (w.l_border_sn + step) % 4294967296;
                sn_ts_ms = times;
                sn_bit_map = bits;
                cur_win_size =
                    if leb new_l new_r then new_r - new_l else win_buf_size - new_l + new_r;
              })
            ]
    ]

-- The step that remains when the reserve is kept, a multiple of 64.
unfoldable pub valid_move_step : SlidWin → ℕ → ℕ
unfolding calc_filter_win_reserve_size calc_tran_win_reserve_size
valid_move_step w move_step =
    let reserve_size =
      if w.filter_win_flag
      then calc_filter_win_reserve_size w.stats
      else calc_tran_win_reserve_size w.stats in
    if leb move_step 64
    then 0
    else if leb move_step reserve_size
    then 0
    else bit_and (move_step - reserve_size) 65472

unfoldable pub move_win : SlidWin → ℕ → Option SlidWin
unfolding valid_move_step move_borders
move_win w move_step =
    let step = valid_move_step w move_step in if step == 0 then some w else move_borders w step
