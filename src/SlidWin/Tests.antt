-- ===== src/SlidWin/Tests.antt =====
-- The session's window (src/slidwin/slidwin.cpp) at concrete numbers.
use udpfec.Base.{
  ℕ, zero, suc, ◌+◌, ◌/◌, ◌≤◌, ◌<◌, ◌≡◌, refl, true, false, [], ◌∷◌, replicate, Option, some, none,
  arith,
}
use udpfec.SlidWin.Stats.{WinStats, period_num, calc_pps}
use udpfec.SlidWin.Window.{SlidWin, move_by, pos_span, update_max_sn_pos, is_move_win, sn_is_valid}
use udpfec.SlidWin.Tmout.{get_rto_tmout_pos_by_ts, get_rto_tmout_pos_by_sn, calc_delta_ts_ms}
use udpfec.SlidWin.Nack.{check_nack_is_valid, in_answer, check_nack_is_valid-in_range}
use udpfec.SlidWin.NackEntry.{nack_sn_entry, set_bits, mark_tail, mark_head}
use udpfec.SlidWin.Overdue.{FindsWithin, delay, get_rto_tmout_pos_total, get_rto_tmout_pos_middle}
use udpfec.SlidWin.Move.{reset_win}
use udpfec.SlidWin.Entry.{EntryResult, block_sn_entry, block_u64_sn_entry_win}
use udpfec.SlidWin.Refine.{bit_at}
use udpfec.SlidWin.NackEnd.{Ends, nack_sn_entry-Ends}
use udpfec.SlidWin.Blocks.{block_sn_entry_first_bit}
use udpfec.SlidWin.Rate.{IsRate, total, periods, calc_pps-IsRate}

abbrev blank_stats : WinStats
blank_stats = record {
  created_ts_us = 0;
  cur_rtt_cache_pos = 0;
  cache_rtt_ring_flg = false;
  loss = 0;
  cur_rtt_us = 0;
  jitter_us = 0;
  jiiter_sum = 0;
  last_calc_loss_ts_us = 0;
  calc_pps_ts_us = 0;
  last_calc_pps_sn_num = 0;
  min_calc_loss_sn_num = 0;
  min_calc_loss_span_us = 0;
  lst_fdbk_loss_ts_us = 0;
  current_sn_num = 0;
  cur_cache_pps_pos = 0;
  cache_pps_ring_flg = false;
  pps_sum = 0;
  avg_pps = 0;
  lst_rpt_quality_ts_us = 0;
  loss_direction = 0;
  rto_sn_num = 0;
  back_rto_sn_num = 0;
  disorder_counter = 0;
  order_counter = 0;
  rto_ts_us = 0;
  feedback_factor = 0;
  feedback_loss_span_us = 0;
  recv_rto_dec_k = 0;
  disconn_filter = 0;
  rtt_dt_sum = 0;
  avg_rtt_dt = 0;
  fdbk_loss = 0;
  last_cache_rtt_ts_us = 0;
  jitter_arith_sum = 0;
  congest_rank = 0;
  last_jitter = 0;
  loss_num = 0;
  calc_loss_num_ts_us = 0;
  loss_num_in_10s = 0;
  last_ts_us = 0;
  learn_rto_sn_std = 0;
  disorder_threshold = 0;
  jitter_cache_buf = replicate 16 0;
  pps_cache_buf = replicate 4 0;
  rtt_dt_buf = replicate 16 0;
}

-- A window of 4096 positions near the turn of positions and numbers.
abbrev turning : SlidWin
turning = record {
  is_receive_win = true;
  filter_win_flag = true;
  recv_out_r_counter = 0;
  no_calc_loss_sn_num = 0;
  current_ts_us = 0;
  last_recv_ts_us = 0;
  bit_map_update = false;
  force_calc_num = 0;
  max_rcv_sn_pos = 0;
  sn_ts_ms = replicate 8192 0;
  stats = blank_stats;
  sn_bit_map = replicate 128 0;
  l_border_pos = 8000;
  r_border_pos = 3904;
  l_border_sn = 4294967290;
  r_border_sn = 4090;
  cur_win_size = 4096;
  max_sn_pos = 8005;
  max_sn = 4294967295;
  max_sn_span = 5;
  expect_next_recv_sn = 0;
}

move_test : is_move_win turning 2000 ≡ move_by 192
unfolding is_move_win pos_span
move_test = refl

-- The product with the float 1.0.
abbrev by_one : ℕ → ℕ → ℕ
by_one n factor = n

abbrev sending : SlidWin
sending = record turning { is_receive_win = false }

abbrev new_window : SlidWin
new_window = reset_win sending 100 0

nack_sn_entry-Ends_example : Ends (nack_sn_entry sending 4294967292 2 (1 ∷ []))
nack_sn_entry-Ends_example = nack_sn_entry-Ends sending 4294967292 2 (1 ∷ [])

block_sn_entry_first_bit_example :
    block_sn_entry by_one 64 (λ bit_map pos. bit_map) sending 1 4294967292 9
    ≡ block_sn_entry by_one 64 (λ bit_map pos. bit_map) sending 3 4294967292 9
block_sn_entry_first_bit_example =
    block_sn_entry_first_bit by_one 64 (λ bit_map pos. bit_map) sending 1 3 4294967292 9
      (λ e. absurd (omega (arith, e))) (λ e. absurd (omega (arith, e))) refl

-- The second period, with 30 packets after 40.
abbrev busy_stats : WinStats
busy_stats = record blank_stats {
  current_sn_num = 70;
  last_calc_pps_sn_num = 40;
  pps_sum = 40;
  cur_cache_pps_pos = 1;
  pps_cache_buf = 40 ∷ 0 ∷ 0 ∷ 0 ∷ [];
}

busy_small : 40 + period_num busy_stats < 4294967296
unfolding period_num
busy_small = omega arith

busy_rate : (calc_pps by_one busy_stats 5).avg_pps ≡ 35
unfolding calc_pps
busy_rate = refl

calc_pps-IsRate_example :
    let s' = calc_pps by_one busy_stats 5 in
    IsRate s'
    × (0 < periods s')
    × (s'.avg_pps ≡ total s'.pps_cache_buf / periods s')
    × (period_num s' ≡ 0)
calc_pps-IsRate_example =
    calc_pps-IsRate by_one busy_stats 5
      (record { cached = refl; on_ring = omega arith; sum = refl }) busy_small (omega arith)

bit_of : Option (SlidWin × EntryResult) → ℕ → ℕ
bit_of none pos = 2
bit_of (some (w, result)) pos = bit_at w.sn_bit_map pos

-- A bitmap of the first number alone marks the second one too.
block_marks_all : bit_of (block_u64_sn_entry_win by_one sending 1 4294967290 9) 8001 ≡ 1
unfolding bit_of block_u64_sn_entry_win update_max_sn_pos sn_is_valid
block_marks_all = refl

abbrev three_sent : SlidWin
three_sent = record turning { sn_ts_ms = 0 ∷ 990 ∷ 995 ∷ [] }

get_rto_tmout_pos_total_example :
    FindsWithin 0 2 (get_rto_tmout_pos_by_ts three_sent 0 2 100 1000)
    × FindsWithin 0 2 (get_rto_tmout_pos_by_sn three_sent 0 2 2)
get_rto_tmout_pos_total_example = get_rto_tmout_pos_total three_sent 0 2 100 1000 2

falling : (i j : ℕ) → 0 ≤ i → i ≤ j → j ≤ 2 → delay three_sent 1000 j ≤ delay three_sent 1000 i
unfolding calc_delta_ts_ms
falling zero zero low le high = omega arith
falling (suc i) zero low le high = absurd (omega arith)
falling zero (suc zero) low le high = omega arith
falling (suc zero) (suc zero) low le high = omega arith
falling (suc (suc i)) (suc zero) low le high = absurd (omega arith)
falling zero (suc (suc zero)) low le high = omega arith
falling (suc zero) (suc (suc zero)) low le high = omega arith
falling (suc (suc zero)) (suc (suc zero)) low le high = omega arith
falling (suc (suc (suc i))) (suc (suc zero)) low le high = absurd (omega arith)
falling i (suc (suc (suc j))) low le high = absurd (omega arith)

-- The position that is found is not overdue, though the first one is.
get_rto_tmout_pos_middle_example : get_rto_tmout_pos_by_ts three_sent 0 2 100 1000 ≡ some 2
unfolding calc_delta_ts_ms
get_rto_tmout_pos_middle_example =
    get_rto_tmout_pos_middle three_sent 0 2 100 1000 (omega arith) falling (omega arith)
      (omega arith)

abbrev seen_window : SlidWin
seen_window = record turning { l_border_sn = 4294967040; max_sn = 4294967290 }

-- The number 4294967290 is in the NACK's range from 4294967280 to 5 and in the window.
check_nack_is_valid-in_range_example :
    in_answer (check_nack_is_valid seen_window 4294967280 5) 4294967290 ≡ false
check_nack_is_valid-in_range_example =
    check_nack_is_valid-in_range seen_window 4294967280 5 4294967290 (omega arith) (omega arith)
      (omega arith) (omega arith) (omega arith) (omega arith)

-- The range from the position 70 to 73: the bits up to 74 are set, and those from 6 on in the block in front.
marked_range_test :
    mark_head (mark_tail (0 ∷ 0 ∷ [], 0) 73) 70 ≡ (18446744073709551552 ∷ 2047 ∷ [], 68)
unfolding mark_head mark_tail set_bits
marked_range_test = refl
