-- ===== src/SlidWin/Stats.antt =====
-- The statistics of `SlidWin` (src/slidwin/slidwin.cpp) that every entry of a number updates: CalcPps and
-- CheckRealExistLoss, and their members after ResetWin. A float is kept as its bit pattern.
use udpfec.Base.{
  ℕ, ◌+◌, ◌-◌, ◌/◌, ◌%◌, ◌^◌, List, [], ◌∷◌, Bool, false, not, ◌&&◌, ◌||◌, ltb, leb, ◌==◌,
  if◌then◌else◌, get_or, set, replicate,
}
use Prim.Native.Nat.{suc, bit_and}

pub record WinStats : Type 0 where
  pub created_ts_us : ℕ
  pub cur_rtt_cache_pos : ℕ
  pub cache_rtt_ring_flg : Bool
  pub loss : ℕ
  pub cur_rtt_us : ℕ
  pub jitter_us : ℕ
  pub jiiter_sum : ℕ
  pub last_calc_loss_ts_us : ℕ
  pub calc_pps_ts_us : ℕ
  pub last_calc_pps_sn_num : ℕ
  pub min_calc_loss_sn_num : ℕ
  pub min_calc_loss_span_us : ℕ
  pub lst_fdbk_loss_ts_us : ℕ
  pub current_sn_num : ℕ
  pub cur_cache_pps_pos : ℕ
  pub cache_pps_ring_flg : Bool
  pub pps_sum : ℕ
  pub avg_pps : ℕ
  pub lst_rpt_quality_ts_us : ℕ
  pub loss_direction : ℕ
  pub rto_sn_num : ℕ
  pub back_rto_sn_num : ℕ
  pub disorder_counter : ℕ
  pub order_counter : ℕ
  pub rto_ts_us : ℕ
  pub feedback_factor : ℕ
  pub feedback_loss_span_us : ℕ
  pub recv_rto_dec_k : ℕ
  pub disconn_filter : ℕ
  pub rtt_dt_sum : ℕ
  pub avg_rtt_dt : ℕ
  pub fdbk_loss : ℕ
  pub last_cache_rtt_ts_us : ℕ
  pub jitter_arith_sum : ℕ
  pub congest_rank : ℕ
  pub last_jitter : ℕ
  pub loss_num : ℕ
  pub calc_loss_num_ts_us : ℕ
  pub loss_num_in_10s : ℕ
  pub last_ts_us : ℕ
  pub learn_rto_sn_std : ℕ
  pub disorder_threshold : ℕ
  pub jitter_cache_buf : List ℕ
  pub pps_cache_buf : List ℕ
  pub rtt_dt_buf : List ℕ

abbrev pub min_calc_loss_sn_num_std : ℕ
min_calc_loss_sn_num_std = 3

abbrev pub min_learn_threshold : ℕ
min_learn_threshold = 3

abbrev pub default_disorder_num : ℕ
default_disorder_num = 2

-- The bit pattern of the float 1.0.
abbrev pub float_one : ℕ
float_one = 1065353216

unfoldable pub reset_stats : Bool → ℕ → WinStats → WinStats
reset_stats is_receive_win ts_us s = record s {
  cur_rtt_cache_pos = 0;
  cache_rtt_ring_flg = false;
  loss = 0;
  cur_rtt_us = 0;
  jitter_us = 0;
  jiiter_sum = 0;
  last_calc_loss_ts_us = ts_us;
  calc_pps_ts_us = (ts_us + 1000000) % 2 ^ 64;
  last_calc_pps_sn_num = 0;
  min_calc_loss_sn_num = min_calc_loss_sn_num_std;
  min_calc_loss_span_us = 100000;
  lst_fdbk_loss_ts_us = 0;
  current_sn_num = 0;
  cur_cache_pps_pos = 0;
  cache_pps_ring_flg = false;
  pps_sum = 0;
  avg_pps = 0;
  lst_rpt_quality_ts_us = ts_us;
  loss_direction = if is_receive_win then 1 else 0;
  rto_sn_num = default_disorder_num;
  back_rto_sn_num = default_disorder_num;
  disorder_counter = 0;
  order_counter = 0;
  rto_ts_us = if is_receive_win then 10000 else 450000;
  feedback_factor = float_one;
  feedback_loss_span_us = 800000;
  recv_rto_dec_k = 8;
  disconn_filter = 0;
  rtt_dt_sum = 0;
  avg_rtt_dt = 0;
  fdbk_loss = 0;
  last_cache_rtt_ts_us = ts_us;
  jitter_arith_sum = 0;
  congest_rank = 4;
  last_jitter = 0;
  loss_num = 0;
  calc_loss_num_ts_us = ts_us;
  loss_num_in_10s = 0;
  last_ts_us = 0;
  learn_rto_sn_std = default_disorder_num;
  disorder_threshold = min_learn_threshold;
  jitter_cache_buf = replicate 16 0;
  pps_cache_buf = replicate 4 0;
  rtt_dt_buf = set s.rtt_dt_buf 0 0;
}

-- The row of a table: the number of the first bound above the value, or behind all bounds.
unfoldable pub row_of : List ℕ → ℕ → ℕ
row_of [] v = 0
row_of (bound ∷ bounds) v = if ltb v bound then 0 else suc (row_of bounds v)

-- The same with bounds that the value may reach.
unfoldable pub row_within : List ℕ → ℕ → ℕ
row_within [] v = 0
row_within (bound ∷ bounds) v = if leb v bound then 0 else suc (row_within bounds v)

unfoldable pub table : List (List ℕ) → ℕ → ℕ → ℕ
table rows row column = get_or (get_or rows row []) column 0

abbrev pub pps_bounds : List ℕ
pps_bounds = 50 ∷ 100 ∷ 150 ∷ 200 ∷ 300 ∷ 400 ∷ 500 ∷ []

abbrev pub std_rto_sn : List (List ℕ)
std_rto_sn =
    (1 ∷ 1 ∷ 2 ∷ 2 ∷ 2 ∷ 3 ∷ 3 ∷ [])
    ∷ (1 ∷ 2 ∷ 2 ∷ 2 ∷ 2 ∷ 3 ∷ 4 ∷ [])
    ∷ (1 ∷ 2 ∷ 2 ∷ 2 ∷ 3 ∷ 3 ∷ 4 ∷ [])
    ∷ (1 ∷ 2 ∷ 2 ∷ 2 ∷ 3 ∷ 4 ∷ 4 ∷ [])
    ∷ (1 ∷ 2 ∷ 2 ∷ 3 ∷ 3 ∷ 4 ∷ 4 ∷ [])
    ∷ (1 ∷ 2 ∷ 2 ∷ 3 ∷ 3 ∷ 4 ∷ 4 ∷ [])
    ∷ (1 ∷ 2 ∷ 2 ∷ 3 ∷ 3 ∷ 4 ∷ 4 ∷ [])
    ∷ (1 ∷ 2 ∷ 3 ∷ 3 ∷ 3 ∷ 5 ∷ 5 ∷ [])
    ∷ []

-- The shift of the number of packets for each row of bounds.
abbrev pub sn_num_shifts : List ℕ
sn_num_shifts = 5 ∷ 5 ∷ 4 ∷ 4 ∷ 4 ∷ 4 ∷ 5 ∷ 6 ∷ []

unfoldable pub rtt_column : ℕ → ℕ
unfolding row_of
rtt_column cur_rtt_us = row_of (20000 ∷ 50000 ∷ 100000 ∷ 150000 ∷ 200000 ∷ 250000 ∷ []) cur_rtt_us

-- The numbers counted since the last calculation, around the turn of the counter.
unfoldable pub period_num : WinStats → ℕ
period_num s =
    if leb s.last_calc_pps_sn_num s.current_sn_num
    then s.current_sn_num - s.last_calc_pps_sn_num
    else (s.current_sn_num + 4294967295 - s.last_calc_pps_sn_num + 1) % 4294967296

-- The period's number enters the cache, and the average is taken over the periods in it.
unfoldable pub average_pps : WinStats → WinStats
unfolding period_num
average_pps s =
    let num = period_num s in
    let sum =
      ((s.pps_sum + num) % 4294967296 + 4294967296 - get_or s.pps_cache_buf s.cur_cache_pps_pos 0)
      % 4294967296 in
    let pos = bit_and (s.cur_cache_pps_pos + 1) 3 in
    let full = s.cache_pps_ring_flg || pos == 0 in
    record s {
      pps_sum = sum;
      pps_cache_buf = set s.pps_cache_buf s.cur_cache_pps_pos num;
      cur_cache_pps_pos = pos;
      cache_pps_ring_flg = full;
      avg_pps = if full then sum / 4 else sum / pos;
    }

-- `scaled n f` is the number `n` multiplied by the float of the pattern `f`, rounded to a number.
module _ (scaled : ℕ → ℕ → ℕ) where
  unfoldable pub calc_pps : WinStats → ℕ → WinStats
  unfolding average_pps row_of table rtt_column
  calc_pps s ts_us =
      let a = average_pps s in
      let row = row_of pps_bounds a.avg_pps in
      let num = scaled (a.avg_pps / 2 ^ get_or sn_num_shifts row 0) a.feedback_factor in
      let threshold = a.avg_pps / 64 % 65536 in
      if ltb ts_us s.calc_pps_ts_us then s else record a {
        min_calc_loss_sn_num =
            if ltb num min_calc_loss_sn_num_std then min_calc_loss_sn_num_std else num;
        disorder_threshold =
            if ltb threshold min_learn_threshold then min_learn_threshold else threshold;
        back_rto_sn_num = table std_rto_sn row (rtt_column a.cur_rtt_us);
        last_calc_pps_sn_num = a.current_sn_num;
        calc_pps_ts_us = (ts_us + 1000000) % 2 ^ 64;
      }

-- How far the number is from the expected one; across the turn of the numbers it is one less.
unfoldable pub expect_span : ℕ → ℕ → ℕ
expect_span expect_next_recv_sn cur_sn =
    if ltb expect_next_recv_sn cur_sn
    then if ltb expect_next_recv_sn 1000 && ltb 2147483647 cur_sn
      then expect_next_recv_sn + (4294967295 - cur_sn)
      else cur_sn - expect_next_recv_sn
    else if ltb cur_sn 1000 && ltb 2147483647 expect_next_recv_sn
    then cur_sn + (4294967295 - expect_next_recv_sn)
    else expect_next_recv_sn - cur_sn

abbrev pub disorder_std : List (List ℕ)
disorder_std =
    (0 ∷ 1 ∷ []) ∷ (1 ∷ 3 ∷ []) ∷ (1 ∷ 5 ∷ []) ∷ (2 ∷ 7 ∷ []) ∷ (3 ∷ 9 ∷ []) ∷ (5 ∷ 11 ∷ []) ∷ []

unfoldable pub exceeds_disorder : WinStats → ℕ → Bool
unfolding row_within table
exceeds_disorder s temp_span =
    let row = row_within (10000 ∷ 40000 ∷ 80000 ∷ 200000 ∷ 300000 ∷ []) s.cur_rtt_us in
    let std_index = if leb 2000 s.avg_pps then 1 else 0 in
    if ltb s.avg_pps 200
    then not (temp_span == 0)
    else if ltb s.avg_pps 1000
    then ltb 1 temp_span
    else ltb (table disorder_std row std_index) temp_span

-- With the number that the window expects next.
unfoldable pub check_real_exist_loss : WinStats → ℕ → ℕ → ℕ → WinStats × Bool
unfolding expect_span exceeds_disorder
check_real_exist_loss s expect_next_recv_sn cur_sn cur_ts =
    let later = record s { last_ts_us = cur_ts % 4294967296 } in
    if s.last_ts_us == 0
    then (
      record later {
        last_calc_loss_ts_us = cur_ts;
        created_ts_us =
            if leb ((s.created_ts_us + 50000) % 2 ^ 64) cur_ts then cur_ts else s.created_ts_us;
      },
      false,
    )
    else if expect_next_recv_sn == cur_sn
    then (later, false)
    else (later, exceeds_disorder s (expect_span expect_next_recv_sn cur_sn))
