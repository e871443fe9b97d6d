-- ===== src/LossStat/Stat.antt =====
-- `loss_stat` (socks5udpf/src/loss_stat.cpp, loss_stat.h). Times are in milliseconds, and the rate is in
-- hundredths of a percent. The assertions are not part of the model.
use udpfec.Base.{
  ℕ, zero, suc, ◌+◌, ◌-◌, ◌*◌, ◌/◌, ◌%◌, List, Bool, true, false, ◌&&◌, ltb, leb, ◌==◌,
  if◌then◌else◌, replicate,
}
use udpfec.SlideWin.Buffer.{get_buf_bit, set_buf_bit, clr_buf_bit}

abbrev pub k_pkg_num_pps_max : ℕ
k_pkg_num_pps_max = 2048

abbrev pub k_pkg_loss_stat_buf_size : ℕ
k_pkg_loss_stat_buf_size = 256

abbrev pub k_pkg_loss_stat_period : ℕ
k_pkg_loss_stat_period = 2000

pub record LossStat : Type 0 where
  pub pkg_loss_rate : ℕ
  pub pkg_loss_stat_buf : List ℕ
  pub pos_idx_min : ℕ
  pub pos_idx_mid : ℕ
  pub pos_idx_max : ℕ
  pub period_pkg_sn_min : ℕ
  pub period_pkg_sn_mid : ℕ
  pub period_pkg_sn_max : ℕ
  pub first_pkg : Bool
  pub period_no_pkg : Bool
  pub pos_idx_mid_time_ms : ℕ
  pub calc_loss_rate_time_ms : ℕ

-- The time of the clock is an argument.
unfoldable pub reset : ℕ → LossStat
reset now_ms = record {
  pkg_loss_rate = 0;
  pkg_loss_stat_buf = replicate 256 0;
  pos_idx_min = 0;
  pos_idx_mid = 0;
  pos_idx_max = 0;
  period_pkg_sn_min = 0;
  period_pkg_sn_mid = 0;
  period_pkg_sn_max = 0;
  first_pkg = true;
  period_no_pkg = true;
  pos_idx_mid_time_ms = now_ms + k_pkg_loss_stat_period / 4 + k_pkg_loss_stat_period / 2;
  calc_loss_rate_time_ms = now_ms + k_pkg_loss_stat_period;
}

-- `pkg_loss_count` and `pkg_total`, with the buffer that the loops clear.
pub record Counts : Type 0 where
  pub buf : List ℕ
  pub pkg_loss_count : ℕ
  pub pkg_total : ℕ

-- The rounds of a loop from position `i` on.
unfoldable pub count_range : ℕ → ℕ → Counts → Counts
count_range zero i c = c
count_range (suc rounds) i c =
    let received = get_buf_bit c.buf k_pkg_loss_stat_buf_size i in
    count_range rounds (i + 1) (record {
      buf = if received then clr_buf_bit c.buf k_pkg_loss_stat_buf_size i else c.buf;
      pkg_loss_count = if received then c.pkg_loss_count else (c.pkg_loss_count + 1) % 65536;
      pkg_total = (c.pkg_total + 1) % 65536;
    })

-- From `first` up to `last`, around the end of the buffer.
unfoldable pub count_period : List ℕ → ℕ → ℕ → Counts
unfolding count_range
count_period buf first last =
    let none_yet : Counts = record { buf = buf; pkg_loss_count = 0; pkg_total = 0 } in
    if leb first last
    then count_range (last - first) first none_yet
    else count_range last 0 (count_range (k_pkg_num_pps_max - first) first none_yet)

unfoldable pub calc_pkg_loss_rate : LossStat → ℕ → LossStat
unfolding count_period
calc_pkg_loss_rate s cur_ms =
    let slow = s.pos_idx_mid == s.pos_idx_min in
    let pos_mid = if slow then s.pos_idx_max else s.pos_idx_mid in
    let sn_mid = if slow then s.period_pkg_sn_max else s.period_pkg_sn_mid in
    let counts = count_period s.pkg_loss_stat_buf s.pos_idx_min pos_mid in
    record s {
      pkg_loss_rate =
          if counts.pkg_total == 0 then 0 else counts.pkg_loss_count * 10000 / counts.pkg_total;
      pkg_loss_stat_buf = counts.buf;
      pos_idx_min = pos_mid;
      pos_idx_mid = pos_mid;
      period_pkg_sn_min = sn_mid;
      period_pkg_sn_mid = sn_mid;
      period_no_pkg = true;
      pos_idx_mid_time_ms = cur_ms + k_pkg_loss_stat_period / 4 + k_pkg_loss_stat_period / 2;
      calc_loss_rate_time_ms = cur_ms + k_pkg_loss_stat_period;
    }

unfoldable pub first_packet : LossStat → ℕ → LossStat
first_packet s pkg_sn = record s {
  first_pkg = false;
  period_no_pkg = false;
  period_pkg_sn_min = pkg_sn;
  period_pkg_sn_mid = pkg_sn;
  period_pkg_sn_max = pkg_sn;
  pkg_loss_stat_buf = set_buf_bit s.pkg_loss_stat_buf k_pkg_loss_stat_buf_size s.pos_idx_min;
}

-- The distance to the first number of the period, modulo 2 ^ 16.
unfoldable pub sn_delta : LossStat → ℕ → ℕ
sn_delta s pkg_sn =
    if ltb pkg_sn s.period_pkg_sn_min
    then (65536 - s.period_pkg_sn_min + pkg_sn) % 65536
    else pkg_sn - s.period_pkg_sn_min

unfoldable pub mark_packet : LossStat → ℕ → ℕ → LossStat
unfolding sn_delta
mark_packet s pkg_sn cur_ms =
    let pos = (sn_delta s pkg_sn + s.pos_idx_min) % 65536 % k_pkg_num_pps_max in
    let newer_mid = ltb cur_ms s.pos_idx_mid_time_ms && ltb s.period_pkg_sn_mid pkg_sn in
    let newer = ltb s.period_pkg_sn_max pkg_sn in
    record s {
      period_no_pkg = false;
      pkg_loss_stat_buf = set_buf_bit s.pkg_loss_stat_buf k_pkg_loss_stat_buf_size pos;
      period_pkg_sn_mid = if newer_mid then pkg_sn else s.period_pkg_sn_mid;
      pos_idx_mid = if newer_mid then pos else s.pos_idx_mid;
      period_pkg_sn_max = if newer then pkg_sn else s.period_pkg_sn_max;
      pos_idx_max = if newer then pos else s.pos_idx_max;
    }

unfoldable pub calc_when_due : LossStat → ℕ → LossStat
unfolding calc_pkg_loss_rate
calc_when_due s cur_ms =
    if ltb cur_ms s.calc_loss_rate_time_ms then s else calc_pkg_loss_rate s cur_ms

-- `now_ms` is what `reset` reads from the clock.
unfoldable pub cache_pkg_sn : LossStat → ℕ → ℕ → ℕ → LossStat
unfolding calc_when_due first_packet mark_packet reset sn_delta
cache_pkg_sn s pkg_sn cur_ms now_ms =
    if s.first_pkg
    then calc_when_due (first_packet s pkg_sn) cur_ms
    else if leb k_pkg_num_pps_max (sn_delta s pkg_sn)
    then reset now_ms
    else calc_when_due (mark_packet s pkg_sn cur_ms) cur_ms

-- The rate that is reported.
unfoldable pub get_pkg_loss_rate : LossStat → ℕ → ℕ
get_pkg_loss_rate s cur_ms =
    let period_no_pkg_count =
      if s.period_no_pkg && leb s.calc_loss_rate_time_ms cur_ms
      then (cur_ms - s.calc_loss_rate_time_ms) % k_pkg_loss_stat_period + 1
      else 0 in
    if ltb 1 period_no_pkg_count
    then 0
    else if ltb 10000 s.pkg_loss_rate
    then 0
    else s.pkg_loss_rate
