-- ===== src/SlidWin/Tmout.antt =====
-- The search for the position up to which packets are overdue: both GetRtoTmoutPos of
-- src/slidwin/slidwin.cpp. They differ in how the delay of a position is computed. Positions are not
-- negative: where the source's end falls to -1, the search ends as it does at 0.
use udpfec.Base.{
  ℕ, zero, suc, ◌+◌, ◌-◌, ◌/◌, ◌%◌, leb, ltb, ◌==◌, if◌then◌else◌, get_or, Option, none, some,
}
use udpfec.SlidWin.Window.{SlidWin, win_pos_mask}

unfoldable pub tmout_search : (ℕ → ℕ) → ℕ → ℕ → ℕ → ℕ → Option ℕ
tmout_search delta rto zero begin_pos end_pos = none
tmout_search delta rto (suc fuel) begin_pos end_pos =
    let mid_pos = (end_pos - begin_pos) / 2 + begin_pos in
    let left = tmout_search delta rto fuel (begin_pos + 1) (mid_pos - 1) in
    let right = tmout_search delta rto fuel (mid_pos + 1) (end_pos - 1) in
    if leb end_pos begin_pos
    then some begin_pos
    else if leb (delta begin_pos) rto
    then some begin_pos
    else if leb rto (delta end_pos)
    then some end_pos
    else if rto == delta mid_pos
    then some mid_pos
    else if ltb rto (delta mid_pos)
    then left
    else right

-- Across the turn of the 16-bit times it is one less.
unfoldable pub calc_delta_ts_ms : ℕ → ℕ → ℕ
calc_delta_ts_ms now_ms old_ms =
    if leb old_ms now_ms then now_ms - old_ms else 65535 - old_ms + now_ms

unfoldable pub get_rto_tmout_pos_by_ts : SlidWin → ℕ → ℕ → ℕ → ℕ → Option ℕ
unfolding tmout_search calc_delta_ts_ms
get_rto_tmout_pos_by_ts w begin_pos end_pos rto_ts_ms cur_ts_ms =
    tmout_search (λ pos. calc_delta_ts_ms cur_ts_ms (get_or w.sn_ts_ms pos 0)) rto_ts_ms
      (end_pos + 1) begin_pos end_pos

-- Across the end of the ring it is one less.
unfoldable pub delta_sn : ℕ → ℕ → ℕ
delta_sn max_sn_pos pos =
    (if leb pos max_sn_pos then max_sn_pos - pos else max_sn_pos + (win_pos_mask - pos)) % 65536

unfoldable pub get_rto_tmout_pos_by_sn : SlidWin → ℕ → ℕ → ℕ → Option ℕ
unfolding tmout_search delta_sn
get_rto_tmout_pos_by_sn w begin_pos end_pos max_sn_pos =
    tmout_search (delta_sn max_sn_pos) w.stats.rto_sn_num (end_pos + 1) begin_pos end_pos
