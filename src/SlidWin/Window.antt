-- ===== src/SlidWin/Window.antt =====
-- `SlidWin` (src/slidwin/slidwin.cpp): the tests whether a number is valid, moves the window, is the newest
-- or is repeated. Log output is left out.
use udpfec.Base.{
  ℕ, ◌+◌, ◌-◌, ◌/◌, ◌%◌, ◌^◌, List, Bool, true, false, not, ◌&&◌, ltb, leb, ◌==◌, if◌then◌else◌,
  get_or,
}
use Prim.Native.Nat.{bit_and}
use udpfec.SlidWin.Stats.{WinStats}

abbrev pub win_buf_size : ℕ
win_buf_size = 8192

abbrev pub win_pos_mask : ℕ
win_pos_mask = 8191

abbrev pub max_win_sz : ℕ
max_win_sz = win_buf_size / 2 + win_buf_size / 4

abbrev pub min_move_step : ℕ
min_move_step = 64

abbrev pub max_move_step : ℕ
max_move_step = max_win_sz / 2

abbrev pub min_win_sz : ℕ
min_win_sz = win_buf_size / 2

-- The members of the window, with those of its statistics in `stats`. Callbacks and the cache of NACK
-- packets, which these operations do not use, are left out.
pub record SlidWin : Type 0 where
  pub is_receive_win : Bool
  pub filter_win_flag : Bool
  pub recv_out_r_counter : ℕ
  pub no_calc_loss_sn_num : ℕ
  pub current_ts_us : ℕ
  pub last_recv_ts_us : ℕ
  pub bit_map_update : Bool
  pub force_calc_num : ℕ
  pub max_rcv_sn_pos : ℕ
  pub sn_ts_ms : List ℕ
  pub stats : WinStats
  pub sn_bit_map : List ℕ
  pub l_border_pos : ℕ
  pub r_border_pos : ℕ
  pub l_border_sn : ℕ
  pub r_border_sn : ℕ
  pub cur_win_size : ℕ
  pub max_sn_pos : ℕ
  pub max_sn : ℕ
  pub max_sn_span : ℕ
  pub expect_next_recv_sn : ℕ

pub data SnState : Type 0 where
  sn_success : SnState
  sn_error : SnState
  sn_out_l : SnState
  sn_out_r : SnState

pub data MoveStep : Type 0 where
  no_move : MoveStep
  must_reset : MoveStep
  move_by : ℕ → MoveStep

pub data RepeatState : Type 0 where
  isnt_receive_win : RepeatState
  is_repeat : RepeatState
  isnt_repeat : RepeatState

-- How far a position lies behind the left border, around the buffer.
unfoldable pub pos_span : SlidWin → ℕ → ℕ
pos_span w pos =
    if leb w.l_border_pos pos then pos - w.l_border_pos else win_buf_size - w.l_border_pos + pos

-- How far a number lies behind the left border; across the turn of the numbers it is one less.
unfoldable pub sn_span : SlidWin → ℕ → ℕ
sn_span w sn =
    if leb w.l_border_sn sn
    then sn - w.l_border_sn
    else (sn + (4294967295 - w.l_border_sn)) % 4294967296

unfoldable pub update_max_sn_pos : SlidWin → ℕ → ℕ → SlidWin × Bool
unfolding pos_span
update_max_sn_pos w current_sn_pos sn =
    let cur_span = pos_span w current_sn_pos in
    let max_span = pos_span w w.max_sn_pos in
    if ltb w.cur_win_size cur_span
    then (w, false)
    else if leb max_span cur_span
    then (
      record w {
        max_sn_pos = current_sn_pos;
        max_sn = sn;
        max_sn_span = max_span;
        expect_next_recv_sn = (sn + 1) % 4294967296;
      },
      true,
    )
    else (w, true)

unfoldable pub is_move_win : SlidWin → ℕ → MoveStep
unfolding pos_span
is_move_win w cur_sn_pos =
    let mid_pos = bit_and (w.l_border_pos + w.cur_win_size / 2) win_pos_mask in
    let mv_step =
      if leb mid_pos cur_sn_pos
      then cur_sn_pos - mid_pos
      else win_buf_size - mid_pos + cur_sn_pos in
    let step = bit_and mv_step 4294967232 + min_move_step in
    if ltb (pos_span w cur_sn_pos) (w.cur_win_size / 2)
    then no_move
    else if ltb max_move_step step
    then must_reset
    else move_by step

unfoldable pub sn_is_valid : SlidWin → ℕ → SnState
unfolding sn_span
sn_is_valid w cur_sn =
    let delta_to_r = if ltb w.r_border_sn cur_sn then cur_sn - w.r_border_sn else 0 in
    let delta_to_l = if ltb cur_sn w.l_border_sn then w.l_border_sn - cur_sn else 0 in
    if not (ltb w.cur_win_size (sn_span w cur_sn))
    then sn_success
    else if leb w.l_border_sn w.r_border_sn
    then if ltb cur_sn w.l_border_sn
      then sn_out_l
      else if ltb w.r_border_sn cur_sn
      then sn_out_r
      else sn_error
    else if not (delta_to_r == 0) && ltb delta_to_r delta_to_l
    then sn_out_r
    else if not (delta_to_l == 0) && ltb delta_to_l delta_to_r
    then sn_out_l
    else sn_error

unfoldable pub check_is_repeat_packet_sn : SlidWin → ℕ → RepeatState
unfolding sn_span
check_is_repeat_packet_sn w cur_sn =
    let cur_sn_pos =
      bit_and
        (if leb w.l_border_sn cur_sn
          then (w.l_border_pos + cur_sn - w.l_border_sn) % 4294967296
          else (w.l_border_pos + cur_sn + 4294967295 - w.l_border_sn + 1) % 4294967296)
        win_pos_mask in
    let bit_map = get_or w.sn_bit_map (cur_sn_pos / 64) 0 in
    if not w.is_receive_win
    then isnt_receive_win
    else if leb w.cur_win_size (sn_span w cur_sn)
    then is_repeat
    else if ltb (sn_span w w.max_sn) (sn_span w cur_sn)
    then isnt_repeat
    else if bit_and bit_map (2 ^ bit_and cur_sn_pos 63) == 0
    then isnt_repeat
    else is_repeat
