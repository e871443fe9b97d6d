-- ===== src/Arq/Entry.antt =====
-- The constructor of `GtpArq`, `PacketEntryList`, and the setters and getters.
use udpfec.Base.{
  ℕ, ◌%◌, ◌/◌, List, [], ◌∷◌, ◌++◌, true, false, ◌||◌, Option, none, some, ◌==◌, if◌then◌else◌, not,
}
use udpfec.Arq.Types.{
  ArqNode, Arq, Env, Packet, item_malloced, tran_buf_use_ref_added, default_boost_times,
  init_boost_times, min_rto_us, max_rto_us, min_boost_period_us, max_boost_period_us,
}
use udpfec.Arq.Retransmit.{call, push_pack, gtp_limit}
use udpfec.Arq.Boost.{clone_boost_node}

-- The constructor sets neither `boost_period_us_` nor `r_cur_loss_rate_`: what the memory held,
-- `boost_period_us` and `r_loss`, stays.
unfoldable pub gtp_arq : ℕ → ℕ → ℕ → ℕ → Arq
gtp_arq rto_timeout_us max_retran_times boost_period_us r_loss = record {
  arq_list = [];
  node_num = 0;
  ai_repair_sum = 0;
  rto_timeout_us = rto_timeout_us;
  boost_period_us = boost_period_us;
  s_cur_loss_rate = 0;
  r_cur_loss_rate = r_loss;
  ack_err_counter = 0;
  s_loss_dir = 0;
  r_loss_dir = 0;
  boost_switch = true;
  max_retran_times = max_retran_times % 256;
  max_boost_times = init_boost_times;
  rto_resend_counter = 0;
  ack_resend_counter = 0;
  calls = [];
}

pub data Status : Type 0 where
  gtp_ok crt_arq_node_failed : Status

module _ (env : Env) where
  unfoldable pub entry_node : Arq → ℕ → Packet → ℕ → ℕ → ArqNode
  entry_node a item pack first_pack_sn ts_us = record {
    address = item;
    last_send_ts_us = ts_us;
    pack = pack.address;
    tran_addr = env.session_tran_addr;
    pack_len = pack.pack_size % 65536;
    payload_offset = pack.header_offset;
    retran_counter = pack.repeat_counter;
    boost_threshold = if a.max_boost_times == 0 then default_boost_times else a.max_boost_times;
    try_agin_flg = false;
    boost_node_flg = false;
    failed_ack = false;
    has_boost_node = false;
    pack_sn = pack.pack_sn;
    first_pack_sn = first_pack_sn;
  }

  -- The node is in the list when `CloneBoostNode` runs, which marks it there: the boost node goes
  -- behind it.
  unfoldable pub clone_last : List ArqNode → Arq → ArqNode → ℕ → Arq
  unfolding clone_boost_node
  clone_last before a n ts_us =
      let (a', n') = clone_boost_node env (record a { arq_list = [] }) n ts_us in
      record a' { arq_list = before ++ (n' ∷ a'.arq_list) }

  unfoldable pub entry_with : Arq → Option ℕ → Packet → ℕ → ℕ → Status × Arq
  unfolding entry_node push_pack clone_last
  entry_with a none pack first_pack_sn ts_us = (crt_arq_node_failed, a)
  entry_with a (some item) pack first_pack_sn ts_us =
      let n = entry_node a item pack first_pack_sn ts_us in
      let pushed = call (push_pack a n) (tran_buf_use_ref_added pack.address) in
      if not a.boost_switch || a.max_boost_times == 0
      then (gtp_ok, pushed)
      else (gtp_ok, clone_last a.arq_list pushed n ts_us)

  unfoldable pub packet_entry_list : Arq → Packet → ℕ → ℕ → Status × Arq
  unfolding entry_with
  packet_entry_list a pack first_pack_sn ts_us =
      let item = env.malloc_item a.calls in
      entry_with (call a (item_malloced item)) item pack first_pack_sn ts_us

unfoldable pub adjust_s_win_current_loss_rate : Arq → ℕ → ℕ → Arq
adjust_s_win_current_loss_rate a loss dir = record a {
  s_cur_loss_rate = loss;
  s_loss_dir = dir % 256 % 2;
}

unfoldable pub adjust_r_win_current_loss_rate : Arq → ℕ → ℕ → Arq
adjust_r_win_current_loss_rate a loss dir = record a {
  r_cur_loss_rate = loss;
  r_loss_dir = dir % 256 % 2;
}

unfoldable pub adjust_retran_times : Arq → ℕ → Arq
adjust_retran_times a max_retran_times = record a { max_retran_times = max_retran_times % 256 }

unfoldable pub adjust_rto_timeout : Arq → ℕ → ℕ → Arq
unfolding gtp_limit
adjust_rto_timeout a rto_timeout_us rtt_us = record a {
  boost_period_us = gtp_limit min_boost_period_us max_boost_period_us (rtt_us / 64);
  rto_timeout_us = gtp_limit min_rto_us max_rto_us rto_timeout_us;
}

-- The four counters, in the order of the out parameters.
unfoldable pub get_stat : Arq → ℕ × ℕ × ℕ × ℕ
get_stat a = (a.ack_resend_counter, a.rto_resend_counter, a.ack_err_counter, a.ai_repair_sum)
