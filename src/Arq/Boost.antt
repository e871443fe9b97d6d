-- ===== src/Arq/Boost.antt =====
-- Boost nodes: a second copy of a packet in the list, which `CloneBoostNode` makes; and what
-- happens to a node whose packet is given up (`TranFailedPostHandler`).
use udpfec.Base.{
  ℕ, ◌+◌, ◌-◌, ◌%◌, List, ◌∷◌, Bool, true, false, ◌&&◌, ◌||◌, Option, none, some, ltb,
  if◌then◌else◌, not,
}
use udpfec.Arq.Types.{
  ArqNode, Arq, Env, Call, item_malloced, item_freed, tran_buf_malloced, tran_buf_freed,
  packet_copied, tran_addr_copied, u64_mod, max_boost_times_per_once,
}
use udpfec.Arq.Retransmit.{push_pack, call, pack_retransmit}

-- The state after a node was handled, and the node.
abbrev pub Handled : Type 0
Handled = Arq × ArqNode

-- A reliable packet starts over: sent again, with one more try for its boost node.
unfoldable pub start_over : ArqNode → ArqNode
start_over n = record n {
  retran_counter = 0;
  failed_ack = false;
  boost_node_flg = false;
  try_agin_flg = true;
}

unfoldable pub raise_threshold : ArqNode → ArqNode
raise_threshold n =
    if n.has_boost_node && ltb n.boost_threshold max_boost_times_per_once
    then record n { boost_threshold = n.boost_threshold + 1 }
    else n

module _ (env : Env) where
  -- The boost node for the copy at `pack_mem`, in the pool item `item`.
  unfoldable pub boost_node : List Call → ArqNode → ℕ → ℕ → ℕ → ℕ → ArqNode
  boost_node calls org item pack_mem gtp_addr ts_us =
      let copy = env.packet_at calls pack_mem in
      record {
        address = item;
        last_send_ts_us = (ts_us + u64_mod - 1000000) % u64_mod;
        pack = pack_mem;
        tran_addr = gtp_addr;
        pack_len = copy.pack_size % 65536;
        payload_offset = copy.header_offset;
        retran_counter = 0;
        boost_threshold = org.boost_threshold;
        try_agin_flg = true;
        boost_node_flg = true;
        failed_ack = false;
        has_boost_node = true;
        pack_sn = copy.pack_sn;
        first_pack_sn = org.first_pack_sn;
      }

  -- The second half of `CloneBoostNode`, with the buffer at hand: the pool item, or the buffer
  -- goes back.
  unfoldable pub clone_into : Arq → ArqNode → ℕ → ℕ → ℕ → Option ℕ → Handled
  clone_into a org ts_us pack_mem gtp_addr none = (call a (tran_buf_freed pack_mem), org)
  clone_into a org ts_us pack_mem gtp_addr (some item) =
      let calls =
        tran_addr_copied gtp_addr org.tran_addr
        ∷ packet_copied pack_mem org.pack org.pack_len
        ∷ a.calls in
      (
        push_pack (record a { calls = calls }) (boost_node calls org item pack_mem gtp_addr ts_us),
        record org { has_boost_node = true },
      )

  unfoldable pub clone_with : Arq → ArqNode → ℕ → Option (ℕ × ℕ) → Handled
  clone_with a org ts_us none = (a, org)
  clone_with a org ts_us (some (pack_mem, gtp_addr)) =
      let item = env.malloc_item a.calls in
      clone_into (call a (item_malloced item)) org ts_us pack_mem gtp_addr item

  unfoldable pub clone_boost_node : Arq → ArqNode → ℕ → Handled
  clone_boost_node a org ts_us =
      let got = env.malloc_tran_buf a.calls org.pack_len in
      clone_with (call a (tran_buf_malloced org.pack_len got)) org ts_us got

  -- `kReliableStream` is 1. The node is out of the list when this is called.
  unfoldable pub gives_up : ArqNode → Bool
  gives_up n = ltb env.stream_type 1 || not env.alg_top_switch || n.boost_node_flg || n.try_agin_flg

  unfoldable pub send_again : Arq → ArqNode → ℕ → Arq
  send_again a n cur_ts_us =
      let sent = pack_retransmit env a.calls (start_over n) n.tran_addr cur_ts_us in
      let cloned =
        clone_boost_node (record a { calls = sent.calls }) (raise_threshold sent.node) cur_ts_us in
      push_pack cloned.0 cloned.1

  unfoldable pub tran_failed_post_handler : Arq → ArqNode → ℕ → Arq
  tran_failed_post_handler a n cur_ts_us =
      if gives_up n
      then call (call a (tran_buf_freed n.pack)) (item_freed n.address)
      else send_again a n cur_ts_us
