-- ===== src/Arq/Retransmit.antt =====
-- The parts that every pass over the list shares: the judgements about a node, sending it again
-- (`GtpSession::PackRetransmit`), and boost nodes. `false` is GTP_NO and GTP_OFF.
use udpfec.Base.{
  ℕ, ◌+◌, ◌-◌, ◌%◌, List, [], ◌∷◌, ◌++◌, Bool, true, false, ◌&&◌, ltb, leb, ◌==◌, if◌then◌else◌,
}
use udpfec.Arq.Types.{
  ArqNode, Arq, Env, PrepCall, Call, timestamp_written, last_active_written, frame_prepared,
  pack_sent, frame_posted, u32_mod,
}

-- `(list).node_num_ -= 1` under the guard of `PopArqNode`.
unfoldable pub count_down : ℕ → ℕ
count_down n = if ltb 0 n then n - 1 else n

-- `(list).node_num_ += 1`
unfoldable pub count_up : ℕ → ℕ
count_up n = (n + 1) % u32_mod

-- `PushPack`: to the tail.
unfoldable pub push_pack : Arq → ArqNode → Arq
unfolding count_up
push_pack a n = record a { arq_list = a.arq_list ++ (n ∷ []); node_num = count_up a.node_num }

abbrev pub call : Arq → Call → Arq
call a c = record a { calls = c ∷ a.calls }

-- `max_resend_std` is a byte.
unfoldable pub judge_exhaut_resend_num : Arq → ArqNode → Bool
judge_exhaut_resend_num a n =
    let max_resend_std =
      (if n.boost_node_flg then n.boost_threshold else a.max_retran_times) % 256 in
    leb max_resend_std n.retran_counter

unfoldable pub judge_is_tran_failed : Arq → ArqNode → ℕ → Bool
unfolding judge_exhaut_resend_num
judge_is_tran_failed a n rto_ts_us =
    if n.failed_ack
    then true
    else if judge_exhaut_resend_num a n && leb n.last_send_ts_us rto_ts_us
    then true
    else false

pub data HarqReTranType : Type 0 where
  not_retran rto_retran boost_retran : HarqReTranType

unfoldable pub judge_can_rto_re_send : Arq → ArqNode → ℕ → ℕ → HarqReTranType
judge_can_rto_re_send a n rto_ts_us bst_rto_ts_us =
    if n.boost_node_flg
    then if ltb n.retran_counter n.boost_threshold && leb n.last_send_ts_us bst_rto_ts_us
      then boost_retran
      else not_retran
    else if ltb n.retran_counter a.max_retran_times && leb n.last_send_ts_us rto_ts_us
    then rto_retran
    else not_retran

-- `GtpLimit(min, max, value)`
unfoldable pub gtp_limit : ℕ → ℕ → ℕ → ℕ
gtp_limit lo hi v = if ltb v lo then lo else if ltb hi v then hi else v

-- What `PackRetransmit` leaves: its status, the node, and the calls.
pub record Retransmitted : Type 0 where
  pub ret : ℕ
  pub node : ArqNode
  pub calls : List Call

module _ (env : Env) where
  -- The time stamp of the resend: the caller's, or the clock's where the caller passes 0.
  unfoldable pub resend_ts : List Call → ℕ → ℕ
  resend_ts calls cur_ts_us = if cur_ts_us == 0 then env.sys_timestamp_us calls else cur_ts_us

  -- The arguments of `FramePrepHandler`: sizeof(GtpPacket) is 10, a first sn in the header moves
  -- the hash and the user id by 4 bytes. `node` has its counter raised already.
  unfoldable pub prep_call : List Call → ArqNode → PrepCall
  unfolding gtp_limit
  prep_call calls node =
      let org = env.packet_at calls node.pack in
      let move_pos = if ltb 0 org.repeat_counter then 14 else 10 in
      let hash = if org.has_check_flag then env.hash_at calls (node.pack + move_pos) else 0 in
      let user_id =
        if org.has_check_flag then env.hash_at calls (node.pack + move_pos + 4) else 0 in
      record {
        frame = node.pack + node.payload_offset;
        frame_size = (node.pack_len + u32_mod - node.payload_offset) % u32_mod;
        hash = hash;
        user_id = user_id;
        first_pack_sn = node.first_pack_sn;
        resend_num = gtp_limit 1 7 node.retran_counter;
      }

  unfoldable pub pack_retransmit : List Call → ArqNode → ℕ → ℕ → Retransmitted
  unfolding resend_ts prep_call
  pack_retransmit calls n tran_addr cur_ts_us =
      let ts = resend_ts calls cur_ts_us in
      let calls1 = last_active_written ts ∷ timestamp_written tran_addr ts ∷ calls in
      let n1 = record n { last_send_ts_us = ts; retran_counter = (n.retran_counter + 1) % 256 } in
      let args = prep_call calls1 n1 in
      let out = env.frame_prep_handler calls1 args in
      let calls2 = frame_prepared args out ∷ calls1 in
      let pack = out.retran_pack in
      let n2 = record n1 {
        pack = pack.address;
        tran_addr = tran_addr;
        pack_len = out.pack_size % 65536;
        payload_offset = pack.header_offset;
        pack_sn = pack.pack_sn;
      } in
      let calls3 = pack_sent pack out.pack_size tran_addr ∷ calls2 in
      let calls4 =
        frame_posted pack out.pack_size ((out.pack_size + u32_mod - pack.header_offset) % u32_mod)
          n.first_pack_sn
        ∷ calls3 in
      if out.ret == 0
      then record { ret = env.frame_post_handler calls3; node = n2; calls = calls4 }
      else record { ret = out.ret; node = n1; calls = calls2 }
