-- ===== src/Arq/Timer.antt =====
-- `CheckRtoRetran`, the pass over the list that the timer starts.
use udpfec.Base.{
  ℕ, zero, suc, ◌+◌, ◌-◌, ◌*◌, ◌%◌, List, [], ◌∷◌, ◌++◌, true, false, Option, none, some, ltb,
  if◌then◌else◌, length,
}
use mathlib.Core.Option
use udpfec.Arq.Types.{
  ArqNode, Arq, Env, Call, item_freed, tran_buf_freed, loss_written, timestamp_written, u32_mod,
  u64_mod,
}
use udpfec.Arq.Retransmit.{
  HarqReTranType, not_retran, rto_retran, boost_retran, call, count_down, push_pack,
  judge_is_tran_failed, judge_can_rto_re_send, pack_retransmit,
}
use udpfec.Arq.Boost.{tran_failed_post_handler}

-- `ClearArqList` and `PopAllPack`: each node's packet and item go back, in the order of the list.
unfoldable pub free_all : List ArqNode → List Call → List Call
free_all [] calls = calls
free_all (n ∷ r) calls = free_all r (item_freed n.address ∷ tran_buf_freed n.pack ∷ calls)

-- An empty list is left alone, with its count.
unfoldable pub drop_all : List ArqNode → Arq → Arq
drop_all [] a = a
drop_all (n ∷ r) a = record a { arq_list = []; node_num = 0; calls = free_all (n ∷ r) a.calls }

unfoldable pub clear_arq_list : Arq → Arq
clear_arq_list a = drop_all a.arq_list a

unfoldable pub pop_all_pack : Arq → Arq
pop_all_pack a = drop_all a.arq_list a

-- What the pass compares time stamps with.
pub record Deadlines : Type 0 where
  pub cur_ts_us : ℕ
  pub rto_ts_us : ℕ
  pub bst_ts_us : ℕ

unfoldable pub deadlines : Arq → ℕ → Deadlines
deadlines a cur_ts_us = record {
  cur_ts_us = cur_ts_us;
  rto_ts_us = (cur_ts_us + u64_mod - a.rto_timeout_us) % u64_mod;
  bst_ts_us = (cur_ts_us + u64_mod - a.boost_period_us) % u64_mod;
}

unfoldable pub count_resend : HarqReTranType → Arq → Arq
count_resend boost_retran a = record a { ai_repair_sum = (a.ai_repair_sum + 1) % u32_mod }
count_resend rto_retran a = record a { rto_resend_counter = (a.rto_resend_counter + 1) % u32_mod }
count_resend not_retran a = a

-- The pass in the middle: `arq.arq_list` is what stands before `cur_head`, and `rest` the list
-- from `cur_head` on. A node that is pushed goes behind `rest`.
pub record Pass : Type 0 where
  pub arq : Arq
  pub rest : List ArqNode

-- `PushPack` in an operation on a list `r` is to its tail; with `r` empty the pass is over, and the
-- pushed nodes stand at the end of what was passed.
unfoldable pub rejoin : List ArqNode → Arq → List ArqNode → Pass
rejoin before a [] = record { arq = record a { arq_list = before ++ a.arq_list }; rest = [] }
rejoin before a (m ∷ r) = record {
  arq = record a { arq_list = before };
  rest = (m ∷ r) ++ a.arq_list;
}

-- The list when the loop has ended.
unfoldable pub rejoin_all : Pass → Arq
rejoin_all p = record (p.arq) { arq_list = p.arq.arq_list ++ p.rest }

module _ (env : Env) where
  -- The branch of a packet that is given up: marks its address, takes the node out of the list.
  unfoldable pub give_up : Arq → Deadlines → ArqNode → Arq
  give_up a d n =
      let marked =
        call (call a (loss_written n.tran_addr (env.f32_to_u8 a.s_cur_loss_rate)))
          (timestamp_written n.tran_addr d.cur_ts_us) in
      let popped = record marked {
        ack_err_counter = (a.ack_err_counter + 1) % u32_mod;
        node_num = count_down a.node_num;
      } in
      tran_failed_post_handler env popped n d.cur_ts_us

  -- The branch of a packet that is sent again, at type `t`.
  unfoldable pub timer_resend : HarqReTranType → Arq → Deadlines → ArqNode → Arq
  timer_resend t a d n =
      let sent = pack_retransmit env a.calls n n.tran_addr d.cur_ts_us in
      let a' = record a { node_num = count_down a.node_num; calls = sent.calls } in
      push_pack (count_resend t a') sent.node

  -- One round at the node `n`, with `r` behind it.
  unfoldable pub timer_step : Arq → Deadlines → ArqNode → List ArqNode → Pass
  timer_step a d n r =
      let alone = record a { arq_list = [] } in
      let t = judge_can_rto_re_send a n d.rto_ts_us d.bst_ts_us in
      if judge_is_tran_failed a n d.rto_ts_us
      then rejoin a.arq_list (give_up alone d n) r
      else elim t [
        | not_retran ↦ record { arq = record a { arq_list = a.arq_list ++ (n ∷ []) }; rest = r }
        | rto_retran ↦ rejoin a.arq_list (timer_resend rto_retran alone d n) r
        | boost_retran ↦ rejoin a.arq_list (timer_resend boost_retran alone d n) r
      ]

  -- The loop, on fuel: it ends at the first node that is not older than `cur_ts_us`.
  unfoldable pub timer_walk : ℕ → Deadlines → Arq → List ArqNode → Option Pass
  timer_walk fuel d a [] = some (record { arq = a; rest = [] })
  timer_walk zero d a (n ∷ r) = none
  timer_walk (suc fuel) d a (n ∷ r) = elim (ltb n.last_send_ts_us d.cur_ts_us) [
    | false ↦ some (record { arq = a; rest = n ∷ r })
    | true ↦ let p = timer_step a d n r in timer_walk fuel d p.arq p.rest
  ]

  unfoldable pub check_rto_retran : Arq → ℕ → Option Arq
  check_rto_retran a cur_ts_us =
      let d = deadlines a cur_ts_us in
      let done =
        timer_walk (suc (2 * length a.arq_list)) d (record a { arq_list = [] }) a.arq_list in
      if env.alg_top_switch then Option.map rejoin_all done else some (clear_arq_list a)
