-- ===== src/Arq/Tests.antt =====
-- Runs of the model of src/arq at concrete inputs, and the theorems about it at such inputs.
use udpfec.Base.{ℕ, ◌+◌, ◌≡◌, refl, [], ◌∷◌, true, false, some, arith, length}
use mathlib.Core.Option
use udpfec.Base.Bits.{word}
use udpfec.Arq.Types.{ArqNode, Arq, Env, Packet}
use udpfec.Arq.Retransmit.{count_down}
use udpfec.Arq.Feedback.{
  proc_ack, proc_nack, proc_arq_in_32_bit_sys, proc_arq_in_64_bit_sys, feedback, feedback_from,
  walk, visit, finish, free_cached, start, rounds, resends_left, release_node, requeue,
  cache_first_sn, del_node_by_first_sn, del_loop, del_one, judge_is_exist, exist_loop, ack_verdict,
  sn_span, lost_in_64,
}
use udpfec.Arq.Timer.{check_rto_retran}
use udpfec.Arq.Entry.{gtp_arq}
use udpfec.Arq.TimerEnd.{check_rto_retran_total}
use udpfec.Arq.Termination.{feedback_total}
use udpfec.Arq.Words.{proc_arq_same, lost_in_bytes}
use udpfec.Arq.Lookup.{contains, without, judge_is_exist-contains}
use udpfec.Arq.Acked.{proc_ack_list, proc_nack_clears, acked_sns, lost_nodes, ack_confuses_wrap}
use udpfec.Arq.Release.{EndsWith}
use udpfec.Arq.History.{enter, ack, tick, run, run-gtp_arq-IsBalanced, IsBalanced}

abbrev packet : ℕ → Packet
packet sn = record {
  address = 1000 + sn;
  pack_sn = sn;
  pack_size = 100;
  header_offset = 20;
  repeat_counter = 0;
  has_check_flag = false;
}

-- A session that numbers its packets by the calls made, and pools that never run dry.
abbrev session : Env
session = record {
  malloc_item = λ calls. some (length calls);
  malloc_tran_buf = λ calls len. some (5000 + length calls, 6000);
  packet_at = λ calls address. packet 7;
  hash_at = λ calls address. 0;
  sys_timestamp_us = λ calls. 2000000;
  frame_prep_handler =
      λ calls args. record { ret = 0; retran_pack = packet (100 + length calls); pack_size = 100 };
  frame_post_handler = λ calls. 0;
  f32_to_u8 = λ f. 0;
  session_tran_addr = 77;
  stream_type = 0;
  alg_top_switch = true;
}

abbrev node : ℕ → ArqNode
node sn = record {
  address = 10 + sn;
  last_send_ts_us = 1000000;
  pack = 1000 + sn;
  tran_addr = 77;
  pack_len = 100;
  payload_offset = 20;
  retran_counter = 0;
  boost_threshold = 1;
  try_agin_flg = false;
  boost_node_flg = false;
  failed_ack = false;
  has_boost_node = false;
  pack_sn = sn;
  first_pack_sn = sn;
}

fresh : Arq
fresh = gtp_arq 100000 3 10000 0

-- Packets 5, 6, 7 and 8 are out.
abbrev four_out : Arq
four_out = record {
  arq_list = node 5 ∷ node 6 ∷ node 7 ∷ node 8 ∷ [];
  node_num = 4;
  ai_repair_sum = 0;
  rto_timeout_us = 100000;
  boost_period_us = 10000;
  s_cur_loss_rate = 0;
  r_cur_loss_rate = 0;
  ack_err_counter = 0;
  s_loss_dir = 0;
  r_loss_dir = 0;
  boost_switch = true;
  max_retran_times = 3;
  max_boost_times = 1;
  rto_resend_counter = 0;
  ack_resend_counter = 0;
  calls = [];
}

-- An ACK of 5 and 7 from head 5, with nothing overdue, leaves 6 and 8.
ack_leaves :
    Option.map (λ (a : Arq). a.arq_list) (proc_ack session 8 four_out (5 ∷ []) 5 8 5)
    ≡ some (node 6 ∷ node 8 ∷ [])
unfolding proc_ack proc_arq_in_64_bit_sys feedback feedback_from walk visit finish free_cached start
    rounds resends_left release_node requeue cache_first_sn del_node_by_first_sn del_loop del_one
    judge_is_exist exist_loop ack_verdict sn_span lost_in_64 word count_down
ack_leaves = refl

run-gtp_arq-IsBalanced_example :
    (a : Arq) × (run session
        (enter (packet 5) 5 9 ∷ tick 3000000 ∷ ack 8 (1 ∷ []) 5 9 9 ∷ [])
        (gtp_arq 100000 3 10000 0)
      ≡ some a)
    × IsBalanced a
run-gtp_arq-IsBalanced_example =
    run-gtp_arq-IsBalanced session (enter (packet 5) 5 9 ∷ tick 3000000 ∷ ack 8 (1 ∷ []) 5 9 9 ∷ [])
      100000 3 10000 0

check_rto_retran_total_example : (a : Arq) × (check_rto_retran session four_out 3000000 ≡ some a)
check_rto_retran_total_example = check_rto_retran_total session four_out 3000000

feedback_total_example :
    (a : Arq) × (feedback session (ack_verdict (lost_in_64 (5 ∷ [])) 5 8 8) four_out ≡ some a)
feedback_total_example = feedback_total session (ack_verdict (lost_in_64 (5 ∷ [])) 5 8 8) four_out

proc_arq_same_example :
    (proc_arq_in_32_bit_sys session four_out (5 ∷ []) 5 8 8
      ≡ proc_arq_in_64_bit_sys session four_out (5 ∷ []) 5 8 8)
    × (proc_arq_in_64_bit_sys session four_out (5 ∷ []) 5 8 8
        ≡ feedback session (ack_verdict (lost_in_bytes (5 ∷ [])) 5 8 8) four_out)
proc_arq_same_example = proc_arq_same session four_out (5 ∷ []) 5 8 8

proc_ack_list_example : EndsWith (node 6 ∷ node 8 ∷ []) (proc_ack session 8 four_out (5 ∷ []) 5 8 5)
unfolding acked_sns lost_nodes without contains sn_span lost_in_bytes
proc_ack_list_example =
    proc_ack_list session 8 four_out (5 ∷ []) 5 8 5
      (
        omega arith,
        (λ e. cc),
        (
          omega arith,
          (λ e. omega arith),
          (omega arith, (λ e. cc), (omega arith, (λ e. omega arith), tt)),
        ),
      )
      (omega arith)

proc_nack_clears_example : EndsWith [] (proc_nack session four_out [] 5 8)
unfolding sn_span
proc_nack_clears_example = proc_nack_clears session four_out 5 8 (omega arith) (omega arith)

judge_is_exist-contains_example : judge_is_exist 7 (5 ∷ 6 ∷ 7 ∷ []) ≡ contains 7 (5 ∷ 6 ∷ 7 ∷ [])
judge_is_exist-contains_example = judge_is_exist-contains 7 (5 ∷ 6 ∷ 7 ∷ [])

ack_confuses_wrap_example :
    ack_verdict (lost_in_64 (255 ∷ [])) 4294967290 2 2 (node 0)
    ≡ ack_verdict (lost_in_64 (255 ∷ [])) 4294967290 2 2 (node 4294967295)
ack_confuses_wrap_example =
    ack_confuses_wrap (lost_in_64 (255 ∷ [])) 4294967290 2 2 (node 0) (node 4294967295)
      (omega arith) (omega arith) refl refl
