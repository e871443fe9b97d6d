-- ===== src/Arq/Types.antt =====
-- The data of src/arq: `ArqNode` and `ArqList` (src/utils/goodtp_comstruct.h), the members of
-- `GtpArq` (src/arq/goodtp_arq.h), and what the class asks of the rest of the program.
use udpfec.Base.{ℕ, Bool, List, Option}

-- src/utils/goodtp_macrodefine.h, for the APPLICATION_TYPE 2 that the file selects.
abbrev pub slid_win_size : ℕ
slid_win_size = 2048

abbrev pub default_boost_times : ℕ
default_boost_times = 3

abbrev pub init_boost_times : ℕ
init_boost_times = 1

abbrev pub max_rsv_win_size : ℕ
max_rsv_win_size = 640

abbrev pub max_boost_times_per_once : ℕ
max_boost_times_per_once = 7

abbrev pub free_c3buf_num_per : ℕ
free_c3buf_num_per = 512

abbrev pub min_rto_us : ℕ
min_rto_us = 25000

abbrev pub max_rto_us : ℕ
max_rto_us = 500000

abbrev pub min_boost_period_us : ℕ
min_boost_period_us = 1000

abbrev pub max_boost_period_us : ℕ
max_boost_period_us = 10000

abbrev pub u32_mod : ℕ
u32_mod = 4294967296

abbrev pub u64_mod : ℕ
u64_mod = 18446744073709551616

abbrev pub u32_max : ℕ
u32_max = 4294967295

-- What the class reads of a packet's header; `address` is where the packet stands.
pub record Packet : Type 0 where
  pub address : ℕ
  pub pack_sn : ℕ
  pub pack_size : ℕ
  pub header_offset : ℕ
  pub repeat_counter : ℕ
  pub has_check_flag : Bool

-- An `ArqNode`; `address` is the pool item that it stands in. The two link pointers are the
-- order of the list.
pub record ArqNode : Type 0 where
  pub address : ℕ
  pub last_send_ts_us : ℕ
  pub pack : ℕ
  pub tran_addr : ℕ
  pub pack_len : ℕ
  pub payload_offset : ℕ
  pub retran_counter : ℕ
  pub boost_threshold : ℕ
  pub try_agin_flg : Bool
  pub boost_node_flg : Bool
  pub failed_ack : Bool
  pub has_boost_node : Bool
  pub pack_sn : ℕ
  pub first_pack_sn : ℕ

-- The arguments of `GtpSession::FramePrepHandler` in `PackRetransmit`, and what it hands back.
pub record PrepCall : Type 0 where
  pub frame : ℕ
  pub frame_size : ℕ
  pub hash : ℕ
  pub user_id : ℕ
  pub first_pack_sn : ℕ
  pub resend_num : ℕ

pub record Prepared : Type 0 where
  pub ret : ℕ
  pub retran_pack : Packet
  pub pack_size : ℕ

-- The calls that the class makes on the pools, the clock and the session, with their results.
pub data Call : Type 0 where
  item_malloced : Option ℕ → Call
  item_freed : ℕ → Call
  tran_buf_malloced : ℕ → Option (ℕ × ℕ) → Call
  tran_buf_freed : ℕ → Call
  tran_bufs_freed : List ℕ → Call
  tran_buf_use_ref_added : ℕ → Call
  packet_copied : ℕ → ℕ → ℕ → Call
  tran_addr_copied : ℕ → ℕ → Call
  loss_written : ℕ → ℕ → Call
  timestamp_written : ℕ → ℕ → Call
  last_active_written : ℕ → Call
  frame_prepared : PrepCall → Prepared → Call
  pack_sent : Packet → ℕ → ℕ → Call
  frame_posted : Packet → ℕ → ℕ → ℕ → Call

-- The rest of the program: each answer is a function of the calls made so far, the newest first.
pub record Env : Type 0 where
  pub malloc_item : List Call → Option ℕ
  pub malloc_tran_buf : List Call → ℕ → Option (ℕ × ℕ)
  pub packet_at : List Call → ℕ → Packet
  pub hash_at : List Call → ℕ → ℕ
  pub sys_timestamp_us : List Call → ℕ
  pub frame_prep_handler : List Call → PrepCall → Prepared
  pub frame_post_handler : List Call → ℕ
  pub f32_to_u8 : ℕ → ℕ
  pub session_tran_addr : ℕ
  pub stream_type : ℕ
  pub alg_top_switch : Bool

-- The members of `GtpArq`. A float is its bit pattern.
pub record Arq : Type 0 where
  pub arq_list : List ArqNode
  pub node_num : ℕ
  pub ai_repair_sum : ℕ
  pub rto_timeout_us : ℕ
  pub boost_period_us : ℕ
  pub s_cur_loss_rate : ℕ
  pub r_cur_loss_rate : ℕ
  pub ack_err_counter : ℕ
  pub s_loss_dir : ℕ
  pub r_loss_dir : ℕ
  pub boost_switch : Bool
  pub max_retran_times : ℕ
  pub max_boost_times : ℕ
  pub rto_resend_counter : ℕ
  pub ack_resend_counter : ℕ
  pub calls : List Call
