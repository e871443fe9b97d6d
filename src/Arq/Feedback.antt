-- ===== src/Arq/Feedback.antt =====
-- ACK and NACK: the four passes over the list that a feedback packet starts. They walk the list
-- from `cur_node`, and differ in what they decide about a node. `cur_node` is the head of `rest`;
-- what the walk has left behind is `passed`. A node that is sent again goes to the tail, where the
-- walk meets it again unless it was the last.
use udpfec.Base.{
  ℕ, zero, suc, ◌+◌, ◌-◌, ◌*◌, ◌/◌, ◌%◌, ◌^◌, List, [], ◌∷◌, ◌++◌, Bool, true, false, ◌||◌, Option,
  none, some, ltb, leb, ◌==◌, if◌then◌else◌, length, get_or, drop,
}
use udpfec.Base.Bits.{word}
use Prim.Native.Nat.{bit_and}
use mathlib.Core.Option
use udpfec.Arq.Types.{
  ArqNode, Arq, Env, item_freed, tran_buf_freed, tran_bufs_freed, u32_mod, u32_max, slid_win_size,
  max_rsv_win_size, free_c3buf_num_per,
}
use udpfec.Arq.Retransmit.{call, count_down, judge_exhaut_resend_num, pack_retransmit}

-- The distance of two sequence numbers as the passes compute it.
unfoldable pub sn_span : ℕ → ℕ → ℕ
sn_span head_sn sn = if leb head_sn sn then sn - head_sn else (sn + (u32_max - head_sn)) % u32_mod

pub data Verdict : Type 0 where
  stop : Verdict
  keep : Verdict
  quick_resend : Verdict
  release : Verdict

-- `0 == (ack_bitmap[span >> 5] & (0x01 << (span & 0x1F)))` on a `u32` view of the bytes.
unfoldable pub lost_in_32 : List ℕ → ℕ → Bool
unfolding word
lost_in_32 bitmap span = bit_and (word 4 (drop (4 * (span / 32)) bitmap)) (2 ^ (span % 32)) == 0

-- The same test on a `u64` view.
unfoldable pub lost_in_64 : List ℕ → ℕ → Bool
unfolding word
lost_in_64 bitmap span = bit_and (word 8 (drop (8 * (span / 64)) bitmap)) (2 ^ (span % 64)) == 0

-- What an ACK decides about a node, given the test of its bit.
unfoldable pub ack_verdict : (ℕ → Bool) → ℕ → ℕ → ℕ → ArqNode → Verdict
unfolding sn_span
ack_verdict lost head_sn tail_sn rto_sn n =
    let span = sn_span head_sn n.pack_sn in
    if ltb (sn_span head_sn tail_sn) span
    then (if leb span slid_win_size then stop else quick_resend)
    else if lost span
    then (if leb span (sn_span head_sn rto_sn) then quick_resend else keep)
    else release

-- What a NACK without losses decides; its `tail_sn` is the caller's `rto_sn`.
unfoldable pub no_loss_verdict : ℕ → ℕ → ArqNode → Verdict
unfolding sn_span
no_loss_verdict head_sn tail_sn n =
    let span = sn_span head_sn n.pack_sn in
    if ltb (sn_span head_sn tail_sn) span
    then (if leb span slid_win_size then stop else quick_resend)
    else release

unfoldable pub check_cur_sn_is_discard : ℕ → List ℕ → ℕ → Bool
check_cur_sn_is_discard head_sn [] cur_sn = false
check_cur_sn_is_discard head_sn (off ∷ offs) cur_sn =
    if cur_sn == (head_sn + off) % u32_mod
    then true
    else check_cur_sn_is_discard head_sn offs cur_sn

unfoldable pub has_loss_verdict : List ℕ → ℕ → ℕ → ArqNode → Verdict
has_loss_verdict nack_sn_offset head_sn rto_sn n =
    let span = sn_span head_sn n.pack_sn in
    let rto_span = sn_span head_sn rto_sn in
    if ltb rto_span span
    then (if leb span slid_win_size then stop else quick_resend)
    else if check_cur_sn_is_discard head_sn nack_sn_offset n.pack_sn
    then (if leb span rto_span then quick_resend else keep)
    else release

-- The walk's variables. The list itself is `passed ++ rest`.
pub record Walk : Type 0 where
  pub passed : List ArqNode
  pub rest : List ArqNode
  pub arq : Arq
  pub first_sn_vec : List ℕ
  pub gtp_pack_vec : List ℕ

-- `first_sn_vec[first_sn_num++]`, while there is room.
unfoldable pub cache_first_sn : List ℕ → ℕ → List ℕ
cache_first_sn vec sn = if ltb (length vec) max_rsv_win_size then vec ++ (sn ∷ []) else vec

-- The node leaves the list; its packet is freed in batches of 512.
unfoldable pub release_node : Walk → ArqNode → List ArqNode → Walk
release_node w n r =
    let vec = w.gtp_pack_vec ++ (n.pack ∷ []) in
    let full = leb free_c3buf_num_per (length vec) in
    let a = if full then call w.arq (tran_bufs_freed vec) else w.arq in
    record {
      passed = w.passed;
      rest = r;
      arq = call (record a { node_num = count_down a.node_num }) (item_freed n.address);
      first_sn_vec = cache_first_sn w.first_sn_vec n.first_pack_sn;
      gtp_pack_vec = if full then [] else vec;
    }

-- `PushPack` of the node `n` that was just taken from the front of `rest`: behind the others, or,
-- where none was left, at the end of the list with the walk over.
unfoldable pub requeue : Walk → List ArqNode → ArqNode → Walk
requeue w [] n = record w { passed = w.passed ++ (n ∷ []); rest = [] }
requeue w (m ∷ r) n = record w { rest = m ∷ (r ++ (n ∷ [])) }

-- `JudgeIsExist` looks from both ends; `j` is one past its right index, and the rounds are fuel.
unfoldable pub exist_loop : ℕ → ℕ → List ℕ → ℕ → ℕ → Bool
exist_loop zero first_sn sn_vec i j = false
exist_loop (suc fuel) first_sn sn_vec i j =
    let rest = exist_loop fuel first_sn sn_vec (i + 1) (j - 1) in
    if ltb i j
    then if (first_sn == get_or sn_vec i 0) || (first_sn == get_or sn_vec (j - 1) 0)
      then true
      else rest
    else false

unfoldable pub judge_is_exist : ℕ → List ℕ → Bool
unfolding exist_loop
judge_is_exist first_sn sn_vec = exist_loop (length sn_vec) first_sn sn_vec 0 (length sn_vec)

-- One node of the loop of `DelNodeByFirstSn`: the state, and whether the node stays.
unfoldable pub del_one : List ℕ → Arq → ArqNode → Arq
del_one vec a n =
    if judge_is_exist n.first_pack_sn vec
    then call (call (record a { node_num = count_down a.node_num }) (tran_buf_freed n.pack))
        (item_freed n.address)
    else record a { arq_list = a.arq_list ++ (n ∷ []) }

-- The list is rebuilt in `arq_list` from the nodes that stay.
unfoldable pub del_loop : List ℕ → List ArqNode → Arq → Arq
del_loop vec [] a = a
del_loop vec (n ∷ r) a = del_loop vec r (del_one vec a n)

unfoldable pub del_node_by_first_sn : Arq → List ℕ → Arq
del_node_by_first_sn a vec = del_loop vec a.arq_list (record a { arq_list = [] })

-- After the loop: the packets that are still to be freed, then the nodes of the same first sn.
unfoldable pub free_cached : Walk → Arq
free_cached w =
    let a = record w.arq { arq_list = w.passed ++ w.rest } in
    if ltb 0 (length w.gtp_pack_vec) then call a (tran_bufs_freed w.gtp_pack_vec) else a

unfoldable pub finish : Walk → Arq
finish w =
    if ltb 0 (length w.first_sn_vec)
    then del_node_by_first_sn (free_cached w) w.first_sn_vec
    else free_cached w

unfoldable pub start : Arq → Walk
start a = record { passed = []; rest = a.arq_list; arq = a; first_sn_vec = []; gtp_pack_vec = [] }

-- The rounds that the walk may take: at a node, one and the resends that it has left.
unfoldable pub resends_left : ℕ → ArqNode → ℕ
resends_left max_times n =
    (if n.boost_node_flg then n.boost_threshold else max_times) % 256 - n.retran_counter

unfoldable pub rounds : ℕ → List ArqNode → ℕ
unfolding resends_left
rounds max_times [] = 0
rounds max_times (n ∷ r) = suc (resends_left max_times n) + rounds max_times r

module _ (env : Env) where
  unfoldable pub resend_node : Walk → ArqNode → List ArqNode → Walk
  resend_node w n r =
      let a = w.arq in
      let sent = pack_retransmit env a.calls n n.tran_addr 0 in
      let a' = record a {
        ack_resend_counter = (a.ack_resend_counter + 1) % u32_mod;
        calls = sent.calls;
      } in
      requeue (record w { arq = a' }) r sent.node

  -- One round of the loop at the node `n`; `none` is the `break`.
  unfoldable pub visit : Verdict → Walk → ArqNode → List ArqNode → Option Walk
  visit stop w n r = none
  visit keep w n r = some (record w { passed = w.passed ++ (n ∷ []); rest = r })
  visit release w n r = some (release_node w n r)
  visit quick_resend w n r =
      if judge_exhaut_resend_num w.arq n
      then some (release_node w (record n { failed_ack = true }) r)
      else some (resend_node w n r)

  -- The loop, on fuel: `none` means that the fuel ran out.
  unfoldable pub walk : (ArqNode → Verdict) → ℕ → List ArqNode → Walk → Option Walk
  walk verdict fuel [] w = some w
  walk verdict zero (n ∷ r) w = none
  walk verdict (suc fuel) (n ∷ r) w = elim (visit (verdict n) w n r) [
    | none ↦ some w
    | some w' ↦ walk verdict fuel w'.rest w'
  ]

  unfoldable pub feedback_from : (ArqNode → Verdict) → List ArqNode → Arq → Option Arq
  feedback_from verdict [] a = some a
  feedback_from verdict (n ∷ r) a =
      Option.map finish (walk verdict (rounds a.max_retran_times (n ∷ r)) (n ∷ r) (start a))

  -- What the four passes have in common: an empty list is left alone.
  unfoldable pub feedback : (ArqNode → Verdict) → Arq → Option Arq
  feedback verdict a = feedback_from verdict a.arq_list a

  unfoldable pub proc_arq_in_32_bit_sys : Arq → List ℕ → ℕ → ℕ → ℕ → Option Arq
  proc_arq_in_32_bit_sys a bitmap head_sn tail_sn rto_sn =
      feedback (ack_verdict (lost_in_32 bitmap) head_sn tail_sn rto_sn) a

  unfoldable pub proc_arq_in_64_bit_sys : Arq → List ℕ → ℕ → ℕ → ℕ → Option Arq
  proc_arq_in_64_bit_sys a bitmap head_sn tail_sn rto_sn =
      feedback (ack_verdict (lost_in_64 bitmap) head_sn tail_sn rto_sn) a

  -- `pointer_bytes` is sizeof(void*).
  unfoldable pub proc_ack : ℕ → Arq → List ℕ → ℕ → ℕ → ℕ → Option Arq
  proc_ack pointer_bytes a bitmap head_sn tail_sn rto_sn =
      if pointer_bytes == 8
      then proc_arq_in_64_bit_sys a bitmap head_sn tail_sn rto_sn
      else proc_arq_in_32_bit_sys a bitmap head_sn tail_sn rto_sn

  unfoldable pub proc_not_loss_nack : Arq → ℕ → ℕ → Option Arq
  proc_not_loss_nack a head_sn tail_sn = feedback (no_loss_verdict head_sn tail_sn) a

  unfoldable pub proc_has_loss_nack : Arq → List ℕ → ℕ → ℕ → Option Arq
  proc_has_loss_nack a nack_sn_offset head_sn rto_sn =
      feedback (has_loss_verdict nack_sn_offset head_sn rto_sn) a

  -- `nack_sn_offset` holds `nack_num` offsets.
  unfoldable pub proc_nack : Arq → List ℕ → ℕ → ℕ → Option Arq
  proc_nack a nack_sn_offset head_sn rto_sn =
      if length nack_sn_offset == 0
      then proc_not_loss_nack a head_sn rto_sn
      else proc_has_loss_nack a nack_sn_offset head_sn rto_sn
