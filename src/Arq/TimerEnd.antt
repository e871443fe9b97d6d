-- ===== src/Arq/TimerEnd.antt =====
-- The pass of the timer ends: a node that is sent again carries the time of the pass, at which
-- the loop stops, and a packet that is given up leaves at most one boost node that is older.
use udpfec.Base.{
  ℕ, zero, suc, ◌+◌, ◌*◌, ◌≤◌, ◌<◌, ◌≡◌, ◌≢◌, refl, ◌∙◌, ap, List, [], ◌∷◌, ◌++◌, Bool, true, false,
  Option, none, some, arith, ltb, if◌then◌else◌, length, inl, inr, Bool-cases,
}
use mathlib.Core.Option
use udpfec.Arq.Types.{
  ArqNode, Arq, Env, Call, tran_addr_copied, packet_copied, item_malloced, tran_buf_malloced,
}
use udpfec.Arq.Retransmit.{
  HarqReTranType, not_retran, rto_retran, boost_retran, pack_retransmit, push_pack, call, resend_ts,
  judge_is_tran_failed,
}
use udpfec.Arq.Boost.{
  clone_boost_node, clone_with, clone_into, boost_node, tran_failed_post_handler, gives_up,
  send_again, start_over, raise_threshold,
}
use udpfec.Arq.Timer.{
  Deadlines, Pass, deadlines, rejoin, rejoin_all, give_up, timer_resend, timer_step, timer_walk,
  count_resend, check_rto_retran, clear_arq_list,
}

-- How often the pass may still handle a node.
handlings : ℕ → ArqNode → ℕ
handlings cur n = if ltb n.last_send_ts_us cur then (if n.boost_node_flg then 1 else 2) else 0

all_handlings : ℕ → List ArqNode → ℕ
all_handlings cur [] = 0
all_handlings cur (n ∷ r) = handlings cur n + all_handlings cur r

all_handlings-append :
    (cur : ℕ) (xs ys : List ArqNode)
    → all_handlings cur (xs ++ ys) ≡ all_handlings cur xs + all_handlings cur ys
unfolding all_handlings
all_handlings-append cur [] ys = omega arith
all_handlings-append cur (x ∷ xs) ys = omega (arith, all_handlings-append cur xs ys)

all_handlings_one : (cur : ℕ) (n : ArqNode) → all_handlings cur (n ∷ []) ≡ handlings cur n
unfolding all_handlings
all_handlings_one cur n = omega arith

all_handlings-le : (cur : ℕ) (xs : List ArqNode) → all_handlings cur xs ≤ 2 * length xs
unfolding all_handlings handlings
all_handlings-le cur [] = omega arith
all_handlings-le cur (x ∷ xs) = ground (arith, all_handlings-le cur xs)

either_total :
    (on : Bool) (o : Option Arq) {a : Arq} (b : Arq)
    → o ≡ some a
    → (r : Arq) × ((if on then o else some b) ≡ some r)
either_total true o {a} b e = (a, e)
either_total false o b e = (b, refl)

module _ (env : Env) where
  -- A resend stamps the node with the time of the pass.
  last_send-pack_retransmit :
      (a : Arq) (n : ArqNode) (addr cur : ℕ)
      → cur ≢ 0
      → (pack_retransmit env a.calls n addr cur).node.last_send_ts_us ≡ cur
  unfolding pack_retransmit resend_ts
  last_send-pack_retransmit a n addr cur h = ground arith

  timer_resend_handlings :
      (t : HarqReTranType) (a : Arq) (d : Deadlines) (n : ArqNode)
      → d.cur_ts_us ≢ 0
      → a.arq_list ≡ []
      → all_handlings d.cur_ts_us (timer_resend env t a d n).arq_list ≡ 0
  unfolding timer_resend push_pack count_resend all_handlings handlings
  timer_resend_handlings not_retran a d n h e =
      rw e (ground (arith, last_send-pack_retransmit a n n.tran_addr d.cur_ts_us h))
  timer_resend_handlings rto_retran a d n h e =
      rw e (ground (arith, last_send-pack_retransmit a n n.tran_addr d.cur_ts_us h))
  timer_resend_handlings boost_retran a d n h e =
      rw e (ground (arith, last_send-pack_retransmit a n n.tran_addr d.cur_ts_us h))

  handlings-boost_node :
      (cur : ℕ) (calls : List Call) (org : ArqNode) (item mem addr ts : ℕ)
      → handlings cur (boost_node env calls org item mem addr ts) ≤ 1
  unfolding handlings boost_node
  handlings-boost_node cur calls org item mem addr ts = ground arith

  clone_into_handlings :
      (cur : ℕ) (a : Arq) (org : ArqNode) (ts mem addr : ℕ) (item : Option ℕ)
      → let (a', org') = clone_into env a org ts mem addr item in
        (all_handlings cur a'.arq_list ≤ all_handlings cur a.arq_list + 1)
        × (org'.last_send_ts_us ≡ org.last_send_ts_us)
  unfolding clone_into push_pack
  clone_into_handlings cur a org ts mem addr none = (omega arith, refl)
  clone_into_handlings cur a org ts mem addr (some item) =
      let calls =
        tran_addr_copied addr org.tran_addr ∷ packet_copied mem org.pack org.pack_len ∷ a.calls in
      let new = boost_node env calls org item mem addr ts in
      (
        omega (
          arith,
          all_handlings-append cur a.arq_list (new ∷ []),
          handlings-boost_node cur calls org item mem addr ts,
          all_handlings_one cur new,
        ),
        refl,
      )

  clone_with_handlings :
      (cur : ℕ) (a : Arq) (org : ArqNode) (ts : ℕ) (got : Option (ℕ × ℕ))
      → let (a', org') = clone_with env a org ts got in
        (all_handlings cur a'.arq_list ≤ all_handlings cur a.arq_list + 1)
        × (org'.last_send_ts_us ≡ org.last_send_ts_us)
  unfolding clone_with
  clone_with_handlings cur a org ts none = (omega arith, refl)
  clone_with_handlings cur a org ts (some (mem, addr)) =
      let item = env.malloc_item a.calls in
      clone_into_handlings cur (call a (item_malloced item)) org ts mem addr item

  clone_boost_node_handlings :
      (cur : ℕ) (a : Arq) (org : ArqNode) (ts : ℕ)
      → let (a', org') = clone_boost_node env a org ts in
        (all_handlings cur a'.arq_list ≤ all_handlings cur a.arq_list + 1)
        × (org'.last_send_ts_us ≡ org.last_send_ts_us)
  unfolding clone_boost_node
  clone_boost_node_handlings cur a org ts =
      let got = env.malloc_tran_buf a.calls org.pack_len in
      clone_with_handlings cur (call a (tran_buf_malloced org.pack_len got)) org ts got

  push_pack-handlings :
      (cur : ℕ) (a : Arq) (n : ArqNode)
      → all_handlings cur (push_pack a n).arq_list ≡ all_handlings cur a.arq_list + handlings cur n
  unfolding push_pack
  push_pack-handlings cur a n =
      omega (arith, all_handlings-append cur a.arq_list (n ∷ []), all_handlings_one cur n)

  raise_threshold_ts : (n : ArqNode) → (raise_threshold n).last_send_ts_us ≡ n.last_send_ts_us
  unfolding raise_threshold
  raise_threshold_ts n = ground arith

  fresh_handlings : (cur : ℕ) (n : ArqNode) → n.last_send_ts_us ≡ cur → handlings cur n ≡ 0
  unfolding handlings
  fresh_handlings cur n e = ground arith

  send_again_handlings :
      (a : Arq) (n : ArqNode) (cur : ℕ)
      → cur ≢ 0
      → all_handlings cur (send_again env a n cur).arq_list ≤ all_handlings cur a.arq_list + 1
  unfolding send_again
  send_again_handlings a n cur h =
      let sent = pack_retransmit env a.calls (start_over n) n.tran_addr cur in
      let b = record a { calls = sent.calls } in
      let cloned = clone_boost_node env b (raise_threshold sent.node) cur in
      let c = clone_boost_node_handlings cur b (raise_threshold sent.node) cur in
      let ts : cloned.1.last_send_ts_us ≡ cur =
        c.1
        ∙ raise_threshold_ts sent.node
        ∙ last_send-pack_retransmit a (start_over n) n.tran_addr cur h in
      omega (arith, push_pack-handlings cur cloned.0 cloned.1, c.0, fresh_handlings cur cloned.1 ts)

  not_boost : (n : ArqNode) → gives_up env n ≡ false → n.boost_node_flg ≡ false
  unfolding gives_up
  not_boost n e = ground arith

  tran_failed_handlings :
      (a : Arq) (n : ArqNode) (cur : ℕ)
      → n.last_send_ts_us < cur
      → a.arq_list ≡ []
      → all_handlings cur (tran_failed_post_handler env a n cur).arq_list < handlings cur n
  unfolding tran_failed_post_handler handlings all_handlings
  tran_failed_handlings a n cur old e = elim (Bool-cases (gives_up env n)) [
    | inl up ↦ rw (up, e) (ground arith)
    | inr again ↦ rw again (
        ground (
          arith,
          not_boost n again,
          send_again_handlings a n cur (omega arith),
          ap (all_handlings cur) e,
        ))
  ]

  give_up-handlings :
      (a : Arq) (d : Deadlines) (n : ArqNode)
      → n.last_send_ts_us < d.cur_ts_us
      → a.arq_list ≡ []
      → all_handlings d.cur_ts_us (give_up env a d n).arq_list < handlings d.cur_ts_us n
  unfolding give_up
  give_up-handlings a d n old e = tran_failed_handlings _ n d.cur_ts_us old e

  rejoin_handlings :
      (cur : ℕ) (before : List ArqNode) (a : Arq) (r : List ArqNode)
      → all_handlings cur (rejoin before a r).rest
        ≤ all_handlings cur r + all_handlings cur a.arq_list
  unfolding rejoin all_handlings
  rejoin_handlings cur before a [] = omega arith
  rejoin_handlings cur before a (m ∷ r) = omega (arith, all_handlings-append cur r a.arq_list)

  old_handlings : (cur : ℕ) (n : ArqNode) → n.last_send_ts_us < cur → 0 < handlings cur n
  unfolding handlings
  old_handlings cur n h = ground arith

  timer_step_handlings :
      (a : Arq) (d : Deadlines) (n : ArqNode) (r : List ArqNode)
      → n.last_send_ts_us < d.cur_ts_us
      → all_handlings d.cur_ts_us (timer_step env a d n r).rest < all_handlings d.cur_ts_us (n ∷ r)
  unfolding timer_step all_handlings
  timer_step_handlings a d n r old =
      let alone = record a { arq_list = [] } in
      let some_left = old_handlings d.cur_ts_us n old in
      let gone = give_up-handlings alone d n old refl in
      let later = λ (t : HarqReTranType). timer_resend_handlings t alone d n (omega arith) refl in
      let joined = λ (b : Arq). rejoin_handlings d.cur_ts_us a.arq_list b r in
      elim (Bool-cases (judge_is_tran_failed a n d.rto_ts_us)) [
        | inl failed ↦ rw failed (omega (arith, joined (give_up env alone d n)))
        | inr alive ↦ rw alive (
            ground (
              arith,
              later rto_retran,
              later boost_retran,
              joined (timer_resend env rto_retran alone d n),
              joined (timer_resend env boost_retran alone d n),
            ))
      ]

  timer_walk_total :
      (fuel : ℕ) (d : Deadlines) (a : Arq) (rest : List ArqNode)
      → all_handlings d.cur_ts_us rest < fuel
      → (p : Pass) × (timer_walk env fuel d a rest ≡ some p)
  unfolding timer_walk
  timer_walk_total zero d a [] h = (record { arq = a; rest = [] }, refl)
  timer_walk_total (suc fuel) d a [] h = (record { arq = a; rest = [] }, refl)
  timer_walk_total zero d a (n ∷ r) h = absurd (omega arith)
  timer_walk_total (suc fuel) d a (n ∷ r) h =
      elim (Bool-cases (ltb n.last_send_ts_us d.cur_ts_us)) [
        | inl old ↦
            let p = timer_step env a d n r in
            let shorter = timer_step_handlings a d n r (ground arith) in
            rw (old, timer_walk) (timer_walk_total fuel d p.arq p.rest (omega arith))
        | inr young ↦ rw (young, timer_walk) (record { arq = a; rest = n ∷ r }, refl)
      ]

  -- The pass of the timer ends at every time, whatever the session and the pools answer.
  pub check_rto_retran_total :
      (a : Arq) (cur_ts_us : ℕ) → (a' : Arq) × (check_rto_retran env a cur_ts_us ≡ some a')
  unfolding check_rto_retran
  check_rto_retran_total a cur_ts_us =
      let d = deadlines a cur_ts_us in
      let enough = all_handlings-le cur_ts_us a.arq_list in
      let (p, e) =
        timer_walk_total (suc (2 * length a.arq_list)) d (record a { arq_list = [] }) a.arq_list
          (unfold deadlines in omega arith) in
      either_total env.alg_top_switch _ (clear_arq_list a) (ap (Option.map rejoin_all) e)
