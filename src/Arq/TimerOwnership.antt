-- ===== src/Arq/TimerOwnership.antt =====
-- The pool items in the timer's pass and where the list is cleared.
use udpfec.Base.{
  ℕ, zero, suc, ◌+◌, ◌*◌, ◌≡◌, refl, ap, List, [], ◌∷◌, ◌++◌, Bool, true, false, Option, none, some,
  arith, ltb, ◌==◌, if◌then◌else◌, length, inl, inr, Bool-cases,
}
use mathlib.Core.Option
use mathlib.Core.Path.{subst}
use udpfec.Arq.Types.{ArqNode, Arq, Env, Call, item_freed, tran_buf_freed}
use udpfec.Arq.Retransmit.{
  HarqReTranType, not_retran, rto_retran, boost_retran, pack_retransmit, count_down,
  judge_is_tran_failed, judge_can_rto_re_send,
}
use udpfec.Arq.Timer.{
  Deadlines, Pass, deadlines, rejoin, rejoin_all, give_up, timer_resend, timer_step, timer_walk,
  count_resend, check_rto_retran, clear_arq_list, pop_all_pack, free_all, drop_all,
}
use udpfec.Arq.Ownership.{
  held, given_back, taken, one_if, Kept, PassKept, held-append, held_nil, pack_retransmit_items,
}
use udpfec.Arq.BoostOwnership.{push_pack-Kept, tran_failed-Kept}

count_resend_same :
    (t : HarqReTranType) (a : Arq)
    → ((count_resend t a).arq_list ≡ a.arq_list) × ((count_resend t a).calls ≡ a.calls)
unfolding count_resend
count_resend_same not_retran a = (refl, refl)
count_resend_same rto_retran a = (refl, refl)
count_resend_same boost_retran a = (refl, refl)

module _ (env : Env) (item : ℕ) where
  give_up-Kept :
      (a : Arq) (d : Deadlines) (n : ArqNode)
      → let a' = give_up env a d n in Kept item (n ∷ a.arq_list) a.calls a'.arq_list a'.calls
  unfolding give_up given_back taken
  give_up-Kept a d n = tran_failed-Kept env item _ n d.cur_ts_us

  timer_resend-Kept :
      (t : HarqReTranType) (a : Arq) (d : Deadlines) (n : ArqNode)
      → let a' = timer_resend env t a d n in Kept item (n ∷ a.arq_list) a.calls a'.arq_list a'.calls
  unfolding timer_resend held
  timer_resend-Kept t a d n =
      let sent = pack_retransmit env a.calls n n.tran_addr d.cur_ts_us in
      let moved = pack_retransmit_items env item a.calls n n.tran_addr d.cur_ts_us in
      let a' = record a { node_num = count_down a.node_num; calls = sent.calls } in
      let pushed = push_pack-Kept env item (count_resend t a') sent.node in
      let counted = count_resend_same t a' in
      omega (
        arith,
        pushed.0,
        pushed.1,
        pushed.2,
        ap (held item) counted.0,
        ap (given_back item) counted.1,
        ap (taken item) counted.1,
        ap (λ t. one_if (t == item)) moved.0,
        moved.1,
        moved.2,
      )

  abbrev on_pass : Pass → ℕ
  on_pass p = held item p.arq.arq_list + held item p.rest

  rejoin_items :
      (before : List ArqNode) (a : Arq) (r : List ArqNode)
      → (on_pass (rejoin before a r) ≡ held item before + held item r + held item a.arq_list)
        × (given_back item (rejoin before a r).arq.calls ≡ given_back item a.calls)
        × (taken item (rejoin before a r).arq.calls ≡ taken item a.calls)
  unfolding rejoin
  rejoin_items before a [] = (omega (arith, held-append item before a.arq_list), refl, refl)
  rejoin_items before a (m ∷ r) = (omega (arith, held-append item (m ∷ r) a.arq_list), refl, refl)

  -- What a round makes of the account of the nodes before, at and behind `cur_head`.
  abbrev StepKept : Arq → ArqNode → List ArqNode → Pass → Type 0
  StepKept a n r p =
      on_pass p + given_back item p.arq.calls + taken item a.calls
      ≡ held item a.arq_list + held item (n ∷ r) + given_back item a.calls + taken item p.arq.calls

  rejoined-Kept :
      (a : Arq) (n : ArqNode) (r : List ArqNode) (b : Arq)
      → Kept item (n ∷ []) a.calls b.arq_list b.calls
      → StepKept a n r (rejoin a.arq_list b r)
  rejoined-Kept a n r b k =
      let (list, given, got) = rejoin_items a.arq_list b r in
      omega (arith, held-append item (n ∷ []) r)

  timer_step-Kept :
      (a : Arq) (d : Deadlines) (n : ArqNode) (r : List ArqNode)
      → StepKept a n r (timer_step env a d n r)
  unfolding timer_step
  timer_step-Kept a d n r =
      let alone = record a { arq_list = [] } in
      let t = judge_can_rto_re_send a n d.rto_ts_us d.bst_ts_us in
      elim (Bool-cases (judge_is_tran_failed a n d.rto_ts_us)) [
        | inl failed ↦ rw failed (rejoined-Kept a n r _ (give_up-Kept alone d n))
        | inr alive ↦ rw alive (sent t)
      ]
    where
      sent :
          (t : HarqReTranType)
          → StepKept a n r (elim t as (λ _. Pass) [
            | not_retran ↦ record { arq = record a { arq_list = a.arq_list ++ (n ∷ []) }; rest = r }
            | rto_retran ↦
                rejoin a.arq_list (timer_resend env rto_retran (record a { arq_list = [] }) d n) r
            | boost_retran ↦
                rejoin a.arq_list (timer_resend env boost_retran (record a { arq_list = [] }) d n) r
          ])
      sent not_retran =
          omega (arith, held-append item a.arq_list (n ∷ []), held-append item (n ∷ []) r)
      sent rto_retran =
          rejoined-Kept a n r _ (timer_resend-Kept rto_retran (record a { arq_list = [] }) d n)
      sent boost_retran =
          rejoined-Kept a n r _ (timer_resend-Kept boost_retran (record a { arq_list = [] }) d n)

  abbrev TimerKept : ℕ → List Call → Option Pass → Type 0
  TimerKept before cs none = Unit {0}
  TimerKept before cs (some p) =
      on_pass p + given_back item p.arq.calls + taken item cs
      ≡ before + given_back item cs + taken item p.arq.calls

  trans-TimerKept :
      (a b : Arq) (n : ArqNode) (r r' : List ArqNode) (o : Option Pass)
      → StepKept a n r (record { arq = b; rest = r' })
      → TimerKept (held item b.arq_list + held item r') b.calls o
      → TimerKept (held item a.arq_list + held item (n ∷ r)) a.calls o
  trans-TimerKept a b n r r' none s k = tt
  trans-TimerKept a b n r r' (some p) s k = omega arith

  timer_walk-Kept :
      (fuel : ℕ) (d : Deadlines) (a : Arq) (rest : List ArqNode)
      → TimerKept (held item a.arq_list + held item rest) a.calls (timer_walk env fuel d a rest)
  unfolding timer_walk
  timer_walk-Kept zero d a [] = refl
  timer_walk-Kept (suc fuel) d a [] = refl
  timer_walk-Kept zero d a (n ∷ r) = tt
  timer_walk-Kept (suc fuel) d a (n ∷ r) = elim (Bool-cases (ltb n.last_send_ts_us d.cur_ts_us)) [
    | inl old ↦
        let p = timer_step env a d n r in
        rw (old, timer_walk)
          (trans-TimerKept a p.arq n r p.rest _ (timer_step-Kept a d n r)
            (timer_walk-Kept fuel d p.arq p.rest))
    | inr young ↦ rw (young, timer_walk) refl
  ]

  free_all_items :
      (l : List ArqNode) (calls : List Call)
      → (given_back item (free_all l calls) ≡ given_back item calls + held item l)
        × (taken item (free_all l calls) ≡ taken item calls)
  unfolding free_all given_back taken held
  free_all_items [] calls = (omega arith, refl)
  free_all_items (n ∷ r) calls =
      let later = free_all_items r (item_freed n.address ∷ tran_buf_freed n.pack ∷ calls) in
      (omega (arith, later.0), later.1)

  -- `PopAllPack` gives every item of the list back.
  drop_all-Kept :
      (l : List ArqNode) (a : Arq)
      → a.arq_list ≡ l
      → Kept item l a.calls (drop_all l a).arq_list (drop_all l a).calls
  unfolding drop_all held
  drop_all-Kept [] a e =
      let bare : held item a.arq_list ≡ held item [] = ap (held item) e in omega (arith, bare)
  drop_all-Kept (n ∷ r) a e = omega (arith, free_all_items (n ∷ r) a.calls)

  pub pop_all_pack-Kept :
      (a : Arq) → Kept item a.arq_list a.calls (pop_all_pack a).arq_list (pop_all_pack a).calls
  unfolding pop_all_pack
  pop_all_pack-Kept a = drop_all-Kept a.arq_list a refl

  rejoined_all-Kept :
      (a b : Arq) (o : Option Pass)
      → b.calls ≡ a.calls
      → TimerKept (held item a.arq_list) b.calls o
      → PassKept item a (Option.map rejoin_all o)
  unfolding rejoin_all
  rejoined_all-Kept a b none e k = tt
  rejoined_all-Kept a b (some p) e k =
      omega
        (arith, held-append item p.arq.arq_list p.rest, ap (given_back item) e, ap (taken item) e)

  either-Kept :
      (a b : Arq) (on : Bool) (o : Option Arq)
      → PassKept item a o
      → PassKept item a (some b)
      → PassKept item a (if on then o else some b)
  either-Kept a b true o k l = k
  either-Kept a b false o k l = l

  clear_arq_list-Kept :
      (a : Arq) → Kept item a.arq_list a.calls (clear_arq_list a).arq_list (clear_arq_list a).calls
  unfolding clear_arq_list
  clear_arq_list-Kept a = drop_all-Kept a.arq_list a refl

  -- The timer's pass keeps the account of every item.
  pub check_rto_retran-Kept :
      (a : Arq) (cur_ts_us : ℕ) → PassKept item a (check_rto_retran env a cur_ts_us)
  unfolding check_rto_retran
  check_rto_retran-Kept a cur_ts_us =
      let d = deadlines a cur_ts_us in
      let b = record a { arq_list = [] } in
      let fuel = suc (2 * length a.arq_list) in
      let walked : TimerKept (held item a.arq_list) b.calls (timer_walk env fuel d b a.arq_list) =
        subst (λ t. TimerKept t b.calls (timer_walk env fuel d b a.arq_list))
          (omega (arith, held_nil item)) (timer_walk-Kept fuel d b a.arq_list) in
      either-Kept a (clear_arq_list a) env.alg_top_switch _ (rejoined_all-Kept a b _ refl walked)
        (clear_arq_list-Kept a)
