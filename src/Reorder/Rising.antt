-- ===== src/Reorder/Rising.antt =====
-- Runs of the reorder buffer in one session hand the frames over in rising order.
use udpfec.Base.{
  ℕ, suc, ◌+◌, ◌-◌, ◌%◌, ◌≡◌, ◌<◌, ◌≤◌, refl, sym, List, [], ◌∷◌, true, false, Option, none, some,
  length, get_or, get_or-replicate, arith, leb, ◌==◌, ap, inl, inr, ◌⊎◌, Bool-cases, not, ◌&&◌,
}
use mathlib.Core.Path.{subst}
use udpfec.Reorder.Buffer.{
  Reorder, Frame, has_frame, occupied, slot_at, rekey, init_sn, enqueue_frame, reorder_enqueue,
  gap_tick, gap_timeout_us, fresh_reorder, empty_slot,
}
use udpfec.Reorder.Valid.{IsValid}
use udpfec.Reorder.Operations.{init_sn_started, init_sn-IsValid}
use udpfec.Reorder.Order.{
  sn_limit, Rising, Rising-weaken, IsOrdered, OrderedResult, advance-ordered,
}
use udpfec.Reorder.Delivery.{filled-occupied}
use udpfec.Reorder.History.{
  Action, enqueue, clear, timer, act, act_all, AllReal, act-IsValid, act_all_fresh-IsValid,
  fresh_reorder-IsValid,
}
use udpfec.Reorder.Sequence.{enqueue_frame-ordered}

-- What a session without a wrap of its numbers sees: frames stamped with the number that they are
-- keyed on, buffers at hand, no clear.
module _ (key : Frame → ℕ) where
  abbrev pub IsStamped : Action → Type 0
  IsStamped (enqueue given sn frame ts_us hint) =
      (given ≡ true)
      × (sn < sn_limit)
      × ((f : Frame) → frame ≡ some f → (key f ≡ rekey sn hint) × (rekey sn hint < sn_limit))
  IsStamped clear = ⊥
  IsStamped (timer ts_us pps) = Unit {0}

  abbrev pub AllStamped : List Action → Type 0
  AllStamped [] = Unit {0}
  AllStamped (a ∷ rest) = IsStamped a × AllStamped rest

  act-ordered :
      (n : ℕ) (a : Action) (r : Reorder)
      → suc n ≤ sn_limit
      → IsStamped a
      → IsValid r
      → IsOrdered key n r.next_sn r
      → OrderedResult key (suc n) (act a r)
  unfolding act reorder_enqueue gap_tick
  act-ordered n (enqueue true sn frame ts_us hint) r small stamped valid h =
      subst (λ x. OrderedResult key (suc n) (enqueue_frame true x sn frame ts_us hint))
        (sym (init_sn_started sn r h.4))
        (enqueue_frame-ordered key (suc n) small sn ts_us hint r frame valid
          (h.0, omega (arith, h.1), h.2, h.3, h.4) stamped.1 stamped.2)
  act-ordered n (enqueue false sn frame ts_us hint) r small stamped valid h =
      absurd (let no = stamped.0 in ground arith)
  act-ordered n clear r small stamped valid h = absurd stamped
  act-ordered n (timer ts_us pps) r small stamped valid h =
      let due =
        not (r.gap_since_us == 0)
        && leb (gap_timeout_us pps)
            ((ts_us + 18446744073709551616 - r.gap_since_us) % 18446744073709551616) in
      elim (Bool-cases due) [
        | inr wait ↦ rw wait (h.0, omega (arith, h.1), h.2, h.3, h.4)
        | inl late ↦ rw late (
            advance-ordered key (suc n) ts_us r small (omega (arith, h.1))
              (filled-occupied (slot_at r r.next_sn) valid.1)
              (
                h.0,
                omega (arith, h.1),
                h.2,
                Rising-weaken key r.next_sn (r.next_sn + 1) r.events (omega arith) h.3,
                h.4,
              ))
      ]

  fresh-IsOrdered :
      (sn : ℕ)
      → sn < sn_limit
      → IsOrdered key 1 sn (record fresh_reorder { next_sn = sn; inited = true })
  unfolding occupied has_frame
  fresh-IsOrdered sn low =
      let bare : (i : ℕ) → get_or (fresh_reorder.reorder_buf) i empty_slot ≡ empty_slot =
        λ i. get_or-replicate 16 empty_slot i in
      (
        refl,
        omega (arith, low),
        (
          (λ i p o. absurd (let b = ap occupied (bare i) in ground arith)),
          λ i f p e. absurd (let b = ap (λ s. has_frame s.frame) (bare i) in ground arith),
        ),
        tt,
        refl,
      )

  first-enqueue :
      (sn : ℕ) (frame : Option Frame) (ts_us hint : ℕ)
      → IsStamped (enqueue true sn frame ts_us hint)
      → OrderedResult key 1 (reorder_enqueue true fresh_reorder sn frame ts_us hint)
  unfolding reorder_enqueue init_sn
  first-enqueue sn frame ts_us hint stamped =
      let valid =
        init_sn-IsValid sn fresh_reorder fresh_reorder-IsValid (omega (arith, stamped.1)) in
      enqueue_frame-ordered key 1 (omega arith) sn ts_us hint
        (record fresh_reorder { next_sn = sn; inited = true }) frame valid.0
        (fresh-IsOrdered sn stamped.1) stamped.1 stamped.2

  -- The first operation of a new session.
  first-ordered :
      (a : Action)
      → IsStamped a
      → OrderedResult key 1 (act a fresh_reorder) ⊎ (act a fresh_reorder ≡ some fresh_reorder)
  unfolding act reorder_enqueue gap_tick init_sn
  first-ordered (enqueue true sn frame ts_us hint) stamped =
      inl (first-enqueue sn frame ts_us hint stamped)
  first-ordered (enqueue false sn frame ts_us hint) stamped =
      absurd (let no = stamped.0 in ground arith)
  first-ordered clear stamped = absurd stamped
  first-ordered (timer ts_us pps) stamped = inr refl

  -- The frames handed over so far.
  abbrev EndsRising : Option Reorder → Type 0
  EndsRising none = Unit {0}
  EndsRising (some r) = Rising key r.next_sn r.events

  act_all-rising :
      (l : List Action) (n : ℕ) (r : Reorder)
      → n + length l ≤ sn_limit
      → AllReal l
      → AllStamped l
      → IsValid r
      → IsOrdered key n r.next_sn r
      → EndsRising (act_all l r)
  unfolding act_all
  act_all-rising [] n r small real stamped valid h = h.3
  act_all-rising (a ∷ rest) n r small real stamped valid h =
      let (r1, e, valid1) = act-IsValid a r real.0 valid in
      let h1 =
        subst (OrderedResult key (suc n)) e (act-ordered n a r (omega arith) stamped.0 valid h) in
      rw (e, act_all)
        (act_all-rising rest (suc n) r1 (omega (arith, small)) real.1 stamped.1 valid1 h1)

  act_all_fresh-rising :
      (l : List Action)
      → length l ≤ sn_limit
      → AllReal l
      → AllStamped l
      → EndsRising (act_all l fresh_reorder)
  unfolding act_all
  act_all_fresh-rising [] small real stamped = tt
  act_all_fresh-rising (a ∷ rest) small real stamped = elim (first-ordered a stamped.0) [
    | inr e ↦ rw (e, act_all) (act_all_fresh-rising rest (omega (arith, small)) real.1 stamped.1)
    | inl h ↦
        let (r1, e, valid1) = act-IsValid a fresh_reorder real.0 fresh_reorder-IsValid in
        rw (e, act_all)
          (act_all-rising rest 1 r1 (omega (arith, small)) real.1 stamped.1 valid1
            (subst (OrderedResult key 1) e h))
  ]

  -- In a new session with sequence numbers below 2^30, the clock past 0, buffers at hand and no
  -- clear, every sequence of at most 2^30 operations ends, and has handed the frames over in strictly
  -- rising order of their sequence numbers. `key` reads the number that a frame is keyed on.
  pub act_all_fresh-Rising :
      (l : List Action)
      → length l ≤ sn_limit
      → AllReal l
      → AllStamped l
      → (r : Reorder) × (act_all l fresh_reorder ≡ some r) × Rising key r.next_sn r.events
  act_all_fresh-Rising l small real stamped =
      let (r, e, valid) = act_all_fresh-IsValid l real in
      (r, e, subst EndsRising e (act_all_fresh-rising l small real stamped))
