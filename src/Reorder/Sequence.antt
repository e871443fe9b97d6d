-- ===== src/Reorder/Sequence.antt =====
-- `ReorderEnqueue` keeps the order of the frames handed over.
use udpfec.Base.{
  ℕ, ◌+◌, ◌-◌, ◌≡◌, ◌<◌, ◌≤◌, refl, sym, true, false, Option, none, some, arith, ltb, leb, ◌==◌,
  inl, inr, Bool-cases,
}
use mathlib.Core.Path.{subst}
use udpfec.Reorder.Buffer.{
  Reorder, Frame, has_frame, slot_at, reorder_buf_size, receive, skip_sn, distance, is_negative,
  accept, rekey, enqueue_frame,
}
use udpfec.Reorder.Valid.{IsValid}
use udpfec.Reorder.Operations.{large_gap-rekey}
use udpfec.Reorder.Order.{
  sn_limit, Rising, Rising-weaken, IsOrdered, OrderedResult, advance-ordered,
}
use udpfec.Reorder.Delivery.{
  filled-occupied, jump-IsOrdered, buffer_slot-ordered, placeholder-ordered,
}

-- A number that does not count as behind is not behind.
distance_ahead :
    (r : Reorder) (sn : ℕ)
    → sn < sn_limit
    → r.next_sn ≤ 2147483648
    → is_negative (distance r sn) ≡ false
    → (r.next_sn ≤ sn) × (distance r sn ≡ sn - r.next_sn)
unfolding distance
distance_ahead r sn under bound h = (ground arith, ground arith)

module _ (key : Frame → ℕ) (n : ℕ) (small : n ≤ sn_limit) where
  skip_sn-ordered :
      (sn ts_us : ℕ) (r : Reorder)
      → IsValid r
      → IsOrdered key n r.next_sn r
      → sn < sn_limit
      → is_negative (distance r sn) ≡ false
      → OrderedResult key n (skip_sn r sn (distance r sn) ts_us)
  unfolding skip_sn
  skip_sn-ordered sn ts_us r valid h under ahead =
      let (past, d) = distance_ahead r sn under (omega (arith, h.1)) ahead in
      elim (Bool-cases (distance r sn == 0)) [
        | inl now ↦ rw now (
            advance-ordered key n ts_us r small (ground arith)
              (filled-occupied (slot_at r r.next_sn) valid.1)
              (
                h.0,
                h.1,
                h.2,
                Rising-weaken key r.next_sn (r.next_sn + 1) r.events (omega arith) h.3,
                h.4,
              ))
        | inr later ↦ elim (Bool-cases (ltb (distance r sn) reorder_buf_size)) [
          | inr far ↦ rw (later, far) h
          | inl near ↦ elim (Bool-cases (has_frame (slot_at r sn).frame)) [
            | inl taken ↦ rw (later, near, taken) h
            | inr bare ↦
                rw (later, near, bare)
                  (placeholder-ordered key n sn ts_us r h past (ground arith) under bare)
          ]
        ]
      ]

  accept-ordered :
      (sn ts_us hint : ℕ) (r : Reorder) (f : Frame)
      → IsValid r
      → IsOrdered key n r.next_sn r
      → rekey sn hint < sn_limit
      → is_negative (distance r (rekey sn hint)) ≡ false
      → key f ≡ rekey sn hint
      → OrderedResult key n (accept true r (rekey sn hint) f ts_us hint)
  unfolding accept receive slot_at
  accept-ordered sn ts_us hint r f valid h under ahead k =
      let at = rekey sn hint in
      let (past, d) = distance_ahead r at under (omega (arith, h.1)) ahead in
      elim (Bool-cases (distance r at == 0)) [
        | inl now ↦
            let same : key f ≡ r.next_sn = ground arith in
            rw now (
              advance-ordered key n ts_us (receive f r) small (ground arith)
                (filled-occupied (slot_at r r.next_sn) valid.1)
                (
                  h.0,
                  h.1,
                  h.2,
                  (omega (arith, same), subst (λ x. Rising key x r.events) (sym same) h.3),
                  h.4,
                ))
        | inr later ↦ elim (Bool-cases (leb reorder_buf_size (distance r at))) [
          | inl far ↦
              rw (later, far)
                (subst (OrderedResult key n) (sym (large_gap-rekey true r sn f ts_us hint))
                  (jump-IsOrdered key n at r f small valid.0 h (ground arith) under k))
          | inr near ↦
              rw (later, near)
                (buffer_slot-ordered key n at ts_us r f h past (ground arith) under k)
        ]
      ]

  pub enqueue_frame-ordered :
      (sn ts_us hint : ℕ) (r : Reorder) (o : Option Frame)
      → IsValid r
      → IsOrdered key n r.next_sn r
      → sn < sn_limit
      → ((f : Frame) → o ≡ some f → (key f ≡ rekey sn hint) × (rekey sn hint < sn_limit))
      → OrderedResult key n (enqueue_frame true r sn o ts_us hint)
  unfolding enqueue_frame
  enqueue_frame-ordered sn ts_us hint r none valid h under stamped =
      elim (Bool-cases (is_negative (distance r sn))) [
        | inl behind ↦ rw behind h
        | inr ahead ↦ rw ahead (skip_sn-ordered sn ts_us r valid h under ahead)
      ]
  enqueue_frame-ordered sn ts_us hint r (some f) valid h under stamped =
      let (k, low) = stamped f refl in
      elim (Bool-cases (is_negative (distance r (rekey sn hint)))) [
        | inl behind ↦ rw behind h
        | inr ahead ↦ rw ahead (accept-ordered sn ts_us hint r f valid h low ahead k)
      ]
