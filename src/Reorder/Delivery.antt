-- ===== src/Reorder/Delivery.antt =====
-- Frames are handed over in the order of their sequence numbers.
use udpfec.Base.{
  ℕ, zero, suc, ◌+◌, ◌%◌, ◌≡◌, ◌<◌, ◌≤◌, refl, sym, List, ◌∷◌, true, false, none, some, length,
  get_or, sum_by-get_or, length-set, arith, ◌==◌, ap, ◌∙◌, inl, inr, Bool-cases,
}
use mathlib.Core.Path.{subst}
use udpfec.Reorder.Buffer.{
  ReorderSlot, Reorder, Frame, Event, buf_malloced, empty_slot, has_frame, occupied, slot_at,
  put_slot, free_frame, empty_at, next, sn_mod, receive, start_gap, buffer_slot, flush_window, jump,
}
use udpfec.Reorder.Slots.{filled}
use udpfec.Reorder.Valid.{IsSized}
use udpfec.Reorder.Enqueue.{flush_window_all, flush_window-IsSized, flush_window-inited}
use udpfec.Reorder.Order.{
  position, sn_limit, Rising, Rising-weaken, Rising-free_frame, IsKeyed, IsKeyed-set, IsOrdered,
  OrderedResult, occupied_frame, empty_at-IsKeyed,
}

pub filled-occupied : (s : ReorderSlot) → filled s ≡ 0 → occupied s ≡ false
filled-occupied s h = ground arith

module _ (key : Frame → ℕ) where
  -- The flush before a jump, `n` slots before its end.
  flush_window-Rising :
      (n i : ℕ) (r : Reorder)
      → n + i ≡ 16
      → length r.reorder_buf ≡ 16
      → r.next_sn + 16 < sn_mod
      → IsKeyed key r.next_sn r.reorder_buf
      → Rising key (r.next_sn + i) r.events
      → Rising key (r.next_sn + 16) (flush_window n i r).events
  unfolding flush_window empty_at put_slot
  flush_window-Rising zero i r e size b keyed rising =
      let full : i ≡ 16 = omega (arith, e) in
      subst (λ j. Rising key (r.next_sn + j) r.events) full rising
  flush_window-Rising (suc n) i r e size b keyed rising =
      let sn : (r.next_sn + i) % sn_mod ≡ r.next_sn + i = omega (arith, e, b) in
      let at : position r.next_sn ((r.next_sn + i) % 16) ≡ r.next_sn + i =
        unfold position in omega (arith, e) in
      let (keyed', rising') = empty_at-IsKeyed key (r.next_sn + i) r size at keyed rising in
      let here : r.next_sn + i + 1 ≡ r.next_sn + (i + 1) = omega arith in
      subst (λ x. Rising key (r.next_sn + 16) (flush_window n (i + 1) (empty_at x r)).events)
        (sym sn)
        (flush_window-Rising n (i + 1) (empty_at (r.next_sn + i) r) (omega (arith, e))
          (length-set r.reorder_buf ((r.next_sn + i) % 16) _ ∙ size) b keyed'
          (subst (λ x. Rising key x (empty_at (r.next_sn + i) r).events) here rising'))

  pub start_gap-ordered :
      (n ts_us : ℕ) (r : Reorder)
      → OrderedResult key n (some r)
      → OrderedResult key n (some (start_gap ts_us r))
  unfolding start_gap
  start_gap-ordered n ts_us r h = elim (Bool-cases (r.gap_since_us == 0)) [
    | inl off ↦ rw off h
    | inr on ↦ rw on h
  ]

  -- A slot ahead is written.
  put_slot-IsOrdered :
      (n sn : ℕ) (r : Reorder) (s : ReorderSlot) (events : List Event)
      → IsOrdered key n r.next_sn r
      → r.next_sn ≤ sn
      → sn < r.next_sn + 16
      → sn < sn_limit
      → ((f : Frame) → s.frame ≡ some f → key f ≡ sn)
      → Rising key r.next_sn events
      → IsOrdered key n r.next_sn (put_slot (record r { events = events }) sn s)
  unfolding put_slot
  put_slot-IsOrdered n sn r s events (size, low, keyed, rising, on) p q under k rising' =
      let at : position r.next_sn (sn % 16) ≡ sn = unfold position in omega (arith, p, q) in
      (
        length-set r.reorder_buf (sn % 16) s ∙ size,
        low,
        IsKeyed-set key r.next_sn r.reorder_buf (sn % 16) s size (omega arith) keyed
            (λ o. omega (arith, at, under)) (λ f e. k f e ∙ sym at),
        rising',
        on,
      )

  -- The buffer jumps to a frame beyond it.
  pub jump-IsOrdered :
      (n sn : ℕ) (r : Reorder) (f : Frame)
      → n ≤ sn_limit
      → IsSized r
      → IsOrdered key n r.next_sn r
      → r.next_sn + 16 ≤ sn
      → sn < sn_limit
      → key f ≡ sn
      → IsOrdered key n (jump r sn f).next_sn (jump r sn f)
  unfolding jump next receive
  jump-IsOrdered n sn r f small sized (size, low, keyed, rising, on) ahead under k =
      let r' = flush_window 16 0 r in
      let none_left = flush_window_all r sized in
      let (size', bound', owned') = flush_window-IsSized 16 0 r sized in
      let now : r.next_sn ≡ r.next_sn + 0 = omega arith in
      let passed =
        flush_window-Rising 16 0 r refl size (omega (arith, ahead, under)) keyed
          (subst (λ x. Rising key x r.events) now rising) in
      let free : (i : ℕ) → i < 16 → occupied (get_or r'.reorder_buf i empty_slot) ≡ false = λ i p.
        filled-occupied (get_or r'.reorder_buf i empty_slot) (
          omega (
            arith,
            none_left,
            size',
            sum_by-get_or filled r'.reorder_buf i empty_slot (omega (arith, size', p)),
          )) in
      let e : (sn + 1) % sn_mod ≡ sn + 1 = omega (arith, under) in
      rw e (
        size',
        omega (arith, under),
        (
          (λ i p o. absurd (let b = free i p in ground arith)),
          λ i g p e.
              let b = free i p in
              let o = occupied_frame (get_or r'.reorder_buf i empty_slot) g e in
              absurd (ground arith),
        ),
        (
          omega (arith, k),
          Rising-weaken key (r.next_sn + 16) (key f) r'.events (omega (arith, k, ahead)) passed,
        ),
        flush_window-inited 16 0 r ∙ on,
      )

  -- A frame is buffered, with a buffer at hand.
  pub buffer_slot-ordered :
      (n sn ts_us : ℕ) (r : Reorder) (f : Frame)
      → IsOrdered key n r.next_sn r
      → r.next_sn ≤ sn
      → sn < r.next_sn + 16
      → sn < sn_limit
      → key f ≡ sn
      → OrderedResult key n (some (buffer_slot true r sn f ts_us))
  unfolding buffer_slot
  buffer_slot-ordered n sn ts_us r f h p q under k =
      let s = slot_at r sn in
      let s' : ReorderSlot = record s { frame = some f; arrive_ts_us = ts_us } in
      let events = buf_malloced ∷ free_frame s.frame r.events in
      start_gap-ordered n ts_us (put_slot (record r { events = events }) sn s') (
        unfold put_slot in
        put_slot-IsOrdered n sn r s' events h p q under
          (λ g e. sym (ap (λ o. elim o as (λ _. ℕ) [ none ↦ 0 | some x ↦ key x ]) e) ∙ k)
          (Rising-free_frame key s.frame r.next_sn r.events h.3))

  -- A number ahead without data.
  pub placeholder-ordered :
      (n sn ts_us : ℕ) (r : Reorder)
      → IsOrdered key n r.next_sn r
      → r.next_sn ≤ sn
      → sn < r.next_sn + 16
      → sn < sn_limit
      → has_frame (slot_at r sn).frame ≡ false
      → OrderedResult key n
          (some (start_gap ts_us (put_slot r sn (record (slot_at r sn) { placeholder = true }))))
  placeholder-ordered n sn ts_us r h p q under bare =
      let s' : ReorderSlot = record (slot_at r sn) { placeholder = true } in
      start_gap-ordered n ts_us (put_slot r sn s') (
        unfold put_slot has_frame in
        put_slot-IsOrdered n sn r s' r.events h p q under (λ g e. absurd (ground arith)) h.3)
