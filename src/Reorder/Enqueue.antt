-- ===== src/Reorder/Enqueue.antt =====
-- `ReorderEnqueue`, `ReorderClear` and the gap timeout keep the invariant of the reorder buffer.
use udpfec.Base.{
  ℕ, zero, suc, ◌+◌, ◌-◌, ◌%◌, ◌≡◌, ◌≢◌, ◌<◌, ◌≤◌, refl, sym, List, ◌∷◌, Bool, true, false, Option,
  none, some, sum_by, sum_by_zero, get_or, arith, ◌==◌, ap, ◌∙◌, inl, inr, Bool-cases,
}
use mathlib.Core.Path.{subst}
use udpfec.Reorder.Buffer.{
  ReorderSlot, Reorder, Frame, Event, received, buf_malloced, empty_slot, has_frame, occupied,
  slot_at, put_slot, free_frame, empty_at, sn_mod, reorder_buf_size, receive, start_gap,
  buffer_slot, flush_window, distance,
}
use udpfec.Reorder.Slots.{
  filled, framed, sum_by-put_slot, length-put_slot, slot_at-put_slot_self, slot_at-put_slot_ne,
  free_frame-account, malloced, freed,
}
use udpfec.Reorder.Valid.{IsSized, IsValid, empty_at-IsSized}

-- An operation ends in a valid state.
abbrev pub EndsValid : Option Reorder → Type 0
EndsValid o = (r' : Reorder) × (o ≡ some r') × IsValid r'

-- Two sequence numbers that are less than the buffer apart have different slots.
pub distance_slots :
    (r : Reorder) (sn : ℕ)
    → r.next_sn < sn_mod
    → sn < sn_mod
    → 0 < distance r sn
    → distance r sn < reorder_buf_size
    → sn % reorder_buf_size ≢ r.next_sn % reorder_buf_size
unfolding distance
distance_slots r sn b c p q e = omega arith

pub start_gap-IsValid :
    (ts_us : ℕ) (r : Reorder)
    → 0 < ts_us
    → r.inited ≡ true
    → IsSized r
    → filled (slot_at r r.next_sn) ≡ 0
    → IsValid (start_gap ts_us r)
unfolding start_gap slot_at
start_gap-IsValid ts_us r pos started sized free = elim (Bool-cases (r.gap_since_us == 0)) [
  | inl off ↦ rw off (sized, free, (λ e. absurd (ground arith)), λ p. pos)
  | inr on ↦ rw on (sized, free, (λ e. absurd (ground arith)), λ p. ground arith)
]

-- A slot other than the next one is written, with its buffer accounted for.
pub put_slot-IsSized :
    (r : Reorder) (sn : ℕ) (s : ReorderSlot) (events : List Event)
    → IsSized r
    → freed events + framed s + malloced r.events
      ≡ freed r.events + framed (slot_at r sn) + malloced events
    → IsSized (put_slot (record r { events = events }) sn s)
unfolding put_slot slot_at
put_slot-IsSized r sn s events (size, bound, owned) h =
    let own = sum_by-put_slot framed r sn s size in
    (length-put_slot r sn s ∙ size, bound, omega (arith, own, owned, h))

pub put_slot-free :
    (r : Reorder) (sn : ℕ) (s : ReorderSlot) (events : List Event)
    → sn % reorder_buf_size ≢ r.next_sn % reorder_buf_size
    → filled (slot_at r r.next_sn) ≡ 0
    → filled (slot_at (put_slot (record r { events = events }) sn s) r.next_sn) ≡ 0
put_slot-free r sn s events ne free =
    ap filled (slot_at-put_slot_ne (record r { events = events }) sn r.next_sn s ne)
    ∙ unfold slot_at in free

pub buffer_slot-IsValid :
    (given : Bool) (r : Reorder) (sn : ℕ) (f : Frame) (ts_us : ℕ)
    → IsValid r
    → r.inited ≡ true
    → 0 < ts_us
    → sn < sn_mod
    → 0 < distance r sn
    → distance r sn < reorder_buf_size
    → IsValid (buffer_slot given r sn f ts_us)
unfolding buffer_slot
buffer_slot-IsValid true r sn f ts_us (sized, free, idle, timed) started pos b p q =
    let s = slot_at r sn in
    let s' : ReorderSlot = record s { frame = some f; arrive_ts_us = ts_us } in
    let (fr, m) = free_frame-account s.frame r.events in
    let events = buf_malloced ∷ free_frame s.frame r.events in
    let ne = distance_slots r sn sized.1 b p q in
    unfold put_slot in
    start_gap-IsValid ts_us (put_slot (record r { events = events }) sn s') pos started
      (put_slot-IsSized r sn s' events sized
        (unfold freed malloced has_frame in omega (arith, fr, m)))
      (put_slot-free r sn s' events ne free)
buffer_slot-IsValid false r sn f ts_us (sized, free, idle, timed) started pos b p q =
    let s = slot_at r sn in
    let s' : ReorderSlot = record s { frame = none } in
    let (fr, m) = free_frame-account s.frame r.events in
    let ne = distance_slots r sn sized.1 b p q in
    let less : filled s' ≤ filled s = unfold occupied has_frame in ground arith in
    let fill = sum_by-put_slot filled r sn s' sized.0 in
    unfold put_slot receive in
    (
      put_slot-IsSized r sn s' (received f ∷ free_frame s.frame r.events) sized
          (unfold freed malloced has_frame in omega (arith, fr, m)),
      put_slot-free r sn s' (received f ∷ free_frame s.frame r.events) ne free,
      (λ e. absurd (ground arith)),
      λ h. timed (omega (arith, fill, less)),
    )

-- `n` slots from `i` on are emptied, and those that are empty stay so.
pub flush_window-IsSized : (n i : ℕ) (r : Reorder) → IsSized r → IsSized (flush_window n i r)
unfolding flush_window
flush_window-IsSized zero i r h = h
flush_window-IsSized (suc n) i r h =
    flush_window-IsSized n (i + 1) (empty_at ((r.next_sn + i) % sn_mod) r)
      (empty_at-IsSized ((r.next_sn + i) % sn_mod) r h).0

empty_at-empties : (sn : ℕ) (r : Reorder) → IsSized r → filled (slot_at (empty_at sn r) sn) ≡ 0
unfolding empty_at occupied has_frame
empty_at-empties sn r sized = ap filled (slot_at-put_slot_self _ sn _ (unfold put_slot in sized.0))

slot_at-same :
    (r : Reorder) (j k : ℕ)
    → j % reorder_buf_size ≡ k % reorder_buf_size
    → slot_at r j ≡ slot_at r k
unfolding slot_at
slot_at-same r j k e = ap (λ i. get_or r.reorder_buf i empty_slot) e

empty_at-stays :
    (sn k : ℕ) (r : Reorder)
    → IsSized r
    → filled (slot_at r k) ≡ 0
    → filled (slot_at (empty_at sn r) k) ≡ 0
empty_at-stays sn k r sized h = elim (Bool-cases (sn % reorder_buf_size == k % reorder_buf_size)) [
  | inl same ↦
      ap filled (sym (slot_at-same (empty_at sn r) sn k (ground arith)))
      ∙ empty_at-empties sn r sized
  | inr other ↦
      unfold empty_at slot_at put_slot in
      ap filled (slot_at-put_slot_ne r sn k _ (λ e. ground arith)) ∙ h
]

flush_window-stays :
    (n i k : ℕ) (r : Reorder)
    → IsSized r
    → filled (slot_at r k) ≡ 0
    → filled (slot_at (flush_window n i r) k) ≡ 0
unfolding flush_window
flush_window-stays zero i k r sized h = h
flush_window-stays (suc n) i k r sized h =
    let sn = (r.next_sn + i) % sn_mod in
    flush_window-stays n (i + 1) k (empty_at sn r) (empty_at-IsSized sn r sized).0
      (empty_at-stays sn k r sized h)

flush_window-empties :
    (n i j : ℕ) (r : Reorder)
    → IsSized r
    → j < n
    → filled (slot_at (flush_window n i r) ((r.next_sn + (i + j)) % sn_mod)) ≡ 0
unfolding flush_window empty_at put_slot
flush_window-empties zero i j r sized h = absurd (omega arith)
flush_window-empties (suc n) i zero r sized h =
    let sn = (r.next_sn + i) % sn_mod in
    let e : i + zero ≡ i = omega arith in
    rw e (
      flush_window-stays n (i + 1) sn (empty_at sn r) (empty_at-IsSized sn r sized).0
        (empty_at-empties sn r sized))
flush_window-empties (suc n) i (suc j) r sized h =
    let sn = (r.next_sn + i) % sn_mod in
    let e : i + suc j ≡ i + 1 + j = omega arith in
    rw e (
      flush_window-empties n (i + 1) j (empty_at sn r) (empty_at-IsSized sn r sized).0
        (omega arith))

-- The flush before a jump leaves no slot occupied.
pub flush_window_all :
    (r : Reorder) → IsSized r → sum_by filled (flush_window reorder_buf_size 0 r).reorder_buf ≡ 0
flush_window_all r sized =
    let r' = flush_window reorder_buf_size 0 r in
    let sized' = flush_window-IsSized reorder_buf_size 0 r sized in
    sum_by_zero filled r'.reorder_buf empty_slot (λ idx h.
      let j = (idx + reorder_buf_size - r.next_sn % reorder_buf_size) % reorder_buf_size in
      let e : (r.next_sn + (0 + j)) % sn_mod % reorder_buf_size ≡ idx = omega (arith, h, sized') in
      subst (λ i. filled (get_or r'.reorder_buf i empty_slot) ≡ 0) e
        (unfold slot_at in flush_window-empties reorder_buf_size 0 j r sized (omega arith)))

pub flush_window-inited : (n i : ℕ) (r : Reorder) → (flush_window n i r).inited ≡ r.inited
unfolding flush_window empty_at put_slot
flush_window-inited zero i r = refl
flush_window-inited (suc n) i r =
    flush_window-inited n (i + 1) (empty_at ((r.next_sn + i) % sn_mod) r)
