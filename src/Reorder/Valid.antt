-- ===== src/Reorder/Valid.antt =====
-- Every operation of the reorder buffer ends and keeps its invariant.
use udpfec.Base.{
  ℕ, zero, suc, ◌+◌, ◌≡◌, ◌<◌, refl, true, false, none, some, length, sum_by, arith, ◌==◌, ap, ◌∙◌,
  inl, inr, Bool-cases,
}
use mathlib.Core.Option
use udpfec.Reorder.Buffer.{
  ReorderSlot, Reorder, has_frame, occupied, any_occupied, slot_at, put_slot, empty_at, next,
  sn_mod, reorder_buf_size, flush_loop, restart_gap, reorder_flush, advance,
}
use udpfec.Reorder.Slots.{
  filled, framed, IsOwned, sum_by-put_slot, length-put_slot, hand_over-account, sum_by-filled_le,
  any_occupied-filled, filled-any_occupied,
}

-- What holds in the middle of an operation too.
abbrev pub IsSized : Reorder → Type 0
IsSized r = (length r.reorder_buf ≡ reorder_buf_size) × (r.next_sn < sn_mod) × IsOwned r

-- Between operations: the slot of the next sequence number is free, nothing waits before the first
-- packet, and the timer of the gap runs while something waits.
abbrev pub IsValid : Reorder → Type 0
IsValid r =
    IsSized r
    × (filled (slot_at r r.next_sn) ≡ 0)
    × (r.inited ≡ false → (sum_by filled r.reorder_buf ≡ 0) × (r.gap_since_us ≡ 0))
    × (0 < sum_by filled r.reorder_buf → 0 < r.gap_since_us)

-- A slot is emptied: it counts no more, and its buffer goes back.
pub empty_at-IsSized :
    (sn : ℕ) (r : Reorder)
    → IsSized r
    → IsSized (empty_at sn r)
      × (sum_by filled (empty_at sn r).reorder_buf + filled (slot_at r sn)
          ≡ sum_by filled r.reorder_buf)
unfolding empty_at occupied has_frame put_slot
empty_at-IsSized sn r (size, bound, owned) =
    let s = slot_at r sn in
    let s' : ReorderSlot = record s { frame = none; placeholder = false } in
    let (f, m) = hand_over-account s.frame r.events in
    let fill = sum_by-put_slot filled r sn s' size in
    let own = sum_by-put_slot framed r sn s' size in
    ((length-put_slot r sn s' ∙ size, bound, omega (arith, f, m, own, owned)), omega (arith, fill))

-- What the first loop of a flush leaves.
abbrev pub IsFlushed : Reorder → Reorder → Type 0
IsFlushed r r' =
    IsSized r'
    × (filled (slot_at r' r'.next_sn) ≡ 0)
    × (r'.inited ≡ r.inited)
    × (r'.gap_since_us ≡ r.gap_since_us)

flush_loop_full :
    (fuel : ℕ) (r : Reorder)
    → occupied (slot_at r r.next_sn) ≡ true
    → flush_loop (suc fuel) r ≡ flush_loop fuel (next (empty_at r.next_sn r))
unfolding flush_loop
flush_loop_full fuel r full = rw (full, flush_loop) refl

pub flush_loop-IsFlushed :
    (fuel : ℕ) (r : Reorder)
    → IsSized r
    → sum_by filled r.reorder_buf < fuel
    → (r' : Reorder) × (flush_loop fuel r ≡ some r') × IsFlushed r r'
unfolding next empty_at put_slot flush_loop
flush_loop-IsFlushed zero r sized h = absurd (omega arith)
flush_loop-IsFlushed (suc fuel) r sized h = elim (Bool-cases (occupied (slot_at r r.next_sn))) [
  | inr free ↦ (r, rw (free, flush_loop) refl, (sized, ground arith, refl, refl))
  | inl full ↦
      let ((size, bound, owned), count) = empty_at-IsSized r.next_sn r sized in
      let one : filled (slot_at r r.next_sn) ≡ 1 = ground arith in
      let (r', e, done) =
        flush_loop-IsFlushed fuel (next (empty_at r.next_sn r)) (size, omega arith, owned)
          (omega (arith, count, one)) in
      (r', flush_loop_full fuel r full ∙ e, done)
]

-- A flush ends with the gap's timer set for what still waits.
restart_gap-IsValid :
    (ts_us : ℕ) (r : Reorder)
    → 0 < ts_us
    → r.inited ≡ true
    → IsSized r
    → filled (slot_at r r.next_sn) ≡ 0
    → IsValid (restart_gap ts_us r)
unfolding restart_gap slot_at
restart_gap-IsValid ts_us r pos started sized free =
    let w = any_occupied-filled r.reorder_buf in
    let v = filled-any_occupied r.reorder_buf in
    elim (Bool-cases (any_occupied r.reorder_buf)) [
      | inr none_left ↦
          rw none_left
            (sized, free, (λ e. absurd (ground arith)), λ p. absurd (omega (arith, v none_left)))
      | inl some_left ↦ elim (Bool-cases (r.gap_since_us == 0)) [
        | inl off ↦ rw (some_left, off) (sized, free, (λ e. absurd (ground arith)), λ p. pos)
        | inr on ↦ rw (some_left, on) (sized, free, (λ e. absurd (ground arith)), λ p. ground arith)
      ]
    ]

-- From any state of sound size, moving past the next sequence number ends in a valid state.
pub advance-IsValid :
    (ts_us : ℕ) (r : Reorder)
    → 0 < ts_us
    → r.inited ≡ true
    → IsSized r
    → (r' : Reorder) × (advance ts_us r ≡ some r') × IsValid r'
unfolding advance reorder_flush next
advance-IsValid ts_us r pos started (size, bound, owned) =
    let r1 : Reorder = record (next r) { gap_since_us = 0 } in
    let (r2, e, (sized, free, i, g)) =
      flush_loop-IsFlushed 17 r1 (size, omega arith, owned)
        (omega (arith, sum_by-filled_le r.reorder_buf)) in
    (
      restart_gap ts_us r2,
      ap (Option.map (restart_gap ts_us)) e,
      restart_gap-IsValid ts_us r2 pos (i ∙ started) sized free,
    )
