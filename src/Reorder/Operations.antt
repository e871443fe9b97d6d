-- ===== src/Reorder/Operations.antt =====
-- The operations of the reorder buffer end in valid states.
use udpfec.Base.{
  ℕ, ◌+◌, ◌-◌, ◌%◌, ◌≡◌, ◌<◌, refl, sym, Bool, true, false, Option, none, some, length, sum_by,
  sum_by-get_or, arith, ltb, leb, ◌==◌, if◌then◌else◌, ap, ◌∙◌, inl, inr, Bool-cases, not, ◌&&◌,
}
use mathlib.Core.Path.{subst}
use udpfec.Reorder.Buffer.{
  ReorderSlot, Reorder, Frame, empty_slot, has_frame, slot_at, put_slot, next, sn_mod,
  reorder_buf_size, advance, receive, skip_sn, flush_window, jump, distance, is_negative,
  hint_differs, hinted, large_gap, accept, rekey, init_sn, enqueue_frame, reorder_enqueue,
  reorder_clear, gap_tick, gap_timeout_us,
}
use udpfec.Reorder.Slots.{filled, malloced, freed, clear_slots-length, clear_slots-account}
use udpfec.Reorder.Valid.{IsValid, advance-IsValid}
use udpfec.Reorder.Enqueue.{
  EndsValid, start_gap-IsValid, put_slot-IsSized, put_slot-free, distance_slots,
  buffer_slot-IsValid, flush_window-IsSized, flush_window_all, flush_window-inited,
}

-- An operation that has started the numbering, at a time after 0.
module _ (given : Bool) (r : Reorder) (ts_us : ℕ) (valid : IsValid r) (started : r.inited ≡ true)
    (pos : 0 < ts_us) where
  receive-advance-IsValid : (f : Frame) → EndsValid (advance ts_us (receive f r))
  unfolding receive
  receive-advance-IsValid f =
      advance-IsValid ts_us (receive f r) pos started (unfold freed malloced in valid.0)

  jump-IsValid : (sn : ℕ) (f : Frame) → IsValid (jump r sn f)
  unfolding jump receive next
  jump-IsValid sn f =
      let (size, bound, owned) = flush_window-IsSized reorder_buf_size 0 r valid.0 in
      let none_left = flush_window_all r valid.0 in
      let started' = flush_window-inited reorder_buf_size 0 r ∙ started in
      (
        (size, omega arith, unfold freed malloced in owned),
        unfold slot_at in
            omega (
              arith,
              none_left,
              size,
              sum_by-get_or filled (flush_window reorder_buf_size 0 r).reorder_buf
                  ((sn + 1) % sn_mod % reorder_buf_size) empty_slot (omega (arith, size)),
            ),
        (λ e. absurd (ground (arith, started'))),
        λ h. absurd (omega (arith, none_left)),
      )

  skip_sn-IsValid : (sn : ℕ) → sn < sn_mod → EndsValid (skip_sn r sn (distance r sn) ts_us)
  unfolding skip_sn put_slot
  skip_sn-IsValid sn b =
      let s = slot_at r sn in
      let s' : ReorderSlot = record s { placeholder = true } in
      elim (Bool-cases (distance r sn == 0)) [
        | inl now ↦ rw now (advance-IsValid ts_us r pos started valid.0)
        | inr later ↦ elim (Bool-cases (ltb (distance r sn) reorder_buf_size)) [
          | inr far ↦ rw (later, far) (r, refl, valid)
          | inl near ↦ elim (Bool-cases (has_frame s.frame)) [
            | inl taken ↦ rw (later, near, taken) (r, refl, valid)
            | inr free ↦
                let ne = distance_slots r sn valid.0.1 b (ground arith) (ground arith) in
                rw (later, near, free)
                  (
                    _,
                    refl,
                    start_gap-IsValid ts_us (put_slot r sn s') pos started
                        (put_slot-IsSized r sn s' r.events valid.0 (omega arith))
                        (put_slot-free r sn s' r.events ne valid.1),
                  )
          ]
        ]
      ]

  hinted-IsValid :
      (sn : ℕ) (f : Frame) (hint : ℕ) → hint < sn_mod → EndsValid (hinted given r sn f ts_us hint)
  unfolding hinted
  hinted-IsValid sn f hint b = elim (Bool-cases (is_negative (distance r hint))) [
    | inl behind ↦ rw behind (r, refl, valid)
    | inr ahead ↦ elim (Bool-cases (distance r hint == 0)) [
      | inl now ↦ rw (ahead, now) (receive-advance-IsValid f)
      | inr later ↦ elim (Bool-cases (ltb (distance r hint) reorder_buf_size)) [
        | inr far ↦ rw (ahead, later, far) (_, refl, jump-IsValid hint f)
        | inl near ↦
            rw (ahead, later, near)
              (
                _,
                refl,
                buffer_slot-IsValid given r hint f ts_us valid started pos b (ground arith)
                    (ground arith),
              )
      ]
    ]
  ]

  accept-IsValid :
      (sn : ℕ) (f : Frame) (hint : ℕ)
      → sn < sn_mod
      → hint < sn_mod
      → EndsValid (accept given r sn f ts_us hint)
  unfolding accept large_gap
  accept-IsValid sn f hint b c = elim (Bool-cases (distance r sn == 0)) [
    | inl now ↦ rw (now) (receive-advance-IsValid f)
    | inr later ↦ elim (Bool-cases (leb reorder_buf_size (distance r sn))) [
      | inr near ↦
          rw (later, near)
            (
              _,
              refl,
              buffer_slot-IsValid given r sn f ts_us valid started pos b (ground arith)
                  (ground arith),
            )
      | inl far ↦ elim (Bool-cases (hint_differs sn hint)) [
        | inl other ↦ rw (later, far, other) (hinted-IsValid sn f hint c)
        | inr same ↦ rw (later, far, same) (_, refl, jump-IsValid sn f)
      ]
    ]
  ]

slot_at-filled :
    (r : Reorder) (sn : ℕ)
    → length r.reorder_buf ≡ reorder_buf_size
    → sum_by filled r.reorder_buf ≡ 0
    → filled (slot_at r sn) ≡ 0
unfolding slot_at
slot_at-filled r sn size none_left = omega (
  arith,
  none_left,
  sum_by-get_or filled r.reorder_buf (sn % reorder_buf_size) empty_slot (omega (arith, size)),
)

pub init_sn_started : (sn : ℕ) (r : Reorder) → r.inited ≡ true → init_sn sn r ≡ r
unfolding init_sn
init_sn_started sn r on = ap (λ b. if b then r else record r { next_sn = sn; inited = true }) on

pub init_sn-IsValid :
    (sn : ℕ) (r : Reorder)
    → IsValid r
    → sn < sn_mod
    → IsValid (init_sn sn r) × ((init_sn sn r).inited ≡ true)
unfolding init_sn slot_at
init_sn-IsValid sn r valid b = elim (Bool-cases r.inited) [
  | inl on ↦ subst (λ x. IsValid x × (x.inited ≡ true)) (sym (init_sn_started sn r on)) (valid, on)
  | inr off ↦
      let ((size, bound, owned), free, idle, timed) = valid in
      let none_left = (idle off).0 in
      rw off (
        (
          (
            (size, b, owned),
            unfold slot_at in slot_at-filled r sn size none_left,
            (λ e. absurd (ground arith)),
            λ h. absurd (omega (arith, none_left)),
          ),
          refl,
        ))
]

enqueue_frame-IsValid :
    (given : Bool) (r : Reorder) (sn : ℕ) (frame : Option Frame) (ts_us hint : ℕ)
    → IsValid r
    → r.inited ≡ true
    → sn < sn_mod
    → hint < sn_mod
    → 0 < ts_us
    → EndsValid (enqueue_frame given r sn frame ts_us hint)
unfolding enqueue_frame
enqueue_frame-IsValid given r sn none ts_us hint valid started b c pos =
    elim (Bool-cases (is_negative (distance r sn))) [
      | inl behind ↦ rw behind (r, refl, valid)
      | inr ahead ↦ rw ahead (skip_sn-IsValid given r ts_us valid started pos sn b)
    ]
enqueue_frame-IsValid given r sn (some f) ts_us hint valid started b c pos =
    let b' : rekey sn hint < sn_mod = unfold rekey in ground arith in
    elim (Bool-cases (is_negative (distance r (rekey sn hint)))) [
      | inl behind ↦ rw behind (r, refl, valid)
      | inr ahead ↦
          rw ahead (accept-IsValid given r ts_us valid started pos (rekey sn hint) f hint b' c)
    ]

pub reorder_enqueue-IsValid :
    (given : Bool) (r : Reorder) (sn : ℕ) (frame : Option Frame) (ts_us hint : ℕ)
    → IsValid r
    → sn < sn_mod
    → hint < sn_mod
    → 0 < ts_us
    → EndsValid (reorder_enqueue given r sn frame ts_us hint)
unfolding reorder_enqueue
reorder_enqueue-IsValid given r sn frame ts_us hint valid b c pos =
    let (valid', started) = init_sn-IsValid sn r valid b in
    enqueue_frame-IsValid given (init_sn sn r) sn frame ts_us hint valid' started b c pos

pub reorder_clear-IsValid : (r : Reorder) → IsValid r → IsValid (reorder_clear r)
unfolding reorder_clear slot_at
reorder_clear-IsValid r ((size, bound, owned), free, idle, timed) =
    let (f, m, framed_none, filled_none) = clear_slots-account r.reorder_buf r.events in
    let size' = clear_slots-length r.reorder_buf ∙ size in
    (
      (size', omega arith, omega (arith, f, m, framed_none, owned)),
      unfold slot_at in slot_at-filled (reorder_clear r) 0 size' filled_none,
      (λ e. (filled_none, refl)),
      λ h. absurd (omega (arith, filled_none)),
    )

pub gap_tick-IsValid :
    (r : Reorder) (ts_us pps : ℕ) → IsValid r → 0 < ts_us → EndsValid (gap_tick r ts_us pps)
unfolding gap_tick
gap_tick-IsValid r ts_us pps valid pos =
    let due =
      not (r.gap_since_us == 0)
      && leb (gap_timeout_us pps)
          ((ts_us + 18446744073709551616 - r.gap_since_us) % 18446744073709551616) in
    elim (Bool-cases due) [
      | inr wait ↦ rw wait (r, refl, valid)
      | inl late ↦ elim (Bool-cases r.inited) [
        | inl on ↦ rw late (advance-IsValid ts_us r pos on valid.0)
        | inr off ↦ let idle = (valid.2 off).1 in absurd (ground arith)
      ]
    ]

-- A frame is keyed on its hint before its distance is taken, so the fallback for large gaps never
-- applies.
pub large_gap-rekey :
    (given : Bool) (r : Reorder) (sn : ℕ) (f : Frame) (ts_us hint : ℕ)
    → large_gap given r (rekey sn hint) f ts_us hint ≡ some (jump r (rekey sn hint) f)
unfolding large_gap
large_gap-rekey given r sn f ts_us hint =
    let same : hint_differs (rekey sn hint) hint ≡ false =
      unfold rekey hint_differs in ground arith in
    rw same refl
