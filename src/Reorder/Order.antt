-- ===== src/Reorder/Order.antt =====
-- The order in which the reorder buffer hands frames over.
use udpfec.Base.{
  ℕ, zero, suc, ◌+◌, ◌-◌, ◌%◌, ◌≡◌, ◌≢◌, ◌<◌, ◌≤◌, refl, sym, List, [], ◌∷◌, true, false, Option,
  none, some, length, get_or, set, get_or-set_self, get_or-set_ne, length-set, arith, ◌==◌, ap, ◌∙◌,
  ◌||◌, inl, inr, Bool-cases,
}
use mathlib.Core.Option
use mathlib.Core.Path.{subst}
use udpfec.Reorder.Buffer.{
  ReorderSlot, Reorder, Frame, Event, received, buf_malloced, buf_freed, empty_slot, has_frame,
  occupied, any_occupied, slot_at, put_slot, hand_over, free_frame, empty_at, next, sn_mod,
  flush_loop, restart_gap, reorder_flush, advance,
}

-- The slots as a window: the sequence number that slot `i` stands for.
unfoldable pub position : ℕ → ℕ → ℕ
position next_sn i = next_sn + (i + 16 - next_sn % 16) % 16

abbrev pub sn_limit : ℕ
sn_limit = 1073741824

position_next :
    (next_sn i : ℕ) → i < 16 → i ≢ next_sn % 16 → position (next_sn + 1) i ≡ position next_sn i
unfolding position
position_next next_sn i p ne = omega (arith, ne)

pub occupied_frame : (s : ReorderSlot) (f : Frame) → s.frame ≡ some f → occupied s ≡ true
unfolding occupied has_frame
occupied_frame s f e = ap (λ o. has_frame o || s.placeholder) e

-- `key` reads a frame's sequence number.
module _ (key : Frame → ℕ) where
  -- The frames handed over, the newest first, have falling numbers below `b`.
  abbrev pub Rising : ℕ → List Event → Type 0
  Rising b [] = Unit {0}
  Rising b (received f ∷ r) = (key f < b) × Rising (key f) r
  Rising b (buf_malloced ∷ r) = Rising b r
  Rising b (buf_freed ∷ r) = Rising b r

  pub Rising-weaken : (b c : ℕ) (l : List Event) → b ≤ c → Rising b l → Rising c l
  Rising-weaken b c [] h p = tt
  Rising-weaken b c (received f ∷ r) h p = (omega (arith, p.0), p.1)
  Rising-weaken b c (buf_malloced ∷ r) h p = Rising-weaken b c r h p
  Rising-weaken b c (buf_freed ∷ r) h p = Rising-weaken b c r h p

  -- Every slot in use stands for a number under the limit, and holds the frame of that number.
  abbrev pub IsKeyed : ℕ → List ReorderSlot → Type 0
  IsKeyed next_sn buf =
      ((i : ℕ) → i < 16 → occupied (get_or buf i empty_slot) ≡ true → position next_sn i < sn_limit)
      × ((i : ℕ) (f : Frame)
          → i < 16
          → (get_or buf i empty_slot).frame ≡ some f
          → key f ≡ position next_sn i)

  -- `n` is the number of operations so far, each of which may skip one number; the numbering has
  -- started.
  abbrev pub IsOrdered : ℕ → ℕ → Reorder → Type 0
  IsOrdered n b r =
      (length r.reorder_buf ≡ 16)
      × (r.next_sn ≤ sn_limit + n)
      × IsKeyed r.next_sn r.reorder_buf
      × Rising b r.events
      × (r.inited ≡ true)

  -- The next number is passed; its slot is not in use.
  pub IsKeyed-next :
      (next_sn : ℕ) (buf : List ReorderSlot)
      → IsKeyed next_sn buf
      → occupied (get_or buf (next_sn % 16) empty_slot) ≡ false
      → IsKeyed (next_sn + 1) buf
  IsKeyed-next next_sn buf (low, keyed) free = (
    (λ i p o. rw (position_next next_sn i p (other i o)) (low i p o)),
    λ i f p e. keyed i f p e ∙ sym (position_next next_sn i p (other i (occupied_frame _ f e))),
  )
    where
      other : (i : ℕ) → occupied (get_or buf i empty_slot) ≡ true → i ≢ next_sn % 16
      other i o e =
          let used : occupied (get_or buf (next_sn % 16) empty_slot) ≡ true =
            subst (λ x. occupied (get_or buf x empty_slot) ≡ true) e o in
          absurd (ground arith)

  -- A slot is written.
  pub IsKeyed-set :
      (next_sn : ℕ) (buf : List ReorderSlot) (j : ℕ) (s : ReorderSlot)
      → length buf ≡ 16
      → j < 16
      → IsKeyed next_sn buf
      → (occupied s ≡ true → position next_sn j < sn_limit)
      → ((f : Frame) → s.frame ≡ some f → key f ≡ position next_sn j)
      → IsKeyed next_sn (set buf j s)
  IsKeyed-set next_sn buf j s size h (low, keyed) new_low new_key = (low', keyed')
    where
      low' :
          (i : ℕ)
          → i < 16
          → occupied (get_or (set buf j s) i empty_slot) ≡ true
          → position next_sn i < sn_limit
      low' i p = elim (Bool-cases (j == i)) [
        | inl same ↦
            let e : j ≡ i = ground arith in
            subst
              (λ x.
                occupied (get_or (set buf j s) x empty_slot) ≡ true → position next_sn x < sn_limit)
              e
              (λ o. new_low (
                subst (λ x. occupied x ≡ true)
                  (get_or-set_self buf j s empty_slot (omega (arith, size))) o))
        | inr other ↦ λ o. low i p (
            subst (λ x. occupied x ≡ true) (get_or-set_ne buf j i s empty_slot (λ e. ground arith))
              o)
      ]

      keyed' :
          (i : ℕ) (f : Frame)
          → i < 16
          → (get_or (set buf j s) i empty_slot).frame ≡ some f
          → key f ≡ position next_sn i
      keyed' i f p = elim (Bool-cases (j == i)) [
        | inl same ↦
            let e : j ≡ i = ground arith in
            subst
              (λ x. (get_or (set buf j s) x empty_slot).frame ≡ some f → key f ≡ position next_sn x)
              e
              (λ o. new_key f (
                subst (λ (x : ReorderSlot). x.frame ≡ some f)
                  (get_or-set_self buf j s empty_slot (omega (arith, size))) o))
        | inr other ↦ λ o. keyed i f p (
            subst (λ (x : ReorderSlot). x.frame ≡ some f)
              (get_or-set_ne buf j i s empty_slot (λ e. ground arith)) o)
      ]

  -- A frame or nothing is handed over from the slot of `b`.
  Rising-hand_over :
      (o : Option Frame) (b : ℕ) (l : List Event)
      → ((f : Frame) → o ≡ some f → key f ≡ b)
      → Rising b l
      → Rising (b + 1) (hand_over o l)
  unfolding hand_over
  Rising-hand_over none b l k h = Rising-weaken b (b + 1) l (omega arith) h
  Rising-hand_over (some f) b l k h =
      (omega (arith, k f refl), subst (λ x. Rising x l) (sym (k f refl)) h)

  pub Rising-free_frame :
      (o : Option Frame) (b : ℕ) (l : List Event) → Rising b l → Rising b (free_frame o l)
  unfolding free_frame
  Rising-free_frame none b l h = h
  Rising-free_frame (some f) b l h = h

  -- A slot is emptied whose number is `sn`, next after what was handed over.
  pub empty_at-IsKeyed :
      (sn : ℕ) (r : Reorder)
      → length r.reorder_buf ≡ 16
      → position r.next_sn (sn % 16) ≡ sn
      → IsKeyed r.next_sn r.reorder_buf
      → Rising sn r.events
      → IsKeyed r.next_sn (empty_at sn r).reorder_buf × Rising (sn + 1) (empty_at sn r).events
  unfolding empty_at put_slot slot_at occupied has_frame
  empty_at-IsKeyed sn r size at keyed rising =
      let s = get_or r.reorder_buf (sn % 16) empty_slot in
      (
        IsKeyed-set r.next_sn r.reorder_buf (sn % 16)
            (record s { frame = none; placeholder = false }) size (omega arith) keyed
            (λ o. absurd (ground arith)) (λ f e. absurd (ground arith)),
        Rising-hand_over s.frame sn r.events (λ f e. keyed.1 (sn % 16) f (omega arith) e ∙ at)
            rising,
      )

  -- A result of an operation, if there is one.
  abbrev pub OrderedResult : ℕ → Option Reorder → Type 0
  OrderedResult n none = Unit {0}
  OrderedResult n (some r) = IsOrdered n r.next_sn r

  occupied-empty_at :
      (sn : ℕ) (r : Reorder)
      → length r.reorder_buf ≡ 16
      → occupied (get_or (empty_at sn r).reorder_buf (sn % 16) empty_slot) ≡ false
  unfolding empty_at put_slot occupied has_frame
  occupied-empty_at sn r size =
      ap occupied (get_or-set_self r.reorder_buf (sn % 16) _ empty_slot (omega (arith, size)))

  -- The next number is passed, its slot free.
  next-IsOrdered :
      (n : ℕ) (r : Reorder)
      → n ≤ sn_limit
      → r.next_sn + 1 ≤ sn_limit + n
      → occupied (slot_at r r.next_sn) ≡ false
      → IsOrdered n (r.next_sn + 1) r
      → IsOrdered n (next r).next_sn (next r)
  unfolding next slot_at
  next-IsOrdered n r small bound free (size, low, keyed, rising, on) =
      let e : (r.next_sn + 1) % sn_mod ≡ r.next_sn + 1 = omega arith in
      rw e (size, bound, IsKeyed-next r.next_sn r.reorder_buf keyed free, rising, on)

  flush_step-IsOrdered :
      (n : ℕ) (r : Reorder)
      → n ≤ sn_limit
      → occupied (slot_at r r.next_sn) ≡ true
      → IsOrdered n r.next_sn r
      → let r' = next (empty_at r.next_sn r) in IsOrdered n r'.next_sn r'
  unfolding slot_at empty_at put_slot
  flush_step-IsOrdered n r small used (size, low, keyed, rising, on) =
      let at : position r.next_sn (r.next_sn % 16) ≡ r.next_sn = unfold position in omega arith in
      let under = keyed.0 (r.next_sn % 16) (omega arith) used in
      let (keyed', rising') = empty_at-IsKeyed r.next_sn r size at keyed rising in
      next-IsOrdered n (empty_at r.next_sn r) small (omega (arith, at, under))
        (occupied-empty_at r.next_sn r size)
        (length-set r.reorder_buf (r.next_sn % 16) _ ∙ size, low, keyed', rising', on)

  flush_loop-ordered :
      (fuel n : ℕ) (r : Reorder)
      → n ≤ sn_limit
      → IsOrdered n r.next_sn r
      → OrderedResult n (flush_loop fuel r)
  unfolding flush_loop
  flush_loop-ordered zero n r small h = tt
  flush_loop-ordered (suc fuel) n r small h = elim (Bool-cases (occupied (slot_at r r.next_sn))) [
    | inr free ↦ rw (free, flush_loop) h
    | inl used ↦
        rw (used, flush_loop)
          (flush_loop-ordered fuel n (next (empty_at r.next_sn r)) small
            (flush_step-IsOrdered n r small used h))
  ]

  restart_gap-ordered :
      (n ts_us : ℕ) (o : Option Reorder)
      → OrderedResult n o
      → OrderedResult n (Option.map (restart_gap ts_us) o)
  unfolding restart_gap
  restart_gap-ordered n ts_us none h = tt
  restart_gap-ordered n ts_us (some r) h = elim (Bool-cases (any_occupied r.reorder_buf)) [
    | inr none_left ↦ rw none_left h
    | inl some_left ↦ elim (Bool-cases (r.gap_since_us == 0)) [
      | inl off ↦ rw (some_left, off) h
      | inr on ↦ rw (some_left, on) h
    ]
  ]

  -- Moving past the next number, whose slot is free, keeps the order.
  pub advance-ordered :
      (n ts_us : ℕ) (r : Reorder)
      → n ≤ sn_limit
      → r.next_sn + 1 ≤ sn_limit + n
      → occupied (slot_at r r.next_sn) ≡ false
      → IsOrdered n (r.next_sn + 1) r
      → OrderedResult n (advance ts_us r)
  unfolding advance reorder_flush next
  advance-ordered n ts_us r small bound free h =
      restart_gap-ordered n ts_us (flush_loop 17 (record (next r) { gap_since_us = 0 })) (
        flush_loop-ordered 17 n (record (next r) { gap_since_us = 0 }) small
          (next-IsOrdered n r small bound free h))
