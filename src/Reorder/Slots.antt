-- ===== src/Reorder/Slots.antt =====
-- The slots of the reorder buffer counted: how many are occupied, how many hold a frame.
use udpfec.Base.{
  ℕ, suc, ◌+◌, ◌%◌, ◌≡◌, ◌≢◌, ◌≤◌, refl, List, [], ◌∷◌, Bool, false, Option, none, some, length,
  sum_by, sum_by-set, length-set, get_or-set_self, get_or-set_ne, arith, if◌then◌else◌, ap, ◌∙◌,
}
use udpfec.Reorder.Buffer.{
  ReorderSlot, Reorder, Frame, Event, received, buf_malloced, buf_freed, empty_slot, has_frame,
  occupied, any_occupied, slot_at, put_slot, hand_over, free_frame, reorder_buf_size, free_slots,
  clear_slots,
}

abbrev pub weight : Bool → ℕ
weight b = if b then 1 else 0

-- 1 for a slot that a flush does not stop at.
abbrev pub filled : ReorderSlot → ℕ
filled s = weight (occupied s)

-- 1 for a slot that owns a buffer.
abbrev pub framed : ReorderSlot → ℕ
framed s = weight (has_frame s.frame)

pub any_occupied-filled : (l : List ReorderSlot) → weight (any_occupied l) ≤ sum_by filled l
unfolding any_occupied
any_occupied-filled [] = omega arith
any_occupied-filled (s ∷ r) = let rest = any_occupied-filled r in ground arith

pub filled-any_occupied : (l : List ReorderSlot) → any_occupied l ≡ false → sum_by filled l ≡ 0
unfolding any_occupied
filled-any_occupied [] h = refl
filled-any_occupied (s ∷ r) h = let rest = filled-any_occupied r in ground arith

pub sum_by-filled_le : (l : List ReorderSlot) → sum_by filled l ≤ length l
sum_by-filled_le [] = omega arith
sum_by-filled_le (s ∷ r) = let rest = sum_by-filled_le r in ground arith

-- A weight at a write to the slot of `sn`, in a buffer of full size.
pub sum_by-put_slot :
    (f : ReorderSlot → ℕ) (r : Reorder) (sn : ℕ) (s : ReorderSlot)
    → length r.reorder_buf ≡ reorder_buf_size
    → sum_by f (put_slot r sn s).reorder_buf + f (slot_at r sn) ≡ sum_by f r.reorder_buf + f s
unfolding put_slot slot_at
sum_by-put_slot f r sn s h =
    sum_by-set f r.reorder_buf (sn % reorder_buf_size) s empty_slot (omega arith)

pub length-put_slot :
    (r : Reorder) (sn : ℕ) (s : ReorderSlot)
    → length (put_slot r sn s).reorder_buf ≡ length r.reorder_buf
unfolding put_slot
length-put_slot r sn s = length-set r.reorder_buf (sn % reorder_buf_size) s

pub slot_at-put_slot_self :
    (r : Reorder) (sn : ℕ) (s : ReorderSlot)
    → length r.reorder_buf ≡ reorder_buf_size
    → slot_at (put_slot r sn s) sn ≡ s
unfolding put_slot slot_at
slot_at-put_slot_self r sn s h =
    get_or-set_self r.reorder_buf (sn % reorder_buf_size) s empty_slot (omega arith)

pub slot_at-put_slot_ne :
    (r : Reorder) (sn other : ℕ) (s : ReorderSlot)
    → sn % reorder_buf_size ≢ other % reorder_buf_size
    → slot_at (put_slot r sn s) other ≡ slot_at r other
unfolding put_slot slot_at
slot_at-put_slot_ne r sn other s h =
    get_or-set_ne r.reorder_buf (sn % reorder_buf_size) (other % reorder_buf_size) s empty_slot h

-- Buffers reserved and returned.
unfoldable pub malloced : List Event → ℕ
malloced [] = 0
malloced (buf_malloced ∷ r) = suc (malloced r)
malloced (buf_freed ∷ r) = malloced r
malloced (received f ∷ r) = malloced r

unfoldable pub freed : List Event → ℕ
freed [] = 0
freed (buf_malloced ∷ r) = freed r
freed (buf_freed ∷ r) = suc (freed r)
freed (received f ∷ r) = freed r

-- Every buffer is in a slot or was returned.
abbrev pub IsOwned : Reorder → Type 0
IsOwned r = sum_by framed r.reorder_buf + freed r.events ≡ malloced r.events

pub hand_over-account :
    (f : Option Frame) (events : List Event)
    → (freed (hand_over f events) ≡ freed events + weight (has_frame f))
      × (malloced (hand_over f events) ≡ malloced events)
unfolding freed malloced hand_over has_frame
hand_over-account none events = (omega arith, refl)
hand_over-account (some f) events = (omega arith, refl)

pub free_frame-account :
    (f : Option Frame) (events : List Event)
    → (freed (free_frame f events) ≡ freed events + weight (has_frame f))
      × (malloced (free_frame f events) ≡ malloced events)
unfolding freed malloced free_frame has_frame
free_frame-account none events = (omega arith, refl)
free_frame-account (some f) events = (omega arith, refl)

pub clear_slots-length : (l : List ReorderSlot) → length (clear_slots l) ≡ length l
unfolding clear_slots
clear_slots-length [] = refl
clear_slots-length (s ∷ r) = ap suc (clear_slots-length r)

pub clear_slots-account :
    (l : List ReorderSlot) (events : List Event)
    → (freed (free_slots l events) ≡ freed events + sum_by framed l)
      × (malloced (free_slots l events) ≡ malloced events)
      × (sum_by framed (clear_slots l) ≡ 0)
      × (sum_by filled (clear_slots l) ≡ 0)
unfolding free_slots clear_slots has_frame occupied
clear_slots-account [] events = (omega arith, refl, refl, refl)
clear_slots-account (s ∷ r) events =
    let (a, b, c, d) = clear_slots-account r (free_frame s.frame events) in
    let (e, f) = free_frame-account s.frame events in
    (omega (arith, a, e), b ∙ f, omega (arith, c), omega (arith, d))
