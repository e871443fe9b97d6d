-- ===== src/Reorder/Buffer.antt =====
-- `ReorderClear`, `ReorderFlush`, `ReorderEnqueue` and the gap timeout of `GtpSession`
-- (src/session/goodtp_session.cpp), and `ReorderSlot` (src/session/goodtp_session.h). A null frame
-- is `none`. Whether `MallocTranBuf` gives a buffer is an argument.
use udpfec.Base.{
  ℕ, zero, suc, ◌+◌, ◌-◌, ◌/◌, ◌%◌, List, [], ◌∷◌, Bool, true, false, ◌||◌, ◌&&◌, not, Option, none,
  some, ltb, leb, ◌==◌, if◌then◌else◌, get_or, set, replicate,
}
use mathlib.Core.Option

abbrev pub reorder_buf_size : ℕ
reorder_buf_size = 16

abbrev pub sn_mod : ℕ
sn_mod = 4294967296

-- What `receive_frame_cb_` is given.
pub record Frame : Type 0 where
  pub content : List ℕ
  pub frame_size : ℕ
  pub tran_addr : ℕ

pub record ReorderSlot : Type 0 where
  pub frame : Option Frame
  pub placeholder : Bool
  pub arrive_ts_us : ℕ

abbrev pub empty_slot : ReorderSlot
empty_slot = record { frame = none; placeholder = false; arrive_ts_us = 0 }

-- The calls of the callback and of the pool that reserve and return buffers.
pub data Event : Type 0 where
  received : Frame → Event
  buf_malloced : Event
  buf_freed : Event

-- The members `reorder_*_` of `GtpSession`; the events are the newest first.
pub record Reorder : Type 0 where
  pub reorder_buf : List ReorderSlot
  pub next_sn : ℕ
  pub inited : Bool
  pub gap_since_us : ℕ
  pub events : List Event

abbrev pub fresh_reorder : Reorder
fresh_reorder = record {
  reorder_buf = replicate 16 empty_slot;
  next_sn = 0;
  inited = false;
  gap_since_us = 0;
  events = [];
}

unfoldable pub has_frame : Option Frame → Bool
has_frame none = false
has_frame (some f) = true

-- The negation of `NULL == slot.frame && 0 == slot.placeholder_`.
unfoldable pub occupied : ReorderSlot → Bool
unfolding has_frame
occupied s = has_frame s.frame || s.placeholder

unfoldable pub any_occupied : List ReorderSlot → Bool
any_occupied [] = false
any_occupied (s ∷ r) = occupied s || any_occupied r

unfoldable pub slot_at : Reorder → ℕ → ReorderSlot
slot_at r sn = get_or r.reorder_buf (sn % reorder_buf_size) empty_slot

unfoldable pub put_slot : Reorder → ℕ → ReorderSlot → Reorder
put_slot r sn s = record r { reorder_buf = set r.reorder_buf (sn % reorder_buf_size) s }

unfoldable pub receive : Frame → Reorder → Reorder
receive f r = record r { events = received f ∷ r.events }

-- Hands a buffered frame over and frees its buffer.
unfoldable pub hand_over : Option Frame → List Event → List Event
hand_over none events = events
hand_over (some f) events = buf_freed ∷ received f ∷ events

-- Frees the buffer of a frame.
unfoldable pub free_frame : Option Frame → List Event → List Event
free_frame none events = events
free_frame (some f) events = buf_freed ∷ events

-- Empties the slot of `sn` and hands its frame over.
unfoldable pub empty_at : ℕ → Reorder → Reorder
unfolding hand_over put_slot
empty_at sn r =
    let s = slot_at r sn in
    put_slot (record r { events = hand_over s.frame r.events }) sn
      (record s { frame = none; placeholder = false })

unfoldable pub next : Reorder → Reorder
next r = record r { next_sn = (r.next_sn + 1) % sn_mod }

-- The first loop of `ReorderFlush`, on fuel.
unfoldable pub flush_loop : ℕ → Reorder → Option Reorder
flush_loop zero r = none
flush_loop (suc fuel) r = elim (occupied (slot_at r r.next_sn)) [
  | false ↦ some r
  | true ↦ flush_loop fuel (next (empty_at r.next_sn r))
]

unfoldable pub restart_gap : ℕ → Reorder → Reorder
restart_gap ts_us r =
    if not (any_occupied r.reorder_buf)
    then record r { gap_since_us = 0 }
    else if r.gap_since_us == 0
    then record r { gap_since_us = ts_us }
    else r

unfoldable pub reorder_flush : ℕ → Reorder → Option Reorder
reorder_flush ts_us r = Option.map (restart_gap ts_us) (flush_loop (suc reorder_buf_size) r)

unfoldable pub advance : ℕ → Reorder → Option Reorder
unfolding next
advance ts_us r = reorder_flush ts_us (record (next r) { gap_since_us = 0 })

unfoldable pub start_gap : ℕ → Reorder → Reorder
start_gap ts_us r = if r.gap_since_us == 0 then record r { gap_since_us = ts_us } else r

-- A sequence number without data.
unfoldable pub skip_sn : Reorder → ℕ → ℕ → ℕ → Option Reorder
skip_sn r sn delta ts_us =
    let s = slot_at r sn in
    let held = start_gap ts_us (put_slot r sn (record s { placeholder = true })) in
    if delta == 0
    then advance ts_us r
    else if ltb delta reorder_buf_size
    then (if has_frame s.frame then some r else some held)
    else some r

-- From the label `reorder_buffer_slot_` on.
unfoldable pub buffer_slot : Bool → Reorder → ℕ → Frame → ℕ → Reorder
buffer_slot given r sn f ts_us =
    let s = slot_at r sn in
    let freed = record r { events = free_frame s.frame r.events } in
    if given
    then start_gap ts_us (
        put_slot (record freed { events = buf_malloced ∷ freed.events }) sn
          (record s { frame = some f; arrive_ts_us = ts_us }))
    else receive f (put_slot freed sn (record s { frame = none }))

-- The loop over the slots of `next_sn`, `next_sn + 1`, ...: `n` of them from `i` on.
unfoldable pub flush_window : ℕ → ℕ → Reorder → Reorder
flush_window zero i r = r
flush_window (suc n) i r = flush_window n (i + 1) (empty_at ((r.next_sn + i) % sn_mod) r)

-- Behind a gap that the buffer cannot bridge: what is buffered first, then the frame.
unfoldable pub jump : Reorder → ℕ → Frame → Reorder
unfolding next receive
jump r sn f =
    next (receive f (record (flush_window reorder_buf_size 0 r) { next_sn = sn; gap_since_us = 0 }))

-- `(u32)(sn - reorder_next_sn_)`; as a signed number it is negative from 2^31 on.
unfoldable pub distance : Reorder → ℕ → ℕ
distance r sn = (sn + sn_mod - r.next_sn) % sn_mod

abbrev pub is_negative : ℕ → Bool
is_negative delta = leb 2147483648 delta

-- `UINT32_MAX != first_sn_hint && first_sn_hint != sn`
unfoldable pub hint_differs : ℕ → ℕ → Bool
hint_differs sn first_sn_hint = not (first_sn_hint == 4294967295) && not (first_sn_hint == sn)

-- The fallback for large gaps, with the hint as the sequence number.
unfoldable pub hinted : Bool → Reorder → ℕ → Frame → ℕ → ℕ → Option Reorder
hinted given r sn f ts_us hint =
    let delta = distance r hint in
    if is_negative delta
    then some r
    else if delta == 0
    then advance ts_us (receive f r)
    else if ltb delta reorder_buf_size
    then some (buffer_slot given r hint f ts_us)
    else some (jump r hint f)

unfoldable pub large_gap : Bool → Reorder → ℕ → Frame → ℕ → ℕ → Option Reorder
large_gap given r sn f ts_us hint =
    if hint_differs sn hint then hinted given r sn f ts_us hint else some (jump r sn f)

-- A frame that is not behind `next_sn`.
unfoldable pub accept : Bool → Reorder → ℕ → Frame → ℕ → ℕ → Option Reorder
accept given r sn f ts_us hint =
    let delta = distance r sn in
    if delta == 0
    then advance ts_us (receive f r)
    else if leb reorder_buf_size delta
    then large_gap given r sn f ts_us hint
    else some (buffer_slot given r sn f ts_us)

-- A frame is keyed on its hint.
unfoldable pub rekey : ℕ → ℕ → ℕ
rekey sn hint = if hint_differs sn hint then hint else sn

unfoldable pub init_sn : ℕ → Reorder → Reorder
init_sn sn r = if r.inited then r else record r { next_sn = sn; inited = true }

unfoldable pub enqueue_frame : Bool → Reorder → ℕ → Option Frame → ℕ → ℕ → Option Reorder
enqueue_frame given r sn none ts_us hint =
    if is_negative (distance r sn) then some r else skip_sn r sn (distance r sn) ts_us
enqueue_frame given r sn (some f) ts_us hint =
    let sn = rekey sn hint in
    if is_negative (distance r sn) then some r else accept given r sn f ts_us hint

unfoldable pub reorder_enqueue : Bool → Reorder → ℕ → Option Frame → ℕ → ℕ → Option Reorder
reorder_enqueue given r sn frame ts_us hint = enqueue_frame given (init_sn sn r) sn frame ts_us hint

unfoldable pub free_slots : List ReorderSlot → List Event → List Event
free_slots [] events = events
free_slots (s ∷ r) events = free_slots r (free_frame s.frame events)

unfoldable pub clear_slots : List ReorderSlot → List ReorderSlot
clear_slots [] = []
clear_slots (s ∷ r) = record s { frame = none; placeholder = false } ∷ clear_slots r

unfoldable pub reorder_clear : Reorder → Reorder
reorder_clear r = record {
  reorder_buf = clear_slots r.reorder_buf;
  next_sn = 0;
  inited = false;
  gap_since_us = 0;
  events = free_slots r.reorder_buf r.events;
}

-- The gap timeout of the session's timer: at most half a second, at least 13 ms.
unfoldable pub gap_timeout_us : ℕ → ℕ
gap_timeout_us data_pack_pps =
    let timeout_us = 2000000 / (if data_pack_pps == 0 then 1 else data_pack_pps) in
    let floored = if ltb timeout_us 13000 then 13000 else timeout_us in
    if ltb 500000 floored then 500000 else floored

unfoldable pub gap_tick : Reorder → ℕ → ℕ → Option Reorder
gap_tick r ts_us data_pack_pps =
    let waited = (ts_us + 18446744073709551616 - r.gap_since_us) % 18446744073709551616 in
    if not (r.gap_since_us == 0) && leb (gap_timeout_us data_pack_pps) waited
    then advance ts_us r
    else some r
