-- ===== src/Reorder/Jump.antt =====
-- ReorderEnqueue of src/session/goodtp_session.cpp where a frame lies beyond the buffer.
use udpfec.Base.{ℕ, zero, suc, ◌+◌, ◌%◌, ◌≡◌, ◌≤◌, ◌<◌, List, length}
use udpfec.Reorder.Buffer.{Reorder, Event, slot_at, hand_over, sn_mod, reorder_buf_size}

-- The events after the frames that a buffer holds for `n` numbers, from the one `i` after the next number on,
-- are handed over in the order of their numbers, and their buffers are freed.
abbrev pub handed : ℕ → ℕ → Reorder → List Event → List Event
handed zero i r events = events
handed (suc n) i r events =
    handed n (i + 1) r (hand_over (slot_at r ((r.next_sn + i) % sn_mod)).frame events)

-- From the number `i` after the next one on, the buffer holds what it held.
abbrev Holds : ℕ → Reorder → Reorder → Type 0
Holds i before r =
    (r.next_sn ≡ before.next_sn)
    × (length r.reorder_buf ≡ reorder_buf_size)
    × ((j : ℕ)
        → i ≤ j
        → j < reorder_buf_size
        → slot_at r ((before.next_sn + j) % sn_mod)
          ≡ slot_at before ((before.next_sn + j) % sn_mod))
