-- ===== src/Reorder/Tests.antt =====
-- Runs of the model of the reorder buffer at concrete inputs, and its theorems at such inputs.
use udpfec.Base.{
  false, refl, none, replicate, List, ◌<◌, sym, ap, ◌∙◌, ℕ, ◌≡◌, [], ◌∷◌, true, some, arith,
}
use udpfec.Reorder.Buffer.{
  Reorder, Frame, fresh_reorder, rekey, hint_differs, empty_slot, buf_malloced, buf_freed, received,
  hand_over, slot_at,
}
use udpfec.Reorder.Valid.{IsValid}
use udpfec.Reorder.History.{enqueue, clear, timer, act_all, act_all_fresh-IsValid}
use udpfec.Reorder.Order.{Rising, sn_limit}
use udpfec.Reorder.Rising.{act_all_fresh-Rising}
use udpfec.Reorder.Jump.{handed}

abbrev frame : ℕ → Frame
frame sn = record { content = sn ∷ []; frame_size = 1; tran_addr = 9 }

-- Packets 4294967295, 1 and 0, then a jump to 40, a timer tick and a clear.
act_all_fresh-IsValid_example :
    (r : Reorder) × (act_all
        (enqueue true 4294967295 (some (frame 4294967295)) 10 4294967295
          ∷ enqueue true 1 (some (frame 1)) 11 4294967295
          ∷ enqueue true 0 (some (frame 0)) 12 4294967295
          ∷ enqueue true 40 (some (frame 40)) 13 4294967295
          ∷ timer 500100 10
          ∷ clear
          ∷ [])
        fresh_reorder
      ≡ some r)
    × IsValid r
act_all_fresh-IsValid_example =
    act_all_fresh-IsValid
      (enqueue true 4294967295 (some (frame 4294967295)) 10 4294967295
        ∷ enqueue true 1 (some (frame 1)) 11 4294967295
        ∷ enqueue true 0 (some (frame 0)) 12 4294967295
        ∷ enqueue true 40 (some (frame 40)) 13 4294967295
        ∷ timer 500100 10
        ∷ clear
        ∷ [])
      (
        (omega arith, omega arith, omega arith),
        (
          (omega arith, omega arith, omega arith),
          (
            (omega arith, omega arith, omega arith),
            ((omega arith, omega arith, omega arith), (omega arith, (tt, tt))),
          ),
        ),
      )

-- The number 3 waits where 0 is the next one.
abbrev one_waits : Reorder
one_waits = record {
  reorder_buf =
      empty_slot
      ∷ empty_slot
      ∷ empty_slot
      ∷ record { frame = some (frame 3); placeholder = false; arrive_ts_us = 5 }
      ∷ replicate 12 empty_slot;
  next_sn = 0;
  inited = true;
  gap_since_us = 5;
  events = buf_malloced ∷ [];
}

handed_test :
    handed 16 0 one_waits one_waits.events ≡ buf_freed ∷ received (frame 3) ∷ buf_malloced ∷ []
unfolding hand_over slot_at
handed_test = refl

abbrev first_byte : List ℕ → ℕ
first_byte [] = 0
first_byte (x ∷ r) = x

abbrev number : Frame → ℕ
number f = first_byte f.content

stamped :
    (n sn hint : ℕ)
    → rekey sn hint ≡ n
    → n < sn_limit
    → (f : Frame) → some (frame n) ≡ some f
    → (number f ≡ rekey sn hint) × (rekey sn hint < sn_limit)
stamped n sn hint e low f p = (
  sym (ap (λ o. elim o as (λ _. ℕ) [ none ↦ n | some x ↦ number x ]) p) ∙ sym e,
  omega (arith, e, low),
)

-- Packet 7, then 9 and 8, a number without data, and 60 beyond the buffer.
act_all_fresh-Rising_example :
    (r : Reorder) × (act_all
        (enqueue true 7 (some (frame 7)) 10 4294967295
          ∷ enqueue true 9 (some (frame 9)) 11 4294967295
          ∷ enqueue true 70 (some (frame 8)) 12 8
          ∷ enqueue true 11 none 13 4294967295
          ∷ timer 500100 10
          ∷ enqueue true 60 (some (frame 60)) 500200 4294967295
          ∷ [])
        fresh_reorder
      ≡ some r)
    × Rising number r.next_sn r.events
unfolding rekey hint_differs
act_all_fresh-Rising_example =
    act_all_fresh-Rising number
      (enqueue true 7 (some (frame 7)) 10 4294967295
        ∷ enqueue true 9 (some (frame 9)) 11 4294967295
        ∷ enqueue true 70 (some (frame 8)) 12 8
        ∷ enqueue true 11 none 13 4294967295
        ∷ timer 500100 10
        ∷ enqueue true 60 (some (frame 60)) 500200 4294967295
        ∷ [])
      (omega arith)
      (
        (omega arith, omega arith, omega arith),
        (
          (omega arith, omega arith, omega arith),
          (
            (omega arith, omega arith, omega arith),
            (
              (omega arith, omega arith, omega arith),
              (omega arith, ((omega arith, omega arith, omega arith), tt)),
            ),
          ),
        ),
      )
      (
        (refl, omega arith, stamped 7 7 4294967295 refl (omega arith)),
        (
          (refl, omega arith, stamped 9 9 4294967295 refl (omega arith)),
          (
            (refl, omega arith, stamped 8 70 8 refl (omega arith)),
            (
              (refl, omega arith, (λ f p. absurd (ground arith))),
              (tt, ((refl, omega arith, stamped 60 60 4294967295 refl (omega arith)), tt)),
            ),
          ),
        ),
      )
