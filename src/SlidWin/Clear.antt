-- ===== src/SlidWin/Clear.antt =====
-- The memory cleared by a move of the session's window: ClearMemory and MoveWin of
-- src/slidwin/slidwin.cpp.
use udpfec.Base.{
  ℕ, zero, suc, ◌+◌, ◌-◌, ◌≤◌, ◌<◌, ◌≡◌, refl, ap, ◌∙◌, List, Bool, false, ◌&&◌, ◌||◌, ltb, leb,
  ◌==◌, if◌then◌else◌, get_or, set, length, length-set, some, arith, inl, inr, Bool-cases,
}
use udpfec.Base.Memory.{zero_bytes, length-zero_bytes, get_or-set_if, get_or-zero_bytes}
use udpfec.SlidWin.Move.{clear_memory, clear_between}

-- Whether a slot lies in the range from `pos` to `last`, around the end of the memory.
abbrev pub within : ℕ → ℕ → ℕ → Bool
within pos last i = if ltb pos last then leb pos i && leb i last else leb pos i || leb i last

-- The memory after some slots are cleared.
pub record Cleared (mem mem' : List ℕ) (size : ℕ) (gone : ℕ → Bool) : Type 0 where
  pub kept_length : length mem' ≡ length mem
  pub slots : (i : ℕ) → i < size → get_or mem' i 0 ≡ (if gone i then 0 else get_or mem i 0)

-- How far the end lies ahead.
abbrev rounds_to : ℕ → ℕ → ℕ → ℕ
rounds_to size pos last = if ltb pos last then last - pos else size - pos + last

-- The last round clears two slots, and every other one a slot.
last_round :
    (mem : List ℕ) (size pos last i : ℕ)
    → length mem ≡ size
    → pos < size
    → last < size
    → i < size
    → (if leb size (pos + 1) then 0 else pos + 1) ≡ last
    → get_or (set (set mem pos 0) last 0) i 0 ≡ (if within pos last i then 0 else get_or mem i 0)
last_round mem size pos last i e p q r next =
    let outer =
      get_or-set_if (set mem pos 0) last i 0 (omega (arith, length-set mem pos 0, e, q)) in
    let inner = get_or-set_if mem pos i 0 (omega (arith, e, p)) in ground (arith, outer, inner)

other_round :
    (mem : List ℕ) (size pos next last i v : ℕ)
    → length mem ≡ size
    → pos < size
    → last < size
    → i < size
    → next ≡ (if leb size (pos + 1) then 0 else pos + 1)
    → (next == last) ≡ false
    → v ≡ (if within next last i then 0 else get_or (set mem pos 0) i 0)
    → v ≡ (if within pos last i then 0 else get_or mem i 0)
other_round mem size pos next last i v e p q r step far rest =
    let inner = get_or-set_if mem pos i 0 (omega (arith, e, p)) in ground (arith, inner)

clear_memory_lem :
    (fuel : ℕ) (mem : List ℕ) (size pos last : ℕ)
    → length mem ≡ size
    → pos < size
    → last < size
    → rounds_to size pos last ≤ fuel
    → (mem' : List ℕ) × (clear_memory fuel mem size pos last ≡ some mem')
      × Cleared mem mem' size (within pos last)
unfolding clear_memory
clear_memory_lem zero mem size pos last e p q enough = absurd (ground arith)
clear_memory_lem (suc fuel) mem size pos last e p q enough =
    let next = if leb size (pos + 1) then 0 else pos + 1 in
    let cleared = set mem pos 0 in
    elim (Bool-cases (next == last)) [
      | inl done ↦
          let at : next ≡ last = ground arith in
          (
            set cleared last 0,
            rw done refl,
            record {
              kept_length = length-set cleared last 0 ∙ length-set mem pos 0;
              slots = λ i r. last_round mem size pos last i e p q r at;
            },
          )
      | inr far ↦
          let below : next < size = ground arith in
          let fewer : rounds_to size next last ≤ fuel = ground arith in
          let size' : length cleared ≡ size = length-set mem pos 0 ∙ e in
          let (mem', rest, c) = clear_memory_lem fuel cleared size next last size' below q fewer in
          (
            mem',
            rw far rest,
            record {
              kept_length = c.kept_length ∙ length-set mem pos 0;
              slots = λ i r.
                  other_round mem size pos next last i (get_or mem' i 0) e p q r refl far
                    (c.slots i r);
            },
          )
    ]

-- What comes into the window is cleared, and one slot more where the range turns.
pub clear_between_lem :
    (mem : List ℕ) (size begin last : ℕ)
    → length mem ≡ size
    → begin < size
    → last < size
    → (mem' : List ℕ) × (clear_between mem size begin last ≡ some mem')
      × Cleared mem mem' size
          (λ i. if leb begin last then leb begin i && ltb i last else within begin last i)
unfolding clear_between
clear_between_lem mem size begin last e p q = elim (Bool-cases (leb begin last)) [
  | inl ahead ↦
      let n = last - begin in
      let end : begin + n ≡ last = ground arith in
      (
        zero_bytes mem begin n,
        rw ahead refl,
        record {
          kept_length = length-zero_bytes n begin mem;
          slots = λ i r. rw ahead (
              get_or-zero_bytes n begin i mem (omega (arith, e, end, q))
              ∙ ap (λ t. if leb begin i && ltb i t then 0 else get_or mem i 0) end);
        },
      )
  | inr turns ↦
      let enough : rounds_to size begin last ≤ size = ground arith in
      let (mem', run, c) = clear_memory_lem size mem size begin last e p q enough in
      (
        mem',
        rw turns run,
        record { kept_length = c.kept_length; slots = λ i r. rw turns (c.slots i r) },
      )
]

-- The same for borders that are computed.
pub clear_between_at :
    (mem : List ℕ) (size begin last b l : ℕ)
    → begin ≡ b
    → last ≡ l
    → length mem ≡ size
    → b < size
    → l < size
    → (mem' : List ℕ) × (clear_between mem size begin last ≡ some mem')
      × Cleared mem mem' size (λ i. if leb b l then leb b i && ltb i l else within b l i)
clear_between_at mem size begin last b l e f len p q =
    let (mem', run, c) = clear_between_lem mem size b l len p q in (mem', rw (e, f) run, c)
