-- ===== src/MemPool/Scan.antt =====
-- The loops in the search of `MallocItem` (src/mempool/goodtp_mem_pool.cpp) for an unused item.
use udpfec.Base.{
  ℕ, zero, suc, ◌+◌, ◌*◌, ◌/◌, ◌%◌, ◌^◌, ◌<◌, ◌≤◌, ◌≡◌, ◌≢◌, refl, List, [], ◌∷◌, false, ◌==◌,
  if◌then◌else◌, arith, inl, inr, Bool-cases, Option, none, some, get_or, length, sum_by,
}
use udpfec.Base.Bits.{bit}
use udpfec.Base.Words.{all_ones}
use udpfec.MemPool.Pool.{MemPool, PoolNode, full_word, unused_node, node_at, first_not_full}

abbrev pub usage : PoolNode → ℕ
usage n = if n.used_flag then 1 else 0

-- The bitmap tells which nodes are in use: there are `64 * len` nodes, and the bit of a node is set
-- where it is in use.
abbrev pub IsMapped : ℕ → MemPool → Type 0
IsMapped len p =
    (0 < len)
    × (p.pool_size ≡ 64 * len)
    × (p.bitmap_length ≡ len)
    × (length p.mem_pool ≡ 64 * len)
    × (len ≤ length p.used_bitmap)
    × ((i : ℕ) → i < len → get_or p.used_bitmap i 0 < 2 ^ 64)
    × ((pos : ℕ)
        → pos < 64 * len
        → bit (get_or p.used_bitmap (pos / 64) 0) (pos % 64) ≡ usage (node_at p pos))

-- Every node in use: the pool is full.
pub sum_by-all_used :
    (xs : List PoolNode)
    → ((i : ℕ) → i < length xs → usage (get_or xs i unused_node) ≡ 1)
    → sum_by usage xs ≡ length xs
sum_by-all_used [] h = refl
sum_by-all_used (x ∷ xs) h =
    omega (arith, h 0 (omega arith), sum_by-all_used xs (λ i p. h (suc i) (omega arith)))

-- What the scan of the bitmap finds.
abbrev pub IsFirst : MemPool → ℕ → ℕ → ℕ → Type 0
IsFirst p start end pos =
    (start ≤ pos)
    × (pos ≤ end)
    × ((i : ℕ) → start ≤ i → i < pos → get_or p.used_bitmap i 0 ≡ full_word)
    × (pos < end → get_or p.used_bitmap pos 0 ≢ full_word)

pub first_not_full_lem :
    (rounds : ℕ) (p : MemPool) (start : ℕ)
    → IsFirst p start (start + rounds + 1) (first_not_full rounds p start)
unfolding first_not_full
first_not_full_lem zero p start = elim (Bool-cases (get_or p.used_bitmap start 0 == full_word)) [
  | inl full ↦ rw full (
    omega arith,
    omega arith,
    λ i a b. let e : i ≡ start = omega arith in rw e (ground arith),
    λ h. absurd (omega arith),
  )
  | inr gap ↦
      rw gap (omega arith, omega arith, λ i a b. absurd (omega arith), λ h e. ground (arith, e))
]
first_not_full_lem (suc rounds) p start =
    elim (Bool-cases (get_or p.used_bitmap start 0 == full_word)) [
      | inl full ↦
          let (low, high, before, here) = first_not_full_lem rounds p (start + 1) in
          rw full (
            omega (arith, low),
            omega (arith, high),
            λ i a b. elim (Bool-cases (i == start)) [
              | inl same ↦ let e : i ≡ start = ground arith in rw e (ground arith)
              | inr other ↦ before i (ground arith) b
            ],
            λ h. here (omega arith),
          )
      | inr gap ↦
          rw gap (omega arith, omega arith, λ i a b. absurd (omega arith), λ h e. ground (arith, e))
    ]

-- What the loop over a word finds: an unused node, or that all the word's bits are set.
abbrev pub IsFound : MemPool → ℕ → ℕ → ℕ → Option ℕ → Type 0
IsFound p word base end none =
    (j : ℕ) → base ≤ j → j < end → bit (get_or p.used_bitmap word 0) j ≡ 1
IsFound p word base end (some pos) = (pos / 64 ≡ word) × ((node_at p pos).used_flag ≡ false)

pub scan_from :
    (p : MemPool) (word base : ℕ) (found : Option ℕ)
    → bit (get_or p.used_bitmap word 0) base ≡ 1
    → IsFound p word (base + 1) 64 found
    → IsFound p word base 64 found
scan_from p word base (some pos) set later = later
scan_from p word base none set later = λ j low high. elim (Bool-cases (j == base)) [
  | inl same ↦ let e : j ≡ base = ground arith in rw e set
  | inr other ↦ later j (ground arith) high
]

pub found_in_open :
    (p : MemPool) (word : ℕ) (found : Option ℕ)
    → IsFound p word 0 64 found
    → get_or p.used_bitmap word 0 < 2 ^ 64
    → get_or p.used_bitmap word 0 ≢ full_word
    → (pos : ℕ) × (found ≡ some pos) × (pos / 64 ≡ word) × ((node_at p pos).used_flag ≡ false)
found_in_open p word (some pos) (here, unused) small gap = (pos, refl, here, unused)
found_in_open p word none set small gap =
    absurd (gap (all_ones 64 (get_or p.used_bitmap word 0) small (λ k h. set k (omega arith) h)))
