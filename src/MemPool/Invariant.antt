-- ===== src/MemPool/Invariant.antt =====
-- The invariant of the pool (src/mempool/goodtp_mem_pool.cpp), and that its changes keep it.
use udpfec.Base.{
  ℕ, ◌+◌, ◌-◌, ◌*◌, ◌/◌, ◌%◌, ◌^◌, ◌<◌, ◌≤◌, ◌≡◌, ◌≢◌, refl, sym, ap, ◌∙◌, List, [], ◌∷◌, true,
  false, ltb, ◌==◌, if◌then◌else◌, arith, inl, inr, Bool-cases, get_or, set, length, length-set,
  get_or-set_self, get_or-set_ne, sum_by, sum_by-set,
}
use Prim.Native.Nat.{bit_and, bit_or}
use udpfec.Base.Bits.{bit}
use udpfec.Base.Masks.{bit_and-mask}
use udpfec.Base.Words.{bit_or-below, bit_and-le, pow_below, bit-set_bit, bit-clear_bit}
use udpfec.MemPool.Pool.{
  MemPool, PoolNode, full_word, unused_node, node_at, distribute, release, quote, free_at, u32,
}
use udpfec.MemPool.Scan.{usage, IsMapped}

-- The bitmap tells the nodes in use, they are counted, and the items lie side by side between the
-- two boundaries.
abbrev pub IsPool : ℕ → MemPool → Type 0
IsPool len p =
    IsMapped len p
    × (p.last_free_pos < 64 * len)
    × (64 * len < 4294967296)
    × (p.using_num ≡ sum_by usage p.mem_pool)
    × (4 < p.block_size)
    × (p.mem_pool_right_boundary ≡ p.mem_pool_left_boundary + 64 * len * p.block_size)

-- A node is written, and the word that holds its bit.
set_node-IsMapped :
    (len : ℕ) (p : MemPool) (pos : ℕ) (node : PoolNode) (w : ℕ)
    → IsMapped len p
    → pos < 64 * len
    → w < 2 ^ 64
    → ((j : ℕ)
        → j < 64
        → bit w j
          ≡ (if j == pos % 64 then usage node else bit (get_or p.used_bitmap (pos / 64) 0) j))
    → IsMapped len (record p {
      used_bitmap = set p.used_bitmap (pos / 64) w;
      mem_pool = set p.mem_pool pos node;
    })
unfolding node_at
set_node-IsMapped len p pos node w (pos_len, size, words, nodes, room, small, bits) h below digits =
    let fits : pos / 64 < length p.used_bitmap = omega (arith, h, room) in
    let inside : pos < length p.mem_pool = omega (arith, h, nodes) in
    let word_set = get_or-set_self p.used_bitmap (pos / 64) w 0 fits in
    let node_set = get_or-set_self p.mem_pool pos node unused_node inside in
    (
      pos_len,
      size,
      words,
      length-set p.mem_pool pos node ∙ nodes,
      omega (arith, length-set p.used_bitmap (pos / 64) w, room),
      λ i k. elim (Bool-cases (i == pos / 64)) [
        | inl same ↦ let e : i ≡ pos / 64 = ground arith in rw (e, word_set) below
        | inr other ↦
            rw (get_or-set_ne p.used_bitmap (pos / 64) i w 0 (λ e. ground (arith, e))) (small i k)
      ],
      λ x k. elim (Bool-cases (x == pos)) [
        | inl same ↦
            let e : x ≡ pos = ground arith in
            let self : (pos % 64 == pos % 64) ≡ true = ground arith in
            rw (e, word_set, node_set) (digits (pos % 64) (omega arith) ∙ rw self refl)
        | inr other ↦
            let ne : pos ≢ x = λ e. ground (arith, e) in
            rw (get_or-set_ne p.mem_pool pos x node unused_node ne)
              (elim (Bool-cases (x / 64 == pos / 64)) [
                | inl same ↦
                    let e : x / 64 ≡ pos / 64 = ground arith in
                    let apart : (x % 64 == pos % 64) ≡ false = ground arith in
                    ap (λ i. bit (get_or (set p.used_bitmap (pos / 64) w) i 0) (x % 64)) e
                    ∙ rw (word_set) (digits (x % 64) (omega arith) ∙ rw apart refl)
                    ∙ ap (λ i. bit (get_or p.used_bitmap i 0) (x % 64)) (sym e)
                    ∙ bits x k
                | inr far ↦
                    rw
                      (get_or-set_ne p.used_bitmap (pos / 64) (x / 64) w 0 (λ e. ground (arith, e)))
                      (bits x k)
              ])
      ],
    )

low_six : (x : ℕ) → bit_and x 63 ≡ x % 64
low_six x = bit_and-mask 6 x

pub sum_by-usage_le : (xs : List PoolNode) → sum_by usage xs ≤ length xs
sum_by-usage_le [] = omega arith
sum_by-usage_le (x ∷ xs) =
    let one : usage x ≤ 1 = ground arith in omega (arith, one, sum_by-usage_le xs)

idle_weight :
    (p : MemPool) (pos : ℕ)
    → (node_at p pos).used_flag ≡ false
    → usage (get_or p.mem_pool pos unused_node) ≡ 0
unfolding node_at
idle_weight p pos unused = rw unused refl

busy_weight :
    (p : MemPool) (pos : ℕ)
    → (node_at p pos).used_flag ≡ true
    → usage (get_or p.mem_pool pos unused_node) ≡ 1
unfolding node_at
busy_weight p pos used = rw used refl

-- An unused item is handed out.
pub distribute-IsPool :
    (len : ℕ) (p : MemPool)
    → IsPool len p
    → (node_at p p.last_free_pos).used_flag ≡ false
    → IsPool len (distribute p (p.last_free_pos / 64)).0
unfolding distribute node_at
distribute-IsPool len p (mapped, last, bound, counted, block, right) unused =
    let (pos_len, size, words, nodes, room, small, bits) = mapped in
    let pos = p.last_free_pos in
    let w = get_or p.used_bitmap (pos / 64) 0 in
    let node : PoolNode = record { used_flag = true; quote_counter = 1 } in
    let below =
      bit_or-below 64 w (2 ^ (pos % 64)) (small (pos / 64) (omega (arith, last)))
        (pow_below (pos % 64) 64 (omega arith)) in
    let weight = sum_by-set usage p.mem_pool pos node unused_node (omega (arith, last, nodes)) in
    let many = sum_by-usage_le (set p.mem_pool pos node) in
    (
      rw (low_six pos) (
          set_node-IsMapped len p pos node (bit_or w (2 ^ (pos % 64))) mapped last below
            (λ j h. bit-set_bit w (pos % 64) j)),
      last,
      bound,
      omega (
        arith,
        counted,
        weight,
        many,
        length-set p.mem_pool pos node,
        nodes,
        bound,
        idle_weight p pos unused,
      ),
      block,
      right,
    )

-- The flag of a node stays.
keep_flag-IsPool :
    (len : ℕ) (p : MemPool) (pos : ℕ) (node : PoolNode)
    → IsPool len p
    → pos < 64 * len
    → usage node ≡ usage (node_at p pos)
    → IsPool len (record p { mem_pool = set p.mem_pool pos node })
unfolding node_at
keep_flag-IsPool len p pos node (mapped, last, bound, counted, block, right) h same =
    let (pos_len, size, words, nodes, room, small, bits) = mapped in
    let inside : pos < length p.mem_pool = omega (arith, h, nodes) in
    let weight = sum_by-set usage p.mem_pool pos node unused_node inside in
    (
      (
        pos_len,
        size,
        words,
        length-set p.mem_pool pos node ∙ nodes,
        room,
        small,
        λ x k. elim (Bool-cases (x == pos)) [
          | inl here ↦
              let e : x ≡ pos = ground arith in
              bits x k ∙ rw (e, get_or-set_self p.mem_pool pos node unused_node inside) (sym same)
          | inr other ↦
              rw (get_or-set_ne p.mem_pool pos x node unused_node (λ e. ground (arith, e)))
                (bits x k)
        ],
      ),
      last,
      bound,
      omega (arith, counted, weight, same),
      block,
      right,
    )

pub quote-IsPool :
    (len : ℕ) (p : MemPool) (pos : ℕ) → IsPool len p → pos < 64 * len → IsPool len (quote p pos)
unfolding quote
quote-IsPool len p pos pool h = keep_flag-IsPool len p pos _ pool h refl

-- An item in use is given back.
release-IsPool :
    (len : ℕ) (p : MemPool) (pos : ℕ)
    → IsPool len p
    → pos < 64 * len
    → (node_at p pos).used_flag ≡ true
    → IsPool len (release p pos)
unfolding release node_at
release-IsPool len p pos (mapped, last, bound, counted, block, right) h used =
    let (pos_len, size, words, nodes, room, small, bits) = mapped in
    let w = get_or p.used_bitmap (pos / 64) 0 in
    let less = bit_and-le w (full_word - 2 ^ (pos % 64)) in
    let below = small (pos / 64) (omega (arith, h)) in
    let inside : pos < length p.mem_pool = omega (arith, h, nodes) in
    let weight = sum_by-set usage p.mem_pool pos unused_node unused_node inside in
    (
      rw (low_six pos) (
          set_node-IsMapped len p pos unused_node (bit_and w (full_word - 2 ^ (pos % 64))) mapped h
            (omega (arith, less, below)) (λ j k. bit-clear_bit 64 w (pos % 64) j (omega arith) k)),
      h,
      bound,
      omega (arith, counted, weight, busy_weight p pos used),
      block,
      right,
    )

pub free_at-IsPool :
    (len : ℕ) (p : MemPool) (pos : ℕ) → IsPool len p → pos < 64 * len → IsPool len (free_at p pos)
unfolding free_at
free_at-IsPool len p pos pool h = elim (Bool-cases (node_at p pos).used_flag) [
  | inr unused ↦ rw unused pool
  | inl used ↦ elim (Bool-cases (ltb 0 ((node_at p pos).quote_counter - 1))) [
    | inl shared ↦ rw (used, shared) (keep_flag-IsPool len p pos _ pool h (rw used refl))
    | inr last_user ↦
        rw (used, last_user)
          (release-IsPool len (record p { free_counter = u32 (p.free_counter + 1) }) pos pool h
            used)
  ]
]
