-- ===== src/MemPool/Start.antt =====
-- The constructor and `Init` (src/mempool/goodtp_mem_pool.cpp).
use udpfec.Base.{
  ℕ, zero, suc, ◌+◌, ◌*◌, ◌/◌, ◌%◌, ◌<◌, ◌≤◌, ◌≡◌, refl, sym, ◌∙◌, List, [], ◌∷◌, ◌++◌, false, ◌==◌,
  arith, some, get_or, replicate, length, sum_by_zero, length-append, length-replicate,
  get_or-replicate,
}
use udpfec.Base.Bits.{bit-zero}
use udpfec.MemPool.Pool.{
  MemPool, PoolNode, unused_node, node_at, clear_low, pool_block_size, pool_block_num, mgr_size,
  bitmap_size, init, u32,
}
use udpfec.MemPool.Scan.{usage}
use udpfec.MemPool.Refine.{Tracks}

get_or-append_left :
    (xs ys : List ℕ) (i : ℕ) → i < length xs → get_or (xs ++ ys) i 0 ≡ get_or xs i 0
get_or-append_left [] ys i h = absurd (omega arith)
get_or-append_left (x ∷ xs) ys zero h = refl
get_or-append_left (x ∷ xs) ys (suc i) h = get_or-append_left xs ys i (omega arith)

pool_block_num_lem :
    (block_num : ℕ)
    → 64 ≤ block_num
    → block_num < 4294967232
    → pool_block_num block_num ≡ 64 * (block_num / 64 + 1)
unfolding pool_block_num clear_low
pool_block_num_lem block_num h k = ground (arith, h, k)

pool_block_size_lem :
    (block_size : ℕ) → 0 < block_size → block_size < 4294967280 → 4 < pool_block_size block_size
unfolding pool_block_size clear_low
pool_block_size_lem block_size h k = ground (arith, h, k)

-- The bytes of a pool.
abbrev pub pool_bytes : ℕ → ℕ → ℕ
pool_bytes block_size len = 64 + 8 * (64 * len) + 8 + (8 * len + 8) + block_size * (64 * len)

zeros : (len gap i : ℕ) → i < len → get_or (replicate len 0 ++ (gap ∷ [])) i 0 ≡ 0
zeros len gap i h =
    get_or-append_left (replicate len 0) (gap ∷ []) i
      (omega (arith, length-replicate {A = ℕ} len 0, h))
    ∙ get_or-replicate len 0 i

pub init_lem :
    (block_size len mem gap : ℕ)
    → 4 < block_size
    → 0 < len
    → pool_bytes block_size len < 4294967296
    → (p : MemPool) × (init block_size (64 * len) (some mem) gap ≡ some p) × Tracks len p (λ x. 0)
unfolding init mgr_size bitmap_size node_at
init_lem block_size len mem gap block some_word fits =
    let words : 64 * len / 64 ≡ len = omega arith in
    let some_node : 64 * len == 0 ≡ false = ground (arith, some_word) in
    let before = u32 (mgr_size (64 * len) + bitmap_size (64 * len)) in
    let total = u32 (before + u32 (block_size * (64 * len))) in
    let turned : block_size * (64 * len) ≡ 64 * len * block_size = grind arith in
    let room = length-append (replicate len 0) (gap ∷ []) in
    let many = length-replicate {A = ℕ} len 0 in
    let nodes = length-replicate {A = PoolNode} (64 * len) unused_node in
    let idle = get_or-replicate {A = PoolNode} (64 * len) unused_node in
    let p : MemPool = record {
      block_size = block_size;
      pool_size = 64 * len;
      using_num = 0;
      mem_pool_left_boundary = mem + before;
      mem_pool_right_boundary = mem + total;
      malloc_counter = 0;
      free_counter = 0;
      last_free_pos = 0;
      bitmap_length = len;
      used_bitmap = replicate len 0 ++ (gap ∷ []);
      mem_pool = replicate (64 * len) unused_node;
    } in
    (
      p,
      rw (words, some_node) refl,
      (
        (
          (
            some_word,
            refl,
            refl,
            nodes,
            omega (arith, room, many),
            λ i h. rw (zeros len gap i h) (omega arith),
            λ pos h. rw (zeros len gap (pos / 64) (omega arith), idle pos) (bit-zero (pos % 64)),
          ),
          omega arith,
          omega (arith, fits),
          sym (sum_by_zero usage p.mem_pool unused_node (λ i h. rw (idle i) refl)),
          block,
          omega (arith, fits, turned),
        ),
        λ pos h. rw (idle pos) (refl, λ t. absurd (omega arith)),
      ),
    )

-- The constructor with `block_size` above 0 and at least 64 items, and `Init` where `malloc` answers an
-- address: if the pool's bytes do not exceed 32 bits, the pool is in order, with the number of items rounded
-- up past the next multiple of 64, and no item has a user.
pub init-Tracks :
    (block_size block_num mem gap : ℕ)
    → 0 < block_size
    → block_size < 4294967280
    → 64 ≤ block_num
    → block_num < 4294967232
    → pool_bytes (pool_block_size block_size) (block_num / 64 + 1) < 4294967296
    → (p : MemPool) × (init (pool_block_size block_size) (pool_block_num block_num) (some mem) gap
        ≡ some p)
      × Tracks (block_num / 64 + 1) p (λ x. 0)
init-Tracks block_size block_num mem gap some_byte small many few fits =
    rw (pool_block_num_lem block_num many few) (
      init_lem (pool_block_size block_size) (block_num / 64 + 1) mem gap
        (pool_block_size_lem block_size some_byte small) (omega arith) fits)
