-- ===== src/MemPool/Calls.antt =====
-- The addresses of the pool's items, and what `MallocItem` and `FreeItem` do with a pool that is in
-- order (src/mempool/goodtp_mem_pool.cpp).
use udpfec.Base.{
  ℕ, zero, suc, ◌+◌, ◌-◌, ◌*◌, ◌/◌, ◌<◌, ◌≤◌, ◌≡◌, refl, sym, ap, ◌∙◌, List, [], ◌∷◌, true, false,
  ◌||◌, ltb, leb, arith, inl, inr, ◌⊎◌, Bool-cases, Option, none, some, get_or, set, length, sum_by,
}
use native.Mathlib.Nat.{mul-le-mul_right, mul-add-div_right, div-eq_of_lt, div-lt_iff_lt-mul}
use udpfec.MemPool.Pool.{
  MemPool, PoolNode, unused_node, node_at, distribute, item_address, mem_addr_to_element_addr,
  new_item, malloc_item, u32,
}
use udpfec.MemPool.Scan.{usage}
use udpfec.MemPool.Search.{new_item_lem}
use udpfec.MemPool.Invariant.{IsPool, sum_by-usage_le, distribute-IsPool}

-- An address between the boundaries belongs to an item.
pub element-below :
    (len : ℕ) (p : MemPool) (mem_addr pos : ℕ)
    → IsPool len p
    → mem_addr_to_element_addr p mem_addr ≡ some pos
    → pos < 64 * len
unfolding mem_addr_to_element_addr
element-below len p mem_addr pos (mapped, last, bound, counted, block, right) found =
    elim (Bool-cases
      (ltb mem_addr p.mem_pool_left_boundary || leb p.mem_pool_right_boundary mem_addr)) [
        | inl outside ↦ absurd (let e : none ≡ some pos = sym (rw outside refl) ∙ found in cc)
        | inr inside ↦
            let at = (mem_addr - p.mem_pool_left_boundary) / p.block_size in
            let same : some (u32 at) ≡ some pos = sym (rw inside refl) ∙ found in
            let here : u32 at ≡ pos = cc in
            let below : at < 64 * len =
              (div-lt_iff_lt-mul (omega (arith, block))).1 (ground (arith, right)) in
            omega (arith, here, below, bound)
      ]

-- The address of an item belongs to the item.
pub element-item_address :
    (len : ℕ) (p : MemPool) (pos : ℕ)
    → IsPool len p
    → pos < 64 * len
    → mem_addr_to_element_addr p (item_address p pos) ≡ some pos
unfolding mem_addr_to_element_addr item_address
element-item_address len p pos (mapped, last, bound, counted, block, right) h =
    let left = p.mem_pool_left_boundary in
    let bs = p.block_size in
    let reach : (pos + 1) * bs ≤ 64 * len * bs = mul-le-mul_right bs (omega (arith, h)) in
    let step : (pos + 1) * bs ≡ pos * bs + bs = grind arith in
    let inside : (ltb (left + pos * bs + 4) left
          || leb p.mem_pool_right_boundary (left + pos * bs + 4))
        ≡ false =
      let a : left ≤ left + pos * bs + 4 = omega arith in
      let b : left + pos * bs + 4 < p.mem_pool_right_boundary =
        omega (arith, reach, step, block, right) in
      ground (arith, a, b) in
    let offset : left + pos * bs + 4 - left ≡ pos * bs + 4 = omega arith in
    let whole : (pos * bs + 4) / bs ≡ pos + 4 / bs =
      mul-add-div_right (omega (arith, block)) pos 4 in
    let none_left : 4 / bs ≡ 0 = div-eq_of_lt block in
    rw (inside, offset, whole, none_left) (ap (λ t. some t) (omega (arith, h, bound)))

new_item_full :
    (fuel : ℕ) (p : MemPool) → leb p.pool_size p.using_num ≡ true → new_item fuel p ≡ some (p, none)
unfolding new_item
new_item_full fuel p full = rw full refl

all_used :
    (xs : List PoolNode)
    → sum_by usage xs ≡ length xs
    → (i : ℕ) → i < length xs
    → (get_or xs i unused_node).used_flag ≡ true
all_used [] e i h = absurd (omega arith)
all_used (x ∷ xs) e zero h = ground (arith, e, sum_by-usage_le xs)
all_used (x ∷ xs) e (suc i) h =
    let one : usage x ≤ 1 = ground arith in
    all_used xs (omega (arith, e, one, sum_by-usage_le xs)) i (omega arith)

-- An unused item is handed out, and no other is changed.
abbrev pub IsTaken : ℕ → MemPool → Option (MemPool × Option ℕ) → Type 0
IsTaken len p answer =
    (pos : ℕ) × (p' : MemPool) × (answer ≡ some (p', some (item_address p pos)))
    × (pos < 64 * len)
    × ((node_at p pos).used_flag ≡ false)
    × (p'.mem_pool ≡ set p.mem_pool pos (record { used_flag = true; quote_counter = 1 }))
    × (p'.using_num ≡ p.using_num + 1)
    × ((x : ℕ) → item_address p' x ≡ item_address p x)
    × IsPool len p'

-- A call for a new item does nothing where all items are in use, or hands one out.
abbrev pub IsServed : ℕ → MemPool → Option (MemPool × Option ℕ) → Type 0
IsServed len p answer =
    ((answer ≡ some (p, none)) × ((pos : ℕ) → pos < 64 * len → (node_at p pos).used_flag ≡ true))
    ⊎ IsTaken len p answer

distribute-IsTaken :
    (len : ℕ) (p : MemPool) (pos : ℕ) (answer : Option (MemPool × Option ℕ))
    → IsPool len p
    → pos < 64 * len
    → (node_at p pos).used_flag ≡ false
    → p.using_num < p.pool_size
    → answer ≡ some (distribute (record p { last_free_pos = pos }) (pos / 64))
    → IsTaken len p answer
unfolding distribute item_address node_at
distribute-IsTaken len p pos answer pool h unused left picked =
    let (mapped, last, bound, counted, block, right) = pool in
    let size = mapped.1 in
    let q = record p { last_free_pos = pos } in
    (
      pos,
      (distribute q (pos / 64)).0,
      picked,
      h,
      unused,
      refl,
      omega (arith, left, size, bound),
      λ x. refl,
      distribute-IsPool len q (mapped, h, bound, counted, block, right) unused,
    )

-- In a pool in order `MallocItem` without an address ends. It answers NULL and changes nothing exactly
-- where all items are in use; else it answers the address of an item that was unused, which is in use
-- with one user then, counts it, changes no other item and no address, and the pool stays in order.
pub malloc_item_new :
    (len : ℕ) (p : MemPool) (fuel : ℕ)
    → IsPool len p
    → IsServed len p (malloc_item (suc fuel) p none)
unfolding malloc_item
malloc_item_new len p fuel pool =
    let (mapped, last, bound, counted, block, right) = pool in
    let (pos_len, size, words, nodes, room, small, bits) = mapped in
    elim (Bool-cases (leb p.pool_size p.using_num)) [
      | inl full ↦
          let many = sum_by-usage_le p.mem_pool in
          let whole : sum_by usage p.mem_pool ≡ length p.mem_pool =
            ground (arith, counted, size, nodes, many) in
          inl (
            new_item_full (suc fuel) p full,
            λ pos h. unfold node_at in all_used p.mem_pool whole pos (omega (arith, nodes, h)),
          )
      | inr left ↦
          let (pos, h, unused, picked) =
            new_item_lem len p mapped fuel last bound counted (ground arith) in
          inr (
            distribute-IsTaken len p pos (new_item (suc fuel) p) pool h unused (ground arith)
              picked)
    ]
