-- ===== src/MemPool/Reuse.antt =====
-- Items given back and handed out again (src/mempool/goodtp_mem_pool.cpp).
use udpfec.Base.{
  ℕ, suc, ◌+◌, ◌*◌, ◌/◌, ◌<◌, ◌≡◌, refl, sym, ap, ◌∙◌, true, false, leb, ◌==◌, if◌then◌else◌, arith,
  inl, inr, Bool-cases, none, some, get_or, set, length, get_or-set_self, get_or-set_ne,
}
use mathlib.Core.Path.{subst}
use udpfec.MemPool.Pool.{
  MemPool, PoolNode, unused_node, node_at, item_address, mem_addr_to_element_addr, distribute,
  release, new_item, malloc_item, free_item, free_at, u32,
}
use udpfec.MemPool.Invariant.{IsPool, sum_by-usage_le, free_at-IsPool}
use udpfec.MemPool.Calls.{element-item_address, malloc_item_new}
use udpfec.MemPool.Refine.{free_item_found}

-- The last user of an item gives it back.
free_at_last :
    (p : MemPool) (pos : ℕ)
    → (node_at p pos).used_flag ≡ true
    → (node_at p pos).quote_counter ≡ 1
    → free_at p pos ≡ release (record p { free_counter = u32 (p.free_counter + 1) }) pos
unfolding free_at
free_at_last p pos used one = rw (used, one, free_at) refl

release-used_flag :
    (len : ℕ) (p : MemPool) (pos x : ℕ)
    → IsPool len p
    → pos < 64 * len
    → (node_at (release p pos) x).used_flag ≡ (if x == pos then false else (node_at p x).used_flag)
unfolding release node_at
release-used_flag len p pos x pool h =
    let nodes = pool.0.3 in
    elim (Bool-cases (x == pos)) [
      | inl same ↦
          let e : x ≡ pos = ground arith in
          let self : (pos == pos) ≡ true = ground arith in
          rw
            (
              e,
              self,
              get_or-set_self p.mem_pool pos unused_node unused_node (omega (arith, h, nodes)),
            )
            refl
      | inr other ↦
          rw
            (other, get_or-set_ne p.mem_pool pos x unused_node unused_node (λ e. ground (arith, e)))
            refl
    ]

new_item_direct :
    (fuel : ℕ) (p : MemPool)
    → p.using_num < p.pool_size
    → (node_at p p.last_free_pos).used_flag ≡ false
    → new_item fuel p ≡ some (distribute p (p.last_free_pos / 64))
unfolding new_item
new_item_direct fuel p left unused =
    let more : leb p.pool_size p.using_num ≡ false = ground (arith, left) in
    rw (more, unused, new_item) refl

-- In a pool in order, where an item in use with one user is given back, the next call of `MallocItem`
-- without an address hands out that item again.
pub malloc_item-free_item :
    (len : ℕ) (p : MemPool) (pos fuel : ℕ)
    → IsPool len p
    → pos < 64 * len
    → (node_at p pos).used_flag ≡ true
    → (node_at p pos).quote_counter ≡ 1
    → (p' : MemPool) × (malloc_item fuel (free_item p (item_address p pos)) none
        ≡ some (p', some (item_address p pos)))
unfolding malloc_item release distribute item_address
malloc_item-free_item len p pos fuel pool h used one =
    let (mapped, last, bound, counted, block, right) = pool in
    let (pos_len, size, words, nodes, room, small, bits) = mapped in
    let many = sum_by-usage_le p.mem_pool in
    let counted_p = record p { free_counter = u32 (p.free_counter + 1) } in
    let q = release counted_p pos in
    let freed : free_item p (item_address p pos) ≡ q =
      free_item_found p (item_address p pos) pos (element-item_address len p pos pool h)
      ∙ free_at_last p pos used one in
    let self : (pos == pos) ≡ true = ground arith in
    let unused : (node_at q pos).used_flag ≡ false =
      release-used_flag len counted_p pos pos pool h ∙ rw self refl in
    (
      (distribute q (pos / 64)).0,
      ap (λ t. malloc_item fuel t none) freed
          ∙ new_item_direct fuel q (omega (arith, counted, many, nodes, size, pos_len)) unused,
    )

node_after :
    (p q : MemPool) (pos x : ℕ) (node : PoolNode)
    → q.mem_pool ≡ set p.mem_pool pos node
    → pos < length p.mem_pool
    → node_at q x ≡ (if x == pos then node else node_at p x)
unfolding node_at
node_after p q pos x node nodes inside =
    ap (λ l. get_or l x unused_node) nodes ∙ elim (Bool-cases (x == pos)) [
      | inl same ↦
          let e : x ≡ pos = ground arith in
          let self : (pos == pos) ≡ true = ground arith in
          rw (e, self) (get_or-set_self p.mem_pool pos node unused_node inside)
      | inr other ↦
          rw other (get_or-set_ne p.mem_pool pos x node unused_node (λ e. ground (arith, e)))
    ]

-- A pool in order, with the items of `p` in use.
abbrev pub IsAsBefore : ℕ → MemPool → MemPool → Type 0
IsAsBefore len p q =
    IsPool len q
    × (q.using_num ≡ p.using_num)
    × ((x : ℕ) → x < 64 * len → (node_at q x).used_flag ≡ (node_at p x).used_flag)

give_back-IsAsBefore :
    (len : ℕ) (p q : MemPool) (pos mem_addr : ℕ)
    → IsPool len p
    → IsPool len q
    → pos < 64 * len
    → (node_at p pos).used_flag ≡ false
    → q.mem_pool ≡ set p.mem_pool pos (record { used_flag = true; quote_counter = 1 })
    → q.using_num ≡ p.using_num + 1
    → item_address q pos ≡ mem_addr
    → IsAsBefore len p (free_item q mem_addr)
unfolding release
give_back-IsAsBefore len p q pos mem_addr pool pool' h unused nodes count address =
    let inside : pos < length p.mem_pool = omega (arith, h, pool.0.3) in
    let after = λ (x : ℕ).
      node_after p q pos x (record { used_flag = true; quote_counter = 1 }) nodes inside in
    let self : (pos == pos) ≡ true = ground arith in
    let here : node_at q pos ≡ record { used_flag = true; quote_counter = 1 } =
      after pos ∙ rw self refl in
    let found : mem_addr_to_element_addr q mem_addr ≡ some pos =
      ap (mem_addr_to_element_addr q) (sym address) ∙ element-item_address len q pos pool' h in
    let counted_q = record q { free_counter = u32 (q.free_counter + 1) } in
    let at_pos : free_item q mem_addr ≡ free_at q pos = free_item_found q mem_addr pos found in
    let freed : free_item q mem_addr ≡ release counted_q pos =
      at_pos ∙ free_at_last q pos (ap (λ n. n.used_flag) here) (ap (λ n. n.quote_counter) here) in
    (
      subst (IsPool len) (sym at_pos) (free_at-IsPool len q pos pool' h),
      ap (λ t. t.using_num) freed ∙ omega (arith, count),
      λ x k.
          ap (λ t. (node_at t x).used_flag) freed
          ∙ release-used_flag len counted_q pos x pool' h
          ∙ flags x after,
    )
  where
    flags :
        (x : ℕ)
        → ((x : ℕ)
            → node_at q x
              ≡ (if x == pos then record { used_flag = true; quote_counter = 1 } else node_at p x))
        → (if x == pos then false else (node_at q x).used_flag) ≡ (node_at p x).used_flag
    flags x after = elim (Bool-cases (x == pos)) [
      | inl same ↦
          let e : x ≡ pos = ground arith in
          rw same (sym unused ∙ ap (λ t. (node_at p t).used_flag) (sym e))
      | inr other ↦
          let same_node : node_at q x ≡ node_at p x = after x ∙ rw other refl in
          rw other (ap (λ n. n.used_flag) same_node)
    ]

-- In a pool in order, where a call of `MallocItem` without an address hands out an item, giving that
-- item back leaves a pool in order in which the same items are in use as before, as many as before.
pub free_item-malloc_item :
    (len : ℕ) (p p' : MemPool) (fuel mem_addr : ℕ)
    → IsPool len p
    → malloc_item (suc fuel) p none ≡ some (p', some mem_addr)
    → IsAsBefore len p (free_item p' mem_addr)
free_item-malloc_item len p p' fuel mem_addr pool answered =
    elim (malloc_item_new len p fuel pool) [
      | inl (none_left, full) ↦
          absurd
            (let e : some (p, none) ≡ some (p', some mem_addr) = sym none_left ∙ answered in cc)
      | inr (pos, q, taken, h, unused, nodes, count, addresses, pool') ↦
          let e : some (q, some (item_address p pos)) ≡ some (p', some mem_addr) =
            sym taken ∙ answered in
          let same_pool : q ≡ p' = cc in
          let same_address : item_address p pos ≡ mem_addr = cc in
          subst (λ t. IsAsBefore len p (free_item t mem_addr)) same_pool
            (give_back-IsAsBefore len p q pos mem_addr pool pool' h unused nodes count
              (addresses pos ∙ same_address))
    ]
