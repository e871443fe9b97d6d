-- ===== src/MemPool/Refine.antt =====
-- The pool (src/mempool/goodtp_mem_pool.cpp) as a number of users for each item.
use udpfec.Base.{
  ℕ, ◌+◌, ◌-◌, ◌*◌, ◌<◌, ◌≡◌, refl, sym, ap, ◌∙◌, true, false, ltb, ◌==◌, if◌then◌else◌, arith, inl,
  inr, ◌⊎◌, Bool-cases, Option, none, some, get_or, set, get_or-set_self, get_or-set_ne,
}
use mathlib.Core.Path.{subst}
use udpfec.MemPool.Pool.{
  MemPool, PoolNode, unused_node, node_at, item_address, mem_addr_to_element_addr, quote, release,
  malloc_item, free_item, free_at,
}
use udpfec.MemPool.Invariant.{IsPool, quote-IsPool, free_at-IsPool}
use udpfec.MemPool.Calls.{element-item_address, malloc_item_new}

-- What a client asks for, with items by their positions.
pub data Call : Type 0 where
  allocate : Call
  share : ℕ → Call
  give_back : ℕ → Call

-- The calls, with the addresses that the client has been given.
unfoldable pub serve : MemPool → Call → Option (MemPool × Option ℕ)
serve p allocate = malloc_item 1 p none
serve p (share pos) = malloc_item 1 p (some (item_address p pos))
serve p (give_back pos) = some (free_item p (item_address p pos), none)

-- Only a user shares an item or gives it back, and an item has 255 users at most.
abbrev pub IsLegal : ℕ → (ℕ → ℕ) → Call → Type 0
IsLegal size users allocate = Unit {0}
IsLegal size users (share pos) = (pos < size) × (0 < users pos) × (users pos < 255)
IsLegal size users (give_back pos) = (pos < size) × (0 < users pos)

-- The users of the items, and one number changed.
abbrev pub set_users : (ℕ → ℕ) → ℕ → ℕ → ℕ → ℕ
set_users users pos n x = if x == pos then n else users x

-- What a pool promises: the answer, and the numbers of users after the call.
abbrev pub Promised : ℕ → (ℕ → ℕ) → Call → Option ℕ → (ℕ → ℕ) → Type 0
Promised size users allocate answer users' =
    ((answer ≡ none) × (users' ≡ users) × ((pos : ℕ) → pos < size → 0 < users pos))
    ⊎ ((pos : ℕ) × (answer ≡ some pos)
        × (pos < size)
        × (users pos ≡ 0)
        × (users' ≡ set_users users pos 1))
Promised size users (share pos) answer users' =
    (answer ≡ some pos) × (users' ≡ set_users users pos (users pos + 1))
Promised size users (give_back pos) answer users' =
    (answer ≡ none) × (users' ≡ set_users users pos (users pos - 1))

abbrev pub Tracks1 : PoolNode → ℕ → Type 0
Tracks1 node n = (node.used_flag ≡ ltb 0 n) × (0 < n → node.quote_counter ≡ n)

-- The pool is in order, and its nodes have the numbers of users.
abbrev pub Tracks : ℕ → MemPool → (ℕ → ℕ) → Type 0
Tracks len p users =
    IsPool len p × ((pos : ℕ) → pos < 64 * len → Tracks1 (node_at p pos) (users pos))

abbrev pub address_of : MemPool → Option ℕ → Option ℕ
address_of p none = none
address_of p (some pos) = some (item_address p pos)

abbrev pub IsAnswered : ℕ → MemPool → (ℕ → ℕ) → Call → Type 0
IsAnswered len p users call =
    (p' : MemPool) × (answer : Option ℕ) × (users' : ℕ → ℕ) × (serve p call
      ≡ some (p', address_of p answer))
    × Promised (64 * len) users call answer users'
    × Tracks len p' users'
    × ((x : ℕ) → item_address p' x ≡ item_address p x)

-- A node is written with its number of users.
set_node-Tracks1 :
    (len : ℕ) (p : MemPool) (users : ℕ → ℕ) (pos n x : ℕ) (node : PoolNode)
    → Tracks len p users
    → pos < 64 * len
    → x < 64 * len
    → Tracks1 node n
    → Tracks1 (get_or (set p.mem_pool pos node) x unused_node) (set_users users pos n x)
unfolding node_at
set_node-Tracks1 len p users pos n x node (pool, each) h k written =
    let nodes = pool.0.3 in
    elim (Bool-cases (x == pos)) [
      | inl same ↦
          let e : x ≡ pos = ground arith in
          let self : (pos == pos) ≡ true = ground arith in
          rw (e, self, get_or-set_self p.mem_pool pos node unused_node (omega (arith, h, nodes)))
            written
      | inr other ↦
          rw (other, get_or-set_ne p.mem_pool pos x node unused_node (λ e. ground (arith, e)))
            (each x k)
    ]

-- The users of a node that is in use, or not.
used_has_users :
    (p : MemPool) (pos n : ℕ) → Tracks1 (node_at p pos) n → (node_at p pos).used_flag ≡ true → 0 < n
used_has_users p pos n (flag, counter) used = ground (arith, flag, used)

unused_has_none :
    (p : MemPool) (pos n : ℕ)
    → Tracks1 (node_at p pos) n
    → (node_at p pos).used_flag ≡ false
    → n ≡ 0
unused_has_none p pos n (flag, counter) unused = ground (arith, flag, unused)

allocate_lem :
    (len : ℕ) (p : MemPool) (users : ℕ → ℕ) → Tracks len p users → IsAnswered len p users allocate
unfolding serve node_at
allocate_lem len p users (pool, each) = elim (malloc_item_new len p 0 pool) [
  | inl (same, full) ↦ (
    p,
    none,
    users,
    same,
    inl (refl, refl, λ pos h. used_has_users p pos (users pos) (each pos h) (full pos h)),
    (pool, each),
    λ x. refl,
  )
  | inr (pos, p', answered, h, unused, nodes, counted, addresses, pool') ↦ (
    p',
    some pos,
    set_users users pos 1,
    answered,
    inr (pos, refl, h, unused_has_none p pos (users pos) (each pos h) unused, refl),
    (
      pool',
      λ x k.
          subst (λ l. Tracks1 (get_or l x unused_node) (set_users users pos 1 x)) (sym nodes)
            (set_node-Tracks1 len p users pos 1 x (record { used_flag = true; quote_counter = 1 })
              (pool, each) h k (refl, λ t. refl)),
    ),
    addresses,
  )
]

malloc_item_found :
    (fuel : ℕ) (p : MemPool) (mem_addr pos : ℕ)
    → mem_addr_to_element_addr p mem_addr ≡ some pos
    → malloc_item fuel p (some mem_addr) ≡ some (quote p pos, some (item_address p pos))
unfolding malloc_item
malloc_item_found fuel p mem_addr pos found = rw (found, malloc_item) refl

pub free_item_found :
    (p : MemPool) (mem_addr pos : ℕ)
    → mem_addr_to_element_addr p mem_addr ≡ some pos
    → free_item p mem_addr ≡ free_at p pos
unfolding free_item
free_item_found p mem_addr pos found = rw (found, free_item) refl

share_lem :
    (len : ℕ) (p : MemPool) (users : ℕ → ℕ) (pos : ℕ)
    → Tracks len p users
    → IsLegal (64 * len) users (share pos)
    → IsAnswered len p users (share pos)
unfolding serve malloc_item quote node_at
share_lem len p users pos (pool, each) (h, some_user, room) =
    let (flag, counter) = each pos h in
    (
      quote p pos,
      some pos,
      set_users users pos (users pos + 1),
      malloc_item_found 1 p (item_address p pos) pos (element-item_address len p pos pool h),
      (refl, refl),
      (
        quote-IsPool len p pos pool h,
        λ x k.
            set_node-Tracks1 len p users pos (users pos + 1) x _ (pool, each) h k
              (ground (arith, flag, some_user), λ t. omega (arith, counter some_user, room)),
      ),
      λ x. refl,
    )

free_at-nodes :
    (p : MemPool) (pos n : ℕ)
    → Tracks1 (node_at p pos) n
    → 0 < n
    → (node : PoolNode) × (Tracks1 node (n - 1))
      × ((free_at p pos).mem_pool ≡ set p.mem_pool pos node)
      × ((x : ℕ) → item_address (free_at p pos) x ≡ item_address p x)
unfolding free_at release item_address
free_at-nodes p pos n (flag, counter) some_user =
    let used : (node_at p pos).used_flag ≡ true = ground (arith, flag, some_user) in
    let count = counter some_user in
    elim (Bool-cases (ltb 0 ((node_at p pos).quote_counter - 1))) [
      | inl shared ↦
          let more : ltb 0 (n - 1) ≡ true = ground (arith, shared, count) in
          (
            record (node_at p pos) { quote_counter = (node_at p pos).quote_counter - 1 },
            (used ∙ sym more, λ t. omega (arith, count)),
            rw (used, shared, free_at) refl,
            λ x. rw (used, shared, free_at, item_address) refl,
          )
      | inr last_user ↦
          let none_left : ltb 0 (n - 1) ≡ false = ground (arith, last_user, count) in
          (
            unused_node,
            (sym none_left, λ t. absurd (ground (arith, none_left, t))),
            rw (used, last_user, free_at) refl,
            λ x. rw (used, last_user, free_at, item_address) refl,
          )
    ]

give_back_lem :
    (len : ℕ) (p : MemPool) (users : ℕ → ℕ) (pos : ℕ)
    → Tracks len p users
    → IsLegal (64 * len) users (give_back pos)
    → IsAnswered len p users (give_back pos)
unfolding serve free_item node_at
give_back_lem len p users pos (pool, each) (h, some_user) =
    let (node, tracked, nodes, addresses) =
      free_at-nodes p pos (users pos) (each pos h) some_user in
    (
      free_at p pos,
      none,
      set_users users pos (users pos - 1),
      ap (λ t. some (t, none))
          (free_item_found p (item_address p pos) pos (element-item_address len p pos pool h)),
      (refl, refl),
      (
        free_at-IsPool len p pos pool h,
        λ x k.
            subst (λ l. Tracks1 (get_or l x unused_node) (set_users users pos (users pos - 1) x))
              (sym nodes)
              (set_node-Tracks1 len p users pos (users pos - 1) x node (pool, each) h k tracked),
      ),
      addresses,
    )

-- Where the pool is in order and its nodes have the numbers of users `users`, a legal call - a new item,
-- one user more of an item in use with fewer than 255, or one less - returns; its answer and the new
-- numbers of users are as promised: a new item has no user before and one after, NULL means that all have
-- users, and no other item's number changes. The pool is in order then, with the new numbers, and the
-- addresses are the same.
pub serve-Tracks :
    (len : ℕ) (p : MemPool) (users : ℕ → ℕ) (call : Call)
    → Tracks len p users
    → IsLegal (64 * len) users call
    → IsAnswered len p users call
serve-Tracks len p users allocate tracked legal = allocate_lem len p users tracked
serve-Tracks len p users (share pos) tracked legal = share_lem len p users pos tracked legal
serve-Tracks len p users (give_back pos) tracked legal = give_back_lem len p users pos tracked legal
