-- ===== src/MemPool/Pool.antt =====
-- `GtpMemPool` (src/mempool/goodtp_mem_pool.cpp, goodtp_mem_pool.h) on a 64-bit system. Addresses are
-- numbers. The bytes of the items are not part of the model.
use udpfec.Base.{
  ℕ, zero, suc, ◌+◌, ◌-◌, ◌*◌, ◌/◌, ◌%◌, ◌^◌, List, [], ◌∷◌, ◌++◌, Bool, true, false, not, ◌&&◌,
  ◌||◌, ltb, leb, ◌==◌, if◌then◌else◌, replicate, Option, none, some, get_or, set,
}
use Prim.Native.Nat.{bit_and, bit_or}

abbrev pub u32 : ℕ → ℕ
u32 x = x % 4294967296

abbrev pub full_word : ℕ
full_word = 18446744073709551615

abbrev pub mem_gap_size : ℕ
mem_gap_size = 8

-- `sizeof(PoolMgr)` and `sizeof(PoolNode) - 1`: both structs are packed.
abbrev pub pool_mgr_bytes : ℕ
pool_mgr_bytes = 64

abbrev pub pool_node_bytes : ℕ
pool_node_bytes = 4

pub record PoolNode : Type 0 where
  pub used_flag : Bool
  pub quote_counter : ℕ

-- `PoolMgr`, without its two node pointers, and `block_size_` of the pool. The bitmap's words are
-- followed by the gap, one more word.
pub record MemPool : Type 0 where
  pub block_size : ℕ
  pub pool_size : ℕ
  pub using_num : ℕ
  pub mem_pool_left_boundary : ℕ
  pub mem_pool_right_boundary : ℕ
  pub malloc_counter : ℕ
  pub free_counter : ℕ
  pub last_free_pos : ℕ
  pub bitmap_length : ℕ
  pub used_bitmap : List ℕ
  pub mem_pool : List PoolNode

abbrev pub unused_node : PoolNode
unused_node = record { used_flag = false; quote_counter = 0 }

-- `x & ~(2 ^ k - 1)` in 32 bits
unfoldable pub clear_low : ℕ → ℕ → ℕ
clear_low k x = u32 x - x % 2 ^ k

-- The constructor's two members.
unfoldable pub pool_block_size : ℕ → ℕ
unfolding clear_low
pool_block_size block_size =
    if clear_low 2 block_size == 0
    then u32 (pool_node_bytes + block_size)
    else u32 (pool_node_bytes + u32 (clear_low 2 block_size + 4))

unfoldable pub pool_block_num : ℕ → ℕ
unfolding clear_low
pool_block_num block_num =
    if clear_low 6 block_num == 0 then block_num else u32 (clear_low 6 block_num + 64)

unfoldable pub mgr_size : ℕ → ℕ
mgr_size block_num = u32 (pool_mgr_bytes + 8 * block_num + mem_gap_size)

unfoldable pub bitmap_size : ℕ → ℕ
bitmap_size block_num = u32 (8 * (block_num / 64) + mem_gap_size)

-- `Init`: where `malloc` gives `mem`, with `gap` in the gap behind the bitmap. The loop over the nodes
-- makes one round at least.
unfoldable pub init : ℕ → ℕ → Option ℕ → ℕ → Option MemPool
unfolding mgr_size bitmap_size
init block_size block_num none gap = none
init block_size block_num (some mem) gap =
    let mem_pool_size = u32 (block_size * block_num) in
    let before = u32 (mgr_size block_num + bitmap_size block_num) in
    let total_mem_len = u32 (before + mem_pool_size) in
    some (record {
      block_size = block_size;
      pool_size = block_num;
      using_num = 0;
      mem_pool_left_boundary = mem + before;
      mem_pool_right_boundary = mem + total_mem_len;
      malloc_counter = 0;
      free_counter = 0;
      last_free_pos = 0;
      bitmap_length = block_num / 64;
      used_bitmap = replicate (block_num / 64) 0 ++ (gap ∷ []);
      mem_pool = replicate (if block_num == 0 then 1 else block_num) unused_node;
    })

unfoldable pub node_at : MemPool → ℕ → PoolNode
node_at p pos = get_or p.mem_pool pos unused_node

-- `&(mem_pool_[pos]->memory_[0])`
unfoldable pub item_address : MemPool → ℕ → ℕ
item_address p pos = p.mem_pool_left_boundary + pos * p.block_size + pool_node_bytes

-- The position of an address; it stands for the node as well.
unfoldable pub mem_addr_to_element_addr : MemPool → ℕ → Option ℕ
mem_addr_to_element_addr p mem_addr =
    if ltb mem_addr p.mem_pool_left_boundary || leb p.mem_pool_right_boundary mem_addr
    then none
    else some (u32 ((mem_addr - p.mem_pool_left_boundary) / p.block_size))

-- One more user of an item.
unfoldable pub quote : MemPool → ℕ → MemPool
unfolding node_at
quote p pos =
    let node = node_at p pos in
    record p {
      mem_pool =
          set p.mem_pool pos (record node { quote_counter = (node.quote_counter + 1) % 256 });
      malloc_counter = u32 (p.malloc_counter + 1);
    }

-- The item at `last_free_pos_`, whose bit is in word `bitmap_pos`, is handed out.
unfoldable pub distribute : MemPool → ℕ → MemPool × Option ℕ
unfolding item_address
distribute p bitmap_pos =
    let bit_mask = 2 ^ bit_and p.last_free_pos 63 in
    (
      record p {
        mem_pool = set p.mem_pool p.last_free_pos (record { used_flag = true; quote_counter = 1 });
        used_bitmap =
            set p.used_bitmap bitmap_pos (bit_or (get_or p.used_bitmap bitmap_pos 0) bit_mask);
        malloc_counter = u32 (p.malloc_counter + 1);
        using_num = u32 (p.using_num + 1);
      },
      some (item_address p p.last_free_pos),
    )

-- The rounds from `loop` on, `rounds` of them, of the loop over a word: the first unused item.
unfoldable pub find_in_word : ℕ → MemPool → ℕ → ℕ → ℕ → Option ℕ
unfolding node_at
find_in_word zero p bitmap_value free_pos loop = none
find_in_word (suc rounds) p bitmap_value free_pos loop =
    if (bit_and bitmap_value (2 ^ loop) == 0) && not (node_at p free_pos).used_flag
    then some free_pos
    else find_in_word rounds p bitmap_value (free_pos + 1) (loop + 1)

-- The first word from `bitmap_pos` on that is not full, or the first position behind the bitmap. The
-- loop makes one round at least, and has `rounds` more.
unfoldable pub first_not_full : ℕ → MemPool → ℕ → ℕ
first_not_full zero p bitmap_pos =
    if get_or p.used_bitmap bitmap_pos 0 == full_word then bitmap_pos + 1 else bitmap_pos
first_not_full (suc rounds) p bitmap_pos =
    if get_or p.used_bitmap bitmap_pos 0 == full_word
    then first_not_full rounds p (bitmap_pos + 1)
    else bitmap_pos

-- Where the loop over a word finds no item, the scan of the bitmap goes on from its start.
unfoldable pub search : ℕ → MemPool → Option (MemPool × Option ℕ)
search zero p = none
search (suc fuel) p =
    let bitmap_pos = first_not_full (p.bitmap_length - 1) p 0 in
    let bitmap_value = get_or p.used_bitmap bitmap_pos 0 in
    if ltb bitmap_pos p.bitmap_length
    then elim (find_in_word 64 p bitmap_value (bitmap_pos * 64) 0) [
      | some free_pos ↦ some (distribute (record p { last_free_pos = free_pos }) bitmap_pos)
      | none ↦ search fuel p
    ]
    else some (record p { using_num = p.pool_size }, none)

unfoldable pub new_item : ℕ → MemPool → Option (MemPool × Option ℕ)
unfolding node_at clear_low
new_item fuel p =
    let bitmap_pos = p.last_free_pos / 64 in
    let bitmap_value = get_or p.used_bitmap bitmap_pos 0 in
    if leb p.pool_size p.using_num
    then some (p, none)
    else if not (node_at p p.last_free_pos).used_flag
    then some (distribute p bitmap_pos)
    else if bitmap_value == full_word
    then search fuel p
    else elim (find_in_word 64 p bitmap_value (clear_low 6 p.last_free_pos) 0) [
      | some free_pos ↦ some (distribute (record p { last_free_pos = free_pos }) bitmap_pos)
      | none ↦ search fuel p
    ]

-- `MallocItem`: the address of an item that is in use already, or NULL (`none`) for a new item.
unfoldable pub malloc_item : ℕ → MemPool → Option ℕ → Option (MemPool × Option ℕ)
unfolding new_item item_address quote
malloc_item fuel p none = new_item fuel p
malloc_item fuel p (some node_payload) = elim (mem_addr_to_element_addr p node_payload) [
  | some pos ↦ some (quote p pos, some (item_address p pos))
  | none ↦ new_item fuel p
]

-- The last user gives the item back.
unfoldable pub release : MemPool → ℕ → MemPool
unfolding node_at
release p pos =
    let bitmap_pos = pos / 64 in
    let shift_bit = 2 ^ bit_and pos 63 in
    record p {
      using_num = p.using_num - 1;
      mem_pool = set p.mem_pool pos (record { used_flag = false; quote_counter = 0 });
      used_bitmap =
          set p.used_bitmap bitmap_pos
            (bit_and (get_or p.used_bitmap bitmap_pos 0) (full_word - shift_bit));
      last_free_pos = pos;
    }

unfoldable pub free_at : MemPool → ℕ → MemPool
unfolding node_at release
free_at p pos =
    let node = node_at p pos in
    let left = node.quote_counter - 1 in
    let counted = record p { free_counter = u32 (p.free_counter + 1) } in
    if not node.used_flag
    then p
    else if ltb 0 left
    then record counted { mem_pool = set p.mem_pool pos (record node { quote_counter = left }) }
    else release counted pos

unfoldable pub free_item : MemPool → ℕ → MemPool
free_item p mem_addr = elim (mem_addr_to_element_addr p mem_addr) [
  | none ↦ p
  | some pos ↦ free_at p pos
]
