-- ===== src/MemPool/Tests.antt =====
-- Runs of the pool (src/mempool/goodtp_mem_pool.cpp) at concrete sizes.
use udpfec.Base.{◌+◌, ◌/◌, ◌<◌, ◌≡◌, refl, sym, ◌∙◌, [], ◌∷◌, true, arith, none, some, replicate}
use mathlib.Core.Path.{subst}
use udpfec.MemPool.Pool.{
  MemPool, unused_node, pool_block_size, pool_block_num, init, mgr_size, bitmap_size, node_at,
  item_address, malloc_item, new_item, distribute, free_item, clear_low,
}
use udpfec.MemPool.Invariant.{IsPool, distribute-IsPool}
use udpfec.MemPool.Calls.{IsServed, malloc_item_new}
use udpfec.MemPool.Refine.{allocate, Tracks, IsAnswered, serve-Tracks}
use udpfec.MemPool.Start.{pool_bytes, init_lem, init-Tracks}
use udpfec.MemPool.Reuse.{IsAsBefore, free_item-malloc_item, malloc_item-free_item}

-- A pool of 64 items of 24 bytes.
abbrev new_pool : MemPool
new_pool = record {
  block_size = 24;
  pool_size = 64;
  using_num = 0;
  mem_pool_left_boundary = 4696;
  mem_pool_right_boundary = 6232;
  malloc_counter = 0;
  free_counter = 0;
  last_free_pos = 0;
  bitmap_length = 1;
  used_bitmap = 0 ∷ 7 ∷ [];
  mem_pool = replicate 64 unused_node;
}

-- Its first item is handed out.
abbrev one_taken : MemPool
one_taken = record new_pool {
  using_num = 1;
  malloc_counter = 1;
  used_bitmap = 1 ∷ 7 ∷ [];
  mem_pool = (record { used_flag = true; quote_counter = 1 }) ∷ replicate 63 unused_node;
}

init_test : init 24 64 (some 4096) 7 ≡ some new_pool
unfolding init mgr_size bitmap_size
init_test = refl

new_pool-Tracks : Tracks 1 new_pool (λ x. 0)
new_pool-Tracks =
    let (p, made, tracked) = init_lem 24 1 4096 7 (omega arith) (omega arith) (omega arith) in
    let e : some p ≡ some new_pool = sym made ∙ init_test in
    let same : p ≡ new_pool = cc in subst (λ t. Tracks 1 t (λ x. 0)) same tracked

malloc_item_test : malloc_item 1 new_pool none ≡ some (one_taken, some 4700)
unfolding malloc_item new_item distribute
malloc_item_test = refl

one_taken-IsPool : IsPool 1 one_taken
unfolding distribute
one_taken-IsPool = distribute-IsPool 1 new_pool new_pool-Tracks.0 (unfold node_at in refl)

fits_20 : pool_bytes (pool_block_size 20) 2 < 4294967296
unfolding pool_block_size clear_low
fits_20 = omega arith

init-Tracks_example :
    (p : MemPool) × (init (pool_block_size 20) (pool_block_num 70) (some 4096) 7 ≡ some p)
    × Tracks (70 / 64 + 1) p (λ x. 0)
init-Tracks_example =
    init-Tracks 20 70 4096 7 (omega arith) (omega arith) (omega arith) (omega arith) fits_20

malloc_item_new_example : IsServed 1 one_taken (malloc_item 1 one_taken none)
malloc_item_new_example = malloc_item_new 1 one_taken 0 one_taken-IsPool

serve-Tracks_example : IsAnswered 1 new_pool (λ x. 0) allocate
serve-Tracks_example = serve-Tracks 1 new_pool (λ x. 0) allocate new_pool-Tracks tt

malloc_item-free_item_example :
    (p' : MemPool) × (malloc_item 0 (free_item one_taken (item_address one_taken 0)) none
      ≡ some (p', some (item_address one_taken 0)))
malloc_item-free_item_example =
    malloc_item-free_item 1 one_taken 0 0 one_taken-IsPool (omega arith) (unfold node_at in refl)
      (unfold node_at in refl)

free_item-malloc_item_example : IsAsBefore 1 new_pool (free_item one_taken 4700)
free_item-malloc_item_example =
    free_item-malloc_item 1 new_pool one_taken 0 4700 new_pool-Tracks.0 malloc_item_test
