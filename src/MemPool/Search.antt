-- ===== src/MemPool/Search.antt =====
-- The search of `MallocItem` (src/mempool/goodtp_mem_pool.cpp) for an unused item.
use udpfec.Base.{
  ℕ, zero, suc, ◌+◌, ◌-◌, ◌*◌, ◌/◌, ◌%◌, ◌^◌, ◌<◌, ◌≤◌, ◌≡◌, ◌≢◌, refl, sym, ap, ◌∙◌, true, false,
  ltb, leb, ◌==◌, arith, inl, inr, Bool-cases, Option, some, get_or, sum_by,
}
use Prim.Native.Nat.{bit_and}
use mathlib.Core.Path.{subst}
use udpfec.Base.Bits.{bit, bit_test}
use udpfec.Base.Words.{bit-ones}
use udpfec.MemPool.Scan.{
  usage, IsMapped, sum_by-all_used, first_not_full_lem, IsFound, scan_from, found_in_open,
}
use udpfec.MemPool.Pool.{
  MemPool, full_word, node_at, find_in_word, first_not_full, search, distribute, new_item,
  clear_low,
}

module _ (len : ℕ) (p : MemPool) (m : IsMapped len p) where
  -- The digit of a node in its word.
  digit_of :
      (i k : ℕ)
      → i < len
      → k < 64
      → bit (get_or p.used_bitmap i 0) k ≡ usage (node_at p (i * 64 + k))
  digit_of i k h low =
      let (pos_len, size, words, nodes, room, small, bits) = m in
      let word_is : (i * 64 + k) / 64 ≡ i = omega (arith, low) in
      let digit_is : (i * 64 + k) % 64 ≡ k = omega (arith, low) in
      sym (
        ap (λ w. bit (get_or p.used_bitmap w 0) ((i * 64 + k) % 64)) word_is
        ∙ ap (bit (get_or p.used_bitmap i 0)) digit_is)
      ∙ bits (i * 64 + k) (omega (arith, h, low))

  -- The word's rounds from `loop` on.
  find_in_word_lem :
      (rounds i loop : ℕ)
      → i < len
      → loop + rounds ≡ 64
      → IsFound p i loop 64 (find_in_word rounds p (get_or p.used_bitmap i 0) (i * 64 + loop) loop)
  unfolding find_in_word
  find_in_word_lem zero i loop h e = λ j a b. absurd (omega arith)
  find_in_word_lem (suc rounds) i loop h e =
      let w = get_or p.used_bitmap i 0 in
      let test = bit_test w loop in
      let digit = digit_of i loop h (omega arith) in
      let next : i * 64 + (loop + 1) ≡ i * 64 + loop + 1 = omega arith in
      let rest =
        subst (λ t. IsFound p i (loop + 1) 64 (find_in_word rounds p w t (loop + 1))) next
          (find_in_word_lem rounds i (loop + 1) h (omega arith)) in
      elim (Bool-cases (node_at p (i * 64 + loop)).used_flag) [
        | inl used ↦
            let set : bit w loop ≡ 1 = digit ∙ rw used refl in
            let skip : (bit_and w (2 ^ loop) == 0) ≡ false = test ∙ rw set refl in
            rw skip
              (scan_from p i loop (find_in_word rounds p w (i * 64 + loop + 1) (loop + 1)) set rest)
        | inr unused ↦
            let clear : bit w loop ≡ 0 = digit ∙ rw unused refl in
            let take : (bit_and w (2 ^ loop) == 0) ≡ true = test ∙ rw clear refl in
            rw (take, unused) (omega arith, unused)
      ]

  -- A word that is not full has an unused node, and the loop finds one.
  pub find_open_word :
      (i : ℕ)
      → i < len
      → get_or p.used_bitmap i 0 ≢ full_word
      → (pos : ℕ) × (find_in_word 64 p (get_or p.used_bitmap i 0) (i * 64) 0 ≡ some pos)
        × (pos / 64 ≡ i)
        × ((node_at p pos).used_flag ≡ false)
  find_open_word i h gap =
      let (pos_len, size, words, nodes, room, small, bits) = m in
      let start : i * 64 + 0 ≡ i * 64 = omega arith in
      found_in_open p i (find_in_word 64 p (get_or p.used_bitmap i 0) (i * 64) 0)
        (subst (λ t. IsFound p i 0 64 (find_in_word 64 p (get_or p.used_bitmap i 0) t 0)) start
          (find_in_word_lem 64 i 0 h refl))
        (small i h) gap

  -- Where not all nodes are in use, the scan stops at a word that is not full.
  open_word :
      sum_by usage p.mem_pool < 64 * len
      → let i = first_not_full (p.bitmap_length - 1) p 0 in
        (i < len) × (get_or p.used_bitmap i 0 ≢ full_word)
  unfolding node_at
  open_word some_unused =
      let (pos_len, size, words, nodes, room, small, bits) = m in
      let i = first_not_full (p.bitmap_length - 1) p 0 in
      let (low, high, before, here) = first_not_full_lem (p.bitmap_length - 1) p 0 in
      elim (Bool-cases (ltb i len)) [
        | inl inside ↦
            (ground arith, here (let a : i < len = ground arith in omega (arith, a, words)))
        | inr behind ↦
            let all_used = sum_by-all_used p.mem_pool (λ pos h.
              let full : get_or p.used_bitmap (pos / 64) 0 ≡ full_word =
                before (pos / 64) (omega arith)
                  (let b : len ≤ i = ground arith in omega (arith, b, nodes, h)) in
              sym (bits pos (omega (arith, nodes, h)))
              ∙ ap (λ w. bit w (pos % 64)) full
              ∙ bit-ones 64 (pos % 64) (omega arith)) in
            absurd (omega (arith, all_used, nodes, some_unused))
      ]

  -- An unused node, handed out.
  abbrev pub Picks : Option (MemPool × Option ℕ) → Type 0
  Picks r =
      (pos : ℕ) × (pos < 64 * len)
      × ((node_at p pos).used_flag ≡ false)
      × (r ≡ some (distribute (record p { last_free_pos = pos }) (pos / 64)))

  pub search_lem : (fuel : ℕ) → sum_by usage p.mem_pool < 64 * len → Picks (search (suc fuel) p)
  unfolding search
  search_lem fuel some_unused =
      let (pos_len, size, words, nodes, room, small, bits) = m in
      let i = first_not_full (p.bitmap_length - 1) p 0 in
      let (low, gap) = open_word some_unused in
      let (pos, found, here, unused) = find_open_word i low gap in
      let inside : ltb i p.bitmap_length ≡ true = ground (arith, words, low) in
      (pos, omega (arith, here, low), unused, rw (inside, found, here) refl)

  -- The item at `last_free_pos` is in use, and another one of its word is not.
  pick_in_word :
      (fuel pos : ℕ)
      → p.last_free_pos < 64 * len
      → 64 * len < 4294967296
      → p.using_num < p.pool_size
      → (node_at p p.last_free_pos).used_flag ≡ true
      → (get_or p.used_bitmap (p.last_free_pos / 64) 0 == full_word) ≡ false
      → find_in_word 64 p
          (get_or p.used_bitmap (p.last_free_pos / 64) 0)
          (p.last_free_pos / 64 * 64)
          0
        ≡ some pos
      → pos / 64 ≡ p.last_free_pos / 64
      → new_item fuel p ≡ some (distribute (record p { last_free_pos = pos }) (pos / 64))
  unfolding new_item clear_low
  pick_in_word fuel pos last bound left used gap found here =
      let more : leb p.pool_size p.using_num ≡ false = ground (arith, left) in
      let base : p.last_free_pos % 4294967296 - p.last_free_pos % 64 ≡ p.last_free_pos / 64 * 64 =
        omega (arith, last, bound) in
      rw (more, used, gap, base, found, here) refl

  pub new_item_lem :
      (fuel : ℕ)
      → p.last_free_pos < 64 * len
      → 64 * len < 4294967296
      → p.using_num ≡ sum_by usage p.mem_pool
      → p.using_num < p.pool_size
      → Picks (new_item (suc fuel) p)
  unfolding new_item
  new_item_lem fuel last bound counted left =
      let (pos_len, size, words, nodes, room, small, bits) = m in
      let some_unused : sum_by usage p.mem_pool < 64 * len = omega (arith, size, counted, left) in
      let more : leb p.pool_size p.using_num ≡ false = ground (arith, left) in
      elim (Bool-cases (node_at p p.last_free_pos).used_flag) [
        | inr unused ↦ (p.last_free_pos, last, unused, rw (more, unused) refl)
        | inl used ↦
            elim (Bool-cases (get_or p.used_bitmap (p.last_free_pos / 64) 0 == full_word)) [
              | inl full ↦
                  let (pos, h, unused, found) = search_lem fuel some_unused in
                  (pos, h, unused, rw (more, used, full) found)
              | inr gap ↦
                  let (pos, found, here, unused) =
                    find_open_word (p.last_free_pos / 64) (omega (arith, last))
                      (λ e. ground (arith, e)) in
                  (
                    pos,
                    omega (arith, here, last),
                    unused,
                    pick_in_word (suc fuel) pos last bound left used gap found here,
                  )
            ]
      ]
