-- ===== src/Fec2/Clear.antt =====
-- What `Fec2Buffer::Clear` frees, and the count of the cached packets.
use udpfec.Base.{
  ℕ, zero, suc, ◌+◌, ◌-◌, ◌%◌, ◌≡◌, ◌≢◌, ◌<◌, ◌≤◌, refl, sym, true, false, Option, none, some,
  length, sum_by, sum_by-set, get_or, get_or-set_self, get_or-set_ne, length-set, arith, leb, ◌==◌,
  ap, ◌∙◌, inl, inr, Bool-cases,
}
use mathlib.Core.Option
use mathlib.Core.Path.{subst}
use udpfec.Fec2.Buffer.{
  GtpPackCacheStru, Fec2Buffer, max_fec2_cache_capacity, cached, free_cached_at, cached_num,
  clear_loop, count_cleared, clear,
}

-- The cache has 32 slots, and the count is that of the packets in them.
abbrev pub IsCounted : Fec2Buffer → Type 0
IsCounted b =
    (length b.pack_cache ≡ max_fec2_cache_capacity)
    × (b.pack_num_in_cache ≡ sum_by cached_num b.pack_cache)

-- The slot of `pos` freed.
abbrev pub free_at : ℕ → Fec2Buffer → Fec2Buffer
free_at pos b = free_cached_at (cached b pos) pos b

pub free_at-slots :
    (pos : ℕ) (b : Fec2Buffer)
    → pos < length b.pack_cache
    → (length (free_at pos b).pack_cache ≡ length b.pack_cache)
      × (sum_by cached_num (free_at pos b).pack_cache + cached_num (cached b pos)
          ≡ sum_by cached_num b.pack_cache)
      × ((free_at pos b).pack_num_in_cache ≡ b.pack_num_in_cache)
      × (cached (free_at pos b) pos ≡ none)
unfolding cached free_cached_at cached_num
free_at-slots pos b h = go (cached b pos) refl
  where
    go :
        (o : Option GtpPackCacheStru)
        → get_or b.pack_cache pos none ≡ o
        → (length (free_cached_at o pos b).pack_cache ≡ length b.pack_cache)
          × (sum_by cached_num (free_cached_at o pos b).pack_cache + cached_num o
              ≡ sum_by cached_num b.pack_cache)
          × ((free_cached_at o pos b).pack_num_in_cache ≡ b.pack_num_in_cache)
          × (cached (free_cached_at o pos b) pos ≡ none)
    go none e = (refl, omega arith, refl, e)
    go (some p) e =
        let s = sum_by-set cached_num b.pack_cache pos none none h in
        let one : cached_num (get_or b.pack_cache pos none) ≡ 1 = ap cached_num e in
        (
          length-set b.pack_cache pos none,
          omega (arith, s, one),
          refl,
          get_or-set_self b.pack_cache pos none none h,
        )

pub free_at-others : (pos k : ℕ) (b : Fec2Buffer) → pos ≢ k → cached (free_at pos b) k ≡ cached b k
unfolding cached free_cached_at
free_at-others pos k b ne = go (cached b pos)
  where
    go :
        (o : Option GtpPackCacheStru)
        → cached (free_cached_at o pos b) k ≡ get_or b.pack_cache k none
    go none = refl
    go (some p) = get_or-set_ne b.pack_cache pos k none none ne

-- The slots from `i` up to `end_pos`: at least one, and all 32 where the two are the same.
unfoldable pub zone : ℕ → ℕ → ℕ
zone i end_pos = (end_pos + 31 - i) % 32 + 1

-- How far a slot lies behind `i` in the ring.
unfoldable pub offset : ℕ → ℕ → ℕ
offset i k = (k + 32 - i) % 32

-- The result of the loop: the zone is free, the rest as it was, and what was freed is counted.
abbrev IsCleared : ℕ → ℕ → ℕ → Fec2Buffer → Fec2Buffer × ℕ → Type 0
IsCleared i end_pos counter b (b', counter') =
    (length b'.pack_cache ≡ max_fec2_cache_capacity)
    × (sum_by cached_num b'.pack_cache + counter' ≡ sum_by cached_num b.pack_cache + counter)
    × (b'.pack_num_in_cache ≡ b.pack_num_in_cache)
    × ((k : ℕ) → k < 32 → offset i k ≤ zone i end_pos → cached b' k ≡ none)
    × ((k : ℕ) → k < 32 → zone i end_pos < offset i k → cached b' k ≡ cached b k)

-- One step of the loop, from what holds of the rest of it.
cleared_step :
    (i end_pos : ℕ) (b b' : Fec2Buffer)
    → i < length b.pack_cache
    → length b.pack_cache ≡ max_fec2_cache_capacity
    → end_pos < 32
    → (i + 1) % 32 ≢ end_pos
    → ((k : ℕ)
        → k < 32
        → offset ((i + 1) % 32) k ≤ zone ((i + 1) % 32) end_pos
        → cached b' k ≡ none)
    → ((k : ℕ)
        → k < 32
        → zone ((i + 1) % 32) end_pos < offset ((i + 1) % 32) k
        → cached b' k ≡ cached (free_at i b) k)
    → ((k : ℕ) → k < 32 → offset i k ≤ zone i end_pos → cached b' k ≡ none)
      × ((k : ℕ) → k < 32 → zone i end_pos < offset i k → cached b' k ≡ cached b k)
unfolding zone offset
cleared_step i end_pos b b' h size q more gone rest = (freed, kept)
  where
    freed : (k : ℕ) → k < 32 → offset i k ≤ zone i end_pos → cached b' k ≡ none
    freed k p near = elim (Bool-cases (k == i)) [
      | inr other ↦ gone k p (ground arith)
      | inl same ↦
          let e : k ≡ i = ground arith in
          elim (Bool-cases (leb (offset ((i + 1) % 32) k) (zone ((i + 1) % 32) end_pos))) [
            | inl inside ↦ gone k p (ground arith)
            | inr outside ↦
                rest k p (ground arith)
                ∙ subst (λ x. cached (free_at i b) x ≡ none) (sym e) (free_at-slots i b h).3
          ]
    ]

    kept : (k : ℕ) → k < 32 → zone i end_pos < offset i k → cached b' k ≡ cached b k
    kept k p far =
        rest k p (omega (arith, more, h, size)) ∙ free_at-others i k b (λ e. omega (arith, e))

cleared_last :
    (i : ℕ) (b : Fec2Buffer)
    → i < 32
    → length b.pack_cache ≡ max_fec2_cache_capacity
    → let i' = (i + 1) % 32 in
      let b' = free_at i' (free_at i b) in
      ((k : ℕ) → k < 32 → offset i k ≤ 1 → cached b' k ≡ none)
      × ((k : ℕ) → k < 32 → 1 < offset i k → cached b' k ≡ cached b k)
unfolding offset
cleared_last i b p size = (freed, kept)
  where
    len : length (free_at i b).pack_cache ≡ length b.pack_cache
    len = (free_at-slots i b (omega (arith, size))).0

    freed :
        (k : ℕ) → k < 32 → offset i k ≤ 1 → cached (free_at ((i + 1) % 32) (free_at i b)) k ≡ none
    freed k q near = elim (Bool-cases (k == i)) [
      | inl same ↦
          free_at-others ((i + 1) % 32) k (free_at i b) (λ e. ground arith)
          ∙ subst (λ x. cached (free_at i b) x ≡ none) (sym (let e : k ≡ i = ground arith in e))
              (free_at-slots i b (omega (arith, size))).3
      | inr other ↦
          subst (λ x. cached (free_at ((i + 1) % 32) (free_at i b)) x ≡ none)
            (let e : (i + 1) % 32 ≡ k = ground arith in e)
            (free_at-slots ((i + 1) % 32) (free_at i b) (omega (arith, size, len))).3
    ]

    kept :
        (k : ℕ)
        → k < 32
        → 1 < offset i k
        → cached (free_at ((i + 1) % 32) (free_at i b)) k ≡ cached b k
    kept k q far =
        free_at-others ((i + 1) % 32) k (free_at i b) (λ e. omega (arith, e))
        ∙ free_at-others i k b (λ e. omega (arith, e))

module _ (fuel i end_pos counter : ℕ) (b : Fec2Buffer) where
  clear_loop_last :
      (i + 1) % max_fec2_cache_capacity == end_pos ≡ true
      → let i' = (i + 1) % max_fec2_cache_capacity in
        clear_loop (suc fuel) i end_pos counter b
        ≡ some (
          free_at i' (free_at i b),
          counter + cached_num (cached b i) + cached_num (cached (free_at i b) i'),
        )
  unfolding clear_loop
  clear_loop_last last = rw (last, clear_loop) refl

  clear_loop_more :
      (i + 1) % max_fec2_cache_capacity == end_pos ≡ false
      → clear_loop (suc fuel) i end_pos counter b
        ≡ clear_loop fuel
            ((i + 1) % max_fec2_cache_capacity)
            end_pos
            (counter + cached_num (cached b i))
            (free_at i b)
  unfolding clear_loop
  clear_loop_more more = rw (more, clear_loop) refl

clear_loop-IsCleared :
    (fuel i end_pos counter : ℕ) (b : Fec2Buffer)
    → length b.pack_cache ≡ max_fec2_cache_capacity
    → i < 32
    → end_pos < 32
    → zone i end_pos ≤ fuel
    → (r : Fec2Buffer × ℕ) × (clear_loop fuel i end_pos counter b ≡ some r)
      × IsCleared i end_pos counter b r
unfolding zone offset
clear_loop-IsCleared zero i end_pos counter b size p q h = absurd (omega arith)
clear_loop-IsCleared (suc fuel) i end_pos counter b size p q h =
    let (len, sum, num, gone) = free_at-slots i b (omega (arith, size)) in
    let i' = (i + 1) % max_fec2_cache_capacity in
    let b1 = free_at i b in
    elim (Bool-cases (i' == end_pos)) [
      | inl last ↦
          let (len2, sum2, num2, gone2) = free_at-slots i' b1 (omega (arith, len, size)) in
          let (freed, kept) = cleared_last i b p size in
          let one : zone i end_pos ≡ 1 = ground arith in
          (
            _,
            clear_loop_last fuel i end_pos counter b last,
            (
              len2 ∙ len ∙ size,
              omega (arith, sum, sum2),
              num2 ∙ num,
              (λ k lt near. freed k lt (omega (arith, one, near))),
              λ k lt far. kept k lt (omega (arith, one, far)),
            ),
          )
      | inr more ↦
          let (r, e, (len2, sum2, num2, gone2, rest2)) =
            clear_loop-IsCleared fuel i' end_pos (counter + cached_num (cached b i)) b1 (len ∙ size)
              (omega arith) q (ground arith) in
          let (freed, kept) =
            cleared_step i end_pos b r.0 (omega (arith, size)) size q (λ e. ground arith) gone2
              rest2 in
          (
            r,
            clear_loop_more fuel i end_pos counter b more ∙ e,
            (len2, omega (arith, sum, sum2), num2 ∙ num, freed, kept),
          )
    ]

-- `Clear` ends at all positions in the cache, keeps the count, frees the slots of the zone and its
-- end, and no others. The zone has all 32 slots where `start_pos` is `end_pos`.
pub clear-zone :
    (b : Fec2Buffer) (start_pos end_pos : ℕ)
    → IsCounted b
    → start_pos < 32
    → end_pos < 32
    → (b' : Fec2Buffer) × (clear b start_pos end_pos ≡ some b')
      × IsCounted b'
      × ((k : ℕ) → k < 32 → offset start_pos k ≤ zone start_pos end_pos → cached b' k ≡ none)
      × ((k : ℕ) → k < 32 → zone start_pos end_pos < offset start_pos k → cached b' k ≡ cached b k)
unfolding clear count_cleared
clear-zone b start_pos end_pos (size, count) p q =
    let (r, e, (len, sum, num, freed, kept)) =
      clear_loop-IsCleared 32 start_pos end_pos 0 b size p q (unfold zone in omega arith) in
    let same : r.0.pack_num_in_cache - r.1 ≡ sum_by cached_num r.0.pack_cache =
      omega (arith, sum, num, count) in
    (
      count_cleared r,
      ap (Option.map count_cleared) e,
      (len, ground (arith, sum, num, count)),
      unfold cached in freed,
      unfold cached in kept,
    )
