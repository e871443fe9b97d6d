-- ===== src/Fec2/Counted.antt =====
-- Each operation of `Fec2Buffer` keeps the count of the cached packets.
use udpfec.Base.{
  ℕ, zero, suc, ◌+◌, ◌%◌, ◌≡◌, ◌<◌, ◌≤◌, refl, sym, List, [], ◌∷◌, Bool, true, false, Option, none,
  some, length, sum_by, sum_by-set, sum_by_zero, get_or, length-set, arith, leb, ◌==◌, ap, ◌∙◌, inl,
  inr, Bool-cases,
}
use mathlib.Core.Path.{subst}
use udpfec.Fec2.Buffer.{
  GtpPackCacheStru, Fec2Buffer, max_fec2_cache_capacity, cached, put_cached, cached_num,
  count_popped, pop_found, pop_pack, pop_pos_found, pop_pos, pop_from, pop_all_pack, take_slot,
  push_into, push_new, push_pack, calc_pos_in_pack_cache,
}
use udpfec.Fec2.Clear.{IsCounted, free_at, free_at-slots, free_at-others}

cached_num_le : (l : List (Option GtpPackCacheStru)) → sum_by cached_num l ≤ length l
unfolding cached_num
cached_num_le [] = omega arith
cached_num_le (none ∷ r) = omega (arith, cached_num_le r)
cached_num_le (some p ∷ r) = omega (arith, cached_num_le r)

-- A slot that holds a packet is emptied and counted.
popped-IsCounted :
    (b : Fec2Buffer) (pos : ℕ) (p : GtpPackCacheStru)
    → IsCounted b
    → pos < max_fec2_cache_capacity
    → cached b pos ≡ some p
    → IsCounted (put_cached (count_popped b) pos none)
unfolding cached cached_num count_popped
popped-IsCounted b pos p (size, count) h e =
    let s = sum_by-set cached_num b.pack_cache pos none none (omega (arith, size)) in
    let one : cached_num (get_or b.pack_cache pos none) ≡ 1 = ap cached_num e in
    (length-set b.pack_cache pos none ∙ size, ground (arith, s, one, count))

pop_found-IsCounted :
    (b : Fec2Buffer) (pack : GtpPackCacheStru) (o : Option GtpPackCacheStru)
    → IsCounted b
    → pack.cache_id < max_fec2_cache_capacity
    → cached b pack.cache_id ≡ o
    → IsCounted (pop_found b pack o)
unfolding pop_found count_popped
pop_found-IsCounted b pack none counted h e = counted
pop_found-IsCounted b pack (some other) counted h e =
    elim (Bool-cases (pack.address == other.address)) [
      | inl same ↦ rw same (popped-IsCounted b pack.cache_id other counted h e)
      | inr differs ↦ rw differs (popped-IsCounted b pack.cache_id other counted h e)
    ]

pub pop_pack-IsCounted :
    (b : Fec2Buffer) (pack : GtpPackCacheStru) → IsCounted b → IsCounted (pop_pack b pack)
unfolding pop_pack
pop_pack-IsCounted b pack counted = elim (Bool-cases (leb max_fec2_cache_capacity pack.cache_id)) [
  | inl out ↦ rw out counted
  | inr inside ↦
      rw inside (pop_found-IsCounted b pack (cached b pack.cache_id) counted (ground arith) refl)
]

pop_pos_found-IsCounted :
    (b : Fec2Buffer) (pos : ℕ) (o : Option GtpPackCacheStru)
    → IsCounted b
    → pos < max_fec2_cache_capacity
    → cached b pos ≡ o
    → IsCounted (pop_pos_found b pos o)
unfolding pop_pos_found count_popped
pop_pos_found-IsCounted b pos none counted h e = counted
pop_pos_found-IsCounted b pos (some p) counted h e = popped-IsCounted b pos p counted h e

pub pop_pos-IsCounted : (b : Fec2Buffer) (pos : ℕ) → IsCounted b → IsCounted (pop_pos b pos)
unfolding pop_pos
pop_pos-IsCounted b pos counted = elim (Bool-cases (leb max_fec2_cache_capacity pos)) [
  | inl out ↦ rw out counted
  | inr inside ↦
      rw inside (pop_pos_found-IsCounted b pos (cached b pos) counted (ground arith) refl)
]

take_slot-IsCounted :
    (b : Fec2Buffer) (o : Option GtpPackCacheStru) (p : GtpPackCacheStru)
    → IsCounted b
    → p.cache_id < max_fec2_cache_capacity
    → cached b p.cache_id ≡ o
    → IsCounted (take_slot b o p)
unfolding take_slot cached cached_num
take_slot-IsCounted b none p (size, count) h e =
    let s = sum_by-set cached_num b.pack_cache p.cache_id (some p) none (omega (arith, size)) in
    let zero_before : cached_num (get_or b.pack_cache p.cache_id none) ≡ 0 = ap cached_num e in
    let le = cached_num_le b.pack_cache in
    (
      length-set b.pack_cache p.cache_id (some p) ∙ size,
      omega (arith, s, zero_before, count, le, size),
    )
take_slot-IsCounted b (some old) p (size, count) h e =
    let s = sum_by-set cached_num b.pack_cache p.cache_id (some p) none (omega (arith, size)) in
    let one : cached_num (get_or b.pack_cache p.cache_id none) ≡ 1 = ap cached_num e in
    (length-set b.pack_cache p.cache_id (some p) ∙ size, omega (arith, s, one, count))

push_into-IsCounted :
    (b : Fec2Buffer) (address pack_sn pack_size : ℕ)
    → IsCounted b
    → IsCounted (push_into b address pack_sn pack_size).1
unfolding push_into calc_pos_in_pack_cache
push_into-IsCounted b address pack_sn pack_size counted =
    let p : GtpPackCacheStru = record {
      address = address;
      cache_id = pack_sn % max_fec2_cache_capacity;
      payload_len = pack_size % 65536;
    } in
    take_slot-IsCounted b (cached b (pack_sn % max_fec2_cache_capacity)) p counted (omega arith)
      refl

push_new-IsCounted :
    (malloced : Option ℕ) (b : Fec2Buffer) (pack_sn pack_size : ℕ)
    → IsCounted b
    → IsCounted (push_new malloced b pack_sn pack_size).1
unfolding push_new
push_new-IsCounted none b pack_sn pack_size counted = counted
push_new-IsCounted (some address) b pack_sn pack_size counted =
    push_into-IsCounted _ address pack_sn pack_size counted

pub push_pack-IsCounted :
    (new : Bool) (malloced : Option ℕ) (b : Fec2Buffer) (address pack_sn pack_size : ℕ)
    → IsCounted b
    → IsCounted (push_pack new malloced b address pack_sn pack_size).1
unfolding push_pack
push_pack-IsCounted true malloced b address pack_sn pack_size counted =
    push_new-IsCounted malloced b pack_sn pack_size counted
push_pack-IsCounted false malloced b address pack_sn pack_size counted =
    push_into-IsCounted _ address pack_sn pack_size counted

-- `n` slots from `i` on are freed, and those that are free stay so.
pop_from-free :
    (n i : ℕ) (b : Fec2Buffer)
    → length b.pack_cache ≡ n + i
    → (length (pop_from n i b).pack_cache ≡ n + i)
      × ((k : ℕ) → k < i → cached b k ≡ none → cached (pop_from n i b) k ≡ none)
      × ((k : ℕ) → i ≤ k → k < n + i → cached (pop_from n i b) k ≡ none)
unfolding pop_from
pop_from-free zero i b h = (h, (λ k p e. e), λ k p q. absurd (omega arith))
pop_from-free (suc n) i b h =
    let (len, sum, num, gone) = free_at-slots i b (omega (arith, h)) in
    let (len', stays, freed) = pop_from-free n (i + 1) (free_at i b) (omega (arith, len, h)) in
    (
      omega (arith, len'),
      (λ k p e. stays k (omega arith) (free_at-others i k b (λ x. omega (arith, x)) ∙ e)),
      λ k p q. elim (Bool-cases (k == i)) [
        | inl same ↦
            stays k (ground arith)
              (subst (λ x. cached (free_at i b) x ≡ none) (let e : i ≡ k = ground arith in e) gone)
        | inr other ↦ freed k (ground arith) (omega arith)
      ],
    )

pub pop_all_pack-IsCounted : (b : Fec2Buffer) → IsCounted b → IsCounted (pop_all_pack b)
unfolding pop_all_pack
pop_all_pack-IsCounted b (size, count) = elim (Bool-cases (b.pack_num_in_cache == 0)) [
  | inl bare ↦ rw bare (size, count)
  | inr some_left ↦
      let (len, stays, freed) = pop_from-free 32 0 b size in
      let none_left = sum_by_zero cached_num (pop_from 32 0 b).pack_cache none (λ k p.
        unfold cached cached_num in
        ap cached_num (freed k (omega arith) (omega (arith, len, p)))) in
      rw some_left (len, sym none_left)
]
