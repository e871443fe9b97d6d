-- ===== src/Fec2/RoundTrip.antt =====
-- A packet that is pushed to the cache is found there, and popping it frees it.
use udpfec.Base.{
  ℕ, ◌%◌, ◌≡◌, ◌≢◌, ◌<◌, refl, ◌∷◌, true, false, Option, none, some, length, get_or-set_self,
  get_or-set_ne, length-set, arith, leb, ◌==◌, ◌∙◌,
}
use udpfec.Fec2.Buffer.{
  GtpPackCacheStru, Fec2Buffer, max_fec2_cache_capacity, cached, put_cached, buf_returned,
  count_popped, pop_found, pop_pack, take_slot, push_into, calc_pos_in_pack_cache, return_buf,
}

cached-take_slot :
    (b : Fec2Buffer) (o : Option GtpPackCacheStru) (p : GtpPackCacheStru)
    → p.cache_id < length b.pack_cache
    → (cached (take_slot b o p) p.cache_id ≡ some p)
      × ((k : ℕ) → p.cache_id ≢ k → cached (take_slot b o p) k ≡ cached b k)
unfolding take_slot cached
cached-take_slot b none p h = (
  get_or-set_self b.pack_cache p.cache_id (some p) none h,
  λ k ne. get_or-set_ne b.pack_cache p.cache_id k (some p) none ne,
)
cached-take_slot b (some old) p h = (
  get_or-set_self b.pack_cache p.cache_id (some p) none h,
  λ k ne. get_or-set_ne b.pack_cache p.cache_id k (some p) none ne,
)

pop_found_same :
    (b : Fec2Buffer) (p : GtpPackCacheStru)
    → pop_found b p (some p) ≡ return_buf (put_cached (count_popped b) p.cache_id none) p.address
unfolding pop_found
pop_found_same b p = let same : p.address == p.address ≡ true = ground arith in rw same refl

pop_pack-cached :
    (b : Fec2Buffer) (p : GtpPackCacheStru)
    → p.cache_id < max_fec2_cache_capacity
    → cached b p.cache_id ≡ some p
    → pop_pack b p ≡ return_buf (put_cached (count_popped b) p.cache_id none) p.address
unfolding pop_pack
pop_pack-cached b p h e =
    let inside : leb max_fec2_cache_capacity p.cache_id ≡ false = ground arith in
    rw (inside, e) (pop_found_same b p)

popped_slots :
    (b : Fec2Buffer) (p : GtpPackCacheStru)
    → p.cache_id < length b.pack_cache
    → let b' = return_buf (put_cached (count_popped b) p.cache_id none) p.address in
      (cached b' p.cache_id ≡ none)
      × ((k : ℕ) → p.cache_id ≢ k → cached b' k ≡ cached b k)
      × (b'.buf_calls ≡ buf_returned p.address ∷ b.buf_calls)
unfolding cached count_popped
popped_slots b p h = (
  get_or-set_self b.pack_cache p.cache_id none none h,
  (λ k ne. get_or-set_ne b.pack_cache p.cache_id k none none ne),
  refl,
)

length-take_slot :
    (b : Fec2Buffer) (o : Option GtpPackCacheStru) (p : GtpPackCacheStru)
    → length (take_slot b o p).pack_cache ≡ length b.pack_cache
unfolding take_slot
length-take_slot b none p = length-set b.pack_cache p.cache_id (some p)
length-take_slot b (some old) p = length-set b.pack_cache p.cache_id (some p)

-- The packet stands in the slot of the low bits of its number, and no other slot changes; popping
-- it then empties the slot and returns its buffer, once.
pub push_into-pop_pack :
    (b : Fec2Buffer) (address pack_sn pack_size : ℕ)
    → length b.pack_cache ≡ max_fec2_cache_capacity
    → let pos = calc_pos_in_pack_cache pack_sn in
      let pushed = (push_into b address pack_sn pack_size).1 in
      (p : GtpPackCacheStru) × (p.address ≡ address)
      × ((push_into b address pack_sn pack_size).0 ≡ some p)
      × (cached pushed pos ≡ some p)
      × ((k : ℕ) → pos ≢ k → cached pushed k ≡ cached b k)
      × (cached (pop_pack pushed p) pos ≡ none)
      × ((k : ℕ) → pos ≢ k → cached (pop_pack pushed p) k ≡ cached b k)
      × ((pop_pack pushed p).buf_calls ≡ buf_returned address ∷ pushed.buf_calls)
unfolding push_into calc_pos_in_pack_cache cached
push_into-pop_pack b address pack_sn pack_size size =
    let pos = pack_sn % max_fec2_cache_capacity in
    let p : GtpPackCacheStru = record {
      address = address;
      cache_id = pos;
      payload_len = pack_size % 65536;
    } in
    let (here, others) = cached-take_slot b (cached b pos) p (omega (arith, size)) in
    let pushed = (push_into b address pack_sn pack_size).1 in
    let len = length-take_slot b (cached b pos) p in
    let popped = pop_pack-cached pushed p (omega arith) (here) in
    let (gone, kept, calls) = popped_slots pushed p (omega (arith, len, size)) in
    (
      p,
      refl,
      refl,
      here,
      others,
      rw popped gone,
      (λ k ne. rw popped (kept k ne) ∙ others k ne),
      rw popped calls,
    )
