-- ===== src/Fec2/Buffer.antt =====
-- `Fec2Buffer` (src/fec2/goodtp_fec2_buffer.cpp), a cache of 32 packets by the low bits of their
-- sequence numbers. An address is that of a pool buffer: the pool takes any address inside of one.
use udpfec.Base.{
  ℕ, zero, suc, ◌+◌, ◌-◌, ◌%◌, List, [], ◌∷◌, Bool, true, false, Option, none, some, ltb, leb, ◌==◌,
  if◌then◌else◌, get_or, set, replicate,
}
use mathlib.Core.Option

abbrev pub max_fec2_cache_capacity : ℕ
max_fec2_cache_capacity = 32

-- A `GtpPackCacheStru` in its buffer.
pub record GtpPackCacheStru : Type 0 where
  pub address : ℕ
  pub cache_id : ℕ
  pub payload_len : ℕ

pub data BufCall : Type 0 where
  buf_reserved : Option ℕ → BufCall
  buf_ref_added : ℕ → BufCall
  buf_returned : ℕ → BufCall

pub record Fec2Buffer : Type 0 where
  pub pack_cache : List (Option GtpPackCacheStru)
  pub pack_num_in_cache : ℕ
  pub max_cached_sn : ℕ
  pub buf_calls : List BufCall

unfoldable pub fec2_buffer : Fec2Buffer
fec2_buffer = record {
  pack_cache = replicate 32 none;
  pack_num_in_cache = 0;
  max_cached_sn = 0;
  buf_calls = [];
}

unfoldable pub calc_pos_in_pack_cache : ℕ → ℕ
calc_pos_in_pack_cache pack_sn = pack_sn % max_fec2_cache_capacity

unfoldable pub cached : Fec2Buffer → ℕ → Option GtpPackCacheStru
cached b pos = get_or b.pack_cache pos none

abbrev pub put_cached : Fec2Buffer → ℕ → Option GtpPackCacheStru → Fec2Buffer
put_cached b pos p = record b { pack_cache = set b.pack_cache pos p }

abbrev pub return_buf : Fec2Buffer → ℕ → Fec2Buffer
return_buf b address = record b { buf_calls = buf_returned address ∷ b.buf_calls }

-- A slot is freed where it holds a packet.
unfoldable pub free_cached_at : Option GtpPackCacheStru → ℕ → Fec2Buffer → Fec2Buffer
free_cached_at none pos b = b
free_cached_at (some p) pos b = put_cached (return_buf b p.address) pos none

unfoldable pub cached_num : Option GtpPackCacheStru → ℕ
cached_num none = 0
cached_num (some p) = 1

-- The loop of `PopAllPack`: `n` slots from `i` on.
unfoldable pub pop_from : ℕ → ℕ → Fec2Buffer → Fec2Buffer
pop_from zero i b = b
pop_from (suc n) i b = pop_from n (i + 1) (free_cached_at (cached b i) i b)

unfoldable pub pop_all_pack : Fec2Buffer → Fec2Buffer
pop_all_pack b =
    if b.pack_num_in_cache == 0
    then b
    else record (pop_from max_fec2_cache_capacity 0 b) { pack_num_in_cache = 0 }

unfoldable pub init : Fec2Buffer → Fec2Buffer
init b = pop_all_pack b

-- The loop of `Clear` with its counter, on fuel, and the slot of `end_pos` after it.
unfoldable pub clear_loop : ℕ → ℕ → ℕ → ℕ → Fec2Buffer → Option (Fec2Buffer × ℕ)
clear_loop zero i end_pos counter b = none
clear_loop (suc fuel) i end_pos counter b =
    let freed = free_cached_at (cached b i) i b in
    let n = counter + cached_num (cached b i) in
    let i' = (i + 1) % max_fec2_cache_capacity in
    elim (i' == end_pos) [
      | true ↦ some (free_cached_at (cached freed i') i' freed, n + cached_num (cached freed i'))
      | false ↦ clear_loop fuel i' end_pos n freed
    ]

unfoldable pub count_cleared : Fec2Buffer × ℕ → Fec2Buffer
count_cleared (b, counter) = record b {
  pack_num_in_cache = if leb counter b.pack_num_in_cache then b.pack_num_in_cache - counter else 0;
}

unfoldable pub clear : Fec2Buffer → ℕ → ℕ → Option Fec2Buffer
clear b start_pos end_pos =
    Option.map count_cleared (clear_loop max_fec2_cache_capacity start_pos end_pos 0 b)

unfoldable pub count_popped : Fec2Buffer → Fec2Buffer
count_popped b = record b {
  pack_num_in_cache =
      if ltb 0 b.pack_num_in_cache then b.pack_num_in_cache - 1 else b.pack_num_in_cache;
}

-- `PopPack(GtpPackCacheStru*)` at a packet whose slot holds the second argument.
unfoldable pub pop_found : Fec2Buffer → GtpPackCacheStru → Option GtpPackCacheStru → Fec2Buffer
pop_found b pack none = return_buf b pack.address
pop_found b pack (some other) =
    let counted = count_popped b in
    if pack.address == other.address
    then return_buf (put_cached counted pack.cache_id none) pack.address
    else return_buf (put_cached (return_buf counted other.address) pack.cache_id none) pack.address

unfoldable pub pop_pack : Fec2Buffer → GtpPackCacheStru → Fec2Buffer
pop_pack b pack =
    if leb max_fec2_cache_capacity pack.cache_id
    then b
    else pop_found b pack (cached b pack.cache_id)

-- `PopPack(const goodtp_pos&)`
unfoldable pub pop_pos_found : Fec2Buffer → ℕ → Option GtpPackCacheStru → Fec2Buffer
pop_pos_found b cache_pos none = b
pop_pos_found b cache_pos (some p) =
    put_cached (return_buf (count_popped b) p.address) cache_pos none

unfoldable pub pop_pos : Fec2Buffer → ℕ → Fec2Buffer
pop_pos b cache_pos =
    if leb max_fec2_cache_capacity cache_pos
    then b
    else pop_pos_found b cache_pos (cached b cache_pos)

unfoldable pub next_max_sn : ℕ → ℕ → ℕ
next_max_sn max_cached_sn pack_sn =
    if leb max_cached_sn pack_sn
    then pack_sn
    else if leb ((4294967295 - max_cached_sn + pack_sn) % 4294967296) max_fec2_cache_capacity
    then pack_sn
    else max_cached_sn

-- The slot of a packet is taken over: what it cached_num is returned.
unfoldable pub take_slot : Fec2Buffer → Option GtpPackCacheStru → GtpPackCacheStru → Fec2Buffer
take_slot b none p =
    put_cached (record b { pack_num_in_cache = (b.pack_num_in_cache + 1) % 4294967296 }) p.cache_id
      (some p)
take_slot b (some old) p = put_cached (return_buf b old.address) p.cache_id (some p)

-- `PushPack` with the buffer at hand, for a packet of the given number and size.
unfoldable pub push_into : Fec2Buffer → ℕ → ℕ → ℕ → Option GtpPackCacheStru × Fec2Buffer
push_into b address pack_sn pack_size =
    let pos = calc_pos_in_pack_cache pack_sn in
    let p : GtpPackCacheStru = record {
      address = address;
      cache_id = pos;
      payload_len = pack_size % 65536;
    } in
    (
      some p,
      record (take_slot b (cached b pos) p) { max_cached_sn = next_max_sn b.max_cached_sn pack_sn },
    )

-- `PushPack` in a new buffer, which `malloc_tran_buf` gives.
unfoldable pub push_new : Option ℕ → Fec2Buffer → ℕ → ℕ → Option GtpPackCacheStru × Fec2Buffer
push_new none b pack_sn pack_size = (none, record b { buf_calls = buf_reserved none ∷ b.buf_calls })
push_new (some address) b pack_sn pack_size =
    push_into (record b { buf_calls = buf_reserved (some address) ∷ b.buf_calls }) address pack_sn
      pack_size

-- `need_new_buf` and the pool's answer, the packet's own buffer, its number and its size.
unfoldable pub push_pack :
    Bool → Option ℕ → Fec2Buffer → ℕ → ℕ → ℕ → Option GtpPackCacheStru × Fec2Buffer
push_pack need_new_buf malloced b address pack_sn pack_size =
    if need_new_buf
    then push_new malloced b pack_sn pack_size
    else push_into (record b { buf_calls = buf_ref_added address ∷ b.buf_calls }) address pack_sn
        pack_size
