-- ===== src/LossStat/Bounds.antt =====
-- Positions and rates of the statistics (socks5udpf/src/loss_stat.cpp) stay in their bounds.
use udpfec.Base.{
  ℕ, zero, suc, ◌+◌, ◌-◌, ◌*◌, ◌/◌, ◌%◌, ◌<◌, ◌≤◌, ◌≡◌, refl, ◌∙◌, List, [], ◌∷◌, Bool, true, false,
  ltb, leb, ◌==◌, if◌then◌else◌, length, length-replicate, arith, inl, inr, Bool-cases,
}
use native.Mathlib.Nat.{div-le_of_le-mul}
use udpfec.SlideWin.Buffer.{get_buf_bit, clr_buf_bit}
use udpfec.SlideWin.Bits.{length-set_buf_bit, length-clr_buf_bit}
use udpfec.LossStat.Stat.{
  LossStat, Counts, k_pkg_num_pps_max, reset, count_range, count_period, calc_pkg_loss_rate,
  first_packet, mark_packet, calc_when_due, cache_pkg_sn, sn_delta,
}

-- The counts after `rounds` more positions.
count_range_lem :
    (rounds i : ℕ) (c : Counts)
    → c.pkg_total + rounds < 65536
    → c.pkg_loss_count ≤ c.pkg_total
    → let c' = count_range rounds i c in
      (c'.pkg_total ≡ c.pkg_total + rounds)
      × (c'.pkg_loss_count ≤ c'.pkg_total)
      × (length c'.buf ≡ length c.buf)
unfolding count_range
count_range_lem zero i c h few = (omega arith, few, refl)
count_range_lem (suc rounds) i c h few = elim (Bool-cases (get_buf_bit c.buf 256 i)) [
  | inl received ↦
      let next : Counts = record {
        buf = clr_buf_bit c.buf 256 i;
        pkg_loss_count = c.pkg_loss_count;
        pkg_total = (c.pkg_total + 1) % 65536;
      } in
      let (total, lost, size) = count_range_lem rounds (i + 1) next (omega arith) (omega arith) in
      rw (received, count_range)
        (omega (arith, total, h), lost, size ∙ length-clr_buf_bit c.buf 256 i)
  | inr missing ↦
      let next : Counts = record {
        buf = c.buf;
        pkg_loss_count = (c.pkg_loss_count + 1) % 65536;
        pkg_total = (c.pkg_total + 1) % 65536;
      } in
      let (total, lost, size) = count_range_lem rounds (i + 1) next (omega arith) (omega arith) in
      rw (missing, count_range) (omega (arith, total, h), lost, size)
]

-- For two positions on the ring of 2048, the loops count as many positions as lie from the first up to the
-- last around the ring, of which at most all are lost, and keep the buffer's size.
pub count_period_lem :
    (buf : List ℕ) (first last : ℕ)
    → first < 2048
    → last < 2048
    → let c = count_period buf first last in
      (c.pkg_total ≡ (last + 2048 - first) % 2048)
      × (c.pkg_loss_count ≤ c.pkg_total)
      × (length c.buf ≡ length buf)
unfolding count_period
count_period_lem buf first last h k =
    let none_yet : Counts = record { buf = buf; pkg_loss_count = 0; pkg_total = 0 } in
    elim (Bool-cases (leb first last)) [
      | inl straight ↦
          let (total, lost, size) =
            count_range_lem (last - first) first none_yet (omega (arith, k)) (omega arith) in
          rw straight (total ∙ ground (arith, h, k), lost, size)
      | inr turned ↦
          let (total1, lost1, size1) =
            count_range_lem (2048 - first) first none_yet (omega arith) (omega arith) in
          let c1 = count_range (2048 - first) first none_yet in
          let (total, lost, size) = count_range_lem last 0 c1 (omega (arith, total1, k)) lost1 in
          rw turned (total ∙ ground (arith, total1, h, k), lost, size ∙ size1)
    ]

-- The positions are on the ring, the rate is at most 100 %, and the buffer keeps its size.
abbrev pub IsStat : LossStat → Type 0
IsStat s =
    (length s.pkg_loss_stat_buf ≡ 256)
    × (s.pos_idx_min < 2048)
    × (s.pos_idx_mid < 2048)
    × (s.pos_idx_max < 2048)
    × (s.pkg_loss_rate ≤ 10000)

reset-IsStat : (now_ms : ℕ) → IsStat (reset now_ms)
unfolding reset
reset-IsStat now_ms =
    (length-replicate {A = ℕ} 256 0, omega arith, omega arith, omega arith, omega arith)

rate_bound :
    (lost total : ℕ) → lost ≤ total → (if total == 0 then 0 else lost * 10000 / total) ≤ 10000
rate_bound lost total h = elim (Bool-cases (total == 0)) [
  | inl none_counted ↦ rw none_counted (omega arith)
  | inr some_counted ↦ rw some_counted (
      div-le_of_le-mul total
        (let turned : total * 10000 ≡ 10000 * total = omega arith in omega (arith, h)))
]

calc-IsStat : (s : LossStat) (cur_ms : ℕ) → IsStat s → IsStat (calc_pkg_loss_rate s cur_ms)
unfolding calc_pkg_loss_rate
calc-IsStat s cur_ms (size, min, mid, max, rate) =
    let pos_mid = if s.pos_idx_mid == s.pos_idx_min then s.pos_idx_max else s.pos_idx_mid in
    let on_ring : pos_mid < 2048 = ground (arith, mid, max) in
    let (total, lost, same) =
      count_period_lem s.pkg_loss_stat_buf s.pos_idx_min pos_mid min on_ring in
    let counts = count_period s.pkg_loss_stat_buf s.pos_idx_min pos_mid in
    (same ∙ size, on_ring, on_ring, max, rate_bound counts.pkg_loss_count counts.pkg_total lost)

either-IsStat : (b : Bool) (x y : LossStat) → IsStat x → IsStat y → IsStat (if b then x else y)
either-IsStat true x y h k = h
either-IsStat false x y h k = k

due-IsStat : (s : LossStat) (cur_ms : ℕ) → IsStat s → IsStat (calc_when_due s cur_ms)
unfolding calc_when_due
due-IsStat s cur_ms stat =
    either-IsStat (ltb cur_ms s.calc_loss_rate_time_ms) s (calc_pkg_loss_rate s cur_ms) stat
      (calc-IsStat s cur_ms stat)

mark-IsStat : (s : LossStat) (pkg_sn cur_ms : ℕ) → IsStat s → IsStat (mark_packet s pkg_sn cur_ms)
unfolding mark_packet
mark-IsStat s pkg_sn cur_ms (size, min, mid, max, rate) = (
  length-set_buf_bit s.pkg_loss_stat_buf 256 _ ∙ size,
  min,
  ground (arith, mid),
  ground (arith, max),
  rate,
)

cache-IsStat :
    (s : LossStat) (pkg_sn cur_ms now_ms : ℕ)
    → IsStat s
    → IsStat (cache_pkg_sn s pkg_sn cur_ms now_ms)
unfolding cache_pkg_sn first_packet
cache-IsStat s pkg_sn cur_ms now_ms stat =
    let (size, min, mid, max, rate) = stat in
    either-IsStat s.first_pkg (calc_when_due (first_packet s pkg_sn) cur_ms)
      (if leb k_pkg_num_pps_max (sn_delta s pkg_sn)
        then reset now_ms
        else calc_when_due (mark_packet s pkg_sn cur_ms) cur_ms)
      (due-IsStat (first_packet s pkg_sn) cur_ms
        (length-set_buf_bit s.pkg_loss_stat_buf 256 s.pos_idx_min ∙ size, min, mid, max, rate))
      (either-IsStat (leb k_pkg_num_pps_max (sn_delta s pkg_sn)) (reset now_ms)
        (calc_when_due (mark_packet s pkg_sn cur_ms) cur_ms) (reset-IsStat now_ms)
        (due-IsStat (mark_packet s pkg_sn cur_ms) cur_ms (mark-IsStat s pkg_sn cur_ms stat)))

-- A call with a packet's number, the time, and the clock's time.
pub record PacketAt : Type 0 where
  pub pkg_sn : ℕ
  pub cur_ms : ℕ
  pub now_ms : ℕ

unfoldable pub cache_all : LossStat → List PacketAt → LossStat
cache_all s [] = s
cache_all s (p ∷ rest) = cache_all (cache_pkg_sn s p.pkg_sn p.cur_ms p.now_ms) rest

cache_all_from : (s : LossStat) (packets : List PacketAt) → IsStat s → IsStat (cache_all s packets)
unfolding cache_all
cache_all_from s [] stat = stat
cache_all_from s (p ∷ rest) stat =
    cache_all_from (cache_pkg_sn s p.pkg_sn p.cur_ms p.now_ms) rest
      (cache-IsStat s p.pkg_sn p.cur_ms p.now_ms stat)

-- From `reset` on, after any packets at any times, the three positions are on the ring of 2048, the buffer
-- has its 256 bytes, and the rate is at most 10000 hundredths of a percent.
pub cache_all-IsStat :
    (start_ms : ℕ) (packets : List PacketAt) → IsStat (cache_all (reset start_ms) packets)
cache_all-IsStat start_ms packets = cache_all_from (reset start_ms) packets (reset-IsStat start_ms)
