-- ===== src/SlidWin/Rate.antt =====
-- The rate of packets that CalcPps of src/slidwin/slidwin.cpp keeps.
use udpfec.Base.{
  ℕ, ◌+◌, ◌-◌, ◌/◌, ◌%◌, ◌≤◌, ◌<◌, ◌≡◌, ap, ◌∙◌, List, Bool, true, false, ◌||◌, ltb, ◌==◌,
  if◌then◌else◌, length, length-set, get_or, set, sum_by, sum_by-set, sum_by-get_or, arith,
}
use Prim.Native.Nat.{bit_and}
use udpfec.Base.Masks.{bit_and-mask}
use udpfec.SlidWin.Stats.{WinStats, period_num, average_pps, calc_pps}

abbrev pub total : List ℕ → ℕ
total = sum_by (λ n. n)

-- The cached periods: all four once the cache has turned, else those in front of the position.
abbrev pub periods : WinStats → ℕ
periods s = if s.cache_pps_ring_flg then 4 else s.cur_cache_pps_pos

pub record IsRate (s : WinStats) : Type 0 where
  pub cached : length s.pps_cache_buf ≡ 4
  pub on_ring : s.cur_cache_pps_pos < 4
  pub sum : s.pps_sum ≡ total s.pps_cache_buf

some_period : (ring : Bool) (pos : ℕ) → 0 < (if ring || pos == 0 then 4 else pos)
some_period true pos = omega arith
some_period false pos = ground arith

mean_of :
    (full : Bool) (x y pos : ℕ)
    → x ≡ y
    → (if full then x / 4 else x / pos) ≡ y / (if full then 4 else pos)
mean_of true x y pos e = ap (λ t. t / 4) e
mean_of false x y pos e = ap (λ t. t / pos) e

average_pps-IsRate :
    (s : WinStats)
    → IsRate s
    → s.pps_sum + period_num s < 4294967296
    → IsRate (average_pps s)
      × (0 < periods (average_pps s))
      × ((average_pps s).avg_pps ≡ total (average_pps s).pps_cache_buf / periods (average_pps s))
unfolding average_pps
average_pps-IsRate s r small =
    let num = period_num s in
    let cache = s.pps_cache_buf in
    let pos = s.cur_cache_pps_pos in
    let inside : pos < length cache = omega (arith, r.cached, r.on_ring) in
    let old = sum_by-get_or (λ n. n) cache pos 0 inside in
    let new = sum_by-set (λ n. n) cache pos num 0 inside in
    let next = bit_and-mask 2 (pos + 1) in
    let sum : ((s.pps_sum + num) % 4294967296 + 4294967296 - get_or cache pos 0) % 4294967296
        ≡ total (set cache pos num) =
      omega (arith, old, new, r.sum) in
    (
      record {
        cached = length-set cache pos num ∙ r.cached;
        on_ring = omega (arith, next);
        sum = sum;
      },
      some_period s.cache_pps_ring_flg (bit_and (pos + 1) 3),
      mean_of (s.cache_pps_ring_flg || bit_and (pos + 1) 3 == 0) _ _ (bit_and (pos + 1) 3) sum,
    )

-- When a period is over and the counts do not overflow, CalcPps keeps the sum of the cached counts, and
-- the new rate is their mean over the periods so far, at most four; it never divides by zero, and the next
-- period starts at the current count.
pub calc_pps-IsRate :
    (scaled : ℕ → ℕ → ℕ) (s : WinStats) (ts_us : ℕ)
    → IsRate s
    → s.pps_sum + period_num s < 4294967296
    → s.calc_pps_ts_us ≤ ts_us
    → let s' = calc_pps scaled s ts_us in
      IsRate s'
      × (0 < periods s')
      × (s'.avg_pps ≡ total s'.pps_cache_buf / periods s')
      × (period_num s' ≡ 0)
unfolding calc_pps period_num
calc_pps-IsRate scaled s ts_us r small due =
    let over : ltb ts_us s.calc_pps_ts_us ≡ false = ground (arith, due) in
    let (r', some, mean) = average_pps-IsRate s r small in
    rw over
      (record { cached = r'.cached; on_ring = r'.on_ring; sum = r'.sum }, some, mean, ground arith)
