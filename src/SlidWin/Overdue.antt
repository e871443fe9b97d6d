-- ===== src/SlidWin/Overdue.antt =====
-- GetRtoTmoutPos (src/slidwin/slidwin.cpp): it ends in its range, and on which side of the overdue
-- packets.
use udpfec.Base.{
  ℕ, zero, suc, ◌+◌, ◌-◌, ◌/◌, ◌≤◌, ◌<◌, ◌≡◌, refl, true, false, ltb, leb, ◌==◌, if◌then◌else◌,
  Option, some, get_or, arith, inl, inr, Bool-cases, ap, ◌∙◌,
}
use Prim.Native.Nat.{max}
use udpfec.SlidWin.Marked.{if_either}
use udpfec.SlidWin.Window.{SlidWin}
use udpfec.SlidWin.Tmout.{
  tmout_search, calc_delta_ts_ms, get_rto_tmout_pos_by_ts, get_rto_tmout_pos_by_sn,
}

-- The search finds a position of the range.
abbrev pub FindsWithin : ℕ → ℕ → Option ℕ → Type 0
FindsWithin begin_pos end_pos found = (p : ℕ) × (found ≡ some p) × (begin_pos ≤ p) × (p ≤ end_pos)

search_total :
    (delta : ℕ → ℕ) (rto fuel begin_pos end_pos top : ℕ)
    → end_pos < fuel
    → begin_pos ≤ top
    → end_pos ≤ top
    → FindsWithin begin_pos top (tmout_search delta rto fuel begin_pos end_pos)
unfolding tmout_search
search_total delta rto zero begin_pos end_pos top enough low high = absurd (omega arith)
search_total delta rto (suc fuel) begin_pos end_pos top enough low high =
    let mid = (end_pos - begin_pos) / 2 + begin_pos in
    elim (Bool-cases (leb end_pos begin_pos)) [
      | inl small ↦ (begin_pos, rw small refl, omega arith, low)
      | inr wide ↦
          let open_range : begin_pos < end_pos = ground arith in
          let left =
            search_total delta rto fuel (begin_pos + 1) (mid - 1) top (omega (arith, open_range))
              (omega (arith, open_range)) (omega (arith, open_range)) in
          let right =
            search_total delta rto fuel (mid + 1) (end_pos - 1) top (omega (arith, open_range))
              (omega (arith, open_range)) (omega (arith, open_range)) in
          let here = FindsWithin begin_pos top in
          rw wide (
            if_either here (leb (delta begin_pos) rto) _ _ (begin_pos, refl, omega arith, low)
              (if_either here (leb rto (delta end_pos)) _ _
                (end_pos, refl, omega (arith, open_range), high)
                (if_either here (rto == delta mid) _ _
                  (mid, refl, omega arith, omega (arith, open_range))
                  (if_either here (ltb rto (delta mid)) _ _
                    (left.0, left.1, omega (arith, left.2), left.3)
                    (right.0, right.1, omega (arith, right.2), right.3)))))
    ]

-- Both searches end, at a position from the begin to the end of the range, or at the begin of an empty one.
pub get_rto_tmout_pos_total :
    (w : SlidWin) (begin_pos end_pos rto_ts_ms cur_ts_ms max_sn_pos : ℕ)
    → FindsWithin begin_pos
        (max begin_pos end_pos)
        (get_rto_tmout_pos_by_ts w begin_pos end_pos rto_ts_ms cur_ts_ms)
      × FindsWithin begin_pos
          (max begin_pos end_pos)
          (get_rto_tmout_pos_by_sn w begin_pos end_pos max_sn_pos)
unfolding get_rto_tmout_pos_by_ts get_rto_tmout_pos_by_sn
get_rto_tmout_pos_total w begin_pos end_pos rto_ts_ms cur_ts_ms max_sn_pos =
    let top = max begin_pos end_pos in
    (
      search_total _ rto_ts_ms (end_pos + 1) begin_pos end_pos top (omega arith) (omega arith)
          (omega arith),
      search_total _ w.stats.rto_sn_num (end_pos + 1) begin_pos end_pos top (omega arith)
          (omega arith) (omega arith),
    )

step_in :
    (delta : ℕ → ℕ) (rto fuel begin_pos end_pos : ℕ)
    → begin_pos < end_pos
    → rto < delta begin_pos
    → delta end_pos < rto
    → let mid = (end_pos - begin_pos) / 2 + begin_pos in
      tmout_search delta rto (suc fuel) begin_pos end_pos ≡ (
        if rto == delta mid
        then some mid
        else if ltb rto (delta mid)
        then tmout_search delta rto fuel (begin_pos + 1) (mid - 1)
        else tmout_search delta rto fuel (mid + 1) (end_pos - 1))
unfolding tmout_search
step_in delta rto fuel begin_pos end_pos wide old young =
    let a : leb end_pos begin_pos ≡ false = ground arith in
    let b : leb (delta begin_pos) rto ≡ false = ground arith in
    let c : leb rto (delta end_pos) ≡ false = ground arith in rw (a, b, c) refl

-- A range whose first position is not overdue.
stop_first :
    (delta : ℕ → ℕ) (rto fuel begin_pos end_pos : ℕ)
    → delta begin_pos ≤ rto
    → tmout_search delta rto (suc fuel) begin_pos end_pos ≡ some begin_pos
unfolding tmout_search
stop_first delta rto fuel begin_pos end_pos young =
    let b : leb (delta begin_pos) rto ≡ true = ground arith in
    rw b (if_either (λ t. t ≡ some begin_pos) (leb end_pos begin_pos) _ _ refl refl)

-- A range whose last position is overdue.
stop_last :
    (delta : ℕ → ℕ) (rto fuel begin_pos end_pos : ℕ)
    → rto < delta begin_pos
    → rto ≤ delta end_pos
    → tmout_search delta rto (suc fuel) begin_pos end_pos ≡ some (max begin_pos end_pos)
unfolding tmout_search
stop_last delta rto fuel begin_pos end_pos first last = ground arith

stop_empty :
    (delta : ℕ → ℕ) (rto fuel begin_pos end_pos : ℕ)
    → end_pos ≤ begin_pos
    → tmout_search delta rto (suc fuel) begin_pos end_pos ≡ some begin_pos
unfolding tmout_search
stop_empty delta rto fuel begin_pos end_pos small =
    let a : leb end_pos begin_pos ≡ true = ground arith in rw a refl

module _ (delta : ℕ → ℕ) (rto fuel begin_pos end_pos : ℕ) (wide : begin_pos < end_pos)
    (older : (i j : ℕ) → begin_pos ≤ i → i ≤ j → j ≤ end_pos → delta j ≤ delta i)
    (old : rto < delta begin_pos) (young : delta end_pos < rto) where
  abbrev mid : ℕ
  mid = (end_pos - begin_pos) / 2 + begin_pos

  left_half :
      rto < delta mid
      → tmout_search delta rto (suc fuel) (begin_pos + 1) (mid - 1)
        ≡ some (max (begin_pos + 1) (mid - 1))
  left_half overdue = elim (Bool-cases (leb (mid - 1) (begin_pos + 1))) [
    | inl small ↦
        let e : mid - 1 ≤ begin_pos + 1 = ground arith in
        stop_empty delta rto fuel (begin_pos + 1) (mid - 1) e ∙ ap some (omega (arith, e))
    | inr wider ↦
        let e : begin_pos + 1 < mid - 1 = ground arith in
        let first = older (begin_pos + 1) mid (omega arith) (omega (arith, e)) (omega arith) in
        let last = older (mid - 1) mid (omega (arith, e)) (omega arith) (omega arith) in
        stop_last delta rto fuel (begin_pos + 1) (mid - 1) (omega (arith, first))
          (omega (arith, last))
  ]

  search_middle :
      tmout_search delta rto (suc (suc fuel)) begin_pos end_pos
      ≡ some (
          if rto == delta mid
          then mid
          else if ltb rto (delta mid)
          then max (begin_pos + 1) (mid - 1)
          else mid + 1)
  search_middle =
      step_in delta rto (suc fuel) begin_pos end_pos wide old young
      ∙ elim (Bool-cases (rto == delta mid)) [
        | inl same ↦ rw same refl
        | inr other ↦ elim (Bool-cases (ltb rto (delta mid))) [
          | inl overdue ↦ rw (other, overdue) (left_half (ground arith))
          | inr fresh ↦
              let next = older mid (mid + 1) (omega arith) (omega arith) (omega arith) in
              let e : delta mid ≤ rto = ground (arith, fresh) in
              rw (other, fresh)
                (stop_first delta rto fuel (mid + 1) (end_pos - 1) (omega (arith, next)))
        ]
      ]

-- The time since the packet at a position was sent.
abbrev pub delay : SlidWin → ℕ → ℕ → ℕ
delay w cur_ts_ms pos = calc_delta_ts_ms cur_ts_ms (get_or w.sn_ts_ms pos 0)

abbrev pub middle : ℕ → ℕ → ℕ
middle begin_pos end_pos = (end_pos - begin_pos) / 2 + begin_pos

-- Where the delays fall along a range that begins with an overdue packet and ends with one that is not, the
-- search by times ends at the middle where the delay there is the timeout, and right behind the middle where
-- it is less. Where the packet in the middle is overdue, it ends right in front of the middle, but not before
-- the second position of the range.
pub get_rto_tmout_pos_middle :
    (w : SlidWin) (begin_pos end_pos rto_ts_ms cur_ts_ms : ℕ)
    → begin_pos < end_pos
    → ((i j : ℕ) → begin_pos ≤ i → i ≤ j → j ≤ end_pos → delay w cur_ts_ms j ≤ delay w cur_ts_ms i)
    → rto_ts_ms < delay w cur_ts_ms begin_pos
    → delay w cur_ts_ms end_pos < rto_ts_ms
    → get_rto_tmout_pos_by_ts w begin_pos end_pos rto_ts_ms cur_ts_ms
      ≡ some (
          if rto_ts_ms == delay w cur_ts_ms (middle begin_pos end_pos)
          then middle begin_pos end_pos
          else if ltb rto_ts_ms (delay w cur_ts_ms (middle begin_pos end_pos))
          then max (begin_pos + 1) (middle begin_pos end_pos - 1)
          else middle begin_pos end_pos + 1)
unfolding get_rto_tmout_pos_by_ts
get_rto_tmout_pos_middle w begin_pos end_pos rto_ts_ms cur_ts_ms wide older old young =
    let fuel : end_pos + 1 ≡ suc (suc (end_pos - 1)) = omega arith in
    ap (λ f. tmout_search (delay w cur_ts_ms) rto_ts_ms f begin_pos end_pos) fuel
    ∙ search_middle (delay w cur_ts_ms) rto_ts_ms (end_pos - 1) begin_pos end_pos wide older old
        young
