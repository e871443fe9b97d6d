-- ===== src/SlidWin/Steps.antt =====
-- The steps by which the session's window moves (MoveWin of src/slidwin/slidwin.cpp): the reserve that is
-- kept, and that a move keeps the set of numbers.
use udpfec.Base.{
  ℕ, zero, suc, ◌+◌, ◌-◌, ◌%◌, ◌≤◌, ◌≡◌, refl, List, [], ◌∷◌, Bool, true, ◌&&◌, leb, ◌==◌,
  if◌then◌else◌, get_or, some, arith, inl, inr, Bool-cases,
}
use udpfec.Base.Words.{bit_and-clear}
use udpfec.SlidWin.Stats.{WinStats, row_of, table, pps_bounds}
use udpfec.SlidWin.Window.{SlidWin}
use udpfec.SlidWin.Move.{
  std_filter_reserve_size, std_tran_reserve_size, calc_filter_win_reserve_size,
  calc_tran_win_reserve_size, valid_move_step, move_win,
}
use udpfec.SlidWin.Refine.{Refines, Moved, move_borders-Refines}
use udpfec.SlidWin.Marked.{if_either}

abbrev all_le : ℕ → List ℕ → Bool
all_le bound [] = true
all_le bound (x ∷ xs) = leb x bound && all_le bound xs

abbrev table_le : ℕ → List (List ℕ) → Bool
table_le bound [] = true
table_le bound (row ∷ rows) = all_le bound row && table_le bound rows

get_or-all_le : (bound : ℕ) (xs : List ℕ) (i : ℕ) → all_le bound xs ≡ true → get_or xs i 0 ≤ bound
get_or-all_le bound [] i h = omega arith
get_or-all_le bound (x ∷ xs) zero h = ground arith
get_or-all_le bound (x ∷ xs) (suc i) h = get_or-all_le bound xs i (ground arith)

table-table_le :
    (bound : ℕ) (rows : List (List ℕ)) (i column : ℕ)
    → table_le bound rows ≡ true
    → table rows i column ≤ bound
unfolding table
table-table_le bound [] i column h = omega arith
table-table_le bound (row ∷ rows) zero column h = get_or-all_le bound row column (ground arith)
table-table_le bound (row ∷ rows) (suc i) column h =
    table-table_le bound rows i column (ground arith)

filter_reserve : (s : WinStats) → calc_filter_win_reserve_size s ≤ 768
unfolding calc_filter_win_reserve_size
filter_reserve s =
    table-table_le 768 std_filter_reserve_size (row_of (50 ∷ 100 ∷ 150 ∷ 200 ∷ 300 ∷ []) s.avg_pps)
      (row_of (50000 ∷ 100000 ∷ 150000 ∷ []) s.cur_rtt_us) refl

tran_reserve : (s : WinStats) → calc_tran_win_reserve_size s ≤ 768
unfolding calc_tran_win_reserve_size
tran_reserve s =
    table-table_le 768 std_tran_reserve_size (row_of pps_bounds s.avg_pps)
      (row_of (50000 ∷ 100000 ∷ 150000 ∷ []) s.cur_rtt_us) refl

-- A multiple of 64 remains, and at most the reserve of 768 and 63 are lost.
pub valid_move_step_lem :
    (w : SlidWin) (step : ℕ)
    → step ≤ 3072
    → (valid_move_step w step % 64 ≡ 0)
      × (valid_move_step w step ≤ step)
      × (step ≤ valid_move_step w step + 831)
unfolding valid_move_step
valid_move_step_lem w step h =
    let reserve =
      if w.filter_win_flag
      then calc_filter_win_reserve_size w.stats
      else calc_tran_win_reserve_size w.stats in
    let small : reserve ≤ 768 =
      if_either (λ t. t ≤ 768) w.filter_win_flag _ _ (filter_reserve w.stats)
        (tran_reserve w.stats) in
    let cut = bit_and-clear 6 16 (step - reserve) (omega arith) (omega arith) in
    rw cut (ground (arith, small))

pub move_win-Refines :
    (w : SlidWin) (seen : ℕ → Bool) (step : ℕ)
    → Refines w seen
    → step ≤ 2112
    → w.l_border_sn + step + 8192 ≤ 4294967296
    → (w' : SlidWin) × (move_win w step ≡ some w')
      × Refines w' seen
      × Moved w w' (valid_move_step w step)
unfolding move_win
move_win-Refines w seen step r h far =
    let (whole, shorter, _) = valid_move_step_lem w step (omega arith) in
    elim (Bool-cases (valid_move_step w step == 0)) [
      | inl none_left ↦
          let e : valid_move_step w step ≡ 0 = ground arith in
          (
            w,
            rw none_left refl,
            r,
            record {
              left = omega (arith, e);
              left_pos = omega (arith, e, r.order.on_ring);
              mode = refl;
              newest = refl;
            },
          )
      | inr some_left ↦
          let (w', run, r', m) =
            move_borders-Refines w seen (valid_move_step w step) r whole (omega arith)
              (omega arith) in
          (w', rw some_left run, r', m)
    ]
