-- ===== src/SlidWin/Enter.antt =====
-- SnEntryWin of the session's window (src/slidwin/slidwin.cpp), with `calc_loss_flag` SELF_NO, as an
-- operation on sets of numbers.
use udpfec.Base.{
  ℕ, ◌+◌, ◌-◌, ◌/◌, ◌%◌, ◌≤◌, ◌<◌, ◌≡◌, ◌⊎◌, refl, sym, ap, ◌∙◌, Bool, true, false, ltb, leb, some,
  arith, inl, inr,
}
use mathlib.Core.Path.{subst}
use udpfec.SlidWin.Window.{
  SlidWin, sn_success, MoveStep, no_move, must_reset, move_by, sn_span, sn_is_valid, pos_span,
  is_move_win,
}
use udpfec.SlidWin.Move.{valid_move_step, move_win}
use udpfec.SlidWin.Entry.{sn_pos, note_entry, mark_sn, entered, sn_entry_win}
use udpfec.SlidWin.Spans.{Moves, is_move_win-Moves}
use udpfec.SlidWin.Refine.{InOrder, Refines, ring}
use udpfec.SlidWin.Marked.{Leaves, with_sn, note_entry-Leaves, mark_sn-Leaves}
use udpfec.SlidWin.Steps.{valid_move_step_lem, move_win-Refines}

pub MoveStep-cases :
    (m : MoveStep) → (m ≡ no_move) ⊎ (m ≡ must_reset) ⊎ ((step : ℕ) × (m ≡ move_by step))
MoveStep-cases no_move = inl refl
MoveStep-cases must_reset = inr (inl refl)
MoveStep-cases (move_by step) = inr (inr (step, refl))

-- A number up to the right border is taken, and its position is that of its distance.
valid_sn :
    (w : SlidWin) (sn : ℕ)
    → InOrder w
    → w.l_border_sn ≤ sn
    → sn ≤ w.l_border_sn + 4096
    → (sn_is_valid w sn ≡ sn_success)
      × (sn_pos w sn ≡ (w.l_border_pos + (sn - w.l_border_sn)) % 8192)
unfolding sn_is_valid sn_span sn_pos
valid_sn w sn o above below =
    let after : leb w.l_border_sn sn ≡ true = ground arith in
    let inside : ltb w.cur_win_size (sn - w.l_border_sn) ≡ false = ground (arith, o.size) in
    (
      rw (after, inside) refl,
      rw after (ring (sn - w.l_border_sn + w.l_border_pos) ∙ ap (λ t. t % 8192) (omega arith)),
    )

-- The mark at a position that belongs to the number.
mark_at :
    (u : SlidWin) (seen : ℕ → Bool) (sn pos ts_us : ℕ)
    → Refines u seen
    → u.l_border_sn ≤ sn
    → sn < u.l_border_sn + 4096
    → pos ≡ (u.l_border_pos + (sn - u.l_border_sn)) % 8192
    → Leaves u (with_sn sn seen) (mark_sn u pos sn ts_us)
mark_at u seen sn pos ts_us r above below place =
    rw place (mark_sn-Leaves u seen sn (sn - u.l_border_sn) r ts_us (omega arith) (omega arith))

-- The number's move takes it into the first half of the window, and never restarts the window.
pub move_step :
    (w : SlidWin) (d : ℕ)
    → InOrder w
    → d ≤ 4096
    → Moves d 2048 (is_move_win w ((w.l_border_pos + d) % 8192))
unfolding pos_span
move_step w d o h =
    let pos = (w.l_border_pos + d) % 8192 in
    let span : pos_span w pos ≡ d = ground (arith, o.on_ring) in
    let half : w.cur_win_size / 2 ≡ 2048 = omega (arith, o.size) in
    let m = is_move_win-Moves w pos o.on_ring (omega arith) (omega (arith, o.size)) in
    let mv = is_move_win w pos in
    subst (λ t. Moves t 2048 mv) span (subst (λ t. Moves (pos_span w pos) t mv) half m)

module _ (scaled : ℕ → ℕ → ℕ) where
  entry_stays :
      (w : SlidWin) (sn p ts_us : ℕ)
      → sn_is_valid w sn ≡ sn_success
      → sn_pos w sn ≡ p
      → is_move_win (note_entry scaled w ts_us) p ≡ no_move
      → sn_entry_win scaled w sn ts_us
        ≡ some (mark_sn (note_entry scaled w ts_us) p sn ts_us, entered)
  unfolding sn_entry_win
  entry_stays w sn p ts_us valid pos stays =
      rw (valid, pos, stays, sn_entry_win)
        (ap (λ t. some (mark_sn (note_entry scaled w ts_us) t sn ts_us, entered)) pos)

  entry_moves :
      (w u : SlidWin) (sn p step ts_us : ℕ)
      → sn_is_valid w sn ≡ sn_success
      → sn_pos w sn ≡ p
      → is_move_win (note_entry scaled w ts_us) p ≡ move_by step
      → move_win (note_entry scaled w ts_us) step ≡ some u
      → sn_entry_win scaled w sn ts_us ≡ some (mark_sn u p sn ts_us, entered)
  unfolding sn_entry_win
  entry_moves w u sn p step ts_us valid pos moves run =
      rw (valid, pos, moves, run, sn_entry_win) (ap (λ t. some (mark_sn u t sn ts_us, entered)) pos)

  -- The window in which a number at most at the right border is marked.
  sn_entry_win_run :
      (w : SlidWin) (seen : ℕ → Bool) (sn ts_us : ℕ)
      → Refines w seen
      → w.l_border_sn ≤ sn
      → sn ≤ w.l_border_sn + 4096
      → sn + 8192 ≤ 4294967296
      → (u : SlidWin) × (sn_entry_win scaled w sn ts_us
          ≡ some (mark_sn u ((w.l_border_pos + (sn - w.l_border_sn)) % 8192) sn ts_us, entered))
        × Refines u seen
        × (w.l_border_sn ≤ u.l_border_sn)
        × (u.l_border_sn ≤ sn)
        × (sn < u.l_border_sn + 2879)
        × ((w.l_border_pos + (sn - w.l_border_sn)) % 8192
            ≡ (u.l_border_pos + (sn - u.l_border_sn)) % 8192)
  sn_entry_win_run w seen sn ts_us r above below far =
      let d = sn - w.l_border_sn in
      let p = (w.l_border_pos + d) % 8192 in
      let (valid, pos) = valid_sn w sn r.order above below in
      let v = note_entry scaled w ts_us in
      let (rv, s) = note_entry-Leaves scaled w seen ts_us r in
      let place : p ≡ (v.l_border_pos + d) % 8192 = omega (arith, s.same_l_pos) in
      let reach =
        subst (λ t. Moves d 2048 (is_move_win v t)) (sym place)
          (move_step v d rv.order (omega arith)) in
      elim (MoveStep-cases (is_move_win v p)) [
        | inl stays ↦
            let near = subst (Moves d 2048) stays reach in
            (
              v,
              entry_stays w sn p ts_us valid pos stays,
              rv,
              omega (arith, s.same_l_sn),
              omega (arith, s.same_l_sn),
              omega (arith, s.same_l_sn, near),
              omega (arith, s.same_l_sn, s.same_l_pos),
            )
        | inr (inl restarts) ↦ absurd (omega (arith, subst (Moves d 2048) restarts reach))
        | inr (inr (step, moves)) ↦
            let m = subst (Moves d 2048) moves reach in
            let (u, run, ru, moved) =
              move_win-Refines v seen step rv (omega (arith, m)) (omega (arith, m, s.same_l_sn)) in
            let (_, shorter, rest) = valid_move_step_lem v step (omega (arith, m)) in
            let left : u.l_border_sn ≡ w.l_border_sn + valid_move_step v step =
              omega (arith, moved.left, s.same_l_sn) in
            (
              u,
              entry_moves w u sn p step ts_us valid pos moves run,
              ru,
              omega (arith, left),
              omega (arith, left, m),
              omega (arith, left, m),
              omega (arith, left, moved.left_pos, s.same_l_pos, m),
            )
      ]

  -- With SELF_NO, a number in the window or at its right border is entered. The window then refines the set with this
  -- number, has moved no further than to the number, and holds it.
  pub sn_entry_win-Refines :
      (w : SlidWin) (seen : ℕ → Bool) (sn ts_us : ℕ)
      → Refines w seen
      → w.l_border_sn ≤ sn
      → sn ≤ w.l_border_sn + 4096
      → sn + 8192 ≤ 4294967296
      → (w' : SlidWin) × (sn_entry_win scaled w sn ts_us ≡ some (w', entered))
        × Refines w' (with_sn sn seen)
        × (w.l_border_sn ≤ w'.l_border_sn)
        × (w'.l_border_sn ≤ sn)
        × (sn < w'.l_border_sn + 4096)
  sn_entry_win-Refines w seen sn ts_us r above below far =
      let (u, run, ru, later, left, right, place) =
        sn_entry_win_run w seen sn ts_us r above below far in
      let p = (w.l_border_pos + (sn - w.l_border_sn)) % 8192 in
      let (r', s) = mark_at u seen sn p ts_us ru left (omega (arith, right)) place in
      (
        mark_sn u p sn ts_us,
        run,
        r',
        omega (arith, s.same_l_sn, later),
        omega (arith, s.same_l_sn, left),
        omega (arith, s.same_l_sn, right),
      )
