-- ===== src/SlideWin/Refine.antt =====
-- The ring implements the promise.
use udpfec.Base.{
  ℕ, ◌-◌, ◌%◌, ◌<◌, ◌≤◌, ◌≡◌, refl, sym, ap, ◌∙◌, Bool, true, false, not, ◌&&◌, ◌||◌, ltb, leb,
  ◌==◌, if◌then◌else◌, arith, inl, inr, Bool-cases, Option, none, some,
}
use mathlib.Core.Path.{subst}
use udpfec.SlideWin.Buffer.{get_buf_bit, set_buf_bit}
use udpfec.SlideWin.Bits.{bit_at, get_buf_bit_lem, set_buf_bit-bit_at, length-set_buf_bit}
use udpfec.SlideWin.ByteMasks.{wrap_pos_lem}
use udpfec.SlideWin.Window.{
  SlideWin, first_pkg_sn_valid, get_slide_step, slide, mark, started, pkg_sn_valid,
}
use udpfec.SlideWin.Border.{
  IsWindow, Refines, RefinesStart, get_slide_step_lem, reset_lem, slide_lem, same_slot,
}
use udpfec.SlideWin.Spec.{Seen, age, ahead, with_sn, start_at, next_seen}

-- A number seen before adds nothing.
seen_again :
    (seen : ℕ → Bool) (sn x : ℕ) (only_check : Bool)
    → seen sn ≡ true
    → ◌≡◌ {A = ℕ} (if with_sn seen sn only_check x then 1 else 0) (if seen x then 1 else 0)
seen_again seen sn x only_check old = elim (Bool-cases (x == sn)) [
  | inl same ↦
      let found : seen x ≡ true = ap seen (let e : x ≡ sn = ground arith in e) ∙ old in
      rw found refl
  | inr other ↦ ground (arith, other)
]

mark_lem :
    (w : SlideWin) (s : Seen) (sn : ℕ) (only_check : Bool)
    → Refines w s
    → sn < 65536
    → age s.newest sn < 4096
    → let (w', new) = mark w sn only_check in
      (new ≡ not (s.seen sn)) × Refines w' (record s { seen = with_sn s.seen sn only_check })
unfolding mark
mark_lem w s sn only_check ((size, bound, lower, pos), on, upper, bits) h near =
    let slot = wrap_pos_lem sn in
    let test = get_buf_bit_lem w.slide_win_buf (sn % 4096) (omega arith) in
    let here = bits sn h near in
    let buf = set_buf_bit w.slide_win_buf 512 (sn % 4096) in
    let marked_bits : (x : ℕ)
        → x < 65536
        → age s.newest x < 4096
        → bit_at buf (x % 4096) ≡ (if s.seen x || (x == sn) then 1 else 0) =
      λ x p q.
        set_buf_bit-bit_at w.slide_win_buf (sn % 4096) (x % 4096) size (omega arith) (omega arith)
        ∙ rw (same_slot s.newest x sn (omega (arith, upper, bound)) p h q near)
            (ground (arith, bits x p q)) in
    elim (Bool-cases (s.seen sn)) [
      | inl old ↦
          let found : get_buf_bit w.slide_win_buf 512 (sn % 4096) ≡ true =
            test ∙ ground (arith, here, old) in
          rw (slot, found)
            (
              rw old refl,
              (
                (size, bound, lower, pos),
                on,
                upper,
                λ x p q. bits x p q ∙ sym (seen_again s.seen sn x only_check old),
              ),
            )
      | inr new ↦
          let found : get_buf_bit w.slide_win_buf 512 (sn % 4096) ≡ false =
            test ∙ ground (arith, here, new) in
          elim (Bool-cases only_check) [
            | inl only ↦
                rw (slot, found, only)
                  (
                    rw new refl,
                    ((size, bound, lower, pos), on, upper, λ x p q. bits x p q ∙ ground arith),
                  )
            | inr marks ↦
                rw (slot, found, marks)
                  (
                    rw new refl,
                    (
                      (
                        length-set_buf_bit w.slide_win_buf 512 (sn % 4096) ∙ size,
                        bound,
                        lower,
                        pos,
                      ),
                      on,
                      upper,
                      marked_bits,
                    ),
                  )
          ]
    ]

first_pkg_sn_valid_lem :
    (sn : ℕ)
    → sn < 65536
    → let w = first_pkg_sn_valid sn in
      IsWindow w
      × (ahead w.win_pkg_sn_upper sn ≡ 1)
      × (w.first_pkg_sn ≡ false)
      × ((p : ℕ) → bit_at w.slide_win_buf p ≡ 0)
unfolding first_pkg_sn_valid
first_pkg_sn_valid_lem sn h =
    let prev = if sn == 0 then 65535 else sn - 1 in
    let (win, upper, bare) = reset_lem prev (ground arith) in
    (win, ground (arith, upper), refl, bare)

-- The window starts over at `sn`.
start_over_lem :
    (sn : ℕ) (only_check : Bool)
    → sn < 65536
    → let (w', new) = mark (slide (first_pkg_sn_valid sn) sn 1) sn only_check in
      let (s', promised) = start_at sn only_check in (new ≡ promised) × Refines w' s'
start_over_lem sn only_check h =
    let w = first_pkg_sn_valid sn in
    let (win, one, on, bare) = first_pkg_sn_valid_lem sn h in
    let (win', upper', on', bits') =
      slide_lem w sn win h (omega (arith, one)) (omega (arith, one)) in
    let w' = slide w sn (ahead w.win_pkg_sn_upper sn) in
    let refines : Refines w' (record { newest = sn; seen = λ x. false }) =
      (win', on' ∙ on, upper', λ x p q. bits' x p q ∙ ground (arith, bare (x % 4096))) in
    subst
      (λ t.
        let (w', new) = mark (slide w sn t) sn only_check in
        (new ≡ true)
        × Refines w' (record { newest = sn; seen = with_sn (λ x. false) sn only_check }))
      one
      (mark_lem w' (record { newest = sn; seen = λ x. false }) sn only_check refines h
        (omega arith))

started_first :
    (w : SlideWin) (sn : ℕ) → w.first_pkg_sn ≡ true → started w sn ≡ first_pkg_sn_valid sn
unfolding started
started_first w sn first = rw first refl

started_on : (w : SlideWin) (sn : ℕ) → w.first_pkg_sn ≡ false → started w sn ≡ w
unfolding started
started_on w sn on = rw on refl

slide_none : (w : SlideWin) (sn : ℕ) → slide w sn 0 ≡ w
unfolding slide
slide_none w sn = refl

-- The window moves by less than 1024 numbers.
move_lem :
    (w : SlideWin) (s : Seen) (sn : ℕ) (only_check : Bool)
    → Refines w s
    → sn < 65536
    → 4096 ≤ age s.newest sn
    → ahead s.newest sn < 1024
    → let (w', new) = mark (slide w sn (ahead s.newest sn)) sn only_check in
      let seen = with_sn (λ x. ltb (age s.newest x) 4096 && s.seen x) sn only_check in
      (new ≡ true) × Refines w' (record { newest = sn; seen = seen })
move_lem w s sn only_check (win, on, upper, bits) h old small =
    let bound = win.1 in
    let kept = λ (x : ℕ). ltb (age s.newest x) 4096 && s.seen x in
    let same : ahead w.win_pkg_sn_upper sn ≡ ahead s.newest sn = ap (λ t. ahead t sn) upper in
    let (win', upper', on', bits') =
      slide_lem w sn win h (omega (arith, upper, old, h, bound)) (omega (arith, same, small)) in
    let w' = slide w sn (ahead w.win_pkg_sn_upper sn) in
    let refines : Refines w' (record { newest = sn; seen = kept }) =
      (win', on' ∙ on, upper', λ x p q. bits' x p q ∙ rw upper (ground (arith, bits x p))) in
    let outside : ltb (age s.newest sn) 4096 ≡ false = ground arith in
    let (new, rest) =
      mark_lem w' (record { newest = sn; seen = kept }) sn only_check refines h (omega arith) in
    subst
      (λ t.
        let (moved, fresh) = mark (slide w sn t) sn only_check in
        (fresh ≡ true) × Refines moved (record { newest = sn; seen = with_sn kept sn only_check }))
      same (new ∙ rw outside refl, rest)

-- Where a window refines what was seen, or is a new one, a call of `pkg_sn_valid` with a 16-bit number
-- answers as `next_seen` does, which keeps the newest number and the set of numbers seen and no ring,
-- and leaves a window that refines what is seen then: borders that fit together, and the bit of every
-- number in the window.
pub pkg_sn_valid-Refines :
    (w : SlideWin) (o : Option Seen) (sn : ℕ) (only_check : Bool)
    → RefinesStart w o
    → sn < 65536
    → let (w', new) = pkg_sn_valid w sn only_check in
      let (s', promised) = next_seen o sn only_check in (new ≡ promised) × Refines w' s'
unfolding pkg_sn_valid next_seen
pkg_sn_valid-Refines w none sn only_check first h =
    let (win, one, on, bare) = first_pkg_sn_valid_lem sn h in
    let step : get_slide_step (first_pkg_sn_valid sn) sn ≡ 1 =
      get_slide_step_lem (first_pkg_sn_valid sn) sn win h ∙ ground (arith, one, win.1, h) in
    rw (started_first w sn first, step) (start_over_lem sn only_check h)
pkg_sn_valid-Refines w (some s) sn only_check (win, on, upper, bits) h =
    let step = get_slide_step_lem w sn win h in
    elim (Bool-cases (ltb (age s.newest sn) 4096)) [
      | inl inside ↦
          let stay : get_slide_step w sn ≡ 0 = step ∙ rw (upper, inside) refl in
          rw (started_on w sn on, stay, slide_none w sn, inside)
            (mark_lem w s sn only_check (win, on, upper, bits) h (ground arith))
      | inr outside ↦
          let move : get_slide_step w sn ≡ ahead s.newest sn = step ∙ rw (upper, outside) refl in
          elim (Bool-cases (ltb (ahead s.newest sn) 1024)) [
            | inl small ↦
                let fits : leb 1024 (ahead s.newest sn) ≡ false = ground arith in
                rw (started_on w sn on, move, outside, small, fits)
                  (move_lem w s sn only_check (win, on, upper, bits) h (ground arith)
                    (ground arith))
            | inr far ↦
                let leaves : leb 1024 (ahead s.newest sn) ≡ true = ground arith in
                rw (started_on w sn on, move, outside, far, leaves) (start_over_lem sn only_check h)
          ]
    ]
