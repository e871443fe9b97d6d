-- ===== src/SlideWin/Border.antt =====
-- The window's borders, and the bits of the ring when it moves.
use udpfec.Base.{
  ℕ, ◌+◌, ◌-◌, ◌/◌, ◌%◌, ◌<◌, ◌≡◌, refl, sym, ap, ◌∙◌, true, false, not, ltb, ◌==◌, if◌then◌else◌,
  length, length-replicate, get_or-replicate, arith, inl, inr, Bool-cases, Option, none, some,
}
use Prim.Native.Nat.{bit_and}
use mathlib.Core.Path.{subst}
use udpfec.Base.Bits.{bit, bit-zero}
use udpfec.Base.Masks.{bit_and-mask}
use udpfec.SlideWin.Bits.{bit_at}
use udpfec.SlideWin.Clear.{in_range, IsClearedAt, clear_bit_range-IsCleared, cleared_both}
use udpfec.SlideWin.ByteMasks.{wrap_pos_lem}
use udpfec.SlideWin.Window.{
  SlideWin, reset, pkg_sn_in_win, get_slide_step, clear_bit_range, win_boundary_moving, slide,
}
use udpfec.SlideWin.Spec.{Seen, age, ahead}

-- The borders of the window fit together.
abbrev pub IsWindow : SlideWin → Type 0
IsWindow w =
    (length w.slide_win_buf ≡ 512)
    × (w.win_pkg_sn_upper < 65536)
    × (w.win_pkg_sn_lower ≡ (w.win_pkg_sn_upper + 61441) % 65536)
    × (w.win_pos_idx_lower ≡ w.win_pkg_sn_lower % 4096)

-- The ring has the bits of the numbers seen, as far as they are in the window.
abbrev pub Refines : SlideWin → Seen → Type 0
Refines w s =
    IsWindow w
    × (w.first_pkg_sn ≡ false)
    × (w.win_pkg_sn_upper ≡ s.newest)
    × ((x : ℕ)
        → x < 65536
        → age s.newest x < 4096
        → bit_at w.slide_win_buf (x % 4096) ≡ (if s.seen x then 1 else 0))

-- Before the first number there is no promise.
abbrev pub RefinesStart : SlideWin → Option Seen → Type 0
RefinesStart w none = w.first_pkg_sn ≡ true
RefinesStart w (some s) = Refines w s

pub pkg_sn_in_win_lem :
    (w : SlideWin) (sn : ℕ)
    → IsWindow w
    → sn < 65536
    → pkg_sn_in_win w sn ≡ ltb (age w.win_pkg_sn_upper sn) 4096
unfolding pkg_sn_in_win
pkg_sn_in_win_lem w sn (size, bound, lower, pos) h = ground (arith, bound, lower, h)

pub get_slide_step_lem :
    (w : SlideWin) (sn : ℕ)
    → IsWindow w
    → sn < 65536
    → get_slide_step w sn
      ≡ (if ltb (age w.win_pkg_sn_upper sn) 4096 then 0 else ahead w.win_pkg_sn_upper sn)
unfolding get_slide_step
get_slide_step_lem w sn win h =
    rw (pkg_sn_in_win_lem w sn win h) (elim (Bool-cases (ltb (age w.win_pkg_sn_upper sn) 4096)) [
      | inl inside ↦ rw inside refl
      | inr outside ↦ rw outside (ground (arith, win, h))
    ])

pub reset_lem :
    (sn : ℕ)
    → sn < 65536
    → IsWindow (reset sn)
      × ((reset sn).win_pkg_sn_upper ≡ sn)
      × ((p : ℕ) → bit_at (reset sn).slide_win_buf p ≡ 0)
unfolding reset
reset_lem sn h = (
  (
    length-replicate {A = ℕ} 512 0,
    h,
    bit_and-mask 16 (sn + 65535 + 1 - 4095) ∙ omega arith,
    wrap_pos_lem (bit_and (sn + 65535 + 1 - 4095) 65535),
  ),
  refl,
  λ p. ap (λ b. bit b (p % 8)) (get_or-replicate 512 0 (p / 8)) ∙ bit-zero (p % 8),
)

-- The window moves: the positions that it takes over are cleared.
win_boundary_moving_lem :
    (w : SlideWin) (step : ℕ)
    → length w.slide_win_buf ≡ 512
    → w.win_pos_idx_lower < 4096
    → step < 1024
    → let w' = win_boundary_moving w step in
      (w'.win_pos_idx_lower ≡ (w.win_pos_idx_lower + step) % 4096)
      × ((p : ℕ)
          → p < 4096
          → IsClearedAt w.win_pos_idx_lower step p w.slide_win_buf w'.slide_win_buf)
unfolding win_boundary_moving
win_boundary_moving_lem w step size low small =
    let i = w.win_pos_idx_lower in
    let moved = (i + step) % 65536 in
    let wrapped = wrap_pos_lem moved in
    elim (Bool-cases (ltb moved 4096)) [
      | inl fits ↦ rw fits (
        ground (arith, low, small),
        λ p h. clear_bit_range-IsCleared p h w.slide_win_buf i step size low (omega (arith, small)),
      )
      | inr turns ↦
          let part = 4096 - i in
          let zero_at : (i + part) % 4096 ≡ 0 = omega (arith, low) in
          let sum : part + (step - part) ≡ step = ground (arith, low, small) in
          let buf1 = clear_bit_range w.slide_win_buf i part in
          let buf2 = clear_bit_range buf1 0 (step - part) in
          rw turns (
            wrapped ∙ omega (arith, low, small),
            λ p h.
                let first =
                  clear_bit_range-IsCleared p h w.slide_win_buf i part size low (omega arith) in
                let second =
                  clear_bit_range-IsCleared p h buf1 0 (step - part) first.0 (omega arith)
                    (omega (arith, small)) in
                subst (λ t. IsClearedAt i t p w.slide_win_buf buf2) sum
                  (cleared_both p h i part (step - part) w.slide_win_buf buf1 buf2 low
                    (omega (arith, sum, small)) first
                    (subst (λ t. IsClearedAt t (step - part) p buf1 buf2) (sym zero_at) second)),
          )
    ]

-- The positions that a move takes over are those of the numbers that were not in the window.
taken_over :
    (u sn x i : ℕ)
    → u < 65536
    → sn < 65536
    → x < 65536
    → i ≡ (u + 61441) % 65536 % 4096
    → ahead u sn < 1024
    → age sn x < 4096
    → in_range i (ahead u sn) (x % 4096) ≡ not (ltb (age u x) 4096)
taken_over u sn x i a b c e small near =
    let slot : i ≡ (u + 1) % 4096 = omega (arith, e, a) in
    ground (arith, slot, a, b, c, small, near)

-- After a move to `sn`, up to 1023 numbers ahead, the numbers of the old window that are left have
-- their bits, and the new ones none.
pub slide_lem :
    (w : SlideWin) (sn : ℕ)
    → IsWindow w
    → sn < 65536
    → 0 < ahead w.win_pkg_sn_upper sn
    → ahead w.win_pkg_sn_upper sn < 1024
    → let w' = slide w sn (ahead w.win_pkg_sn_upper sn) in
      IsWindow w'
      × (w'.win_pkg_sn_upper ≡ sn)
      × (w'.first_pkg_sn ≡ w.first_pkg_sn)
      × ((x : ℕ)
          → x < 65536
          → age sn x < 4096
          → bit_at w'.slide_win_buf (x % 4096) ≡ (
              if ltb (age w.win_pkg_sn_upper x) 4096 then bit_at w.slide_win_buf (x % 4096) else 0))
unfolding slide win_boundary_moving
slide_lem w sn (size, bound, lower, pos) h some_step small =
    let step = ahead w.win_pkg_sn_upper sn in
    let some_left : step == 0 ≡ false = ground (arith, some_step) in
    let border = bit_and-mask 16 (w.win_pkg_sn_lower + step) in
    let w1 : SlideWin = record w {
      win_pkg_sn_lower = bit_and (w.win_pkg_sn_lower + step) 65535;
      win_pkg_sn_upper = sn;
    } in
    let (idx, cleared) = win_boundary_moving_lem w1 step size (omega (arith, pos)) small in
    rw some_left (
      (
        (cleared 0 (omega arith)).0,
        h,
        border ∙ omega (arith, lower, bound, h),
        idx ∙ omega (arith, pos, border),
      ),
      refl,
      refl,
      λ x p near.
          (cleared (x % 4096) (omega arith)).1
          ∙ rw
              (taken_over w.win_pkg_sn_upper sn x w.win_pos_idx_lower bound h p
                (pos ∙ ap (λ t. t % 4096) lower) small near)
              (elim (Bool-cases (ltb (age w.win_pkg_sn_upper x) 4096)) [
                | inl old ↦ rw old refl
                | inr new ↦ rw new refl
              ]),
    )

-- The numbers of a window have different positions.
pub same_slot :
    (newest x sn : ℕ)
    → newest < 65536
    → x < 65536
    → sn < 65536
    → age newest x < 4096
    → age newest sn < 4096
    → (x % 4096 == sn % 4096) ≡ (x == sn)
same_slot newest x sn a b c p q = ground (arith, a, b, c, p, q)
