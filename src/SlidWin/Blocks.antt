-- ===== src/SlidWin/Blocks.antt =====
-- What BlockSnEntryWin of the session's window (src/slidwin/slidwin.cpp) reads of its bitmap.
use udpfec.Base.{
  ℕ, zero, suc, ◌+◌, ◌-◌, ◌%◌, ◌^◌, ◌≡◌, ◌≢◌, refl, sym, ◌∙◌, List, false, ltb, ◌==◌, if◌then◌else◌,
  Option, none, some, arith,
}
use Prim.Native.Nat.{bit_and}
use udpfec.Base.Masks.{bit_and-mask}
use udpfec.SlidWin.Window.{SlidWin, sn_span}
use udpfec.SlidWin.Entry.{
  entered, sn_invalid, sn_entry_win, block_loop, enter_block, place_block, block_sn_entry,
}

-- A block that is not all ones.
abbrev pub HasHole : ℕ → ℕ → Type 0
HasHole n sn_bit_map = sn_bit_map ≢ 2 ^ n - 1

module _ (scaled : ℕ → ℕ → ℕ) (a b ts_us : ℕ) (first : bit_and a 1 ≡ bit_and b 1) where
  block_loop_same :
      (n sn : ℕ) (w : SlidWin) → block_loop scaled n w a sn ts_us ≡ block_loop scaled n w b sn ts_us
  unfolding block_loop
  block_loop_same zero sn w = refl
  block_loop_same (suc n) sn w = λ i.
      let next : Option SlidWin =
        if first i == 0
        then some w
        else elim (sn_entry_win scaled w sn ts_us) [ none ↦ none | some (w', _) ↦ some w' ] in
      elim next [ none ↦ none | some w' ↦ block_loop_same n ((sn + 1) % 4294967296) w' i ]

  module _ (n : ℕ) (hole : HasHole n a) (hole' : HasHole n b) where
    enter_block_same :
        (fill : List ℕ → ℕ → List ℕ) (begin_sn : ℕ) (placed : SlidWin × ℕ)
        → enter_block scaled n fill a begin_sn ts_us placed
          ≡ enter_block scaled n fill b begin_sn ts_us placed
    unfolding enter_block
    enter_block_same fill begin_sn (w, pos) =
        let a_hole : (a == 2 ^ n - 1) ≡ false = ground (arith, hole) in
        let b_hole : (b == 2 ^ n - 1) ≡ false = ground (arith, hole') in
        rw (a_hole, b_hole)
          (λ i. elim (block_loop_same n begin_sn w i) [
            | none ↦ none
            | some w' ↦ some (w', entered)
          ])

    block_sn_entry_same :
        (fill : List ℕ → ℕ → List ℕ) (w : SlidWin) (begin_sn : ℕ)
        → block_sn_entry scaled n fill w a begin_sn ts_us
          ≡ block_sn_entry scaled n fill w b begin_sn ts_us
    unfolding block_sn_entry
    block_sn_entry_same fill w begin_sn = λ i.
        if w.is_receive_win
        then some (w, entered)
        else if ltb w.max_sn_span (sn_span w begin_sn)
        then some (w, sn_invalid)
        else elim (place_block n w begin_sn ts_us) [
          | none ↦ none
          | some placed ↦ enter_block_same fill begin_sn placed i
        ]

-- BlockSnEntryWin, for blocks of any size, reads of a bitmap that is not all ones nothing but its first
-- bit: two such bitmaps with the same first bit have the same result and leave the same window.
pub block_sn_entry_first_bit :
    (scaled : ℕ → ℕ → ℕ) (n : ℕ) (fill : List ℕ → ℕ → List ℕ) (w : SlidWin) (a b begin_sn ts_us : ℕ)
    → HasHole n a
    → HasHole n b
    → a % 2 ≡ b % 2
    → block_sn_entry scaled n fill w a begin_sn ts_us
      ≡ block_sn_entry scaled n fill w b begin_sn ts_us
block_sn_entry_first_bit scaled n fill w a b begin_sn ts_us hole hole' same =
    block_sn_entry_same scaled a b ts_us (bit_and-mask 1 a ∙ same ∙ sym (bit_and-mask 1 b)) n hole
      hole' fill w begin_sn
