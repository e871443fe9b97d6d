-- ===== src/SlideWin/ByteMasks.antt =====
-- The masks with which `clear_bit_range` clears a part of a byte.
use udpfec.Base.{
  ℕ, ◌+◌, ◌/◌, ◌%◌, ◌<◌, ◌≤◌, ◌≡◌, refl, ◌∙◌, List, Bool, true, ◌&&◌, ltb, leb, ◌==◌, if◌then◌else◌,
  length, get_or, arith,
}
use udpfec.Base.Bits.{bit, bit-le-one}
use udpfec.Base.Masks.{all_below, all_below_lem, bit_and-mask}
use udpfec.SlideWin.Buffer.{clr_buf_bit_mask}
use udpfec.SlideWin.Bits.{bit_at, clr_buf_bit_mask-bit_at}
use udpfec.SlideWin.Window.{wrap_pos, first_mask, last_mask}

first_mask_test : ℕ → ℕ → ℕ → Bool
first_mask_test first n k =
    if leb 1 n && leb (first + n) 8
    then bit (first_mask first n) k == (if leb first k && ltb k (first + n) then 1 else 0)
    else true

first_mask_all :
    all_below 8 (λ first. all_below 9 (λ n. all_below 8 (first_mask_test first n))) ≡ true
unfolding first_mask_test first_mask
first_mask_all = refl

last_mask_all :
    all_below 8 (λ n. all_below 8 (λ k. bit (last_mask n) k == (if ltb k n then 1 else 0))) ≡ true
unfolding last_mask
last_mask_all = refl

pub bit-first_mask :
    (first n k : ℕ)
    → first < 8
    → 0 < n
    → first + n ≤ 8
    → k < 8
    → bit (first_mask first n) k ≡ (if leb first k && ltb k (first + n) then 1 else 0)
unfolding first_mask_test
bit-first_mask first n k p q r s =
    let passed =
      all_below_lem 8 (first_mask_test first n)
        (all_below_lem 9 (λ n. all_below 8 (first_mask_test first n))
          (all_below_lem 8 (λ first. all_below 9 (λ n. all_below 8 (first_mask_test first n)))
            first_mask_all first p)
          n (omega arith))
        k s in
    ground arith

pub bit-last_mask : (n k : ℕ) → n < 8 → k < 8 → bit (last_mask n) k ≡ (if ltb k n then 1 else 0)
bit-last_mask n k p q =
    let passed =
      all_below_lem 8 (λ k. bit (last_mask n) k == (if ltb k n then 1 else 0))
        (all_below_lem 8 (λ n. all_below 8 (λ k. bit (last_mask n) k == (if ltb k n then 1 else 0)))
          last_mask_all n p)
        k q in
    ground arith

pub wrap_pos_lem : (p : ℕ) → wrap_pos p ≡ p % 4096
unfolding wrap_pos
wrap_pos_lem p = bit_and-mask 12 p

-- The bits of a byte that a mask selects are cleared.
pub clear_masked :
    (buf : List ℕ) (start mask p : ℕ) (sel : Bool)
    → length buf ≡ 512
    → start < 4096
    → mask < 256
    → bit mask (p % 8) ≡ (if sel then 1 else 0)
    → bit_at (clr_buf_bit_mask buf 512 start mask) p
      ≡ (if p / 8 == start / 8 && sel then 0 else bit_at buf p)
clear_masked buf start mask p sel size h m chosen =
    clr_buf_bit_mask-bit_at buf start mask p size h m
    ∙ ground (arith, chosen, bit-le-one (get_or buf (p / 8) 0) (p % 8))
