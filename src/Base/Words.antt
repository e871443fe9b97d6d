-- ===== src/Base/Words.antt =====
-- Words as sets of bits: a bit set, cleared or sought.
use Prim.Native.Nat.{ℕ, zero, suc, ◌-◌, ◌/◌, ◌%◌, ◌^◌, ◌<◌, ◌≤◌}
use mathlib.Core.Path.{◌≡◌, ap, ◌∙◌}
use mathlib.Core.Logic.{◌≢◌, inl, inr}
use udpfec.Base.Tests.{◌==◌, if◌then◌else◌, Bool-cases}
use native.Mathlib.Omega.{arith}
use Prim.Native.Nat.{◌+◌, ◌*◌, bit_and, bit_or, max, bit_and-bitwise}
use native.Mathlib.Nat.{pow-suc, mod-eq_of_lt, mod-one}
use udpfec.Base.Bits.{
  bit, bit-zero, bit-le-one, bit-bit_and, bit-bit_or, bit-pow_self, bit-pow_ne, bit_and_digit,
  bit_or_digit, pow_pos,
}
use udpfec.Base.Masks.{bit-not, bit_and-mask, half_mod}

pub bit_or-below : (n x y : ℕ) → x < 2 ^ n → y < 2 ^ n → bit_or x y < 2 ^ n
bit_or-below zero x y p q =
    let a : x ≡ 0 = omega arith in let b : y ≡ 0 = omega arith in rw (a, b) (omega arith)
bit_or-below (suc n) x y p q =
    let half =
      bit_or-below n (x / 2) (y / 2) (omega (arith, pow-suc 2 n, p))
        (omega (arith, pow-suc 2 n, q)) in
    let low : max (x % 2) (y % 2) ≤ 1 = omega arith in
    omega (arith, bit_or_digit x y, pow-suc 2 n, half, low)

bit_and-le_bound : (bound x y : ℕ) → x ≤ bound → bit_and x y ≤ x
bit_and-le_bound zero zero y h = simp bit_and-bitwise (omega arith)
bit_and-le_bound zero (suc x) y h = absurd (omega arith)
bit_and-le_bound (suc bound) zero y h = simp bit_and-bitwise (omega arith)
bit_and-le_bound (suc bound) (suc x) y h =
    omega (arith, bit_and_digit (suc x) y, bit_and-le_bound bound (suc x / 2) (y / 2) (omega arith))

pub bit_and-le : (x y : ℕ) → bit_and x y ≤ x
bit_and-le x y = bit_and-le_bound x x y (omega arith)

pub pow_below : (k n : ℕ) → k < n → 2 ^ k < 2 ^ n
pow_below k zero h = absurd (omega arith)
pow_below zero (suc n) h = omega (arith, pow-suc 2 n, pow_pos n)
pow_below (suc k) (suc n) h = omega (arith, pow-suc 2 n, pow-suc 2 k, pow_below k n (omega arith))

pub bit-ones : (n k : ℕ) → k < n → bit (2 ^ n - 1) k ≡ 1
bit-ones n k h =
    let whole : 2 ^ n - 1 ≡ 2 ^ n - 1 - 0 = omega arith in
    ap (λ t. bit t k) whole ∙ bit-not n 0 k (pow_pos n) h ∙ ap (λ t. 1 - t) (bit-zero k)

-- A word of ones only.
pub all_ones : (n w : ℕ) → w < 2 ^ n → ((k : ℕ) → k < n → bit w k ≡ 1) → w ≡ 2 ^ n - 1
all_ones zero w h ones = omega arith
all_ones (suc n) w h ones =
    let half =
      all_ones n (w / 2) (omega (arith, pow-suc 2 n, h)) (λ k p. ones (suc k) (omega arith)) in
    let odd = ones 0 (omega arith) in omega (arith, pow-suc 2 n, half, odd, pow_pos n)

pub bit-set_bit : (w k j : ℕ) → bit (bit_or w (2 ^ k)) j ≡ (if j == k then 1 else bit w j)
bit-set_bit w k j = elim (Bool-cases (j == k)) [
  | inl same ↦
      let e : j ≡ k = ground arith in
      rw (same, e) (omega (arith, bit-bit_or w (2 ^ k) k, bit-pow_self k, bit-le-one w k))
  | inr other ↦
      let ne : k ≢ j = λ e. ground arith in
      rw other (omega (arith, bit-bit_or w (2 ^ k) j, bit-pow_ne k j ne))
]

pub bit-clear_bit :
    (n w k j : ℕ)
    → k < n
    → j < n
    → bit (bit_and w (2 ^ n - 1 - 2 ^ k)) j ≡ (if j == k then 0 else bit w j)
bit-clear_bit n w k j p q =
    let mask = bit-not n (2 ^ k) j (pow_below k n p) q in
    let cleared = bit-bit_and w (2 ^ n - 1 - 2 ^ k) j in
    elim (Bool-cases (j == k)) [
      | inl same ↦
          let e : j ≡ k = ground arith in
          let one : bit (2 ^ k) j ≡ 1 = ap (bit (2 ^ k)) e ∙ bit-pow_self k in
          rw same (omega (arith, cleared, mask, one))
      | inr other ↦
          let ne : k ≢ j = λ e. ground arith in
          rw other (omega (arith, cleared, mask, bit-pow_ne k j ne, bit-le-one w j))
    ]

-- The lower `k` digits of a number of `n` digits are cleared: `x & ~(2 ^ k - 1)`.
pub bit_and-clear : (k n x : ℕ) → k ≤ n → x < 2 ^ n → bit_and x (2 ^ n - 2 ^ k) ≡ x - x % 2 ^ k
bit_and-clear zero n x h below = bit_and-mask n x ∙ mod-eq_of_lt below ∙ omega (arith, mod-one x)
bit_and-clear (suc k) zero x h below = absurd (omega arith)
bit_and-clear (suc k) (suc n) x h below =
    let double_n : 2 ^ suc n ≡ 2 * 2 ^ n = omega (arith, pow-suc 2 n) in
    let double_k : 2 ^ suc k ≡ 2 * 2 ^ k = omega (arith, pow-suc 2 k) in
    let half : (2 ^ suc n - 2 ^ suc k) / 2 ≡ 2 ^ n - 2 ^ k = omega (arith, double_n, double_k) in
    let even : (2 ^ suc n - 2 ^ suc k) % 2 ≡ 0 = omega (arith, double_n, double_k) in
    let rest = bit_and-clear k n (x / 2) (omega arith) (omega (arith, double_n, below)) in
    let digits = bit_and_digit x (2 ^ suc n - 2 ^ suc k) in
    let upper = ap (bit_and (x / 2)) half in
    let split : x % 2 ^ suc k ≡ 2 * (x / 2 % 2 ^ k) + x % 2 =
      ap (λ t. x % t) double_k ∙ half_mod (2 ^ k) x (pow_pos k) in
    omega (arith, digits, upper, rest, even, split)
