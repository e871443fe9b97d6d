-- ===== src/Base/Masks.antt =====
-- Masks: the bits of `&` with the complement of a mask, `& (2 ^ k - 1)`, and statements about all
-- numbers below a bound, tested one by one.
use Prim.Native.Nat.{ℕ, zero, suc, ◌+◌, ◌-◌, ◌*◌, ◌/◌, ◌%◌, ◌^◌, ◌<◌, bit_and}
use mathlib.Core.Path.{◌≡◌, sym, ap, ◌∙◌}
use mathlib.Core.Bool.{Bool, true, ◌&&◌}
use native.Mathlib.Omega.{arith}
use native.Mathlib.Nat.{pow-suc, mod-one, mod-lt, mod-eq_of_lt, div-add-mod, add-mul-mod_self_left}
use mathlib.Core.Logic.{inl, inr}
use udpfec.Base.Tests.{◌==◌, Bool-cases}
use udpfec.Base.Bits.{bit, bit_and_digit, no_common_digit, pow_pos}

-- A test passed by every number below `n`.
abbrev pub all_below : ℕ → (ℕ → Bool) → Bool
all_below zero test = true
all_below (suc n) test = test n && all_below n test

pub all_below_lem :
    (n : ℕ) (test : ℕ → Bool) → all_below n test ≡ true → (k : ℕ) → k < n → test k ≡ true
all_below_lem zero test h k p = absurd (omega arith)
all_below_lem (suc n) test h k p = elim (Bool-cases (k == n)) [
  | inl same ↦ let e : k ≡ n = ground arith in rw e (ground arith)
  | inr other ↦ all_below_lem n test (ground arith) k (ground arith)
]

pub half_mod : (p x : ℕ) → 0 < p → x % (2 * p) ≡ 2 * (x / 2 % p) + x % 2
half_mod p x h =
    let a = 2 * (x / 2 % p) + x % 2 in
    let q = x / 2 / p in
    let parts : x ≡ a + 2 * p * q = grind (arith, div-add-mod (x / 2) p) in
    let small : a < 2 * p = omega (arith, mod-lt (x / 2) h) in
    ap (λ t. t % (2 * p)) parts ∙ add-mul-mod_self_left a (2 * p) q ∙ mod-eq_of_lt small

-- `x & (2 ^ k - 1)` is the remainder.
pub bit_and-mask : (k x : ℕ) → bit_and x (2 ^ k - 1) ≡ x % 2 ^ k
bit_and-mask zero x = no_common_digit x x (omega arith) ∙ sym (mod-one x)
bit_and-mask (suc k) x =
    let half : (2 ^ suc k - 1) / 2 ≡ 2 ^ k - 1 = omega (arith, pow-suc 2 k, pow_pos k) in
    let odd : (2 ^ suc k - 1) % 2 ≡ 1 = omega (arith, pow-suc 2 k, pow_pos k) in
    let rest = bit_and-mask k (x / 2) in
    let double : 2 ^ suc k ≡ 2 * 2 ^ k = omega (arith, pow-suc 2 k) in
    let digits = bit_and_digit x (2 ^ suc k - 1) in
    let lower = ap (λ t. bit_and (x / 2) t) half in
    omega (arith, digits, lower, rest, odd)
    ∙ sym (half_mod (2 ^ k) x (pow_pos k))
    ∙ ap (λ t. x % t) (sym double)

-- The complement of a number of `n` digits.
pub bit-not : (n m k : ℕ) → m < 2 ^ n → k < n → bit (2 ^ n - 1 - m) k ≡ 1 - bit m k
bit-not zero m k h p = absurd (omega arith)
bit-not (suc n) m zero h p = omega (arith, pow-suc 2 n, h, pow_pos n)
bit-not (suc n) m (suc k) h p =
    let half : (2 ^ suc n - 1 - m) / 2 ≡ 2 ^ n - 1 - m / 2 =
      omega (arith, pow-suc 2 n, h, pow_pos n) in
    let low : m / 2 < 2 ^ n = omega (arith, pow-suc 2 n, h) in
    rw half (bit-not n (m / 2) k low (omega arith))
