-- ===== src/Base/Bits.antt =====
-- Bits of machine words: the k-th binary digit, what `&`, `|` and `^` do to it, and words read
-- from bytes in little-endian order.
use Prim.Native.Nat.{
  ℕ, zero, suc, ◌+◌, ◌-◌, ◌*◌, ◌/◌, ◌%◌, ◌^◌, ◌≤◌, ◌<◌, min, max, digits, bitwise, differ, bit_and,
  bit_or, bit_xor, bit_and-bitwise, bit_or-bitwise, bit_xor-bitwise,
}
use mathlib.Core.Path.{◌≡◌, refl, ap, ◌∙◌}
use mathlib.Core.Logic.{◌≢◌, ◌⊎◌, inl, inr}
use mathlib.Core.List.{List}
use native.Mathlib.Omega.{arith}
use native.Mathlib.Nat.{pow-suc}
use native.Mathlib.Decide.{dec_lt}
use udpfec.Base.Tests.{◌==◌}
use udpfec.Base.Lists.{get_or, drop, get_or-drop}

-- The k-th binary digit.
abbrev pub bit : ℕ → ℕ → ℕ
bit x zero = x % 2
bit x (suc k) = bit (x / 2) k

pub bit-le-one : (x k : ℕ) → bit x k ≤ 1
bit-le-one x zero = omega arith
bit-le-one x (suc k) = bit-le-one (x / 2) k

pub bit-zero : (k : ℕ) → bit 0 k ≡ 0
bit-zero zero = refl
bit-zero (suc k) = bit-zero k

module _ (high : ℕ → ℕ) (join : ℕ → ℕ → ℕ) where
  -- Fuel past the first number changes nothing.
  same_digits : (x y f g : ℕ) → x ≤ f → x ≤ g → digits high join f x y ≡ digits high join g x y
  same_digits zero y zero zero p q = refl
  same_digits zero y zero (suc g) p q = refl
  same_digits zero y (suc f) zero p q = refl
  same_digits zero y (suc f) (suc g) p q = refl
  same_digits (suc x) y zero g p q = absurd (omega arith)
  same_digits (suc x) y (suc f) zero p q = absurd (omega arith)
  same_digits (suc x) y (suc f) (suc g) p q =
      ap (λ (t : ℕ). t * 2 + join (suc x % 2) (y % 2))
        (same_digits (suc x / 2) (y / 2) f g (omega arith) (omega arith))

  one_digit :
      (x y : ℕ)
      → bitwise high join (suc x) y
        ≡ bitwise high join (suc x / 2) (y / 2) * 2 + join (suc x % 2) (y % 2)
  one_digit x y =
      ap (λ (t : ℕ). t * 2 + join (suc x % 2) (y % 2))
        (same_digits (suc x / 2) (y / 2) x (suc x / 2) (omega arith) (omega arith))

-- The lowest digit of a result, and the rest of it.
pub bit_and_digit : (x y : ℕ) → bit_and x y ≡ bit_and (x / 2) (y / 2) * 2 + min (x % 2) (y % 2)
bit_and_digit zero y = simp bit_and-bitwise (omega arith)
bit_and_digit (suc x) y = simp bit_and-bitwise (one_digit (λ _. 0) min x y)

pub bit_or_digit : (x y : ℕ) → bit_or x y ≡ bit_or (x / 2) (y / 2) * 2 + max (x % 2) (y % 2)
bit_or_digit zero y = simp bit_or-bitwise (omega arith)
bit_or_digit (suc x) y = simp bit_or-bitwise (one_digit (λ t. t) max x y)

pub bit_xor_digit : (x y : ℕ) → bit_xor x y ≡ bit_xor (x / 2) (y / 2) * 2 + differ (x % 2) (y % 2)
bit_xor_digit zero y = simp bit_xor-bitwise (omega arith)
bit_xor_digit (suc x) y = simp bit_xor-bitwise (one_digit (λ t. t) differ x y)

-- The binary operations act digit by digit.
pub bit-bit_and : (x y k : ℕ) → bit (bit_and x y) k ≡ min (bit x k) (bit y k)
bit-bit_and x y zero = omega (arith, bit_and_digit x y)
bit-bit_and x y (suc k) =
    let e : bit_and x y / 2 ≡ bit_and (x / 2) (y / 2) = omega (arith, bit_and_digit x y) in
    rw e (bit-bit_and (x / 2) (y / 2) k)

pub bit-bit_or : (x y k : ℕ) → bit (bit_or x y) k ≡ max (bit x k) (bit y k)
bit-bit_or x y zero = omega (arith, bit_or_digit x y)
bit-bit_or x y (suc k) =
    let e : bit_or x y / 2 ≡ bit_or (x / 2) (y / 2) = omega (arith, bit_or_digit x y) in
    rw e (bit-bit_or (x / 2) (y / 2) k)

pub pow_pos : (k : ℕ) → 0 < 2 ^ k
pow_pos zero = omega arith
pow_pos (suc k) = omega (arith, pow-suc 2 k, pow_pos k)

pub bit-pow_self : (k : ℕ) → bit (2 ^ k) k ≡ 1
bit-pow_self zero = refl
bit-pow_self (suc k) =
    let e : 2 ^ suc k / 2 ≡ 2 ^ k = omega (arith, pow-suc 2 k) in rw e (bit-pow_self k)

pub bit-pow_ne : (j k : ℕ) → j ≢ k → bit (2 ^ j) k ≡ 0
bit-pow_ne zero zero h = absurd (h refl)
bit-pow_ne zero (suc k) h = bit-zero k
bit-pow_ne (suc j) zero h = omega (arith, pow-suc 2 j)
bit-pow_ne (suc j) (suc k) h =
    let e : 2 ^ suc j / 2 ≡ 2 ^ j = omega (arith, pow-suc 2 j) in
    rw e (bit-pow_ne j k (λ p. h (ap suc p)))

pub no_common_digit : (bound x : ℕ) → x ≤ bound → bit_and x 0 ≡ 0
no_common_digit zero zero h = refl
no_common_digit zero (suc x) h = absurd (omega arith)
no_common_digit (suc bound) zero h = refl
no_common_digit (suc bound) (suc x) h =
    omega (arith, bit_and_digit (suc x) 0, no_common_digit bound (suc x / 2) (omega arith))

bit_and-pow : (x k : ℕ) → bit_and x (2 ^ k) ≡ bit x k * 2 ^ k
bit_and-pow x zero = omega (arith, bit_and_digit x 1, no_common_digit (x / 2) (x / 2) (omega arith))
bit_and-pow x (suc k) =
    let e : 2 ^ suc k / 2 ≡ 2 ^ k = omega (arith, pow-suc 2 k) in
    let rest : bit_and (x / 2) (2 ^ suc k / 2) ≡ bit (x / 2) k * 2 ^ k =
      rw e (bit_and-pow (x / 2) k) in
    let even : 2 ^ suc k % 2 ≡ 0 = omega (arith, pow-suc 2 k) in
    let split : bit (x / 2) k * 2 ^ suc k ≡ bit (x / 2) k * 2 ^ k * 2 =
      rw (pow-suc 2 k) (omega arith) in
    omega (arith, bit_and_digit x (2 ^ suc k))

pub zero_or_one : (n : ℕ) → n ≤ 1 → (n ≡ 0) ⊎ (n ≡ 1)
zero_or_one n h = grind arith

-- `0 == (x & (1 << k))` tests the k-th digit.
pub bit_test : (x k : ℕ) → (bit_and x (2 ^ k) == 0) ≡ (bit x k == 0)
bit_test x k = rw (bit_and-pow x k) (ground (arith, bit-le-one x k, pow_pos k, product))
  where
    product : (bit x k ≡ 0) ⊎ (bit x k * 2 ^ k ≡ 2 ^ k) × (bit x k ≡ 1)
    product = elim (zero_or_one (bit x k) (bit-le-one x k)) [
      | inl e ↦ inl e
      | inr e ↦ inr (rw e (omega arith), e)
    ]

-- The little-endian word of the `n` bytes at the head of a buffer.
unfoldable pub word : ℕ → List ℕ → ℕ
word zero bytes = 0
word (suc n) bytes = get_or bytes 0 0 % 256 + 256 * word n (drop 1 bytes)

low_byte : (b r k : ℕ) → k < 8 → bit (b % 256 + 256 * r) k ≡ bit (b % 256) k
low_byte b r zero h = omega arith
low_byte b r (suc zero) h = omega arith
low_byte b r (suc (suc zero)) h = omega arith
low_byte b r (suc (suc (suc zero))) h = omega arith
low_byte b r (suc (suc (suc (suc zero)))) h = omega arith
low_byte b r (suc (suc (suc (suc (suc zero))))) h = omega arith
low_byte b r (suc (suc (suc (suc (suc (suc zero)))))) h = omega arith
low_byte b r (suc (suc (suc (suc (suc (suc (suc zero))))))) h = omega arith
low_byte b r (suc (suc (suc (suc (suc (suc (suc (suc k)))))))) h = absurd (omega arith)

high_byte :
    (b r k : ℕ)
    → bit (b % 256 + 256 * r) (suc (suc (suc (suc (suc (suc (suc (suc k)))))))) ≡ bit r k
high_byte b r k = ap (λ t. bit t k) (omega arith)

-- A digit of a word stands in the byte and at the place that the quotient and remainder by 8 say.
pub bit-word :
    (n k : ℕ) (bytes : List ℕ)
    → k < 8 * n
    → bit (word n bytes) k ≡ bit (get_or bytes (k / 8) 0 % 256) (k % 8)
unfolding word
bit-word zero k bytes h = absurd (omega arith)
bit-word (suc n) k bytes h = elim (dec_lt k 8) [
  | yes low ↦
      let q : k / 8 ≡ 0 = omega arith in
      let r : k % 8 ≡ k = omega arith in
      rw (q, r) (low_byte (get_or bytes 0 0) (word n (drop 1 bytes)) k low)
  | no high ↦
      let j = k - 8 in
      let e : k ≡ suc (suc (suc (suc (suc (suc (suc (suc j))))))) = omega arith in
      let q : k / 8 ≡ 1 + j / 8 = omega arith in
      let r : k % 8 ≡ j % 8 = omega arith in
      ap (bit (word (suc n) bytes)) e
      ∙ high_byte (get_or bytes 0 0) (word n (drop 1 bytes)) j
      ∙ bit-word n j (drop 1 bytes) (omega arith)
      ∙ rw (q, r, get_or-drop 1 (j / 8) bytes 0)
]
