-- ===== src/Base/Xor.antt =====
-- Exclusive or: its laws, and how it acts on the bytes of a word.
use Prim.Native.Nat.{ℕ, zero, suc, ◌+◌, ◌*◌, ◌/◌, ◌%◌, ◌^◌, ◌≤◌, ◌<◌, differ, bit_xor}
use mathlib.Core.Path.{◌≡◌, refl, ap, ◌∙◌}
use native.Mathlib.Omega.{arith}
use native.Mathlib.Nat.{pow-suc}
use udpfec.Base.Bits.{bit_xor_digit}

differ_lem : (a b : ℕ) → a ≤ 1 → b ≤ 1 → differ a b ≡ (a + b) % 2
differ_lem zero zero h k = refl
differ_lem zero (suc zero) h k = refl
differ_lem (suc zero) zero h k = refl
differ_lem (suc zero) (suc zero) h k = refl
differ_lem (suc (suc a)) b h k = absurd (omega arith)
differ_lem zero (suc (suc b)) h k = absurd (omega arith)
differ_lem (suc zero) (suc (suc b)) h k = absurd (omega arith)

bit_xor_half : (x y : ℕ) → bit_xor x y / 2 ≡ bit_xor (x / 2) (y / 2)
bit_xor_half x y =
    omega (arith, bit_xor_digit x y, differ_lem (x % 2) (y % 2) (omega arith) (omega arith))

bit_xor_low : (x y : ℕ) → bit_xor x y % 2 ≡ (x + y) % 2
bit_xor_low x y =
    omega (arith, bit_xor_digit x y, differ_lem (x % 2) (y % 2) (omega arith) (omega arith))

both_zero : (x y : ℕ) → x + y ≤ 0 → (x ≡ 0) × (y ≡ 0)
both_zero x y h = (omega arith, omega arith)

comm_below : (n x y : ℕ) → x + y ≤ n → bit_xor x y ≡ bit_xor y x
comm_below zero x y h = let (a, b) = both_zero x y h in rw (a, b) refl
comm_below (suc n) x y h =
    let half : bit_xor (x / 2) (y / 2) ≡ bit_xor (y / 2) (x / 2) =
      comm_below n (x / 2) (y / 2) (omega (arith)) in
    omega (arith, bit_xor_half x y, bit_xor_half y x, bit_xor_low x y, bit_xor_low y x, half)

pub bit_xor_comm : (x y : ℕ) → bit_xor x y ≡ bit_xor y x
bit_xor_comm x y = comm_below (x + y) x y (omega arith)

assoc_below : (n x y z : ℕ) → x + y + z ≤ n → bit_xor (bit_xor x y) z ≡ bit_xor x (bit_xor y z)
assoc_below zero x y z h =
    let a : x ≡ 0 = omega arith in
    let b : y ≡ 0 = omega arith in let c : z ≡ 0 = omega arith in rw (a, b, c) refl
assoc_below (suc n) x y z h =
    let half : bit_xor (bit_xor (x / 2) (y / 2)) (z / 2)
        ≡ bit_xor (x / 2) (bit_xor (y / 2) (z / 2)) =
      assoc_below n (x / 2) (y / 2) (z / 2) (omega arith) in
    let left : bit_xor (bit_xor x y) z / 2 ≡ bit_xor (bit_xor (x / 2) (y / 2)) (z / 2) =
      bit_xor_half (bit_xor x y) z ∙ ap (λ t. bit_xor t (z / 2)) (bit_xor_half x y) in
    let right : bit_xor x (bit_xor y z) / 2 ≡ bit_xor (x / 2) (bit_xor (y / 2) (z / 2)) =
      bit_xor_half x (bit_xor y z) ∙ ap (bit_xor (x / 2)) (bit_xor_half y z) in
    omega (
      arith,
      left,
      right,
      half,
      bit_xor_low (bit_xor x y) z,
      bit_xor_low x y,
      bit_xor_low x (bit_xor y z),
      bit_xor_low y z,
    )

pub bit_xor_assoc : (x y z : ℕ) → bit_xor (bit_xor x y) z ≡ bit_xor x (bit_xor y z)
bit_xor_assoc x y z = assoc_below (x + y + z) x y z (omega arith)

self_below : (n x : ℕ) → x ≤ n → bit_xor x x ≡ 0
self_below zero x h = let a : x ≡ 0 = omega arith in rw a refl
self_below (suc n) x h =
    let half : bit_xor (x / 2) (x / 2) ≡ 0 = self_below n (x / 2) (omega arith) in
    omega (arith, bit_xor_half x x, bit_xor_low x x, half)

pub bit_xor_self : (x : ℕ) → bit_xor x x ≡ 0
bit_xor_self x = self_below x x (omega arith)

zero_below : (n x : ℕ) → x ≤ n → bit_xor x 0 ≡ x
zero_below zero x h = let a : x ≡ 0 = omega arith in rw a refl
zero_below (suc n) x h =
    let half : bit_xor (x / 2) 0 ≡ x / 2 = zero_below n (x / 2) (omega arith) in
    omega (arith, bit_xor_half x 0, bit_xor_low x 0, half)

pub bit_xor_zero : (x : ℕ) → bit_xor x 0 ≡ x
bit_xor_zero x = zero_below x x (omega arith)

pub bit_xor-below : (n x y : ℕ) → x < 2 ^ n → y < 2 ^ n → bit_xor x y < 2 ^ n
bit_xor-below zero x y h k =
    let a : x ≡ 0 = omega arith in let b : y ≡ 0 = omega arith in rw (a, b) (omega arith)
bit_xor-below (suc n) x y h k =
    let half =
      bit_xor-below n (x / 2) (y / 2) (omega (arith, pow-suc 2 n, h))
        (omega (arith, pow-suc 2 n, k)) in
    omega (arith, bit_xor_half x y, pow-suc 2 n, half)

doubled : (k r : ℕ) → 2 ^ suc k * r ≡ 2 * (2 ^ k * r)
doubled k r = rw (pow-suc 2 k) (grind arith)

one_times : (r : ℕ) → 0 + 2 ^ 0 * r ≡ r
one_times r = omega arith

-- The lower digits and the rest of the numbers are taken apart.
xor_parts :
    (k x y r s : ℕ)
    → x < 2 ^ k
    → y < 2 ^ k
    → bit_xor (x + 2 ^ k * r) (y + 2 ^ k * s) ≡ bit_xor x y + 2 ^ k * bit_xor r s
xor_parts zero x y r s h p =
    let a : x ≡ 0 = omega arith in
    let b : y ≡ 0 = omega arith in
    rw (a, b) (rw (one_times r, one_times s, one_times (bit_xor r s)) refl)
xor_parts (suc k) x y r s h p =
    let a = doubled k r in
    let b = doubled k s in
    let c = doubled k (bit_xor r s) in
    let left : (x + 2 ^ suc k * r) / 2 ≡ x / 2 + 2 ^ k * r = omega (arith, a) in
    let right : (y + 2 ^ suc k * s) / 2 ≡ y / 2 + 2 ^ k * s = omega (arith, b) in
    let rest =
      xor_parts k (x / 2) (y / 2) r s (omega (arith, pow-suc 2 k, h))
        (omega (arith, pow-suc 2 k, p)) in
    let half : bit_xor (x + 2 ^ suc k * r) (y + 2 ^ suc k * s) / 2
        ≡ bit_xor (x / 2) (y / 2) + 2 ^ k * bit_xor r s =
      bit_xor_half (x + 2 ^ suc k * r) (y + 2 ^ suc k * s) ∙ rw (left, right) rest in
    let digit = bit_xor_low (x + 2 ^ suc k * r) (y + 2 ^ suc k * s) in
    omega (arith, half, digit, a, b, c, bit_xor_half x y, bit_xor_low x y)

pub bit_xor_byte :
    (x y r s : ℕ)
    → x < 256
    → y < 256
    → bit_xor (x + 256 * r) (y + 256 * s) ≡ bit_xor x y + 256 * bit_xor r s
bit_xor_byte x y r s h p = xor_parts 8 x y r s h p
