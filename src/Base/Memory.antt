-- ===== src/Base/Memory.antt =====
-- `memset` with zeros on a buffer of bytes.
use Prim.Native.Nat.{ℕ, zero, suc, ◌+◌, ◌≤◌, ◌<◌}
use mathlib.Core.Path.{◌≡◌, refl, ap, ◌∙◌}
use mathlib.Core.Logic.{inl, inr}
use mathlib.Core.Bool.{true, false, ◌&&◌}
use mathlib.Core.List.{List}
use native.Mathlib.Omega.{arith}
use udpfec.Base.Tests.{ltb, leb, ◌==◌, Bool-cases, if◌then◌else◌}
use udpfec.Base.Lists.{length, get_or, set, length-set, get_or-set_self, get_or-set_ne}

-- `memset(&buf[start], 0, n)`
unfoldable pub zero_bytes : List ℕ → ℕ → ℕ → List ℕ
zero_bytes buf start zero = buf
zero_bytes buf start (suc n) = zero_bytes (set buf start 0) (start + 1) n

pub length-zero_bytes : (n start : ℕ) (buf : List ℕ) → length (zero_bytes buf start n) ≡ length buf
unfolding zero_bytes
length-zero_bytes zero start buf = refl
length-zero_bytes (suc n) start buf =
    length-zero_bytes n (start + 1) (set buf start 0) ∙ length-set buf start 0

-- A byte after one is written.
pub get_or-set_if :
    (buf : List ℕ) (i j v : ℕ)
    → i < length buf
    → get_or (set buf i v) j 0 ≡ (if j == i then v else get_or buf j 0)
get_or-set_if buf i j v h = elim (Bool-cases (j == i)) [
  | inl same ↦
      let e : j ≡ i = ground arith in
      let self : (i == i) ≡ true = ground arith in rw (e, self) (get_or-set_self buf i v 0 h)
  | inr other ↦ rw other (get_or-set_ne buf i j v 0 (λ e. ground (arith, e)))
]

pub get_or-zero_bytes :
    (n start i : ℕ) (buf : List ℕ)
    → start + n ≤ length buf
    → get_or (zero_bytes buf start n) i 0
      ≡ (if leb start i && ltb i (start + n) then 0 else get_or buf i 0)
unfolding zero_bytes
get_or-zero_bytes zero start i buf h = ground arith
get_or-zero_bytes (suc n) start i buf h =
    let rest =
      get_or-zero_bytes n (start + 1) i (set buf start 0)
        (omega (arith, length-set buf start 0, h)) in
    rest ∙ ground (arith, get_or-set_if buf start i 0 (omega (arith, h)))

-- `memcpy(&dst[start], &src[start], n)`
unfoldable pub copy_bytes : ℕ → ℕ → List ℕ → List ℕ → List ℕ
copy_bytes zero start src dst = dst
copy_bytes (suc n) start src dst = copy_bytes n (start + 1) src (set dst start (get_or src start 0))

pub length-copy_bytes :
    (n start : ℕ) (src dst : List ℕ) → length (copy_bytes n start src dst) ≡ length dst
unfolding copy_bytes
length-copy_bytes zero start src dst = refl
length-copy_bytes (suc n) start src dst =
    length-copy_bytes n (start + 1) src (set dst start (get_or src start 0))
    ∙ length-set dst start (get_or src start 0)

pub get_or-copy_bytes :
    (n start i : ℕ) (src dst : List ℕ)
    → start + n ≤ length dst
    → get_or (copy_bytes n start src dst) i 0
      ≡ (if leb start i && ltb i (start + n) then get_or src i 0 else get_or dst i 0)
unfolding copy_bytes
get_or-copy_bytes zero start i src dst h = ground arith
get_or-copy_bytes (suc n) start i src dst h =
    let v = get_or src start 0 in
    let rest =
      get_or-copy_bytes n (start + 1) i src (set dst start v)
        (omega (arith, length-set dst start v, h)) in
    rest ∙ elim (Bool-cases (i == start)) [
      | inl same ↦
          let e : start ≡ i = ground arith in
          let a : leb (start + 1) i ≡ false = ground arith in
          let b : leb start i ≡ true = ground arith in
          let c : ltb i (start + suc n) ≡ true = ground arith in
          rw (a, b, c)
            (get_or-set_if dst start i v (omega (arith, h)) ∙ rw same (ap (λ k. get_or src k 0) e))
      | inr other ↦ ground (arith, get_or-set_if dst start i v (omega (arith, h)), other)
    ]
