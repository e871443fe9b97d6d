-- ===== src/SlideWin/Bits.antt =====
-- The bits of the ring of 512 bytes after the operations of socks5udpf/src/buf_operation.h.
use udpfec.Base.{
  ℕ, zero, suc, ◌+◌, ◌-◌, ◌/◌, ◌%◌, ◌^◌, ◌<◌, ◌≤◌, ◌≡◌, ◌≢◌, refl, sym, ap, ◌∙◌, List, true, false,
  not, ◌&&◌, ltb, leb, ◌==◌, if◌then◌else◌, get_or, set, length, length-set, get_or-set_self,
  get_or-set_ne, arith, inl, inr, Bool-cases,
}
use Prim.Native.Nat.{bit_and, bit_or, min}
use udpfec.Base.Bits.{
  bit, bit-zero, bit-le-one, bit-bit_and, bit-bit_or, bit-pow_self, bit-pow_ne, bit_test,
}
use udpfec.Base.Masks.{all_below, all_below_lem, bit_and-mask, bit-not}
use udpfec.SlideWin.Buffer.{byte_of, get_buf_bit, set_buf_bit, clr_buf_bit, clr_buf_bit_mask}
use udpfec.Base.Memory.{zero_bytes}

-- The bit at a position of the ring.
abbrev pub bit_at : List ℕ → ℕ → ℕ
bit_at buf p = bit (get_or buf (p / 8) 0) (p % 8)

low_three : (p : ℕ) → bit_and p 7 ≡ p % 8
low_three p = bit_and-mask 3 p

byte_of_lem : (p : ℕ) → p < 4096 → byte_of 512 p ≡ p / 8
unfolding byte_of
byte_of_lem p h = omega arith

pub get_buf_bit_lem :
    (buf : List ℕ) (p : ℕ) → p < 4096 → get_buf_bit buf 512 p ≡ not (bit_at buf p == 0)
unfolding get_buf_bit
get_buf_bit_lem buf p h =
    rw (low_three p, byte_of_lem p h) (ap not (bit_test (get_or buf (p / 8) 0) (p % 8)))

-- A byte is written.
bit_at-set :
    (buf : List ℕ) (i v p : ℕ)
    → length buf ≡ 512
    → i < 512
    → bit_at (set buf i v) p ≡ (if p / 8 == i then bit v (p % 8) else bit_at buf p)
bit_at-set buf i v p size h = elim (Bool-cases (p / 8 == i)) [
  | inl same ↦
      let e : p / 8 ≡ i = ground arith in
      rw (same, e) (ap (λ t. bit t (p % 8)) (get_or-set_self buf i v 0 (omega (arith, size))))
  | inr other ↦
      rw other (ap (λ t. bit t (p % 8)) (get_or-set_ne buf i (p / 8) v 0 (λ e. ground arith)))
]

set_byte :
    (b pos p : ℕ)
    → p / 8 ≡ pos / 8
    → bit (bit_or b (2 ^ (pos % 8))) (p % 8) ≡ (if p == pos then 1 else bit b (p % 8))
set_byte b pos p e = elim (Bool-cases (p == pos)) [
  | inl same ↦
      let q : pos % 8 ≡ p % 8 = ground arith in
      rw (same, q)
        (omega
          (arith, bit-bit_or b (2 ^ (p % 8)) (p % 8), bit-pow_self (p % 8), bit-le-one b (p % 8)))
  | inr other ↦
      let ne : pos % 8 ≢ p % 8 = λ q. ground arith in
      rw other
        (omega (arith, bit-bit_or b (2 ^ (pos % 8)) (p % 8), bit-pow_ne (pos % 8) (p % 8) ne))
]

pub set_buf_bit-bit_at :
    (buf : List ℕ) (pos p : ℕ)
    → length buf ≡ 512
    → pos < 4096
    → p < 4096
    → bit_at (set_buf_bit buf 512 pos) p ≡ (if p == pos then 1 else bit_at buf p)
unfolding set_buf_bit
set_buf_bit-bit_at buf pos p size h k =
    let b = get_or buf (pos / 8) 0 in
    let written = bit_at-set buf (pos / 8) (bit_or b (2 ^ (pos % 8))) p size (omega arith) in
    rw (low_three pos, byte_of_lem pos h)
      (written ∙ elim (Bool-cases (p / 8 == pos / 8)) [
        | inl same ↦
            let e : p / 8 ≡ pos / 8 = ground arith in
            rw same (
              set_byte b pos p e
              ∙ ap (λ i. if p == pos then 1 else bit (get_or buf i 0) (p % 8)) (sym e))
        | inr other ↦ let ne : p == pos ≡ false = ground arith in rw (other, ne) refl
      ])

pub clr_buf_bit_mask-bit_at :
    (buf : List ℕ) (start mask p : ℕ)
    → length buf ≡ 512
    → start < 4096
    → mask < 256
    → bit_at (clr_buf_bit_mask buf 512 start mask) p
      ≡ (if p / 8 == start / 8 then min (bit_at buf p) (1 - bit mask (p % 8)) else bit_at buf p)
unfolding clr_buf_bit_mask
clr_buf_bit_mask-bit_at buf start mask p size h m =
    let b = get_or buf (start / 8) 0 in
    let written = bit_at-set buf (start / 8) (bit_and b (255 - mask)) p size (omega arith) in
    let off : bit (255 - mask) (p % 8) ≡ 1 - bit mask (p % 8) =
      bit-not 8 mask (p % 8) m (omega arith) in
    rw (byte_of_lem start h) (
      written ∙ elim (Bool-cases (p / 8 == start / 8)) [
        | inl same ↦
            let e : p / 8 ≡ start / 8 = ground arith in
            rw same (
              bit-bit_and b (255 - mask) (p % 8)
              ∙ ap (λ t. min (bit b (p % 8)) t) off
              ∙ ap (λ i. min (bit (get_or buf i 0) (p % 8)) (1 - bit mask (p % 8))) (sym e))
        | inr other ↦ rw other refl
      ])

-- `n` bytes from `start` on are cleared.
pub zero_bytes-bit_at :
    (n start p : ℕ) (buf : List ℕ)
    → length buf ≡ 512
    → start + n ≤ 512
    → bit_at (zero_bytes buf start n) p
      ≡ (if leb start (p / 8) && ltb (p / 8) (start + n) then 0 else bit_at buf p)
unfolding zero_bytes
zero_bytes-bit_at zero start p buf size h = ground arith
zero_bytes-bit_at (suc n) start p buf size h =
    let rest =
      zero_bytes-bit_at n (start + 1) p (set buf start 0) (length-set buf start 0 ∙ size)
        (omega arith) in
    let here = bit_at-set buf start 0 p size (omega arith) in
    let none_set = bit-zero (p % 8) in rest ∙ ground (arith, here, none_set)

-- The sizes stay.
pub length-clr_mask :
    (buf : List ℕ) (n start mask : ℕ) → length (clr_buf_bit_mask buf n start mask) ≡ length buf
unfolding clr_buf_bit_mask
length-clr_mask buf n start mask = length-set buf _ _

pow_byte_all : all_below 8 (λ k. ltb (2 ^ k) 256) ≡ true
pow_byte_all = refl

pow_byte : (k : ℕ) → k < 8 → 2 ^ k < 256
pow_byte k h = let t = all_below_lem 8 (λ k. ltb (2 ^ k) 256) pow_byte_all k h in ground arith

pub clr_buf_bit-bit_at :
    (buf : List ℕ) (pos p : ℕ)
    → length buf ≡ 512
    → pos < 4096
    → p < 4096
    → bit_at (clr_buf_bit buf 512 pos) p ≡ (if p == pos then 0 else bit_at buf p)
unfolding clr_buf_bit clr_buf_bit_mask
clr_buf_bit-bit_at buf pos p size h k =
    let e : clr_buf_bit buf 512 pos ≡ clr_buf_bit_mask buf 512 pos (2 ^ (pos % 8)) =
      rw (low_three pos) refl in
    ap (λ l. bit_at l p) e
    ∙ clr_buf_bit_mask-bit_at buf pos (2 ^ (pos % 8)) p size h (pow_byte (pos % 8) (omega arith))
    ∙ elim (Bool-cases (p / 8 == pos / 8)) [
      | inr other ↦ let ne : p == pos ≡ false = ground arith in rw (other, ne) refl
      | inl same ↦ elim (Bool-cases (p == pos)) [
        | inl here ↦
            let q : pos % 8 ≡ p % 8 = ground arith in
            rw (same, here, q) (omega (arith, bit-pow_self (p % 8)))
        | inr there ↦
            let ne : pos % 8 ≢ p % 8 = λ q. ground arith in
            rw (same, there)
              (omega
                (arith, bit-pow_ne (pos % 8) (p % 8) ne, bit-le-one (get_or buf (p / 8) 0) (p % 8)))
      ]
    ]

pub length-clr_buf_bit : (buf : List ℕ) (n pos : ℕ) → length (clr_buf_bit buf n pos) ≡ length buf
unfolding clr_buf_bit
length-clr_buf_bit buf n pos = length-set buf _ _

pub length-set_buf_bit : (buf : List ℕ) (n pos : ℕ) → length (set_buf_bit buf n pos) ≡ length buf
unfolding set_buf_bit
length-set_buf_bit buf n pos = length-set buf _ _
