-- ===== src/SlideWin/Clear.antt =====
-- `clear_bit_range` clears the bits of its range in the ring, and no others.
use udpfec.Base.{
  ℕ, ◌+◌, ◌-◌, ◌*◌, ◌/◌, ◌%◌, ◌<◌, ◌≤◌, ◌≡◌, refl, sym, ◌∙◌, List, Bool, true, false, ◌&&◌, ◌||◌,
  ltb, leb, ◌==◌, if◌then◌else◌, length, arith, inl, inr, Bool-cases,
}
use Prim.Native.Nat.{bit_and}
use mathlib.Core.Path.{subst}
use udpfec.Base.Masks.{bit_and-mask}
use udpfec.SlideWin.Buffer.{clr_buf_bit_mask}
use udpfec.Base.Memory.{zero_bytes, length-zero_bytes}
use udpfec.SlideWin.Bits.{
  bit_at, clr_buf_bit-bit_at, zero_bytes-bit_at, length-clr_mask, length-clr_buf_bit,
}
use udpfec.SlideWin.ByteMasks.{bit-first_mask, bit-last_mask, clear_masked, wrap_pos_lem}
use udpfec.SlideWin.Window.{
  wrap_pos, first_mask, last_mask, clear_last, clear_whole, clear_first, clear_bit_range,
}

-- Position `p` is one of the `n` positions of the ring from `start` on.
abbrev pub in_range : ℕ → ℕ → ℕ → Bool
in_range start n p = ltb ((p + 4096 - start) % 4096) n

-- What a clear of the range leaves at `p`.
abbrev pub IsClearedAt : ℕ → ℕ → ℕ → List ℕ → List ℕ → Type 0
IsClearedAt start n p buf buf' =
    (length buf' ≡ 512) × (bit_at buf' p ≡ (if in_range start n p then 0 else bit_at buf p))

join_cleared :
    (c1 c2 : Bool) (x y : ℕ)
    → y ≡ (if c1 then 0 else x)
    → (if c2 then 0 else y) ≡ (if c1 || c2 then 0 else x)
join_cleared true true x y e = refl
join_cleared true false x y e = e
join_cleared false true x y e = refl
join_cleared false false x y e = e

module _ (p : ℕ) (h : p < 4096) where
  clear_last-IsCleared :
      (buf : List ℕ) (cur n : ℕ)
      → length buf ≡ 512
      → cur < 4096
      → cur % 8 ≡ 0
      → n < 8
      → IsClearedAt cur n p buf (clear_last buf cur n)
  unfolding clear_last
  clear_last-IsCleared buf cur n size q even r = elim (Bool-cases (ltb 0 n)) [
    | inr bare ↦ rw bare (size, ground arith)
    | inl some_left ↦
        let below : last_mask n < 256 = unfold last_mask in omega arith in
        let one =
          clear_masked buf cur (last_mask n) p (ltb (p % 8) n) size q below
            (bit-last_mask n (p % 8) r (omega arith)) in
        rw some_left (length-clr_mask buf 512 cur (last_mask n) ∙ size, one ∙ ground (arith, even))
  ]

  zero_bytes-IsCleared :
      (buf : List ℕ) (cur full : ℕ)
      → length buf ≡ 512
      → cur < 4096
      → cur % 8 ≡ 0
      → cur / 8 + full ≤ 512
      → IsClearedAt cur (full * 8) p buf (zero_bytes buf (cur / 8) full)
  zero_bytes-IsCleared buf cur full size q even r = (
    length-zero_bytes full (cur / 8) buf ∙ size,
    zero_bytes-bit_at full (cur / 8) p buf size r ∙ ground (arith, even),
  )

  in_range_split :
      (a m n : ℕ)
      → a < 4096
      → m + n ≤ 4096
      → in_range a (m + n) p ≡ (in_range a m p || in_range ((a + m) % 4096) n p)
  in_range_split a m n q r = ground arith

  -- One range after another.
  pub cleared_both :
      (a m n : ℕ) (buf buf1 buf2 : List ℕ)
      → a < 4096
      → m + n ≤ 4096
      → IsClearedAt a m p buf buf1
      → IsClearedAt ((a + m) % 4096) n p buf1 buf2
      → IsClearedAt a (m + n) p buf buf2
  cleared_both a m n buf buf1 buf2 q r first second = (
    second.0,
    second.1
        ∙ rw (in_range_split a m n q r) (
            join_cleared (in_range a m p) (in_range ((a + m) % 4096) n p) (bit_at buf p)
              (bit_at buf1 p) first.1),
  )

  -- The whole bytes, in one piece or with the turn at the end of the ring.
  whole_bytes : List ℕ → ℕ → ℕ → List ℕ
  whole_bytes buf byte_start full =
      if leb (byte_start + full) 512
      then zero_bytes buf byte_start full
      else zero_bytes (zero_bytes buf byte_start (512 - byte_start)) 0 (full - (512 - byte_start))

  whole_bytes-IsCleared :
      (buf : List ℕ) (cur full : ℕ)
      → length buf ≡ 512
      → cur < 4096
      → cur % 8 ≡ 0
      → full ≤ 512
      → IsClearedAt cur (full * 8) p buf (whole_bytes buf (cur / 8) full)
  unfolding whole_bytes
  whole_bytes-IsCleared buf cur full size q even r =
      let part = 512 - cur / 8 in
      elim (Bool-cases (leb (cur / 8 + full) 512)) [
        | inl fits ↦ rw fits (zero_bytes-IsCleared buf cur full size q even (ground arith))
        | inr turns ↦
            let first = zero_bytes-IsCleared buf cur part size q even (omega arith) in
            let zero_at : (cur + part * 8) % 4096 ≡ 0 = omega (arith, even) in
            let second =
              zero_bytes-IsCleared (zero_bytes buf (cur / 8) part) 0 (full - part) first.0
                (omega arith) refl (omega (arith, r)) in
            let done = zero_bytes (zero_bytes buf (cur / 8) part) 0 (full - part) in
            let sum : part * 8 + (full - part) * 8 ≡ full * 8 = ground arith in
            rw turns (
              subst (λ t. IsClearedAt cur t p buf done) sum
                (cleared_both cur (part * 8) ((full - part) * 8) buf (zero_bytes buf (cur / 8) part)
                  done q (omega (arith, sum, r)) first
                  (subst
                    (λ t. IsClearedAt t ((full - part) * 8) p (zero_bytes buf (cur / 8) part) done)
                    (sym zero_at) second)))
      ]

  clear_whole-IsCleared :
      (buf : List ℕ) (cur n : ℕ)
      → length buf ≡ 512
      → cur < 4096
      → cur % 8 ≡ 0
      → n ≤ 4096
      → IsClearedAt cur n p buf (clear_whole buf cur n)
  unfolding clear_whole whole_bytes
  clear_whole-IsCleared buf cur n size q even r =
      let full = n / 8 in
      let rest = n - full * 8 in
      let at = (cur + full * 8) % 4096 in
      let wrapped = wrap_pos_lem (cur + full * 8) in
      let sum : full * 8 + rest ≡ n = omega arith in
      let buf1 = whole_bytes buf (cur / 8) full in
      elim (Bool-cases (full == 0)) [
        | inl bare ↦ rw bare (clear_last-IsCleared buf cur n size q even (ground arith))
        | inr some_left ↦
            let first = whole_bytes-IsCleared buf cur full size q even (omega (arith, r)) in
            let second =
              clear_last-IsCleared buf1 at rest first.0 (omega arith) (omega (arith, even))
                (omega arith) in
            rw (some_left, wrapped)
              (subst (λ t. IsClearedAt cur t p buf (clear_last buf1 at rest)) sum
                (cleared_both cur (full * 8) rest buf buf1 (clear_last buf1 at rest) q
                  (omega (arith, sum, r)) first second))
      ]

  -- Up to the end of a byte.
  clear_byte-IsCleared :
      (buf : List ℕ) (cur c : ℕ)
      → length buf ≡ 512
      → cur < 4096
      → 0 < c
      → cur % 8 + c ≤ 8
      → IsClearedAt cur c p buf (clr_buf_bit_mask buf 512 cur (first_mask (cur % 8) c))
  clear_byte-IsCleared buf cur c size q some_left inside =
      let first = cur % 8 in
      let below : first_mask first c < 256 = unfold first_mask in omega arith in
      let one =
        clear_masked buf cur (first_mask first c) p (leb first (p % 8) && ltb (p % 8) (first + c))
          size q below
          (bit-first_mask first c (p % 8) (omega arith) some_left inside (omega arith)) in
      (length-clr_mask buf 512 cur (first_mask first c) ∙ size, one ∙ ground (arith, inside, h))

  clear_first-IsCleared :
      (buf : List ℕ) (cur n : ℕ)
      → length buf ≡ 512
      → cur < 4096
      → 0 < n
      → n ≤ 4096
      → IsClearedAt cur n p buf (clear_first buf cur n)
  unfolding clear_first
  clear_first-IsCleared buf cur n size q pos r =
      let first = cur % 8 in
      let low : bit_and cur 7 ≡ first = bit_and-mask 3 cur in
      let c = if ltb (8 - first) n then 8 - first else n in
      let small : c ≤ n = ground arith in
      let inside : first + c ≤ 8 = ground arith in
      let buf1 = clr_buf_bit_mask buf 512 cur (first_mask first c) in
      let at = (cur + c) % 4096 in
      let wrapped = wrap_pos_lem (cur + c) in
      let sum : c + (n - c) ≡ n = omega (arith, small) in
      elim (Bool-cases (first == 0)) [
        | inl even ↦ rw (low, even) (clear_whole-IsCleared buf cur n size q (ground arith) r)
        | inr odd ↦
            let one = clear_byte-IsCleared buf cur c size q (ground arith) inside in
            elim (Bool-cases (n - c == 0)) [
              | inl all ↦
                  let e : c ≡ n = ground arith in
                  rw (low, odd, all) (subst (λ t. IsClearedAt cur t p buf buf1) e one)
              | inr more ↦
                  let even : at % 8 ≡ 0 = ground arith in
                  let second =
                    clear_whole-IsCleared buf1 at (n - c) one.0 (omega arith) even
                      (omega (arith, r)) in
                  rw (low, odd, more, wrapped)
                    (subst (λ t. IsClearedAt cur t p buf (clear_whole buf1 at (n - c))) sum
                      (cleared_both cur c (n - c) buf buf1 (clear_whole buf1 at (n - c)) q
                        (omega (arith, sum, r)) one second))
            ]
      ]

  -- `clear_bit_range` on a ring of 512 bytes, from a position below 4096 on and up to 4096 bits, keeps the
  -- size, clears the bits at the positions of the range, around the end of the ring, and leaves every
  -- other bit.
  pub clear_bit_range-IsCleared :
      (buf : List ℕ) (start_bit num_bits : ℕ)
      → length buf ≡ 512
      → start_bit < 4096
      → num_bits ≤ 4096
      → IsClearedAt start_bit num_bits p buf (clear_bit_range buf start_bit num_bits)
  unfolding clear_bit_range
  clear_bit_range-IsCleared buf start_bit num_bits size q r =
      let wrapped : wrap_pos start_bit ≡ start_bit = wrap_pos_lem start_bit ∙ omega arith in
      elim (Bool-cases (num_bits == 0)) [
        | inl bare ↦ rw bare (size, ground arith)
        | inr some_left ↦ elim (Bool-cases (num_bits == 1)) [
          | inl one ↦
              rw (some_left, one)
                (
                  length-clr_buf_bit buf 512 start_bit ∙ size,
                  clr_buf_bit-bit_at buf start_bit p size q h ∙ ground (arith, h),
                )
          | inr more ↦
              rw (some_left, more, wrapped)
                (clear_first-IsCleared buf start_bit num_bits size q (ground arith) r)
        ]
      ]
