-- ===== src/Fec2/XorEncode.antt =====
-- `XorEncode` (src/fec2/goodtp_fec2.cpp) combines code and data byte by byte, with zeros behind the
-- shorter one.
use udpfec.Base.{
  ℕ, zero, suc, ◌+◌, ◌-◌, ◌*◌, ◌/◌, ◌%◌, ◌^◌, ◌≤◌, ◌≡◌, refl, sym, ap, ◌∙◌, List, true, false, ◌&&◌,
  ltb, leb, ◌==◌, if◌then◌else◌, get_or, set, drop, length, length-set, get_or-drop, arith, inl,
  inr, Bool-cases,
}
use Prim.Native.Nat.{bit_xor}
use mathlib.Core.Path.{subst}
use native.Mathlib.Nat.{div-mul-le_self, mod-eq_of_lt}
use udpfec.Base.Xor.{bit_xor_zero}
use udpfec.Base.Memory.{zero_bytes, length-zero_bytes, get_or-set_if, get_or-zero_bytes}
use udpfec.Fec2.Xor.{xor_block, xor_blocks, xor_tail, xor_encode}
use udpfec.Fec2.XorBytes.{
  AllBytes, put_word-xor, length-put_word, IsXored, xored-AllBytes, both_parts,
}

module _ (data_bytes : List ℕ) (d : AllBytes data_bytes) where
  xor_block-IsXored :
      (size start : ℕ) (code : List ℕ)
      → AllBytes code
      → start + size ≤ length code
      → IsXored data_bytes start (start + size) code (xor_block size data_bytes code start)
  unfolding xor_block
  xor_block-IsXored size start code c h = (
    length-put_word size start _ code,
    λ i.
        put_word-xor size start i code (drop start code) (drop start data_bytes) h
        ∙ elim (Bool-cases (leb start i)) [
          | inr before ↦ rw before refl
          | inl behind ↦
              let at : start + (i - start) ≡ i = ground arith in
              let gc : get_or (drop start code) (i - start) 0 % 256 ≡ get_or code i 0 =
                ap (λ t. t % 256)
                  (get_or-drop start (i - start) code 0 ∙ ap (λ k. get_or code k 0) at)
                ∙ mod-eq_of_lt (c i) in
              let gd : get_or (drop start data_bytes) (i - start) 0 % 256 ≡ get_or data_bytes i 0 =
                ap (λ t. t % 256)
                  (get_or-drop start (i - start) data_bytes 0 ∙ ap (λ k. get_or data_bytes k 0) at)
                ∙ mod-eq_of_lt (d i) in
              rw (behind, gc, gd) refl
        ],
  )

  no_part : (start : ℕ) (code : List ℕ) → IsXored data_bytes start start code code
  no_part start code = (refl, λ i. ground arith)

  xor_blocks-IsXored :
      (rounds shift nloop : ℕ) (code : List ℕ)
      → AllBytes code
      → (nloop + rounds) * 2 ^ shift ≤ length code
      → IsXored data_bytes
          (nloop * 2 ^ shift)
          ((nloop + rounds) * 2 ^ shift)
          code
          (xor_blocks rounds shift data_bytes code nloop)
  unfolding xor_blocks
  xor_blocks-IsXored zero shift nloop code c h =
      let e : nloop ≡ nloop + 0 = omega arith in
      subst (λ t. IsXored data_bytes (nloop * 2 ^ shift) (t * 2 ^ shift) code code) e
        (no_part (nloop * 2 ^ shift) code)
  xor_blocks-IsXored (suc rounds) shift nloop code c h =
      let w = 2 ^ shift in
      let next : (nloop + 1) * w ≡ nloop * w + w = grind arith in
      let end : nloop + 1 + rounds ≡ nloop + suc rounds = omega arith in
      let total : (nloop + suc rounds) * w ≡ (nloop + 1) * w + rounds * w = grind arith in
      let one = xor_block-IsXored w (nloop * w) code c (omega (arith, h, total, next)) in
      let code1 = xor_block w data_bytes code (nloop * w) in
      let rest =
        xor_blocks-IsXored rounds shift (nloop + 1) code1
          (xored-AllBytes data_bytes (nloop * w) (nloop * w + w) code code1 d c one)
          (omega (arith, ap (λ t. t * w) end, h, one.0)) in
      both_parts data_bytes (nloop * w) (nloop * w + w) ((nloop + suc rounds) * w) code code1
        (xor_blocks rounds shift data_bytes code1 (nloop + 1)) (omega arith)
        (omega (arith, total, next)) one
        (subst
          (λ t.
            IsXored data_bytes t ((nloop + suc rounds) * w) code1
              (xor_blocks rounds shift data_bytes code1 (nloop + 1)))
          next
          (subst
            (λ t.
              IsXored data_bytes ((nloop + 1) * w) (t * w) code1
                (xor_blocks rounds shift data_bytes code1 (nloop + 1)))
            end rest))

  xor_tail-IsXored :
      (rounds start : ℕ) (code : List ℕ)
      → start + rounds ≤ length code
      → IsXored data_bytes start (start + rounds) code (xor_tail rounds data_bytes code start)
  unfolding xor_tail
  xor_tail-IsXored zero start code h =
      let e : start ≡ start + 0 = omega arith in
      subst (λ t. IsXored data_bytes start t code code) e (no_part start code)
  xor_tail-IsXored (suc rounds) start code h =
      let v = bit_xor (get_or code start 0) (get_or data_bytes start 0) in
      let code1 = set code start v in
      let end : start + 1 + rounds ≡ start + suc rounds = omega arith in
      let one : IsXored data_bytes start (start + 1) code code1 = (
        length-set code start v,
        λ i. get_or-set_if code start i v (omega (arith, h)) ∙ elim (Bool-cases (i == start)) [
          | inl same ↦
              let e : i ≡ start = ground arith in
              let a : leb start i ≡ true = ground arith in
              let b : ltb i (start + 1) ≡ true = ground arith in
              rw (same, a, b) (ap (λ t. bit_xor (get_or code t 0) (get_or data_bytes t 0)) (sym e))
          | inr other ↦
              let out : (leb start i && ltb i (start + 1)) ≡ false = ground arith in
              rw (other, out) refl
        ],
      ) in
      let rest = xor_tail-IsXored rounds (start + 1) code1 (omega (arith, h, one.0)) in
      both_parts data_bytes start (start + 1) (start + suc rounds) code code1
        (xor_tail rounds data_bytes code1 (start + 1)) (omega arith) (omega arith) one
        (subst
          (λ t.
            IsXored data_bytes (start + 1) t code1 (xor_tail rounds data_bytes code1 (start + 1)))
          end rest)

  -- The blocks and the rest together: all bytes of the data.
  xor_all :
      (shift data_size : ℕ) (code : List ℕ)
      → AllBytes code
      → data_size ≤ length code
      → let num = data_size / 2 ^ shift in
        IsXored data_bytes 0 data_size code (
          xor_tail
            (data_size - num * 2 ^ shift)
            data_bytes
            (xor_blocks num shift data_bytes code 0)
            (num * 2 ^ shift))
  xor_all shift data_size code c h =
      let num = data_size / 2 ^ shift in
      let encoded = num * 2 ^ shift in
      let fits : encoded ≤ data_size = div-mul-le_self data_size (2 ^ shift) in
      let code1 = xor_blocks num shift data_bytes code 0 in
      let from : 0 * 2 ^ shift ≡ 0 = omega arith in
      let all : 0 + num ≡ num = omega arith in
      let blocks : IsXored data_bytes 0 encoded code code1 =
        subst (λ t. IsXored data_bytes t encoded code code1) from
          (subst (λ t. IsXored data_bytes (0 * 2 ^ shift) (t * 2 ^ shift) code code1) all
            (xor_blocks-IsXored num shift 0 code c
              (omega (arith, fits, h, ap (λ t. t * 2 ^ shift) all)))) in
      let end : encoded + (data_size - encoded) ≡ data_size = omega (arith, fits) in
      let tail =
        xor_tail-IsXored (data_size - encoded) encoded code1 (omega (arith, end, h, blocks.0)) in
      both_parts data_bytes 0 encoded data_size code code1
        (xor_tail (data_size - encoded) data_bytes code1 encoded) (omega arith) fits blocks
        (subst
          (λ t.
            IsXored data_bytes encoded t code1
              (xor_tail (data_size - encoded) data_bytes code1 encoded))
          end tail)

-- The first `size` bytes of a buffer, and zeros behind them.
abbrev pub padded : List ℕ → ℕ → ℕ → ℕ
padded buf size i = if ltb i size then get_or buf i 0 else 0

-- The buffer with zeros from its size on, as far as the data reaches.
zero_filled :
    (code : List ℕ) (code_size data_size : ℕ)
    → data_size ≤ length code
    → let start =
        if ltb code_size data_size
        then zero_bytes code code_size (data_size - code_size)
        else code in
      (length start ≡ length code)
      × ((i : ℕ)
          → get_or start i 0 ≡ (if leb code_size i && ltb i data_size then 0 else get_or code i 0))
zero_filled code code_size data_size h = elim (Bool-cases (ltb code_size data_size)) [
  | inr enough ↦ rw enough (refl, λ i. ground arith)
  | inl short ↦
      let end : code_size + (data_size - code_size) ≡ data_size = ground arith in
      rw short (
        length-zero_bytes (data_size - code_size) code_size code,
        λ i.
            get_or-zero_bytes (data_size - code_size) code_size i code (omega (arith, end, h))
            ∙ ap (λ t. if leb code_size i && ltb i t then 0 else get_or code i 0) end,
      )
]

-- One byte, with zeros behind code and data.
padded_xor :
    (i code_size data_size a s c d : ℕ)
    → s ≡ (if leb code_size i && ltb i data_size then 0 else c)
    → a ≡ (if leb 0 i && ltb i data_size then bit_xor s d else s)
    → (if ltb i (if ltb data_size code_size then code_size else data_size) then a else 0)
      ≡ bit_xor (if ltb i code_size then c else 0) (if ltb i data_size then d else 0)
padded_xor i code_size data_size a s c d filled xored = elim (Bool-cases (ltb i data_size)) [
  | inl in_data ↦
      let any : leb 0 i ≡ true = ground arith in
      let whole : ltb i (if ltb data_size code_size then code_size else data_size) ≡ true =
        ground arith in
      let joined : a ≡ bit_xor s d = xored ∙ rw (any, in_data) refl in
      rw (whole, in_data)
        (joined ∙ elim (Bool-cases (ltb i code_size)) [
          | inl in_code ↦
              let e : leb code_size i ≡ false = ground arith in
              rw in_code (ap (λ t. bit_xor t d) (filled ∙ rw e refl))
          | inr behind ↦
              let e : leb code_size i ≡ true = ground arith in
              rw behind (ap (λ t. bit_xor t d) (filled ∙ rw (e, in_data) refl))
        ])
  | inr past ↦
      let any : leb 0 i ≡ true = ground arith in
      let same : a ≡ c = xored ∙ rw (any, past) (filled ∙ ground (arith, past)) in
      elim (Bool-cases (ltb i code_size)) [
        | inl in_code ↦
            let whole : ltb i (if ltb data_size code_size then code_size else data_size) ≡ true =
              ground arith in
            rw (whole, past, in_code) (same ∙ sym (bit_xor_zero c))
        | inr behind ↦
            let whole : ltb i (if ltb data_size code_size then code_size else data_size) ≡ false =
              ground arith in
            rw (whole, past, behind) (sym (bit_xor_zero 0))
      ]
]

-- What `XorEncode` does to a code: the exclusive or with the data, both with zeros behind them.
abbrev pub IsEncoded : List ℕ → ℕ → List ℕ → ℕ → List ℕ → ℕ → Type 0
IsEncoded data_bytes data_size code code_size code' size' =
    (length code' ≡ length code)
    × (size' ≡ (if ltb data_size code_size then code_size else data_size))
    × AllBytes code'
    × ((i : ℕ)
        → padded code' size' i ≡ bit_xor (padded code code_size i) (padded data_bytes data_size i))

-- `XorEncode`, with blocks of any power of two of bytes, on a code and data whose elements are bytes, where
-- the data fits into the code's memory: the memory keeps its length, its elements are bytes, the new size
-- is the larger one of the two sizes, and each byte, with zeros behind the sizes, is the exclusive or of the
-- code's byte and the data's.
pub xor_encode-IsEncoded :
    (shift : ℕ) (data_bytes : List ℕ) (data_size : ℕ) (code : List ℕ) (code_size : ℕ)
    → AllBytes data_bytes
    → AllBytes code
    → data_size ≤ length code
    → let (code', size') = xor_encode shift data_bytes data_size code code_size in
      IsEncoded data_bytes data_size code code_size code' size'
unfolding xor_encode
xor_encode-IsEncoded shift data_bytes data_size code code_size d c h =
    let start =
      if ltb code_size data_size then zero_bytes code code_size (data_size - code_size) else code in
    let (size0, each0) = zero_filled code code_size data_size h in
    let bytes0 : AllBytes start = λ i. ground (arith, each0 i, c i) in
    let num = data_size / 2 ^ shift in
    let code' =
      xor_tail (data_size - num * 2 ^ shift) data_bytes (xor_blocks num shift data_bytes start 0)
        (num * 2 ^ shift) in
    let xored : IsXored data_bytes 0 data_size start code' =
      xor_all data_bytes d shift data_size start bytes0 (omega (arith, size0, h)) in
    (
      xored.0 ∙ size0,
      refl,
      xored-AllBytes data_bytes 0 data_size start code' d bytes0 xored,
      λ i.
          padded_xor i code_size data_size (get_or code' i 0) (get_or start i 0) (get_or code i 0)
            (get_or data_bytes i 0) (each0 i) (xored.1 i),
    )
