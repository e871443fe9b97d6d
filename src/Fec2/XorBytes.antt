-- ===== src/Fec2/XorBytes.antt =====
-- What `XorEncode` (src/fec2/goodtp_fec2.cpp) leaves at each byte.
use udpfec.Base.{
  ℕ, zero, suc, ◌+◌, ◌-◌, ◌*◌, ◌/◌, ◌%◌, ◌<◌, ◌≤◌, ◌≡◌, refl, ap, ◌∙◌, List, true, false, ◌&&◌, ltb,
  leb, ◌==◌, if◌then◌else◌, get_or, set, drop, length, length-set, get_or-drop, arith, inl, inr,
  Bool-cases,
}
use Prim.Native.Nat.{bit_xor}
use udpfec.Base.Bits.{word}
use udpfec.Base.Xor.{bit_xor_byte, bit_xor-below}
use udpfec.Base.Memory.{get_or-set_if}
use udpfec.Fec2.Xor.{put_word}

-- Every element is a byte.
abbrev pub AllBytes : List ℕ → Type 0
AllBytes buf = (i : ℕ) → get_or buf i 0 < 256

-- One byte of a word is written before the others.
join_byte :
    (n start i : ℕ) (buf code data_bytes : List ℕ)
    → start + suc n ≤ length buf
    → let v = bit_xor (get_or code 0 0 % 256) (get_or data_bytes 0 0 % 256) in
      (if leb (start + 1) i && ltb i (start + 1 + n)
        then bit_xor
            (get_or (drop 1 code) (i - (start + 1)) 0 % 256)
            (get_or (drop 1 data_bytes) (i - (start + 1)) 0 % 256)
        else get_or (set buf start v) i 0)
      ≡ (if leb start i && ltb i (start + suc n)
          then bit_xor (get_or code (i - start) 0 % 256) (get_or data_bytes (i - start) 0 % 256)
          else get_or buf i 0)
join_byte n start i buf code data_bytes h =
    let v = bit_xor (get_or code 0 0 % 256) (get_or data_bytes 0 0 % 256) in
    let written = get_or-set_if buf start i v (omega (arith, h)) in
    elim (Bool-cases (i == start)) [
      | inl same ↦
          let z : i - start ≡ 0 = ground arith in
          let past : leb (start + 1) i ≡ false = ground arith in
          let first : leb start i ≡ true = ground arith in
          let inside : ltb i (start + suc n) ≡ true = ground arith in
          rw (past, first, inside, z) (written ∙ rw same refl)
      | inr other ↦ elim (Bool-cases (leb start i)) [
        | inr before ↦
            let past : leb (start + 1) i ≡ false = ground arith in
            rw (past, before) (written ∙ rw other refl)
        | inl behind ↦
            let past : leb (start + 1) i ≡ true = ground arith in
            let end : ltb i (start + 1 + n) ≡ ltb i (start + suc n) = ground arith in
            let shifted : 1 + (i - (start + 1)) ≡ i - start = ground arith in
            let gc : get_or (drop 1 code) (i - (start + 1)) 0 ≡ get_or code (i - start) 0 =
              get_or-drop 1 (i - (start + 1)) code 0 ∙ ap (λ k. get_or code k 0) shifted in
            let gd : get_or (drop 1 data_bytes) (i - (start + 1)) 0
                ≡ get_or data_bytes (i - start) 0 =
              get_or-drop 1 (i - (start + 1)) data_bytes 0
              ∙ ap (λ k. get_or data_bytes k 0) shifted in
            let same : get_or (set buf start v) i 0 ≡ get_or buf i 0 = written ∙ rw other refl in
            rw (past, behind, end, gc, gd, same) refl
      ]
    ]

pub put_word-xor :
    (n start i : ℕ) (buf code data_bytes : List ℕ)
    → start + n ≤ length buf
    → get_or (put_word n buf start (bit_xor (word n code) (word n data_bytes))) i 0 ≡ (
        if leb start i && ltb i (start + n)
        then bit_xor (get_or code (i - start) 0 % 256) (get_or data_bytes (i - start) 0 % 256)
        else get_or buf i 0)
unfolding put_word word
put_word-xor zero start i buf code data_bytes h = ground arith
put_word-xor (suc n) start i buf code data_bytes h =
    let c = get_or code 0 0 % 256 in
    let d = get_or data_bytes 0 0 % 256 in
    let rc = word n (drop 1 code) in
    let rd = word n (drop 1 data_bytes) in
    let parts : bit_xor (c + 256 * rc) (d + 256 * rd) ≡ bit_xor c d + 256 * bit_xor rc rd =
      bit_xor_byte c d rc rd (omega arith) (omega arith) in
    let small : bit_xor c d < 256 = bit_xor-below 8 c d (omega arith) (omega arith) in
    let low : bit_xor (c + 256 * rc) (d + 256 * rd) % 256 ≡ bit_xor c d =
      omega (arith, parts, small) in
    let high : bit_xor (c + 256 * rc) (d + 256 * rd) / 256 ≡ bit_xor rc rd =
      omega (arith, parts, small) in
    let rest =
      put_word-xor n (start + 1) i (set buf start (bit_xor c d)) (drop 1 code) (drop 1 data_bytes)
        (omega (arith, length-set buf start (bit_xor c d), h)) in
    rw (low, high) (rest ∙ join_byte n start i buf code data_bytes h)

pub length-put_word : (n start w : ℕ) (buf : List ℕ) → length (put_word n buf start w) ≡ length buf
unfolding put_word
length-put_word zero start w buf = refl
length-put_word (suc n) start w buf =
    length-put_word n (start + 1) (w / 256) (set buf start (w % 256))
    ∙ length-set buf start (w % 256)

-- The bytes from `start` up to `end` are combined with those of the data, and no others.
abbrev pub IsXored : List ℕ → ℕ → ℕ → List ℕ → List ℕ → Type 0
IsXored data_bytes start end code code' =
    (length code' ≡ length code)
    × ((i : ℕ)
        → get_or code' i 0 ≡ (
            if leb start i && ltb i end
            then bit_xor (get_or code i 0) (get_or data_bytes i 0)
            else get_or code i 0))

pub xored-AllBytes :
    (data_bytes : List ℕ) (start end : ℕ) (code code' : List ℕ)
    → AllBytes data_bytes
    → AllBytes code
    → IsXored data_bytes start end code code'
    → AllBytes code'
xored-AllBytes data_bytes start end code code' d c (size, each) i =
    elim (Bool-cases (leb start i && ltb i end)) [
      | inl inside ↦
          let e : get_or code' i 0 ≡ bit_xor (get_or code i 0) (get_or data_bytes i 0) =
            each i ∙ rw inside refl in
          let small = bit_xor-below 8 (get_or code i 0) (get_or data_bytes i 0) (c i) (d i) in
          omega (arith, e, small)
      | inr outside ↦
          let e : get_or code' i 0 ≡ get_or code i 0 = each i ∙ rw outside refl in
          omega (arith, e, c i)
    ]

-- One part after another.
pub both_parts :
    (data_bytes : List ℕ) (start mid end : ℕ) (code code1 code2 : List ℕ)
    → start ≤ mid
    → mid ≤ end
    → IsXored data_bytes start mid code code1
    → IsXored data_bytes mid end code1 code2
    → IsXored data_bytes start end code code2
both_parts data_bytes start mid end code code1 code2 h k (size1, each1) (size2, each2) = (
  size2 ∙ size1,
  λ i. each2 i ∙ elim (Bool-cases (ltb i mid)) [
    | inl low ↦
        let e : leb mid i ≡ false = ground arith in
        let f : ltb i end ≡ true = ground arith in rw (e, f) (each1 i ∙ rw low refl)
    | inr high ↦
        let e : leb mid i ≡ true = ground arith in
        let f : leb start i ≡ true = ground arith in
        let g : get_or code1 i 0 ≡ get_or code i 0 = each1 i ∙ rw (f, high) refl in
        rw (e, f, g) refl
  ],
)
