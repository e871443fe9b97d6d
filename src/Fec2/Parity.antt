-- ===== src/Fec2/Parity.antt =====
-- The bytes of a code over packets (src/fec2/goodtp_fec2.cpp).
use udpfec.Base.{
  ℕ, ◌+◌, ◌%◌, ◌^◌, ◌<◌, ◌≤◌, ◌≡◌, refl, sym, ap, ◌∙◌, List, [], ◌∷◌, ◌==◌, length, arith, inl, inr,
  Bool-cases, Option, none, some,
}
use Prim.Native.Nat.{bit_or, bit_xor}
use native.Mathlib.Nat.{mod-eq_of_lt}
use udpfec.Base.Bits.{bit}
use udpfec.Base.Words.{pow_below, bit-set_bit}
use udpfec.Base.Xor.{bit_xor_assoc, bit_xor_zero}
use udpfec.Base.Memory.{copy_bytes, length-copy_bytes, get_or-copy_bytes}
use udpfec.Fec2.Xor.{xor_encode}
use udpfec.Fec2.XorBytes.{AllBytes}
use udpfec.Fec2.XorEncode.{padded, xor_encode-IsEncoded}
use udpfec.Fec2.Recovery.{
  Payload, Fec2CodePack, first_encode, xor_payload, next_encode, encode_from,
}

-- The bytes of a packet and of a code, with zeros behind them.
abbrev pub payload_byte : Payload → ℕ → ℕ
payload_byte p i = padded p.payload p.payload_len i

abbrev pub code_byte : Fec2CodePack → ℕ → ℕ
code_byte c i = padded c.fec_code c.code_len i

-- A code in a memory of `cap` bytes, and a packet that fits into it.
abbrev pub IsCode : ℕ → Fec2CodePack → Type 0
IsCode cap c = (length c.fec_code ≡ cap) × AllBytes c.fec_code × (c.code_len ≤ cap)

abbrev pub Fits : ℕ → Payload → Type 0
Fits cap p = AllBytes p.payload × (p.payload_len ≤ cap)

abbrev pub AllFit : ℕ → List Payload → Type 0
AllFit cap [] = Unit {0}
AllFit cap (p ∷ rest) = Fits cap p × AllFit cap rest

-- The exclusive or of the packets, and of those that are there, at one byte.
abbrev pub xor_of : List Payload → ℕ → ℕ
xor_of [] i = 0
xor_of (p ∷ rest) i = bit_xor (payload_byte p i) (xor_of rest i)

abbrev pub xor_present : List (Option Payload) → ℕ → ℕ
xor_present [] i = 0
xor_present (none ∷ rest) i = xor_present rest i
xor_present (some p ∷ rest) i = bit_xor (payload_byte p i) (xor_present rest i)

-- The bits of the packets from `pos` on are set.
abbrev pub Marks : ℕ → ℕ → Fec2CodePack → Type 0
Marks start end c = (k : ℕ) → start ≤ k → k < end → bit c.encode_bit_map k ≡ 1

module _ (shift cap : ℕ) (small : cap < 65536) where
  pub xor_payload_lem :
      (c : Fec2CodePack) (p : Payload)
      → IsCode cap c
      → Fits cap p
      → IsCode cap (xor_payload shift c p)
        × ((i : ℕ)
            → code_byte (xor_payload shift c p) i ≡ bit_xor (code_byte c i) (payload_byte p i))
  unfolding xor_payload
  xor_payload_lem c p (size, bytes, len) (data_bytes, fits) =
      let (size', len', bytes', each) =
        xor_encode-IsEncoded shift p.payload p.payload_len c.fec_code c.code_len data_bytes bytes
          (omega (arith, size, fits)) in
      let result = xor_encode shift p.payload p.payload_len c.fec_code c.code_len in
      let in_cap : result.1 ≤ cap = ground (arith, len', len, fits) in
      let whole : result.1 % 65536 ≡ result.1 = omega (arith, in_cap, small) in
      (
        (size' ∙ size, bytes', omega (arith, whole, in_cap)),
        λ i. ap (λ t. padded result.0 t i) whole ∙ each i,
      )

  pub first_encode_lem :
      (c : Fec2CodePack) (p : Payload) (pos : ℕ)
      → IsCode cap c
      → Fits cap p
      → IsCode cap (first_encode c p pos)
        × ((i : ℕ) → code_byte (first_encode c p pos) i ≡ payload_byte p i)
  unfolding first_encode
  first_encode_lem c p pos (size, bytes, len) (data_bytes, fits) =
      let copied = copy_bytes p.payload_len 0 p.payload c.fec_code in
      let each = λ (i : ℕ).
        get_or-copy_bytes p.payload_len 0 i p.payload c.fec_code (omega (arith, size, fits)) in
      let whole : p.payload_len % 65536 ≡ p.payload_len = omega (arith, fits, small) in
      (
        (
          length-copy_bytes p.payload_len 0 p.payload c.fec_code ∙ size,
          λ i. ground (arith, each i, bytes i, data_bytes i),
          omega (arith, whole, fits),
        ),
        λ i. ap (λ t. padded copied t i) whole ∙ ground (arith, each i),
      )

  next_encode-Marks :
      (start pos : ℕ) (c : Fec2CodePack) (p : Payload)
      → pos < 8
      → Marks start pos c
      → Marks start (pos + 1) (next_encode shift c p pos)
  unfolding next_encode xor_payload
  next_encode-Marks start pos c p h marks k low high =
      let whole : 2 ^ pos % 256 ≡ 2 ^ pos = mod-eq_of_lt (pow_below pos 8 h) in
      rw whole (
        bit-set_bit c.encode_bit_map pos k ∙ elim (Bool-cases (k == pos)) [
          | inl same ↦ rw same refl
          | inr other ↦ rw other (marks k low (ground arith))
        ])

  pub encode_from_lem :
      (start pos : ℕ) (c : Fec2CodePack) (ps : List Payload)
      → IsCode cap c
      → AllFit cap ps
      → pos + length ps ≤ 8
      → Marks start pos c
      → let c' = encode_from shift pos c ps in
        IsCode cap c'
        × Marks start (pos + length ps) c'
        × ((i : ℕ) → code_byte c' i ≡ bit_xor (code_byte c i) (xor_of ps i))
  unfolding encode_from next_encode
  encode_from_lem start pos c [] code fits h marks =
      (code, λ k low high. marks k low (omega arith), λ i. sym (bit_xor_zero (code_byte c i)))
  encode_from_lem start pos c (p ∷ rest) code (fit, fits) h marks =
      let c1 = next_encode shift c p pos in
      let (code1, each1) =
        xor_payload_lem (record c { encode_bit_map = bit_or c.encode_bit_map (2 ^ pos % 256) }) p
          code fit in
      let (code2, marks2, each2) =
        encode_from_lem start (pos + 1) c1 rest code1 fits (omega arith)
          (next_encode-Marks start pos c p (omega arith) marks) in
      (
        code2,
        λ k low high. marks2 k low (omega (arith, high)),
        λ i.
            each2 i
            ∙ ap (λ t. bit_xor t (xor_of rest i)) (each1 i)
            ∙ bit_xor_assoc (code_byte c i) (payload_byte p i) (xor_of rest i),
      )
