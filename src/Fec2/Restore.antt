-- ===== src/Fec2/Restore.antt =====
-- The loop that combines a code with the packets of a row, column or diagonal that are there
-- (src/fec2/goodtp_fec2.cpp).
use udpfec.Base.{
  ℕ, suc, ◌+◌, ◌*◌, ◌%◌, ◌^◌, ◌<◌, ◌≤◌, ◌≡◌, refl, sym, ap, ◌∙◌, List, [], ◌∷◌, false, ◌==◌, get_or,
  length, arith, Option, none, some,
}
use Prim.Native.Nat.{bit_and, bit_xor}
use native.Mathlib.Nat.{mod-eq_of_lt, pow-suc}
use udpfec.Base.Bits.{bit, bit_test}
use udpfec.Base.Masks.{bit_and-mask}
use udpfec.Base.Words.{pow_below}
use udpfec.Base.Xor.{bit_xor_assoc, bit_xor_zero}
use udpfec.Fec2.Recovery.{Payload, Fec2CodePack, xor_payload, restore_loop}
use udpfec.Fec2.Parity.{payload_byte, code_byte, IsCode, Fits, Marks, xor_present, xor_payload_lem}

-- The cache has these packets, or none, at `pos` and then each `stride` positions further on.
abbrev pub StandsAt : List (Option Payload) → ℕ → ℕ → List (Option Payload) → Type 0
StandsAt cache stride pos [] = Unit {0}
StandsAt cache stride pos (o ∷ rest) =
    (get_or cache pos none ≡ o) × StandsAt cache stride ((pos + stride) % 32) rest

abbrev pub PresentFit : ℕ → List (Option Payload) → Type 0
PresentFit cap [] = Unit {0}
PresentFit cap (none ∷ rest) = PresentFit cap rest
PresentFit cap (some p ∷ rest) = Fits cap p × PresentFit cap rest

-- The next bit of the bitmap, in 8 bits.
next_bit : (m bitmap : ℕ) → bitmap ≡ 2 ^ m % 256 → bitmap * 2 % 256 ≡ 2 ^ suc m % 256
next_bit m bitmap e = omega (arith, e, pow-suc 2 m)

is_marked :
    (m bitmap : ℕ) (c : Fec2CodePack)
    → m < 8
    → bitmap ≡ 2 ^ m % 256
    → bit c.encode_bit_map m ≡ 1
    → (bit_and c.encode_bit_map bitmap == 0) ≡ false
is_marked m bitmap c h e marked =
    let whole : bitmap ≡ 2 ^ m = e ∙ mod-eq_of_lt (pow_below m 8 h) in
    rw whole (bit_test c.encode_bit_map m ∙ rw marked refl)

-- What a round does with the code, where the packet's bit is set.
abbrev combined : ℕ → Fec2CodePack → Option Payload → Fec2CodePack
combined shift c none = c
combined shift c (some p) = xor_payload shift c p

restore_step :
    (rounds shift stride : ℕ) (cache : List (Option Payload)) (move_pos bitmap : ℕ)
    (c : Fec2CodePack) (o : Option Payload)
    → (bit_and c.encode_bit_map bitmap == 0) ≡ false
    → get_or cache move_pos none ≡ o
    → restore_loop (suc rounds) shift stride cache move_pos bitmap c
      ≡ restore_loop rounds shift stride cache
          ((move_pos + stride) % 32)
          (bitmap * 2 % 256)
          (combined shift c o)
unfolding restore_loop
restore_step rounds shift stride cache move_pos bitmap c none test here =
    let position = bit_and-mask 5 (move_pos + stride) in
    rw (test, here, position, restore_loop) refl
restore_step rounds shift stride cache move_pos bitmap c (some p) test here =
    let position = bit_and-mask 5 (move_pos + stride) in
    rw (test, here, position, restore_loop) refl

module _ (shift cap : ℕ) (small : cap < 65536) where
  pub restore_loop_lem :
      (os : List (Option Payload)) (stride : ℕ) (cache : List (Option Payload))
      (move_pos m bitmap : ℕ) (c : Fec2CodePack)
      → IsCode cap c
      → PresentFit cap os
      → m + length os ≤ 8
      → Marks m (m + length os) c
      → bitmap ≡ 2 ^ m % 256
      → StandsAt cache stride move_pos os
      → let c' = restore_loop (length os) shift stride cache move_pos bitmap c in
        (i : ℕ) → code_byte c' i ≡ bit_xor (code_byte c i) (xor_present os i)
  unfolding restore_loop
  restore_loop_lem [] stride cache move_pos m bitmap c code fit h marks e stands =
      λ i. sym (bit_xor_zero (code_byte c i))
  restore_loop_lem (none ∷ rest) stride cache move_pos m bitmap c code fit h marks e
        (here, stands) =
      let test = is_marked m bitmap c (omega arith) e (marks m (omega arith) (omega arith)) in
      let step = restore_step (length rest) shift stride cache move_pos bitmap c none test here in
      let ih =
        restore_loop_lem rest stride cache ((move_pos + stride) % 32) (suc m) (bitmap * 2 % 256) c
          code fit (omega arith) (λ k low high. marks k (omega arith) (omega (arith, high)))
          (next_bit m bitmap e) stands in
      λ i. ap (λ t. code_byte t i) step ∙ ih i
  restore_loop_lem (some p ∷ rest) stride cache move_pos m bitmap c code (fits, fit) h marks e
        (here, stands) =
      let test = is_marked m bitmap c (omega arith) e (marks m (omega arith) (omega arith)) in
      let step =
        restore_step (length rest) shift stride cache move_pos bitmap c (some p) test here in
      let (code1, each1) = xor_payload_lem shift cap small c p code fits in
      let ih =
        restore_loop_lem rest stride cache ((move_pos + stride) % 32) (suc m) (bitmap * 2 % 256)
          (xor_payload shift c p) code1 fit (omega arith)
          (λ k low high. unfold xor_payload in marks k (omega arith) (omega (arith, high)))
          (next_bit m bitmap e) stands in
      λ i.
        ap (λ t. code_byte t i) step
        ∙ ih i
        ∙ ap (λ t. bit_xor t (xor_present rest i)) (each1 i)
        ∙ bit_xor_assoc (code_byte c i) (payload_byte p i) (xor_present rest i)
