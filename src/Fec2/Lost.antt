-- ===== src/Fec2/Lost.antt =====
-- A lost packet is recovered from the code and the other packets of its row, column or diagonal
-- (src/fec2/goodtp_fec2.cpp).
use udpfec.Base.{
  ℕ, ◌+◌, ◌%◌, ◌^◌, ◌<◌, ◌≤◌, ◌≡◌, refl, sym, ap, ◌∙◌, List, [], ◌∷◌, ◌++◌, length, arith, Option,
  none, some,
}
use Prim.Native.Nat.{bit_xor}
use native.Mathlib.Nat.{mod-eq_of_lt}
use udpfec.Base.Bits.{bit, bit-pow_self}
use udpfec.Base.Words.{pow_below}
use udpfec.Base.Xor.{bit_xor_comm, bit_xor_assoc, bit_xor_self, bit_xor_zero}
use udpfec.Fec2.Recovery.{Payload, Fec2CodePack, first_encode, encode_all, restore_loop}
use udpfec.Fec2.Parity.{
  payload_byte, code_byte, IsCode, AllFit, Marks, xor_of, xor_present, first_encode_lem,
  encode_from_lem,
}
use udpfec.Fec2.Restore.{StandsAt, PresentFit, restore_loop_lem}

-- Packets that are all there, and packets `before` and `after` a lost one.
abbrev pub all_there : List Payload → List (Option Payload)
all_there [] = []
all_there (p ∷ rest) = some p ∷ all_there rest

abbrev pub with_gap : List Payload → List Payload → List (Option Payload)
with_gap [] after = none ∷ all_there after
with_gap (p ∷ before) after = some p ∷ with_gap before after

length-all_there : (after : List Payload) → length (all_there after) ≡ length after
length-all_there [] = refl
length-all_there (p ∷ after) = omega (arith, length-all_there after)

length-with_gap :
    (before after : List Payload) (p : Payload)
    → length (with_gap before after) ≡ length (before ++ (p ∷ after))
length-with_gap [] after p = omega (arith, length-all_there after)
length-with_gap (q ∷ before) after p = omega (arith, length-with_gap before after p)

rest_present : (after : List Payload) (i : ℕ) → xor_present (all_there after) i ≡ xor_of after i
rest_present [] i = refl
rest_present (p ∷ after) i = ap (bit_xor (payload_byte p i)) (rest_present after i)

rest_fit : (cap : ℕ) (after : List Payload) → AllFit cap after → PresentFit cap (all_there after)
rest_fit cap [] fits = tt
rest_fit cap (p ∷ after) (fit, fits) = (fit, rest_fit cap after fits)

gap_fit :
    (cap : ℕ) (before after : List Payload) (p : Payload)
    → AllFit cap (before ++ (p ∷ after))
    → PresentFit cap (with_gap before after)
gap_fit cap [] after p (fit, fits) = rest_fit cap after fits
gap_fit cap (q ∷ before) after p (fit, fits) = (fit, gap_fit cap before after p fits)

-- The others cancel.
cancel : (q all others : ℕ) → bit_xor (bit_xor q all) (bit_xor q others) ≡ bit_xor all others
cancel q all others =
    ap (λ t. bit_xor t (bit_xor q others)) (bit_xor_comm q all)
    ∙ bit_xor_assoc all q (bit_xor q others)
    ∙ ap (bit_xor all) (
        sym (bit_xor_assoc q q others)
        ∙ ap (λ t. bit_xor t others) (bit_xor_self q)
        ∙ bit_xor_comm 0 others
        ∙ bit_xor_zero others)

gap_left :
    (before after : List Payload) (p : Payload) (i : ℕ)
    → bit_xor (xor_of (before ++ (p ∷ after)) i) (xor_present (with_gap before after) i)
      ≡ payload_byte p i
gap_left [] after p i =
    ap (bit_xor (bit_xor (payload_byte p i) (xor_of after i))) (rest_present after i)
    ∙ bit_xor_assoc (payload_byte p i) (xor_of after i) (xor_of after i)
    ∙ ap (bit_xor (payload_byte p i)) (bit_xor_self (xor_of after i))
    ∙ bit_xor_zero (payload_byte p i)
gap_left (q ∷ before) after p i =
    cancel (payload_byte q i) (xor_of (before ++ (p ∷ after)) i)
      (xor_present (with_gap before after) i)
    ∙ gap_left before after p i

encode_all_lem :
    (shift cap : ℕ) (c : Fec2CodePack) (pos : ℕ) (q : Payload) (ps : List Payload)
    → cap < 65536
    → IsCode cap c
    → AllFit cap (q ∷ ps)
    → pos + length (q ∷ ps) ≤ 8
    → let c' = encode_all shift pos c (q ∷ ps) in
      Marks pos (pos + length (q ∷ ps)) c' × ((i : ℕ) → code_byte c' i ≡ xor_of (q ∷ ps) i)
unfolding encode_all
encode_all_lem shift cap c pos q ps small code (fit, fits) h =
    let (code1, each1) = first_encode_lem shift cap small c q pos code fit in
    let c1 = first_encode c q pos in
    let first : Marks pos (pos + 1) c1 = λ k low high.
      let e : k ≡ pos = omega (arith, low, high) in
      rw e (
        unfold first_encode in
        (ap (λ t. bit t pos) (mod-eq_of_lt (pow_below pos 8 (omega (arith, h))))
          ∙ bit-pow_self pos)) in
    let (code2, marks2, each2) =
      encode_from_lem shift cap small pos (pos + 1) c1 ps code1 fits (omega (arith, h)) first in
    (
      λ k low high. marks2 k low (omega (arith, high)),
      λ i. each2 i ∙ ap (λ t. bit_xor t (xor_of ps i)) (each1 i),
    )

-- What the receiver has of a code: the bitmap, and the code's bytes in a memory of its own.
abbrev pub IsReceived : Fec2CodePack → Fec2CodePack → Type 0
IsReceived sent received =
    (received.encode_bit_map ≡ sent.encode_bit_map)
    × ((i : ℕ) → code_byte received i ≡ code_byte sent i)

xor_of_all :
    (shift cap : ℕ) (c : Fec2CodePack) (pos : ℕ) (before after : List Payload) (p : Payload)
    → cap < 65536
    → IsCode cap c
    → AllFit cap (before ++ (p ∷ after))
    → pos + length (before ++ (p ∷ after)) ≤ 8
    → let c' = encode_all shift pos c (before ++ (p ∷ after)) in
      Marks pos (pos + length (before ++ (p ∷ after))) c'
      × ((i : ℕ) → code_byte c' i ≡ xor_of (before ++ (p ∷ after)) i)
xor_of_all shift cap c pos [] after p small code fits h =
    encode_all_lem shift cap c pos p after small code fits h
xor_of_all shift cap c pos (q ∷ before) after p small code fits h =
    encode_all_lem shift cap c pos q (before ++ (p ∷ after)) small code fits h

-- A sender combines packets of one direction, at most eight with the bit of the first, into a code. A
-- receiver, whose memory and word size may be others, has the code and, at the positions of the direction,
-- all those packets but one. Then the loop over the direction leaves each byte of the lost packet, with
-- zeros behind them.
pub restore_loop-encode_all :
    (shift shift' cap cap' : ℕ) (c received : Fec2CodePack) (pos stride move_pos : ℕ)
    (cache : List (Option Payload)) (before after : List Payload) (p : Payload) (i : ℕ)
    → cap < 65536
    → cap' < 65536
    → IsCode cap c
    → IsCode cap' received
    → AllFit cap (before ++ (p ∷ after))
    → AllFit cap' (before ++ (p ∷ after))
    → pos + length (before ++ (p ∷ after)) ≤ 8
    → IsReceived (encode_all shift pos c (before ++ (p ∷ after))) received
    → StandsAt cache stride move_pos (with_gap before after)
    → let restored =
        restore_loop
          (length (before ++ (p ∷ after)))
          shift'
          stride
          cache
          move_pos
          (2 ^ pos % 256)
          received in
      code_byte restored i ≡ payload_byte p i
restore_loop-encode_all shift shift' cap cap' c received pos stride move_pos cache before after p i
      small small' code code' fits fits' h (map_same, bytes_same) stands =
    let ps = before ++ (p ∷ after) in
    let (marks, each) = xor_of_all shift cap c pos before after p small code fits h in
    let size = length-with_gap before after p in
    let marked : Marks pos (pos + length (with_gap before after)) received =
      λ k low high. ap (λ t. bit t k) map_same ∙ marks k low (omega (arith, high, size)) in
    let run =
      restore_loop_lem shift' cap' small' (with_gap before after) stride cache move_pos pos
        (2 ^ pos % 256) received code' (gap_fit cap' before after p fits') (omega (arith, size, h))
        marked refl stands in
    ap (λ n. code_byte (restore_loop n shift' stride cache move_pos (2 ^ pos % 256) received) i)
      (sym size)
    ∙ run i
    ∙ ap (λ t. bit_xor t (xor_present (with_gap before after) i)) (bytes_same i ∙ each i)
    ∙ gap_left before after p i
