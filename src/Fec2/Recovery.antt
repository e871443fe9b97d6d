-- ===== src/Fec2/Recovery.antt =====
-- The codes over the packets of a row, a column or a diagonal of a matrix, and the recovery of a packet
-- (`HorizontalEncode` and `RestoreDataByHDir`, and those of the other three directions, in
-- src/fec2/goodtp_fec2.cpp). The memory of a code is large enough for its packets.
use udpfec.Base.{
  ℕ, zero, suc, ◌+◌, ◌*◌, ◌%◌, ◌^◌, List, [], ◌∷◌, ◌==◌, if◌then◌else◌, Option, none, some, get_or,
}
use Prim.Native.Nat.{bit_and, bit_or}
use udpfec.Base.Memory.{copy_bytes}
use udpfec.Fec2.Xor.{xor_encode}

pub record Payload : Type 0 where
  pub payload : List ℕ
  pub payload_len : ℕ

pub record Fec2CodePack : Type 0 where
  pub fec_code : List ℕ
  pub code_len : ℕ
  pub encode_bit_map : ℕ

-- The first packet of a code: `pos` is its bit.
unfoldable pub first_encode : Fec2CodePack → Payload → ℕ → Fec2CodePack
first_encode c p pos = record {
  fec_code = copy_bytes p.payload_len 0 p.payload c.fec_code;
  code_len = p.payload_len % 65536;
  encode_bit_map = 2 ^ pos % 256;
}

-- A packet is combined with the code.
unfoldable pub xor_payload : ℕ → Fec2CodePack → Payload → Fec2CodePack
xor_payload shift c p =
    let (code, coded_size) = xor_encode shift p.payload p.payload_len c.fec_code c.code_len in
    record c { fec_code = code; code_len = coded_size % 65536 }

unfoldable pub next_encode : ℕ → Fec2CodePack → Payload → ℕ → Fec2CodePack
unfolding xor_payload
next_encode shift c p pos =
    xor_payload shift (record c { encode_bit_map = bit_or c.encode_bit_map (2 ^ pos % 256) }) p

-- The packets of a direction one after another, from bit `pos` on.
unfoldable pub encode_from : ℕ → ℕ → Fec2CodePack → List Payload → Fec2CodePack
unfolding next_encode
encode_from shift pos c [] = c
encode_from shift pos c (p ∷ rest) = encode_from shift (pos + 1) (next_encode shift c p pos) rest

unfoldable pub encode_all : ℕ → ℕ → Fec2CodePack → List Payload → Fec2CodePack
unfolding encode_from first_encode
encode_all shift pos c [] = c
encode_all shift pos c (p ∷ rest) = encode_from shift (pos + 1) (first_encode c p pos) rest

-- The loop of the four directions, which differ in `stride`: the packets in the cache whose bits are set
-- are combined with the code.
unfoldable pub restore_loop :
    ℕ → ℕ → ℕ → List (Option Payload) → ℕ → ℕ → Fec2CodePack → Fec2CodePack
restore_loop zero shift stride cache move_pos bitmap c = c
restore_loop (suc rounds) shift stride cache move_pos bitmap c =
    restore_loop rounds shift stride cache (bit_and (move_pos + stride) 31) (bitmap * 2 % 256) (
      if bit_and c.encode_bit_map bitmap == 0
      then c
      else elim (get_or cache move_pos none) [ none ↦ c | some p ↦ xor_payload shift c p ])
