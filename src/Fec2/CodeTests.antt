-- ===== src/Fec2/CodeTests.antt =====
-- Codes and places of packets (src/fec2/goodtp_fec2.cpp) at concrete inputs.
use udpfec.Base.{
  ℕ, zero, suc, ◌^◌, ◌%◌, ◌≡◌, refl, sym, ap, List, [], ◌∷◌, ◌++◌, Bool, true, ◌&&◌, ltb, Option,
  none, some, arith, replicate,
}
use udpfec.Base.Bits.{word}
use udpfec.Base.Memory.{copy_bytes, zero_bytes}
use udpfec.Fec2.Xor.{put_word, xor_block, xor_blocks, xor_tail, xor_encode}
use udpfec.Fec2.XorBytes.{AllBytes}
use udpfec.Fec2.XorEncode.{IsEncoded, xor_encode-IsEncoded}
use udpfec.Fec2.Recovery.{
  Payload, Fec2CodePack, first_encode, xor_payload, next_encode, encode_from, encode_all,
  restore_loop,
}
use udpfec.Fec2.Parity.{code_byte, payload_byte, AllFit}
use udpfec.Fec2.Lost.{restore_loop-encode_all}
use udpfec.Fec2.Positions.{Fec2EnDeCodeMatrix, check_pack_sn_in_block, check_cur_sn_is_in_matrix}
use udpfec.Fec2.Zones.{behind, check_pack_sn_in_block-behind, IsPlaced, block_place}

abbrev all_small : List ℕ → Bool
all_small [] = true
all_small (b ∷ rest) = ltb b 256 && all_small rest

all_small_lem : (buf : List ℕ) → all_small buf ≡ true → AllBytes buf
all_small_lem [] h i = omega arith
all_small_lem (b ∷ rest) h zero = ground arith
all_small_lem (b ∷ rest) h (suc i) = all_small_lem rest (ground arith) i

abbrev first_packet : Payload
first_packet = record { payload = 1 ∷ 2 ∷ 3 ∷ []; payload_len = 3 }

abbrev lost_packet : Payload
lost_packet = record { payload = 9 ∷ 8 ∷ 7 ∷ 6 ∷ 5 ∷ 4 ∷ 3 ∷ 2 ∷ 1 ∷ []; payload_len = 9 }

abbrev last_packet : Payload
last_packet = record { payload = 255 ∷ []; payload_len = 1 }

-- A memory of 12 bytes with something in it.
abbrev used_memory : Fec2CodePack
used_memory = record { fec_code = replicate 12 7; code_len = 0; encode_bit_map = 0 }

abbrev sent : Fec2CodePack
sent = record {
  fec_code = 247 ∷ 10 ∷ 4 ∷ 6 ∷ 5 ∷ 4 ∷ 3 ∷ 2 ∷ 1 ∷ 7 ∷ 7 ∷ 7 ∷ [];
  code_len = 9;
  encode_bit_map = 7;
}

encode_all_test : encode_all 3 0 used_memory (first_packet ∷ lost_packet ∷ last_packet ∷ []) ≡ sent
unfolding encode_all encode_from first_encode next_encode xor_payload xor_encode xor_blocks
    xor_block xor_tail put_word word copy_bytes zero_bytes
encode_all_test = refl

-- The first packet stands in the last slot of the cache, the last one in slot 1.
abbrev cache : List (Option Payload)
cache = none ∷ some last_packet ∷ (replicate 29 none ++ (some first_packet ∷ []))

packets_fit : AllFit 12 (first_packet ∷ lost_packet ∷ last_packet ∷ [])
packets_fit = (
  (all_small_lem first_packet.payload refl, omega arith),
  (
    (all_small_lem lost_packet.payload refl, omega arith),
    ((all_small_lem last_packet.payload refl, omega arith), tt),
  ),
)

restore_loop-encode_all_example :
    let restored = restore_loop 3 2 1 cache 31 (2 ^ 0 % 256) sent in
    code_byte restored 8 ≡ payload_byte lost_packet 8
restore_loop-encode_all_example =
    restore_loop-encode_all 3 2 12 12 used_memory sent 0 1 31 cache (first_packet ∷ [])
      (last_packet ∷ []) lost_packet 8 (omega arith) (omega arith)
      (refl, all_small_lem used_memory.fec_code refl, omega arith)
      (refl, all_small_lem sent.fec_code refl, omega arith) packets_fit packets_fit (omega arith)
      (
        ap (λ c. c.encode_bit_map) (sym encode_all_test),
        λ i. ap (λ c. code_byte c i) (sym encode_all_test),
      )
      (refl, (refl, (refl, tt)))

xor_encode-IsEncoded_example :
    let (code, size) = xor_encode 3 lost_packet.payload 9 used_memory.fec_code 2 in
    IsEncoded lost_packet.payload 9 used_memory.fec_code 2 code size
xor_encode-IsEncoded_example =
    xor_encode-IsEncoded 3 lost_packet.payload 9 used_memory.fec_code 2
      (all_small_lem lost_packet.payload refl) (all_small_lem used_memory.fec_code refl)
      (omega arith)

check_pack_sn_in_block-behind_example :
    (check_pack_sn_in_block 3 4294967290 8 ≡ ltb (behind 4294967290 3) (behind 4294967290 8))
    × (check_cur_sn_is_in_matrix 3
          (record { matrix_size = 16; h_size = 4; start_pack_sn = 4294967290 })
        ≡ ltb (behind 4294967290 3) 16)
check_pack_sn_in_block-behind_example =
    check_pack_sn_in_block-behind 3 4294967290 8 16 4 (omega arith) (omega arith) (omega arith)
      (omega arith)

block_place_example : IsPlaced 4294967295 16 4
block_place_example = block_place 4294967295 16 4 (omega arith) refl

abbrev six_by_three : Fec2EnDeCodeMatrix
six_by_three = record { matrix_size = 6; h_size = 3; start_pack_sn = 12 }
