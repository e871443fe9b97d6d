-- ===== src/Fec2/Zones.antt =====
-- Where packets lie (src/fec2/goodtp_fec2.cpp): the zones of packet numbers, the matrix of a number, and
-- the place in it.
use udpfec.Base.{
  ℕ, ◌+◌, ◌-◌, ◌*◌, ◌/◌, ◌%◌, ◌<◌, ◌≤◌, ◌≡◌, true, false, ltb, leb, ◌==◌, arith, inl, inr, ◌⊎◌,
  Bool-cases,
}
use native.Mathlib.Nat.{mod-lt, div-add-mod, div-le_self, mod-le}
use udpfec.Base.Masks.{bit_and-mask}
use udpfec.Base.Words.{bit_and-clear}
use udpfec.Fec2.Buffer.{calc_pos_in_pack_cache}
use udpfec.Fec2.Positions.{
  Fec2EnDeCodeMatrix, is_power, check_pack_sn_in_block, check_cur_sn_is_in_matrix,
  calc_pack_pos_in_matrix, pack_sn_to_start_sn, pack_sn_to_block_start_pos, pack_sn_to_matrix_id,
  calc_horizontal_encode_pos, calc_vertical_encode_pos,
}

-- How far a number lies behind the start, modulo 2 ^ 32.
abbrev pub behind : ℕ → ℕ → ℕ
behind start sn = (sn + 4294967296 - start) % 4294967296

-- The two tests of a zone of 32-bit numbers, with a turn of the numbers or without, are one test of
-- distances modulo 2 ^ 32: a number is in the block where it lies behind the start by less than the end
-- does, and in the matrix where it lies behind its start by less than the size.
pub check_pack_sn_in_block-behind :
    (sn start end size h_size : ℕ)
    → sn < 4294967296
    → start < 4294967296
    → end < 4294967296
    → size < 256
    → (check_pack_sn_in_block sn start end ≡ ltb (behind start sn) (behind start end))
      × (check_cur_sn_is_in_matrix sn
            (record { matrix_size = size; h_size = h_size; start_pack_sn = start })
          ≡ ltb (behind start sn) size)
unfolding check_pack_sn_in_block check_cur_sn_is_in_matrix
check_pack_sn_in_block-behind sn start end size h_size a b c d =
    (ground (arith, a, b, c), ground (arith, a, b, d))

is_power-cases :
    (size : ℕ) → is_power size ≡ true → (size ≡ 2) ⊎ (size ≡ 4) ⊎ (size ≡ 8) ⊎ (size ≡ 16)
is_power-cases size h = ground (arith, h)

-- The place of a number in the matrix of its block: the number is in the matrix that starts at the block's
-- first number, at the difference of the two; the block's first position in the cache is the first
-- number's, and the matrix's index counts the blocks of the cache.
abbrev pub IsPlaced : ℕ → ℕ → ℕ → Type 0
IsPlaced sn size h_size =
    let start = pack_sn_to_start_sn sn size in
    let pos = calc_pack_pos_in_matrix (calc_pos_in_pack_cache sn) size in
    (check_cur_sn_is_in_matrix sn
        (record { matrix_size = size; h_size = h_size; start_pack_sn = start })
      ≡ true)
    × (start + pos ≡ sn)
    × (pos < size)
    × (pack_sn_to_block_start_pos sn size ≡ calc_pos_in_pack_cache start)
    × (pack_sn_to_matrix_id sn size * size ≡ calc_pos_in_pack_cache start)

-- Every 32-bit number has its place in a block of 2, 4, 8 or 16 packets: the number's matrix, in which
-- it is at the position computed for it, starts at the block's first number; the positions in the cache
-- of the block and of its first number are the same, and the matrix's index times the size is that position.
pub block_place :
    (sn size h_size : ℕ) → sn < 4294967296 → is_power size ≡ true → IsPlaced sn size h_size
unfolding check_cur_sn_is_in_matrix pack_sn_to_start_sn calc_pack_pos_in_matrix
    pack_sn_to_block_start_pos pack_sn_to_matrix_id calc_pos_in_pack_cache
block_place sn size h_size h power = elim (is_power-cases size power) [
  | inl e ↦
      let low = bit_and-mask 1 (sn % 32) in
      let start = bit_and-clear 1 32 sn (omega arith) h in
      let block = bit_and-clear 1 32 (sn % 32) (omega arith) (omega arith) in
      rw (e, low, start, block)
        (ground (arith, h), omega arith, omega arith, omega arith, omega arith)
  | inr (inl e) ↦
      let low = bit_and-mask 2 (sn % 32) in
      let start = bit_and-clear 2 32 sn (omega arith) h in
      let block = bit_and-clear 2 32 (sn % 32) (omega arith) (omega arith) in
      rw (e, low, start, block)
        (ground (arith, h), omega arith, omega arith, omega arith, omega arith)
  | inr (inr (inl e)) ↦
      let low = bit_and-mask 3 (sn % 32) in
      let start = bit_and-clear 3 32 sn (omega arith) h in
      let block = bit_and-clear 3 32 (sn % 32) (omega arith) (omega arith) in
      rw (e, low, start, block)
        (ground (arith, h), omega arith, omega arith, omega arith, omega arith)
  | inr (inr (inr e)) ↦
      let low = bit_and-mask 4 (sn % 32) in
      let start = bit_and-clear 4 32 sn (omega arith) h in
      let block = bit_and-clear 4 32 (sn % 32) (omega arith) (omega arith) in
      rw (e, low, start, block)
        (ground (arith, h), omega arith, omega arith, omega arith, omega arith)
]

-- The two encode positions without masks and shifts.
encode_pos_lem :
    (size h_size start pos : ℕ)
    → 0 < h_size
    → size < 256
    → pos < size
    → let matrix : Fec2EnDeCodeMatrix = record {
      matrix_size = size;
      h_size = h_size;
      start_pack_sn = start;
    } in
      (calc_horizontal_encode_pos matrix pos ≡ pos / h_size)
      × (calc_vertical_encode_pos matrix pos ≡ pos % h_size)
unfolding calc_horizontal_encode_pos calc_vertical_encode_pos
encode_pos_lem size h_size start pos some_column small inside =
    let inside_too : leb size pos ≡ false = ground (arith, inside) in
    elim (Bool-cases (is_power h_size)) [
      | inl power ↦ elim (is_power-cases h_size power) [
        | inl e ↦
            let low = bit_and-mask 1 pos in
            rw (e, inside_too, low) (omega (arith, inside, small), omega (arith, inside, small))
        | inr (inl e) ↦
            let low = bit_and-mask 2 pos in
            rw (e, inside_too, low) (omega (arith, inside, small), omega (arith, inside, small))
        | inr (inr (inl e)) ↦
            let low = bit_and-mask 3 pos in
            rw (e, inside_too, low) (omega (arith, inside, small), omega (arith, inside, small))
        | inr (inr (inr e)) ↦
            let low = bit_and-mask 4 pos in
            rw (e, inside_too, low) (omega (arith, inside, small), omega (arith, inside, small))
      ]
      | inr other ↦
          let part : pos / h_size ≤ pos = div-le_self pos h_size in
          let rest : pos % h_size ≤ pos = mod-le pos h_size in
          let column : h_size == 0 ≡ false = ground (arith, some_column) in
          let two : h_size == 2 ≡ false = ground (arith, other) in
          let four : h_size == 4 ≡ false = ground (arith, other) in
          let eight : h_size == 8 ≡ false = ground (arith, other) in
          let sixteen : h_size == 16 ≡ false = ground (arith, other) in
          rw (column, inside_too, two, four, eight, sixteen)
            (omega (arith, part, inside, small), omega (arith, rest, inside, small))
    ]

-- In a matrix of up to 255 packets with rows of `h_size` packets, each position has the row
-- `calc_horizontal_encode_pos` and in it the place `calc_vertical_encode_pos`: the place is below `h_size`,
-- and row and place give the position again.
pub encode_pos_back :
    (size h_size start pos : ℕ)
    → 0 < h_size
    → size < 256
    → pos < size
    → let matrix : Fec2EnDeCodeMatrix = record {
      matrix_size = size;
      h_size = h_size;
      start_pack_sn = start;
    } in
      (h_size * calc_horizontal_encode_pos matrix pos + calc_vertical_encode_pos matrix pos ≡ pos)
      × (calc_vertical_encode_pos matrix pos < h_size)
encode_pos_back size h_size start pos some_column small inside =
    let (row, place) = encode_pos_lem size h_size start pos some_column small inside in
    rw (row, place) (div-add-mod pos h_size, mod-lt pos some_column)
