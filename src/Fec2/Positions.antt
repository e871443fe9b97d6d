-- ===== src/Fec2/Positions.antt =====
-- The places of a packet in the cache, in its matrix and among its codes (src/fec2/goodtp_fec2.cpp).
-- Log output is left out.
use udpfec.Base.{ℕ, ◌+◌, ◌-◌, ◌*◌, ◌/◌, ◌%◌, Bool, not, ◌&&◌, ◌||◌, ltb, leb, ◌==◌, if◌then◌else◌}
use Prim.Native.Nat.{bit_and}
use udpfec.Fec2.Buffer.{max_fec2_cache_capacity, calc_pos_in_pack_cache}

abbrev pub invalid_encode_pos : ℕ
invalid_encode_pos = 255

-- The members of `Fec2EnDeCodeMatrix` that say where it lies.
pub record Fec2EnDeCodeMatrix : Type 0 where
  pub matrix_size : ℕ
  pub h_size : ℕ
  pub start_pack_sn : ℕ

unfoldable pub check_pack_sn_in_block : ℕ → ℕ → ℕ → Bool
check_pack_sn_in_block pack_sn start_sn end_sn =
    if leb start_sn end_sn
    then not (ltb pack_sn start_sn || leb end_sn pack_sn)
    else not (ltb pack_sn start_sn && leb end_sn pack_sn)

unfoldable pub check_cur_sn_is_in_matrix : ℕ → Fec2EnDeCodeMatrix → Bool
check_cur_sn_is_in_matrix cur_sn matrix =
    let start_sn = matrix.start_pack_sn in
    let end_sn = (start_sn + matrix.matrix_size) % 4294967296 in
    if leb start_sn end_sn
    then leb start_sn cur_sn && ltb cur_sn end_sn
    else leb start_sn cur_sn || ltb cur_sn end_sn

-- The sizes for which the code uses masks and shifts.
abbrev pub is_power : ℕ → Bool
is_power size = size == 2 || size == 4 || size == 8 || size == 16

unfoldable pub calc_pack_pos_in_matrix : ℕ → ℕ → ℕ
calc_pack_pos_in_matrix cache_pos matrix_size =
    if matrix_size == 0
    then 0
    else if is_power matrix_size
    then bit_and cache_pos (matrix_size - 1)
    else cache_pos % matrix_size

-- `& ~(block_size - 1)` in 32 bits
unfoldable pub pack_sn_to_start_sn : ℕ → ℕ → ℕ
pack_sn_to_start_sn pack_sn block_size =
    if block_size == 0
    then 0
    else if is_power block_size
    then bit_and pack_sn (4294967296 - block_size)
    else pack_sn / block_size * block_size

unfoldable pub pack_sn_to_block_start_pos : ℕ → ℕ → ℕ
pack_sn_to_block_start_pos pack_sn block_size =
    let start_pos = calc_pos_in_pack_cache pack_sn in
    if block_size == 0
    then start_pos
    else if is_power block_size
    then bit_and start_pos (4294967296 - block_size)
    else start_pos / block_size * block_size

unfoldable pub pack_sn_to_matrix_id : ℕ → ℕ → ℕ
pack_sn_to_matrix_id pack_sn block_size =
    let matrix_id = calc_pos_in_pack_cache pack_sn in
    if block_size == 0
    then 0
    else if block_size == 2
    then matrix_id / 2
    else if block_size == 4
    then matrix_id / 4
    else if block_size == 8
    then matrix_id / 8
    else if block_size == 16
    then matrix_id / 16
    else matrix_id / block_size

unfoldable pub calc_horizontal_encode_pos : Fec2EnDeCodeMatrix → ℕ → ℕ
calc_horizontal_encode_pos matrix pos_in_matrix =
    if matrix.h_size == 0
    then invalid_encode_pos
    else if leb matrix.matrix_size pos_in_matrix
    then invalid_encode_pos
    else if matrix.h_size == 2
    then pos_in_matrix / 2 % 256
    else if matrix.h_size == 4
    then pos_in_matrix / 4 % 256
    else if matrix.h_size == 8
    then pos_in_matrix / 8 % 256
    else pos_in_matrix / matrix.h_size % 256

unfoldable pub calc_vertical_encode_pos : Fec2EnDeCodeMatrix → ℕ → ℕ
calc_vertical_encode_pos matrix pos_in_matrix =
    if matrix.h_size == 0
    then invalid_encode_pos
    else if leb matrix.matrix_size pos_in_matrix
    then invalid_encode_pos
    else if is_power matrix.h_size
    then bit_and pos_in_matrix (matrix.h_size - 1) % 256
    else pos_in_matrix % matrix.h_size % 256

unfoldable pub calc_first_horizontal_pos_in_cache : ℕ → ℕ → ℕ
calc_first_horizontal_pos_in_cache cache_pos v_pos =
    if leb v_pos cache_pos
    then cache_pos - v_pos
    else (cache_pos + max_fec2_cache_capacity - v_pos) % 65536

unfoldable pub calc_first_vertical_pos_in_cache : ℕ → ℕ → ℕ → ℕ
calc_first_vertical_pos_in_cache cache_pos h_pos h_size =
    let offset = h_size * h_pos % 65536 in
    if leb offset cache_pos
    then cache_pos - offset
    else (cache_pos + max_fec2_cache_capacity - offset) % 65536
