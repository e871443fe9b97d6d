-- ===== src/SlideWin/Buffer.antt =====
-- The bit operations of socks5udpf/src/buf_operation.h on a buffer of bytes. Positions and sizes are
-- 16-bit numbers, bytes 8-bit numbers.
use udpfec.Base.{ℕ, ◌-◌, ◌/◌, ◌%◌, ◌^◌, List, Bool, not, ◌==◌, get_or, set}
use Prim.Native.Nat.{bit_and, bit_or}

-- `(uint16_t)((pos_idx >> 3) % buf_size)`, and the bit in the byte
unfoldable pub byte_of : ℕ → ℕ → ℕ
byte_of buf_size pos_idx = pos_idx / 8 % buf_size

unfoldable pub get_buf_bit : List ℕ → ℕ → ℕ → Bool
unfolding byte_of
get_buf_bit buf buf_size pos_idx =
    not (bit_and (get_or buf (byte_of buf_size pos_idx) 0) (2 ^ bit_and pos_idx 7) == 0)

unfoldable pub set_buf_bit : List ℕ → ℕ → ℕ → List ℕ
unfolding byte_of
set_buf_bit buf buf_size pos_idx =
    let i = byte_of buf_size pos_idx in set buf i (bit_or (get_or buf i 0) (2 ^ bit_and pos_idx 7))

-- A mask is complemented in 8 bits.
unfoldable pub clr_buf_bit_mask : List ℕ → ℕ → ℕ → ℕ → List ℕ
unfolding byte_of
clr_buf_bit_mask buf buf_size start_bit mask =
    let i = byte_of buf_size start_bit in set buf i (bit_and (get_or buf i 0) (255 - mask))

unfoldable pub clr_buf_bit : List ℕ → ℕ → ℕ → List ℕ
unfolding byte_of
clr_buf_bit buf buf_size pos_idx =
    let i = byte_of buf_size pos_idx in
    set buf i (bit_and (get_or buf i 0) (255 - 2 ^ bit_and pos_idx 7))
