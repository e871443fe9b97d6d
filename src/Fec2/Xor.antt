-- ===== src/Fec2/Xor.antt =====
-- `XorEncode` (src/fec2/goodtp_fec2.cpp) on buffers of bytes. It takes the data in blocks of `2 ^ shift`
-- bytes, which are 16 bytes, 8 bytes or 4 bytes on the systems that it is built for, and the rest byte
-- by byte.
use udpfec.Base.{
  ℕ, zero, suc, ◌+◌, ◌-◌, ◌*◌, ◌/◌, ◌%◌, ◌^◌, List, ltb, if◌then◌else◌, get_or, set, drop,
}
use Prim.Native.Nat.{bit_xor}
use udpfec.Base.Bits.{word}
use udpfec.Base.Memory.{zero_bytes}

-- The `n` bytes of a word, the lowest first, are stored.
unfoldable pub put_word : ℕ → List ℕ → ℕ → ℕ → List ℕ
put_word zero buf start w = buf
put_word (suc n) buf start w = put_word n (set buf start (w % 256)) (start + 1) (w / 256)

-- One block: `code_ptr[nloop] ^= data_ptr[nloop]`
unfoldable pub xor_block : ℕ → List ℕ → List ℕ → ℕ → List ℕ
unfolding put_word
xor_block size data_bytes code start =
    put_word size code start
      (bit_xor (word size (drop start code)) (word size (drop start data_bytes)))

unfoldable pub xor_blocks : ℕ → ℕ → List ℕ → List ℕ → ℕ → List ℕ
unfolding xor_block
xor_blocks zero shift data_bytes code nloop = code
xor_blocks (suc rounds) shift data_bytes code nloop =
    xor_blocks rounds shift data_bytes (xor_block (2 ^ shift) data_bytes code (nloop * 2 ^ shift))
      (nloop + 1)

-- The bytes that are left, `rounds` of them.
unfoldable pub xor_tail : ℕ → List ℕ → List ℕ → ℕ → List ℕ
xor_tail zero data_bytes code encoded_num = code
xor_tail (suc rounds) data_bytes code encoded_num =
    xor_tail rounds data_bytes
      (set code encoded_num (bit_xor (get_or code encoded_num 0) (get_or data_bytes encoded_num 0)))
      (encoded_num + 1)

-- The code's bytes and its new size.
unfoldable pub xor_encode : ℕ → List ℕ → ℕ → List ℕ → ℕ → List ℕ × ℕ
unfolding xor_blocks xor_tail
xor_encode shift data_bytes data_size code code_size =
    let result_size = if ltb data_size code_size then code_size else data_size in
    let start =
      if ltb code_size data_size then zero_bytes code code_size (data_size - code_size) else code in
    let xor_num = data_size / 2 ^ shift in
    let encoded_num = xor_num * 2 ^ shift in
    (
      xor_tail (data_size - encoded_num) data_bytes (xor_blocks xor_num shift data_bytes start 0)
          encoded_num,
      result_size,
    )
