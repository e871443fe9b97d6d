-- ===== src/Arq/Words.antt =====
-- The two copies of the ACK pass, for 32-bit and 64-bit systems, read the same bits.
use udpfec.Base.{
  ℕ, ◌+◌, ◌*◌, ◌/◌, ◌%◌, ◌<◌, ◌≡◌, ◌∙◌, ap, Bool, List, ◌==◌, arith, get_or, get_or-drop, drop,
}
use udpfec.Base.Bits.{bit, bit_test, bit-word, word}
use mathlib.Core.Path.{fun_ext, sym, ap₂}
use udpfec.Arq.Types.{Arq, Env}
use udpfec.Arq.Feedback.{
  lost_in_32, lost_in_64, ack_verdict, feedback, proc_arq_in_32_bit_sys, proc_arq_in_64_bit_sys,
}

-- The bit of an offset in a bitmap of bytes, the lowest first.
unfoldable pub lost_in_bytes : List ℕ → ℕ → Bool
lost_in_bytes bitmap span = bit (get_or bitmap (span / 8) 0 % 256) (span % 8) == 0

-- A word of the bitmap, tested at a bit, is a byte of the bitmap tested at a bit.
lost_in_word :
    (bytes first k i j : ℕ) (bitmap : List ℕ)
    → k < 8 * bytes
    → first + k / 8 ≡ i
    → k % 8 ≡ j
    → (bit (word bytes (drop first bitmap)) k == 0) ≡ (bit (get_or bitmap i 0 % 256) j == 0)
lost_in_word bytes first k i j bitmap h p q =
    ap (λ t. t == 0)
      (bit-word bytes k (drop first bitmap) h
        ∙ ap₂ (λ b t. bit (b % 256) t)
            (get_or-drop first (k / 8) bitmap 0 ∙ ap (λ t. get_or bitmap t 0) p) q)

lost_in_32-bytes : (bitmap : List ℕ) (span : ℕ) → lost_in_32 bitmap span ≡ lost_in_bytes bitmap span
unfolding lost_in_32 lost_in_bytes
lost_in_32-bytes bitmap span =
    bit_test (word 4 (drop (4 * (span / 32)) bitmap)) (span % 32)
    ∙ lost_in_word 4 (4 * (span / 32)) (span % 32) (span / 8) (span % 8) bitmap (omega arith)
        (omega arith) (omega arith)

lost_in_64-bytes : (bitmap : List ℕ) (span : ℕ) → lost_in_64 bitmap span ≡ lost_in_bytes bitmap span
unfolding lost_in_64 lost_in_bytes
lost_in_64-bytes bitmap span =
    bit_test (word 8 (drop (8 * (span / 64)) bitmap)) (span % 64)
    ∙ lost_in_word 8 (8 * (span / 64)) (span % 64) (span / 8) (span % 8) bitmap (omega arith)
        (omega arith) (omega arith)

-- The 32-bit and the 64-bit pass do the same to every list, for every bitmap; and that is what the
-- bitmap says read byte by byte: the bit of a packet at distance `span` is bit `span % 8` of byte
-- `span / 8`.
pub proc_arq_same :
    (env : Env) (a : Arq) (bitmap : List ℕ) (head_sn tail_sn rto_sn : ℕ)
    → (proc_arq_in_32_bit_sys env a bitmap head_sn tail_sn rto_sn
        ≡ proc_arq_in_64_bit_sys env a bitmap head_sn tail_sn rto_sn)
      × (proc_arq_in_64_bit_sys env a bitmap head_sn tail_sn rto_sn
          ≡ feedback env (ack_verdict (lost_in_bytes bitmap) head_sn tail_sn rto_sn) a)
unfolding proc_arq_in_32_bit_sys proc_arq_in_64_bit_sys
proc_arq_same env a bitmap head_sn tail_sn rto_sn = (use32 ∙ sym use64, use64)
  where
    use32 :
        feedback env (ack_verdict (lost_in_32 bitmap) head_sn tail_sn rto_sn) a
        ≡ feedback env (ack_verdict (lost_in_bytes bitmap) head_sn tail_sn rto_sn) a
    use32 =
        ap (λ lost. feedback env (ack_verdict lost head_sn tail_sn rto_sn) a)
          (fun_ext (lost_in_32-bytes bitmap))

    use64 :
        feedback env (ack_verdict (lost_in_64 bitmap) head_sn tail_sn rto_sn) a
        ≡ feedback env (ack_verdict (lost_in_bytes bitmap) head_sn tail_sn rto_sn) a
    use64 =
        ap (λ lost. feedback env (ack_verdict lost head_sn tail_sn rto_sn) a)
          (fun_ext (lost_in_64-bytes bitmap))
