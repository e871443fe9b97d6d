-- ===== src/SlidWin/NackEnd.antt =====
-- NackSnEntryWin (src/slidwin/slidwin.cpp): the loop over the blocks ends.
use udpfec.Base.{
  ℕ, zero, suc, ◌+◌, ◌-◌, ◌/◌, ◌%◌, ◌<◌, ◌≡◌, refl, leb, ◌==◌, if◌then◌else◌, List, set, Option,
  some, none, arith, inl, inr, Bool-cases,
}
use Prim.Native.Nat.{bit_and}
use udpfec.Base.Masks.{bit_and-mask}
use udpfec.SlidWin.Marked.{if_either}
use udpfec.SlidWin.Window.{SlidWin, sn_span, win_pos_mask}
use udpfec.SlidWin.Move.{slid_win_u64_buf_sz}
use udpfec.SlidWin.Nack.{check_nack_is_valid}
use udpfec.SlidWin.NackEntry.{fill_blocks, full_word, enter_nack, nack_checked, nack_sn_entry}

abbrev pub Ends : {A : Type 0} → Option A → Type 0
Ends {A} r = (a : A) × (r ≡ some a)

-- How many blocks the loop has before it.
abbrev ahead : ℕ → ℕ → ℕ
ahead block end_block = if leb block end_block then end_block - block else 128 + end_block - block

fill_blocks-Ends :
    (fuel : ℕ) (bits : List ℕ) (num block end_block : ℕ)
    → block < 128
    → end_block < 128
    → ahead block end_block < fuel
    → Ends (fill_blocks fuel (bits, num) block end_block)
unfolding fill_blocks
fill_blocks-Ends zero bits num block end_block b e enough = absurd (omega arith)
fill_blocks-Ends (suc fuel) bits num block end_block b e enough =
    elim (Bool-cases (end_block == block)) [
      | inl same ↦ ((bits, num), rw same refl)
      | inr other ↦
          let next = if leb 128 (block + 1) then 0 else block + 1 in
          let rest =
            fill_blocks-Ends fuel (set bits block full_word) ((num + 64) % 4294967296) next
              end_block (ground arith) e (ground arith) in
          rw other rest
    ]

pos_in_ring : (x : ℕ) → bit_and x win_pos_mask / 64 < 128
pos_in_ring x = let m : bit_and x win_pos_mask ≡ x % 8192 = bit_and-mask 13 x in omega (arith, m)

ahead-lt : (block end_block : ℕ) → block < 128 → end_block < 128 → ahead block end_block < 129
ahead-lt block end_block b e = ground (arith, b, e)

enter_nack-Ends :
    (w : SlidWin) (first last head_sn : ℕ) (offsets : List ℕ)
    → Ends (enter_nack w first last head_sn offsets)
unfolding enter_nack
enter_nack-Ends w first last head_sn offsets =
    let h = pos_in_ring ((w.l_border_pos + sn_span w first) % 4294967296) in
    let t = pos_in_ring ((w.l_border_pos + sn_span w last) % 4294967296) in
    let filled =
      fill_blocks-Ends (slid_win_u64_buf_sz + 1) w.sn_bit_map w.no_calc_loss_sn_num _ _ h t
        (ahead-lt _ _ h t) in
    rw (enter_nack, filled.1) (_, refl)

nack_checked-Ends :
    (w : SlidWin) (checked : Option (ℕ × ℕ)) (head_sn : ℕ) (offsets : List ℕ)
    → Ends (nack_checked w checked head_sn offsets)
unfolding nack_checked
nack_checked-Ends w none head_sn offsets = (none, refl)
nack_checked-Ends w (some (first, last)) head_sn offsets =
    let entry = enter_nack-Ends w first last head_sn offsets in
    (some entry.0, rw (nack_checked, entry.1) refl)

-- The loop of NackSnEntryWin ends, and so does the entry up to CalcSndLoss, for every window and every NACK.
pub nack_sn_entry-Ends :
    (w : SlidWin) (head_sn tail_sn : ℕ) (offsets : List ℕ)
    → Ends (nack_sn_entry w head_sn tail_sn offsets)
unfolding nack_sn_entry
nack_sn_entry-Ends w head_sn tail_sn offsets =
    if_either Ends w.is_receive_win _ _ (some w, refl)
      (nack_checked-Ends w (check_nack_is_valid w head_sn tail_sn) head_sn offsets)
