-- ===== src/SlidWin/Refine.antt =====
-- The session's window as a set of numbers: what its ring of bits says of the numbers in the window, and
-- that its moves (MoveWin of src/slidwin/slidwin.cpp) keep it.
use udpfec.Base.{
  ℕ, ◌+◌, ◌-◌, ◌/◌, ◌%◌, ◌^◌, ◌≤◌, ◌<◌, ◌≡◌, refl, sym, ap, ◌∙◌, List, Bool, false, ◌&&◌, ltb, leb,
  ◌==◌, if◌then◌else◌, get_or, length, get_or-set_ne, get_or-set_self, some, arith, inl, inr,
  Bool-cases,
}
use Prim.Native.Nat.{bit_and, bit_or}
use udpfec.Base.Bits.{bit, bit-zero}
use udpfec.Base.Masks.{bit_and-mask}
use udpfec.Base.Words.{bit-set_bit}
use udpfec.SlidWin.Window.{SlidWin}
use udpfec.SlidWin.Move.{move_borders, block_of}
use udpfec.SlidWin.Entry.{mark_pos}
use udpfec.SlidWin.Clear.{within, Cleared, clear_between_at}

-- The bit at a position of the ring of 128 words.
abbrev pub bit_at : List ℕ → ℕ → ℕ
bit_at bit_map pos = bit (get_or bit_map (pos / 64) 0) (pos % 64)

abbrev pub one_if : Bool → ℕ
one_if b = if b then 1 else 0

-- A window of 4096 positions on the ring, at a multiple of 64, far from the turn of the numbers.
pub record InOrder (w : SlidWin) : Type 0 where
  pub on_ring : w.l_border_pos < 8192
  pub aligned : w.l_border_pos % 64 ≡ 0
  pub right_pos : w.r_border_pos ≡ (w.l_border_pos + 4096) % 8192
  pub right_sn : w.r_border_sn ≡ w.l_border_sn + 4096
  pub no_turn : w.l_border_sn + 8192 ≤ 4294967296
  pub size : w.cur_win_size ≡ 4096
  pub words : length w.sn_bit_map ≡ 128
  pub times : length w.sn_ts_ms ≡ 8192
  pub max_on_ring : w.max_sn_pos < 8192
  pub max_is_sn : w.max_sn < 4294967296
  pub max_place : (w.max_sn_pos + w.l_border_sn) % 8192 ≡ (w.l_border_pos + w.max_sn) % 8192

-- The bits in the window say which of its numbers were seen, and none beyond it was.
pub record Refines (w : SlidWin) (seen : ℕ → Bool) : Type 0 where
  pub order : InOrder w
  pub marks :
      (i : ℕ)
      → i < 4096
      → bit_at w.sn_bit_map ((w.l_border_pos + i) % 8192) ≡ one_if (seen (w.l_border_sn + i))
  pub ahead : (k : ℕ) → w.l_border_sn + 4096 ≤ k → seen k ≡ false

pub mark_pos-bit_at :
    (bit_map : List ℕ) (pos p : ℕ)
    → length bit_map ≡ 128
    → pos < 8192
    → bit_at (mark_pos bit_map pos) p ≡ (if p == pos then 1 else bit_at bit_map p)
unfolding mark_pos
mark_pos-bit_at bit_map pos p size h =
    let old = get_or bit_map (pos / 64) 0 in
    rw (bit_and-mask 6 pos) (elim (Bool-cases (p / 64 == pos / 64)) [
      | inl same ↦
          let e : p / 64 ≡ pos / 64 = ground arith in
          let at : (p == pos) ≡ (p % 64 == pos % 64) = ground arith in
          rw (e, at)
            (ap (λ t. bit t (p % 64))
                (get_or-set_self bit_map (pos / 64) (bit_or old (2 ^ (pos % 64))) 0
                  (omega (arith, size)))
              ∙ bit-set_bit old (pos % 64) (p % 64))
      | inr other ↦
          let off : (p == pos) ≡ false = ground arith in
          rw off (
            ap (λ t. bit t (p % 64))
              (get_or-set_ne bit_map (pos / 64) (p / 64) (bit_or old (2 ^ (pos % 64))) 0
                (λ e. ground arith)))
    ])

-- The block of a position `d` behind the left border, by the blocks that a move clears.
cleared_block :
    (l step d : ℕ)
    → l < 8192
    → l % 64 ≡ 0
    → step % 64 ≡ 0
    → step ≤ 2112
    → step ≤ d
    → d < step + 4096
    → let begin = (l + 4096) % 8192 / 64 in
      let last = (l + 4096 + step) % 8192 / 64 in
      let block = (l + d) % 8192 / 64 in
      (if leb begin last then leb begin block && ltb block last else within begin last block)
      ≡ leb 4096 d
cleared_block l step d a b c e f g = ground arith

-- What a move by `step` does to a window.
pub record Moved (w w' : SlidWin) (step : ℕ) : Type 0 where
  pub left : w'.l_border_sn ≡ w.l_border_sn + step
  pub left_pos : w'.l_border_pos ≡ (w.l_border_pos + step) % 8192
  pub mode : w'.is_receive_win ≡ w.is_receive_win
  pub newest : w'.max_sn ≡ w.max_sn

pub ring : (x : ℕ) → bit_and (x % 4294967296) 8191 ≡ x % 8192
ring x = bit_and-mask 13 (x % 4294967296) ∙ omega arith

block_of_lem : (x y : ℕ) → x ≡ y → y < 8192 → block_of x ≡ y / 64
block_of_lem x y e h = rw e (ground arith)

module _ (w : SlidWin) (seen : ℕ → Bool) (step : ℕ) (r : Refines w seen) where
  -- The marks after the blocks between the borders are cleared.
  moved_marks :
      (bits : List ℕ)
      → step % 64 ≡ 0
      → step ≤ 2112
      → Cleared w.sn_bit_map bits 128 (λ i.
        if leb ((w.l_border_pos + 4096) % 8192 / 64) ((w.l_border_pos + 4096 + step) % 8192 / 64)
        then leb ((w.l_border_pos + 4096) % 8192 / 64) i
          && ltb i ((w.l_border_pos + 4096 + step) % 8192 / 64)
        else within
            ((w.l_border_pos + 4096) % 8192 / 64)
            ((w.l_border_pos + 4096 + step) % 8192 / 64)
            i)
      → (i : ℕ) → i < 4096
      → bit_at bits (((w.l_border_pos + step) % 8192 + i) % 8192)
        ≡ one_if (seen (w.l_border_sn + step + i))
  moved_marks bits a b c i h =
      let o = r.order in
      let d = step + i in
      let place : ((w.l_border_pos + step) % 8192 + i) % 8192 ≡ (w.l_border_pos + d) % 8192 =
        omega arith in
      let number : w.l_border_sn + step + i ≡ w.l_border_sn + d = omega arith in
      let slot = c.slots ((w.l_border_pos + d) % 8192 / 64) (omega arith) in
      let gone =
        cleared_block w.l_border_pos step d o.on_ring o.aligned a b (omega arith)
          (omega (arith, h)) in
      let word : get_or bits ((w.l_border_pos + d) % 8192 / 64) 0
          ≡ (if leb 4096 d then 0 else get_or w.sn_bit_map ((w.l_border_pos + d) % 8192 / 64) 0) =
        slot
        ∙ ap (λ t. if t then 0 else get_or w.sn_bit_map ((w.l_border_pos + d) % 8192 / 64) 0)
            gone in
      rw (place, number, word)
        (elim (Bool-cases (leb 4096 d)) [
          | inl fresh ↦
              rw (fresh, r.ahead (w.l_border_sn + d) (ground arith))
                (bit-zero ((w.l_border_pos + d) % 8192 % 64))
          | inr old ↦ rw old (r.marks d (ground arith))
        ])

  moved_order :
      (w' : SlidWin)
      → w.l_border_sn + step + 8192 ≤ 4294967296
      → step ≤ 2112
      → step % 64 ≡ 0
      → w'.l_border_pos ≡ (w.l_border_pos + step) % 8192
      → w'.r_border_pos ≡ (w.l_border_pos + 4096 + step) % 8192
      → w'.r_border_sn ≡ (w.r_border_sn + step) % 4294967296
      → w'.l_border_sn ≡ (w.l_border_sn + step) % 4294967296
      → w'.cur_win_size ≡ (
          if leb w'.l_border_pos w'.r_border_pos
          then w'.r_border_pos - w'.l_border_pos
          else 8192 - w'.l_border_pos + w'.r_border_pos)
      → length w'.sn_bit_map ≡ length w.sn_bit_map
      → length w'.sn_ts_ms ≡ length w.sn_ts_ms
      → w'.max_sn_pos ≡ w.max_sn_pos
      → w'.max_sn ≡ w.max_sn
      → InOrder w'
  moved_order w' c b a lp rp rs ls size words times mp ms =
      let o = r.order in
      record {
        on_ring = omega arith;
        aligned = omega (arith, o.aligned);
        right_pos = omega arith;
        right_sn = omega (arith, o.right_sn);
        no_turn = omega arith;
        size = size ∙ ground (arith, o.on_ring);
        words = words ∙ o.words;
        times = times ∙ o.times;
        max_on_ring = omega (arith, o.max_on_ring);
        max_is_sn = omega (arith, o.max_is_sn);
        max_place = omega (arith, o.max_place);
      }

  pub move_borders-Refines :
      step % 64 ≡ 0
      → step ≤ 2112
      → w.l_border_sn + step + 8192 ≤ 4294967296
      → (w' : SlidWin) × (move_borders w step ≡ some w') × Refines w' seen × Moved w w' step
  unfolding move_borders
  move_borders-Refines a b c =
      let o = r.order in
      let r_pos = (w.l_border_pos + 4096 + step) % 8192 in
      let new_r : bit_and ((w.r_border_pos + step) % 4294967296) 8191 ≡ r_pos =
        ring (w.r_border_pos + step) ∙ omega (arith, o.right_pos) in
      let new_l = ring (w.l_border_pos + step) in
      let (times, ran, cleared) =
        clear_between_at w.sn_ts_ms 8192 w.r_border_pos
          (bit_and ((w.r_border_pos + step) % 4294967296) 8191) ((w.l_border_pos + 4096) % 8192)
          r_pos o.right_pos new_r o.times (omega arith) (omega arith) in
      let (bits, ran', cleared') =
        clear_between_at w.sn_bit_map 128 (block_of w.r_border_pos)
          (block_of (bit_and ((w.r_border_pos + step) % 4294967296) 8191))
          ((w.l_border_pos + 4096) % 8192 / 64) (r_pos / 64)
          (block_of_lem w.r_border_pos ((w.l_border_pos + 4096) % 8192) o.right_pos (omega arith))
          (block_of_lem (bit_and ((w.r_border_pos + step) % 4294967296) 8191) r_pos new_r
            (omega arith))
          o.words (omega arith) (omega arith) in
      let w' : SlidWin = record w {
        r_border_pos = bit_and ((w.r_border_pos + step) % 4294967296) 8191;
        l_border_pos = bit_and ((w.l_border_pos + step) % 4294967296) 8191;
        r_border_sn = (w.r_border_sn + step) % 4294967296;
        l_border_sn = (w.l_border_sn + step) % 4294967296;
        sn_ts_ms = times;
        sn_bit_map = bits;
        cur_win_size =
            if leb (bit_and ((w.l_border_pos + step) % 4294967296) 8191)
              (bit_and ((w.r_border_pos + step) % 4294967296) 8191)
            then bit_and ((w.r_border_pos + step) % 4294967296) 8191
              - bit_and ((w.l_border_pos + step) % 4294967296) 8191
            else 8192
              - bit_and ((w.l_border_pos + step) % 4294967296) 8191
              + bit_and ((w.r_border_pos + step) % 4294967296) 8191;
      } in
      let number : w'.l_border_sn ≡ w.l_border_sn + step = omega arith in
      (
        w',
        rw (ran, ran', move_borders) refl,
        record {
          order =
              moved_order w' c b a new_l new_r refl refl refl cleared'.kept_length
                cleared.kept_length refl refl;
          marks = λ i h.
              ap (λ t. bit_at bits ((t + i) % 8192)) new_l
              ∙ moved_marks bits a b cleared' i h
              ∙ ap (λ t. one_if (seen (t + i))) (sym number);
          ahead = λ k h. r.ahead k (omega (arith, number, h));
        },
        record { left = number; left_pos = new_l; mode = refl; newest = refl },
      )
