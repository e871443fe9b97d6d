-- ===== src/SlidWin/Marked.antt =====
-- The entry of a number into the session's window (SnEntryWin of src/slidwin/slidwin.cpp) marks this
-- number in the set that the window refines.
use udpfec.Base.{
  ℕ, ◌+◌, ◌/◌, ◌%◌, ◌<◌, ◌≡◌, refl, sym, ap, ◌∙◌, List, Bool, true, false, ◌||◌, ltb, leb, ◌==◌,
  if◌then◌else◌, length, length-set, arith, inl, inr, Bool-cases,
}
use udpfec.SlidWin.Window.{SlidWin, pos_span, update_max_sn_pos}
use udpfec.SlidWin.Entry.{mark_pos, mark_sn, note_entry, ts_us_to_ms}
use udpfec.SlidWin.Refine.{bit_at, one_if, InOrder, Refines, mark_pos-bit_at}

pub if_either {ℓ κ} :
    {A : Type ℓ} (P : A → Type κ) (b : Bool) (x y : A) → P x → P y → P (if b then x else y)
if_either P true x y p q = p
if_either P false x y p q = q

length-mark_pos : (bit_map : List ℕ) (pos : ℕ) → length (mark_pos bit_map pos) ≡ length bit_map
unfolding mark_pos
length-mark_pos bit_map pos = length-set bit_map (pos / 64) _

-- What a set of numbers is with one more.
abbrev pub with_sn : ℕ → (ℕ → Bool) → ℕ → Bool
with_sn sn seen k = k == sn || seen k

-- The members that say where the window stands are the same.
pub record SamePlace (w v : SlidWin) : Type 0 where
  pub same_l_pos : v.l_border_pos ≡ w.l_border_pos
  pub same_r_pos : v.r_border_pos ≡ w.r_border_pos
  pub same_l_sn : v.l_border_sn ≡ w.l_border_sn
  pub same_r_sn : v.r_border_sn ≡ w.r_border_sn
  pub same_size : v.cur_win_size ≡ w.cur_win_size
  pub same_times : length v.sn_ts_ms ≡ length w.sn_ts_ms
  pub same_words : length v.sn_bit_map ≡ length w.sn_bit_map
  pub same_mode : v.is_receive_win ≡ w.is_receive_win

module _ {w v : SlidWin} (s : SamePlace w v) where
  SamePlace-InOrder :
      InOrder w
      → v.max_sn_pos < 8192
      → v.max_sn < 4294967296
      → (v.max_sn_pos + v.l_border_sn) % 8192 ≡ (v.l_border_pos + v.max_sn) % 8192
      → InOrder v
  SamePlace-InOrder o a b c = record {
    on_ring = omega (arith, s.same_l_pos, o.on_ring);
    aligned = ap (λ t. t % 64) s.same_l_pos ∙ o.aligned;
    right_pos = omega (arith, s.same_l_pos, s.same_r_pos, o.right_pos);
    right_sn = omega (arith, s.same_l_sn, s.same_r_sn, o.right_sn);
    no_turn = omega (arith, s.same_l_sn, o.no_turn);
    size = s.same_size ∙ o.size;
    words = s.same_words ∙ o.words;
    times = s.same_times ∙ o.times;
    max_on_ring = a;
    max_is_sn = b;
    max_place = c;
  }

  -- A window that differs from one in order by the mark of a number in it, and perhaps by its newest one.
  pub marked_Refines :
      (seen : ℕ → Bool) (sn d : ℕ)
      → Refines w seen
      → d < 4096
      → sn ≡ w.l_border_sn + d
      → v.sn_bit_map ≡ mark_pos w.sn_bit_map ((w.l_border_pos + d) % 8192)
      → v.max_sn_pos < 8192
      → v.max_sn < 4294967296
      → (v.max_sn_pos + v.l_border_sn) % 8192 ≡ (v.l_border_pos + v.max_sn) % 8192
      → Refines v (with_sn sn seen)
  marked_Refines seen sn d r inside number marked a b c =
      let o = r.order in
      let pos = (w.l_border_pos + d) % 8192 in
      record {
        order = SamePlace-InOrder o a b c;
        marks = λ i h.
            let p = (w.l_border_pos + i) % 8192 in
            let here : (p == pos) ≡ (w.l_border_sn + i == sn) = ground (arith, o.on_ring, number) in
            ap (λ t. bit_at v.sn_bit_map ((t + i) % 8192)) s.same_l_pos
            ∙ ap (λ t. bit_at t p) marked
            ∙ mark_pos-bit_at w.sn_bit_map pos p o.words (omega arith)
            ∙ elim (Bool-cases (w.l_border_sn + i == sn)) [
              | inl same ↦ rw (here, same) refl
              | inr other ↦ rw (here, other) (r.marks i h)
            ]
            ∙ ap (λ t. one_if (with_sn sn seen (t + i))) (sym s.same_l_sn);
        ahead = λ k h.
            let beyond : (k == sn) ≡ false = ground (arith, number, s.same_l_sn, h) in
            rw beyond (r.ahead k (omega (arith, s.same_l_sn, h)));
      }

  pub unmarked_Refines :
      (seen : ℕ → Bool)
      → Refines w seen
      → v.sn_bit_map ≡ w.sn_bit_map
      → v.max_sn_pos ≡ w.max_sn_pos
      → v.max_sn ≡ w.max_sn
      → Refines v seen
  unmarked_Refines seen r same a b =
      let o = r.order in
      record {
        order =
            SamePlace-InOrder o (omega (arith, a, o.max_on_ring)) (omega (arith, b, o.max_is_sn))
              (omega (arith, a, b, s.same_l_sn, s.same_l_pos, o.max_place));
        marks = λ i h. cc (s.same_l_pos, s.same_l_sn, same, r.marks i h);
        ahead = λ k h. r.ahead k (omega (arith, s.same_l_sn, h));
      }

-- What an operation on a window without a move leaves: its place, and a set of numbers.
abbrev pub Leaves : SlidWin → (ℕ → Bool) → SlidWin → Type 0
Leaves w seen v = Refines v seen × SamePlace w v

pub unmarked_Leaves :
    {w v : SlidWin} (seen : ℕ → Bool)
    → Refines w seen
    → SamePlace w v
    → v.sn_bit_map ≡ w.sn_bit_map
    → v.max_sn_pos ≡ w.max_sn_pos
    → v.max_sn ≡ w.max_sn
    → Leaves w seen v
unmarked_Leaves seen r s a b c = (unmarked_Refines s seen r a b c, s)

module _ (scaled : ℕ → ℕ → ℕ) where
  pub note_entry-Leaves :
      (w : SlidWin) (seen : ℕ → Bool) (ts_us : ℕ)
      → Refines w seen
      → Leaves w seen (note_entry scaled w ts_us)
  unfolding note_entry
  note_entry-Leaves w seen ts_us r =
      if_either (Leaves w seen) w.is_receive_win _ _
        (unmarked_Leaves seen r (ground arith) refl refl refl)
        (unmarked_Leaves seen r (ground arith) refl refl refl)

module _ (w : SlidWin) (seen : ℕ → Bool) (sn d : ℕ) (r : Refines w seen) where
  marked_Leaves :
      {v : SlidWin}
      → SamePlace w v
      → d < 4096
      → sn ≡ w.l_border_sn + d
      → v.sn_bit_map ≡ mark_pos w.sn_bit_map ((w.l_border_pos + d) % 8192)
      → v.max_sn_pos < 8192
      → v.max_sn < 4294967296
      → (v.max_sn_pos + v.l_border_sn) % 8192 ≡ (v.l_border_pos + v.max_sn) % 8192
      → Leaves w (with_sn sn seen) v
  marked_Leaves s inside number m a b c = (marked_Refines s seen sn d r inside number m a b c, s)

  pub mark_sn-Leaves :
      (ts_us : ℕ)
      → d < 4096
      → sn ≡ w.l_border_sn + d
      → Leaves w (with_sn sn seen) (mark_sn w ((w.l_border_pos + d) % 8192) sn ts_us)
  unfolding mark_sn update_max_sn_pos
  mark_sn-Leaves ts_us inside number =
      let o = r.order in
      let pos = (w.l_border_pos + d) % 8192 in
      let times = length-set w.sn_ts_ms pos (ts_us_to_ms ts_us) in
      let words = length-mark_pos w.sn_bit_map pos in
      let below : sn < 4294967296 = omega (arith, o.no_turn, number, inside) in
      let new : (pos + w.l_border_sn) % 8192 ≡ (w.l_border_pos + sn) % 8192 =
        omega (arith, number) in
      let Marked : SlidWin → Type 0 = Leaves w (with_sn sn seen) in
      let old : (v : SlidWin)
          → SamePlace w v
          → v.sn_bit_map ≡ mark_pos w.sn_bit_map pos
          → v.max_sn_pos ≡ w.max_sn_pos
          → v.max_sn ≡ w.max_sn
          → Marked v =
        λ v s m a b.
          marked_Leaves s inside number m (omega (arith, a, o.max_on_ring))
            (omega (arith, b, o.max_is_sn))
            (omega (arith, a, b, s.same_l_pos, s.same_l_sn, o.max_place)) in
      if_either Marked w.is_receive_win _ _
        (if_either (λ (p : SlidWin × Bool). Marked p.0) (ltb w.cur_win_size (pos_span w pos)) _ _
          (old _ (ground arith) refl refl refl)
          (if_either (λ (p : SlidWin × Bool). Marked p.0)
            (leb (pos_span w w.max_sn_pos) (pos_span w pos)) _ _
            (marked_Leaves (ground arith) inside number refl (omega arith) below new)
            (old _ (ground arith) refl refl refl)))
        (old _ (ground arith) refl refl refl)
