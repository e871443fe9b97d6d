-- ===== src/SlidWin/Nack.antt =====
-- CheckNackIsValid (src/slidwin/slidwin.cpp), which cuts a NACK's range of numbers to the window.
use udpfec.Base.{
  ℕ, ◌+◌, ◌-◌, ◌%◌, ◌<◌, ◌≡◌, Bool, false, leb, ltb, ◌&&◌, ◌||◌, not, if◌then◌else◌, Option, some,
  none, arith,
}
use udpfec.SlidWin.Window.{SlidWin}

-- The comb_head_sn and the comb_tail_sn, or none for SELF_ERROR.
unfoldable pub check_nack_is_valid : SlidWin → ℕ → ℕ → Option (ℕ × ℕ)
check_nack_is_valid w head_sn tail_sn =
    if leb w.l_border_sn w.max_sn
    then if ltb tail_sn w.l_border_sn
      then none
      else if leb head_sn tail_sn
      then if ltb w.max_sn head_sn
        then none
        else some (
          if ltb head_sn w.l_border_sn then w.l_border_sn else head_sn,
          if ltb w.max_sn tail_sn then w.max_sn else tail_sn,
        )
      else some (
        if ltb w.max_sn head_sn || ltb head_sn w.l_border_sn then w.l_border_sn else head_sn,
        if ltb w.max_sn tail_sn then w.max_sn else tail_sn,
      )
    else if leb head_sn tail_sn
    then if ltb w.max_sn head_sn && ltb tail_sn w.l_border_sn
      then none
      else some (
        if ltb w.max_sn head_sn && ltb head_sn w.l_border_sn then w.l_border_sn else head_sn,
        if ltb w.max_sn tail_sn && ltb tail_sn w.l_border_sn then w.max_sn else tail_sn,
      )
    else some (
      if ltb head_sn w.l_border_sn then w.l_border_sn else head_sn,
      if ltb w.max_sn tail_sn then w.max_sn else tail_sn,
    )

-- The numbers from a first to a last one, around the turn of the numbers.
abbrev pub in_range : ℕ → ℕ → ℕ → Bool
in_range first last sn =
    if leb first last then leb first sn && leb sn last else leb first sn || leb sn last

abbrev pub in_answer : Option (ℕ × ℕ) → ℕ → Bool
in_answer none sn = false
in_answer (some (first, last)) sn = in_range first last sn

-- A NACK's range and the window, each shorter than half of the numbers, are cut to exactly the numbers they
-- have in common, and the NACK is refused where there are none. But where the window does not run across
-- the turn of the numbers, a NACK whose tail is in front of the window is refused in any case.
pub check_nack_is_valid-in_range :
    (w : SlidWin) (head_sn tail_sn sn : ℕ)
    → (tail_sn + 4294967296 - head_sn) % 4294967296 < 2147483648
    → (w.max_sn + 4294967296 - w.l_border_sn) % 4294967296 < 2147483648
    → head_sn < 4294967296
    → tail_sn < 4294967296
    → w.l_border_sn < 4294967296
    → w.max_sn < 4294967296
    → in_answer (check_nack_is_valid w head_sn tail_sn) sn ≡ (
        in_range head_sn tail_sn sn
        && in_range w.l_border_sn w.max_sn sn
        && not (leb w.l_border_sn w.max_sn && ltb tail_sn w.l_border_sn))
unfolding check_nack_is_valid
check_nack_is_valid-in_range w head_sn tail_sn sn nack window head tail left newest =
    ground (arith, nack, window, head, tail, left, newest)
