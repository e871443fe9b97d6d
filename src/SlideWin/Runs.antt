-- ===== src/SlideWin/Runs.antt =====
-- Calls of `pkg_sn_valid` (socks5udpf/src/slide_win.cpp) one after another, from a new window on.
use udpfec.Base.{ℕ, ◌<◌, ◌≡◌, refl, List, [], ◌∷◌, Bool, Option, none, some}
use udpfec.SlideWin.Window.{SlideWin, slide_win, reset, pkg_sn_valid}
use udpfec.SlideWin.Spec.{Seen, next_seen}
use udpfec.SlideWin.Border.{RefinesStart}
use udpfec.SlideWin.Refine.{pkg_sn_valid-Refines}

-- The window after the packets, and the answers. A packet may be only checked.
unfoldable pub after_all : SlideWin → List (ℕ × Bool) → SlideWin
after_all w [] = w
after_all w ((sn, only_check) ∷ rest) = after_all (pkg_sn_valid w sn only_check).0 rest

unfoldable pub answers : SlideWin → List (ℕ × Bool) → List Bool
answers w [] = []
answers w ((sn, only_check) ∷ rest) =
    let (w', new) = pkg_sn_valid w sn only_check in new ∷ answers w' rest

unfoldable pub seen_after : Option Seen → List (ℕ × Bool) → Option Seen
seen_after o [] = o
seen_after o ((sn, only_check) ∷ rest) = seen_after (some (next_seen o sn only_check).0) rest

unfoldable pub promised_answers : Option Seen → List (ℕ × Bool) → List Bool
promised_answers o [] = []
promised_answers o ((sn, only_check) ∷ rest) =
    let (s', new) = next_seen o sn only_check in new ∷ promised_answers (some s') rest

-- The numbers have 16 bits.
abbrev pub AllWords : List (ℕ × Bool) → Type 0
AllWords [] = Unit {0}
AllWords ((sn, only_check) ∷ rest) = (sn < 65536) × AllWords rest

pub slide_win-Refines : RefinesStart slide_win none
unfolding slide_win reset
slide_win-Refines = refl

pub answers_from :
    (w : SlideWin) (o : Option Seen) (packets : List (ℕ × Bool))
    → RefinesStart w o
    → AllWords packets
    → (answers w packets ≡ promised_answers o packets)
      × RefinesStart (after_all w packets) (seen_after o packets)
unfolding after_all answers seen_after promised_answers
answers_from w o [] r h = (refl, r)
answers_from w o ((sn, only_check) ∷ rest) r (h, words) =
    let (same, next) = pkg_sn_valid-Refines w o sn only_check r h in
    let (all, last) =
      answers_from (pkg_sn_valid w sn only_check).0 (some (next_seen o sn only_check).0) rest next
        words in
    ((λ i. same i ∷ all i), last)

-- The answers of a new window to any sequence of calls with 16-bit numbers are those of the calls of
-- `next_seen` from the start.
pub answers-promised_answers :
    (packets : List (ℕ × Bool))
    → AllWords packets
    → answers slide_win packets ≡ promised_answers none packets
answers-promised_answers packets words =
    (answers_from slide_win none packets slide_win-Refines words).0
