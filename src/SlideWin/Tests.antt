-- ===== src/SlideWin/Tests.antt =====
-- Runs of the window (socks5udpf/src/slide_win.cpp) at concrete packets.
use udpfec.Base.{ℕ, ◌≡◌, refl, List, [], ◌∷◌, Bool, true, false, arith, none, replicate}
use udpfec.SlideWin.Window.{slide_win, pkg_sn_valid, clear_bit_range}
use udpfec.SlideWin.Spec.{next_seen}
use udpfec.SlideWin.Border.{Refines}
use udpfec.SlideWin.Clear.{IsClearedAt, clear_bit_range-IsCleared}
use udpfec.SlideWin.Refine.{pkg_sn_valid-Refines}
use udpfec.SlideWin.Runs.{
  after_all, answers, promised_answers, slide_win-Refines, answers-promised_answers,
}
use udpfec.SlideWin.Repeats.{repeat_rejected, advancing_accepted, all_accepted}

-- Packets around the turn of the numbers, one of them repeated and one only checked.
abbrev packets : List (ℕ × Bool)
packets = (65534, false) ∷ (1, false) ∷ (65535, true) ∷ (1, false) ∷ (65535, false) ∷ []

answers_test : promised_answers none packets ≡ true ∷ true ∷ true ∷ false ∷ true ∷ []
unfolding promised_answers next_seen
answers_test = refl

answers-promised_answers_example : answers slide_win packets ≡ promised_answers none packets
answers-promised_answers_example = answers-promised_answers packets (omega arith)

pkg_sn_valid-Refines_example :
    let (w', new) = pkg_sn_valid slide_win 7 false in
    let (s', promised) = next_seen none 7 false in (new ≡ promised) × Refines w' s'
pkg_sn_valid-Refines_example =
    pkg_sn_valid-Refines slide_win none 7 false slide_win-Refines (omega arith)

abbrev full_ring : List ℕ
full_ring = replicate 512 255

clear_bit_range-IsCleared_example :
    IsClearedAt 4090 20 3 full_ring (clear_bit_range full_ring 4090 20)
clear_bit_range-IsCleared_example =
    clear_bit_range-IsCleared 3 (omega arith) full_ring 4090 20 refl (omega arith) (omega arith)

repeat_rejected_example :
    let w = (pkg_sn_valid (after_all slide_win ((9, false) ∷ [])) 65530 false).0 in
    (pkg_sn_valid (after_all w packets) 65530 true).1 ≡ false
repeat_rejected_example =
    repeat_rejected ((9, false) ∷ []) packets 65530 true (omega arith) (omega arith) (omega arith)
      (omega arith)

advancing_accepted_example :
    answers slide_win ((65534, false) ∷ (2, false) ∷ (900, true) ∷ [])
    ≡ all_accepted ((65534, false) ∷ (2, false) ∷ (900, true) ∷ [])
advancing_accepted_example =
    advancing_accepted 65534 false ((2, false) ∷ (900, true) ∷ []) (omega arith) (omega arith)
      (omega arith)
