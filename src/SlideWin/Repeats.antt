-- ===== src/SlideWin/Repeats.antt =====
-- Repeated numbers, and streams of numbers that advance, in calls of `pkg_sn_valid`
-- (socks5udpf/src/slide_win.cpp) one after another.
use udpfec.Base.{
  ℕ, ◌<◌, ◌≡◌, refl, sym, ap, ◌∙◌, List, [], ◌∷◌, Bool, true, false, ltb, arith, inl, inr,
  Bool-cases, Option, none, some,
}
use mathlib.Core.Path.{subst}
use udpfec.SlideWin.Window.{SlideWin, slide_win, pkg_sn_valid}
use udpfec.SlideWin.Spec.{Seen, age, ahead, start_at, next_seen}
use udpfec.SlideWin.Border.{RefinesStart}
use udpfec.SlideWin.Runs.{
  after_all, answers, seen_after, promised_answers, AllWords, slide_win-Refines, answers_from,
  answers-promised_answers,
}
use udpfec.SlideWin.Refine.{pkg_sn_valid-Refines}

-- A number that was seen and is in the window.
abbrev Held : ℕ → Option Seen → Type 0
Held sn none = ⊥
Held sn (some s) = (s.seen sn ≡ true) × (s.newest < 65536) × (age s.newest sn < 4096)

-- The numbers are at most 1023 ahead of `sn`.
abbrev pub AllNear : ℕ → List (ℕ × Bool) → Type 0
AllNear sn [] = Unit {0}
AllNear sn ((x, only_check) ∷ rest) = (ahead sn x < 1024) × AllNear sn rest

next_seen-Held :
    (sn x : ℕ) (only_check : Bool) (s : Seen)
    → sn < 65536
    → x < 65536
    → Held sn (some s)
    → ahead sn x < 1024
    → Held sn (some (next_seen (some s) x only_check).0)
unfolding next_seen
next_seen-Held sn x only_check s h p (old, bound, near) close =
    elim (Bool-cases (ltb (age s.newest x) 4096)) [
      | inl inside ↦ rw inside (ground (arith, old), bound, near)
      | inr outside ↦
          let small : ltb (ahead s.newest x) 1024 ≡ true =
            ground (arith, bound, h, p, near, close) in
          let left : ltb (age s.newest sn) 4096 ≡ true = ground arith in
          rw (outside, small) (rw left (rw old refl), p, ground (arith, h, p, close))
    ]

seen_after-Held :
    (sn : ℕ) (o : Option Seen) (packets : List (ℕ × Bool))
    → sn < 65536
    → AllWords packets
    → Held sn o
    → AllNear sn packets
    → Held sn (seen_after o packets)
unfolding seen_after
seen_after-Held sn o [] h words held near = held
seen_after-Held sn none (_ ∷ rest) h words held near = elim held [ ]
seen_after-Held sn (some s) ((x, only_check) ∷ rest) h (p, words) held (close, near) =
    seen_after-Held sn (some (next_seen (some s) x only_check).0) rest h words
      (next_seen-Held sn x only_check s h p held close) near

abbrev IsBounded : Option Seen → Type 0
IsBounded none = Unit {0}
IsBounded (some s) = s.newest < 65536

RefinesStart-IsBounded : (w : SlideWin) (o : Option Seen) → RefinesStart w o → IsBounded o
RefinesStart-IsBounded w none r = tt
RefinesStart-IsBounded w (some s) ((size, bound, lower, pos), on, upper, bits) =
    omega (arith, bound, upper)

next_seen-Held_here :
    (sn : ℕ) (o : Option Seen) → sn < 65536 → IsBounded o → Held sn (some (next_seen o sn false).0)
unfolding next_seen
next_seen-Held_here sn none h bound = (ground arith, h, omega arith)
next_seen-Held_here sn (some s) h bound = elim (Bool-cases (ltb (age s.newest sn) 4096)) [
  | inl inside ↦ rw inside (ground arith, bound, ground arith)
  | inr outside ↦ elim (Bool-cases (ltb (ahead s.newest sn) 1024)) [
    | inl small ↦ rw (outside, small) (ground arith, h, omega arith)
    | inr far ↦ rw (outside, far) (ground arith, h, omega arith)
  ]
]

rejects_seen :
    (sn : ℕ) (only_check : Bool) (o : Option Seen)
    → Held sn o
    → (next_seen o sn only_check).1 ≡ false
unfolding next_seen
rejects_seen sn only_check none held = elim held [ ]
rejects_seen sn only_check (some s) (old, bound, near) =
    let inside : ltb (age s.newest sn) 4096 ≡ true = ground arith in rw (inside, old) refl

-- From a new window on, after any calls, a call with a number, and calls whose numbers are all at most
-- 1023 ahead of that number modulo 2 ^ 16, a second call with the number answers that it is no new one.
pub repeat_rejected :
    (earlier later : List (ℕ × Bool)) (sn : ℕ) (only_check : Bool)
    → AllWords earlier
    → AllWords later
    → sn < 65536
    → AllNear sn later
    → let w = (pkg_sn_valid (after_all slide_win earlier) sn false).0 in
      (pkg_sn_valid (after_all w later) sn only_check).1 ≡ false
repeat_rejected earlier later sn only_check before after h near =
    let w1 = after_all slide_win earlier in
    let o1 = seen_after none earlier in
    let r1 : RefinesStart w1 o1 =
      (answers_from slide_win none earlier slide_win-Refines before).1 in
    let w2 = (pkg_sn_valid w1 sn false).0 in
    let o2 = some (next_seen o1 sn false).0 in
    let r2 : RefinesStart w2 o2 = (pkg_sn_valid-Refines w1 o1 sn false r1 h).1 in
    let r3 = (answers_from w2 o2 later r2 after).1 in
    let held =
      seen_after-Held sn o2 later h after
        (next_seen-Held_here sn o1 h (RefinesStart-IsBounded w1 o1 r1)) near in
    (pkg_sn_valid-Refines (after_all w2 later) (seen_after o2 later) sn only_check r3 h).0
    ∙ rejects_seen sn only_check (seen_after o2 later) held

-- Each number is up to 1023 ahead of the one before it.
abbrev pub IsAdvancing : ℕ → List (ℕ × Bool) → Type 0
IsAdvancing sn [] = Unit {0}
IsAdvancing sn ((x, only_check) ∷ rest) =
    (0 < ahead sn x) × (ahead sn x < 1024) × IsAdvancing x rest

abbrev pub all_accepted : List (ℕ × Bool) → List Bool
all_accepted [] = []
all_accepted (packet ∷ rest) = true ∷ all_accepted rest

advance_next :
    (s : Seen) (x : ℕ) (only_check : Bool)
    → s.newest < 65536
    → x < 65536
    → 0 < ahead s.newest x
    → ahead s.newest x < 1024
    → ((next_seen (some s) x only_check).1 ≡ true)
      × ((next_seen (some s) x only_check).0.newest ≡ x)
unfolding next_seen
advance_next s x only_check a b some_step small =
    let outside : ltb (age s.newest x) 4096 ≡ false = ground (arith, a, b, some_step, small) in
    let fits : ltb (ahead s.newest x) 1024 ≡ true = ground arith in rw (outside, fits) (refl, refl)

advance_all :
    (s : Seen) (packets : List (ℕ × Bool))
    → s.newest < 65536
    → AllWords packets
    → IsAdvancing s.newest packets
    → promised_answers (some s) packets ≡ all_accepted packets
unfolding promised_answers
advance_all s [] a words up = refl
advance_all s ((x, only_check) ∷ rest) a (b, words) (some_step, small, up) =
    let (new, newest) = advance_next s x only_check a b some_step small in
    let s' = (next_seen (some s) x only_check).0 in
    let others =
      advance_all s' rest (omega (arith, newest, b)) words
        (subst (λ t. IsAdvancing t rest) (sym newest) up) in
    λ i. new i ∷ others i

promised_first :
    (sn : ℕ) (only_check : Bool) (packets : List (ℕ × Bool))
    → promised_answers none ((sn, only_check) ∷ packets)
      ≡ true ∷ promised_answers (some (start_at sn only_check).0) packets
unfolding promised_answers next_seen
promised_first sn only_check packets = refl

-- A new window answers that the number is new to a first call, and then to all calls of a sequence in
-- which each number is 1 to 1023 ahead of the one before it, modulo 2 ^ 16.
pub advancing_accepted :
    (sn : ℕ) (only_check : Bool) (packets : List (ℕ × Bool))
    → sn < 65536
    → AllWords packets
    → IsAdvancing sn packets
    → answers slide_win ((sn, only_check) ∷ packets) ≡ all_accepted ((sn, only_check) ∷ packets)
advancing_accepted sn only_check packets h words up =
    answers-promised_answers ((sn, only_check) ∷ packets) (h, words)
    ∙ promised_first sn only_check packets
    ∙ ap (λ l. true ∷ l) (advance_all (start_at sn only_check).0 packets h words up)
