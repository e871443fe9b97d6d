-- ===== src/Arq/Lookup.antt =====
-- `JudgeIsExist` and `DelNodeByFirstSn` of src/arq/goodtp_arq.cpp against membership and a filter.
use udpfec.Base.{
  ℕ, zero, suc, ◌+◌, ◌-◌, ◌≤◌, ◌≡◌, refl, sym, ap, ◌∙◌, List, [], ◌∷◌, ◌++◌, Bool, false, ◌||◌,
  arith, ◌==◌, if◌then◌else◌, length, get_or, inl, inr, Bool-cases,
}
use mathlib.Core.List.{append-nil, append_assoc}
use udpfec.Arq.Types.{ArqNode, Arq}
use udpfec.Arq.Feedback.{exist_loop, judge_is_exist, del_one, del_loop}

-- Whether a number is in a list.
unfoldable pub contains : ℕ → List ℕ → Bool
contains x [] = false
contains x (y ∷ ys) = (x == y) || contains x ys

module _ (x : ℕ) (vec : List ℕ) where
  -- The same over the indices `i`, …, `i + n - 1`.
  any_from : ℕ → ℕ → Bool
  any_from zero i = false
  any_from (suc n) i = (x == get_or vec i 0) || any_from n (i + 1)

  any_from-last : (n i : ℕ) → any_from (suc n) i ≡ (any_from n i || (x == get_or vec (i + n) 0))
  unfolding any_from
  any_from-last zero i = let e : i + 0 ≡ i = omega arith in rw e (ground arith)
  any_from-last (suc n) i =
      let e : i + suc n ≡ i + 1 + n = omega arith in rw e (ground (arith, any_from-last n (i + 1)))

  exist_loop-none : (fuel i j : ℕ) → j ≤ i → exist_loop fuel x vec i j ≡ false
  unfolding exist_loop
  exist_loop-none zero i j h = refl
  exist_loop-none (suc fuel) i j h = ground arith

  exist_loop-any :
      (fuel i j n : ℕ) → i + n ≡ j → n ≤ fuel → exist_loop fuel x vec i j ≡ any_from n i
  unfolding exist_loop any_from
  exist_loop-any zero i j zero e h = refl
  exist_loop-any zero i j (suc n) e h = absurd (omega arith)
  exist_loop-any (suc fuel) i j zero e h = ground arith
  exist_loop-any (suc fuel) i j (suc zero) e h =
      let last : j - 1 ≡ i = omega arith in rw last (ground (arith, exist_loop-none fuel (i + 1) i))
  exist_loop-any (suc fuel) i j (suc (suc n)) e h =
      let last : i + 1 + n ≡ j - 1 = omega arith in
      ground (
        arith,
        any_from-last n (i + 1),
        ap (λ k. get_or vec k 0) last,
        exist_loop-any fuel (i + 1) (j - 1) n (omega arith) (omega arith),
      )

any_from-shift :
    (x y : ℕ) (vec : List ℕ) (n i k : ℕ) → k ≡ suc i → any_from x (y ∷ vec) n k ≡ any_from x vec n i
unfolding any_from
any_from-shift x y vec zero i k e = refl
any_from-shift x y vec (suc n) i k e = rw e (
    ap (λ b. (x == get_or vec i 0) || b)
      (any_from-shift x y vec n (i + 1) (suc i + 1) (omega arith)))

any_from-contains : (x : ℕ) (vec : List ℕ) → any_from x vec (length vec) 0 ≡ contains x vec
unfolding any_from contains
any_from-contains x [] = refl
any_from-contains x (y ∷ vec) =
    ap (λ b. (x == y) || b) (any_from-shift x y vec (length vec) 0 1 refl ∙ any_from-contains x vec)

-- `JudgeIsExist`, which looks from both ends, finds what is there.
pub judge_is_exist-contains : (x : ℕ) (vec : List ℕ) → judge_is_exist x vec ≡ contains x vec
unfolding judge_is_exist
judge_is_exist-contains x vec =
    exist_loop-any x vec (length vec) 0 (length vec) (length vec) (omega arith) (omega arith)
    ∙ any_from-contains x vec

-- The nodes that stay: those whose first sn is not among `sns`.
unfoldable pub without : List ℕ → List ArqNode → List ArqNode
without sns [] = []
without sns (n ∷ r) = if contains n.first_pack_sn sns then without sns r else n ∷ without sns r

arq_list-del_one :
    (vec : List ℕ) (a : Arq) (n : ArqNode)
    → (del_one vec a n).arq_list ≡ a.arq_list ++ without vec (n ∷ [])
unfolding del_one without
arq_list-del_one vec a n =
    rw (judge_is_exist-contains n.first_pack_sn vec)
      (elim (Bool-cases (contains n.first_pack_sn vec)) [
        | inl old ↦ rw old (sym (append-nil a.arq_list))
        | inr new ↦ rw new refl
      ])

pub arq_list-del_loop :
    (vec : List ℕ) (l : List ArqNode) (a : Arq)
    → (del_loop vec l a).arq_list ≡ a.arq_list ++ without vec l
unfolding del_loop without
arq_list-del_loop vec [] a = sym (append-nil a.arq_list)
arq_list-del_loop vec (n ∷ r) a =
    arq_list-del_loop vec r (del_one vec a n)
    ∙ ap (λ l. l ++ without vec r) (arq_list-del_one vec a n)
    ∙ append_assoc a.arq_list (without vec (n ∷ [])) (without vec r)
    ∙ ap (λ l. a.arq_list ++ l) (without-cons vec n r)
  where
    without-cons :
        (vec : List ℕ) (n : ArqNode) (r : List ArqNode)
        → without vec (n ∷ []) ++ without vec r ≡ without vec (n ∷ r)
    without-cons vec n r = elim (Bool-cases (contains n.first_pack_sn vec)) [
      | inl old ↦ rw old
      | inr new ↦ rw new
    ]
