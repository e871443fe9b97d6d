-- ===== src/Arq/Release.antt =====
-- Which nodes a pass over the list of src/arq/goodtp_arq.cpp leaves, where nothing is due again.
use udpfec.Base.{
  ℕ, zero, suc, ◌+◌, ◌≤◌, ◌≡◌, refl, sym, ap, ◌∙◌, List, [], ◌∷◌, ◌++◌, Bool, true, false, Option,
  none, some, arith, ltb, if◌then◌else◌, length, inl, inr, Bool-cases, lt→ltb, length-append,
}
use mathlib.Core.Option
use mathlib.Core.Path.{subst}
use mathlib.Core.List.{append-nil, append_assoc}
use udpfec.Arq.Lookup.{contains, without, arq_list-del_loop}
use udpfec.Arq.Types.{ArqNode, Arq, Env, max_rsv_win_size}
use udpfec.Arq.Feedback.{
  del_node_by_first_sn, Verdict, stop, keep, quick_resend, release, Walk, walk, visit, release_node,
  cache_first_sn, start, finish, free_cached, feedback, feedback_from, rounds,
}

-- A verdict that leaves a node or releases it.
abbrev pub Settles : Verdict → Type 0
Settles keep = Unit {0}
Settles release = Unit {0}
Settles stop = ⊥
Settles quick_resend = ⊥

abbrev pub AllSettled : (ArqNode → Verdict) → List ArqNode → Type 0
AllSettled verdict [] = Unit {0}
AllSettled verdict (n ∷ r) = Settles (verdict n) × AllSettled verdict r

abbrev pub releases : Verdict → Bool
releases release = true
releases _ = false

-- The first sns of the nodes that a verdict releases.
unfoldable pub released_sns : (ArqNode → Verdict) → List ArqNode → List ℕ
released_sns verdict [] = []
released_sns verdict (n ∷ r) =
    if releases (verdict n)
    then n.first_pack_sn ∷ released_sns verdict r
    else released_sns verdict r

-- The nodes that it leaves.
unfoldable pub left_nodes : (ArqNode → Verdict) → List ArqNode → List ArqNode
left_nodes verdict [] = []
left_nodes verdict (n ∷ r) =
    if releases (verdict n) then left_nodes verdict r else n ∷ left_nodes verdict r

module _ (env : Env) (verdict : ArqNode → Verdict) where
  -- The nodes and the first sns that a walk ends with.
  abbrev Walked : List ArqNode → List ℕ → Option Walk → Type 0
  Walked nodes sns none = ⊥
  Walked nodes sns (some w) = (w.passed ++ w.rest ≡ nodes) × (w.first_sn_vec ≡ sns)

  -- Where the walk goes on after a node that it settles.
  abbrev Onward : List ArqNode → ℕ → Type 0
  Onward r fuel =
      (w : Walk)
      → w.rest ≡ r
      → length w.first_sn_vec + length r ≤ max_rsv_win_size
      → Walked (w.passed ++ left_nodes verdict r) (w.first_sn_vec ++ released_sns verdict r)
          (walk env verdict fuel r w)

  settled_step :
      (fuel : ℕ) (v : Verdict) (n : ArqNode) (r : List ArqNode) (w : Walk)
      → Settles v
      → length w.first_sn_vec + suc (length r) ≤ max_rsv_win_size
      → Onward r fuel
      → Walked
          (w.passed ++ (if releases v then left_nodes verdict r else n ∷ left_nodes verdict r))
          (w.first_sn_vec
            ++ (if releases v
                then n.first_pack_sn ∷ released_sns verdict r
                else released_sns verdict r))
          (elim (visit env v w n r) as (λ _. Option Walk) [
            | none ↦ some w
            | some w' ↦ walk env verdict fuel w'.rest w'
          ])
  unfolding visit release_node cache_first_sn
  settled_step fuel stop n r w s b later = absurd s
  settled_step fuel quick_resend n r w s b later = absurd s
  settled_step fuel keep n r w s b later =
      let w' = record w { passed = w.passed ++ (n ∷ []); rest = r } in
      subst (λ l. Walked l (w.first_sn_vec ++ released_sns verdict r) (walk env verdict fuel r w'))
        (append_assoc w.passed (n ∷ []) (left_nodes verdict r)) (later w' refl (omega arith))
  settled_step fuel release n r w s b later =
      let w' = release_node w n r in
      let room : w'.first_sn_vec ≡ w.first_sn_vec ++ (n.first_pack_sn ∷ []) =
        rw (lt→ltb (length w.first_sn_vec) max_rsv_win_size (omega arith)) refl in
      subst (λ l. Walked (w.passed ++ left_nodes verdict r) l (walk env verdict fuel r w'))
        (ap (λ l. l ++ released_sns verdict r) room
          ∙ append_assoc w.first_sn_vec (n.first_pack_sn ∷ []) (released_sns verdict r))
        (later w' refl
          (omega (arith, ap length room, length-append w.first_sn_vec (n.first_pack_sn ∷ []))))

  walk_settled :
      (fuel : ℕ) (rest : List ArqNode)
      → length rest ≤ fuel
      → AllSettled verdict rest
      → Onward rest fuel
  unfolding walk left_nodes released_sns
  walk_settled zero [] h s w e b = (ap (λ l. w.passed ++ l) e, sym (append-nil w.first_sn_vec))
  walk_settled (suc fuel) [] h s w e b =
      (ap (λ l. w.passed ++ l) e, sym (append-nil w.first_sn_vec))
  walk_settled zero (n ∷ r) h s w e b = absurd (omega arith)
  walk_settled (suc fuel) (n ∷ r) h s w e b =
      settled_step fuel (verdict n) n r w s.0 b (walk_settled fuel r (omega arith) s.1)

-- The nodes that an acknowledgement leaves: not released, and no copy of a released packet.
unfoldable pub survivors : (ArqNode → Verdict) → List ArqNode → List ArqNode
survivors verdict l = without (released_sns verdict l) (left_nodes verdict l)

without-nil : (l : List ArqNode) → without [] l ≡ l
unfolding without contains
without-nil [] = refl
without-nil (n ∷ r) = ap (λ t. n ∷ t) (without-nil r)

without_empty : (sns : List ℕ) (l : List ArqNode) → ltb 0 (length sns) ≡ false → without sns l ≡ l
without_empty [] l e = without-nil l
without_empty (sn ∷ sns) l e = absurd (ground arith)

free_cached_list : (w : Walk) → (free_cached w).arq_list ≡ w.passed ++ w.rest
unfolding free_cached
free_cached_list w = ground arith

finish_walked : (w : Walk) → (finish w).arq_list ≡ without w.first_sn_vec (w.passed ++ w.rest)
unfolding finish del_node_by_first_sn
finish_walked w = elim (Bool-cases (ltb 0 (length w.first_sn_vec))) [
  | inl found ↦ rw found (
      arq_list-del_loop w.first_sn_vec (free_cached w).arq_list
        (record (free_cached w) { arq_list = [] })
      ∙ ap (without w.first_sn_vec) (free_cached_list w))
  | inr none_found ↦
      rw none_found
        (free_cached_list w ∙ sym (without_empty w.first_sn_vec (w.passed ++ w.rest) none_found))
]

length-le-rounds : (m : ℕ) (l : List ArqNode) → length l ≤ rounds m l
unfolding rounds
length-le-rounds m [] = omega arith
length-le-rounds m (n ∷ r) = omega (arith, length-le-rounds m r)

-- A pass ended, with this list.
abbrev pub EndsWith : List ArqNode → Option Arq → Type 0
EndsWith l none = ⊥
EndsWith l (some a) = a.arq_list ≡ l

module _ (env : Env) (verdict : ArqNode → Verdict) where
  Walked-list :
      (nodes : List ArqNode) (sns : List ℕ) (o : Option Walk)
      → Walked env verdict nodes sns o
      → EndsWith (without sns nodes) (Option.map finish o)
  Walked-list nodes sns none h = h
  Walked-list nodes sns (some w) h =
      finish_walked w ∙ ap (λ l. without l (w.passed ++ w.rest)) h.1 ∙ ap (without sns) h.0

  feedback_from_list :
      (l : List ArqNode) (a : Arq)
      → a.arq_list ≡ l
      → AllSettled verdict l
      → length l ≤ max_rsv_win_size
      → EndsWith (survivors verdict l) (feedback_from env verdict l a)
  unfolding feedback_from survivors start
  feedback_from_list [] a e s b = unfold without left_nodes in e
  feedback_from_list (n ∷ r) a e s b =
      let fuel = rounds a.max_retran_times (n ∷ r) in
      Walked-list (left_nodes verdict (n ∷ r)) (released_sns verdict (n ∷ r)) _ (
        walk_settled env verdict fuel (n ∷ r) (length-le-rounds a.max_retran_times (n ∷ r)) s
          (start a) e (omega arith))

  -- A pass that resends nothing leaves the survivors, in their order.
  pub feedback_list :
      (a : Arq)
      → AllSettled verdict a.arq_list
      → length a.arq_list ≤ max_rsv_win_size
      → EndsWith (survivors verdict a.arq_list) (feedback env verdict a)
  unfolding feedback
  feedback_list a s b = feedback_from_list a.arq_list a refl s b
