-- ===== src/Arq/Termination.antt =====
-- Every pass over the list ends: the fuel that the definitions give is enough.
use udpfec.Base.{
  ℕ, zero, suc, ◌+◌, ◌%◌, ◌≤◌, ◌<◌, ◌≡◌, refl, ap, List, [], ◌∷◌, ◌++◌, true, false, Option, none,
  some, arith, inl, inr, Bool-cases,
}
use mathlib.Core.Option
use udpfec.Arq.Types.{ArqNode, Arq, Env}
use udpfec.Arq.Retransmit.{pack_retransmit, judge_exhaut_resend_num}
use udpfec.Arq.Feedback.{
  Verdict, stop, keep, quick_resend, release, Walk, visit, walk, feedback, feedback_from, rounds,
  resends_left, start, finish, release_node, resend_node, requeue,
}

pub rounds-append : (m : ℕ) (xs ys : List ArqNode) → rounds m (xs ++ ys) ≡ rounds m xs + rounds m ys
unfolding rounds
rounds-append m [] ys = omega arith
rounds-append m (x ∷ xs) ys = omega (arith, rounds-append m xs ys)

-- A resend leaves the kind and the threshold of a node, and raises its counter.
pub pack_retransmit-counts :
    (env : Env) (a : Arq) (n : ArqNode) (addr ts : ℕ)
    → let n' = (pack_retransmit env a.calls n addr ts).node in
      (n'.boost_node_flg ≡ n.boost_node_flg)
      × (n'.boost_threshold ≡ n.boost_threshold)
      × (n'.retran_counter ≡ (n.retran_counter + 1) % 256)
unfolding pack_retransmit
pack_retransmit-counts env a n addr ts = ground arith

-- A resend that the limit allows uses one of the resends that the node has left.
resends_left-pack_retransmit :
    (env : Env) (a : Arq) (n : ArqNode) (addr ts : ℕ)
    → judge_exhaut_resend_num a n ≡ false
    → suc (resends_left a.max_retran_times (pack_retransmit env a.calls n addr ts).node)
      ≡ resends_left a.max_retran_times n
unfolding resends_left judge_exhaut_resend_num
resends_left-pack_retransmit env a n addr ts h =
    ground (arith, pack_retransmit-counts env a n addr ts)

-- What a round leaves: fewer rounds to go, at the same limit.
abbrev Shorter : Walk → ArqNode → List ArqNode → Option Walk → Type 0
Shorter w n r none = Unit {0}
Shorter w n r (some w') =
    (rounds w.arq.max_retran_times w'.rest < rounds w.arq.max_retran_times (n ∷ r))
    × (w'.arq.max_retran_times ≡ w.arq.max_retran_times)

release_node-Shorter :
    (w : Walk) (n : ArqNode) (r : List ArqNode) → Shorter w n r (some (release_node w n r))
unfolding release_node rounds
release_node-Shorter w n r = (omega arith, ground arith)

resend_node-Shorter :
    (env : Env) (w : Walk) (n : ArqNode) (r : List ArqNode)
    → judge_exhaut_resend_num w.arq n ≡ false
    → Shorter w n r (some (resend_node env w n r))
unfolding resend_node rounds requeue
resend_node-Shorter env w n [] h = (omega arith, refl)
resend_node-Shorter env w n (k ∷ r) h =
    let again = (pack_retransmit env w.arq.calls n n.tran_addr 0).node in
    (
      omega (
        arith,
        rounds-append w.arq.max_retran_times r (again ∷ []),
        resends_left-pack_retransmit env w.arq n n.tran_addr 0 h,
      ),
      refl,
    )

visit-Shorter :
    (env : Env) (v : Verdict) (w : Walk) (n : ArqNode) (r : List ArqNode)
    → Shorter w n r (visit env v w n r)
unfolding visit
visit-Shorter env stop w n r = tt
visit-Shorter env keep w n r = (unfold rounds in omega arith, refl)
visit-Shorter env release w n r = release_node-Shorter w n r
visit-Shorter env quick_resend w n r = elim (Bool-cases (judge_exhaut_resend_num w.arq n)) [
  | inl spent ↦
      rw spent
        (unfold rounds resends_left in release_node-Shorter w (record n { failed_ack = true }) r)
  | inr left ↦ rw left (resend_node-Shorter env w n r left)
]

-- With `rounds` of fuel the walk comes to its end.
pub walk_total :
    (env : Env) (verdict : ArqNode → Verdict) (fuel : ℕ) (rest : List ArqNode) (w : Walk)
    → rounds w.arq.max_retran_times rest ≤ fuel
    → (w' : Walk) × (walk env verdict fuel rest w ≡ some w')
unfolding walk
walk_total env verdict zero [] w h = (w, refl)
walk_total env verdict (suc fuel) [] w h = (w, refl)
walk_total env verdict zero (n ∷ r) w h = absurd (unfold rounds in omega arith)
walk_total env verdict (suc fuel) (n ∷ r) w h =
    go (visit env (verdict n) w n r) (visit-Shorter env (verdict n) w n r)
      (walk_total env verdict fuel)
  where
    go :
        (next : Option Walk)
        → Shorter w n r next
        → ((rest : List ArqNode) (w' : Walk)
            → rounds w'.arq.max_retran_times rest ≤ fuel
            → (w'' : Walk) × (walk env verdict fuel rest w' ≡ some w''))
        → (w'' : Walk) × (elim next as (λ _. Option Walk) [
          | none ↦ some w
          | some w' ↦ walk env verdict fuel w'.rest w'
        ]
            ≡ some w'')
    go none s later = (w, refl)
    go (some w') s later =
        let left : rounds w'.arq.max_retran_times w'.rest ≤ fuel = rw s.1 (omega (arith, s.0)) in
        later w'.rest w' left

feedback_from_total :
    (env : Env) (verdict : ArqNode → Verdict) (l : List ArqNode) (a : Arq)
    → (a' : Arq) × (feedback_from env verdict l a ≡ some a')
unfolding feedback_from start
feedback_from_total env verdict [] a = (a, refl)
feedback_from_total env verdict (n ∷ r) a =
    let (w, e) =
      walk_total env verdict (rounds a.max_retran_times (n ∷ r)) (n ∷ r) (start a) (omega arith) in
    (finish w, ap (Option.map finish) e)

-- Every feedback pass ends and leaves a list.
pub feedback_total :
    (env : Env) (verdict : ArqNode → Verdict) (a : Arq)
    → (a' : Arq) × (feedback env verdict a ≡ some a')
unfolding feedback
feedback_total env verdict a = feedback_from_total env verdict a.arq_list a
