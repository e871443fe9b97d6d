-- ===== src/Arq/Ownership.antt =====
-- The pool items of the list: each node that leaves the list gives its item back, once.
use udpfec.Base.{
  ℕ, zero, suc, ◌+◌, ◌%◌, ◌≡◌, refl, ap, List, [], ◌∷◌, ◌++◌, Bool, true, Option, none, some, arith,
  ltb, ◌==◌, if◌then◌else◌, length, inl, inr, Bool-cases,
}
use mathlib.Core.Option
use mathlib.Core.Path.{subst}
use udpfec.Arq.Types.{ArqNode, Arq, Env, Call, item_freed, item_malloced, u32_mod}
use udpfec.Arq.Retransmit.{pack_retransmit, judge_exhaut_resend_num}
use udpfec.Arq.Feedback.{
  Verdict, stop, keep, quick_resend, release, Walk, visit, walk, feedback, feedback_from, rounds,
  start, finish, free_cached, release_node, resend_node, requeue, del_one, del_loop,
  del_node_by_first_sn,
}

abbrev pub one_if : Bool → ℕ
one_if b = if b then 1 else 0

-- How many nodes of a list stand in an item, and how often the item was given back.
unfoldable pub held : ℕ → List ArqNode → ℕ
held item [] = 0
held item (n ∷ r) = one_if (n.address == item) + held item r

unfoldable pub given_back : ℕ → List Call → ℕ
given_back item [] = 0
given_back item (item_freed i ∷ cs) = one_if (i == item) + given_back item cs
given_back item (c ∷ cs) = given_back item cs

-- How often the pool handed the item out.
unfoldable pub taken : ℕ → List Call → ℕ
taken item [] = 0
taken item (item_malloced (some i) ∷ cs) = one_if (i == item) + taken item cs
taken item (c ∷ cs) = taken item cs

-- Between two states, the account of an item is kept.
abbrev pub Kept : ℕ → List ArqNode → List Call → List ArqNode → List Call → Type 0
Kept item l cs l' cs' =
    held item l' + given_back item cs' + taken item cs
    ≡ held item l + given_back item cs + taken item cs'

pub held-append :
    (item : ℕ) (xs ys : List ArqNode) → held item (xs ++ ys) ≡ held item xs + held item ys
unfolding held
held-append item [] ys = omega arith
held-append item (x ∷ xs) ys = omega (arith, held-append item xs ys)

pub held_nil : (item : ℕ) → held item [] ≡ 0
unfolding held
held_nil item = refl

pub held_one : (item : ℕ) (n : ArqNode) → held item (n ∷ []) ≡ one_if (n.address == item)
unfolding held
held_one item n = omega arith

-- Sending a packet again moves no item.
pub pack_retransmit_items :
    (env : Env) (item : ℕ) (calls : List Call) (n : ArqNode) (addr ts : ℕ)
    → let sent = pack_retransmit env calls n addr ts in
      (sent.node.address ≡ n.address)
      × (given_back item sent.calls ≡ given_back item calls)
      × (taken item sent.calls ≡ taken item calls)
unfolding pack_retransmit given_back taken
pack_retransmit_items env item calls n addr ts = ground arith

held-requeue :
    (item : ℕ) (w : Walk) (n : ArqNode) (r : List ArqNode)
    → held item (requeue w r n).passed + held item (requeue w r n).rest
      ≡ held item w.passed + held item r + one_if (n.address == item)
unfolding requeue held
held-requeue item w n [] = omega (arith, held-append item w.passed (n ∷ []), held_one item n)
held-requeue item w n (m ∷ r) = omega (arith, held-append item r (n ∷ []), held_one item n)

calls-requeue : (w : Walk) (n : ArqNode) (r : List ArqNode) → (requeue w r n).arq ≡ w.arq
unfolding requeue
calls-requeue w n [] = refl
calls-requeue w n (m ∷ r) = refl

-- The list of a walk.
abbrev on_list : ℕ → Walk → ℕ
on_list item w = held item w.passed + held item w.rest

abbrev WalkKept : ℕ → ℕ → List Call → Option Walk → Type 0
WalkKept item before cs none = Unit {0}
WalkKept item before cs (some w) =
    on_list item w + given_back item w.arq.calls + taken item cs
    ≡ before + given_back item cs + taken item w.arq.calls

release_node-Kept :
    (item : ℕ) (w : Walk) (n : ArqNode) (r : List ArqNode)
    → WalkKept item (held item w.passed + held item (n ∷ r)) w.arq.calls (some (release_node w n r))
unfolding release_node held given_back taken
release_node-Kept item w n r = ground arith

resend_node-Kept :
    (env : Env) (item : ℕ) (w : Walk) (n : ArqNode) (r : List ArqNode)
    → WalkKept item
        (held item w.passed + held item (n ∷ r))
        w.arq.calls
        (some (resend_node env w n r))
unfolding resend_node held
resend_node-Kept env item w n r =
    let sent = pack_retransmit env w.arq.calls n n.tran_addr 0 in
    let moved = pack_retransmit_items env item w.arq.calls n n.tran_addr 0 in
    let a' = record (w.arq) {
      ack_resend_counter = (w.arq.ack_resend_counter + 1) % u32_mod;
      calls = sent.calls;
    } in
    let w' = record w { arq = a' } in
    let same : one_if (sent.node.address == item) ≡ one_if (n.address == item) =
      ap (λ t. one_if (t == item)) moved.0 in
    rw (calls-requeue w' sent.node r)
      (omega (arith, held-requeue item w' sent.node r, moved.1, moved.2))

visit-Kept :
    (env : Env) (item : ℕ) (v : Verdict) (w : Walk) (n : ArqNode) (r : List ArqNode)
    → WalkKept item (held item w.passed + held item (n ∷ r)) w.arq.calls (visit env v w n r)
unfolding visit
visit-Kept env item stop w n r = tt
visit-Kept env item keep w n r =
    omega (arith, held-append item w.passed (n ∷ []), held-append item (n ∷ []) r)
visit-Kept env item release w n r = release_node-Kept item w n r
visit-Kept env item quick_resend w n r = elim (Bool-cases (judge_exhaut_resend_num w.arq n)) [
  | inl spent ↦
      rw spent (unfold held in release_node-Kept item w (record n { failed_ack = true }) r)
  | inr left ↦ rw left (resend_node-Kept env item w n r)
]

walk-Kept :
    (env : Env) (verdict : ArqNode → Verdict) (item fuel : ℕ) (rest : List ArqNode) (w : Walk)
    → w.rest ≡ rest
    → WalkKept item (on_list item w) w.arq.calls (walk env verdict fuel rest w)
unfolding walk
walk-Kept env verdict item zero [] w e = refl
walk-Kept env verdict item (suc fuel) [] w e = refl
walk-Kept env verdict item zero (n ∷ r) w e = tt
walk-Kept env verdict item (suc fuel) (n ∷ r) w e =
    go (visit env (verdict n) w n r) (visit-Kept env item (verdict n) w n r)
      (walk-Kept env verdict item fuel)
  where
    go :
        (next : Option Walk)
        → WalkKept item (held item w.passed + held item (n ∷ r)) w.arq.calls next
        → ((rest : List ArqNode) (w' : Walk)
            → w'.rest ≡ rest
            → WalkKept item (on_list item w') w'.arq.calls (walk env verdict fuel rest w'))
        → WalkKept item (on_list item w) w.arq.calls (elim next as (λ _. Option Walk) [
          | none ↦ some w
          | some w' ↦ walk env verdict fuel w'.rest w'
        ])
    go none s later = refl
    go (some w') s later = join (walk env verdict fuel w'.rest w') (later w'.rest w' refl)
      where
        join :
            (o : Option Walk)
            → WalkKept item (on_list item w') w'.arq.calls o
            → WalkKept item (on_list item w) w.arq.calls o
        join none k = tt
        join (some w'') k = omega (arith, ap (held item) e)

-- `DelNodeByFirstSn` gives back what it takes out.
del_one-Kept :
    (item : ℕ) (vec : List ℕ) (a : Arq) (n : ArqNode)
    → Kept item (a.arq_list ++ (n ∷ [])) a.calls (del_one vec a n).arq_list (del_one vec a n).calls
unfolding del_one held given_back taken
del_one-Kept item vec a n = ground (arith, held-append item a.arq_list (n ∷ []))

del_loop-Kept :
    (item : ℕ) (vec : List ℕ) (l : List ArqNode) (a : Arq)
    → Kept item (a.arq_list ++ l) a.calls (del_loop vec l a).arq_list (del_loop vec l a).calls
unfolding del_loop
del_loop-Kept item vec [] a = omega (arith, held-append item a.arq_list [], held_nil item)
del_loop-Kept item vec (n ∷ r) a = omega (
  arith,
  del_loop-Kept item vec r (del_one vec a n),
  del_one-Kept item vec a n,
  held-append item a.arq_list (n ∷ r),
  held-append item (n ∷ []) r,
  held-append item a.arq_list (n ∷ []),
  held-append item (del_one vec a n).arq_list r,
)

free_cached_items :
    (item : ℕ) (w : Walk)
    → ((free_cached w).arq_list ≡ w.passed ++ w.rest)
      × (given_back item (free_cached w).calls ≡ given_back item w.arq.calls)
      × (taken item (free_cached w).calls ≡ taken item w.arq.calls)
unfolding free_cached given_back taken
free_cached_items item w = ground arith

finish-Kept :
    (item : ℕ) (w : Walk)
    → Kept item (w.passed ++ w.rest) w.arq.calls (finish w).arq_list (finish w).calls
unfolding finish del_node_by_first_sn
finish-Kept item w =
    let (list, given, got) = free_cached_items item w in
    let same = ap (held item) list in
    elim (Bool-cases (ltb 0 (length w.first_sn_vec))) [
      | inl some_sn ↦ rw some_sn (
          omega (
            arith,
            del_loop-Kept item w.first_sn_vec (free_cached w).arq_list
                (record (free_cached w) { arq_list = [] }),
          ))
      | inr no_sn ↦ rw no_sn (omega arith)
    ]

-- What a pass that ended leaves of the account.
abbrev pub PassKept : ℕ → Arq → Option Arq → Type 0
PassKept item a none = Unit {0}
PassKept item a (some a') = Kept item a.arq_list a.calls a'.arq_list a'.calls

finished-Kept :
    (item : ℕ) (l : List ArqNode) (a : Arq) (o : Option Walk)
    → a.arq_list ≡ l
    → WalkKept item (held item l) a.calls o
    → PassKept item a (Option.map finish o)
finished-Kept item l a none e k = tt
finished-Kept item l a (some w) e k =
    omega (arith, finish-Kept item w, held-append item w.passed w.rest, ap (held item) e)

feedback_from-Kept :
    (env : Env) (verdict : ArqNode → Verdict) (item : ℕ) (l : List ArqNode) (a : Arq)
    → a.arq_list ≡ l
    → PassKept item a (feedback_from env verdict l a)
unfolding feedback_from start
feedback_from-Kept env verdict item [] a e = refl
feedback_from-Kept env verdict item (n ∷ r) a e =
    let fuel = rounds a.max_retran_times (n ∷ r) in
    let same : on_list item (start a) ≡ held item (n ∷ r) =
      omega (arith, held_nil item, ap (held item) e) in
    finished-Kept item (n ∷ r) a _ e (
      subst (λ b. WalkKept item b a.calls (walk env verdict fuel (n ∷ r) (start a))) same
        (walk-Kept env verdict item fuel (n ∷ r) (start a) e))

-- A feedback pass keeps the account of every item: it was in the list, or the pool handed it out
-- and it was not given back yet, as often before as after.
pub feedback-Kept :
    (env : Env) (verdict : ArqNode → Verdict) (item : ℕ) (a : Arq)
    → PassKept item a (feedback env verdict a)
unfolding feedback
feedback-Kept env verdict item a = feedback_from-Kept env verdict item a.arq_list a refl
