-- ===== src/Arq/Acked.antt =====
-- Which packets an ACK or a NACK of src/arq/goodtp_arq.cpp releases.
use udpfec.Base.{
  ℕ, ◌+◌, ◌-◌, ◌≤◌, ◌<◌, ◌≡◌, refl, ap, List, [], ◌∷◌, Bool, true, false, arith, ◌==◌,
  if◌then◌else◌, length, inl, inr, ◌⊎◌, ◌%◌, Bool-cases,
}
use mathlib.Core.Path.{subst, subst₂}
use udpfec.Arq.Lookup.{without}
use udpfec.Arq.Words.{lost_in_bytes, proc_arq_same}
use udpfec.Arq.Release.{AllSettled, EndsWith, released_sns, left_nodes, survivors, feedback_list}
use udpfec.Arq.Types.{ArqNode, Arq, Env, max_rsv_win_size, u32_max, u32_mod}
use udpfec.Arq.Feedback.{
  keep, release, feedback, sn_span, no_loss_verdict, ack_verdict, proc_not_loss_nack, proc_nack,
  proc_ack,
}

-- Every node lies between `head_sn` and `tail_sn`, and those that the bitmap does not confirm
-- lie behind `rto_sn`: they are not overdue yet.
abbrev pub InTime : (ℕ → Bool) → ℕ → ℕ → ℕ → List ArqNode → Type 0
InTime lost head_sn tail_sn rto_sn [] = Unit {0}
InTime lost head_sn tail_sn rto_sn (n ∷ r) =
    (sn_span head_sn n.pack_sn ≤ sn_span head_sn tail_sn)
    × (lost (sn_span head_sn n.pack_sn) ≡ true → sn_span head_sn rto_sn < sn_span head_sn n.pack_sn)
    × InTime lost head_sn tail_sn rto_sn r

-- The nodes that the bitmap does not confirm, less the copies of those that it confirms.
unfoldable pub acked_sns : (ℕ → Bool) → ℕ → List ArqNode → List ℕ
acked_sns lost head_sn [] = []
acked_sns lost head_sn (n ∷ r) =
    if lost (sn_span head_sn n.pack_sn)
    then acked_sns lost head_sn r
    else n.first_pack_sn ∷ acked_sns lost head_sn r

unfoldable pub lost_nodes : (ℕ → Bool) → ℕ → List ArqNode → List ArqNode
lost_nodes lost head_sn [] = []
lost_nodes lost head_sn (n ∷ r) =
    if lost (sn_span head_sn n.pack_sn)
    then n ∷ lost_nodes lost head_sn r
    else lost_nodes lost head_sn r

module _ (lost : ℕ → Bool) (head_sn tail_sn rto_sn : ℕ) where
  node_verdict :
      (n : ArqNode)
      → sn_span head_sn n.pack_sn ≤ sn_span head_sn tail_sn
      → (lost (sn_span head_sn n.pack_sn) ≡ true
          → sn_span head_sn rto_sn < sn_span head_sn n.pack_sn)
      → (lost (sn_span head_sn n.pack_sn) ≡ true)
          × (ack_verdict lost head_sn tail_sn rto_sn n ≡ keep)
        ⊎ (lost (sn_span head_sn n.pack_sn) ≡ false)
          × (ack_verdict lost head_sn tail_sn rto_sn n ≡ release)
  unfolding ack_verdict
  node_verdict n p q = elim (Bool-cases (lost (sn_span head_sn n.pack_sn))) [
    | inl gap ↦ inl (gap, ground (arith, q gap))
    | inr got ↦ inr (got, ground arith)
  ]

  InTime-settled :
      (l : List ArqNode)
      → InTime lost head_sn tail_sn rto_sn l
      → let verdict = ack_verdict lost head_sn tail_sn rto_sn in
        AllSettled verdict l
        × (released_sns verdict l ≡ acked_sns lost head_sn l)
        × (left_nodes verdict l ≡ lost_nodes lost head_sn l)
  unfolding released_sns left_nodes acked_sns lost_nodes
  InTime-settled [] h = (tt, refl, refl)
  InTime-settled (n ∷ r) h =
      let (s, sns, nodes) = InTime-settled r h.2 in
      elim (node_verdict n h.0 h.1) [
        | inl (bit, v) ↦ (rw v (tt, s), rw (v, bit) sns, rw (v, bit) (ap (λ t. n ∷ t) nodes))
        | inr (bit, v) ↦
            (rw v (tt, s), rw (v, bit) (ap (λ t. n.first_pack_sn ∷ t) sns), rw (v, bit) nodes)
      ]

-- In a list of at most 640 nodes in which nothing is overdue and nothing lies beyond the ACK, the ACK
-- leaves, in their order, the packets whose bit is not set, except copies of a packet that it confirms; on
-- systems of both word sizes. `pointer_bytes` is the size of a pointer.
pub proc_ack_list :
    (env : Env) (pointer_bytes : ℕ) (a : Arq) (bitmap : List ℕ) (head_sn tail_sn rto_sn : ℕ)
    → InTime (lost_in_bytes bitmap) head_sn tail_sn rto_sn a.arq_list
    → length a.arq_list ≤ max_rsv_win_size
    → EndsWith
        (without
          (acked_sns (lost_in_bytes bitmap) head_sn a.arq_list)
          (lost_nodes (lost_in_bytes bitmap) head_sn a.arq_list))
        (proc_ack env pointer_bytes a bitmap head_sn tail_sn rto_sn)
unfolding proc_ack survivors
proc_ack_list env pointer_bytes a bitmap head_sn tail_sn rto_sn t b =
    let lost = lost_in_bytes bitmap in
    let (s, sns, nodes) = InTime-settled lost head_sn tail_sn rto_sn a.arq_list t in
    let listed = feedback_list env (ack_verdict lost head_sn tail_sn rto_sn) a s b in
    let (same, bytewise) = proc_arq_same env a bitmap head_sn tail_sn rto_sn in
    let here =
      subst₂
        (λ x y. EndsWith (without x y) (feedback env (ack_verdict lost head_sn tail_sn rto_sn) a))
        sns nodes listed in
    elim (Bool-cases (pointer_bytes == 8)) [
      | inl wide ↦ rw (wide, proc_ack, bytewise) here
      | inr narrow ↦ rw (narrow, proc_ack, same, bytewise) here
    ]

abbrev pub Within : ℕ → ℕ → List ArqNode → Type 0
Within head_sn tail_sn [] = Unit {0}
Within head_sn tail_sn (n ∷ r) =
    (sn_span head_sn n.pack_sn ≤ sn_span head_sn tail_sn) × Within head_sn tail_sn r

Within-settled :
    (head_sn tail_sn : ℕ) (l : List ArqNode)
    → Within head_sn tail_sn l
    → AllSettled (no_loss_verdict head_sn tail_sn) l
      × (left_nodes (no_loss_verdict head_sn tail_sn) l ≡ [])
unfolding left_nodes
Within-settled head_sn tail_sn [] h = (tt, refl)
Within-settled head_sn tail_sn (n ∷ r) h =
    let v : no_loss_verdict head_sn tail_sn n ≡ release = unfold no_loss_verdict in ground arith in
    let rest = Within-settled head_sn tail_sn r h.1 in (rw v (tt, rest.0), rw v rest.1)

-- A NACK that names no loss releases every packet up to its `rto_sn`: where all packets of the
-- list, at most 640, lie between `head_sn` and `rto_sn`, none is left.
pub proc_nack_clears :
    (env : Env) (a : Arq) (head_sn rto_sn : ℕ)
    → Within head_sn rto_sn a.arq_list
    → length a.arq_list ≤ max_rsv_win_size
    → EndsWith [] (proc_nack env a [] head_sn rto_sn)
unfolding proc_nack proc_not_loss_nack survivors without
proc_nack_clears env a head_sn rto_sn h b =
    let (s, none_left) = Within-settled head_sn rto_sn a.arq_list h in
    let v = no_loss_verdict head_sn rto_sn in
    subst (λ l. EndsWith (without (released_sns v a.arq_list) l) (feedback env v a)) none_left
      (feedback_list env v a s b)

-- The distance that the passes compute is the distance modulo 2^32 where the sequence numbers do
-- not wrap, and one less where they do.
pub sn_span_distance :
    (head_sn sn : ℕ)
    → head_sn < u32_mod
    → sn < u32_mod
    → (head_sn ≤ sn → sn_span head_sn sn ≡ (sn + u32_mod - head_sn) % u32_mod)
      × (sn < head_sn → sn_span head_sn sn + 1 ≡ (sn + u32_mod - head_sn) % u32_mod)
unfolding sn_span
sn_span_distance head_sn sn h k = (λ p. ground arith, λ p. ground arith)

-- So an ACK cannot tell packet 0 from packet 2^32 - 1, whatever its bitmap: from any head but 0,
-- both get the same verdict.
pub ack_confuses_wrap :
    (lost : ℕ → Bool) (head_sn tail_sn rto_sn : ℕ) (n m : ArqNode)
    → 0 < head_sn
    → head_sn < u32_mod
    → n.pack_sn ≡ 0
    → m.pack_sn ≡ u32_max
    → ack_verdict lost head_sn tail_sn rto_sn n ≡ ack_verdict lost head_sn tail_sn rto_sn m
unfolding ack_verdict
ack_confuses_wrap lost head_sn tail_sn rto_sn n m p q e f =
    let same : sn_span head_sn n.pack_sn ≡ sn_span head_sn m.pack_sn =
      unfold sn_span in ground arith in
    rw same
