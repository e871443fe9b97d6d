-- ===== src/Arq/History.antt =====
-- Any sequence of calls of the public operations of `GtpArq`, from its constructor on.
use udpfec.Base.{
  ℕ, ◌+◌, ◌≡◌, refl, List, [], ◌∷◌, Option, none, some, arith, length, ◌==◌, inl, inr, Bool-cases,
}
use mathlib.Core.Path.{subst}
use udpfec.Arq.Types.{Arq, Env, Packet}
use udpfec.Arq.Feedback.{
  proc_ack, proc_nack, proc_arq_in_32_bit_sys, proc_arq_in_64_bit_sys, proc_not_loss_nack,
  proc_has_loss_nack,
}
use udpfec.Arq.Timer.{check_rto_retran, pop_all_pack}
use udpfec.Arq.Entry.{
  gtp_arq, packet_entry_list, adjust_s_win_current_loss_rate, adjust_r_win_current_loss_rate,
  adjust_retran_times, adjust_rto_timeout,
}
use udpfec.Arq.Ownership.{held, given_back, taken, PassKept, feedback-Kept}
use udpfec.Arq.TimerOwnership.{check_rto_retran-Kept, pop_all_pack-Kept}
use udpfec.Arq.BoostOwnership.{packet_entry_list-Kept}
use udpfec.Arq.Termination.{feedback_total}
use udpfec.Arq.TimerEnd.{check_rto_retran_total}

pub data Op : Type 0 where
  enter : Packet → ℕ → ℕ → Op
  ack : ℕ → List ℕ → ℕ → ℕ → ℕ → Op
  nack : List ℕ → ℕ → ℕ → Op
  tick : ℕ → Op
  pop_all : Op
  set_s_loss set_r_loss : ℕ → ℕ → Op
  set_retran_times : ℕ → Op
  set_rto : ℕ → ℕ → Op

-- Every item that the pool handed out is in the list once, or was given back.
abbrev pub IsBalanced : Arq → Type 0
IsBalanced a = (item : ℕ) → held item a.arq_list + given_back item a.calls ≡ taken item a.calls

module _ (env : Env) where
  unfoldable pub apply : Op → Arq → Option Arq
  apply (enter pack first_pack_sn ts_us) a =
      some (packet_entry_list env a pack first_pack_sn ts_us).1
  apply (ack pointer_bytes bitmap head_sn tail_sn rto_sn) a =
      proc_ack env pointer_bytes a bitmap head_sn tail_sn rto_sn
  apply (nack offsets head_sn rto_sn) a = proc_nack env a offsets head_sn rto_sn
  apply (tick cur_ts_us) a = check_rto_retran env a cur_ts_us
  apply pop_all a = some (pop_all_pack a)
  apply (set_s_loss loss dir) a = some (adjust_s_win_current_loss_rate a loss dir)
  apply (set_r_loss loss dir) a = some (adjust_r_win_current_loss_rate a loss dir)
  apply (set_retran_times times) a = some (adjust_retran_times a times)
  apply (set_rto rto rtt) a = some (adjust_rto_timeout a rto rtt)

  unfoldable pub run : List Op → Arq → Option Arq
  run [] a = some a
  run (op ∷ ops) a = elim (apply op a) [ none ↦ none | some a' ↦ run ops a' ]

  -- An operation ends, and keeps the account.
  abbrev Ends : Arq → Option Arq → Type 0
  Ends a o = (a' : Arq) × (o ≡ some a') × ((item : ℕ) → PassKept item a (some a'))

  ended :
      (a : Arq) (o : Option Arq) (a' : Arq)
      → o ≡ some a'
      → ((item : ℕ) → PassKept item a o)
      → Ends a o
  ended a o a' e k = (a', e, λ item. subst (PassKept item a) e (k item))

  proc_ack-Ends :
      (bytes : ℕ) (a : Arq) (bitmap : List ℕ) (h t r : ℕ)
      → Ends a (proc_ack env bytes a bitmap h t r)
  unfolding proc_ack proc_arq_in_32_bit_sys proc_arq_in_64_bit_sys
  proc_ack-Ends bytes a bitmap h t r = elim (Bool-cases (bytes == 8)) [
    | inl wide ↦
        rw (wide, proc_ack)
          (let (a', e) = feedback_total env _ a in
            ended a _ a' e (λ item. feedback-Kept env _ item a))
    | inr narrow ↦
        rw (narrow, proc_ack)
          (let (a', e) = feedback_total env _ a in
            ended a _ a' e (λ item. feedback-Kept env _ item a))
  ]

  proc_nack-Ends : (a : Arq) (offsets : List ℕ) (h r : ℕ) → Ends a (proc_nack env a offsets h r)
  unfolding proc_nack proc_not_loss_nack proc_has_loss_nack
  proc_nack-Ends a offsets h r = elim (Bool-cases (length offsets == 0)) [
    | inl empty ↦
        rw (empty, proc_nack)
          (let (a', e) = feedback_total env _ a in
            ended a _ a' e (λ item. feedback-Kept env _ item a))
    | inr some_lost ↦
        rw (some_lost, proc_nack)
          (let (a', e) = feedback_total env _ a in
            ended a _ a' e (λ item. feedback-Kept env _ item a))
  ]

  apply-Ends : (op : Op) (a : Arq) → Ends a (apply op a)
  unfolding apply
  apply-Ends (enter pack first ts) a =
      (_, refl, λ item. packet_entry_list-Kept env item a pack first ts)
  apply-Ends (ack bytes bitmap h t r) a = proc_ack-Ends bytes a bitmap h t r
  apply-Ends (nack offsets h r) a = proc_nack-Ends a offsets h r
  apply-Ends (tick cur) a =
      let (a', e) = check_rto_retran_total env a cur in
      ended a _ a' e (λ item. check_rto_retran-Kept env item a cur)
  apply-Ends pop_all a = (_, refl, λ item. pop_all_pack-Kept env item a)
  apply-Ends (set_s_loss loss dir) a =
      (_, refl, λ item. unfold adjust_s_win_current_loss_rate in refl)
  apply-Ends (set_r_loss loss dir) a =
      (_, refl, λ item. unfold adjust_r_win_current_loss_rate in refl)
  apply-Ends (set_retran_times times) a = (_, refl, λ item. unfold adjust_retran_times in refl)
  apply-Ends (set_rto rto rtt) a = (_, refl, λ item. unfold adjust_rto_timeout in refl)

  -- The operations end one after the other, and keep the account of every item.
  run-Ends :
      (ops : List Op) (a : Arq) → IsBalanced a → (a' : Arq) × (run ops a ≡ some a') × IsBalanced a'
  unfolding run
  run-Ends [] a b = (a, refl, b)
  run-Ends (op ∷ ops) a b =
      let (a', e, kept) = apply-Ends op a in
      let b' : IsBalanced a' = λ item. omega (arith, kept item, b item) in
      rw (e, run) (run-Ends ops a' b')

  -- From the constructor on, no sequence of operations hangs, loses a pool item or gives one back
  -- that is still in the list: every operation ends, and afterwards each item was handed out as
  -- often as it was given back and stands in the list together.
  pub run-gtp_arq-IsBalanced :
      (ops : List Op) (rto max_times boost_period r_loss : ℕ)
      → (a : Arq) × (run ops (gtp_arq rto max_times boost_period r_loss) ≡ some a) × IsBalanced a
  unfolding gtp_arq held given_back taken
  run-gtp_arq-IsBalanced ops rto max_times boost_period r_loss = run-Ends ops _ (λ item. refl)
