-- ===== src/Arq/BoostOwnership.antt =====
-- The pool items where boost nodes are made: `CloneBoostNode`, `PacketEntryList` and packets given
-- up.
use udpfec.Base.{
  ℕ, ◌+◌, ◌≡◌, refl, ap, ◌∙◌, List, [], ◌∷◌, ◌++◌, ◌||◌, not, Option, none, some, arith, ◌==◌, inl,
  inr, Bool-cases,
}
use udpfec.Arq.Types.{
  ArqNode, Arq, Env, Packet, item_malloced, tran_buf_malloced, packet_copied, tran_addr_copied,
  tran_buf_use_ref_added,
}
use udpfec.Arq.Retransmit.{pack_retransmit, push_pack, call}
use udpfec.Arq.Boost.{
  clone_boost_node, clone_with, clone_into, boost_node, tran_failed_post_handler, gives_up,
  send_again, start_over, raise_threshold,
}
use udpfec.Arq.Entry.{packet_entry_list, entry_with, entry_node, clone_last}
use udpfec.Arq.Ownership.{
  held, given_back, taken, one_if, Kept, held-append, held_one, held_nil, pack_retransmit_items,
}

module _ (env : Env) (item : ℕ) where
  pub push_pack-Kept :
      (a : Arq) (n : ArqNode)
      → let a' = push_pack a n in
        (held item a'.arq_list ≡ held item a.arq_list + one_if (n.address == item))
        × (given_back item a'.calls ≡ given_back item a.calls)
        × (taken item a'.calls ≡ taken item a.calls)
  unfolding push_pack
  push_pack-Kept a n =
      (omega (arith, held-append item a.arq_list (n ∷ []), held_one item n), refl, refl)

  -- A boost node stands in an item that the pool has just handed out.
  clone_into-Kept :
      (a : Arq) (org : ArqNode) (ts mem addr : ℕ) (got : Option ℕ)
      → let (a', org') = clone_into env (call a (item_malloced got)) org ts mem addr got in
        Kept item a.arq_list a.calls a'.arq_list a'.calls × (org'.address ≡ org.address)
  unfolding clone_into push_pack boost_node given_back taken
  clone_into-Kept a org ts mem addr none = (refl, refl)
  clone_into-Kept a org ts mem addr (some i) =
      let calls =
        tran_addr_copied addr org.tran_addr
        ∷ packet_copied mem org.pack org.pack_len
        ∷ item_malloced (some i)
        ∷ a.calls in
      let new = boost_node env calls org i mem addr ts in
      (omega (arith, held-append item a.arq_list (new ∷ []), held_one item new), refl)

  clone_with-Kept :
      (a : Arq) (org : ArqNode) (ts : ℕ) (got : Option (ℕ × ℕ))
      → let (a', org') = clone_with env a org ts got in
        Kept item a.arq_list a.calls a'.arq_list a'.calls × (org'.address ≡ org.address)
  unfolding clone_with
  clone_with-Kept a org ts none = (refl, refl)
  clone_with-Kept a org ts (some (mem, addr)) =
      clone_into-Kept a org ts mem addr (env.malloc_item a.calls)

  pub clone_boost_node-Kept :
      (a : Arq) (org : ArqNode) (ts : ℕ)
      → let (a', org') = clone_boost_node env a org ts in
        Kept item a.arq_list a.calls a'.arq_list a'.calls × (org'.address ≡ org.address)
  unfolding clone_boost_node given_back taken
  clone_boost_node-Kept a org ts =
      let got = env.malloc_tran_buf a.calls org.pack_len in
      clone_with-Kept (call a (tran_buf_malloced org.pack_len got)) org ts got

  raise_threshold_address : (n : ArqNode) → (raise_threshold n).address ≡ n.address
  unfolding raise_threshold
  raise_threshold_address n = ground arith

  -- Each of these handles a node that was taken out of the list, beside the list `a.arq_list`.
  send_again-Kept :
      (a : Arq) (n : ArqNode) (cur : ℕ)
      → let a' = send_again env a n cur in Kept item (n ∷ a.arq_list) a.calls a'.arq_list a'.calls
  unfolding send_again held
  send_again-Kept a n cur =
      let sent = pack_retransmit env a.calls (start_over n) n.tran_addr cur in
      let moved = pack_retransmit_items env item a.calls (start_over n) n.tran_addr cur in
      let b = record a { calls = sent.calls } in
      let cloned = clone_boost_node env b (raise_threshold sent.node) cur in
      let c = clone_boost_node-Kept b (raise_threshold sent.node) cur in
      let address : cloned.1.address ≡ n.address =
        c.1 ∙ raise_threshold_address sent.node ∙ moved.0 ∙ (unfold start_over in refl) in
      let pushed = push_pack-Kept cloned.0 cloned.1 in
      omega (
        arith,
        pushed.0,
        pushed.1,
        pushed.2,
        ap (λ t. one_if (t == item)) address,
        c.0,
        moved.1,
        moved.2,
      )

  pub tran_failed-Kept :
      (a : Arq) (n : ArqNode) (cur : ℕ)
      → let a' = tran_failed_post_handler env a n cur in
        Kept item (n ∷ a.arq_list) a.calls a'.arq_list a'.calls
  unfolding tran_failed_post_handler held given_back taken
  tran_failed-Kept a n cur = elim (Bool-cases (gives_up env n)) [
    | inl up ↦ rw up (omega arith)
    | inr again ↦ rw again (send_again-Kept a n cur)
  ]

  clone_last-Kept :
      (before : List ArqNode) (a : Arq) (n : ArqNode) (ts : ℕ)
      → let a' = clone_last env before a n ts in
        Kept item (before ++ (n ∷ [])) a.calls a'.arq_list a'.calls
  unfolding clone_last
  clone_last-Kept before a n ts =
      let alone = record a { arq_list = [] } in
      let (a', n') = clone_boost_node env alone n ts in
      let (kept, address) = clone_boost_node-Kept alone n ts in
      omega (
        arith,
        kept,
        ap (λ t. one_if (t == item)) address,
        held-append item before (n ∷ []),
        held-append item before (n' ∷ a'.arq_list),
        held-append item (n' ∷ []) a'.arq_list,
        held_one item n,
        held_one item n',
        held_nil item,
      )

  entry_with-Kept :
      (a : Arq) (got : Option ℕ) (pack : Packet) (first_pack_sn ts_us : ℕ)
      → let a' = (entry_with env (call a (item_malloced got)) got pack first_pack_sn ts_us).1 in
        Kept item a.arq_list a.calls a'.arq_list a'.calls
  unfolding entry_with given_back taken
  entry_with-Kept a none pack first_pack_sn ts_us = refl
  entry_with-Kept a (some i) pack first_pack_sn ts_us =
      let b = call a (item_malloced (some i)) in
      let n = entry_node env b i pack first_pack_sn ts_us in
      let pushed = call (push_pack b n) (tran_buf_use_ref_added pack.address) in
      let plain = push_pack-Kept b n in
      let cloned = clone_last-Kept b.arq_list pushed n ts_us in
      let same : n.address ≡ i = unfold entry_node in refl in
      let here = ap (λ t. one_if (t == item)) same in
      elim (Bool-cases (not a.boost_switch || a.max_boost_times == 0)) [
        | inl off ↦ rw off (omega arith)
        | inr on ↦ rw on (omega (arith, held-append item a.arq_list (n ∷ []), held_one item n))
      ]

  -- Entering a packet keeps the account of every item.
  pub packet_entry_list-Kept :
      (a : Arq) (pack : Packet) (first_pack_sn ts_us : ℕ)
      → let a' = (packet_entry_list env a pack first_pack_sn ts_us).1 in
        Kept item a.arq_list a.calls a'.arq_list a'.calls
  unfolding packet_entry_list
  packet_entry_list-Kept a pack first_pack_sn ts_us =
      entry_with-Kept a (env.malloc_item a.calls) pack first_pack_sn ts_us
