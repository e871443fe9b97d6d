-- ===== src/Frame/Sendable.antt =====
-- What a packet may be made of (src/session/goodtp_session.cpp), and facts about the sizes of its fields.
use udpfec.Base.{
  ℕ, ◌+◌, ◌^◌, ◌<◌, ◌≤◌, ◌≡◌, List, Bool, true, false, ◌&&◌, ltb, ◌==◌, length, arith,
}
use udpfec.Frame.Packet.{Sender, size_if}

-- What a caller may ask for: the members are words, a packet is resent at most 7 times, as
-- PackRetransmit limits it, and the frame fits into a packet.
pub record IsSendable (s : Sender) (frame : List ℕ)
    (hash user_id first_pack_sn resend_num now_us : ℕ) : Type 0 where
  pub loss_word : s.send_down_loss < 2 ^ 32
  pub rtt_word : s.rtt_us < 2 ^ 32
  pub ts_word : s.last_active_ts_us < 2 ^ 64
  pub hash_word : hash < 2 ^ 32
  pub user_word : user_id < 2 ^ 32
  pub first_word : first_pack_sn < 2 ^ 32
  pub few_resends : resend_num < 8
  pub now_word : now_us < 2 ^ 64
  pub fits : length frame ≤ 8142

pub not_ltb : (a b : ℕ) → b ≤ a → ltb a b ≡ false
not_ltb a b h = ground arith

pub size_if-le : (b : Bool) (n : ℕ) → size_if b n ≤ n
size_if-le true n = omega arith
size_if-le false n = omega arith

pub one_of : (b : Bool) (n : ℕ) → size_if (b && n == 0) 8 + size_if (ltb 0 n) 4 ≤ 8
one_of b n = ground arith
