-- ===== src/Frame/RoundTrip.antt =====
-- A packet that FramePrepHandlerWithSelfVer (src/session/goodtp_session.cpp) writes, as its receiver
-- reads it.
use udpfec.Base.{
  ℕ, ◌+◌, ◌*◌, ◌^◌, ◌≡◌, List, Bool, not, leb, ◌==◌, if◌then◌else◌, length, some, none,
}
use udpfec.Frame.Packet.{
  Sender, frame_prep, pack_valid, check_packet, embedded_key, read_fields, frame_of, first_sn_of,
}
use udpfec.Frame.Sendable.{IsSendable}
use udpfec.Frame.Sent.{
  sent-check_packet, sent-frame_of, sent-read_fields, sent-embedded_key, sent-first_sn_of,
}

-- A packet that a sender makes of a frame is valid for its receiver, at its size, and holds the frame. The
-- receiver reads the round-trip time, the time and the loss exactly where the sender had them to send, the
-- stream key of both words, and in a real-time stream the number of the packet that was sent first.
pub frame_prep-read :
    (above : ℕ → Bool) (s : Sender) (frame : List ℕ)
    (frame_addr hash user_id first_pack_sn resend_num zone_us now_us : ℕ)
    → IsSendable s frame hash user_id first_pack_sn resend_num now_us
    → let p =
        (frame_prep above s frame frame_addr hash user_id first_pack_sn resend_num zone_us
          now_us).0 in
      let size = 10 + length p.payload in
      (check_packet p size ≡ pack_valid)
      × (frame_of p ≡ frame)
      × (read_fields p ≡ record {
        rtt_us = if not (s.rtt_us == 0) then some s.rtt_us else none;
        ts_us =
            if leb s.measure_rtt_ts_us s.last_active_ts_us
            then some (if resend_num == 0 then s.last_active_ts_us else now_us)
            else none;
        send_loss = if above s.send_down_loss then some s.send_down_loss else none;
      })
      × (embedded_key p size ≡ hash * 2 ^ 32 + user_id)
      × (first_sn_of 0 p ≡ (if resend_num == 0 then s.pack_sn else first_pack_sn))
unfolding frame_prep
frame_prep-read above s frame frame_addr hash user_id first_pack_sn resend_num zone_us now_us ok = (
  sent-check_packet above s frame frame_addr hash user_id first_pack_sn resend_num zone_us now_us
      ok,
  sent-frame_of above s frame frame_addr hash user_id first_pack_sn resend_num zone_us now_us ok,
  sent-read_fields above s frame frame_addr hash user_id first_pack_sn resend_num zone_us now_us ok,
  sent-embedded_key above s frame frame_addr hash user_id first_pack_sn resend_num zone_us now_us
      ok,
  sent-first_sn_of above s frame frame_addr hash user_id first_pack_sn resend_num zone_us now_us ok,
)
