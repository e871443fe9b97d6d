-- ===== src/Frame/Tests.antt =====
-- Packets of frames (src/session/goodtp_session.cpp) at concrete values.
use udpfec.Base.{
  ℕ, ◌+◌, ◌*◌, ◌^◌, ◌<◌, ◌≡◌, refl, List, [], ◌∷◌, Bool, true, not, ltb, leb, ◌==◌, if◌then◌else◌,
  length, some, none, arith,
}
use udpfec.Frame.Packet.{
  Sender, frame_prep, pack_valid, check_packet, frame_of, read_fields, embedded_key, first_sn_of,
}
use udpfec.Frame.Sendable.{IsSendable}
use udpfec.Frame.RoundTrip.{frame_prep-read}

-- The floats above -1.0 among the patterns used here: a clear sign, or a magnitude below that of 1.0.
abbrev above_minus_one : ℕ → Bool
above_minus_one pattern = ltb pattern 3212836864

-- A sender with everything to send: a loss of 5.0, a time and a round-trip time.
abbrev busy_sender : Sender
busy_sender = record {
  send_down_loss = 1084227584;
  measure_rtt_ts_us = 1000;
  last_active_ts_us = 5000;
  test_rtt_period_us = 100;
  rtt_us = 30000;
  sort_sn = 77;
  pack_sn = 4294967295;
  stream_type = 0;
  qos = 1;
  is_running = true;
}

abbrev some_frame : List ℕ
some_frame = 1 ∷ 2 ∷ 3 ∷ 4 ∷ 5 ∷ []

header_test :
    ((frame_prep above_minus_one busy_sender some_frame 4096 9 8 6 2 70 80).0).header_offset ≡ 40
unfolding frame_prep
header_test = refl

sendable : (resend_num : ℕ) → resend_num < 8 → IsSendable busy_sender some_frame 9 8 6 resend_num 80
sendable resend_num few = record {
  loss_word = omega arith;
  rtt_word = omega arith;
  ts_word = omega arith;
  hash_word = omega arith;
  user_word = omega arith;
  first_word = omega arith;
  few_resends = few;
  now_word = omega arith;
  fits = omega arith;
}

frame_prep-read_example :
    let p = (frame_prep above_minus_one busy_sender some_frame 4096 9 8 6 2 70 80).0 in
    let size = 10 + length p.payload in
    (check_packet p size ≡ pack_valid)
    × (frame_of p ≡ some_frame)
    × (read_fields p ≡ record {
      rtt_us = if not (30000 == 0) then some 30000 else none;
      ts_us = if leb 1000 5000 then some (if 2 == 0 then 5000 else 80) else none;
      send_loss = if above_minus_one 1084227584 then some 1084227584 else none;
    })
    × (embedded_key p size ≡ 9 * 2 ^ 32 + 8)
    × (first_sn_of 0 p ≡ (if 2 == 0 then 4294967295 else 6))
frame_prep-read_example =
    frame_prep-read above_minus_one busy_sender some_frame 4096 9 8 6 2 70 80
      (sendable 2 (omega arith))
