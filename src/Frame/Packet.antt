-- ===== src/Frame/Packet.antt =====
-- The packet of a frame: FramePrepHandlerWithSelfVer writes it, and PackPrepHandler and PackPostHandler
-- (src/session/goodtp_session.cpp), InnerCheckPacketInvalid and the reading of the stream key
-- (src/interface/goodtp_interface.cpp) read it. The numbers of a packet are little-endian, and the header
-- of bit fields, 10 bytes in memory, is a record. Log output is left out.
use udpfec.Base.{
  ℕ, zero, suc, ◌+◌, ◌-◌, ◌*◌, ◌/◌, ◌%◌, ◌^◌, List, [], ◌∷◌, ◌++◌, Bool, true, false, not, ◌&&◌,
  ◌||◌, ltb, leb, ◌==◌, if◌then◌else◌, drop, replicate, length, Option, none, some,
}
use Prim.Native.Nat.{bit_and}
use udpfec.Base.Bits.{word}

-- The header's fields, and the bytes behind it.
pub record GtpPacket : Type 0 where
  pub goodtp_ver : ℕ
  pub header_offset : ℕ
  pub cache_us_flag : Bool
  pub has_loss_flag : Bool
  pub pack_type : ℕ
  pub pack_size : ℕ
  pub pack_sn : ℕ
  pub has_check_flag : Bool
  pub has_ts_flag : Bool
  pub has_rtt_flag : Bool
  pub init_flag : Bool
  pub repeat_counter : ℕ
  pub is_qos_flg : Bool
  pub share_zone : ℕ
  pub has_chg_zone : Bool
  pub stream_type : ℕ
  pub payload : List ℕ

-- The members of a session that the sender's side reads or writes. Every session of the program has the
-- stream_type 0; the functions serve any.
pub record Sender : Type 0 where
  pub send_down_loss : ℕ
  pub measure_rtt_ts_us : ℕ
  pub last_active_ts_us : ℕ
  pub test_rtt_period_us : ℕ
  pub rtt_us : ℕ
  pub sort_sn : ℕ
  pub pack_sn : ℕ
  pub stream_type : ℕ
  pub qos : ℕ
  pub is_running : Bool

abbrev pub sizeof_packet : ℕ
sizeof_packet = 10

abbrev pub gtp_version : ℕ
gtp_version = 2

-- The bit pattern of the float -1.0, which stands for no loss to send.
abbrev pub no_loss : ℕ
no_loss = 3212836864

-- The `n` bytes that `memcpy` takes of a number.
unfoldable pub le_bytes : ℕ → ℕ → List ℕ
le_bytes zero x = []
le_bytes (suc n) x = (x % 256) ∷ le_bytes n (x / 256)

-- The position moves in front of some bytes and they are written there, if the field is present.
unfoldable pub prepend : Bool → List ℕ → List ℕ → List ℕ
prepend b bytes rest = if b then bytes ++ rest else rest

abbrev pub size_if : Bool → ℕ → ℕ
size_if b n = if b then n else 0

-- The padding that aligns the packet, with the frame at `frame_addr`, to 8 bytes.
unfoldable pub padding_of : ℕ → ℕ → ℕ
padding_of frame_addr hdr_size = bit_and ((frame_addr + 2 ^ 64 - hdr_size) % 2 ^ 64) 7

-- `above loss` is the test `-1.0 < loss`.
module _ (above : ℕ → Bool) where
  unfoldable pub calc_header_size : Sender → ℕ → ℕ → ℕ → ℕ
  calc_header_size s hash user_id resend_num =
      size_if (above s.send_down_loss) 4
      + size_if (leb s.measure_rtt_ts_us s.last_active_ts_us) 8
      + size_if (not (s.rtt_us == 0)) 4
      + size_if (not (user_id == 0) || not (hash == 0)) 8
      + size_if (ltb 0 resend_num) 4
      + size_if (leb 1 s.stream_type && resend_num == 0) 8
      + sizeof_packet

  -- `zone_us` and `now_us` are the times that GtpSysTimestampUs returns.
  unfoldable pub frame_prep : Sender → List ℕ → ℕ → ℕ → ℕ → ℕ → ℕ → ℕ → ℕ → GtpPacket × Sender
  unfolding calc_header_size padding_of prepend le_bytes
  frame_prep s frame frame_addr hash user_id first_pack_sn resend_num zone_us now_us =
      let has_chg = leb 1 s.stream_type && resend_num == 0 in
      let has_loss = above s.send_down_loss in
      let has_ts = leb s.measure_rtt_ts_us s.last_active_ts_us in
      let has_rtt = not (s.rtt_us == 0) in
      let has_check = not (user_id == 0) || not (hash == 0) in
      let resent = ltb 0 resend_num in
      let padding = padding_of frame_addr (calc_header_size s hash user_id resend_num) in
      let hdr_size =
        size_if has_chg 8
        + padding
        + size_if has_loss 4
        + size_if has_ts 8
        + size_if has_rtt 4
        + size_if has_check 8
        + size_if resent 4
        + sizeof_packet in
      let zone = prepend has_chg (le_bytes 4 s.sort_sn ++ le_bytes 4 (zone_us % 2 ^ 32)) frame in
      let loss = prepend has_loss (le_bytes 4 s.send_down_loss) (replicate padding 0 ++ zone) in
      let sent_us = if resend_num == 0 then s.last_active_ts_us else now_us in
      let ts = prepend has_ts (le_bytes 8 sent_us) loss in
      let rtt = prepend has_rtt (le_bytes 4 s.rtt_us) ts in
      let check = prepend has_check (le_bytes 4 hash ++ le_bytes 4 user_id) rtt in
      (
        record {
          goodtp_ver = gtp_version;
          header_offset = hdr_size % 64;
          cache_us_flag = false;
          has_loss_flag = has_loss;
          pack_type = 1;
          pack_size = (hdr_size + length frame) % 8192;
          pack_sn = s.pack_sn;
          has_check_flag = has_check;
          has_ts_flag = has_ts;
          has_rtt_flag = has_rtt;
          init_flag = not s.is_running;
          repeat_counter = resend_num % 8;
          is_qos_flg = true;
          share_zone = s.qos % 64;
          has_chg_zone = has_chg;
          stream_type = if leb 1 s.stream_type then 1 else 0;
          payload = prepend resent (le_bytes 4 first_pack_sn) check;
        },
        record s {
          send_down_loss = if has_loss then no_loss else s.send_down_loss;
          measure_rtt_ts_us =
              if has_ts
              then (s.last_active_ts_us + s.test_rtt_period_us) % 2 ^ 64
              else s.measure_rtt_ts_us;
          rtt_us = 0;
          sort_sn = if has_chg then (s.sort_sn + 1) % 2 ^ 32 else s.sort_sn;
          pack_sn = (s.pack_sn + 1) % 2 ^ 32;
        },
      )

pub data PackCheck : Type 0 where
  pack_valid : PackCheck
  unknown_pack_type : PackCheck
  pack_length_err : PackCheck
  unknown_gtp_ver : PackCheck
  pack_header_err : PackCheck

unfoldable pub calc_header_offset : GtpPacket → ℕ
calc_header_offset p =
    size_if p.has_loss_flag 4
    + size_if p.has_check_flag 8
    + size_if p.has_ts_flag 8
    + size_if p.has_rtt_flag 4
    + size_if (not (p.repeat_counter == 0)) 4
    + sizeof_packet

unfoldable pub check_packet : GtpPacket → ℕ → PackCheck
unfolding calc_header_offset
check_packet p size =
    if p.pack_type == 0 || leb 7 p.pack_type
    then unknown_pack_type
    else if ltb size sizeof_packet
        || (not (size == p.pack_size)
            || (ltb p.header_offset sizeof_packet || ltb size p.header_offset))
    then pack_length_err
    else if not (p.goodtp_ver == 2)
    then unknown_gtp_ver
    else if ltb p.header_offset (calc_header_offset p)
    then pack_header_err
    else pack_valid

-- The position moves behind a field of `n` bytes, if the field is present.
unfoldable pub skip : Bool → ℕ → List ℕ → List ℕ
skip b n bytes = if b then drop n bytes else bytes

-- The stream key of a packet that is not an FEC packet; 0 where there is none.
unfoldable pub embedded_key : GtpPacket → ℕ → ℕ
unfolding skip word
embedded_key p pack_sz =
    let resent = not (p.repeat_counter == 0) in
    let key = skip resent 4 p.payload in
    if p.has_check_flag && leb (sizeof_packet + size_if resent 4 + 8) pack_sz
    then word 4 key * 2 ^ 32 + word 4 (drop 4 key)
    else 0

-- What PackPostHandler takes out of a data packet.
pub record Fields : Type 0 where
  pub rtt_us : Option ℕ
  pub ts_us : Option ℕ
  pub send_loss : Option ℕ

unfoldable pub read_fields : GtpPacket → Fields
unfolding skip word
read_fields p =
    let check = skip (not (p.repeat_counter == 0)) 4 p.payload in
    let rtt = skip p.has_check_flag 8 check in
    let ts = skip p.has_rtt_flag 4 rtt in
    let loss = skip p.has_ts_flag 8 ts in
    record {
      rtt_us = if p.has_rtt_flag then some (word 4 rtt) else none;
      ts_us = if p.has_ts_flag then some (word 8 ts) else none;
      send_loss = if p.has_loss_flag then some (word 4 loss) else none;
    }

-- The bytes at `header_offset`, as PackPrepHandler takes them out.
unfoldable pub frame_of : GtpPacket → List ℕ
frame_of p = drop (p.header_offset - sizeof_packet) p.payload

-- The number by which PackPrepHandler recognises a repeated packet, for a session of a type of stream.
unfoldable pub first_sn_of : ℕ → GtpPacket → ℕ
unfolding word frame_of
first_sn_of stream_type p =
    if ltb stream_type 1 || (ltb p.goodtp_ver 2 || not p.has_chg_zone)
    then if p.goodtp_ver == 0
      then word 4 (frame_of p)
      else if p.repeat_counter == 0
      then p.pack_sn
      else word 4 p.payload
    else word 4 (frame_of p)
