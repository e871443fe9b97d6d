-- ===== src/Frame/Sent.antt =====
-- The layout of a packet that FramePrepHandlerWithSelfVer (src/session/goodtp_session.cpp) writes, and each
-- of its readers on it.
use udpfec.Base.{
  ℕ, ◌+◌, ◌-◌, ◌*◌, ◌%◌, ◌^◌, ◌<◌, ◌≤◌, ◌≡◌, refl, ap, ◌∙◌, List, ◌++◌, Bool, true, false, not,
  ◌&&◌, ◌||◌, ltb, leb, ◌==◌, if◌then◌else◌, length, length-append, replicate, le→leb,
  length-replicate, drop, some, none, arith, inl, inr, Bool-cases,
}
use udpfec.Base.Bits.{word}
use udpfec.Base.Masks.{bit_and-mask}
use udpfec.Frame.Packet.{
  GtpPacket, Sender, size_if, le_bytes, prepend, skip, calc_header_size, padding_of, frame_prep,
  pack_valid, calc_header_offset, check_packet, embedded_key, read_fields, frame_of, first_sn_of,
}
use udpfec.Frame.Bytes.{
  length-le_bytes, word-le_bytes, drop-append, skip-prepend, length-prepend, drop-prepend,
  drop-drop, read-prepend, read_pair-prepend,
}
use udpfec.Frame.Sendable.{IsSendable, not_ltb, size_if-le, one_of}

module _ (above : ℕ → Bool) (s : Sender) (frame : List ℕ)
    (frame_addr hash user_id first_pack_sn resend_num zone_us now_us : ℕ)
    (ok : IsSendable s frame hash user_id first_pack_sn resend_num now_us) where
  abbrev pub has_chg : Bool
  has_chg = leb 1 s.stream_type && resend_num == 0

  abbrev pub has_check : Bool
  has_check = not (user_id == 0) || not (hash == 0)

  abbrev pub has_ts : Bool
  has_ts = leb s.measure_rtt_ts_us s.last_active_ts_us

  abbrev pub has_rtt : Bool
  has_rtt = not (s.rtt_us == 0)

  abbrev pub padding : ℕ
  padding = padding_of frame_addr (calc_header_size above s hash user_id resend_num)

  abbrev pub hdr_size : ℕ
  hdr_size =
      size_if has_chg 8
      + padding
      + size_if (above s.send_down_loss) 4
      + size_if has_ts 8
      + size_if has_rtt 4
      + size_if has_check 8
      + size_if (ltb 0 resend_num) 4
      + 10

  abbrev pub sent : GtpPacket
  sent =
      (frame_prep above s frame frame_addr hash user_id first_pack_sn resend_num zone_us now_us).0

  padding_small : padding ≤ 7
  unfolding padding_of
  padding_small =
      let low =
        bit_and-mask 3
          ((frame_addr + 2 ^ 64 - calc_header_size above s hash user_id resend_num) % 2 ^ 64) in
      omega (arith, low)

  resent_flag : not (resend_num % 8 == 0) ≡ ltb 0 resend_num
  resent_flag = ground (arith, ok.few_resends)

  -- The header fits into the 6 bits of its offset.
  hdr_size-le : hdr_size ≤ 49
  hdr_size-le = omega (
    arith,
    padding_small,
    size_if-le (above s.send_down_loss) 4,
    size_if-le has_ts 8,
    size_if-le has_rtt 4,
    size_if-le has_check 8,
    one_of (leb 1 s.stream_type) resend_num,
  )

  -- The fields behind the header, from the frame on.
  abbrev pub zone : List ℕ
  zone = prepend has_chg (le_bytes 4 s.sort_sn ++ le_bytes 4 (zone_us % 2 ^ 32)) frame

  abbrev pub loss : List ℕ
  loss =
      prepend (above s.send_down_loss) (le_bytes 4 s.send_down_loss) (replicate padding 0 ++ zone)

  abbrev pub sent_us : ℕ
  sent_us = if resend_num == 0 then s.last_active_ts_us else now_us

  abbrev pub ts : List ℕ
  ts = prepend has_ts (le_bytes 8 sent_us) loss

  abbrev pub rtt : List ℕ
  rtt = prepend has_rtt (le_bytes 4 s.rtt_us) ts

  abbrev pub check : List ℕ
  check = prepend has_check (le_bytes 4 hash ++ le_bytes 4 user_id) rtt

  abbrev pub bytes : List ℕ
  bytes = prepend (ltb 0 resend_num) (le_bytes 4 first_pack_sn) check

  pair : (x y : ℕ) → length (le_bytes 4 x ++ le_bytes 4 y) ≡ 8
  pair x y =
      length-append {0} (le_bytes 4 x) (le_bytes 4 y)
      ∙ omega (arith, length-le_bytes 4 x, length-le_bytes 4 y)

  length-bytes : 10 + length bytes ≡ hdr_size + length frame
  length-bytes = omega (
    arith,
    length-prepend (ltb 0 resend_num) 4 (le_bytes 4 first_pack_sn) check
        (length-le_bytes 4 first_pack_sn),
    length-prepend has_check 8 (le_bytes 4 hash ++ le_bytes 4 user_id) rtt (pair hash user_id),
    length-prepend has_rtt 4 (le_bytes 4 s.rtt_us) ts (length-le_bytes 4 s.rtt_us),
    length-prepend has_ts 8 (le_bytes 8 sent_us) loss (length-le_bytes 8 sent_us),
    length-prepend (above s.send_down_loss) 4 (le_bytes 4 s.send_down_loss)
        (replicate padding 0 ++ zone) (length-le_bytes 4 s.send_down_loss),
    length-append {0} (replicate padding 0) zone,
    length-replicate {A = ℕ} padding 0,
    length-prepend has_chg 8 (le_bytes 4 s.sort_sn ++ le_bytes 4 (zone_us % 2 ^ 32)) frame
        (pair s.sort_sn (zone_us % 2 ^ 32)),
  )

  behind_bytes : drop (hdr_size - 10) bytes ≡ frame
  behind_bytes =
      let rest = size_if has_chg 8 + 0 in
      let loss_on = size_if (above s.send_down_loss) 4 + (padding + rest) in
      let ts_on = size_if has_ts 8 + loss_on in
      let rtt_on = size_if has_rtt 4 + ts_on in
      let check_on = size_if has_check 8 + rtt_on in
      let order : hdr_size - 10 ≡ size_if (ltb 0 resend_num) 4 + check_on = omega arith in
      ap (λ t. drop t bytes) order
      ∙ drop-prepend (ltb 0 resend_num) 4 check_on (le_bytes 4 first_pack_sn) check
          (length-le_bytes 4 first_pack_sn)
      ∙ drop-prepend has_check 8 rtt_on (le_bytes 4 hash ++ le_bytes 4 user_id) rtt
          (pair hash user_id)
      ∙ drop-prepend has_rtt 4 ts_on (le_bytes 4 s.rtt_us) ts (length-le_bytes 4 s.rtt_us)
      ∙ drop-prepend has_ts 8 loss_on (le_bytes 8 sent_us) loss (length-le_bytes 8 sent_us)
      ∙ drop-prepend (above s.send_down_loss) 4 (padding + rest) (le_bytes 4 s.send_down_loss)
          (replicate padding 0 ++ zone) (length-le_bytes 4 s.send_down_loss)
      ∙ drop-drop padding rest (replicate padding 0 ++ zone)
      ∙ ap (drop rest)
          (drop-append padding (replicate padding 0) zone (length-replicate {A = ℕ} padding 0))
      ∙ drop-prepend has_chg 8 0 (le_bytes 4 s.sort_sn ++ le_bytes 4 (zone_us % 2 ^ 32)) frame
          (pair s.sort_sn (zone_us % 2 ^ 32))

  pub sent-frame_of : frame_of sent ≡ frame
  unfolding frame_of frame_prep
  sent-frame_of =
      let whole : hdr_size % 64 - 10 ≡ hdr_size - 10 = omega (arith, hdr_size-le) in
      ap (λ t. drop t bytes) whole ∙ behind_bytes

  sent-header_offset : calc_header_offset sent ≤ hdr_size
  unfolding calc_header_offset frame_prep
  sent-header_offset = omega (arith, ap (λ t. size_if t 4) resent_flag)

  pub sent-check_packet : check_packet sent (10 + length bytes) ≡ pack_valid
  unfolding check_packet frame_prep
  sent-check_packet =
      let short = hdr_size-le in
      let total : (hdr_size + length frame) % 8192 ≡ 10 + length bytes =
        omega (arith, length-bytes, hdr_size-le, ok.fits) in
      let a : ltb (10 + length bytes) 10 ≡ false = ground arith in
      let b : (10 + length bytes == (hdr_size + length frame) % 8192) ≡ true =
        ground (arith, total) in
      let whole : hdr_size % 64 ≡ hdr_size = omega (arith, short) in
      let c = not_ltb (hdr_size % 64) 10 (omega (arith, whole)) in
      let d = not_ltb (10 + length bytes) (hdr_size % 64) (omega (arith, whole, length-bytes)) in
      let e =
        not_ltb (hdr_size % 64) (calc_header_offset sent)
          (omega (arith, whole, sent-header_offset)) in
      rw (a, b, c, d, e) refl

  sent_us-lt : sent_us < 2 ^ 64
  sent_us-lt = elim (Bool-cases (resend_num == 0)) [
    | inl first ↦ rw first ok.ts_word
    | inr again ↦ rw again ok.now_word
  ]

  at_check : skip (not (resend_num % 8 == 0)) 4 bytes ≡ check
  at_check =
      ap (λ t. skip t 4 bytes) resent_flag
      ∙ skip-prepend (ltb 0 resend_num) 4 (le_bytes 4 first_pack_sn) check
          (length-le_bytes 4 first_pack_sn)

  pub sent-read_fields : read_fields sent ≡ record {
    rtt_us = if has_rtt then some s.rtt_us else none;
    ts_us = if has_ts then some sent_us else none;
    send_loss = if above s.send_down_loss then some s.send_down_loss else none;
  }
  unfolding read_fields frame_prep
  sent-read_fields =
      let at_rtt : skip has_check 8 (skip (not (resend_num % 8 == 0)) 4 bytes) ≡ rtt =
        ap (skip has_check 8) at_check
        ∙ skip-prepend has_check 8 (le_bytes 4 hash ++ le_bytes 4 user_id) rtt
            (pair hash user_id) in
      let at_ts : skip has_rtt 4 (skip has_check 8 (skip (not (resend_num % 8 == 0)) 4 bytes))
          ≡ ts =
        ap (skip has_rtt 4) at_rtt
        ∙ skip-prepend has_rtt 4 (le_bytes 4 s.rtt_us) ts (length-le_bytes 4 s.rtt_us) in
      let at_loss =
        ap (skip has_ts 8) at_ts
        ∙ skip-prepend has_ts 8 (le_bytes 8 sent_us) loss (length-le_bytes 8 sent_us) in
      let rtt_read =
        ap (λ t. if has_rtt then some (word 4 t) else none) at_rtt
        ∙ read-prepend has_rtt 4 s.rtt_us ts ok.rtt_word in
      let ts_read =
        ap (λ t. if has_ts then some (word 8 t) else none) at_ts
        ∙ read-prepend has_ts 8 sent_us loss sent_us-lt in
      let loss_read =
        ap (λ t. if above s.send_down_loss then some (word 4 t) else none) at_loss
        ∙ read-prepend (above s.send_down_loss) 4 s.send_down_loss (replicate padding 0 ++ zone)
            ok.loss_word in
      λ i. record { rtt_us = rtt_read i; ts_us = ts_read i; send_loss = loss_read i }

  key_fits :
      has_check ≡ true
      → leb (10 + size_if (not (resend_num % 8 == 0)) 4 + 8) (10 + length bytes) ≡ true
  key_fits present =
      let outer =
        length-prepend (ltb 0 resend_num) 4 (le_bytes 4 first_pack_sn) check
          (length-le_bytes 4 first_pack_sn) in
      let inner =
        length-prepend has_check 8 (le_bytes 4 hash ++ le_bytes 4 user_id) rtt
          (pair hash user_id) in
      let eight : size_if has_check 8 ≡ 8 = ap (λ t. size_if t 8) present in
      let four = ap (λ t. size_if t 4) resent_flag in
      le→leb _ _ (omega (arith, outer, inner, eight, four))

  no_key : has_check ≡ false → hash * 2 ^ 32 + user_id ≡ 0
  no_key absent = ground (arith, absent)

  pub sent-embedded_key : embedded_key sent (10 + length bytes) ≡ hash * 2 ^ 32 + user_id
  unfolding embedded_key frame_prep
  sent-embedded_key =
      let room = 10 + size_if (not (resend_num % 8 == 0)) 4 + 8 in
      let size = 10 + length bytes in
      ap (λ t. if has_check && leb room size then word 4 t * 2 ^ 32 + word 4 (drop 4 t) else 0)
        at_check
      ∙ read_pair-prepend has_check (leb room size) hash user_id rtt ok.hash_word ok.user_word
          key_fits no_key

  pub sent-first_sn_of : first_sn_of 0 sent ≡ (if resend_num == 0 then s.pack_sn else first_pack_sn)
  unfolding first_sn_of frame_prep
  sent-first_sn_of = elim (Bool-cases (resend_num == 0)) [
    | inl new ↦
        let never : (resend_num % 8 == 0) ≡ true = ground (arith, new) in rw (new, never) refl
    | inr again ↦
        let counted : (resend_num % 8 == 0) ≡ false = ground (arith, again, ok.few_resends) in
        let resent : ltb 0 resend_num ≡ true = ground (arith, again) in
        rw (again, counted, resent) (word-le_bytes 4 first_pack_sn check ok.first_word)
  ]
