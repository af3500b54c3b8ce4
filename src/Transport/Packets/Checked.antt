-- ===== src/Transport/Packets/Checked.antt =====
-- What passes the checksum: every packet that the handler stamps, and no other.
use rawrtc_data_channel.Base.{
  ℕ, ◌≡◌, refl, sym, ap, ◌∙◌, ◌≤◌, List, Bool, true, false, not, ◌||◌, Option, inl, inr,
  if◌then◌else◌, length, leb, arith, take-append-drop, Bool-cases,
}
use rawrtc_data_channel.Base.Code.{Code, success, invalid_state, invalid_message}
use rawrtc_data_channel.External.{Mbuf, left, AllBytes}
use rawrtc_data_channel.Checksum.{Crc, ChecksumFlags, header_size, checksum_of, with_checksum}
use rawrtc_data_channel.Checksum.Fields.{
  with_checksum-with_checksum, with_checksum-checksum_of, stamped, is_genuine, unstamped,
  stamped_genuine, AllBytes-with_checksum,
}
use rawrtc_data_channel.Transport.{Transport, outbound, fed, emit}
use rawrtc_data_channel.Transport.Packets.{
  hand_out, Direction, dump_inbound, dump_outbound, with_left, trace_packet, sctp_packet_handler,
  verify_checksum, feed_verified, feed_inbound,
}

zeroed : (p : List ℕ) → 12 ≤ length p → AllBytes p → checksum_of p ≡ 0 → with_checksum p 0 ≡ p
zeroed p h b z = ap (with_checksum p) (sym z) ∙ with_checksum-checksum_of p h b

restored :
    (p : List ℕ)
    → 12 ≤ length p
    → AllBytes p
    → with_checksum (with_checksum p 0) (checksum_of p) ≡ p
restored p h b =
    with_checksum-with_checksum p 0 (checksum_of p) (omega arith) ∙ with_checksum-checksum_of p h b

verify_checksum-eq :
    (crc : Crc) (p : List ℕ)
    → AllBytes p
    → verify_checksum crc p ≡ (if is_genuine crc p then success else invalid_message, p)
unfolding verify_checksum
verify_checksum-eq crc p b = elim (Bool-cases (leb 12 (length p))) [
  | inl e ↦ rw (e, restored p (ground arith) b) refl
  | inr e ↦ rw e refl
]

with_left-left : (b : Mbuf) → with_left b (left b) ≡ b
with_left-left b = ap (λ l. record b { buf = l }) (take-append-drop b.pos b.buf)

-- A packet with a checksum of 0 gets the checksum that it should have.
stamped_zero :
    (crc : Crc) (p : List ℕ)
    → 12 ≤ length p
    → AllBytes p
    → checksum_of p ≡ 0
    → with_checksum p (crc.crc32c p) ≡ stamped crc p
stamped_zero crc p h b z = ap (λ q. with_checksum p (crc.crc32c q)) (sym (zeroed p h b z))

module _ (dump : ℕ → List ℕ → Direction → Option (List ℕ)) where
  verified :
      (x : Transport) (b : Mbuf) (ecn_bits : ℕ) (good : Bool)
      → feed_verified dump x b ecn_bits (if good then success else invalid_message, left b)
        ≡ (if good then (success, b, emit (fed (left b) ecn_bits) x) else (invalid_message, b, x))
  verified x b ecn_bits true = rw (with_left-left b) refl
  verified x b ecn_bits false = rw (with_left-left b) refl

  by_flags :
      (d f good : Bool) (x y : Transport) (b : Mbuf) (ecn_bits : ℕ)
      → (if d
          then (invalid_state, b, x)
          else feed_verified dump y b ecn_bits (
              if not f
              then (if good then success else invalid_message, left b)
              else (success, left b)))
        ≡ (if d
            then (invalid_state, b, x)
            else if f || good
            then (success, b, emit (fed (left b) ecn_bits) y)
            else (invalid_message, b, y))
  by_flags true f good x y b ecn_bits = refl
  by_flags false true good x y b ecn_bits = verified y b ecn_bits true
  by_flags false false good x y b ecn_bits = verified y b ecn_bits good

  pub accepted :
      (d f good : Bool) {r a : Code × Mbuf × Transport} (c c2 : Code × Mbuf × Transport)
      → d ≡ false
      → good ≡ true
      → r ≡ (if d then c else if f || good then a else c2)
      → r ≡ a
  accepted true f good c c2 p q e = absurd (cc)
  accepted false f false c c2 p q e = absurd (cc)
  accepted false true true c c2 p q e = e
  accepted false false true c c2 p q e = e

  -- Feeding a packet leaves its memory as it was. On a detached transport it returns
  -- `invalid_state` and does nothing. Otherwise the packet is traced, and it is fed to usrsctp when
  -- the verification is disabled or the packet is genuine; if not, the code is `invalid_message`
  -- and nothing is fed.
  pub feed_inbound_verdict :
      (crc : Crc) (flags : ChecksumFlags) (x : Transport) (b : Mbuf) (ecn_bits : ℕ)
      → AllBytes (left b)
      → feed_inbound dump crc flags x b ecn_bits ≡ (
          if x.is_detached
          then (invalid_state, b, x)
          else if flags.disable_inbound || is_genuine crc (left b)
          then (
            success,
            b,
            emit (fed (left b) ecn_bits) (trace_packet dump x (left b) dump_inbound),
          )
          else (invalid_message, b, trace_packet dump x (left b) dump_inbound))
  unfolding feed_inbound
  feed_inbound_verdict crc flags x b ecn_bits h = rw (verify_checksum-eq crc (left b) h) (
      by_flags x.is_detached flags.disable_inbound (is_genuine crc (left b)) x
        (trace_packet dump x (left b) dump_inbound) b ecn_bits)

  handed_out :
      (d off : Bool) (x : Transport) (p s : List ℕ) (tos set_df : ℕ)
      → d ≡ false
      → off ≡ false
      → leb 12 (length p) ≡ true
      → (if d
          then (p, x)
          else if not off
          then if leb header_size (length p) then hand_out dump x s tos set_df else (p, x)
          else hand_out dump x p tos set_df)
        ≡ hand_out dump x s tos set_df
  handed_out true off x p s tos set_df e f h = absurd (cc)
  handed_out false true x p s tos set_df e f h = absurd (cc)
  handed_out false false x p s tos set_df e f h = rw h refl

  -- A packet of usrsctp, which has a header with a checksum of 0, reaches the peer: when the
  -- checksum of outbound packets is enabled and the transport is not detached, the outbound handler
  -- gets the packet with nothing but its checksum changed, and a transport that is not detached
  -- accepts these bytes and feeds them to usrsctp, whether or not it verifies the checksum.
  pub packet_round_trip :
      (crc : Crc) (mine theirs : ChecksumFlags) (x y : Transport) (p : List ℕ)
      (tos set_df ecn_bits : ℕ)
      → 12 ≤ length p
      → AllBytes p
      → checksum_of p ≡ 0
      → mine.disable_outbound ≡ false
      → x.is_detached ≡ false
      → y.is_detached ≡ false
      → ((s : List ℕ) × (with_checksum s 0 ≡ p)
          × (sctp_packet_handler dump crc mine x p tos set_df
              ≡ (s, emit (outbound s tos set_df) (trace_packet dump x s dump_outbound)))
          × (feed_inbound dump crc theirs y (record { buf = s; pos = 0 }) ecn_bits ≡ (
            success,
            record { buf = s; pos = 0 },
            emit (fed s ecn_bits) (trace_packet dump y s dump_inbound),
          )))
  unfolding sctp_packet_handler
  packet_round_trip crc mine theirs x y p tos set_df ecn_bits h b z out dx dy =
      let s : List ℕ = stamped crc p in
      let long : leb 12 (length p) ≡ true = ground arith in
      (
        s,
        unstamped crc p h ∙ zeroed p h b z,
        rw (stamped_zero crc p h b z)
            (handed_out x.is_detached mine.disable_outbound x p s tos set_df dx out long),
        accepted y.is_detached theirs.disable_inbound (is_genuine crc s)
            (invalid_state, record { buf = s; pos = 0 }, y)
            (invalid_message, record { buf = s; pos = 0 }, trace_packet dump y s dump_inbound) dy
            (stamped_genuine crc p h)
            (feed_inbound_verdict crc theirs y (record { buf = s; pos = 0 }) ecn_bits
              (AllBytes-with_checksum p (crc.crc32c (with_checksum p 0)) b)),
      )
