-- ===== src/Transport/Packets/Life.antt =====
-- Packets and the life of the transport.
use rawrtc_data_channel.Base.{
  ℕ, refl, List, Bool, true, false, not, Option, if◌then◌else◌, length, leb, Option-cases,
  Bool-cases, inl, inr,
}
use rawrtc_data_channel.Base.Code.{Code, success, invalid_state, is_error}
use rawrtc_data_channel.External.{Mbuf, left}
use rawrtc_data_channel.Checksum.{Crc, ChecksumFlags, header_size, with_checksum}
use rawrtc_data_channel.Transport.{Transport}
use rawrtc_data_channel.Transport.Packets.{
  Direction, dump_inbound, dump_outbound, trace_packet, sctp_packet_handler, hand_out,
  feed_verified, feed_inbound, verify_checksum,
}
use rawrtc_data_channel.Transport.Lifecycle.{
  Keeps, Keeps-refl, Keeps-trans, Keeps-same, if-Keeps, pair-Keeps,
}

triple-Keeps :
    {x : Transport} (d : Bool) (p r : Code × Mbuf × Transport)
    → Keeps x p.2
    → Keeps x r.2
    → Keeps x (if d then p else r).2
triple-Keeps true p r j k = j
triple-Keeps false p r j k = k

module _ (dump : ℕ → List ℕ → Direction → Option (List ℕ)) where
  trace-Keeps : (x : Transport) (p : List ℕ) (d : Direction) → Keeps x (trace_packet dump x p d)
  unfolding trace_packet
  trace-Keeps x p d =
      if-Keeps (not x.has_trace_handle) x _ (Keeps-refl x) (elim (Option-cases (dump x.clock p d)) [
        | inl e ↦ rw e (Keeps-same refl refl refl)
        | inr (text, e) ↦ rw e (Keeps-same refl refl refl)
      ])

  pub packet-Keeps :
      (crc : Crc) (flags : ChecksumFlags) (x : Transport) (p : List ℕ) (tos set_df : ℕ)
      → Keeps x (sctp_packet_handler dump crc flags x p tos set_df).1
  unfolding sctp_packet_handler
  packet-Keeps crc flags x p tos set_df = pair-Keeps x.is_detached _ _ (Keeps-refl x) (
      pair-Keeps (not flags.disable_outbound) _ _
        (pair-Keeps (leb header_size (length p)) _ _ (handed-Keeps (with_checksum p (crc.crc32c p)))
          (Keeps-refl x))
        (handed-Keeps p))
    where
      handed-Keeps : (q : List ℕ) → Keeps x (hand_out dump x q tos set_df).1
      handed-Keeps q = Keeps-trans (trace-Keeps x q dump_outbound) (Keeps-same refl refl refl)

  verified-Keeps :
      (x : Transport) (b : Mbuf) (ecn_bits : ℕ) (v : Code × List ℕ)
      → Keeps x (feed_verified dump x b ecn_bits v).2
  verified-Keeps x b ecn_bits (error, p) = elim (Bool-cases (is_error error)) [
    | inl e ↦ rw e (Keeps-refl x)
    | inr e ↦ rw e (Keeps-same refl refl refl)
  ]

  pub feed-Keeps :
      (crc : Crc) (flags : ChecksumFlags) (x : Transport) (b : Mbuf) (ecn_bits : ℕ)
      → Keeps x (feed_inbound dump crc flags x b ecn_bits).2
  unfolding feed_inbound
  feed-Keeps crc flags x b ecn_bits =
      let v =
        if not flags.disable_inbound then verify_checksum crc (left b) else (success, left b) in
      let y = trace_packet dump x (left b) dump_inbound in
      triple-Keeps x.is_detached (invalid_state, b, x) (feed_verified dump y b ecn_bits v)
        (Keeps-refl x)
        (Keeps-trans (trace-Keeps x (left b) dump_inbound) (verified-Keeps y b ecn_bits v))
