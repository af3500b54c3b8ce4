-- ===== src/Transport/Packets/Registry.antt =====
-- Packets change nothing of the registry of channels.
use rawrtc_data_channel.Base.{
  ℕ, refl, List, Bool, true, false, not, Option, if◌then◌else◌, length, leb, Bool-cases,
  Option-cases, inl, inr,
}
use rawrtc_data_channel.Base.Code.{Code, success, invalid_state, is_error}
use rawrtc_data_channel.External.{Mbuf, left}
use rawrtc_data_channel.Checksum.{Crc, ChecksumFlags, header_size, with_checksum}
use rawrtc_data_channel.Transport.{Transport}
use rawrtc_data_channel.Transport.Registry.{Shrinks, Shrinks-refl, Shrinks-same}
use rawrtc_data_channel.Transport.Packets.{
  Direction, dump_inbound, dump_outbound, trace_packet, sctp_packet_handler, hand_out,
  feed_verified, feed_inbound, verify_checksum,
}

pub pair-Shrinks :
    {C : Type 0} {x : Transport} (b : Bool) (p q : C × Transport)
    → Shrinks x p.1
    → Shrinks x q.1
    → Shrinks x (if b then p else q).1
pair-Shrinks true p q s t = s
pair-Shrinks false p q s t = t

module _ (dump : ℕ → List ℕ → Direction → Option (List ℕ)) where
  one-Shrinks :
      {x : Transport} (b : Bool) (y z : Transport)
      → Shrinks x y
      → Shrinks x z
      → Shrinks x (if b then y else z)
  one-Shrinks true y z s t = s
  one-Shrinks false y z s t = t

  trace-Shrinks : (x : Transport) (p : List ℕ) (d : Direction) → Shrinks x (trace_packet dump x p d)
  unfolding trace_packet
  trace-Shrinks x p d =
      one-Shrinks (not x.has_trace_handle) x _ (Shrinks-refl x)
        (elim (Option-cases (dump x.clock p d)) [
          | inl e ↦ rw e (Shrinks-same refl refl refl)
          | inr (text, e) ↦ rw e (Shrinks-same refl refl refl)
        ])

  pub packet-Shrinks :
      (crc : Crc) (flags : ChecksumFlags) (x : Transport) (p : List ℕ) (tos set_df : ℕ)
      → Shrinks x (sctp_packet_handler dump crc flags x p tos set_df).1
  unfolding sctp_packet_handler
  packet-Shrinks crc flags x p tos set_df = pair-Shrinks x.is_detached _ _ (Shrinks-refl x) (
      pair-Shrinks (not flags.disable_outbound) _ _
        (pair-Shrinks (leb header_size (length p)) _ _
          (handed-Shrinks (with_checksum p (crc.crc32c p))) (Shrinks-refl x))
        (handed-Shrinks p))
    where
      handed-Shrinks : (q : List ℕ) → Shrinks x (hand_out dump x q tos set_df).1
      handed-Shrinks q =
          let t = trace-Shrinks x q dump_outbound in
          record { slots = t.slots; sids = t.sids; size = t.size }

  pub feed-Shrinks :
      (crc : Crc) (flags : ChecksumFlags) (x : Transport) (b : Mbuf) (ecn_bits : ℕ)
      → Shrinks x (feed_inbound dump crc flags x b ecn_bits).2
  unfolding feed_inbound
  feed-Shrinks crc flags x b ecn_bits =
      by_flag x.is_detached
        (feed_verified dump (trace_packet dump x (left b) dump_inbound) b ecn_bits
          (if not flags.disable_inbound then verify_checksum crc (left b) else (success, left b)))
        (feed_by
          (if not flags.disable_inbound then verify_checksum crc (left b) else (success, left b)))
    where
      feed_by :
          (v : Code × List ℕ)
          → Shrinks x
              (feed_verified dump (trace_packet dump x (left b) dump_inbound) b ecn_bits v).2
      feed_by (error, p) =
          let t = trace-Shrinks x (left b) dump_inbound in
          elim (Bool-cases (is_error error)) [
            | inl e ↦ rw e t
            | inr e ↦ rw e (record { slots = t.slots; sids = t.sids; size = t.size })
          ]

      by_flag :
          (d : Bool) (r : Code × Mbuf × Transport)
          → Shrinks x r.2
          → Shrinks x ((if d then (invalid_state, b, x) else r).2)
      by_flag true r s = Shrinks-refl x
      by_flag false r s = s
