-- ===== src/Transport/Packets.antt =====
-- Packets below SCTP: `trace_packet`, `sctp_packet_handler` and
-- `rawrtc_sctp_transport_feed_inbound` of src/sctp_transport/transport.c. The global
-- `checksum_flags` is an argument. `usrsctp_dumppacket` is a parameter, which may return nothing.
-- What usrsctp does with a packet that it is fed reaches the transport by its events.
pub mod Checked
pub mod Registry
pub mod Life
mod Tests
use rawrtc_data_channel.Base.{
  ℕ, List, ◌++◌, Bool, true, false, not, Option, none, some, if◌then◌else◌, length, take, leb, ◌==◌,
}
use rawrtc_data_channel.Base.Code.{Code, success, invalid_state, invalid_message, is_error}
use rawrtc_data_channel.External.{Mbuf, left}
use rawrtc_data_channel.Checksum.{Crc, ChecksumFlags, header_size, checksum_of, with_checksum}
use rawrtc_data_channel.Transport.{Transport, outbound, fed, traced, emit, tick}

-- SCTP_DUMP_INBOUND and SCTP_DUMP_OUTBOUND
pub data Direction : Type 0 where
  dump_inbound dump_outbound : Direction

-- The memory of a buffer with other bytes behind its position.
abbrev pub with_left : Mbuf → List ℕ → Mbuf
with_left b p = record b { buf = take b.pos b.buf ++ p }

-- Verify CRC32-C checksum: the memory of the packet with its field set to zero for the
-- computation and restored.
unfoldable pub verify_checksum : Crc → List ℕ → Code × List ℕ
verify_checksum crc p =
    if leb header_size (length p)
    then (let actual_checksum = checksum_of p in
        let zeroed : List ℕ = with_checksum p 0 in
        let expected_checksum = crc.crc32c zeroed in
        (
          if actual_checksum == expected_checksum then success else invalid_message,
          with_checksum zeroed actual_checksum,
        ))
    else (invalid_message, p)

module _ (dump : ℕ → List ℕ → Direction → Option (List ℕ)) where
  unfoldable pub trace_packet : Transport → List ℕ → Direction → Transport
  trace_packet x p direction =
      if not x.has_trace_handle then x else elim (dump x.clock p direction) [
        | none ↦ tick x
        | some text ↦ emit (traced text) (tick x)
      ]

  -- Trace and pass to outbound handler.
  abbrev pub hand_out : Transport → List ℕ → ℕ → ℕ → List ℕ × Transport
  hand_out x p tos set_df = (p, emit (outbound p tos set_df) (trace_packet x p dump_outbound))

  -- It returns the memory of the packet as it leaves it.
  unfoldable pub sctp_packet_handler :
      Crc → ChecksumFlags → Transport → List ℕ → ℕ → ℕ → List ℕ × Transport
  sctp_packet_handler crc flags x p tos set_df =
      if x.is_detached
      then (p, x)
      else if not flags.disable_outbound
      then if leb header_size (length p)
        then hand_out x (with_checksum p (crc.crc32c p)) tos set_df
        else (p, x)
      else hand_out x p tos set_df

  -- Feed into SCTP socket.
  abbrev pub feed_verified : Transport → Mbuf → ℕ → Code × List ℕ → Code × Mbuf × Transport
  feed_verified x b ecn_bits (error, p) =
      if is_error error
      then (error, with_left b p, x)
      else (success, with_left b p, emit (fed p ecn_bits) x)

  unfoldable pub feed_inbound : Crc → ChecksumFlags → Transport → Mbuf → ℕ → Code × Mbuf × Transport
  feed_inbound crc flags x b ecn_bits =
      if x.is_detached
      then (invalid_state, b, x)
      else (let y : Transport = trace_packet x (left b) dump_inbound in
          feed_verified y b ecn_bits
            (if not flags.disable_inbound then verify_checksum crc (left b) else (success, left b)))
