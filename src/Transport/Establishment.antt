-- ===== src/Transport/Establishment.antt =====
-- A channel from one application to the other: it is opened in-band on one transport, and its open
-- message, as usrsctp takes it, registers its counterpart on the transport of the peer.
mod Tests
use rawrtc_data_channel.Base.{
  ℕ, suc, ◌≡◌, ◌≤◌, refl, ap, ◌∙◌, List, [], ◌∷◌, ◌&&◌, true, false, Option, none, some, length,
  if◌then◌else◌, arith,
}
use rawrtc_data_channel.Base.Code.{Code, success, ok}
use rawrtc_data_channel.External.{Libre, HasMemory, Mbuf, left, swap32}
use rawrtc_data_channel.External.Dtls.{Dtls, DtlsRole, dtls_connected}
use rawrtc_data_channel.Parameters.{Parameters}
use rawrtc_data_channel.Dcep.{message_type_ack, priority_normal, data_channel_open_message_create}
use rawrtc_data_channel.Dcep.Encoding.{open_message_create-bytes}
use rawrtc_data_channel.Dcep.RoundTrip.{IsTyped, as_received, open_message_round_trip}
use rawrtc_data_channel.Channel.{Channel, ChannelState, opened, channel_object}
use rawrtc_data_channel.Transport.{
  Transport, Sctp, Sent, SndInfo, Event, new_channel, spa, ppid_dcep, tick,
}
use rawrtc_data_channel.Transport.Send.{is_connected, is_empty, send_info, set_eor}
use rawrtc_data_channel.Transport.Send.Once.{TakesAll, taken}
use rawrtc_data_channel.Transport.State.{set_channel}
use rawrtc_data_channel.Transport.Channels.{
  new_context, find_free_sid, first_of_role, channel_create_handler, channel_register,
}
use rawrtc_data_channel.Transport.Channels.Inband.{
  open_message, HasShortTexts, open_info, created_inband,
}
use rawrtc_data_channel.Transport.Channels.Registration.{registered_own, registered_open}
use rawrtc_data_channel.Transport.Receive.{data_receive_handler, no_handlers, sid_fits, drop_dcep}
use rawrtc_data_channel.Transport.Receive.Opening.{peer, found_sid_accepted}
use rawrtc_data_channel.Transport.Receive.Reassembly.{merged}
use rawrtc_data_channel.Transport.Receive.Acceptance.{accepted, ack_info, answering, open_accepted}

module _ (lib : Libre) (sctp : Sctp) (mem : (t : ℕ) → HasMemory lib t)
    (takes : (t : ℕ) → TakesAll sctp t) where
  -- The peer when the piece arrives.
  abbrev pub receiving : Dtls → Transport → ℕ → Sent → SndInfo → Transport
  receiving dtls y g piece info =
      data_receive_handler lib sctp dtls g y (merged piece.bytes)
        (record { rcv_sid = info.snd_sid; rcv_ppid = info.snd_ppid }) true

  -- The channel at `h` of the transport `x` and its counterpart at `g` of the peer `y`: `r` is what
  -- the creation returns, and the piece is the open message.
  pub record Established (dtls : Dtls) (x y : Transport) (h g sid : ℕ) (p : Parameters)
      (r : Code × Transport) : Type 0 where
    pub created : r.0 ≡ success
    pub own_slot : r.1.channels sid ≡ some h
    pub own_channel :
        r.1.heap h
        ≡ record (x.heap h) { transport_arg = some (new_context sid false); state = opened }
    pub piece : Sent
    pub info : SndInfo
    pub on_wire : r.1.wire ≡ piece ∷ x.wire
    pub with_info : send_info piece.info ≡ some info
    pub on_stream : info.snd_sid ≡ sid
    pub peer_slot : (receiving dtls y g piece info).channels sid ≡ some g
    pub peer_channel :
        (receiving dtls y g piece info).heap g
        ≡ record (channel_object (as_received p) no_handlers) {
          transport_arg = some (new_context sid true);
          state = opened;
        }
    pub announced :
        (receiving dtls y g piece info).events
        ≡ (if y.has_data_channel_handler then new_channel g ∷ y.events else y.events)
    pub acknowledged :
        (receiving dtls y g piece info).wire
        ≡ record {
          bytes = message_type_ack ∷ [];
          info = set_eor true (spa (ack_info lib sctp mem takes sid));
        }
          ∷ y.wire

  arrived :
      (dtls : Dtls) (role : DtlsRole) (y : Transport) (g sid : ℕ) (p : Parameters)
      → IsTyped p
      → HasShortTexts p
      → (is_connected y.state && is_empty y.buffered_messages_outgoing) ≡ true
      → 1 ≤ y.usrsctp_chunk_size
      → y.buffer_dcep_inbound ≡ none
      → dtls.role_getter (suc y.clock) ≡ (success, role)
      → sid_fits role sid ≡ true
      → y.channels sid ≡ none
      → data_receive_handler lib sctp dtls g y
          (open_message p)
          (record { rcv_sid = sid; rcv_ppid = swap32 ppid_dcep })
          true
        ≡ drop_dcep lib sctp (
            channel_register
              (set_channel
                (answering lib sctp mem takes y (open_message p) sid)
                g
                (accepted lib sctp mem takes (as_received p)))
              g
              (new_context sid true)
              true)
  arrived dtls role y g sid p typed short on room none_yet getter fits free =
      let made : data_channel_open_message_create lib 0 p ≡ ok (open_message p) =
        rw short at (open_message_create-bytes lib 0 (mem 0) p) in
      let trip =
        open_message_round_trip lib 0 (suc y.clock) sid p (mem 0) (mem (suc y.clock)) typed made in
      open_accepted lib sctp mem takes dtls role y g sid (open_message p) (as_received p)
        priority_normal on room none_yet getter fits free trip.0 trip.1

  -- The creation of a channel that is not negotiated succeeds when its parameters are in the range
  -- of their C types, its texts have at most 65535 bytes, DTLS is connected and knows its role, a free SID is found for the role, the transport is connected and has
  -- nothing queued, the open message fits in one chunk, usrsctp takes all bytes that it is given
  -- and memory does not fail. The channel is then open and in the slot of the SID, and the wire
  -- grows by the open message on that stream. When it arrives at a peer of the other role that is
  -- connected, has nothing queued, gathers no DCEP message and has a free slot there, the peer has
  -- in that slot an open channel with the parameters as they are read from the message, raises it
  -- as a new channel if a data channel handler is set, and puts the acknowledgement on its wire.
  pub create_handler-Established :
      (dtls dtls' : Dtls) (role : DtlsRole) (x y : Transport) (h g i sid : ℕ) (p : Parameters)
      → p.negotiated ≡ false
      → IsTyped p
      → HasShortTexts p
      → dtls.state_getter x.clock ≡ (success, dtls_connected)
      → dtls.role_getter x.clock ≡ (success, role)
      → dtls'.role_getter (suc y.clock) ≡ (success, peer role)
      → first_of_role role ≡ some i
      → find_free_sid x.n_channels x i ≡ some sid
      → (is_connected x.state && is_empty x.buffered_messages_outgoing) ≡ true
      → length (left (open_message p)) ≤ x.usrsctp_chunk_size
      → (is_connected y.state && is_empty y.buffered_messages_outgoing) ≡ true
      → 1 ≤ y.usrsctp_chunk_size
      → y.buffer_dcep_inbound ≡ none
      → y.channels sid ≡ none
      → Established dtls' x y h g sid p (channel_create_handler lib sctp dtls x h p)
  create_handler-Established dtls dtls' role x y h g i sid p own typed short up getter getter' first
        found on room on' room' none_yet free =
      let created =
        created_inband lib sctp mem takes dtls role x h i sid p own up getter first found short on
          room in
      let z = taken lib sctp (tick x) (open_message p) (open_info lib sctp mem takes sid) in
      let k = registered_own z h (new_context sid false) (ground (arith, on)) in
      let here =
        arrived dtls' (peer role) y g sid p typed short on' room' none_yet getter'
          (found_sid_accepted x.n_channels x role i sid first found).0 free in
      let l =
        registered_open (answering lib sctp mem takes y (open_message p) sid) g
          (accepted lib sctp mem takes (as_received p)) (new_context sid true) refl
          (ground (arith, on')) in
      record {
        created = ap (λ r. r.0) created;
        own_slot = ap (λ (r : Code × Transport). r.1.channels sid) created ∙ k.0;
        own_channel = ap (λ (r : Code × Transport). r.1.heap h) created ∙ k.1;
        piece = record {
          bytes = left (open_message p);
          info = set_eor true (spa (open_info lib sctp mem takes sid));
        };
        info = (open_info lib sctp mem takes sid).sendv_sndinfo;
        on_wire = ap (λ (r : Code × Transport). r.1.wire) created ∙ k.2;
        with_info = refl;
        on_stream = refl;
        peer_slot = ap (λ (t : Transport). t.channels sid) here ∙ l.0;
        peer_channel = ap (λ (t : Transport). t.heap g) here ∙ l.1;
        announced = ap (λ (t : Transport). t.events) here ∙ l.2;
        acknowledged = ap (λ (t : Transport). t.wire) here ∙ l.3;
      }
