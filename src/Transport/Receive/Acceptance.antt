-- ===== src/Transport/Receive/Acceptance.antt =====
-- An open message that is accepted, from its bytes to the registered channel.
use rawrtc_data_channel.Base.{
  if_false, ℕ, suc, ◌≤◌, ◌≡◌, refl, ap, ◌∙◌, [], ◌∷◌, ◌&&◌, true, false, Option, none, some, arith,
}
use rawrtc_data_channel.Base.Code.{Code, success, invalid_state, ok}
use rawrtc_data_channel.External.{Libre, HasMemory, Mbuf, swap32}
use rawrtc_data_channel.External.Dtls.{Dtls, DtlsRole}
use rawrtc_data_channel.Parameters.{Parameters}
use rawrtc_data_channel.Dcep.{message_type_ack, message_type_open, data_channel_open_message_parse}
use rawrtc_data_channel.Dcep.Encoding.{message, ack_message_create-bytes}
use rawrtc_data_channel.Channel.{channel_object, Channel, RcvInfo}
use rawrtc_data_channel.Transport.{
  Transport, TransportState, new, connecting, connected, closed, Sctp, Spa, ppid_dcep, tick,
}
use rawrtc_data_channel.Transport.Send.{is_connected, is_empty, plain_spa, send_message}
use rawrtc_data_channel.Transport.Send.Once.{TakesAll, taken, sctp_send_once}
use rawrtc_data_channel.Transport.State.{set_channel, is_closed}
use rawrtc_data_channel.Transport.Channels.{
  new_context, channel_context_create, is_free, channel_register,
}
use rawrtc_data_channel.Transport.Receive.Whole.{complete_at_once}
use rawrtc_data_channel.Transport.Receive.{
  no_handlers, data_channel_create_internal, send_ack, accept_channel, open_parsed,
  get_data_transport, sid_fits, handle_data_channel_open_message, dcep_by_type, drop_dcep,
  after_dcep, handle_dcep_message, buffer_message_received_raise_complete, data_receive_handler,
}

not_closed : (s : TransportState) → is_connected s ≡ true → is_closed s ≡ false
not_closed new e = refl
not_closed connecting e = refl
not_closed connected e = refl
not_closed closed e = absurd (cc)

module _ (lib : Libre) (sctp : Sctp) (mem : (t : ℕ) → HasMemory lib t)
    (takes : (t : ℕ) → TakesAll sctp t) where
  -- The information that an ack message is sent with.
  abbrev pub ack_info : ℕ → Spa
  ack_info sid = plain_spa (new_context sid true) ppid_dcep

  -- The transport after the ack message has been sent.
  abbrev pub acked : Transport → ℕ → Transport
  acked x sid = taken lib sctp x (message (message_type_ack ∷ [])) (ack_info sid)

  -- The channel of the peer's parameters, before it is registered.
  abbrev pub accepted : Parameters → Channel
  accepted p = channel_object p no_handlers

  ack_sent :
      (x : Transport) (h sid : ℕ) (c : Channel)
      → (is_connected x.state && is_empty x.buffered_messages_outgoing) ≡ true
      → 1 ≤ x.usrsctp_chunk_size
      → send_ack lib sctp x h c (new_context sid true)
        ≡ channel_register (set_channel (acked x sid) h c) h (new_context sid true) true
  unfolding send_ack send_message
  ack_sent x h sid c on room =
      rw (ack_message_create-bytes lib x.clock (mem x.clock), send_ack)
        (rw
          (sctp_send_once lib sctp x (message (message_type_ack ∷ [])) (ack_info sid) on refl
            (omega arith) room (takes x.clock))
          refl)

  accepted_as :
      (x : Transport) (h sid : ℕ) (p : Parameters)
      → (is_connected x.state && is_empty x.buffered_messages_outgoing) ≡ true
      → 1 ≤ x.usrsctp_chunk_size
      → accept_channel lib sctp x h sid p
        ≡ channel_register
            (set_channel (acked (tick (tick x)) sid) h (accepted p))
            h
            (new_context sid true)
            true
  unfolding accept_channel data_channel_create_internal channel_context_create
  accepted_as x h sid p on room =
      let c : data_channel_create_internal lib x.clock p no_handlers ≡ ok (accepted p) =
        rw ((mem x.clock).zalloc_ok, data_channel_create_internal) refl in
      let d : channel_context_create lib (suc x.clock) sid true ≡ ok (new_context sid true) =
        rw ((mem (suc x.clock)).zalloc_ok, channel_context_create) refl in
      rw (c, d, accept_channel) (ack_sent (tick (tick x)) h sid (accepted p) on room)

  -- What the open message leads to, once it has been parsed.
  parsed_as :
      (x : Transport) (h sid : ℕ) (p : Parameters) (priority : ℕ)
      → (is_connected x.state && is_empty x.buffered_messages_outgoing) ≡ true
      → 1 ≤ x.usrsctp_chunk_size
      → open_parsed lib sctp x h sid (ok (p, priority))
        ≡ channel_register
            (set_channel (acked (tick (tick (tick x))) sid) h (accepted p))
            h
            (new_context sid true)
            true
  unfolding open_parsed get_data_transport
  parsed_as x h sid p priority on room =
      let live : get_data_transport lib x ≡ success =
        if_false (is_closed x.state) invalid_state _ (not_closed x.state (ground arith))
        ∙ rw ((mem x.clock).zalloc_ok) refl in
      rw live (accepted_as (tick x) h sid p on room)

  handled_open :
      (dtls : Dtls) (role : DtlsRole) (x : Transport) (h sid ppid : ℕ) (b : Mbuf) (p : Parameters)
      (priority : ℕ)
      → dtls.role_getter x.clock ≡ (success, role)
      → sid_fits role sid ≡ true
      → x.channels sid ≡ none
      → data_channel_open_message_parse lib x.clock sid b ≡ ok (p, priority)
      → handle_data_channel_open_message lib sctp dtls h x b
          (record { rcv_sid = sid; rcv_ppid = ppid })
        ≡ open_parsed lib sctp (tick x) h sid (ok (p, priority))
  unfolding handle_data_channel_open_message
  handled_open dtls role x h sid ppid b p priority getter fits free parsed =
      let unused : is_free x sid ≡ true = rw (free, is_free) refl in
      rw (getter, fits, unused, parsed) refl

  -- The transport of the peer when it handles the open message.
  abbrev pub opening : Transport → Mbuf → RcvInfo → Transport
  opening x b info = record (tick x) { buffer_dcep_inbound = some b; info_dcep_inbound = info }

  -- The transport that registers the channel, with the ack message sent.
  abbrev pub answering : Transport → Mbuf → ℕ → Transport
  answering x b sid =
      acked
        (tick (tick (tick (tick (opening x b (record { rcv_sid = sid; rcv_ppid = ppid_dcep }))))))
        sid

  dcep_received :
      (dtls : Dtls) (x : Transport) (h sid : ℕ) (b : Mbuf)
      → data_receive_handler lib sctp dtls h x b
          (record { rcv_sid = sid; rcv_ppid = swap32 ppid_dcep })
          true
        ≡ handle_dcep_message lib sctp dtls h x b
            (record { rcv_sid = sid; rcv_ppid = ppid_dcep })
            true
  unfolding data_receive_handler
  dcep_received dtls x h sid b = refl

  by_open_type :
      (dtls : Dtls) (h : ℕ) (x : Transport) (m : ℕ × Mbuf) (info : RcvInfo)
      → m.0 ≡ message_type_open
      → dcep_by_type lib sctp dtls h x m info
        ≡ handle_data_channel_open_message lib sctp dtls h x m.1 info
  by_open_type dtls h x m info e = rw e refl

  dcep_complete :
      (dtls : Dtls) (x : Transport) (h sid : ℕ) (b : Mbuf)
      → x.buffer_dcep_inbound ≡ none
      → (lib.read_u8 b).0 ≡ message_type_open
      → let info : RcvInfo = record { rcv_sid = sid; rcv_ppid = ppid_dcep } in
        handle_dcep_message lib sctp dtls h x b info true
        ≡ drop_dcep lib sctp (
            handle_data_channel_open_message lib sctp dtls h
              (opening x b info)
              (lib.read_u8 b).1
              info)
  unfolding handle_dcep_message buffer_message_received_raise_complete
  dcep_complete dtls x h sid b none_yet type =
      let info : RcvInfo = record { rcv_sid = sid; rcv_ppid = ppid_dcep } in
      let go = λ (r : Code × Option Mbuf × RcvInfo). after_dcep lib sctp dtls h (tick x) r in
      ap
        (λ (o : Option Mbuf).
          go (buffer_message_received_raise_complete lib x.clock o x.info_dcep_inbound b info true))
        none_yet
      ∙ (ap go (complete_at_once lib x.clock x.info_dcep_inbound info b refl)
          ∙ ap (λ z. drop_dcep lib sctp z)
              (by_open_type dtls h (opening x b info) (lib.read_u8 b) info type))

  -- An open message that the peer lets through.
  pub open_accepted :
      (dtls : Dtls) (role : DtlsRole) (x : Transport) (h sid : ℕ) (b : Mbuf) (p : Parameters)
      (priority : ℕ)
      → (is_connected x.state && is_empty x.buffered_messages_outgoing) ≡ true
      → 1 ≤ x.usrsctp_chunk_size
      → x.buffer_dcep_inbound ≡ none
      → dtls.role_getter (suc x.clock) ≡ (success, role)
      → sid_fits role sid ≡ true
      → x.channels sid ≡ none
      → (lib.read_u8 b).0 ≡ message_type_open
      → data_channel_open_message_parse lib (suc x.clock) sid (lib.read_u8 b).1 ≡ ok (p, priority)
      → data_receive_handler lib sctp dtls h x b
          (record { rcv_sid = sid; rcv_ppid = swap32 ppid_dcep })
          true
        ≡ drop_dcep lib sctp (
            channel_register
              (set_channel (answering x b sid) h (accepted p))
              h
              (new_context sid true)
              true)
  open_accepted dtls role x h sid b p priority on room none_yet getter fits free type parsed =
      let info : RcvInfo = record { rcv_sid = sid; rcv_ppid = ppid_dcep } in
      let y = opening x b info in
      dcep_received dtls x h sid b
      ∙ (dcep_complete dtls x h sid b none_yet type
          ∙ ap (λ z. drop_dcep lib sctp z)
              (handled_open dtls role y h sid ppid_dcep (lib.read_u8 b).1 p priority getter fits
                  free parsed
                ∙ parsed_as (tick y) h sid p priority on room))
