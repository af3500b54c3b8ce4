-- ===== src/Transport/Receive.antt =====
-- Incoming messages: `handle_data_channel_ack_message`, `handle_data_channel_open_message`,
-- `buffer_message_received_raise_complete`, `handle_application_message`, `handle_dcep_message` and
-- `data_receive_handler` of src/sctp_transport/transport.c.
pub mod Reassembly
pub mod Delivery
pub mod Registry
pub mod Opening
pub mod Accepting
pub mod Incoming
pub mod Life
pub mod Whole
pub mod Acceptance
use rawrtc_data_channel.Base.{
  ℕ, ◌+◌, ◌%◌, List, Bool, true, false, not, ◌&&◌, ◌||◌, Option, none, some, if◌then◌else◌, ltb,
  ◌==◌,
}
use rawrtc_data_channel.Base.Code.{
  Code, success, no_value, no_memory, invalid_state, is_error, Result, ok, err,
}
use rawrtc_data_channel.External.{Libre, Mbuf, left, swap32}
use rawrtc_data_channel.External.Dtls.{DtlsRole, client, server, other_role, Dtls}
use rawrtc_data_channel.Parameters.{Parameters}
use rawrtc_data_channel.Dcep.{
  message_type_ack, message_type_open, data_channel_open_message_parse,
  data_channel_ack_message_create,
}
use rawrtc_data_channel.Channel.{Channel, Context, RcvInfo, MessageFlags, Handlers, channel_object}
use rawrtc_data_channel.Transport.{
  Transport, TransportState, received, Sctp, emit, tick, ppid_dcep, ppid_utf16, ppid_utf16_empty,
  ppid_utf16_partial, ppid_binary, ppid_binary_empty, ppid_binary_partial,
}
use rawrtc_data_channel.Transport.Send.{send_message}
use rawrtc_data_channel.Transport.State.{set_channel, is_closed}
use rawrtc_data_channel.Transport.Reset.{set_context}
use rawrtc_data_channel.Transport.Channels.{is_free, channel_context_create, channel_register}

abbrev pub is_complete_chunk : ℕ → Bool → Bool
is_complete_chunk ppid eor =
    eor && not (ppid == ppid_utf16_partial) && not (ppid == ppid_binary_partial)

-- Discard the message on an error, but not on `no_value`.
abbrev pub discard : Code → Mbuf → RcvInfo → Code × Option Mbuf × RcvInfo
discard no_value b info = (no_value, some b, info)
discard code b info = (code, none, info)

abbrev pub is_empty_ppid : ℕ → Bool
is_empty_ppid ppid = (ppid == ppid_utf16_empty) || (ppid == ppid_binary_empty)

abbrev pub is_string_ppid : ℕ → Bool
is_string_ppid ppid =
    (ppid == ppid_utf16) || (ppid == ppid_utf16_empty) || (ppid == ppid_utf16_partial)

abbrev pub is_binary_ppid : ℕ → Bool
is_binary_ppid ppid =
    (ppid == ppid_binary) || (ppid == ppid_binary_empty) || (ppid == ppid_binary_partial)

abbrev pub received_flags : ℕ → Bool → MessageFlags
received_flags ppid complete = record {
  is_aborted = false;
  is_complete = complete;
  is_string = is_string_ppid ppid;
  is_binary = not (is_string_ppid ppid);
}

abbrev pub pass_message : Transport → ℕ → Mbuf → ℕ → Bool → Transport
pass_message x h b ppid complete =
    if (x.heap h).message_handler
    then emit (received h (some (left b)) (received_flags ppid complete)) x
    else x

-- Handle application message, and un-reference the buffer in the context.
abbrev pub deliver : Transport → ℕ → Context → Mbuf → ℕ → Bool → Transport
deliver x h context b ppid complete =
    let y = set_context x h (record context { buffer_inbound = none }) in
    if is_string_ppid ppid || is_binary_ppid ppid then pass_message y h b ppid complete else y

-- What buffering a chunk of an application message has led to.
abbrev pub after_buffering : Transport → ℕ → Context → Code × Option Mbuf × RcvInfo → Transport
after_buffering x h context (success, some b, info) =
    deliver x h (record context { info_inbound = info; pending_inbound_message = false }) b
      info.rcv_ppid true
after_buffering x h context (no_value, b, info) =
    set_context x h
      (record context { buffer_inbound = b; info_inbound = info; pending_inbound_message = true })
after_buffering x h context (code, b, info) =
    set_context x h (record context { buffer_inbound = none; info_inbound = info })

-- Does the SID correspond to the other peer's role?
abbrev pub sid_fits : DtlsRole → ℕ → Bool
sid_fits client sid = sid % 2 == 1
sid_fits server sid = sid % 2 == 0
sid_fits other_role sid = false

abbrev pub no_handlers : Handlers
no_handlers = record {
  on_open = false;
  on_buffered_amount_low = false;
  on_error = false;
  on_close = false;
  on_message = false;
}

-- Messages may now be sent unordered.
unfoldable pub handle_data_channel_ack_message : Transport → RcvInfo → Transport
handle_data_channel_ack_message x info = elim (x.channels info.rcv_sid) [
  | none ↦ x
  | some h ↦ elim ((x.heap h).transport_arg) [
    | none ↦ x
    | some context ↦
        if context.can_send_unordered
        then x
        else set_context x h (record context { can_send_unordered = true })
  ]
]

module _ (lib : Libre) where
  -- Copy message into existing buffer.
  unfoldable pub append_chunk : ℕ → Mbuf → RcvInfo → List ℕ → Bool → Code × Option Mbuf × RcvInfo
  append_chunk t b info src complete =
      let (e, b') = lib.write_mem t b src in
      if is_error (lib.error_to_code e)
      then discard (lib.error_to_code e) b' info
      else if complete
      then (success, some (lib.set_pos b' 0), info)
      else (no_value, some b', info)

  -- The first chunk stays in its own buffer: after the skip to its end nothing is left of it, and
  -- that is what is appended to it.
  abbrev pub keep_chunk : ℕ → Mbuf → RcvInfo → Code × Option Mbuf × RcvInfo
  keep_chunk t b info = append_chunk t (lib.skip_to_end b) info (left (lib.skip_to_end b)) false

  -- Clear headroom (if any).
  unfoldable pub first_chunk : ℕ → Mbuf → RcvInfo → Code × Option Mbuf × RcvInfo
  first_chunk t b info =
      if ltb 0 b.pos
      then (let (e, b') = lib.shift_to_start t b in
          if is_error (lib.error_to_code e)
          then discard (lib.error_to_code e) b' info
          else keep_chunk t b' info)
      else keep_chunk t b info

  -- The code, and the buffer and the receive information as they are left.
  unfoldable pub buffer_message_received_raise_complete :
      ℕ → Option Mbuf → RcvInfo → Mbuf → RcvInfo → Bool → Code × Option Mbuf × RcvInfo
  unfolding append_chunk first_chunk
  buffer_message_received_raise_complete t none info_inbound message info eor =
      if is_complete_chunk info.rcv_ppid eor
      then (success, some message, info)
      else first_chunk t message info
  buffer_message_received_raise_complete t (some b) info_inbound message info eor =
      append_chunk t b info_inbound (left message) (is_complete_chunk info.rcv_ppid eor)

  -- A message for the channel at `h`.
  unfoldable pub application_message : Transport → ℕ → Context → Mbuf → RcvInfo → Bool → Transport
  application_message x h context message info eor =
      if is_empty_ppid info.rcv_ppid
      then (if eor
          then deliver x h (record context { pending_inbound_message = false })
              (lib.skip_to_end message) info.rcv_ppid true
          else set_context x h (record context { buffer_inbound = none }))
      else if (x.heap h).streamed
      then deliver x h (record context { pending_inbound_message = not eor }) message info.rcv_ppid
          eor
      else after_buffering (tick x) h context (
          buffer_message_received_raise_complete x.clock context.buffer_inbound context.info_inbound
            message info eor)

  unfoldable pub handle_application_message : Transport → Mbuf → RcvInfo → Bool → Transport
  handle_application_message x message info eor = elim (x.channels info.rcv_sid) [
    | none ↦ x
    | some h ↦ elim ((x.heap h).transport_arg) [
      | none ↦ x
      | some context ↦
          application_message x h (record context { can_send_unordered = true }) message info eor
    ]
  ]

  -- `rawrtc_sctp_transport_get_data_transport`, as far as it can fail.
  unfoldable pub get_data_transport : Transport → Code
  get_data_transport x =
      if is_closed x.state
      then invalid_state
      else elim (lib.zalloc x.clock) [ none ↦ no_memory | some _ ↦ success ]

  -- `rawrtc_data_channel_create_internal` without a call of the transport.
  unfoldable pub data_channel_create_internal : ℕ → Parameters → Handlers → Result Channel
  data_channel_create_internal t p handlers = elim (lib.zalloc t) [
    | none ↦ err no_memory
    | some _ ↦ ok (channel_object p handlers)
  ]

module _ (lib : Libre) (sctp : Sctp) where
  -- The ack message has been sent, or not.
  abbrev pub after_ack : ℕ → Channel → Context → Code × Transport → Transport
  after_ack h c context (error, y) =
      if is_error error then y else channel_register (set_channel y h c) h context true

  unfoldable pub send_ack : Transport → ℕ → Channel → Context → Transport
  send_ack x h c context = elim (data_channel_ack_message_create lib x.clock) [
    | err e ↦ x
    | ok b ↦ after_ack h c context (send_message lib sctp x none context b ppid_dcep)
  ]

  -- Create the data channel and its context.
  unfoldable pub accept_channel : Transport → ℕ → ℕ → Parameters → Transport
  unfolding data_channel_create_internal channel_context_create send_ack
  accept_channel x h sid p = elim (data_channel_create_internal lib x.clock p no_handlers) [
    | err e ↦ tick x
    | ok c ↦ elim (channel_context_create lib (tick x).clock sid true) [
      | err e ↦ tick (tick x)
      | ok context ↦ send_ack (tick (tick x)) h c context
    ]
  ]

  -- The message has been parsed.
  unfoldable pub open_parsed : Transport → ℕ → ℕ → Result (Parameters × ℕ) → Transport
  unfolding get_data_transport accept_channel
  open_parsed x h sid (err e) = x
  open_parsed x h sid (ok (p, priority)) =
      if is_error (get_data_transport lib x) then tick x else accept_channel (tick x) h sid p

  -- `h` is the address at which the channel is allocated.
  unfoldable pub handle_data_channel_open_message :
      Dtls → ℕ → Transport → Mbuf → RcvInfo → Transport
  handle_data_channel_open_message dtls h x b info =
      let (error, role) = dtls.role_getter x.clock in
      if is_error error || not (sid_fits role info.rcv_sid) || not (is_free x info.rcv_sid)
      then x
      else open_parsed (tick x) h info.rcv_sid
          (data_channel_open_message_parse lib x.clock info.rcv_sid b)

  -- Handle by message type.
  abbrev pub dcep_by_type : Dtls → ℕ → Transport → ℕ × Mbuf → RcvInfo → Transport
  dcep_by_type dtls h x (type, b) info =
      if type == message_type_ack
      then handle_data_channel_ack_message x info
      else if type == message_type_open
      then handle_data_channel_open_message dtls h x b info
      else x

  abbrev pub drop_dcep : Transport → Transport
  drop_dcep x = record x { buffer_dcep_inbound = none }

  abbrev pub after_dcep : Dtls → ℕ → Transport → Code × Option Mbuf × RcvInfo → Transport
  after_dcep dtls h x (success, some b, info) = drop_dcep (
      dcep_by_type dtls h (record x { buffer_dcep_inbound = some b; info_dcep_inbound = info })
        (lib.read_u8 b) info)
  after_dcep dtls h x (no_value, b, info) = record x {
    buffer_dcep_inbound = b;
    info_dcep_inbound = info;
  }
  after_dcep dtls h x (code, b, info) = record x {
    buffer_dcep_inbound = none;
    info_dcep_inbound = info;
  }

  unfoldable pub handle_dcep_message : Dtls → ℕ → Transport → Mbuf → RcvInfo → Bool → Transport
  handle_dcep_message dtls h x message info eor = after_dcep dtls h (tick x) (
      buffer_message_received_raise_complete lib x.clock x.buffer_dcep_inbound x.info_dcep_inbound
        message info eor)

  -- Convert PPID first, and handle by PPID.
  unfoldable pub data_receive_handler : Dtls → ℕ → Transport → Mbuf → RcvInfo → Bool → Transport
  data_receive_handler dtls h x message info' eor =
      let info : RcvInfo = record info' { rcv_ppid = swap32 (info'.rcv_ppid) } in
      if info.rcv_ppid == ppid_dcep
      then handle_dcep_message dtls h x message info eor
      else handle_application_message lib x message info eor
