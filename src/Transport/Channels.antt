-- ===== src/Transport/Channels.antt =====
-- Creating, sending on and closing data channels: `channel_context_create`, `channel_register`,
-- `channel_create_negotiated`, `channel_create_inband`, `channel_create_handler`,
-- `channel_close_handler`, `channel_send_handler` and `channel_set_streaming_handler` of
-- src/sctp_transport/transport.c. A channel is given by its address.
pub mod Sids
pub mod Registered
pub mod Life
pub mod Inband
pub mod Once
pub mod Registration
use rawrtc_data_channel.Base.{
  ℕ, zero, suc, ◌+◌, Bool, true, false, not, ◌&&◌, ◌||◌, Option, none, some, if◌then◌else◌, leb,
  ltb, ◌==◌, update,
}
use rawrtc_data_channel.Base.Code.{
  Code, success, no_memory, invalid_argument, invalid_state, external_error, insufficient_space,
  unknown_error, message_too_long, still_in_use, is_error, Result, ok, err,
}
use rawrtc_data_channel.External.{Libre, Mbuf}
use rawrtc_data_channel.External.Dtls.{
  DtlsRole, client, server, other_role, dtls_connected, DtlsState, Dtls,
}
use rawrtc_data_channel.Parameters.{Parameters}
use rawrtc_data_channel.Dcep.{data_channel_open_message_create}
use rawrtc_data_channel.Channel.{Channel, Context, ChannelState, opened, closing}
use rawrtc_data_channel.Transport.{
  Transport, new_channel, Sctp, emit, tick, sid_max, empty_message_size, ppid_dcep, ppid_utf16,
  ppid_utf16_empty, ppid_binary, ppid_binary_empty,
}
use rawrtc_data_channel.Transport.Send.{is_connected, send_message}
use rawrtc_data_channel.Transport.State.{set_channel, channel_set_state}
use rawrtc_data_channel.Transport.Reset.{channel_registered, reset_outgoing_stream}

abbrev pub new_context : ℕ → Bool → Context
new_context sid can_send_unordered = record {
  sid = sid;
  can_send_unordered = can_send_unordered;
  pending_inbound_message = false;
  pending_stream_reset = false;
  buffer_inbound = none;
  info_inbound = record { rcv_sid = 0; rcv_ppid = 0 };
}

abbrev pub is_free : Transport → ℕ → Bool
is_free x i = elim (x.channels i) [ none ↦ true | some h ↦ false ]

-- The channel gets its context and its slot.
abbrev pub fill_slot : Transport → ℕ → Context → Transport
fill_slot x h context =
    let y = set_channel x h (record (x.heap h) { transport_arg = some context }) in
    record y { channels = update y.channels context.sid (some h) }

-- `rawrtc_data_channel_call_channel_handler`
abbrev pub call_channel_handler : Transport → ℕ → Transport
call_channel_handler x h = if x.has_data_channel_handler then emit (new_channel h) x else x

unfoldable pub channel_register : Transport → ℕ → Context → Bool → Transport
channel_register x h context raise_event =
    let y = fill_slot x h context in
    let z = if raise_event then call_channel_handler y h else y in
    if is_connected z.state then channel_set_state z h opened else z

-- Use odd or even SIDs.
abbrev pub first_of_role : DtlsRole → Option ℕ
first_of_role client = some 0
first_of_role server = some 1
first_of_role other_role = none

-- Find free SID, from `i` on. Each round skips two of the `n_channels` slots, so `n_channels` rounds
-- are enough.
unfoldable pub find_free_sid : ℕ → Transport → ℕ → Option ℕ
find_free_sid zero x i = none
find_free_sid (suc rounds) x i =
    let rest = find_free_sid rounds x (i + 2) in
    if ltb i x.n_channels then (if is_free x i then some i else rest) else none

abbrev pub is_dtls_connected : DtlsState → Bool
is_dtls_connected dtls_connected = true
is_dtls_connected _ = false

unfoldable pub channel_set_streaming_handler : Channel → Code
channel_set_streaming_handler c = elim c.transport_arg [
  | none ↦ unknown_error
  | some context ↦ if context.pending_inbound_message then still_in_use else success
]

module _ (lib : Libre) where
  unfoldable pub channel_context_create : ℕ → ℕ → Bool → Result Context
  channel_context_create t sid can_send_unordered = elim (lib.zalloc t) [
    | none ↦ err no_memory
    | some _ ↦ ok (new_context sid can_send_unordered)
  ]

  unfoldable pub channel_create_negotiated : Transport → Parameters → Result Context
  unfolding channel_context_create
  channel_create_negotiated x p =
      if ltb sid_max p.id || leb x.n_channels p.id || not (is_free x p.id)
      then err invalid_argument
      else channel_context_create x.clock p.id true

  -- The helper message of one byte.
  unfoldable pub empty_message : ℕ → Result Mbuf
  empty_message t = elim (lib.alloc t empty_message_size) [
    | none ↦ err no_memory
    | some b ↦
        let (e, b') = lib.write_u8 t b 0 in
        let code = lib.error_to_code e in if is_error code then err code else ok (lib.set_pos b' 0)
  ]

module _ (lib : Libre) (sctp : Sctp) where
  -- The context of a channel whose open message has been sent.
  abbrev after_open : Context → Code × Transport → Result Context × Transport
  after_open context (error, y) = if is_error error then (err error, y) else (ok context, y)

  -- Create open message and send it.
  send_open : Transport → Context → Parameters → Result Context × Transport
  send_open x context p = elim (data_channel_open_message_create lib x.clock p) [
    | err e ↦ (err e, x)
    | ok b ↦ after_open context (send_message lib sctp x none context b ppid_dcep)
  ]

  -- Allocate the context for the SID that was found.
  open_on : Transport → Option ℕ → Parameters → Result Context × Transport
  unfolding channel_context_create send_open
  open_on x none p = (err insufficient_space, x)
  open_on x (some sid) p = elim (channel_context_create lib x.clock sid false) [
    | err e ↦ (err e, tick x)
    | ok context ↦ send_open (tick x) context p
  ]

  open_with_role : Transport → Code × DtlsRole → Parameters → Result Context × Transport
  unfolding open_on find_free_sid
  open_with_role x (error, role) p =
      if is_error error then (err external_error, x) else elim (first_of_role role) [
        | none ↦ (err invalid_state, x)
        | some i ↦ open_on x (find_free_sid x.n_channels x i) p
      ]

  unfoldable pub channel_create_inband : Dtls → Transport → Parameters → Result Context × Transport
  unfolding open_with_role
  channel_create_inband dtls x p =
      let (error, state) = dtls.state_getter x.clock in
      if is_error error
      then (err external_error, x)
      else if is_dtls_connected state
      then open_with_role x (dtls.role_getter x.clock) p
      else (err invalid_state, x)

  abbrev pub register_created : ℕ → Result Context × Transport → Code × Transport
  register_created h (err e, x) = (e, x)
  register_created h (ok context, x) = (success, channel_register x h context false)

  unfoldable pub channel_create_handler : Dtls → Transport → ℕ → Parameters → Code × Transport
  unfolding channel_register
  channel_create_handler dtls x h p =
      if p.negotiated
      then register_created h (channel_create_negotiated lib x p, tick x)
      else register_created h (channel_create_inband dtls x p)

  -- The context is missing if the channel was not registered before.
  abbrev pub set_closing : ℕ → Code × Transport → Transport
  set_closing h (error, x) = if is_error error then x else channel_set_state x h closing

  unfoldable pub channel_close_handler : Transport → ℕ → Code × Transport
  channel_close_handler x h = elim ((x.heap h).transport_arg) [
    | none ↦ (success, x)
    | some context ↦
        if channel_registered x h context
        then (success, set_closing h (reset_outgoing_stream lib sctp x h context))
        else (unknown_error, x)
  ]

  -- A channel without a context has never been open; the source does not check it.
  abbrev pub send_on : Transport → ℕ → Mbuf → ℕ → Code × Transport
  send_on x h b ppid = elim ((x.heap h).transport_arg) [
    | none ↦ (unknown_error, x)
    | some context ↦ send_message lib sctp x (some (x.heap h)) context b ppid
  ]

  abbrev pub send_empty : Transport → ℕ → Bool → Result Mbuf → Code × Transport
  send_empty x h is_binary (err e) = (e, x)
  send_empty x h is_binary (ok b) =
      send_on x h b (if is_binary then ppid_binary_empty else ppid_utf16_empty)

  abbrev pub is_too_long : Transport → ℕ → Bool
  is_too_long x n = not (x.remote_maximum_message_size == 0) && ltb x.remote_maximum_message_size n

  abbrev pub send_data : Transport → ℕ → Mbuf → Bool → Code × Transport
  send_data x h b is_binary =
      if lib.get_left b == 0
      then send_empty x h is_binary (empty_message lib x.clock)
      else if is_too_long x (lib.get_left b)
      then (message_too_long, x)
      else send_on x h b (if is_binary then ppid_binary else ppid_utf16)

  unfoldable pub channel_send_handler : Transport → ℕ → Option Mbuf → Bool → Code × Transport
  unfolding empty_message
  channel_send_handler x h none is_binary = send_empty x h is_binary (empty_message lib x.clock)
  channel_send_handler x h (some b) is_binary = send_data x h b is_binary
