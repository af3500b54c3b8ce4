-- ===== src/Transport/Reset.antt =====
-- Stream resets and the other notifications of usrsctp: `channel_registered`,
-- `reset_outgoing_stream`, `handle_partial_delivery_event`, `raise_buffered_amount_low_event`,
-- `handle_sender_dry_event`, `handle_stream_reset_event` and `handle_notification` of
-- src/sctp_transport/transport.c.
pub mod Requests
pub mod Registry
pub mod Notifications
pub mod Handshake
pub mod Standing
pub mod Directions
pub mod Dry
pub mod Life
pub mod Association
pub mod Silence
use rawrtc_data_channel.Base.{
  ℕ, zero, suc, ◌+◌, ◌%◌, List, [], ◌∷◌, Bool, true, false, not, ◌&&◌, ◌||◌, Option, none, some,
  if◌then◌else◌, leb, ltb, ◌==◌,
}
use rawrtc_data_channel.Base.Code.{Code, success, no_memory, unknown_error, is_error}
use rawrtc_data_channel.External.{Libre}
use rawrtc_data_channel.Channel.{Channel, Context, ChannelState, closing, MessageFlags}
use rawrtc_data_channel.Transport.{
  Transport, ResetRequest, buffered_amount_low, received, Sctp, emit, tick,
}
use rawrtc_data_channel.Transport.Send.{is_empty}
use rawrtc_data_channel.Transport.State.{
  set_channel, channel_set_state, clear_slot, AssocState, handle_association_change_event,
}

-- Is the slot of the context the one that the channel at `h` stands in?
abbrev pub channel_registered : Transport → ℕ → Context → Bool
channel_registered x h context = elim (x.channels context.sid) [ none ↦ false | some g ↦ g == h ]

abbrev pub set_context : Transport → ℕ → Context → Transport
set_context x h context = set_channel x h (record (x.heap h) { transport_arg = some context })

-- Close, and remove from transport: the stream could not be reset.
unfoldable pub close_improperly : Transport → ℕ → Context → Code → Code × Transport
close_improperly x h context error =
    let y = channel_set_state x h ChannelState.closed in
    if channel_registered y h context then (error, clear_slot y context.sid) else (unknown_error, y)

abbrev pub aborted : MessageFlags
aborted = record { is_aborted = true; is_complete = false; is_string = false; is_binary = false }

-- Abort pending message, and pass abort notification to handler.
abort_message : Transport → ℕ → Context → Transport
abort_message x h context =
    let y =
      set_context x h (record context { pending_inbound_message = false; buffer_inbound = none }) in
    if (x.heap h).streamed && (x.heap h).message_handler
    then emit (received h none aborted) y
    else y

unfoldable pub handle_partial_delivery_event : Transport → ℕ → Transport
unfolding abort_message
handle_partial_delivery_event x stream =
    if leb 65535 stream || leb x.n_channels stream then x else elim (x.channels stream) [
      | none ↦ x
      | some h ↦ elim ((x.heap h).transport_arg) [
        | none ↦ x
        | some context ↦ abort_message x h context
      ]
    ]

-- A stream reset event: its flags and the streams it lists.
pub record StreamReset : Type 0 where
  pub denied : Bool
  pub failed_reset : Bool
  pub incoming_ssn : Bool
  pub outgoing_ssn : Bool
  pub stream_list : List ℕ

-- What a notification is, by `sn_type`.
pub data Notification : Type 0 where
  assoc_change : AssocState → Notification
  partial_delivery : ℕ → Notification
  send_failed sender_dry shutdown stream_change other_event : Notification
  stream_reset : StreamReset → Notification

abbrev pub is_closing : ChannelState → Bool
is_closing closing = true
is_closing ChannelState.closed = true
is_closing _ = false

-- The outgoing direction of one stream.
abbrev pub reset_request : ℕ → ResetRequest
reset_request sid = record { is_outgoing = true; stream_list = sid ∷ [] }

module _ (lib : Libre) (sctp : Sctp) where
  -- Reset stream: allocate the option, set its fields and hand it to usrsctp.
  abbrev pub try_reset : Transport → Context → Code × Transport
  try_reset x context = elim (lib.zalloc x.clock) [
    | none ↦ (no_memory, tick x)
    | some _ ↦ elim (sctp.setsockopt x.clock) [
      | none ↦ (success, record (tick x) { resets = reset_request context.sid ∷ x.resets })
      | some errno ↦ (lib.error_to_code errno, tick x)
    ]
  ]

  unfoldable pub finish_reset : ℕ → Context → Code × Transport → Code × Transport
  finish_reset h context (error, x) =
      if is_error error then close_improperly x h context error else (error, x)

  -- Of the channel at the address `h`, with its context.
  unfoldable pub reset_outgoing_stream : Transport → ℕ → Context → Code × Transport
  unfolding close_improperly finish_reset
  reset_outgoing_stream x h context =
      if is_empty x.buffered_messages_outgoing
      then finish_reset h context (try_reset x context)
      else (success, set_context x h (record context { pending_stream_reset = true }))

  -- One channel of the sender dry event. `on_low` is what the application does when it is called.
  -- The flag is cleared after the reset, in the context as the reset has left it.
  unfoldable pub dry_channel : (ℕ → Transport → Transport) → Transport → ℕ → Context → Transport
  unfolding reset_outgoing_stream
  dry_channel on_low x h context =
      if context.pending_stream_reset
      then (let y = (reset_outgoing_stream x h context).1 in
          set_context y h (record context { pending_stream_reset = false }))
      else if (x.heap h).buffered_amount_low_handler
      then on_low h (emit (buffered_amount_low h) x)
      else x

  abbrev pub dry_slot : (ℕ → Transport → Transport) → Transport → ℕ → Transport
  dry_slot on_low x i = elim (x.channels i) [
    | none ↦ x
    | some h ↦ elim ((x.heap h).transport_arg) [
      | none ↦ x
      | some context ↦ dry_channel on_low x h context
    ]
  ]

  -- Raise event on each data channel, from `i` on and around to `stop`. The fuel is the number of
  -- rounds, `n_channels` at most.
  unfoldable pub dry_loop : ℕ → (ℕ → Transport → Transport) → Transport → ℕ → ℕ → Transport × ℕ
  unfolding dry_channel
  dry_loop zero on_low x i stop = (x, i)
  dry_loop (suc rounds) on_low x i stop =
      let y = dry_slot on_low x i in
      let j = (i + 1) % x.n_channels in
      let rest = dry_loop rounds on_low y j stop in
      if not y.is_buffered_amount_low || (j == stop) then (y, j) else rest

  abbrev pub first_sid : Transport → ℕ
  first_sid x = if leb x.n_channels x.current_channel_sid then 0 else x.current_channel_sid

  abbrev pub dry_all : (ℕ → Transport → Transport) → Transport → Transport
  dry_all on_low x =
      let (y, i) =
        dry_loop x.n_channels on_low (record x { is_buffered_amount_low = true }) (first_sid x)
          (first_sid x) in
      record y { current_channel_sid = i }

  unfoldable pub handle_sender_dry_event : (ℕ → Transport → Transport) → Transport → Transport
  unfolding dry_loop
  handle_sender_dry_event on_low x =
      if is_empty x.buffered_messages_outgoing then dry_all on_low x else x

  -- Outgoing stream reset, and close if both have been reset.
  close_if_reset : StreamReset → Transport → ℕ → Context → Transport
  close_if_reset event x h context =
      let c = x.heap h in
      let out = c.outgoing_stream_reset || event.outgoing_ssn in
      let y = set_channel x h (record c { outgoing_stream_reset = out }) in
      if c.incoming_stream_reset && out
      then clear_slot (channel_set_state y h ChannelState.closed) context.sid
      else y

  -- Reset outgoing stream (if needed): `none` if that has closed the channel.
  abbrev reset_result : ℕ → Code × Transport → Transport × Bool
  reset_result h (error, y) =
      if is_error error then (y, false) else (channel_set_state y h closing, true)

  answer_reset : Transport → ℕ → Context → Transport × Bool
  unfolding reset_outgoing_stream
  answer_reset x h context =
      let y = set_channel x h (record (x.heap h) { incoming_stream_reset = true }) in
      if is_closing (x.heap h).state
      then (y, true)
      else reset_result h (reset_outgoing_stream y h context)

  -- One stream of the event. The context may have been given the pending flag meanwhile.
  unfoldable pub reset_channel : StreamReset → Transport → ℕ → Context → Transport
  unfolding answer_reset close_if_reset
  reset_channel event x h context =
      let (y, go_on) = if event.incoming_ssn then answer_reset x h context else (x, true) in
      if go_on then close_if_reset event y h context else y

  unfoldable pub reset_stream : StreamReset → Transport → ℕ → Transport
  reset_stream event x sid = if leb x.n_channels sid then x else elim (x.channels sid) [
    | none ↦ x
    | some h ↦ elim ((x.heap h).transport_arg) [
      | none ↦ x
      | some context ↦ reset_channel event x h context
    ]
  ]

  unfoldable pub reset_streams : StreamReset → List ℕ → Transport → Transport
  unfolding reset_stream
  reset_streams event [] x = x
  reset_streams event (sid ∷ l) x = reset_streams event l (reset_stream event x sid)

  unfoldable pub handle_stream_reset_event : Transport → StreamReset → Transport
  unfolding reset_streams
  handle_stream_reset_event x event =
      if event.denied || event.failed_reset then x else reset_streams event event.stream_list x

  by_type : (ℕ → Transport → Transport) → Transport → Notification → Transport
  by_type on_low x (assoc_change s) = handle_association_change_event lib sctp x s
  by_type on_low x (partial_delivery stream) = handle_partial_delivery_event x stream
  by_type on_low x sender_dry = handle_sender_dry_event on_low x
  by_type on_low x (stream_reset event) = handle_stream_reset_event x event
  by_type on_low x _ = x

  -- `end` is that of the buffer, `sn_length` that of the notification's header.
  unfoldable pub handle_notification :
      (ℕ → Transport → Transport) → Transport → ℕ → ℕ → Notification → Transport
  unfolding by_type
  handle_notification on_low x end sn_length notification =
      if ltb 4294967295 end || not (sn_length == end) then x else by_type on_low x notification
