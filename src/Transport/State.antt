-- ===== src/Transport/State.antt =====
-- States of the transport and its channels: `rawrtc_data_channel_set_state` of
-- src/data_channel/channel.c, and `set_data_channel_states`, `close_data_channels`, `set_state`,
-- `handle_association_change_event` and `rawrtc_sctp_transport_stop` of
-- src/sctp_transport/transport.c. A handler of the application is an event; it does not call back.
pub mod Closing
pub mod Machine
use rawrtc_data_channel.Base.{
  ℕ, zero, suc, Bool, true, false, not, ◌&&◌, ◌||◌, Option, none, some, if◌then◌else◌, update,
}
use rawrtc_data_channel.Base.Code.{Code, success}
use rawrtc_data_channel.External.{Libre}
use rawrtc_data_channel.Channel.{Channel, ChannelState, opened}
use rawrtc_data_channel.Transport.{
  Transport, TransportState, new, connecting, connected, closed, Event, channel_opened,
  channel_closed, state_changed, detached, socket_closed, trace_closed, Sctp, emit,
}
use rawrtc_data_channel.Transport.Send.{sctp_send_deferred_messages}

abbrev pub set_channel : Transport → ℕ → Channel → Transport
set_channel x h c = record x { heap = update x.heap h c }

-- Call the handler of a state, if it is set.
abbrev pub raise_state : Channel → ℕ → ChannelState → Transport → Transport
raise_state c h opened x = if c.open_handler then emit (channel_opened h) x else x
raise_state c h ChannelState.closed x = if c.close_handler then emit (channel_closed h) x else x
raise_state c h _ x = x

-- `rawrtc_data_channel_set_state` of the channel at the address `h`.
unfoldable pub channel_set_state : Transport → ℕ → ChannelState → Transport
channel_set_state x h s =
    let c = x.heap h in raise_state c h s (set_channel x h (record c { state = s }))

abbrev pub same_channel_state : ChannelState → ChannelState → Bool
same_channel_state ChannelState.connecting ChannelState.connecting = true
same_channel_state opened opened = true
same_channel_state ChannelState.closing ChannelState.closing = true
same_channel_state ChannelState.closed ChannelState.closed = true
same_channel_state _ _ = false

-- `!from_state || channel->state == *from_state`
abbrev pub fits_from : Option ChannelState → ChannelState → Bool
fits_from none s = true
fits_from (some f) s = same_channel_state s f

-- The body of the loop of `set_data_channel_states`.
abbrev pub set_slot_state : Transport → ℕ → ChannelState → Option ChannelState → Transport
set_slot_state x i to from = elim (x.channels i) [
  | none ↦ x
  | some h ↦ if fits_from from (x.heap h).state then channel_set_state x h to else x
]

-- `rounds` rounds from the index `i`.
unfoldable pub set_states_from : ℕ → ℕ → Transport → ChannelState → Option ChannelState → Transport
unfolding channel_set_state
set_states_from zero i x to from = x
set_states_from (suc rounds) i x to from =
    set_states_from rounds (suc i) (set_slot_state x i to from) to from

unfoldable pub set_data_channel_states : Transport → ChannelState → Option ChannelState → Transport
unfolding set_states_from
set_data_channel_states x to from = set_states_from x.n_channels 0 x to from

-- Remove from transport.
abbrev pub clear_slot : Transport → ℕ → Transport
clear_slot x i = record x { channels = update x.channels i none }

abbrev pub close_slot : Transport → ℕ → Transport
close_slot x i = elim (x.channels i) [
  | none ↦ x
  | some h ↦ clear_slot (channel_set_state x h ChannelState.closed) i
]

unfoldable pub close_from : ℕ → ℕ → Transport → Transport
unfolding channel_set_state
close_from zero i x = x
close_from (suc rounds) i x = close_from rounds (suc i) (close_slot x i)

unfoldable pub close_data_channels : Transport → Transport
unfolding close_from
close_data_channels x = close_from x.n_channels 0 x

-- Mark as detached & detach from DTLS transport.
unfoldable pub detach : Transport → Transport
detach y =
    let x = record y { is_detached = true } in if x.has_detach_handler then emit detached x else x

-- Close socket and deregister transport.
unfoldable pub close_socket : Transport → Transport
close_socket x = if x.has_socket then record (emit socket_closed x) { has_socket = false } else x

-- Close trace file (if any). The pointer stays.
unfoldable pub close_trace : Transport → Transport
close_trace x = if x.has_trace_handle then emit trace_closed x else x

abbrev pub is_connecting : TransportState → Bool
is_connecting connecting = true
is_connecting _ = false

abbrev pub is_closed : TransportState → Bool
is_closed closed = true
is_closed _ = false

-- `sac_state` of an association change event.
pub data AssocState : Type 0 where
  comm_up comm_lost restart shutdown_comp cant_str_assoc other_assoc : AssocState

module _ (lib : Libre) (sctp : Sctp) where
  -- What happens before and after the state is set.
  abbrev pub before_state : Transport → TransportState → Transport
  before_state x closed = close_trace (close_socket (detach (close_data_channels x)))
  before_state x _ = x

  abbrev pub after_state : Transport → TransportState → Transport
  after_state x connected =
      set_data_channel_states (sctp_send_deferred_messages lib sctp x).1 opened
        (some ChannelState.connecting)
  after_state x _ = x

  unfoldable pub raise_state_change : TransportState → Transport → Transport
  raise_state_change s x = if x.has_state_change_handler then emit (state_changed s) x else x

  unfoldable pub set_state : Transport → TransportState → Transport
  set_state x s = raise_state_change s (after_state (record (before_state x s) { state = s }) s)

  -- Disconnected.
  abbrev pub disconnect : Transport → Transport
  disconnect x = if not x.is_detached && not (is_closed x.state) then set_state x closed else x

  unfoldable pub handle_association_change_event : Transport → AssocState → Transport
  handle_association_change_event x comm_up =
      if is_connecting x.state then set_state x connected else x
  handle_association_change_event x cant_str_assoc = disconnect x
  handle_association_change_event x shutdown_comp = disconnect x
  handle_association_change_event x comm_lost = disconnect x
  handle_association_change_event x _ = x

  -- `rawrtc_sctp_transport_stop`
  unfoldable pub stop : Transport → Code × Transport
  stop x =
      if x.is_detached || is_closed x.state then (success, x) else (success, set_state x closed)
