-- ===== src/Transport/Api.antt =====
-- The data channel as the application uses it: `rawrtc_data_channel_create`, `_send`, `_close` and
-- the destructor of src/data_channel/channel.c and `rawrtc_data_channel_set_streaming` of
-- src/data_channel/attributes.c, on the SCTP transport. A channel is given by its address, which is
-- not NULL.
pub mod Closing
pub mod Silence
mod Tests
use rawrtc_data_channel.Base.{
  ℕ, Bool, true, false, not, ◌&&◌, ◌||◌, Option, none, some, if◌then◌else◌,
}
use rawrtc_data_channel.Base.Code.{Code, success, invalid_state, no_memory, is_error}
use rawrtc_data_channel.External.{Libre, Mbuf}
use rawrtc_data_channel.External.Dtls.{Dtls}
use rawrtc_data_channel.Parameters.{Parameters}
use rawrtc_data_channel.Channel.{ChannelState, opened, Handlers, channel_object}
use rawrtc_data_channel.Channel.Attributes.{unset_handlers}
use rawrtc_data_channel.Transport.{Transport, Sctp, tick}
use rawrtc_data_channel.Transport.State.{set_channel}
use rawrtc_data_channel.Transport.Reset.{is_closing}
use rawrtc_data_channel.Transport.Channels.{
  channel_create_handler, channel_close_handler, channel_send_handler,
  channel_set_streaming_handler,
}

abbrev pub is_open : ChannelState → Bool
is_open opened = true
is_open _ = false

-- Whether streaming is on already, or off already.
abbrev pub unchanged : Bool → Bool → Bool
unchanged on streamed = (on && streamed) || (not on && not streamed)

unfoldable pub data_channel_set_streaming : Transport → ℕ → Bool → Code × Transport
data_channel_set_streaming x h on =
    let c = x.heap h in
    if is_closing c.state
    then (invalid_state, x)
    else if unchanged on c.streamed
    then (success, x)
    else (let error = channel_set_streaming_handler c in
        if is_error error
        then (error, x)
        else (success, set_channel x h (record c { streamed = on })))

module _ (lib : Libre) (sctp : Sctp) where
  -- Update flags.
  abbrev pub initialize : ℕ → Code × Transport → Code × Transport
  initialize h (error, x) =
      if is_error error
      then (error, x)
      else (success, set_channel x h (record (x.heap h) { initialized = true }))

  -- `h` is the address at which the channel is allocated.
  unfoldable pub data_channel_create :
      Dtls → Transport → ℕ → Parameters → Handlers → Code × Transport
  data_channel_create dtls x h p handlers = elim (lib.zalloc x.clock) [
    | none ↦ (no_memory, tick x)
    | some _ ↦ initialize h (
        channel_create_handler lib sctp dtls
          (set_channel (tick x) h (record (channel_object p handlers) { initialized = false })) h p)
  ]

  unfoldable pub data_channel_send : Transport → ℕ → Option Mbuf → Bool → Code × Transport
  data_channel_send x h b is_binary =
      if is_open (x.heap h).state
      then channel_send_handler lib sctp x h b is_binary
      else (invalid_state, x)

  unfoldable pub data_channel_close : Transport → ℕ → Code × Transport
  data_channel_close x h =
      if not (x.heap h).initialized
      then (success, x)
      else if is_closing (x.heap h).state
      then (success, x)
      else channel_close_handler lib sctp x h

  -- The destructor: unset all handlers and close the channel.
  unfoldable pub data_channel_destroy : Transport → ℕ → Transport
  unfolding data_channel_close unset_handlers
  data_channel_destroy x h =
      (data_channel_close (set_channel x h (unset_handlers (x.heap h)).1) h).1
