-- ===== src/Transport/Reset/Silence.antt =====
-- A channel without handlers: its states and the reset of its stream call nobody.
use rawrtc_data_channel.Base.{ℕ, ◌≡◌, refl, Bool, true, false, if◌then◌else◌, List}
use rawrtc_data_channel.Base.Code.{Code, success, unknown_error, is_error}
use rawrtc_data_channel.External.{Libre}
use rawrtc_data_channel.Channel.{Channel, Context, ChannelState, opened, closing}
use rawrtc_data_channel.Transport.{Transport, Sctp, Event}
use rawrtc_data_channel.Transport.Send.{is_empty}
use rawrtc_data_channel.Transport.State.{channel_set_state, clear_slot}
use rawrtc_data_channel.Transport.Reset.Requests.{asked, whatever_answer}
use rawrtc_data_channel.Transport.Reset.{
  set_context, reset_outgoing_stream, close_improperly, finish_reset, try_reset, channel_registered,
}

-- No handler that a change of state, a message or a drained sender calls is set.
pub record Unset (c : Channel) : Type 0 where
  pub no_open : c.open_handler ≡ false
  pub no_low : c.buffered_amount_low_handler ≡ false
  pub no_close : c.close_handler ≡ false
  pub no_message : c.message_handler ≡ false

pub state_silent :
    (x : Transport) (h : ℕ) (s : ChannelState)
    → Unset (x.heap h)
    → (channel_set_state x h s).events ≡ x.events
unfolding channel_set_state
state_silent x h opened u = rw u.no_open refl
state_silent x h ChannelState.closed u = rw u.no_close refl
state_silent x h closing u = refl
state_silent x h ChannelState.connecting u = refl

pub pair_silent :
    (e : List Event) (b : Bool) (y z : Code × Transport)
    → y.1.events ≡ e
    → z.1.events ≡ e
    → (if b then y else z).1.events ≡ e
pair_silent e true y z p q = p
pair_silent e false y z p q = q

improper_silent :
    (x : Transport) (h : ℕ) (context : Context) (error : Code)
    → Unset (x.heap h)
    → (close_improperly x h context error).1.events ≡ x.events
unfolding close_improperly
improper_silent x h context error u =
    let y = channel_set_state x h ChannelState.closed in
    pair_silent x.events (channel_registered y h context) (error, clear_slot y context.sid)
      (unknown_error, y) (state_silent x h ChannelState.closed u)
      (state_silent x h ChannelState.closed u)

pub reset_silent :
    (lib : Libre) (sctp : Sctp) (x : Transport) (h : ℕ) (context : Context)
    → Unset (x.heap h)
    → (reset_outgoing_stream lib sctp x h context).1.events ≡ x.events
unfolding reset_outgoing_stream finish_reset
reset_silent lib sctp x h context u =
    pair_silent x.events (is_empty x.buffered_messages_outgoing)
      (finish_reset lib sctp h context (try_reset lib sctp x context))
      (success, set_context x h (record context { pending_stream_reset = true }))
      (whatever_answer lib sctp x context
        (λ r. (finish_reset lib sctp h context r).1.events ≡ x.events)
        (λ error l.
          pair_silent x.events (is_error error) (close_improperly (asked x l) h context error)
            (error, asked x l) (improper_silent (asked x l) h context error u) refl))
      refl
