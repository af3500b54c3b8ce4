-- ===== src/Transport/Reset/Handshake.antt =====
-- The closing handshake of a channel: `handle_stream_reset_event` on one stream.
use rawrtc_data_channel.Base.{
  ℕ, ◌≡◌, refl, ◌∙◌, inl, inr, Bool, true, false, ◌&&◌, ◌||◌, ◌<◌, none, some, if◌then◌else◌, leb,
  arith, Bool-cases,
}
use rawrtc_data_channel.External.{Libre}
use rawrtc_data_channel.Channel.{Channel, Context, ChannelState}
use rawrtc_data_channel.Transport.{Transport, Sctp}
use rawrtc_data_channel.Transport.State.{set_channel}
use rawrtc_data_channel.Transport.State.Closing.{channel_set_state_heap}
use rawrtc_data_channel.Transport.Reset.{
  StreamReset, is_closing, close_if_reset, answer_reset, reset_channel, reset_stream,
}

-- What a stream reset leaves of a channel `c` whose flags become `incoming` and `outgoing`, at the
-- address `h` and in the slot `sid`.
pub record Settled (incoming outgoing : Bool) (c : Channel) (sid h : ℕ) (y : Transport)
    : Type 0 where
  pub channel : y.heap h ≡ record c {
    incoming_stream_reset = incoming;
    outgoing_stream_reset = outgoing;
    state = if incoming && outgoing then ChannelState.closed else c.state;
  }
  pub slot : y.channels sid ≡ (if incoming && outgoing then none else some h)

or_true : (b : Bool) → b || true ≡ true
or_true b = ground arith

or_false : (b : Bool) → b || false ≡ b
or_false b = ground arith

module _ (lib : Libre) (sctp : Sctp) where
  close_if_reset-Settled :
      (event : StreamReset) (x : Transport) (h : ℕ) (c : Context)
      → x.channels c.sid ≡ some h
      → let k = x.heap h in
        Settled k.incoming_stream_reset
          (k.outgoing_stream_reset || event.outgoing_ssn)
          k
          c.sid
          h
          (close_if_reset lib sctp event x h c)
  unfolding close_if_reset
  close_if_reset-Settled event x h c e =
      let k = x.heap h in
      let out = k.outgoing_stream_reset || event.outgoing_ssn in
      let y = set_channel x h (record k { outgoing_stream_reset = out }) in
      elim (Bool-cases (k.incoming_stream_reset && out)) [
        | inl both ↦
            let closes = channel_set_state_heap y h ChannelState.closed in
            record { channel = rw both (closes h ∙ ground arith); slot = rw both (ground arith) }
        | inr not_yet ↦ record { channel = rw not_yet (ground arith); slot = rw not_yet e }
      ]

  reset_channel-Settled :
      (event : StreamReset) (x : Transport) (h : ℕ) (c : Context)
      → x.channels c.sid ≡ some h
      → is_closing (x.heap h).state ≡ true
      → let k = x.heap h in
        Settled
          (k.incoming_stream_reset || event.incoming_ssn)
          (k.outgoing_stream_reset || event.outgoing_ssn)
          k
          c.sid
          h
          (reset_channel lib sctp event x h c)
  unfolding reset_channel answer_reset
  reset_channel-Settled event x h c e on =
      let k : Channel = record (x.heap h) { incoming_stream_reset = true } in
      let y = set_channel x h k in
      let here : y.heap h ≡ k = ground arith in
      let s = close_if_reset-Settled event y h c e in
      elim (Bool-cases event.incoming_ssn) [
        | inl incoming ↦
            rw (incoming, on, or_true (x.heap h).incoming_stream_reset)
              (record { channel = s.channel ∙ rw here refl; slot = s.slot ∙ rw here refl })
        | inr quiet ↦
            rw (quiet, or_false (x.heap h).incoming_stream_reset)
              (close_if_reset-Settled event x h c e)
      ]

  reset_stream-found :
      (event : StreamReset) (x : Transport) (sid h : ℕ) (c : Context)
      → sid < x.n_channels
      → x.channels sid ≡ some h
      → (x.heap h).transport_arg ≡ some c
      → reset_stream lib sctp event x sid ≡ reset_channel lib sctp event x h c
  unfolding reset_stream
  reset_stream-found event x sid h c lt e p =
      let in_range : leb x.n_channels sid ≡ false = ground arith in
      rw (in_range, e, p, reset_stream) refl

  -- The closing handshake. A stream reset that was neither denied nor failed comes for a channel
  -- that is closing or closed and stands in its slot: a channel is closed and leaves its slot when,
  -- with this event, both directions have been reset, and not before; until then only the flags of
  -- the reset directions change.
  pub closing_handshake :
      (event : StreamReset) (x : Transport) (h : ℕ) (c : Context)
      → c.sid < x.n_channels
      → x.channels c.sid ≡ some h
      → (x.heap h).transport_arg ≡ some c
      → is_closing (x.heap h).state ≡ true
      → let k = x.heap h in
        Settled
          (k.incoming_stream_reset || event.incoming_ssn)
          (k.outgoing_stream_reset || event.outgoing_ssn)
          k
          c.sid
          h
          (reset_stream lib sctp event x c.sid)
  closing_handshake event x h c lt e p on =
      rw (reset_stream-found event x c.sid h c lt e p) (reset_channel-Settled event x h c e on)
