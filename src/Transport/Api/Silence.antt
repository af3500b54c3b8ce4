-- ===== src/Transport/Api/Silence.antt =====
-- What becomes of a channel whose handlers have been unset.
use rawrtc_data_channel.Base.{
  ℕ, ◌≡◌, refl, Bool, true, false, Option, none, some, arith, ◌==◌, not, if◌then◌else◌, List,
}
use rawrtc_data_channel.Base.Code.{Code, success, unknown_error, is_error}
use rawrtc_data_channel.External.{Libre, Mbuf}
use rawrtc_data_channel.Channel.{Channel, Context, ChannelState, closing, RcvInfo}
use rawrtc_data_channel.Channel.Attributes.{unset_handlers}
use rawrtc_data_channel.Transport.{Transport, Sctp, Event, tick}
use rawrtc_data_channel.Transport.State.{set_channel, channel_set_state}
use rawrtc_data_channel.Transport.Reset.{
  set_context, reset_outgoing_stream, channel_registered, is_closing,
}
use rawrtc_data_channel.Transport.Reset.Silence.{Unset, state_silent, reset_silent, pair_silent}
use rawrtc_data_channel.Transport.Api.{data_channel_close, data_channel_destroy}
use rawrtc_data_channel.Transport.Channels.{channel_close_handler, set_closing}
use rawrtc_data_channel.Transport.Receive.{
  application_message, pass_message, deliver, after_buffering, is_empty_ppid,
  buffer_message_received_raise_complete,
}

-- `rawrtc_data_channel_unset_handlers` of the channel at the address `h`.
abbrev pub unset : Transport → ℕ → Transport
unset x h = set_channel x h (unset_handlers (x.heap h)).1

pass_silent :
    (x : Transport) (h : ℕ) (b : Mbuf) (ppid : ℕ) (complete : Bool)
    → (x.heap h).message_handler ≡ false
    → (pass_message x h b ppid complete).events ≡ x.events
pass_silent x h b ppid complete u = rw u refl

either_unset :
    (b : Bool) (c d : Channel)
    → c.message_handler ≡ false
    → d.message_handler ≡ false
    → (if b then c else d).message_handler ≡ false
either_unset true c d p q = p
either_unset false c d p q = q

either_silent :
    (e : List Event) (b : Bool) (y z : Transport)
    → y.events ≡ e
    → z.events ≡ e
    → (if b then y else z).events ≡ e
either_silent e true y z p q = p
either_silent e false y z p q = q

deliver_silent :
    (x : Transport) (h : ℕ) (context : Context) (b : Mbuf) (ppid : ℕ) (complete : Bool)
    → (x.heap h).message_handler ≡ false
    → (deliver x h context b ppid complete).events ≡ x.events
deliver_silent x h context b ppid complete u =
    let y = set_context x h (record context { buffer_inbound = none }) in
    either_silent x.events _ (pass_message y h b ppid complete) y
      (pass_silent y h b ppid complete (either_unset (h == h) _ _ u u)) refl

after_silent :
    (x : Transport) (h : ℕ) (context : Context) (r : Code × Option Mbuf × RcvInfo)
    → (x.heap h).message_handler ≡ false
    → (after_buffering x h context r).events ≡ x.events
after_silent x h context r u = ground arith

module _ (lib : Libre) where
  message_silent :
      (x : Transport) (h : ℕ) (context : Context) (b : Mbuf) (info : RcvInfo) (eor : Bool)
      → (x.heap h).message_handler ≡ false
      → (application_message lib x h context b info eor).events ≡ x.events
  unfolding application_message
  message_silent x h context b info eor u =
      let emptied =
        deliver x h (record context { pending_inbound_message = false }) (lib.skip_to_end b)
          info.rcv_ppid true in
      let cut = set_context x h (record context { buffer_inbound = none }) in
      let passed =
        deliver x h (record context { pending_inbound_message = not eor }) b info.rcv_ppid eor in
      let buffered =
        buffer_message_received_raise_complete lib x.clock context.buffer_inbound
          context.info_inbound b info eor in
      let kept = after_buffering (tick x) h context buffered in
      either_silent x.events (is_empty_ppid info.rcv_ppid) (if eor then emptied else cut)
        (if (x.heap h).streamed then passed else kept)
        (either_silent x.events eor emptied cut
          (deliver_silent x h (record context { pending_inbound_message = false })
            (lib.skip_to_end b) info.rcv_ppid true u)
          refl)
        (either_silent x.events (x.heap h).streamed passed kept
          (deliver_silent x h (record context { pending_inbound_message = not eor }) b info.rcv_ppid
            eor u)
          (after_silent (tick x) h context buffered u))

any_context :
    (e : List Event) (o : Option Context) (y : Code × Transport) (f : Context → Code × Transport)
    → y.1.events ≡ e
    → ((context : Context) → (f context).1.events ≡ e)
    → (let r : Code × Transport = elim o [ none ↦ y | some context ↦ f context ] in r.1.events ≡ e)
any_context e none y f p q = p
any_context e (some context) y f p q = q context

close_silent :
    (lib : Libre) (sctp : Sctp) (x : Transport) (h : ℕ)
    → Unset (x.heap h)
    → (channel_close_handler lib sctp x h).1.events ≡ x.events
unfolding channel_close_handler channel_set_state
close_silent lib sctp x h u =
    any_context x.events (x.heap h).transport_arg (success, x)
      (λ context.
        if channel_registered x h context
        then (success, set_closing lib sctp h (reset_outgoing_stream lib sctp x h context))
        else (unknown_error, x))
      refl
      (λ context.
        let r = reset_outgoing_stream lib sctp x h context in
        pair_silent x.events (channel_registered x h context) (success, set_closing lib sctp h r)
          (unknown_error, x)
          (either_silent x.events (is_error r.0) r.1 (channel_set_state r.1 h closing)
            (reset_silent lib sctp x h context u) (reset_silent lib sctp x h context u))
          refl)

same : (h : ℕ) → (h == h) ≡ true
same h = ground arith

handlers_removed :
    (b : Bool) (c d : Channel) → b ≡ true → Unset (if b then (unset_handlers c).1 else d)
unfolding unset_handlers
handlers_removed true c d e = record {
  no_open = refl;
  no_low = refl;
  no_close = refl;
  no_message = refl;
}
handlers_removed false c d e = absurd (grind arith)

destroy_silent :
    (lib : Libre) (sctp : Sctp) (x : Transport) (h : ℕ)
    → Unset ((unset x h).heap h)
    → (data_channel_destroy lib sctp x h).events ≡ x.events
unfolding data_channel_destroy data_channel_close
destroy_silent lib sctp x h u =
    pair_silent x.events (not ((unset x h).heap h).initialized) (success, unset x h)
      (if is_closing ((unset x h).heap h).state
        then (success, unset x h)
        else channel_close_handler lib sctp (unset x h) h)
      refl
      (pair_silent x.events (is_closing ((unset x h).heap h).state) (success, unset x h)
        (channel_close_handler lib sctp (unset x h) h) refl (close_silent lib sctp (unset x h) h u))

-- After `rawrtc_data_channel_unset_handlers`, no handler of the application is called when the
-- state of the channel changes, when a chunk of a message for it arrives, or when the channel is
-- closed, whether the reset of its stream succeeds or not. The destructor of the channel, which
-- unsets them first, calls none either.
pub unset_handlers_silence :
    (lib : Libre) (sctp : Sctp) (x : Transport) (h : ℕ) (s : ChannelState) (context : Context)
    (b : Mbuf) (info : RcvInfo) (eor : Bool)
    → ((channel_set_state (unset x h) h s).events ≡ x.events)
      × ((application_message lib (unset x h) h context b info eor).events ≡ x.events)
      × ((channel_close_handler lib sctp (unset x h) h).1.events ≡ x.events)
      × ((data_channel_destroy lib sctp x h).events ≡ x.events)
unset_handlers_silence lib sctp x h s context b info eor =
    let u : Unset ((unset x h).heap h) = handlers_removed (h == h) (x.heap h) (x.heap h) (same h) in
    (
      state_silent (unset x h) h s u,
      message_silent lib (unset x h) h context b info eor u.no_message,
      close_silent lib sctp (unset x h) h u,
      destroy_silent lib sctp x h u,
    )
