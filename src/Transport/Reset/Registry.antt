-- ===== src/Transport/Reset/Registry.antt =====
-- Resets of outgoing streams, partial delivery, the sender dry event and the registry of channels.
use rawrtc_data_channel.Base.{
  List, ℕ, zero, suc, ◌+◌, ◌%◌, ◌≡◌, refl, sym, ap, ◌∙◌, inl, inr, true, false, not, ◌&&◌, ◌||◌,
  none, some, leb, ◌==◌, Bool-cases, Option-cases, ==_iff,
}
use rawrtc_data_channel.Base.Code.{Code, is_error}
use rawrtc_data_channel.External.{Libre}
use rawrtc_data_channel.Channel.{Channel, Context, ChannelState}
use rawrtc_data_channel.Transport.{ResetRequest, Transport, Sctp}
use rawrtc_data_channel.Transport.Send.{is_empty}
use rawrtc_data_channel.Transport.State.{set_channel, channel_set_state}
use rawrtc_data_channel.Transport.State.Closing.{channel_set_state-Shrinks, clear_slot-Shrinks}
use rawrtc_data_channel.Transport.Registry.{
  sid_of, Shrinks, Shrinks-refl, Shrinks-trans, Shrinks-same,
}
use rawrtc_data_channel.Transport.Reset.Requests.{asked, whatever_answer}
use rawrtc_data_channel.Transport.Reset.{
  channel_registered, set_context, close_improperly, abort_message, handle_partial_delivery_event,
  finish_reset, reset_outgoing_stream, dry_channel, dry_slot, dry_loop, first_sid,
  handle_sender_dry_event,
}

-- writing a channel that keeps its stream
pub set_channel-Shrinks :
    (x : Transport) (h : ℕ) (c : Channel)
    → sid_of c ≡ sid_of (x.heap h)
    → Shrinks x (set_channel x h c)
set_channel-Shrinks x h c e = record {
  slots = λ i. inl refl;
  sids = λ g. elim (Bool-cases (g == h)) [
    | inl p ↦ rw p (e ∙ ap (λ k. sid_of (x.heap k)) (sym ((==_iff g h).0 p)))
    | inr n ↦ rw n
  ];
  size = refl;
}

close_improperly-Shrinks :
    (x : Transport) (h : ℕ) (context : Context) (error : Code)
    → Shrinks x (close_improperly x h context error).1
unfolding close_improperly
close_improperly-Shrinks x h context error =
    let y = channel_set_state x h ChannelState.closed in
    let s = channel_set_state-Shrinks x h ChannelState.closed in
    elim (Bool-cases (channel_registered y h context)) [
      | inl e ↦ rw e (Shrinks-trans s (clear_slot-Shrinks y context.sid))
      | inr e ↦ rw e s
    ]

pub set_context-Shrinks :
    (x : Transport) (h : ℕ) (c : Context)
    → sid_of (x.heap h) ≡ some c.sid
    → Shrinks x (set_context x h c)
set_context-Shrinks x h c e =
    set_channel-Shrinks x h (record (x.heap h) { transport_arg = some c }) (sym e)

pub sid_of_context :
    (c : Channel) (context : Context) → c.transport_arg ≡ some context → sid_of c ≡ some context.sid
sid_of_context c context e = rw (e, sid_of)

aborting :
    (x : Transport) (h : ℕ) (c : Context)
    → sid_of (x.heap h) ≡ some c.sid
    → Shrinks x (abort_message x h c)
unfolding abort_message
aborting x h c e =
    let c' : Context = record c { pending_inbound_message = false; buffer_inbound = none } in
    let s = set_context-Shrinks x h c' e in
    elim (Bool-cases ((x.heap h).streamed && (x.heap h).message_handler)) [
      | inl on ↦ rw on (Shrinks-trans s (Shrinks-same refl refl refl))
      | inr off ↦ rw off s
    ]

pub partial_delivery-Shrinks :
    (x : Transport) (sid : ℕ) → Shrinks x (handle_partial_delivery_event x sid)
unfolding handle_partial_delivery_event
partial_delivery-Shrinks x sid = elim (Bool-cases (leb 65535 sid || leb x.n_channels sid)) [
  | inl out ↦ rw out (Shrinks-refl x)
  | inr fits ↦ elim (Option-cases (x.channels sid)) [
    | inl empty ↦ rw (fits, empty, handle_partial_delivery_event) (Shrinks-refl x)
    | inr (h, e) ↦ elim (Option-cases ((x.heap h).transport_arg)) [
      | inl no_context ↦ rw (fits, e, no_context, handle_partial_delivery_event) (Shrinks-refl x)
      | inr (c, p) ↦
          rw (fits, e, p, handle_partial_delivery_event)
            (aborting x h c (sid_of_context (x.heap h) c p))
    ]
  ]
]

module _ (lib : Libre) (sctp : Sctp) where
  finish_reset-Shrinks :
      (x : Transport) (h : ℕ) (c : Context) (error : Code) (l : List ResetRequest)
      → Shrinks x (finish_reset lib sctp h c (error, asked x l)).1
  unfolding finish_reset
  finish_reset-Shrinks x h c error l = elim (Bool-cases (is_error error)) [
    | inl bad ↦ rw bad (
        Shrinks-trans (Shrinks-same refl refl refl)
          (close_improperly-Shrinks (asked x l) h c error))
    | inr good ↦ rw good (Shrinks-same refl refl refl)
  ]

  pub reset_outgoing_stream-Shrinks :
      (x : Transport) (h : ℕ) (c : Context)
      → sid_of (x.heap h) ≡ some c.sid
      → Shrinks x (reset_outgoing_stream lib sctp x h c).1
  unfolding reset_outgoing_stream finish_reset
  reset_outgoing_stream-Shrinks x h c e =
      elim (Bool-cases (is_empty x.buffered_messages_outgoing)) [
        | inr waits ↦
            rw waits (set_context-Shrinks x h (record c { pending_stream_reset = true }) e)
        | inl empty ↦ rw empty (
            whatever_answer lib sctp x c (λ r. Shrinks x (finish_reset lib sctp h c r).1)
              (finish_reset-Shrinks x h c))
      ]

  dry_channel-Shrinks :
      (on_low : ℕ → Transport → Transport) (x : Transport) (h : ℕ) (c : Context)
      → ((g : ℕ) (y : Transport) → Shrinks y (on_low g y))
      → sid_of (x.heap h) ≡ some c.sid
      → Shrinks x (dry_channel lib sctp on_low x h c)
  unfolding dry_channel
  dry_channel-Shrinks on_low x h c low e = elim (Bool-cases c.pending_stream_reset) [
    | inl waits ↦
        let s = reset_outgoing_stream-Shrinks x h c e in
        rw waits (
          Shrinks-trans s
            (set_context-Shrinks _ h (record c { pending_stream_reset = false }) (s.sids h ∙ e)))
    | inr idle ↦ elim (Bool-cases (x.heap h).buffered_amount_low_handler) [
      | inl on ↦ rw (idle, on) (Shrinks-trans (Shrinks-same refl refl refl) (low h _))
      | inr off ↦ rw (idle, off) (Shrinks-refl x)
    ]
  ]

  pub dry_slot-Shrinks :
      (on_low : ℕ → Transport → Transport) (x : Transport) (i : ℕ)
      → ((g : ℕ) (y : Transport) → Shrinks y (on_low g y))
      → Shrinks x (dry_slot lib sctp on_low x i)
  dry_slot-Shrinks on_low x i low = elim (Option-cases (x.channels i)) [
    | inl empty ↦ rw (empty, dry_slot) (Shrinks-refl x)
    | inr (h, e) ↦ elim (Option-cases ((x.heap h).transport_arg)) [
      | inl no_context ↦ rw (e, no_context, dry_slot) (Shrinks-refl x)
      | inr (c, p) ↦
          rw (e, p, dry_slot) (dry_channel-Shrinks on_low x h c low (sid_of_context (x.heap h) c p))
    ]
  ]

  dry_loop-Shrinks :
      (rounds : ℕ) (on_low : ℕ → Transport → Transport) (x : Transport) (i stop : ℕ)
      → ((g : ℕ) (y : Transport) → Shrinks y (on_low g y))
      → Shrinks x (dry_loop lib sctp rounds on_low x i stop).0
  unfolding dry_loop
  dry_loop-Shrinks zero on_low x i stop low = Shrinks-refl x
  dry_loop-Shrinks (suc rounds) on_low x i stop low =
      let y = dry_slot lib sctp on_low x i in
      let j = (i + 1) % x.n_channels in
      let s = dry_slot-Shrinks on_low x i low in
      elim (Bool-cases (not y.is_buffered_amount_low || (j == stop))) [
        | inl done ↦ rw done s
        | inr more ↦ rw more (Shrinks-trans s (dry_loop-Shrinks rounds on_low y j stop low))
      ]

  pub sender_dry-Shrinks :
      (on_low : ℕ → Transport → Transport) (x : Transport)
      → ((g : ℕ) (y : Transport) → Shrinks y (on_low g y))
      → Shrinks x (handle_sender_dry_event lib sctp on_low x)
  unfolding handle_sender_dry_event
  sender_dry-Shrinks on_low x low = elim (Bool-cases (is_empty x.buffered_messages_outgoing)) [
    | inl empty ↦ rw empty (
        Shrinks-trans (Shrinks-same refl refl refl) (
          Shrinks-trans
            (dry_loop-Shrinks x.n_channels on_low (record x { is_buffered_amount_low = true })
              (first_sid lib sctp x) (first_sid lib sctp x) low)
            (Shrinks-same refl refl refl)))
    | inr waits ↦ rw waits (Shrinks-refl x)
  ]
