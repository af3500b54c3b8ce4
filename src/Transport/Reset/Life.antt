-- ===== src/Transport/Reset/Life.antt =====
-- Notifications and the life of the transport: only a change of the association changes its state.
use rawrtc_data_channel.Base.{
  List, ℕ, zero, suc, ◌+◌, ◌%◌, refl, ap, List, [], ◌∷◌, not, ◌&&◌, ◌||◌, leb, ◌==◌, Bool, true,
  false, if◌then◌else◌, Bool-cases, Option-cases, inl, inr, none, some,
}
use rawrtc_data_channel.Base.Code.{Code, is_error}
use rawrtc_data_channel.External.{Libre}
use rawrtc_data_channel.Channel.{Context, ChannelState, closing}
use rawrtc_data_channel.Transport.{ResetRequest, Transport, Sctp}
use rawrtc_data_channel.Transport.Send.{is_empty}
use rawrtc_data_channel.Transport.State.{set_channel, channel_set_state}
use rawrtc_data_channel.Transport.State.Machine.{channel_set_state-framed}
use rawrtc_data_channel.Transport.Reset.Requests.{asked, whatever_answer}
use rawrtc_data_channel.Transport.Reset.{
  channel_registered, close_improperly, abort_message, handle_partial_delivery_event, finish_reset,
  reset_outgoing_stream, dry_channel, dry_slot, dry_loop, first_sid, handle_sender_dry_event,
  StreamReset, is_closing, close_if_reset, reset_result, answer_reset, reset_channel, reset_stream,
  reset_streams, handle_stream_reset_event,
}
use rawrtc_data_channel.Transport.Lifecycle.{Keeps, Keeps-refl, Keeps-trans, Keeps-same}

pub channel_set_state-Keeps :
    (x : Transport) (h : ℕ) (s : ChannelState) → Keeps x (channel_set_state x h s)
channel_set_state-Keeps x h s =
    let f = channel_set_state-framed x h s in
    Keeps-same (ap (λ (t : Transport). t.state) f) (ap (λ (t : Transport). t.is_detached) f)
      (ap (λ (t : Transport). t.wire) f)

close_improperly-Keeps :
    (x : Transport) (h : ℕ) (context : Context) (error : Code)
    → Keeps x (close_improperly x h context error).1
unfolding close_improperly
close_improperly-Keeps x h context error =
    let y = channel_set_state x h ChannelState.closed in
    let k = channel_set_state-Keeps x h ChannelState.closed in
    elim (Bool-cases (channel_registered y h context)) [
      | inl e ↦ rw e (Keeps-trans k (Keeps-same refl refl refl))
      | inr e ↦ rw e k
    ]

abort_message-Keeps :
    (x : Transport) (h : ℕ) (context : Context) → Keeps x (abort_message x h context)
unfolding abort_message
abort_message-Keeps x h context =
    elim (Bool-cases ((x.heap h).streamed && (x.heap h).message_handler)) [
      | inl on ↦ rw on (Keeps-same refl refl refl)
      | inr off ↦ rw off (Keeps-same refl refl refl)
    ]

-- The channel in a slot and its context.
pub slot-Keeps :
    (x : Transport) (i : ℕ) (f : ℕ → Context → Transport)
    → ((h : ℕ) (context : Context) → Keeps x (f h context))
    → (let r : Transport = elim (x.channels i) [
      | none ↦ x
      | some h ↦ elim ((x.heap h).transport_arg) [ none ↦ x | some context ↦ f h context ]
    ] in
        Keeps x r)
slot-Keeps x i f k = elim (Option-cases (x.channels i)) [
  | inl empty ↦ rw empty (Keeps-refl x)
  | inr (h, e) ↦ elim (Option-cases ((x.heap h).transport_arg)) [
    | inl no_context ↦ rw (e, no_context) (Keeps-refl x)
    | inr (c, p) ↦ rw (e, p) (k h c)
  ]
]

pub partial_delivery-Keeps :
    (x : Transport) (sid : ℕ) → Keeps x (handle_partial_delivery_event x sid)
unfolding handle_partial_delivery_event
partial_delivery-Keeps x sid = elim (Bool-cases (leb 65535 sid || leb x.n_channels sid)) [
  | inl out ↦ rw out (Keeps-refl x)
  | inr fits ↦
      rw fits (slot-Keeps x sid (λ h c. abort_message x h c) (λ h c. abort_message-Keeps x h c))
]

module _ (lib : Libre) (sctp : Sctp) where
  finish_reset-Keeps :
      (x : Transport) (h : ℕ) (context : Context) (error : Code) (l : List ResetRequest)
      → Keeps x (finish_reset lib sctp h context (error, asked x l)).1
  unfolding finish_reset
  finish_reset-Keeps x h context error l = elim (Bool-cases (is_error error)) [
    | inl bad ↦ rw bad (
        Keeps-trans {y = asked x l} (Keeps-same refl refl refl)
          (close_improperly-Keeps (asked x l) h context error))
    | inr good ↦ rw good (Keeps-same refl refl refl)
  ]

  pub reset_outgoing_stream-Keeps :
      (x : Transport) (h : ℕ) (context : Context)
      → Keeps x (reset_outgoing_stream lib sctp x h context).1
  unfolding reset_outgoing_stream finish_reset
  reset_outgoing_stream-Keeps x h context =
      elim (Bool-cases (is_empty x.buffered_messages_outgoing)) [
        | inr waits ↦ rw waits (Keeps-same refl refl refl)
        | inl empty ↦ rw empty (
            whatever_answer lib sctp x context (λ r. Keeps x (finish_reset lib sctp h context r).1)
              (finish_reset-Keeps x h context))
      ]

  module _ (on_low : ℕ → Transport → Transport)
      (low : (g : ℕ) (y : Transport) → Keeps y (on_low g y)) where
    dry_channel-Keeps :
        (x : Transport) (h : ℕ) (context : Context)
        → Keeps x (dry_channel lib sctp on_low x h context)
    unfolding dry_channel
    dry_channel-Keeps x h context = elim (Bool-cases context.pending_stream_reset) [
      | inl waits ↦
          rw waits
            (Keeps-trans (reset_outgoing_stream-Keeps x h context) (Keeps-same refl refl refl))
      | inr idle ↦ elim (Bool-cases (x.heap h).buffered_amount_low_handler) [
        | inl on ↦ rw (idle, on) (Keeps-trans (Keeps-same refl refl refl) (low h _))
        | inr off ↦ rw (idle, off) (Keeps-refl x)
      ]
    ]

    dry_slot-Keeps : (x : Transport) (i : ℕ) → Keeps x (dry_slot lib sctp on_low x i)
    dry_slot-Keeps x i =
        slot-Keeps x i (λ h c. dry_channel lib sctp on_low x h c) (λ h c. dry_channel-Keeps x h c)

    dry_loop-Keeps :
        (rounds : ℕ) (x : Transport) (i stop : ℕ)
        → Keeps x (dry_loop lib sctp rounds on_low x i stop).0
    unfolding dry_loop
    dry_loop-Keeps zero x i stop = Keeps-refl x
    dry_loop-Keeps (suc rounds) x i stop =
        let y = dry_slot lib sctp on_low x i in
        let j = (i + 1) % x.n_channels in
        let k = dry_slot-Keeps x i in
        elim (Bool-cases (not y.is_buffered_amount_low || (j == stop))) [
          | inl done ↦ rw done k
          | inr more ↦ rw more (Keeps-trans k (dry_loop-Keeps rounds y j stop))
        ]

    pub sender_dry-Keeps : (x : Transport) → Keeps x (handle_sender_dry_event lib sctp on_low x)
    unfolding handle_sender_dry_event
    sender_dry-Keeps x = elim (Bool-cases (is_empty x.buffered_messages_outgoing)) [
      | inl empty ↦ rw empty (
          Keeps-trans (Keeps-same refl refl refl) (
            Keeps-trans
              (dry_loop-Keeps x.n_channels (record x { is_buffered_amount_low = true })
                (first_sid lib sctp x) (first_sid lib sctp x))
              (Keeps-same refl refl refl)))
      | inr waits ↦ rw waits (Keeps-refl x)
    ]

  close_if_reset-Keeps :
      (event : StreamReset) (x : Transport) (h : ℕ) (context : Context)
      → Keeps x (close_if_reset lib sctp event x h context)
  unfolding close_if_reset
  close_if_reset-Keeps event x h context =
      let c = x.heap h in
      let out = c.outgoing_stream_reset || event.outgoing_ssn in
      let y = set_channel x h (record c { outgoing_stream_reset = out }) in
      elim (Bool-cases (c.incoming_stream_reset && out)) [
        | inl both ↦ rw both (
            Keeps-trans {y = y} (Keeps-same refl refl refl) (
              Keeps-trans (channel_set_state-Keeps y h ChannelState.closed)
                (Keeps-same refl refl refl)))
        | inr not_yet ↦ rw not_yet (Keeps-same refl refl refl)
      ]

  result-Keeps :
      (x : Transport) (h : ℕ) (r : Code × Transport)
      → Keeps x r.1
      → Keeps x (reset_result lib sctp h r).0
  result-Keeps x h (error, y) k = elim (Bool-cases (is_error error)) [
    | inl bad ↦ rw bad k
    | inr good ↦ rw good (Keeps-trans k (channel_set_state-Keeps y h closing))
  ]

  answer_reset-Keeps :
      (x : Transport) (h : ℕ) (context : Context) → Keeps x (answer_reset lib sctp x h context).0
  unfolding answer_reset
  answer_reset-Keeps x h context =
      let y = set_channel x h (record (x.heap h) { incoming_stream_reset = true }) in
      elim (Bool-cases (is_closing (x.heap h).state)) [
        | inl shut ↦ rw shut (Keeps-same refl refl refl)
        | inr live ↦ rw live (
            result-Keeps x h (reset_outgoing_stream lib sctp y h context) (
              Keeps-trans {y = y} (Keeps-same refl refl refl)
                (reset_outgoing_stream-Keeps y h context)))
      ]

  reset_channel-Keeps :
      (event : StreamReset) (x : Transport) (h : ℕ) (context : Context)
      → Keeps x (reset_channel lib sctp event x h context)
  unfolding reset_channel
  reset_channel-Keeps event x h context =
      let (y, go_on) : Transport × Bool =
        (if event.incoming_ssn then answer_reset lib sctp x h context else (x, true)) in
      let k : Keeps x y = answered x h context event.incoming_ssn in
      elim (Bool-cases go_on) [
        | inl on ↦ rw on (Keeps-trans k (close_if_reset-Keeps event y h context))
        | inr off ↦ rw off k
      ]
    where
      answered :
          (x : Transport) (h : ℕ) (context : Context) (b : Bool)
          → Keeps x ((if b then answer_reset lib sctp x h context else (x, true)).0)
      answered x h context true = answer_reset-Keeps x h context
      answered x h context false = Keeps-refl x

  reset_stream-Keeps :
      (event : StreamReset) (x : Transport) (sid : ℕ) → Keeps x (reset_stream lib sctp event x sid)
  unfolding reset_stream
  reset_stream-Keeps event x sid = elim (Bool-cases (leb x.n_channels sid)) [
    | inl out ↦ rw out (Keeps-refl x)
    | inr fits ↦ rw fits (
        slot-Keeps x sid (λ h c. reset_channel lib sctp event x h c)
          (λ h c. reset_channel-Keeps event x h c))
  ]

  reset_streams-Keeps :
      (event : StreamReset) (l : List ℕ) (x : Transport)
      → Keeps x (reset_streams lib sctp event l x)
  unfolding reset_streams
  reset_streams-Keeps event [] x = Keeps-refl x
  reset_streams-Keeps event (sid ∷ l) x =
      Keeps-trans (reset_stream-Keeps event x sid)
        (reset_streams-Keeps event l (reset_stream lib sctp event x sid))

  pub stream_reset-Keeps :
      (x : Transport) (event : StreamReset) → Keeps x (handle_stream_reset_event lib sctp x event)
  unfolding handle_stream_reset_event
  stream_reset-Keeps x event = elim (Bool-cases (event.denied || event.failed_reset)) [
    | inl refused ↦ rw refused (Keeps-refl x)
    | inr good ↦ rw good (reset_streams-Keeps event event.stream_list x)
  ]
