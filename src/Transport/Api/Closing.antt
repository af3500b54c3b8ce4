-- ===== src/Transport/Api/Closing.antt =====
-- Closing a data channel from the application's side.
use rawrtc_data_channel.Base.{
  ℕ, ◌≡◌, refl, ap, ◌∙◌, inl, inr, ◌∷◌, Bool, true, false, not, ◌&&◌, some, none, if◌then◌else◌,
  if_true, if_false, update_here, arith, Bool-cases,
}
use rawrtc_data_channel.Base.Code.{Code, success, unknown_error}
use rawrtc_data_channel.External.{Libre}
use rawrtc_data_channel.Channel.{Channel, Context, ChannelState, closing}
use rawrtc_data_channel.Transport.{Transport, Sctp, tick}
use rawrtc_data_channel.Transport.Send.{is_empty}
use rawrtc_data_channel.Transport.State.{channel_set_state, clear_slot}
use rawrtc_data_channel.Transport.State.Closing.{channel_set_state_heap, channel_set_state_channels}
use rawrtc_data_channel.Transport.State.Machine.{channel_set_state-framed}
use rawrtc_data_channel.Transport.Reset.{
  channel_registered, is_closing, set_context, reset_request, reset_outgoing_stream,
  close_improperly, finish_reset,
}
use rawrtc_data_channel.Transport.Reset.Requests.{is_accepted, refused_answer}
use rawrtc_data_channel.Transport.Reset.Directions.{requesting, reset_done}
use rawrtc_data_channel.Transport.Channels.{set_closing, channel_close_handler}
use rawrtc_data_channel.Transport.Api.{data_channel_close}

-- What closing does to the channel at `h`, with the context `c`: `r` is the result, and `accepted`
-- says whether the request to reset the stream gets through.
pub record Closes (accepted : Bool) (x : Transport) (h : ℕ) (c : Context) (r : Code × Transport)
    : Type 0 where
  pub returns : r.0 ≡ success
  pub state : (r.1.heap h).state ≡ (
      if is_closing (x.heap h).state
      then (x.heap h).state
      else if is_empty x.buffered_messages_outgoing && not accepted
      then ChannelState.closed
      else closing)
  pub slot : r.1.channels c.sid ≡ (
      if not (is_closing (x.heap h).state)
        && (is_empty x.buffered_messages_outgoing && not accepted)
      then none
      else some h)
  pub requests : r.1.resets ≡ (
      if not (is_closing (x.heap h).state) && (is_empty x.buffered_messages_outgoing && accepted)
      then reset_request c.sid ∷ x.resets
      else x.resets)

module _ (lib : Libre) (sctp : Sctp) where
  -- The transport when the channel has been closed without a reset of its stream.
  abbrev improper : Transport → ℕ → Context → Transport
  improper x h c = clear_slot (channel_set_state (tick x) h ChannelState.closed) c.sid

  improperly :
      (x : Transport) (h : ℕ) (c : Context) (error : Code)
      → x.channels c.sid ≡ some h
      → close_improperly (tick x) h c error ≡ (error, improper x h c)
  unfolding close_improperly
  improperly x h c error p =
      let y = channel_set_state (tick x) h ChannelState.closed in
      let there : y.channels c.sid ≡ some h =
        ap (λ f. f c.sid) (channel_set_state_channels (tick x) h ChannelState.closed) ∙ p in
      let reg : channel_registered y h c ≡ true = ground (arith, there) in
      if_true (channel_registered y h c) (error, improper x h c) (unknown_error, y) reg

  refused_reset :
      (x : Transport) (h : ℕ) (c : Context)
      → x.channels c.sid ≡ some h
      → is_empty x.buffered_messages_outgoing ≡ true
      → is_accepted lib sctp x ≡ false
      → set_closing lib sctp h (reset_outgoing_stream lib sctp x h c) ≡ improper x h c
  unfolding reset_outgoing_stream finish_reset
  refused_reset x h c p empty no_reset =
      let (error, bad, f) = refused_answer lib sctp x c no_reset in
      ap (λ (q : Code × Transport). set_closing lib sctp h q)
        (if_true _ _ _ empty
          ∙ ap (λ (q : Code × Transport). finish_reset lib sctp h c q) f
          ∙ if_true _ _ _ bad
          ∙ improperly x h c error p)
      ∙ if_true _ _ _ bad

  waiting_reset :
      (x : Transport) (h : ℕ) (c : Context)
      → is_empty x.buffered_messages_outgoing ≡ false
      → set_closing lib sctp h (reset_outgoing_stream lib sctp x h c)
        ≡ channel_set_state (set_context x h (record c { pending_stream_reset = true })) h closing
  unfolding reset_outgoing_stream
  waiting_reset x h c waits =
      ap (λ (q : Code × Transport). set_closing lib sctp h q) (if_false _ _ _ waits)

  accepted_reset :
      (x : Transport) (h : ℕ) (c : Context)
      → is_empty x.buffered_messages_outgoing ≡ true
      → is_accepted lib sctp x ≡ true
      → set_closing lib sctp h (reset_outgoing_stream lib sctp x h c)
        ≡ channel_set_state (requesting lib sctp x c) h closing
  accepted_reset x h c empty on =
      ap (λ (q : Code × Transport). set_closing lib sctp h q)
        (reset_done lib sctp x h c (record { nothing_queued = empty; accepted = on }))

  handled :
      (x : Transport) (h : ℕ) (c : Context)
      → (x.heap h).transport_arg ≡ some c
      → x.channels c.sid ≡ some h
      → channel_close_handler lib sctp x h
        ≡ (success, set_closing lib sctp h (reset_outgoing_stream lib sctp x h c))
  unfolding channel_close_handler
  handled x h c e p =
      let reg : channel_registered x h c ≡ true = ground arith in
      let done : Code × Transport =
        (success, set_closing lib sctp h (reset_outgoing_stream lib sctp x h c)) in
      let refused : Code × Transport = (unknown_error, x) in
      rw (e, channel_close_handler) (if_true (channel_registered x h c) done refused reg)

  -- Of a channel that is not closing yet.
  live-Closes :
      (x : Transport) (h : ℕ) (c : Context)
      → x.channels c.sid ≡ some h
      → is_closing (x.heap h).state ≡ false
      → Closes
          (is_accepted lib sctp x)
          x
          h
          c
          (success, set_closing lib sctp h (reset_outgoing_stream lib sctp x h c))
  unfolding channel_set_state
  live-Closes x h c p live =
      let heap_of = λ (t : Transport). (t.heap h).state in
      elim (Bool-cases (is_empty x.buffered_messages_outgoing)) [
        | inr waits ↦
            let f = waiting_reset x h c waits in
            record {
              returns = refl;
              state = ap heap_of f ∙ ground (arith, live, waits);
              slot = ap (λ (t : Transport). t.channels c.sid) f ∙ ground (arith, live, waits, p);
              requests = ap (λ (t : Transport). t.resets) f ∙ ground (arith, live, waits);
            }
        | inl empty ↦ elim (Bool-cases (is_accepted lib sctp x)) [
          | inl on ↦
              let f = accepted_reset x h c empty on in
              record {
                returns = refl;
                state = ap heap_of f ∙ ground (arith, live, empty, on);
                slot =
                    ap (λ (t : Transport). t.channels c.sid) f ∙ ground (arith, live, empty, on, p);
                requests = ap (λ (t : Transport). t.resets) f ∙ ground (arith, live, empty, on);
              }
          | inr off ↦
              let f = refused_reset x h c p empty off in
              let y = channel_set_state (tick x) h ChannelState.closed in
              record {
                returns = refl;
                state =
                    ap heap_of f
                    ∙ (ap (λ (k : Channel). k.state)
                          (channel_set_state_heap (tick x) h ChannelState.closed h)
                        ∙ ground (arith, live, empty, off));
                slot =
                    ap (λ (t : Transport). t.channels c.sid) f
                    ∙ (update_here y.channels c.sid none ∙ ground (arith, live, empty, off));
                requests =
                    ap (λ (t : Transport). t.resets) f
                    ∙ (ap (λ (t : Transport). t.resets)
                          (channel_set_state-framed (tick x) h ChannelState.closed)
                        ∙ ground (arith, live, empty, off));
              }
        ]
      ]

  -- Closing a channel that is initialised and registered succeeds. One that is closing or closed
  -- stays as it is, and nothing is requested. Otherwise, when nothing is queued, usrsctp is asked to
  -- reset the outgoing direction of its stream: if memory and usrsctp let the request through, the
  -- channel is closing and keeps its slot, and if not, it is closed at once and leaves its slot. When
  -- messages are queued, the channel is closing and nothing is requested yet.
  pub data_channel_close-Closes :
      (x : Transport) (h : ℕ) (c : Context)
      → (x.heap h).initialized ≡ true
      → (x.heap h).transport_arg ≡ some c
      → x.channels c.sid ≡ some h
      → Closes (is_accepted lib sctp x) x h c (data_channel_close lib sctp x h)
  unfolding data_channel_close
  data_channel_close-Closes x h c i e p =
      let up : not (x.heap h).initialized ≡ false = ap not i in
      elim (Bool-cases (is_closing (x.heap h).state)) [
        | inl done ↦
            let f : data_channel_close lib sctp x h ≡ (success, x) =
              if_false _ _ _ up ∙ if_true _ _ _ done in
            record {
              returns = ap (λ (q : Code × Transport). q.0) f;
              state = ap (λ (q : Code × Transport). (q.1.heap h).state) f ∙ ground (arith, done);
              slot = ap (λ (q : Code × Transport). q.1.channels c.sid) f ∙ ground (arith, done, p);
              requests = ap (λ (q : Code × Transport). q.1.resets) f ∙ ground (arith, done);
            }
        | inr live ↦
            let f : data_channel_close lib sctp x h
                ≡ (success, set_closing lib sctp h (reset_outgoing_stream lib sctp x h c)) =
              if_false _ _ _ up ∙ (if_false _ _ _ live ∙ handled x h c e p) in
            let k = live-Closes x h c p live in
            record {
              returns = ap (λ (q : Code × Transport). q.0) f;
              state = ap (λ (q : Code × Transport). (q.1.heap h).state) f ∙ k.state;
              slot = ap (λ (q : Code × Transport). q.1.channels c.sid) f ∙ k.slot;
              requests = ap (λ (q : Code × Transport). q.1.resets) f ∙ k.requests;
            }
      ]
