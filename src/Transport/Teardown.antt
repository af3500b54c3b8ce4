-- ===== src/Transport/Teardown.antt =====
-- The end of a channel on both transports: `rawrtc_data_channel_close` on one of them, and the
-- stream resets that usrsctp then reports on each.
mod Tests
use rawrtc_data_channel.Base.{
  ℕ, ◌≡◌, refl, ap, sym, ◌∙◌, List, ◌∷◌, Bool, true, false, not, some, if_true, if_false, ◌==◌,
  arith,
}
use rawrtc_data_channel.Base.Code.{Code, success, is_error, unknown_error}
use rawrtc_data_channel.External.{Libre}
use rawrtc_data_channel.Channel.{Channel, Context, ChannelState, closing}
use rawrtc_data_channel.Transport.{Transport, Sctp, Event, ResetRequest}
use rawrtc_data_channel.Transport.State.{channel_set_state}
use rawrtc_data_channel.Transport.Reset.{
  StreamReset, reset_request, is_closing, channel_registered, reset_outgoing_stream,
  handle_stream_reset_event,
}
use rawrtc_data_channel.Transport.Reset.Standing.{
  Standing, Gone, moved, Gone-moved, closing_state, with_close, reset_of,
}
use rawrtc_data_channel.Transport.Reset.Directions.{
  requested, requesting, answer_requests, Resets, reset_done, answers, incoming_first,
  incoming_last, outgoing_first, outgoing_last,
}
use rawrtc_data_channel.Transport.Channels.{set_closing, channel_close_handler}
use rawrtc_data_channel.Transport.Api.{data_channel_close}

-- A channel that has been created, is not closing, and of which no direction has been reset.
pub record IsLive (k : Channel) : Type 0 where
  pub created : k.initialized ≡ true
  pub not_closing : is_closing k.state ≡ false
  pub no_incoming : k.incoming_stream_reset ≡ false
  pub no_outgoing : k.outgoing_stream_reset ≡ false

-- The channel when both directions have been reset.
abbrev pub ended : Channel → Channel
ended k = record k {
  incoming_stream_reset = true;
  outgoing_stream_reset = true;
  state = ChannelState.closed;
}

-- What usrsctp reports of a request when it has been carried out: to the one that made it, and to
-- its peer, for which the outgoing direction of the request is the incoming one.
abbrev pub on_own : ResetRequest → StreamReset
on_own q = record {
  denied = false;
  failed_reset = false;
  incoming_ssn = not q.is_outgoing;
  outgoing_ssn = q.is_outgoing;
  stream_list = q.stream_list;
}

abbrev pub on_peer : ResetRequest → StreamReset
on_peer q = record {
  denied = false;
  failed_reset = false;
  incoming_ssn = q.is_outgoing;
  outgoing_ssn = not q.is_outgoing;
  stream_list = q.stream_list;
}

module _ (lib : Libre) (sctp : Sctp) where
  handler_closes :
      {x : Transport} {h : ℕ} {c : Context} {k : Channel} {e : List Event}
      → Standing x h c k e
      → Resets lib sctp x
      → channel_close_handler lib sctp x h
        ≡ (success, channel_set_state (requesting lib sctp x c) h closing)
  unfolding channel_close_handler
  handler_closes {x} {h} {c} {k} {e} s r =
      let held : (x.heap h).transport_arg ≡ some c =
        ap (λ (l : Channel). l.transport_arg) s.here ∙ s.held in
      let registered : channel_registered x h c ≡ true = ground (arith, s.slot) in
      let done : Code × Transport =
        (success, set_closing lib sctp h (reset_outgoing_stream lib sctp x h c)) in
      let refused : Code × Transport = (unknown_error, x) in
      rw (held, channel_close_handler)
        (if_true (channel_registered x h c) done refused registered
          ∙ ap (λ (q : Code × Transport). (success, set_closing lib sctp h q))
              (reset_done lib sctp x h c r))

  starts_closing :
      {x : Transport} {h : ℕ} {c : Context} {k : Channel} {e : List Event}
      → Standing x h c k e
      → IsLive k
      → Resets lib sctp x
      → data_channel_close lib sctp x h
        ≡ (success, channel_set_state (requesting lib sctp x c) h closing)
  unfolding data_channel_close
  starts_closing {x} {h} {c} {k} {e} s live r =
      if_false _ _ _ (ap (λ (l : Channel). not l.initialized) s.here ∙ ap not live.created)
      ∙ (if_false _ _ _ (ap (λ (l : Channel). is_closing l.state) s.here ∙ live.not_closing)
          ∙ handler_closes s r)

  closes :
      {x : Transport} {h : ℕ} {c : Context} {k : Channel} {e : List Event}
      → Standing x h c k e
      → IsLive k
      → Resets lib sctp x
      → Standing (data_channel_close lib sctp x h).1 h c (record k { state = closing }) e
  closes {x} {h} {c} {k} {e} s live r =
      moved (ap (λ (q : Code × Transport). q.1) (starts_closing s live r))
        (closing_state (requested lib sctp s))

  -- What closing the channel at `h` of `x` has done, with the result `r`, and what the resets that
  -- are requested do on it and on the peer `y`.
  pub record TornDown (x y : Transport) (h g : ℕ) (c d : Context) (k l : Channel)
      (e e' : List Event) (r : Code × Transport) : Type 0 where
    pub closed_well : r.0 ≡ success
    pub request : ResetRequest
    pub requests : r.1.resets ≡ request ∷ x.resets
    pub answer : ResetRequest
    pub answers_it :
        (handle_stream_reset_event lib sctp y (on_peer request)).resets ≡ answer ∷ y.resets
    pub incoming_then_outgoing :
        Gone
          (handle_stream_reset_event lib sctp
            (handle_stream_reset_event lib sctp r.1 (on_peer answer))
            (on_own request))
          h
          c
          (ended k)
          (with_close k h e)
    pub outgoing_then_incoming :
        Gone
          (handle_stream_reset_event lib sctp
            (handle_stream_reset_event lib sctp r.1 (on_own request))
            (on_peer answer))
          h
          c
          (ended k)
          (with_close k h e)
    pub peer_closing :
        Standing
          (handle_stream_reset_event lib sctp y (on_peer request))
          g
          d
          (record l { incoming_stream_reset = true; state = closing })
          e'
    pub peer_gone :
        Gone
          (handle_stream_reset_event lib sctp
            (handle_stream_reset_event lib sctp y (on_peer request))
            (on_own answer))
          g
          d
          (ended l)
          (with_close l g e')

  -- A channel and its counterpart are in the slots of one stream, both created, not closing, and
  -- without a reset direction. Nothing is queued on either transport, and usrsctp accepts the
  -- request of either to reset a stream. Then `rawrtc_data_channel_close` of the channel succeeds and
  -- hands one request to usrsctp. When the request arrives at the peer, the counterpart is closing,
  -- and the peer hands one request to usrsctp as its answer. When the outgoing direction of each
  -- request and the incoming one of the other's have been reset, on the first transport in either
  -- order, the channel and its counterpart are closed and have left their slots. On both sides the
  -- close handler is called once if it is set, and no other handler is.
  pub close-TornDown :
      (x y : Transport) (h g : ℕ) (c d : Context) (k l : Channel) (e e' : List Event)
      → Standing x h c k e
      → Standing y g d l e'
      → d.sid ≡ c.sid
      → IsLive k
      → IsLive l
      → Resets lib sctp x
      → Resets lib sctp y
      → TornDown x y h g c d k l e e' (data_channel_close lib sctp x h)
  unfolding channel_set_state
  close-TornDown x y h g c d k l e e' s t same live live' r r' =
      let s1 = closes s live r in
      let answered = answers lib sctp t live'.not_closing live'.no_outgoing r' in
      let ends = λ (sid : ℕ).
        handle_stream_reset_event lib sctp
          (handle_stream_reset_event lib sctp y (reset_of true false sid))
          (reset_of false true d.sid) in
      record {
        closed_well = ap (λ (q : Code × Transport). q.0) (starts_closing s live r);
        request = reset_request c.sid;
        requests = ap (λ (q : Code × Transport). q.1.resets) (starts_closing s live r);
        answer = reset_request d.sid;
        answers_it =
            ap
              (λ (sid : ℕ). (handle_stream_reset_event lib sctp y (reset_of true false sid)).resets)
              (sym same)
            ∙ answer_requests lib sctp t live'.not_closing r';
        incoming_then_outgoing =
            Gone-moved
              (ap
                (λ (sid : ℕ).
                  handle_stream_reset_event lib sctp
                    (handle_stream_reset_event lib sctp (data_channel_close lib sctp x h).1
                      (reset_of true false sid))
                    (reset_of false true c.sid))
                same)
              (outgoing_last lib sctp (incoming_first lib sctp s1 refl live.no_outgoing) refl);
        outgoing_then_incoming =
            Gone-moved
              (ap
                (λ (sid : ℕ).
                  handle_stream_reset_event lib sctp
                    (handle_stream_reset_event lib sctp (data_channel_close lib sctp x h).1
                      (reset_of false true c.sid))
                    (reset_of true false sid))
                same)
              (incoming_last lib sctp (outgoing_first lib sctp s1 live.no_incoming) refl refl);
        peer_closing =
            moved
              (ap (λ (sid : ℕ). handle_stream_reset_event lib sctp y (reset_of true false sid))
                (sym same))
              answered;
        peer_gone = Gone-moved (ap ends (sym same)) (outgoing_last lib sctp answered refl);
      }
