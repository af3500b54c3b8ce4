-- ===== src/Transport/Reset/Directions.antt =====
-- What the resets of the two directions of a stream (`handle_stream_reset_event`) do to a channel that
-- is in its slot.
use rawrtc_data_channel.Base.{
  ℕ, ◌≡◌, refl, ap, ◌∙◌, List, ◌∷◌, Bool, true, false, ◌&&◌, ◌||◌, if◌then◌else◌, if_true, if_false,
  leb, arith, Bool-cases, inl, inr,
}
use rawrtc_data_channel.Base.Code.{Code, success}
use rawrtc_data_channel.External.{Libre}
use rawrtc_data_channel.Channel.{Channel, Context, ChannelState, closing}
use rawrtc_data_channel.Transport.{Transport, Sctp, Event}
use rawrtc_data_channel.Transport.Send.{is_empty}
use rawrtc_data_channel.Transport.State.{set_channel, clear_slot, channel_set_state}
use rawrtc_data_channel.Transport.State.Machine.{channel_set_state-framed}
use rawrtc_data_channel.Transport.Reset.{
  StreamReset, is_closing, reset_outgoing_stream, finish_reset, reset_request, reset_result,
  close_if_reset, answer_reset, reset_channel, reset_stream, reset_streams,
  handle_stream_reset_event,
}
use rawrtc_data_channel.Transport.Reset.Requests.{asked, is_accepted, accepted_answer}
use rawrtc_data_channel.Transport.Reset.Standing.{
  Standing, Gone, moved, Gone-moved, renamed, Gone-renamed, or_true, or_false, stored,
  closing_state, closed_state, with_close, reset_of,
}

module _ (lib : Libre) (sctp : Sctp) where
  -- The outgoing direction of a channel whose incoming one has not been reset, or stays so.
  half_closed :
      {x : Transport} {h : ℕ} {c : Context} {k : Channel} {e : List Event} (event : StreamReset)
      → Standing x h c k e
      → (k.incoming_stream_reset && (k.outgoing_stream_reset || event.outgoing_ssn)) ≡ false
      → Standing
          (close_if_reset lib sctp event x h c)
          h
          c
          (record k { outgoing_stream_reset = k.outgoing_stream_reset || event.outgoing_ssn })
          e
  unfolding close_if_reset
  half_closed {x} {h} {c} {k} {e} event s off =
      let out = λ (l : Channel). l.outgoing_stream_reset || event.outgoing_ssn in
      let p : ((x.heap h).incoming_stream_reset && out (x.heap h)) ≡ false =
        ap (λ (l : Channel). l.incoming_stream_reset && out l) s.here ∙ off in
      let t = stored (record k { outgoing_stream_reset = out k }) s refl in
      moved
        (if_false _ _ _ p
          ∙ ap (λ (l : Channel). set_channel x h (record l { outgoing_stream_reset = out l }))
              s.here)
        t

  all_closed :
      {x : Transport} {h : ℕ} {c : Context} {k : Channel} {e : List Event} (event : StreamReset)
      → Standing x h c k e
      → (k.incoming_stream_reset && (k.outgoing_stream_reset || event.outgoing_ssn)) ≡ true
      → Gone
          (close_if_reset lib sctp event x h c)
          h
          c
          (record k {
            outgoing_stream_reset = k.outgoing_stream_reset || event.outgoing_ssn;
            state = ChannelState.closed;
          })
          (with_close k h e)
  unfolding close_if_reset
  all_closed {x} {h} {c} {k} {e} event s on =
      let out = λ (l : Channel). l.outgoing_stream_reset || event.outgoing_ssn in
      let p : ((x.heap h).incoming_stream_reset && out (x.heap h)) ≡ true =
        ap (λ (l : Channel). l.incoming_stream_reset && out l) s.here ∙ on in
      let t = stored (record k { outgoing_stream_reset = out k }) s refl in
      Gone-moved
        (if_true _ _ _ p
          ∙ ap
              (λ (l : Channel).
                clear_slot
                  (channel_set_state (set_channel x h (record l { outgoing_stream_reset = out l }))
                    h ChannelState.closed)
                  c.sid)
              s.here)
        (closed_state t)

  -- Nothing is queued, and usrsctp accepts the reset of a stream.
  pub record Resets (x : Transport) : Type 0 where
    pub nothing_queued : is_empty x.buffered_messages_outgoing ≡ true
    pub accepted : is_accepted lib sctp x ≡ true

  -- The transport when it has been asked to reset the stream of `c`.
  abbrev pub requesting : Transport → Context → Transport
  requesting x c = asked x (reset_request c.sid ∷ x.resets)

  pub reset_done :
      (x : Transport) (h : ℕ) (c : Context)
      → Resets x
      → reset_outgoing_stream lib sctp x h c ≡ (success, requesting x c)
  unfolding reset_outgoing_stream finish_reset
  reset_done x h c r =
      if_true _ _ _ r.nothing_queued
      ∙ ap (λ (q : Code × Transport). finish_reset lib sctp h c q)
          (accepted_answer lib sctp x c r.accepted)

  pub requested :
      {x : Transport} {h : ℕ} {c : Context} {k : Channel} {e : List Event}
      → Standing x h c k e
      → Standing (requesting x c) h c k e
  requested s = record {
    slot = s.slot;
    here = s.here;
    held = s.held;
    in_range = s.in_range;
    raised = s.raised;
  }

  found :
      {x : Transport} {h : ℕ} {c : Context} {k : Channel} {e : List Event} (event : StreamReset)
      → Standing x h c k e
      → reset_stream lib sctp event x c.sid ≡ reset_channel lib sctp event x h c
  unfolding reset_stream
  found {x} {h} {c} event s =
      let in_range : leb x.n_channels c.sid ≡ false = ground (arith, s.in_range) in
      rw (in_range, s.slot, ap (λ (l : Channel). l.transport_arg) s.here ∙ s.held, reset_stream)
        refl

  incoming_marked :
      {x : Transport} {h : ℕ} {c : Context} {k : Channel} {e : List Event} (o : Bool)
      → Standing x h c k e
      → is_closing k.state ≡ true
      → reset_stream lib sctp (reset_of true o c.sid) x c.sid
        ≡ close_if_reset lib sctp
            (reset_of true o c.sid)
            (set_channel x h (record k { incoming_stream_reset = true }))
            h
            c
  unfolding reset_channel answer_reset
  incoming_marked {x} {h} {c} {k} o s on =
      let event = reset_of true o c.sid in
      found event s
      ∙ (ap (λ (r : Transport × Bool). if r.1 then close_if_reset lib sctp event r.0 h c else r.0)
            (if_true (is_closing (x.heap h).state) _ _
              (ap (λ (l : Channel). is_closing l.state) s.here ∙ on))
          ∙ ap
              (λ (l : Channel).
                close_if_reset lib sctp event
                  (set_channel x h (record l { incoming_stream_reset = true })) h c)
              s.here)

  incoming_answered :
      {x : Transport} {h : ℕ} {c : Context} {k : Channel} {e : List Event} (o : Bool)
      → Standing x h c k e
      → is_closing k.state ≡ false
      → Resets x
      → reset_stream lib sctp (reset_of true o c.sid) x c.sid
        ≡ close_if_reset lib sctp
            (reset_of true o c.sid)
            (channel_set_state
              (requesting (set_channel x h (record k { incoming_stream_reset = true })) c)
              h
              closing)
            h
            c
  unfolding reset_channel answer_reset
  incoming_answered {x} {h} {c} {k} o s live r =
      let event = reset_of true o c.sid in
      let y = λ (l : Channel). set_channel x h (record l { incoming_stream_reset = true }) in
      found event s
      ∙ (ap (λ (r : Transport × Bool). if r.1 then close_if_reset lib sctp event r.0 h c else r.0)
            (if_false (is_closing (x.heap h).state) _ _
                (ap (λ (l : Channel). is_closing l.state) s.here ∙ live)
              ∙ ap (λ q. reset_result lib sctp h q)
                  (reset_done (y (x.heap h)) h c
                    (record { nothing_queued = r.nothing_queued; accepted = r.accepted })))
          ∙ ap
              (λ (l : Channel).
                close_if_reset lib sctp event (channel_set_state (requesting (y l) c) h closing) h
                  c)
              s.here)

  -- The first reset of the incoming direction of an open channel: it is answered.
  pub answers :
      {x : Transport} {h : ℕ} {c : Context} {k : Channel} {e : List Event}
      → Standing x h c k e
      → is_closing k.state ≡ false
      → k.outgoing_stream_reset ≡ false
      → Resets x
      → Standing
          (handle_stream_reset_event lib sctp x (reset_of true false c.sid))
          h
          c
          (record k { incoming_stream_reset = true; state = closing })
          e
  unfolding handle_stream_reset_event reset_streams
  answers {x} {h} {c} {k} {e} s live waits r =
      let l : Channel = record k { incoming_stream_reset = true } in
      moved (incoming_answered false s live r) (
        renamed
          (ap
            (λ o. record k {
              incoming_stream_reset = true;
              outgoing_stream_reset = o;
              state = closing;
            })
            (or_false k.outgoing_stream_reset))
          (half_closed (reset_of true false c.sid) (closing_state (requested (stored l s refl)))
            (or_false k.outgoing_stream_reset ∙ waits)))

  -- A reset of the incoming direction of a channel that is closing.
  pub incoming_first :
      {x : Transport} {h : ℕ} {c : Context} {k : Channel} {e : List Event}
      → Standing x h c k e
      → is_closing k.state ≡ true
      → k.outgoing_stream_reset ≡ false
      → Standing
          (handle_stream_reset_event lib sctp x (reset_of true false c.sid))
          h
          c
          (record k { incoming_stream_reset = true })
          e
  unfolding handle_stream_reset_event reset_streams
  incoming_first {x} {h} {c} {k} {e} s on waits = moved (incoming_marked false s on) (
      renamed
        (ap (λ o. record k { incoming_stream_reset = true; outgoing_stream_reset = o })
          (or_false k.outgoing_stream_reset))
        (half_closed (reset_of true false c.sid)
          (stored (record k { incoming_stream_reset = true }) s refl)
          (or_false k.outgoing_stream_reset ∙ waits)))

  -- The same as the last of the two directions.
  pub incoming_last :
      {x : Transport} {h : ℕ} {c : Context} {k : Channel} {e : List Event}
      → Standing x h c k e
      → is_closing k.state ≡ true
      → k.outgoing_stream_reset ≡ true
      → Gone
          (handle_stream_reset_event lib sctp x (reset_of true false c.sid))
          h
          c
          (record k { incoming_stream_reset = true; state = ChannelState.closed })
          (with_close k h e)
  unfolding handle_stream_reset_event reset_streams
  incoming_last {x} {h} {c} {k} {e} s on out = Gone-moved (incoming_marked false s on) (
      Gone-renamed
        (ap
          (λ o. record k {
            incoming_stream_reset = true;
            outgoing_stream_reset = o;
            state = ChannelState.closed;
          })
          (or_false k.outgoing_stream_reset))
        (all_closed (reset_of true false c.sid)
          (stored (record k { incoming_stream_reset = true }) s refl)
          (or_false k.outgoing_stream_reset ∙ out)))

  -- usrsctp has reset the outgoing direction before the incoming one.
  pub outgoing_first :
      {x : Transport} {h : ℕ} {c : Context} {k : Channel} {e : List Event}
      → Standing x h c k e
      → k.incoming_stream_reset ≡ false
      → Standing
          (handle_stream_reset_event lib sctp x (reset_of false true c.sid))
          h
          c
          (record k { outgoing_stream_reset = true })
          e
  unfolding handle_stream_reset_event reset_streams reset_channel
  outgoing_first {x} {h} {c} {k} {e} s waits = moved (found (reset_of false true c.sid) s) (
      renamed (ap (λ o. record k { outgoing_stream_reset = o }) (or_true k.outgoing_stream_reset)) (
        half_closed (reset_of false true c.sid) s
          (ap (λ i. i && (k.outgoing_stream_reset || true)) waits)))

  -- The same as the last of the two directions.
  pub outgoing_last :
      {x : Transport} {h : ℕ} {c : Context} {k : Channel} {e : List Event}
      → Standing x h c k e
      → k.incoming_stream_reset ≡ true
      → Gone
          (handle_stream_reset_event lib sctp x (reset_of false true c.sid))
          h
          c
          (record k { outgoing_stream_reset = true; state = ChannelState.closed })
          (with_close k h e)
  unfolding handle_stream_reset_event reset_streams reset_channel
  outgoing_last {x} {h} {c} {k} {e} s in_done = Gone-moved (found (reset_of false true c.sid) s) (
      Gone-renamed
        (ap (λ o. record k { outgoing_stream_reset = o; state = ChannelState.closed })
          (or_true k.outgoing_stream_reset))
        (all_closed (reset_of false true c.sid) s (
          ap (λ i. i && (k.outgoing_stream_reset || true)) in_done
          ∙ or_true k.outgoing_stream_reset)))

  close_if_reset-resets :
      (event : StreamReset) (x : Transport) (h : ℕ) (c : Context)
      → (close_if_reset lib sctp event x h c).resets ≡ x.resets
  unfolding close_if_reset
  close_if_reset-resets event x h c =
      let k = x.heap h in
      let out = k.outgoing_stream_reset || event.outgoing_ssn in
      let y = set_channel x h (record k { outgoing_stream_reset = out }) in
      elim (Bool-cases (k.incoming_stream_reset && out)) [
        | inl both ↦
            rw both
              (ap (λ (t : Transport). t.resets) (channel_set_state-framed y h ChannelState.closed))
        | inr not_yet ↦ rw not_yet refl
      ]

  -- What the answer asks usrsctp for.
  pub answer_requests :
      {x : Transport} {h : ℕ} {c : Context} {k : Channel} {e : List Event}
      → Standing x h c k e
      → is_closing k.state ≡ false
      → Resets x
      → (handle_stream_reset_event lib sctp x (reset_of true false c.sid)).resets
        ≡ reset_request c.sid ∷ x.resets
  unfolding handle_stream_reset_event reset_streams channel_set_state
  answer_requests {x} {h} {c} {k} s live r =
      ap (λ (t : Transport). t.resets) (incoming_answered false s live r)
      ∙ close_if_reset-resets (reset_of true false c.sid)
          (channel_set_state
            (requesting (set_channel x h (record k { incoming_stream_reset = true })) c) h closing)
          h c
