-- ===== src/Transport/Reset/Notifications.antt =====
-- Stream resets, changes of the association, and with them all notifications, and the registry of
-- channels.
use rawrtc_data_channel.Base.{
  ℕ, ◌≡◌, refl, ap, ◌∙◌, inl, inr, List, [], ◌∷◌, true, not, ◌&&◌, ◌||◌, some, leb, ltb, ◌==◌,
  Bool-cases, Option-cases,
}
use rawrtc_data_channel.Base.Code.{Code, is_error}
use rawrtc_data_channel.External.{Libre}
use rawrtc_data_channel.Channel.{Channel, Context, ChannelState, closing}
use rawrtc_data_channel.Transport.{Transport, Sctp}
use rawrtc_data_channel.Transport.State.{
  set_channel, AssocState, comm_up, comm_lost, shutdown_comp, cant_str_assoc, disconnect, is_closed,
  is_connecting, handle_association_change_event,
}
use rawrtc_data_channel.Transport.State.Closing.{channel_set_state-Shrinks, clear_slot-Shrinks}
use rawrtc_data_channel.Transport.State.Machine.{
  set_state_closed, connected_frame, close_data_channels-Shrinks,
}
use rawrtc_data_channel.Transport.Registry.{
  sid_of, WellFormed, Shrinks, Shrinks-refl, Shrinks-trans, Shrinks-same, Shrinks-WellFormed,
}
use rawrtc_data_channel.Transport.Reset.{
  StreamReset, Notification, assoc_change, partial_delivery, sender_dry, stream_reset, is_closing,
  reset_outgoing_stream, close_if_reset, reset_result, answer_reset, reset_channel, reset_stream,
  reset_streams, handle_stream_reset_event, by_type, handle_notification,
}
use rawrtc_data_channel.Transport.Reset.Registry.{
  set_channel-Shrinks, sid_of_context, partial_delivery-Shrinks, reset_outgoing_stream-Shrinks,
  sender_dry-Shrinks,
}

module _ (lib : Libre) (sctp : Sctp) where
  close_if_reset-Shrinks :
      (event : StreamReset) (x : Transport) (h : ℕ) (c : Context)
      → Shrinks x (close_if_reset lib sctp event x h c)
  unfolding close_if_reset
  close_if_reset-Shrinks event x h c =
      let k = x.heap h in
      let out = k.outgoing_stream_reset || event.outgoing_ssn in
      let y = set_channel x h (record k { outgoing_stream_reset = out }) in
      let s = set_channel-Shrinks x h (record k { outgoing_stream_reset = out }) refl in
      elim (Bool-cases (k.incoming_stream_reset && out)) [
        | inl both ↦ rw both (
            Shrinks-trans s (
              Shrinks-trans (channel_set_state-Shrinks y h ChannelState.closed)
                (clear_slot-Shrinks _ c.sid)))
        | inr not_yet ↦ rw not_yet s
      ]

  reset_result-Shrinks :
      (x : Transport) (h : ℕ) (r : Code × Transport)
      → Shrinks x r.1
      → Shrinks x (reset_result lib sctp h r).0
  reset_result-Shrinks x h (code, y) s = elim (Bool-cases (is_error code)) [
    | inl bad ↦ rw bad s
    | inr good ↦ rw good (Shrinks-trans s (channel_set_state-Shrinks y h closing))
  ]

  answer_reset-Shrinks :
      (x : Transport) (h : ℕ) (c : Context)
      → sid_of (x.heap h) ≡ some c.sid
      → Shrinks x (answer_reset lib sctp x h c).0
  unfolding answer_reset
  answer_reset-Shrinks x h c e =
      let k : Channel = record (x.heap h) { incoming_stream_reset = true } in
      let y = set_channel x h k in
      let s = set_channel-Shrinks x h k refl in
      elim (Bool-cases (is_closing (x.heap h).state)) [
        | inl on ↦ rw on s
        | inr off ↦ rw off (
            Shrinks-trans s (
              reset_result-Shrinks y h (reset_outgoing_stream lib sctp y h c)
                (reset_outgoing_stream-Shrinks lib sctp y h c (s.sids h ∙ e))))
      ]

  reset_channel-Shrinks :
      (event : StreamReset) (x : Transport) (h : ℕ) (c : Context)
      → sid_of (x.heap h) ≡ some c.sid
      → Shrinks x (reset_channel lib sctp event x h c)
  unfolding reset_channel
  reset_channel-Shrinks event x h c e = elim (Bool-cases event.incoming_ssn) [
    | inr out ↦ rw out (close_if_reset-Shrinks event x h c)
    | inl incoming ↦
        let r = answer_reset lib sctp x h c in
        let s = answer_reset-Shrinks x h c e in
        elim (Bool-cases r.1) [
          | inl on ↦ rw (incoming, on) (Shrinks-trans s (close_if_reset-Shrinks event r.0 h c))
          | inr off ↦ rw (incoming, off) s
        ]
  ]

  pub reset_stream-Shrinks :
      (event : StreamReset) (x : Transport) (sid : ℕ)
      → Shrinks x (reset_stream lib sctp event x sid)
  unfolding reset_stream
  reset_stream-Shrinks event x sid = elim (Bool-cases (leb x.n_channels sid)) [
    | inl out ↦ rw out (Shrinks-refl x)
    | inr fits ↦ elim (Option-cases (x.channels sid)) [
      | inl empty ↦ rw (fits, empty, reset_stream) (Shrinks-refl x)
      | inr (h, e) ↦ elim (Option-cases ((x.heap h).transport_arg)) [
        | inl no_context ↦ rw (fits, e, no_context, reset_stream) (Shrinks-refl x)
        | inr (c, p) ↦
            rw (fits, e, p, reset_stream)
              (reset_channel-Shrinks event x h c (sid_of_context (x.heap h) c p))
      ]
    ]
  ]

  reset_streams-Shrinks :
      (event : StreamReset) (l : List ℕ) (x : Transport)
      → Shrinks x (reset_streams lib sctp event l x)
  unfolding reset_streams
  reset_streams-Shrinks event [] x = Shrinks-refl x
  reset_streams-Shrinks event (sid ∷ l) x =
      Shrinks-trans (reset_stream-Shrinks event x sid) (reset_streams-Shrinks event l _)

  stream_reset-Shrinks :
      (x : Transport) (event : StreamReset) → Shrinks x (handle_stream_reset_event lib sctp x event)
  unfolding handle_stream_reset_event
  stream_reset-Shrinks x event = elim (Bool-cases (event.denied || event.failed_reset)) [
    | inl bad ↦ rw bad (Shrinks-refl x)
    | inr good ↦ rw good (reset_streams-Shrinks event event.stream_list x)
  ]

  -- an association that ends
  disconnect-Shrinks : (x : Transport) → Shrinks x (disconnect lib sctp x)
  disconnect-Shrinks x = elim (Bool-cases (not x.is_detached && not (is_closed x.state))) [
    | inr off ↦ rw off (Shrinks-refl x)
    | inl on ↦
        let f = set_state_closed lib sctp x in
        rw on (
          Shrinks-trans (close_data_channels-Shrinks x) (
            Shrinks-same (ap (λ (t : Transport). t.channels) f) (ap (λ (t : Transport). t.heap) f)
              (ap (λ (t : Transport). t.n_channels) f)))
  ]

  association_change-Shrinks :
      (x : Transport) (s : AssocState) → Shrinks x (handle_association_change_event lib sctp x s)
  unfolding handle_association_change_event
  association_change-Shrinks x comm_up = elim (Bool-cases (is_connecting x.state)) [
    | inl on ↦ rw on (connected_frame lib sctp x).1
    | inr off ↦ rw off (Shrinks-refl x)
  ]
  association_change-Shrinks x cant_str_assoc = disconnect-Shrinks x
  association_change-Shrinks x shutdown_comp = disconnect-Shrinks x
  association_change-Shrinks x comm_lost = disconnect-Shrinks x
  association_change-Shrinks x _ = Shrinks-refl x

  by_type-Shrinks :
      (on_low : ℕ → Transport → Transport) (x : Transport) (n : Notification)
      → ((g : ℕ) (y : Transport) → Shrinks y (on_low g y))
      → Shrinks x (by_type lib sctp on_low x n)
  unfolding by_type
  by_type-Shrinks on_low x (assoc_change s) low = association_change-Shrinks x s
  by_type-Shrinks on_low x (partial_delivery sid) low = partial_delivery-Shrinks x sid
  by_type-Shrinks on_low x sender_dry low = sender_dry-Shrinks lib sctp on_low x low
  by_type-Shrinks on_low x (stream_reset event) low = stream_reset-Shrinks x event
  by_type-Shrinks on_low x _ low = Shrinks-refl x

  -- A notification of usrsctp, whatever it is, keeps the registry well formed (every registered
  -- channel has a context with the number of its slot, and no channel is behind the last slot), if
  -- what the application does on a buffered amount low event registers no channel and moves none
  -- to another stream.
  pub notification-WellFormed :
      (on_low : ℕ → Transport → Transport) (x : Transport) (end sn_length : ℕ) (n : Notification)
      → ((g : ℕ) (y : Transport) → Shrinks y (on_low g y))
      → WellFormed x
      → WellFormed (handle_notification lib sctp on_low x end sn_length n)
  unfolding handle_notification
  notification-WellFormed on_low x end sn_length n low w =
      elim (Bool-cases (ltb 4294967295 end || not (sn_length == end))) [
        | inl bad ↦ rw bad w
        | inr good ↦ rw good (Shrinks-WellFormed (by_type-Shrinks on_low x n low) w)
      ]
