-- ===== src/Transport/State/Machine.antt =====
-- The state machine of the transport.
use rawrtc_data_channel.Base.{
  ℕ, zero, suc, ◌≤◌, ◌≡◌, refl, ap, ◌∙◌, inl, inr, true, false, Option, none, some, ltb, ltb→lt,
  arith, Bool-cases, Option-cases,
}
use rawrtc_data_channel.External.{Libre}
use rawrtc_data_channel.Channel.{Channel, ChannelState, opened}
use rawrtc_data_channel.Transport.{Transport, TransportState, connecting, connected, closed, Sctp}
use rawrtc_data_channel.Transport.Registry.{Shrinks, Shrinks-refl, Shrinks-trans, Shrinks-same}
use rawrtc_data_channel.Transport.Send.{sctp_send_deferred_messages}
use rawrtc_data_channel.Transport.Send.Frame.{deferred_messages_frame}
use rawrtc_data_channel.Transport.State.{
  channel_set_state, set_slot_state, set_states_from, set_data_channel_states, close_slot,
  close_from, close_data_channels, set_channel, clear_slot, fits_from, raise_state, set_state,
  raise_state_change, detach, close_socket, close_trace,
}
use rawrtc_data_channel.Transport.State.Closing.{
  channel_set_state-Shrinks, close_from-Shrinks, close_data_channels_effect,
}

-- `y` differs from `x` only in what channel states and their handlers change.
abbrev pub framed : Transport → Transport → Transport
framed x y = record x { heap = y.heap; events = y.events; channels = y.channels }

raise_state-framed :
    (c : Channel) (h : ℕ) (s : ChannelState) (x : Transport)
    → raise_state c h s x ≡ framed x (raise_state c h s x)
raise_state-framed c h opened x = elim (Bool-cases c.open_handler) [ inl e ↦ rw e | inr e ↦ rw e ]
raise_state-framed c h ChannelState.closed x = elim (Bool-cases c.close_handler) [
  | inl e ↦ rw e
  | inr e ↦ rw e
]
raise_state-framed c h ChannelState.connecting x = refl
raise_state-framed c h ChannelState.closing x = refl

pub channel_set_state-framed :
    (x : Transport) (h : ℕ) (s : ChannelState)
    → channel_set_state x h s ≡ framed x (channel_set_state x h s)
unfolding channel_set_state
channel_set_state-framed x h s =
    raise_state-framed (x.heap h) h s (set_channel x h (record (x.heap h) { state = s }))

framed_trans : (x : Transport) {y z : Transport} → y ≡ framed x y → z ≡ framed y z → z ≡ framed x z
framed_trans x {z = z} p q = q ∙ ap (λ w. framed w z) p

set_slot_state-framed :
    (x : Transport) (i : ℕ) (to : ChannelState) (from : Option ChannelState)
    → (set_slot_state x i to from ≡ framed x (set_slot_state x i to from))
      × Shrinks x (set_slot_state x i to from)
set_slot_state-framed x i to from = elim (Option-cases (x.channels i)) [
  | inl e ↦ rw (e, set_slot_state) (refl, Shrinks-refl x)
  | inr (h, e) ↦
      rw (e, set_slot_state)
        (elim (Bool-cases (fits_from from (x.heap h).state)) [
          | inl f ↦ rw f (channel_set_state-framed x h to, channel_set_state-Shrinks x h to)
          | inr f ↦ rw f (refl, Shrinks-refl x)
        ])
]

set_states_from-framed :
    (rounds i : ℕ) (x : Transport) (to : ChannelState) (from : Option ChannelState)
    → (set_states_from rounds i x to from ≡ framed x (set_states_from rounds i x to from))
      × Shrinks x (set_states_from rounds i x to from)
unfolding set_states_from
set_states_from-framed zero i x to from = (refl, Shrinks-refl x)
set_states_from-framed (suc rounds) i x to from =
    let (p, s) = set_slot_state-framed x i to from in
    let (q, t) = set_states_from-framed rounds (suc i) (set_slot_state x i to from) to from in
    (framed_trans x p q, Shrinks-trans s t)

close_slot-framed : (x : Transport) (i : ℕ) → close_slot x i ≡ framed x (close_slot x i)
close_slot-framed x i = elim (Option-cases (x.channels i)) [
  | inl e ↦ rw (e, close_slot)
  | inr (h, e) ↦
      rw (e, close_slot)
        (ap (λ y. clear_slot y i) (channel_set_state-framed x h ChannelState.closed))
]

close_from-framed :
    (rounds i : ℕ) (x : Transport) → close_from rounds i x ≡ framed x (close_from rounds i x)
unfolding close_from
close_from-framed zero i x = refl
close_from-framed (suc rounds) i x =
    framed_trans x (close_slot-framed x i) (close_from-framed rounds (suc i) (close_slot x i))

pub close_data_channels-framed :
    (x : Transport) → close_data_channels x ≡ framed x (close_data_channels x)
unfolding close_data_channels
close_data_channels-framed x = close_from-framed x.n_channels 0 x

detach-frame :
    (x : Transport) → detach x ≡ record x { is_detached = true; events = (detach x).events }
unfolding detach
detach-frame x = elim (Bool-cases x.has_detach_handler) [ inl e ↦ rw e | inr e ↦ rw e ]

close_socket-frame :
    (x : Transport)
    → close_socket x ≡ record x { has_socket = false; events = (close_socket x).events }
unfolding close_socket
close_socket-frame x = elim (Bool-cases x.has_socket) [ inl e ↦ rw e | inr e ↦ rw e ]

close_trace-frame : (x : Transport) → close_trace x ≡ record x { events = (close_trace x).events }
unfolding close_trace
close_trace-frame x = elim (Bool-cases x.has_trace_handle) [ inl e ↦ rw e | inr e ↦ rw e ]

-- Mark as detached, close the socket and the trace: the channels and their store stay.
closing_down :
    (x : Transport)
    → let y = close_trace (close_socket (detach x)) in
      y ≡ record x { is_detached = true; has_socket = false; events = y.events }
closing_down x =
    let d = detach x in
    let s = close_socket d in
    let t = close_trace s in
    close_trace-frame s
    ∙ ap (λ (w : Transport). record w { events = t.events }) (close_socket-frame d)
    ∙ ap (λ (w : Transport). record w { has_socket = false; events = t.events }) (detach-frame x)

pub close_data_channels-Shrinks : (x : Transport) → Shrinks x (close_data_channels x)
unfolding close_data_channels
close_data_channels-Shrinks x = close_from-Shrinks x.n_channels 0 x

stays_empty : {x y : Transport} {j : ℕ} → Shrinks x y → x.channels j ≡ none → y.channels j ≡ none
stays_empty {j = j} s e = ground (arith, s.slots j)

pub set_data_channel_states-framed :
    (x : Transport)
    → let y = set_data_channel_states x opened (some ChannelState.connecting) in
      (y ≡ framed x y) × Shrinks x y
unfolding set_data_channel_states
set_data_channel_states-framed x =
    set_states_from-framed x.n_channels 0 x opened (some ChannelState.connecting)

module _ (lib : Libre) (sctp : Sctp) where
  pub raise_state_change-frame :
      (s : TransportState) (x : Transport)
      → let y = raise_state_change lib sctp s x in y ≡ record x { events = y.events }
  unfolding raise_state_change
  raise_state_change-frame s x = elim (Bool-cases x.has_state_change_handler) [
    | inl e ↦ rw e
    | inr e ↦ rw e
  ]

  -- the transport that closing leaves: what is not named here is as in `z`
  abbrev pub shut_down : Transport → Transport → Transport
  shut_down z y = record z {
    is_detached = true;
    has_socket = false;
    state = closed;
    events = y.events;
  }

  pub set_state_closed :
      (x : Transport)
      → let y = set_state lib sctp x closed in y ≡ shut_down (close_data_channels x) y
  unfolding set_state
  set_state_closed x =
      let z = close_data_channels x in
      let b = close_trace (close_socket (detach z)) in
      let y = raise_state_change lib sctp closed (record b { state = closed }) in
      raise_state_change-frame closed (record b { state = closed })
      ∙ ap (λ (w : Transport). record w { state = closed; events = y.events }) (closing_down z)

  pub connecting_frame :
      (x : Transport)
      → let y = set_state lib sctp x connecting in
        y ≡ record x { state = connecting; events = y.events }
  unfolding set_state
  connecting_frame x = raise_state_change-frame connecting (record x { state = connecting })

  -- Closing the transport leaves it closed and detached, without a socket and without any channel;
  -- and every channel that was registered is closed. It wants a registry that has no channel
  -- behind the last slot.
  pub set_state_closed_effect :
      (x : Transport)
      → ((i : ℕ) → x.n_channels ≤ i → x.channels i ≡ none)
      → let y = set_state lib sctp x closed in
        (y.state ≡ closed)
        × (y.is_detached ≡ true)
        × (y.has_socket ≡ false)
        × ((j : ℕ) → y.channels j ≡ none)
        × ((j h : ℕ) → x.channels j ≡ some h → (y.heap h).state ≡ ChannelState.closed)
  set_state_closed_effect x in_range =
      let f = set_state_closed x in
      let z = close_data_channels x in
      let effect = close_data_channels_effect x in
      let small = close_data_channels-Shrinks x in
      (
        ap (λ (t : Transport). t.state) f,
        ap (λ (t : Transport). t.is_detached) f,
        ap (λ (t : Transport). t.has_socket) f,
        λ j. ap (λ (t : Transport). t.channels j) f ∙ elim (Bool-cases (ltb j x.n_channels)) [
          | inl lt ↦ (effect j (ltb→lt _ _ lt)).0
          | inr ge ↦ stays_empty small (in_range j (ground arith))
        ],
        λ j h e.
            ap (λ (t : Transport). (t.heap h).state) f ∙ elim (Bool-cases (ltb j x.n_channels)) [
              | inl lt ↦ (effect j (ltb→lt _ _ lt)).1 h e
              | inr ge ↦ absurd (ground (arith, in_range j))
            ],
      )

  -- Connecting leaves the transport connected, and it registers nothing: each slot holds what it held
  -- or nothing, and each channel keeps its stream.
  pub connected_frame :
      (x : Transport)
      → let y = set_state lib sctp x connected in (y.state ≡ connected) × Shrinks x y
  unfolding set_state
  connected_frame x =
      let a = record x { state = connected } in
      let b = (sctp_send_deferred_messages lib sctp a).1 in
      let c = set_data_channel_states b opened (some ChannelState.connecting) in
      let (p, s) = set_data_channel_states-framed b in
      let d = deferred_messages_frame lib sctp a in
      let r = raise_state_change-frame connected c in
      (
        ap (λ (t : Transport). t.state) r
            ∙ ap (λ (t : Transport). t.state) p
            ∙ ap (λ (t : Transport). t.state) d,
        Shrinks-trans
            (Shrinks-same (ap (λ (t : Transport). t.channels) d) (ap (λ (t : Transport). t.heap) d)
              (ap (λ (t : Transport). t.n_channels) d))
            (Shrinks-trans s (
              Shrinks-same (ap (λ (t : Transport). t.channels) r) (ap (λ (t : Transport). t.heap) r)
                (ap (λ (t : Transport). t.n_channels) r))),
      )
