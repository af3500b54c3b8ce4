-- ===== src/Transport/Lifecycle/Changes.antt =====
-- The changes of the transport's state: `set_state`, its callers, and the order of the states.
use rawrtc_data_channel.Base.{
  ℕ, ◌≡◌, refl, sym, ap, ◌∙◌, ◌≤◌, true, false, not, ◌&&◌, ◌||◌, Option, none, some, if◌then◌else◌,
  arith, ◌==◌, Bool-cases, Option-cases, inl, inr,
}
use rawrtc_data_channel.Base.Code.{Code, is_error}
use rawrtc_data_channel.External.{Libre}
use rawrtc_data_channel.Transport.{
  Transport, TransportState, new, connecting, connected, closed, Sctp, SocketOption, path_mtu, tick,
}
use rawrtc_data_channel.Channel.{ChannelState, opened}
use rawrtc_data_channel.Transport.Send.{is_connected, sctp_send_deferred_messages}
use rawrtc_data_channel.Transport.Send.Life.{deferred_messages-Keeps}
use rawrtc_data_channel.Transport.State.{
  set_state, is_closed, is_connecting, disconnect, AssocState, comm_up, comm_lost, restart,
  shutdown_comp, cant_str_assoc, other_assoc, handle_association_change_event, stop,
  set_data_channel_states,
}
use rawrtc_data_channel.Transport.State.Machine.{
  set_data_channel_states-framed, raise_state_change-frame, close_data_channels-framed,
  set_state_closed, connecting_frame,
}
use rawrtc_data_channel.Transport.Options.{set_option, return_code, set_mtu, is_started}
use rawrtc_data_channel.Transport.Start.{
  default_mtu, is_in_progress, is_new, close_on_error, transition, connect_to, start,
}
use rawrtc_data_channel.Transport.Lifecycle.{Keeps, Keeps-refl, Keeps-trans, Keeps-same, pair-Keeps}

abbrev pub rank : TransportState → ℕ
rank new = 0
rank connecting = 1
rank connected = 2
rank closed = 3

-- The detached flag says what the state says.
abbrev pub IsCoherent : Transport → Type 0
IsCoherent x = x.is_detached ≡ is_closed x.state

-- From `x` to `y` the state has not gone back, and no message was handed to usrsctp if `y` is not
-- yet connected or `x` was closed.
pub record Proceeds (x y : Transport) : Type 0 where
  pub coherent : IsCoherent x → IsCoherent y
  pub onward : rank x.state ≤ rank y.state
  pub not_yet : rank y.state ≤ 1 → y.wire ≡ x.wire
  pub no_more : x.state ≡ closed → y.wire ≡ x.wire

rank-le : (s : TransportState) → rank s ≤ 3
rank-le new = omega arith
rank-le connecting = omega arith
rank-le connected = omega arith
rank-le closed = omega arith

early : (s : TransportState) → rank s ≤ 1 → is_connected s ≡ false
early new l = refl
early connecting l = refl
early connected l = absurd (omega arith)
early closed l = refl

last : (s : TransportState) → 3 ≤ rank s → s ≡ closed
last new l = absurd (omega arith)
last connecting l = absurd (omega arith)
last connected l = absurd (omega arith)
last closed l = refl

comes_up : (s : TransportState) → is_connecting s ≡ true → s ≡ connecting
comes_up connecting e = refl
comes_up new e = absurd (cc)
comes_up connected e = absurd (cc)
comes_up closed e = absurd (cc)

at_start : (s : TransportState) → not (is_new s) ≡ false → s ≡ new
at_start new e = refl
at_start connecting e = absurd (cc)
at_start connected e = absurd (cc)
at_start closed e = absurd (cc)

pub Keeps-Proceeds : {x y : Transport} → Keeps x y → Proceeds x y
Keeps-Proceeds {x} {y} k = record {
  coherent = λ c. k.same_flag ∙ (c ∙ ap is_closed (sym k.same_state));
  onward = omega (arith, ap rank k.same_state);
  not_yet = λ l. k.same_wire (early x.state (omega (arith, ap rank k.same_state)));
  no_more = λ e. k.same_wire (ap is_connected e);
}

pub Proceeds-trans : {x y z : Transport} → Proceeds x y → Proceeds y z → Proceeds x z
Proceeds-trans {x} {y} {z} p q = record {
  coherent = λ c. q.coherent (p.coherent c);
  onward = omega (arith, p.onward, q.onward);
  not_yet = λ l. q.not_yet l ∙ p.not_yet (omega (arith, q.onward));
  no_more = λ e. q.no_more (last y.state (omega (arith, ap rank e, p.onward))) ∙ p.no_more e;
}

module _ (lib : Libre) (sctp : Sctp) where
  pub closing-Proceeds : (x : Transport) → Proceeds x (set_state lib sctp x closed)
  closing-Proceeds x =
      let f = set_state_closed lib sctp x in
      let y = set_state lib sctp x closed in
      let at : y.state ≡ closed = ap (λ (t : Transport). t.state) f in
      let gone : y.is_detached ≡ true = ap (λ (t : Transport). t.is_detached) f in
      let same : y.wire ≡ x.wire =
        ap (λ (t : Transport). t.wire) f
        ∙ ap (λ (t : Transport). t.wire) (close_data_channels-framed x) in
      record {
        coherent = λ c. gone ∙ sym (ap is_closed at);
        onward = rw at (rank-le x.state);
        not_yet = λ l. same;
        no_more = λ e. same;
      }

  disconnect-Proceeds : (x : Transport) → Proceeds x (disconnect lib sctp x)
  disconnect-Proceeds x = elim (Bool-cases (not x.is_detached && not (is_closed x.state))) [
    | inl on ↦ rw on (closing-Proceeds x)
    | inr off ↦ rw off (Keeps-Proceeds (Keeps-refl x))
  ]

  pub stop-Proceeds : (x : Transport) → Proceeds x (stop lib sctp x).1
  unfolding stop
  stop-Proceeds x = elim (Bool-cases (x.is_detached || is_closed x.state)) [
    | inl shut ↦ rw shut (Keeps-Proceeds (Keeps-refl x))
    | inr live ↦ rw live (closing-Proceeds x)
  ]

  -- Connecting to the peer and raising the change keep what is there once the state is set.
  connected-Keeps :
      (x : Transport) → Keeps (record x { state = connected }) (set_state lib sctp x connected)
  unfolding set_state
  connected-Keeps x =
      let a = record x { state = connected } in
      let b = (sctp_send_deferred_messages lib sctp a).1 in
      let c = set_data_channel_states b opened (some ChannelState.connecting) in
      let p = (set_data_channel_states-framed b).0 in
      let r = raise_state_change-frame lib sctp connected c in
      Keeps-trans (deferred_messages-Keeps lib sctp a) (
        Keeps-trans {y = c}
          (Keeps-same (ap (λ (t : Transport). t.state) p) (ap (λ (t : Transport). t.is_detached) p)
            (ap (λ (t : Transport). t.wire) p))
          (Keeps-same (ap (λ (t : Transport). t.state) r) (ap (λ (t : Transport). t.is_detached) r)
            (ap (λ (t : Transport). t.wire) r)))

  connected-Proceeds :
      (x : Transport) → x.state ≡ connecting → Proceeds x (set_state lib sctp x connected)
  connected-Proceeds x e =
      let k = connected-Keeps x in
      record {
        coherent = λ c. k.same_flag ∙ (c ∙ (ap is_closed e ∙ sym (ap is_closed k.same_state)));
        onward = omega (arith, ap rank e, ap rank k.same_state);
        not_yet = λ l. absurd (omega (arith, ap rank k.same_state));
        no_more = λ f. absurd (omega (arith, ap rank e, ap rank f));
      }

  pub association-Proceeds :
      (x : Transport) (s : AssocState) → Proceeds x (handle_association_change_event lib sctp x s)
  unfolding handle_association_change_event
  association-Proceeds x comm_up = elim (Bool-cases (is_connecting x.state)) [
    | inl on ↦ rw on (connected-Proceeds x (comes_up x.state on))
    | inr off ↦ rw off (Keeps-Proceeds (Keeps-refl x))
  ]
  association-Proceeds x comm_lost = disconnect-Proceeds x
  association-Proceeds x shutdown_comp = disconnect-Proceeds x
  association-Proceeds x cant_str_assoc = disconnect-Proceeds x
  association-Proceeds x restart = Keeps-Proceeds (Keeps-refl x)
  association-Proceeds x other_assoc = Keeps-Proceeds (Keeps-refl x)

  pub option-Keeps : (x : Transport) (o : SocketOption) → Keeps x (set_option lib sctp x o).1
  unfolding set_option
  option-Keeps x o = elim (Option-cases (sctp.setsockopt x.clock)) [
    | inl e ↦ rw (e, set_option) (Keeps-same refl refl refl)
    | inr (errno, e) ↦ rw (e, set_option) (Keeps-same refl refl refl)
  ]

  pub returned-Keeps :
      (x : Transport) (r : Option Code × Transport)
      → Keeps x r.1
      → Keeps x (return_code lib sctp r).1
  returned-Keeps x (none, y) k = k
  returned-Keeps x (some c, y) k = k

  pub mtu-Keeps : (x : Transport) (mtu : ℕ) → Keeps x (set_mtu lib sctp x mtu).1
  unfolding set_mtu
  mtu-Keeps x mtu = pair-Keeps (not x.has_socket) _ _ (Keeps-refl x) (
      pair-Keeps (not (is_started x.state)) _ _ (Keeps-refl x)
        (returned-Keeps x (set_option lib sctp x (path_mtu mtu)) (option-Keeps x (path_mtu mtu))))

  -- `out` of the start.
  out-Proceeds :
      (x : Transport) (r : Code × Transport)
      → Proceeds x r.1
      → Proceeds x (close_on_error lib sctp r).1
  out-Proceeds x (error, y) p = elim (Bool-cases (is_error error)) [
    | inl bad ↦ rw bad (Proceeds-trans p (closing-Proceeds y))
    | inr good ↦ rw good p
  ]

  connecting-Proceeds :
      (x : Transport) → x.state ≡ new → Proceeds x (set_state lib sctp x connecting)
  connecting-Proceeds x e =
      let f = connecting_frame lib sctp x in
      let at = ap (λ (t : Transport). t.state) f in
      record {
        coherent = λ c.
            ap (λ (t : Transport). t.is_detached) f
            ∙ (c ∙ (ap is_closed e ∙ sym (ap is_closed at)));
        onward = omega (arith, ap rank e, ap rank at);
        not_yet = λ l. ap (λ (t : Transport). t.wire) f;
        no_more = λ l. ap (λ (t : Transport). t.wire) f;
      }

  transition-Proceeds :
      (x : Transport) (p : ℕ) → x.state ≡ new → Proceeds x (transition lib sctp x p).1
  transition-Proceeds x p e =
      let y = record (set_state lib sctp x connecting) { remote_port = some p } in
      out-Proceeds x (set_mtu lib sctp y default_mtu) (
        Proceeds-trans (connecting-Proceeds x e) (
          Keeps-Proceeds
            (Keeps-trans {y = y} (Keeps-same refl refl refl) (mtu-Keeps y default_mtu))))

  connect-Proceeds :
      (x : Transport) (p : ℕ) → x.state ≡ new → Proceeds x (connect_to lib sctp x p).1
  connect-Proceeds x p e =
      let t : Proceeds x (tick x) = Keeps-Proceeds (Keeps-same refl refl refl) in
      let go = Proceeds-trans t (transition-Proceeds (tick x) p e) in
      elim (Option-cases (sctp.connect x.clock)) [
        | inl works ↦ rw (works, connect_to) go
        | inr (errno, fails) ↦ elim (Bool-cases (is_in_progress errno)) [
          | inl on ↦ rw (fails, on, connect_to) go
          | inr off ↦
              rw (fails, off, connect_to) (out-Proceeds x (lib.error_to_code errno, tick x) t)
        ]
      ]

  pub start-Proceeds : (x : Transport) (m p : ℕ) → Proceeds x (start lib sctp x m p).1
  unfolding start
  start-Proceeds x m p = elim (Bool-cases (not (is_new x.state))) [
    | inl late ↦ rw late (Keeps-Proceeds (Keeps-refl x))
    | inr fresh ↦
        let y = record x { remote_maximum_message_size = m } in
        rw fresh (
          Proceeds-trans {y = y} (Keeps-Proceeds (Keeps-same refl refl refl))
            (connect-Proceeds y (if p == 0 then x.port else p) (at_start x.state fresh)))
  ]
