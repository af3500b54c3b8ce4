-- ===== src/Transport/Channels/Life.antt =====
-- Creating, closing and writing to channels, and the life of the transport.
use rawrtc_data_channel.Base.{
  ℕ, refl, Bool, true, false, ◌==◌, Bool-cases, Option-cases, inl, inr, Option, none, some,
  if◌then◌else◌,
}
use rawrtc_data_channel.Base.Code.{Code, is_error, Result, ok, err}
use rawrtc_data_channel.External.{Libre, Mbuf}
use rawrtc_data_channel.External.Dtls.{Dtls, DtlsRole, DtlsState}
use rawrtc_data_channel.Parameters.{Parameters}
use rawrtc_data_channel.Dcep.{data_channel_open_message_create}
use rawrtc_data_channel.Channel.{Context, opened, closing}
use rawrtc_data_channel.Transport.{Transport, Sctp, new_channel, emit, tick, ppid_dcep}
use rawrtc_data_channel.Transport.Send.{is_connected, send_message}
use rawrtc_data_channel.Transport.Send.Life.{send_message-Keeps}
use rawrtc_data_channel.Transport.State.{channel_set_state}
use rawrtc_data_channel.Transport.Reset.{channel_registered, reset_outgoing_stream}
use rawrtc_data_channel.Transport.Reset.Life.{channel_set_state-Keeps, reset_outgoing_stream-Keeps}
use rawrtc_data_channel.Transport.Channels.{
  fill_slot, call_channel_handler, channel_register, find_free_sid, first_of_role,
  channel_context_create, channel_create_negotiated, after_open, send_open, open_on, open_with_role,
  channel_create_inband, is_dtls_connected, register_created, channel_create_handler, set_closing,
  channel_close_handler, send_on, send_empty, channel_send_handler,
}
use rawrtc_data_channel.Transport.Lifecycle.{
  Keeps, Keeps-refl, Keeps-trans, Keeps-same, if-Keeps, pair-Keeps,
}

register_in-Keeps :
    (x y : Transport) (h : ℕ)
    → Keeps x y
    → Keeps x (if is_connected y.state then channel_set_state y h opened else y)
register_in-Keeps x y h k =
    if-Keeps (is_connected y.state) (channel_set_state y h opened) y
      (Keeps-trans k (channel_set_state-Keeps y h opened)) k

pub channel_register-Keeps :
    (x : Transport) (h : ℕ) (context : Context) (raise_event : Bool)
    → Keeps x (channel_register x h context raise_event)
unfolding channel_register
channel_register-Keeps x h context false =
    register_in-Keeps x (fill_slot x h context) h (Keeps-same refl refl refl)
channel_register-Keeps x h context true =
    let y = fill_slot x h context in
    register_in-Keeps x (call_channel_handler y h) h (
      if-Keeps x.has_data_channel_handler (emit (new_channel h) y) y (Keeps-same refl refl refl)
        (Keeps-same refl refl refl))

module _ (lib : Libre) (sctp : Sctp) where
  opened-Keeps :
      (x : Transport) (context : Context) (r : Code × Transport)
      → Keeps x r.1
      → Keeps x (after_open lib sctp context r).1
  opened-Keeps x context (error, y) k = elim (Bool-cases (is_error error)) [
    | inl bad ↦ rw bad k
    | inr good ↦ rw good k
  ]

  send_open-Keeps :
      (x : Transport) (context : Context) (p : Parameters)
      → Keeps x (send_open lib sctp x context p).1
  unfolding send_open
  send_open-Keeps x context p = by_message (data_channel_open_message_create lib x.clock p)
    where
      by_message :
          (r : Result Mbuf)
          → (let q : Result Context × Transport = elim r [
            | err e ↦ (err e, x)
            | ok b ↦ after_open lib sctp context (send_message lib sctp x none context b ppid_dcep)
          ] in
              Keeps x q.1)
      by_message (err e) = Keeps-refl x
      by_message (ok b) =
          opened-Keeps x context (send_message lib sctp x none context b ppid_dcep)
            (send_message-Keeps lib sctp x none context b ppid_dcep)

  open_on-Keeps :
      (x : Transport) (sid : Option ℕ) (p : Parameters) → Keeps x (open_on lib sctp x sid p).1
  unfolding open_on
  open_on-Keeps x none p = Keeps-refl x
  open_on-Keeps x (some sid) p = by_context (channel_context_create lib x.clock sid false)
    where
      by_context :
          (r : Result Context)
          → (let q : Result Context × Transport = elim r [
            | err e ↦ (err e, tick x)
            | ok context ↦ send_open lib sctp (tick x) context p
          ] in
              Keeps x q.1)
      by_context (err e) = Keeps-same refl refl refl
      by_context (ok context) =
          Keeps-trans {y = tick x} (Keeps-same refl refl refl) (send_open-Keeps (tick x) context p)

  with_role-Keeps :
      (x : Transport) (r : Code × DtlsRole) (p : Parameters)
      → Keeps x (open_with_role lib sctp x r p).1
  unfolding open_with_role
  with_role-Keeps x (error, role) p = elim (Bool-cases (is_error error)) [
    | inl bad ↦ rw bad (Keeps-refl x)
    | inr good ↦ rw good (by_first (first_of_role role))
  ]
    where
      by_first :
          (o : Option ℕ)
          → (let q : Result Context × Transport = elim o [
            | none ↦ (err Code.invalid_state, x)
            | some i ↦ open_on lib sctp x (find_free_sid x.n_channels x i) p
          ] in
              Keeps x q.1)
      by_first none = Keeps-refl x
      by_first (some i) = open_on-Keeps x (find_free_sid x.n_channels x i) p

  inband-Keeps :
      (dtls : Dtls) (x : Transport) (p : Parameters)
      → Keeps x (channel_create_inband lib sctp dtls x p).1
  unfolding channel_create_inband
  inband-Keeps dtls x p = by_state (dtls.state_getter x.clock)
    where
      by_state :
          (r : Code × DtlsState)
          → (let q : Result Context × Transport =
                (if is_error r.0
                  then (err Code.external_error, x)
                  else if is_dtls_connected r.1
                  then open_with_role lib sctp x (dtls.role_getter x.clock) p
                  else (err Code.invalid_state, x)) in
              Keeps x q.1)
      by_state (error, state) = pair-Keeps (is_error error) _ _ (Keeps-refl x) (
          pair-Keeps (is_dtls_connected state) _ _ (with_role-Keeps x (dtls.role_getter x.clock) p)
            (Keeps-refl x))

  register_created-Keeps :
      (x : Transport) (h : ℕ) (r : Result Context × Transport)
      → Keeps x r.1
      → Keeps x (register_created lib sctp h r).1
  register_created-Keeps x h (err e, y) k = k
  register_created-Keeps x h (ok context, y) k =
      Keeps-trans k (channel_register-Keeps y h context false)

  pub create-Keeps :
      (dtls : Dtls) (x : Transport) (h : ℕ) (p : Parameters)
      → Keeps x (channel_create_handler lib sctp dtls x h p).1
  unfolding channel_create_handler
  create-Keeps dtls x h p =
      pair-Keeps p.negotiated _ _
        (register_created-Keeps x h (channel_create_negotiated lib x p, tick x)
          (Keeps-same refl refl refl))
        (register_created-Keeps x h (channel_create_inband lib sctp dtls x p)
          (inband-Keeps dtls x p))

  closing-Keeps :
      (x : Transport) (h : ℕ) (r : Code × Transport)
      → Keeps x r.1
      → Keeps x (set_closing lib sctp h r)
  closing-Keeps x h (error, y) k = elim (Bool-cases (is_error error)) [
    | inl bad ↦ rw bad k
    | inr good ↦ rw good (Keeps-trans k (channel_set_state-Keeps y h closing))
  ]

  pub close-Keeps : (x : Transport) (h : ℕ) → Keeps x (channel_close_handler lib sctp x h).1
  unfolding channel_close_handler
  close-Keeps x h = elim (Option-cases ((x.heap h).transport_arg)) [
    | inl e ↦ rw (e, channel_close_handler) (Keeps-refl x)
    | inr (c, e) ↦
        rw (e, channel_close_handler)
          (pair-Keeps (channel_registered x h c) _ _
            (closing-Keeps x h (reset_outgoing_stream lib sctp x h c)
              (reset_outgoing_stream-Keeps lib sctp x h c))
            (Keeps-refl x))
  ]

  on-Keeps : (x : Transport) (h : ℕ) (b : Mbuf) (ppid : ℕ) → Keeps x (send_on lib sctp x h b ppid).1
  on-Keeps x h b ppid = elim (Option-cases ((x.heap h).transport_arg)) [
    | inl e ↦ rw (e, send_on) (Keeps-refl x)
    | inr (c, e) ↦ rw (e, send_on) (send_message-Keeps lib sctp x (some (x.heap h)) c b ppid)
  ]

  empty-Keeps :
      (x : Transport) (h : ℕ) (is_binary : Bool) (r : Result Mbuf)
      → Keeps x (send_empty lib sctp x h is_binary r).1
  empty-Keeps x h is_binary (err e) = Keeps-refl x
  empty-Keeps x h is_binary (ok b) = on-Keeps x h b _

  pub send-Keeps :
      (x : Transport) (h : ℕ) (b : Option Mbuf) (is_binary : Bool)
      → Keeps x (channel_send_handler lib sctp x h b is_binary).1
  unfolding channel_send_handler
  send-Keeps x h none is_binary = empty-Keeps x h is_binary _
  send-Keeps x h (some b) is_binary =
      pair-Keeps (lib.get_left b == 0) _ _ (empty-Keeps x h is_binary _)
        (pair-Keeps _ _ _ (Keeps-refl x) (on-Keeps x h b _))
