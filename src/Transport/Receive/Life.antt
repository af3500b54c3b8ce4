-- ===== src/Transport/Receive/Life.antt =====
-- Incoming messages and the life of the transport.
use rawrtc_data_channel.Base.{
  ℕ, refl, Bool, true, false, not, ◌||◌, ◌==◌, Bool-cases, inl, inr, Option, none, some,
  if◌then◌else◌,
}
use rawrtc_data_channel.Base.Code.{Code, success, no_value, is_error, Result, ok, err}
use rawrtc_data_channel.External.{Libre, Mbuf, left, swap32}
use rawrtc_data_channel.External.Dtls.{Dtls}
use rawrtc_data_channel.Parameters.{Parameters}
use rawrtc_data_channel.Dcep.{
  message_type_ack, message_type_open, data_channel_open_message_parse,
  data_channel_ack_message_create,
}
use rawrtc_data_channel.Channel.{Channel, Context, RcvInfo}
use rawrtc_data_channel.Transport.{Transport, Sctp, emit, received, tick, ppid_dcep}
use rawrtc_data_channel.Transport.Send.{send_message}
use rawrtc_data_channel.Transport.Send.Life.{send_message-Keeps}
use rawrtc_data_channel.Transport.State.{set_channel}
use rawrtc_data_channel.Transport.Reset.{set_context}
use rawrtc_data_channel.Transport.Reset.Life.{slot-Keeps}
use rawrtc_data_channel.Transport.Channels.{channel_context_create, is_free}
use rawrtc_data_channel.Transport.Channels.Life.{channel_register-Keeps}
use rawrtc_data_channel.Transport.Receive.{
  received_flags, is_string_ppid, is_binary_ppid, is_empty_ppid, pass_message, deliver,
  after_buffering, sid_fits, no_handlers, handle_data_channel_ack_message,
  buffer_message_received_raise_complete, application_message, handle_application_message,
  get_data_transport, data_channel_create_internal, after_ack, send_ack, accept_channel,
  open_parsed, handle_data_channel_open_message, dcep_by_type, after_dcep, handle_dcep_message,
  data_receive_handler,
}
use rawrtc_data_channel.Transport.Lifecycle.{Keeps, Keeps-refl, Keeps-trans, Keeps-same, if-Keeps}

deliver-Keeps :
    (x : Transport) (h : ℕ) (context : Context) (b : Mbuf) (ppid : ℕ) (complete : Bool)
    → Keeps x (deliver x h context b ppid complete)
deliver-Keeps x h context b ppid complete =
    let y = set_context x h (record context { buffer_inbound = none }) in
    if-Keeps (is_string_ppid ppid || is_binary_ppid ppid) (pass_message y h b ppid complete) y
      (if-Keeps (y.heap h).message_handler
        (emit (received h (some (left b)) (received_flags ppid complete)) y) y
        (Keeps-same refl refl refl) (Keeps-same refl refl refl))
      (Keeps-same refl refl refl)

buffering-Keeps :
    (x : Transport) (h : ℕ) (context : Context) (r : Code × Option Mbuf × RcvInfo)
    → Keeps x (after_buffering x h context r)
buffering-Keeps x h context (success, some b, info) =
    deliver-Keeps x h (record context { info_inbound = info; pending_inbound_message = false }) b
      info.rcv_ppid true
buffering-Keeps x h context (success, none, info) = Keeps-same refl refl refl
buffering-Keeps x h context (no_value, b, info) = Keeps-same refl refl refl
buffering-Keeps x h context (_, b, info) = Keeps-same refl refl refl

ack-Keeps : (x : Transport) (info : RcvInfo) → Keeps x (handle_data_channel_ack_message x info)
unfolding handle_data_channel_ack_message
ack-Keeps x info =
    slot-Keeps x info.rcv_sid
      (λ h c.
        if c.can_send_unordered
        then x
        else set_context x h (record c { can_send_unordered = true }))
      (λ h c. if-Keeps c.can_send_unordered x _ (Keeps-refl x) (Keeps-same refl refl refl))

module _ (lib : Libre) where
  application_message-Keeps :
      (x : Transport) (h : ℕ) (context : Context) (b : Mbuf) (info : RcvInfo) (eor : Bool)
      → Keeps x (application_message lib x h context b info eor)
  unfolding application_message
  application_message-Keeps x h context b info eor =
      let whole = record context { pending_inbound_message = false } in
      let emptied = deliver x h whole (lib.skip_to_end b) info.rcv_ppid true in
      let cut = set_context x h (record context { buffer_inbound = none }) in
      let part = record context { pending_inbound_message = not eor } in
      let passed = deliver x h part b info.rcv_ppid eor in
      let buffered =
        buffer_message_received_raise_complete lib x.clock context.buffer_inbound
          context.info_inbound b info eor in
      let kept = after_buffering (tick x) h context buffered in
      if-Keeps (is_empty_ppid info.rcv_ppid) (if eor then emptied else cut)
        (if (x.heap h).streamed then passed else kept)
        (if-Keeps eor emptied cut (deliver-Keeps x h whole (lib.skip_to_end b) info.rcv_ppid true)
          (Keeps-same refl refl refl))
        (if-Keeps (x.heap h).streamed passed kept (deliver-Keeps x h part b info.rcv_ppid eor) (
          Keeps-trans {y = tick x} (Keeps-same refl refl refl)
            (buffering-Keeps (tick x) h context buffered)))

  application-Keeps :
      (x : Transport) (b : Mbuf) (info : RcvInfo) (eor : Bool)
      → Keeps x (handle_application_message lib x b info eor)
  unfolding handle_application_message
  application-Keeps x b info eor =
      slot-Keeps x info.rcv_sid
        (λ h c. application_message lib x h (record c { can_send_unordered = true }) b info eor)
        (λ h c. application_message-Keeps x h (record c { can_send_unordered = true }) b info eor)

module _ (lib : Libre) (sctp : Sctp) where
  acked-Keeps :
      (x : Transport) (h : ℕ) (c : Channel) (context : Context) (r : Code × Transport)
      → Keeps x r.1
      → Keeps x (after_ack lib sctp h c context r)
  acked-Keeps x h c context (error, y) k = elim (Bool-cases (is_error error)) [
    | inl bad ↦ rw bad k
    | inr good ↦ rw good (
        Keeps-trans (Keeps-trans {z = set_channel y h c} k (Keeps-same refl refl refl))
          (channel_register-Keeps (set_channel y h c) h context true))
  ]

  send_ack-Keeps :
      (x : Transport) (h : ℕ) (c : Channel) (context : Context)
      → Keeps x (send_ack lib sctp x h c context)
  unfolding send_ack
  send_ack-Keeps x h c context = by_message (data_channel_ack_message_create lib x.clock)
    where
      by_message :
          (r : Result Mbuf)
          → (let y : Transport = elim r [
            | err e ↦ x
            | ok b ↦
                after_ack lib sctp h c context (send_message lib sctp x none context b ppid_dcep)
          ] in
              Keeps x y)
      by_message (err e) = Keeps-refl x
      by_message (ok b) =
          acked-Keeps x h c context (send_message lib sctp x none context b ppid_dcep)
            (send_message-Keeps lib sctp x none context b ppid_dcep)

  accept-Keeps :
      (x : Transport) (h sid : ℕ) (p : Parameters) → Keeps x (accept_channel lib sctp x h sid p)
  unfolding accept_channel
  accept-Keeps x h sid p =
      by_channel (data_channel_create_internal lib x.clock p no_handlers)
        (channel_context_create lib (tick x).clock sid true)
    where
      by_channel :
          (r : Result Channel) (s : Result Context)
          → (let y : Transport = elim r [
            | err e ↦ tick x
            | ok c ↦ elim s [
              | err e ↦ tick (tick x)
              | ok context ↦ send_ack lib sctp (tick (tick x)) h c context
            ]
          ] in
              Keeps x y)
      by_channel (err e) s = Keeps-same refl refl refl
      by_channel (ok c) (err e) = Keeps-same refl refl refl
      by_channel (ok c) (ok context) =
          Keeps-trans {y = tick (tick x)} (Keeps-same refl refl refl)
            (send_ack-Keeps (tick (tick x)) h c context)

  open_parsed-Keeps :
      (x : Transport) (h sid : ℕ) (r : Result (Parameters × ℕ))
      → Keeps x (open_parsed lib sctp x h sid r)
  unfolding open_parsed
  open_parsed-Keeps x h sid (err e) = Keeps-refl x
  open_parsed-Keeps x h sid (ok (p, priority)) =
      if-Keeps (is_error (get_data_transport lib x)) (tick x) _ (Keeps-same refl refl refl)
        (Keeps-trans {y = tick x} (Keeps-same refl refl refl) (accept-Keeps (tick x) h sid p))

  open_message-Keeps :
      (dtls : Dtls) (h : ℕ) (x : Transport) (b : Mbuf) (info : RcvInfo)
      → Keeps x (handle_data_channel_open_message lib sctp dtls h x b info)
  unfolding handle_data_channel_open_message
  open_message-Keeps dtls h x b info =
      let (error, role) = dtls.role_getter x.clock in
      if-Keeps (is_error error || not (sid_fits role info.rcv_sid) || not (is_free x info.rcv_sid))
        x _ (Keeps-refl x)
        (Keeps-trans {y = tick x} (Keeps-same refl refl refl) (
          open_parsed-Keeps (tick x) h info.rcv_sid
            (data_channel_open_message_parse lib x.clock info.rcv_sid b)))

  by_type-Keeps :
      (dtls : Dtls) (h : ℕ) (x : Transport) (m : ℕ × Mbuf) (info : RcvInfo)
      → Keeps x (dcep_by_type lib sctp dtls h x m info)
  by_type-Keeps dtls h x (type, b) info =
      if-Keeps (type == message_type_ack) _ _ (ack-Keeps x info) (
        if-Keeps (type == message_type_open) _ x (open_message-Keeps dtls h x b info)
          (Keeps-refl x))

  after_dcep-Keeps :
      (dtls : Dtls) (h : ℕ) (x : Transport) (r : Code × Option Mbuf × RcvInfo)
      → Keeps x (after_dcep lib sctp dtls h x r)
  after_dcep-Keeps dtls h x (success, some b, info) =
      let y = record x { buffer_dcep_inbound = some b; info_dcep_inbound = info } in
      Keeps-trans
        (Keeps-trans {y = y} (Keeps-same refl refl refl)
          (by_type-Keeps dtls h y (lib.read_u8 b) info))
        (Keeps-same refl refl refl)
  after_dcep-Keeps dtls h x (success, none, info) = Keeps-same refl refl refl
  after_dcep-Keeps dtls h x (no_value, b, info) = Keeps-same refl refl refl
  after_dcep-Keeps dtls h x (_, b, info) = Keeps-same refl refl refl

  dcep-Keeps :
      (dtls : Dtls) (h : ℕ) (x : Transport) (b : Mbuf) (info : RcvInfo) (eor : Bool)
      → Keeps x (handle_dcep_message lib sctp dtls h x b info eor)
  unfolding handle_dcep_message
  dcep-Keeps dtls h x b info eor = Keeps-trans {y = tick x} (Keeps-same refl refl refl) (
      after_dcep-Keeps dtls h (tick x) (
        buffer_message_received_raise_complete lib x.clock x.buffer_dcep_inbound x.info_dcep_inbound
          b info eor))

  pub data_receive-Keeps :
      (dtls : Dtls) (h : ℕ) (x : Transport) (b : Mbuf) (info : RcvInfo) (eor : Bool)
      → Keeps x (data_receive_handler lib sctp dtls h x b info eor)
  unfolding data_receive_handler
  data_receive-Keeps dtls h x b info' eor =
      let info : RcvInfo = record info' { rcv_ppid = swap32 (info'.rcv_ppid) } in
      if-Keeps (info.rcv_ppid == ppid_dcep) _ _ (dcep-Keeps dtls h x b info eor)
        (application-Keeps lib x b info eor)
