-- ===== src/Transport/Receive/Accepting.antt =====
-- Open messages and the registry: `handle_data_channel_open_message`.
use rawrtc_data_channel.Base.{
  ℕ, ◌≡◌, ◌≢◌, refl, ap, ◌∙◌, ◌<◌, inl, inr, true, not, ◌||◌, none, some, ◌==◌, Bool-cases, ==_iff,
}
use rawrtc_data_channel.Base.Code.{Code, is_error, Result, ok, err, Result-cases}
use rawrtc_data_channel.External.{Libre, Mbuf}
use rawrtc_data_channel.External.Dtls.{Dtls}
use rawrtc_data_channel.Parameters.{Parameters}
use rawrtc_data_channel.Dcep.{data_channel_open_message_parse, data_channel_ack_message_create}
use rawrtc_data_channel.Channel.{Channel, Context, RcvInfo}
use rawrtc_data_channel.Transport.{Transport, Sctp, tick, ppid_dcep}
use rawrtc_data_channel.Transport.Send.Frame.{sent, send_message_frame}
use rawrtc_data_channel.Transport.State.{set_channel}
use rawrtc_data_channel.Transport.Registry.{WellFormed, Shrinks-same, Shrinks-WellFormed}
use rawrtc_data_channel.Transport.Channels.{is_free, channel_context_create}
use rawrtc_data_channel.Transport.Channels.Registered.{
  fill_slot-WellFormed, register-WellFormed, context_create_sid,
}
use rawrtc_data_channel.Transport.Receive.{
  sid_fits, no_handlers, after_ack, send_ack, accept_channel, open_parsed, get_data_transport,
  data_channel_create_internal, handle_data_channel_open_message,
}

-- a transport in which the channel at `h` is not registered and the slot `sid` exists
record Ready (sid h : ℕ) (x : Transport) : Type 0 where
  formed : WellFormed x
  in_range : sid < x.n_channels
  unknown : (i : ℕ) → x.channels i ≢ some h

sent-Ready : {sid h : ℕ} {x y : Transport} → y ≡ sent x y → Ready sid h x → Ready sid h y
sent-Ready {sid} {h} {x} {y} f r =
    let slots = ap (λ (t : Transport). t.channels) f in
    let size = ap (λ (t : Transport). t.n_channels) f in
    record {
      formed =
          Shrinks-WellFormed (Shrinks-same slots (ap (λ (t : Transport). t.heap) f) size) r.formed;
      in_range = rw size r.in_range;
      unknown = λ i. rw (ap (λ k. k i) slots) (r.unknown i);
    }

-- a channel that is not registered may be written
write-Ready :
    (sid h : ℕ) (x : Transport) (c : Channel) → Ready sid h x → Ready sid h (set_channel x h c)
write-Ready sid h x c r = record {
  formed = record {
    sid_ok = λ i g e. elim (Bool-cases (g == h)) [
      | inl same ↦ absurd (r.unknown i (e ∙ ap some ((==_iff g h).0 same)))
      | inr other ↦ rw other (r.formed.sid_ok i g e)
    ];
    in_range = r.formed.in_range;
  };
  in_range = r.in_range;
  unknown = r.unknown;
}

module _ (lib : Libre) (sctp : Sctp) where
  after_ack-WellFormed :
      (h : ℕ) (c : Channel) (context : Context) (r : Code × Transport)
      → Ready context.sid h r.1
      → WellFormed (after_ack lib sctp h c context r)
  after_ack-WellFormed h c context (error, y) r = elim (Bool-cases (is_error error)) [
    | inl bad ↦ rw bad r.formed
    | inr good ↦
        let w = write-Ready context.sid h y c r in
        rw good (
          register-WellFormed (set_channel y h c) h context true
            (fill_slot-WellFormed (set_channel y h c) h context w.formed w.in_range w.unknown))
  ]

  send_ack-WellFormed :
      (x : Transport) (h : ℕ) (c : Channel) (context : Context)
      → Ready context.sid h x
      → WellFormed (send_ack lib sctp x h c context)
  unfolding send_ack
  send_ack-WellFormed x h c context r =
      elim (Result-cases (data_channel_ack_message_create lib x.clock)) [
        | inl (e, q) ↦ rw (q, send_ack) r.formed
        | inr (b, q) ↦
            rw (q, send_ack)
              (after_ack-WellFormed h c context _
                (sent-Ready (send_message_frame lib sctp x none context b ppid_dcep) r))
      ]

  accept_channel-WellFormed :
      (x : Transport) (h sid : ℕ) (p : Parameters)
      → Ready sid h x
      → WellFormed (accept_channel lib sctp x h sid p)
  unfolding accept_channel
  accept_channel-WellFormed x h sid p r =
      let r1 : Ready sid h (tick x) = sent-Ready refl r in
      let r2 : Ready sid h (tick (tick x)) = sent-Ready refl r in
      elim (Result-cases (data_channel_create_internal lib x.clock p no_handlers)) [
        | inl (e, q) ↦ rw (q, accept_channel) r1.formed
        | inr (c, q) ↦ elim (Result-cases (channel_context_create lib (tick x).clock sid true)) [
          | inl (e, k) ↦ rw (q, k, accept_channel) r2.formed
          | inr (context, k) ↦
              let same = context_create_sid lib sctp (tick x).clock sid true context k in
              rw (q, k, accept_channel)
                (send_ack-WellFormed (tick (tick x)) h c context (rw same r2))
        ]
      ]

  open_parsed-WellFormed :
      (x : Transport) (h sid : ℕ) (r : Result (Parameters × ℕ))
      → Ready sid h x
      → WellFormed (open_parsed lib sctp x h sid r)
  unfolding open_parsed
  open_parsed-WellFormed x h sid (err e) r = r.formed
  open_parsed-WellFormed x h sid (ok (p, priority)) r =
      let r1 : Ready sid h (tick x) = sent-Ready refl r in
      elim (Bool-cases (is_error (get_data_transport lib x))) [
        | inl bad ↦ rw bad r1.formed
        | inr good ↦ rw good (accept_channel-WellFormed (tick x) h sid p r1)
      ]

  -- An open message keeps the registry well formed, whether its channel is accepted or not, if the
  -- stream that it came on has a slot and the channel that is allocated is not registered yet.
  pub open_message-WellFormed :
      (dtls : Dtls) (h : ℕ) (x : Transport) (b : Mbuf) (info : RcvInfo)
      → WellFormed x
      → info.rcv_sid < x.n_channels
      → ((i : ℕ) → x.channels i ≢ some h)
      → WellFormed (handle_data_channel_open_message lib sctp dtls h x b info)
  unfolding handle_data_channel_open_message
  open_message-WellFormed dtls h x b info w lt fresh =
      let r = dtls.role_getter x.clock in
      let start : Ready info.rcv_sid h x = record { formed = w; in_range = lt; unknown = fresh } in
      elim (Bool-cases
        (is_error r.0 || not (sid_fits r.1 info.rcv_sid) || not (is_free x info.rcv_sid))) [
          | inl refused ↦ rw refused w
          | inr accepted ↦ rw accepted (
              open_parsed-WellFormed (tick x) h info.rcv_sid
                (data_channel_open_message_parse lib x.clock info.rcv_sid b)
                (sent-Ready refl start))
        ]
