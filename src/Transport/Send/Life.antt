-- ===== src/Transport/Send/Life.antt =====
-- Sending and the life of the transport: nothing is handed to usrsctp unless it is connected.
use rawrtc_data_channel.Base.{
  ℕ, refl, ap, false, List, [], ◌∷◌, Option, Bool-cases, Option-cases, inl, inr, ◌&&◌, ◌==◌,
}
use rawrtc_data_channel.Base.Code.{Code, try_again_later, Result, ok, err}
use rawrtc_data_channel.External.{Libre, Mbuf}
use rawrtc_data_channel.Transport.{Transport, Sctp, Message, Info, spa, ppid_dcep}
use rawrtc_data_channel.Channel.{Channel, Context}
use rawrtc_data_channel.Transport.Send.{
  send_info, sctp_transport_send, deferred_result, sctp_send_deferred_message,
  sctp_send_deferred_messages, is_connected, is_empty, append_message, buffer_message, sctp_send,
  send_message, message_send_context_create, plain_spa, channel_spa,
}
use rawrtc_data_channel.Transport.Send.Loop.{transport_send-Sends}
use rawrtc_data_channel.Transport.Lifecycle.{
  Keeps, Keeps-refl, Keeps-trans, Keeps-same, pair-Keeps, maybe_pair-Keeps,
}

module _ (lib : Libre) (sctp : Sctp) where
  transport_send-Keeps :
      (x : Transport) (b : Mbuf) (i : Info) (flags : ℕ)
      → Keeps x (sctp_transport_send lib sctp x b i flags).3
  unfolding sctp_transport_send
  transport_send-Keeps x b i flags =
      let f = (transport_send-Sends lib sctp x b i flags).0.same_transport in
      record {
        same_state = ap (λ (t : Transport). t.state) f;
        same_flag = ap (λ (t : Transport). t.is_detached) f;
        same_wire = λ c. rw c refl;
      }

  result-Keeps :
      (x : Transport) (m : Message) (r : Code × Mbuf × Info × Transport)
      → Keeps x r.3
      → Keeps x (deferred_result m r).2
  result-Keeps x m (try_again_later, b, i, y) k = k
  result-Keeps x m (_, b, i, y) k = k

  deferred_message-Keeps :
      (m : Message) (x : Transport) → Keeps x (sctp_send_deferred_message lib sctp m x).2
  unfolding sctp_send_deferred_message
  deferred_message-Keeps m x = elim (Option-cases (send_info m.info)) [
    | inl e ↦ rw (e, sctp_send_deferred_message) (Keeps-refl x)
    | inr (s, e) ↦
        rw (e, sctp_send_deferred_message)
          (result-Keeps x m (sctp_transport_send lib sctp x m.buffer m.info m.flags)
            (transport_send-Keeps x m.buffer m.info m.flags))
  ]

  clear-Keeps :
      (l : List Message) (x : Transport)
      → Keeps x (sctp.clear (sctp_send_deferred_message lib sctp) l x).2
  clear-Keeps [] x = rw (sctp.clear_nil (sctp_send_deferred_message lib sctp) x) (Keeps-refl x)
  clear-Keeps (m ∷ l) x =
      let f = sctp_send_deferred_message lib sctp in
      elim (Bool-cases (f m x).0) [
        | inl go ↦
            rw (sctp.clear_continue f m l x go)
              (Keeps-trans (deferred_message-Keeps m x) (clear-Keeps l (f m x).2))
        | inr stop ↦ rw (sctp.clear_stop f m l x stop) (deferred_message-Keeps m x)
      ]

  pub deferred_messages-Keeps : (x : Transport) → Keeps x (sctp_send_deferred_messages lib sctp x).1
  unfolding sctp_send_deferred_messages
  deferred_messages-Keeps x =
      Keeps-trans (clear-Keeps x.buffered_messages_outgoing x) (Keeps-same refl refl refl)

  append_message-Keeps :
      (x : Transport) (b : Mbuf) (flags : ℕ) (r : Result Info)
      → Keeps x (append_message lib sctp x b flags r).1
  unfolding append_message
  append_message-Keeps x b flags (err e) = Keeps-same refl refl refl
  append_message-Keeps x b flags (ok i) = Keeps-same refl refl refl

  buffer_message-Keeps :
      (x : Transport) (b : Mbuf) (i : Info) (flags : ℕ)
      → Keeps x (buffer_message lib sctp x b i flags).1
  unfolding buffer_message
  buffer_message-Keeps x b i flags =
      append_message-Keeps x b flags (message_send_context_create lib sctp x.clock i)

  -- What becomes of a message that has been tried at once.
  abbrev attempted : ℕ → Code × Mbuf × Info × Transport → Code × Transport
  attempted flags (code, b, i, z) = elim code [
    | try_again_later ↦ buffer_message lib sctp z b i flags
    | c ↦ (c, z)
  ]

  attempted-Keeps :
      (x : Transport) (flags : ℕ) (r : Code × Mbuf × Info × Transport)
      → Keeps x r.3
      → Keeps x (attempted flags r).1
  attempted-Keeps x flags (try_again_later, b, i, z) k =
      Keeps-trans k (buffer_message-Keeps z b i flags)
  attempted-Keeps x flags (_, b, i, z) k = k

  sctp_send-Keeps :
      (x : Transport) (b : Mbuf) (i : Info) (flags : ℕ) → Keeps x (sctp_send lib sctp x b i flags).1
  unfolding sctp_send
  sctp_send-Keeps x b i flags =
      let z = record x { is_buffered_amount_low = false } in
      let k : Keeps x z = Keeps-same refl refl refl in
      elim (Bool-cases (is_connected x.state && is_empty x.buffered_messages_outgoing)) [
        | inl direct ↦ rw direct (
            attempted-Keeps x flags (sctp_transport_send lib sctp z b i flags)
              (Keeps-trans k (transport_send-Keeps z b i flags)))
        | inr queued ↦ rw queued (Keeps-trans k (buffer_message-Keeps z b i flags))
      ]

  pub send_message-Keeps :
      (x : Transport) (channel : Option Channel) (context : Context) (b : Mbuf) (ppid : ℕ)
      → Keeps x (send_message lib sctp x channel context b ppid).1
  unfolding send_message
  send_message-Keeps x channel context b ppid =
      let s = plain_spa context ppid in
      pair-Keeps (ppid == ppid_dcep) (sctp_send lib sctp x b (spa s) 0) _
        (sctp_send-Keeps x b (spa s) 0)
        (maybe_pair-Keeps channel _ _ (Keeps-refl x)
          (λ c. sctp_send-Keeps x b (spa (channel_spa c context s)) 0))
