-- ===== src/Transport/Send/Frame.antt =====
-- What sending leaves alone, whatever usrsctp answers.
use rawrtc_data_channel.Base.{
  ◌≡◌, refl, sym, ap, ◌∙◌, false, List, [], ◌∷◌, Option, none, some, Bool-cases, Option-cases, inl,
  inr, ℕ, ◌&&◌, ◌==◌,
}
use rawrtc_data_channel.Base.Code.{Code, try_again_later, invalid_argument, Result, ok, err}
use rawrtc_data_channel.External.{Libre, Mbuf}
use rawrtc_data_channel.Transport.{Transport, Sctp, Message, Info, spa, Spa, ppid_dcep}
use rawrtc_data_channel.Channel.{Channel, Context}
use rawrtc_data_channel.Transport.Send.{
  send_info, sctp_transport_send, deferred_result, sctp_send_deferred_message,
  sctp_send_deferred_messages, is_connected, is_empty, append_message, buffer_message, sctp_send,
  send_message, message_send_context_create, plain_spa, channel_spa,
}
use rawrtc_data_channel.Transport.Send.Loop.{resent, transport_send-Sends}

-- What sending and queueing change.
abbrev pub sent : Transport → Transport → Transport
sent x y = record x {
  is_buffered_amount_low = y.is_buffered_amount_low;
  wire = y.wire;
  clock = y.clock;
  buffered_messages_outgoing = y.buffered_messages_outgoing;
}

deferred_result-transport :
    (m : Message) (r : Code × Mbuf × Info × Transport) → (deferred_result m r).2 ≡ r.3
deferred_result-transport m (try_again_later, b, i, x) = refl
deferred_result-transport m (_, b, i, x) = refl

module _ (lib : Libre) (sctp : Sctp) where
  deferred_message-resent :
      (m : Message) (x : Transport)
      → (sctp_send_deferred_message lib sctp m x).2
        ≡ resent x (sctp_send_deferred_message lib sctp m x).2
  unfolding sctp_send_deferred_message
  deferred_message-resent m x = elim (Option-cases (send_info m.info)) [
    | inl e ↦ rw (e, sctp_send_deferred_message)
    | inr (s, e) ↦
        let r = sctp_transport_send lib sctp x m.buffer m.info m.flags in
        rw (e, sctp_send_deferred_message)
          (rw (deferred_result-transport m r)
            (transport_send-Sends lib sctp x m.buffer m.info m.flags).0.same_transport)
  ]

  clear-resent :
      (l : List Message) (x : Transport)
      → let r = sctp.clear (sctp_send_deferred_message lib sctp) l x in r.2 ≡ resent x r.2
  clear-resent [] x = rw (sctp.clear_nil (sctp_send_deferred_message lib sctp) x)
  clear-resent (m ∷ l) x =
      let f = sctp_send_deferred_message lib sctp in
      elim (Bool-cases (f m x).0) [
        | inl go ↦ rw (sctp.clear_continue f m l x go) (
            clear-resent l (f m x).2
            ∙ ap (λ y. resent y (sctp.clear f l (f m x).2).2) (deferred_message-resent m x))
        | inr stop ↦ rw (sctp.clear_stop f m l x stop) (deferred_message-resent m x)
      ]

  -- Sending the queue off changes the wire, the clock and the queue.
  pub deferred_messages_frame :
      (x : Transport)
      → let y = (sctp_send_deferred_messages lib sctp x).1 in
        y ≡ record x {
          wire = y.wire;
          clock = y.clock;
          buffered_messages_outgoing = y.buffered_messages_outgoing;
        }
  unfolding sctp_send_deferred_messages
  deferred_messages_frame x =
      let q = x.buffered_messages_outgoing in
      let r = sctp.clear (sctp_send_deferred_message lib sctp) q x in
      ap (λ (y : Transport). record y { buffered_messages_outgoing = r.1 }) (clear-resent q x)

  append_message_frame :
      (x : Transport) (b : Mbuf) (flags : ℕ) (r : Result Info)
      → let y = (append_message lib sctp x b flags r).1 in y ≡ sent x y
  unfolding append_message
  append_message_frame x b flags (err e) = refl
  append_message_frame x b flags (ok i) = refl

  buffer_message_frame :
      (x : Transport) (b : Mbuf) (i : Info) (flags : ℕ)
      → let y = (buffer_message lib sctp x b i flags).1 in y ≡ sent x y
  unfolding buffer_message
  buffer_message_frame x b i flags =
      append_message_frame x b flags (message_send_context_create lib sctp x.clock i)

  abbrev after_attempt : ℕ → Code × Mbuf × Info × Transport → Code × Transport
  after_attempt flags (code, b, i, z) = elim code [
    | try_again_later ↦ buffer_message lib sctp z b i flags
    | c ↦ (c, z)
  ]

  attempt_frame :
      (x : Transport) (flags : ℕ) (r : Code × Mbuf × Info × Transport)
      → r.3 ≡ sent x r.3
      → (after_attempt flags r).1 ≡ sent x (after_attempt flags r).1
  attempt_frame x flags (try_again_later, b, i, z) e =
      let f = buffer_message_frame z b i flags in
      let y = (buffer_message lib sctp z b i flags).1 in f ∙ ap (λ (w : Transport). sent w y) e
  attempt_frame x flags (_, b, i, z) e = e

  sctp_send_frame :
      (x : Transport) (b : Mbuf) (i : Info) (flags : ℕ)
      → let y = (sctp_send lib sctp x b i flags).1 in y ≡ sent x y
  unfolding sctp_send
  sctp_send_frame x b i flags =
      let z = record x { is_buffered_amount_low = false } in
      let r = sctp_transport_send lib sctp z b i flags in
      let k = transport_send-Sends lib sctp z b i flags in
      elim (Bool-cases (is_connected x.state && is_empty x.buffered_messages_outgoing)) [
        | inl direct ↦ rw direct (
            attempt_frame z flags r
              (k.0.same_transport ∙ sym (ap (λ (w : Transport). sent z w) k.0.same_transport)))
        | inr queued ↦ rw queued (buffer_message_frame z b i flags)
      ]

  with_channel :
      (x : Transport) (channel : Option Channel) (context : Context) (b : Mbuf) (s : Spa)
      → let r : Code × Transport = elim channel [
        | none ↦ (invalid_argument, x)
        | some c ↦ sctp_send lib sctp x b (spa (channel_spa c context s)) 0
      ] in
        r.1 ≡ sent x r.1
  with_channel x none context b s = refl
  with_channel x (some c) context b s = sctp_send_frame x b (spa (channel_spa c context s)) 0

  pub send_message_frame :
      (x : Transport) (channel : Option Channel) (context : Context) (b : Mbuf) (ppid : ℕ)
      → let y = (send_message lib sctp x channel context b ppid).1 in y ≡ sent x y
  unfolding send_message
  send_message_frame x channel context b ppid =
      let s = plain_spa context ppid in
      elim (Bool-cases (ppid == ppid_dcep)) [
        | inl dcep ↦ rw dcep (sctp_send_frame x b (spa s) 0)
        | inr other ↦ rw other (with_channel x channel context b s)
      ]
