-- ===== src/Transport/Send/Stream.antt =====
-- The outgoing stream: what usrsctp has taken and what is queued behind it, in order.
use rawrtc_data_channel.Base.{
  ℕ, ◌≡◌, ◌≢◌, refl, sym, ap, ◌∙◌, List, [], ◌∷◌, ◌++◌, append_assoc, append-nil, Bool, true, false,
  ◌&&◌, arith, Bool-cases, inl, inr,
}
use rawrtc_data_channel.Base.Code.{Code, success, try_again_later, Result, ok, err}
use rawrtc_data_channel.External.{Libre, Mbuf, left}
use rawrtc_data_channel.Transport.{Transport, Info, Message, Sctp}
use rawrtc_data_channel.Transport.Send.{
  is_connected, is_empty, sctp_transport_send, message_send_context_create, append_message,
  buffer_message, sctp_send,
}
use rawrtc_data_channel.Transport.Send.Loop.{wire_bytes, Sends, transport_send-Sends}

-- The bytes that wait in the queue.
abbrev pub pending : List Message → List ℕ
pending [] = []
pending (m ∷ l) = left m.buffer ++ pending l

-- What usrsctp has taken, then what waits.
abbrev pub stream : Transport → List ℕ
stream x = wire_bytes x.wire ++ pending x.buffered_messages_outgoing

pending-append :
    (l : List Message) (m : Message) → pending (l ++ m ∷ []) ≡ pending l ++ left m.buffer
pending-append [] m = append-nil (left m.buffer)
pending-append (k ∷ l) m =
    ap (λ r. left k.buffer ++ r) (pending-append l m)
    ∙ sym (append_assoc (left k.buffer) (pending l) (left m.buffer))

empty_of : (c : Bool) (l : List Message) → c && is_empty l ≡ true → l ≡ []
empty_of c l h = ground arith

module _ (lib : Libre) (sctp : Sctp) where
  stream-append_message :
      (x : Transport) (b : Mbuf) (flags : ℕ) (c : Result Info)
      → c ≢ err success
      → (append_message lib sctp x b flags c).0 ≡ success
      → stream (append_message lib sctp x b flags c).1 ≡ stream x ++ left b
  unfolding append_message
  stream-append_message x b flags (err e) ne h = absurd (ne (ap err h))
  stream-append_message x b flags (ok info) ne h =
      let m : Message = record { buffer = b; info = info; flags = flags } in
      let l = x.buffered_messages_outgoing in
      rw (sctp.append_ok x.clock l m h, pending-append l m)
        (sym (append_assoc (wire_bytes x.wire) (pending l) (left b)))

  context_create-ne : (t : ℕ) (i : Info) → message_send_context_create lib sctp t i ≢ err success
  unfolding message_send_context_create
  context_create-ne t i h = ground arith

  -- buffering puts the whole message at the end
  stream-buffer_message :
      (x : Transport) (b : Mbuf) (i : Info) (flags : ℕ)
      → (buffer_message lib sctp x b i flags).0 ≡ success
      → stream (buffer_message lib sctp x b i flags).1 ≡ stream x ++ left b
  unfolding buffer_message
  stream-buffer_message x b i flags =
      stream-append_message x b flags (message_send_context_create lib sctp x.clock i)
        (context_create-ne x.clock i)

  -- what follows a direct attempt
  abbrev after_attempt : Code × Mbuf × Info × Transport → ℕ → Code × Transport
  after_attempt (code, b', i', x') flags = elim code [
    | try_again_later ↦ buffer_message lib sctp x' b' i' flags
    | c ↦ (c, x')
  ]

  attempt_stream :
      (x : Transport) (b : Mbuf) (i : Info) (r : Code × Mbuf × Info × Transport)
      → x.buffered_messages_outgoing ≡ []
      → Sends x b i r
      → stream r.3 ++ left r.1 ≡ stream x ++ left b
  attempt_stream x b i r empty k =
      let same : r.3.buffered_messages_outgoing ≡ [] =
        ap (λ y. y.buffered_messages_outgoing) k.same_transport ∙ empty in
      rw (empty, same, append-nil (wire_bytes r.3.wire), append-nil (wire_bytes x.wire)) k.conserved

  stream-after_attempt :
      (x : Transport) (b : Mbuf) (i : Info) (flags : ℕ) (r : Code × Mbuf × Info × Transport)
      → x.buffered_messages_outgoing ≡ []
      → Sends x b i r
      → (after_attempt r flags).0 ≡ success
      → stream (after_attempt r flags).1 ≡ stream x ++ left b
  stream-after_attempt x b i flags (success, b', i', x') empty k h =
      sym (append-nil (stream x'))
      ∙ ap (λ l. stream x' ++ l) (sym (k.all_sent refl))
      ∙ attempt_stream x b i (success, b', i', x') empty k
  stream-after_attempt x b i flags (try_again_later, b', i', x') empty k h =
      stream-buffer_message x' b' i' flags h
      ∙ attempt_stream x b i (try_again_later, b', i', x') empty k
  stream-after_attempt x b i flags (c, b', i', x') empty k h = absurd (cc)

  -- If `sctp_send` succeeds, the outgoing stream has grown at its end by exactly the bytes of the
  -- message, whether they were sent at once, sent in part and queued, or queued.
  pub stream-sctp_send :
      (x : Transport) (b : Mbuf) (i : Info) (flags : ℕ)
      → (sctp_send lib sctp x b i flags).0 ≡ success
      → stream (sctp_send lib sctp x b i flags).1 ≡ stream x ++ left b
  unfolding sctp_send
  stream-sctp_send x b i flags h =
      let y = record x { is_buffered_amount_low = false } in
      elim (Bool-cases (is_connected x.state && is_empty x.buffered_messages_outgoing)) [
        | inl direct ↦
            let r = sctp_transport_send lib sctp y b i flags in
            rw direct (
              stream-after_attempt y b i flags r
                (empty_of (is_connected y.state) y.buffered_messages_outgoing direct)
                (transport_send-Sends lib sctp y b i flags).0 (rw direct at h))
        | inr queued ↦ rw queued (stream-buffer_message y b i flags (rw queued at h))
      ]
