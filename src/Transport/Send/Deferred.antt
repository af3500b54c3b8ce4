-- ===== src/Transport/Send/Deferred.antt =====
-- The queue of outgoing messages when it is sent off.
use rawrtc_data_channel.Base.{
  ℕ, zero, suc, ◌≡◌, refl, sym, ap, ◌∙◌, ◌<◌, List, [], ◌∷◌, ◌++◌, append_assoc, append-nil, Bool,
  true, false, ltb, ◌==◌, length, some, length-drop, arith, Bool-cases, inl, inr, ◌⊎◌,
}
use rawrtc_data_channel.Base.Code.{Code, success, try_again_later, stop_iteration}
use rawrtc_data_channel.External.{Libre, Mbuf, left}
use rawrtc_data_channel.Transport.{
  Transport, Info, SndInfo, sndinfo, spa, noinfo, other_info, Message, Sctp, Written, written,
  failed, tick,
}
use rawrtc_data_channel.Transport.Send.{
  send_info, is_connected, chunk_info, record_sent, after_sendv, send_loop, sctp_transport_send,
  deferred_result, sctp_send_deferred_message, sctp_send_deferred_messages,
}
use rawrtc_data_channel.Transport.Send.Loop.{
  chunk, length-chunk, left-advance, wire_bytes, Sends, transport_send-Sends, resent,
}
use rawrtc_data_channel.Transport.Send.Stream.{pending, stream}

-- usrsctp fails only because its buffer is full for now.
pub record FailsSoftly (lib : Libre) (sctp : Sctp) : Type 0 where
  pub soft :
      (t : ℕ) (bytes : List ℕ) (info : Info) (flags e : ℕ)
      → sctp.sendv t bytes info flags ≡ failed e
      → lib.error_to_code e ≡ try_again_later

-- A message whose information can be sent.
abbrev pub is_sendable : Info → Bool
is_sendable (sndinfo s) = true
is_sendable (spa s) = true
is_sendable _ = false

abbrev pub AllSendable : List Message → Type 0
AllSendable [] = Unit
AllSendable (m ∷ l) = (is_sendable m.info ≡ true) × AllSendable l

sendable_info : (i : Info) → is_sendable i ≡ true → (s : SndInfo) × (send_info i ≡ some s)
sendable_info (sndinfo s) h = (s, refl)
sendable_info (spa s) h = (s.sendv_sndinfo, refl)
sendable_info noinfo h = absurd (cc)
sendable_info (other_info k) h = absurd (cc)

deferred_message_eq :
    (lib : Libre) (sctp : Sctp) (m : Message) (x : Transport)
    → is_sendable m.info ≡ true
    → sctp_send_deferred_message lib sctp m x
      ≡ deferred_result m (sctp_transport_send lib sctp x m.buffer m.info m.flags)
unfolding sctp_send_deferred_message
deferred_message_eq lib sctp m x h = rw ((sendable_info m.info h).1, sctp_send_deferred_message)

module _ (lib : Libre) (sctp : Sctp) (s : FailsSoftly lib sctp) where
  after_sendv_code :
      (x : Transport) (b : Mbuf) (i : Info) (k : Mbuf → Transport → Code × Mbuf × Info × Transport)
      (w : Written)
      → ((e : ℕ) → w ≡ failed e → lib.error_to_code e ≡ try_again_later)
      → ((n : ℕ)
          → w ≡ written n
          → (n == 0) ≡ false
          → let c = (k (lib.advance b n) (record_sent (tick x) (chunk lib sctp x b) n i)).0 in
            (c ≡ success) ⊎ (c ≡ try_again_later))
      → let c = (after_sendv lib sctp x b i k w).0 in (c ≡ success) ⊎ (c ≡ try_again_later)
  after_sendv_code x b i k (failed e) soft next = inr (soft e refl)
  after_sendv_code x b i k (written n) soft next = elim (Bool-cases (n == 0)) [
    | inl z ↦ rw z (inr refl)
    | inr p ↦ rw p (elim (Bool-cases (ltb 0 (lib.get_left (lib.advance b n)))) [
      | inl more ↦ rw more (next n refl p)
      | inr done ↦ rw done (inl refl)
    ])
  ]

  send_loop_code :
      (f : ℕ) (x : Transport) (b : Mbuf) (i : Info) (e : Bool) (flags : ℕ)
      → length (left b) < f
      → let c = (send_loop lib sctp f x b i e flags).0 in (c ≡ success) ⊎ (c ≡ try_again_later)
  unfolding send_loop
  send_loop_code zero x b i e flags h = absurd (omega arith)
  send_loop_code (suc f) x b i e flags h =
      let i' = chunk_info lib sctp x b e i in
      after_sendv_code x b i' (λ b' x'. send_loop lib sctp f x' b' i' e flags)
        (sctp.sendv x.clock (chunk lib sctp x b) i' flags)
        (λ k w. s.soft x.clock (chunk lib sctp x b) i' flags k w)
        (λ n w p.
          let fits = sctp.sendv_law x.clock (chunk lib sctp x b) i' flags n w in
          let shorter = left-advance lib sctp b n (omega (arith, length-chunk lib sctp x b)) in
          let less : length (left (lib.advance b n)) < length (left b) =
            rw shorter (ground (arith, length-drop n (left b), length-chunk lib sctp x b)) in
          send_loop_code f (record_sent (tick x) (chunk lib sctp x b) n i') (lib.advance b n) i' e
            flags (omega arith))

  -- A connected transport sends, or has to try again later.
  transport_send_code :
      (x : Transport) (b : Mbuf) (i : Info) (flags : ℕ)
      → is_connected x.state ≡ true
      → is_sendable i ≡ true
      → let c = (sctp_transport_send lib sctp x b i flags).0 in
        (c ≡ success) ⊎ (c ≡ try_again_later)
  unfolding sctp_transport_send
  transport_send_code x b (sndinfo s) flags on h =
      rw on (send_loop_code (suc (length (left b))) x b (sndinfo s) s.eor flags (omega arith))
  transport_send_code x b (spa s) flags on h =
      rw on
        (send_loop_code (suc (length (left b))) x b (spa s) s.sendv_sndinfo.eor flags (omega arith))
  transport_send_code x b noinfo flags on h = absurd (cc)
  transport_send_code x b (other_info k) flags on h = absurd (cc)

  -- what the handler makes of one message
  abbrev Handles : Message → Transport → Bool × Message × Transport → Type 0
  Handles m x r =
      (wire_bytes r.2.wire ++ left r.1.buffer ≡ wire_bytes x.wire ++ left m.buffer)
      × (r.0 ≡ true → left r.1.buffer ≡ [])
      × (r.1.info ≡ m.info)
      × (r.2 ≡ resent x r.2)

  deferred_result-Handles :
      (m : Message) (x : Transport) (r : Code × Mbuf × Info × Transport)
      → (r.0 ≡ success) ⊎ (r.0 ≡ try_again_later)
      → Sends x m.buffer m.info r
      → r.2 ≡ m.info
      → Handles m x (deferred_result m r)
  deferred_result-Handles m x (success, b, i, x') c k e =
      (k.conserved, λ h. k.all_sent refl, e, k.same_transport)
  deferred_result-Handles m x (try_again_later, b, i, x') c k e =
      (k.conserved, λ h. absurd (cc), e, k.same_transport)
  deferred_result-Handles m x (code, b, i, x') c k e = absurd (ground arith)

  deferred_message-Handles :
      (m : Message) (x : Transport)
      → is_connected x.state ≡ true
      → is_sendable m.info ≡ true
      → Handles m x (sctp_send_deferred_message lib sctp m x)
  deferred_message-Handles m x on h = rw (deferred_message_eq lib sctp m x h) (
      let (k, e) = transport_send-Sends lib sctp x m.buffer m.info m.flags in
      deferred_result-Handles m x (sctp_transport_send lib sctp x m.buffer m.info m.flags)
        (transport_send_code x m.buffer m.info m.flags on h) k e)

  -- what iterating makes of the queue
  pub record Clears (l : List Message) (x : Transport) (r : Code × List Message × Transport)
      : Type 0 where
    pub conserved : wire_bytes r.2.wire ++ pending r.1 ≡ wire_bytes x.wire ++ pending l
    pub ended : ((r.0 ≡ success) × (r.1 ≡ [])) ⊎ (r.0 ≡ stop_iteration)
    pub sendable : AllSendable r.1
    pub same_transport : r.2 ≡ resent x r.2

  clear_continue-Clears :
      (m : Message) (l : List Message) (x : Transport) (h : Bool × Message × Transport)
      (r : Code × List Message × Transport)
      → h.0 ≡ true
      → Handles m x h
      → Clears l h.2 r
      → Clears (m ∷ l) x r
  clear_continue-Clears m l x h r go k c =
      let sent : wire_bytes h.2.wire ≡ wire_bytes x.wire ++ left m.buffer =
        sym (append-nil (wire_bytes h.2.wire))
        ∙ ap (λ b. wire_bytes h.2.wire ++ b) (sym (k.1 go))
        ∙ k.0 in
      record {
        conserved =
            c.conserved
            ∙ ap (λ w. w ++ pending l) sent
            ∙ append_assoc (wire_bytes x.wire) (left m.buffer) (pending l);
        ended = c.ended;
        sendable = c.sendable;
        same_transport = c.same_transport ∙ ap (λ y. resent y r.2) k.3;
      }

  clear-Clears :
      (l : List Message) (x : Transport)
      → is_connected x.state ≡ true
      → AllSendable l
      → Clears l x (sctp.clear (sctp_send_deferred_message lib sctp) l x)
  clear-Clears [] x on h =
      rw (sctp.clear_nil (sctp_send_deferred_message lib sctp) x) (record {
        conserved = refl;
        ended = inl (refl, refl);
        sendable = tt;
        same_transport = refl;
      })
  clear-Clears (m ∷ l) x on h =
      let f = sctp_send_deferred_message lib sctp in
      let k = deferred_message-Handles m x on h.0 in
      let r = f m x in
      elim (Bool-cases r.0) [
        | inl go ↦ rw (sctp.clear_continue f m l x go) (
            clear_continue-Clears m l x r (sctp.clear f l r.2) go k
              (clear-Clears l r.2 (ap (λ y. is_connected y.state) k.3 ∙ on) h.1))
        | inr stop ↦ rw (sctp.clear_stop f m l x stop) (record {
          conserved =
              sym (append_assoc (wire_bytes r.2.wire) (left r.1.buffer) (pending l))
              ∙ ap (λ w. w ++ pending l) k.0
              ∙ append_assoc (wire_bytes x.wire) (left m.buffer) (pending l);
          ended = inr refl;
          sendable = (ap is_sendable k.2 ∙ h.0, h.1);
          same_transport = k.3;
        })
      ]

  -- Sending the queue off loses, repeats and reorders no byte, as long as usrsctp fails only because
  -- its buffer is full, the transport is connected and every queued message has information that
  -- can be sent. It either succeeds and leaves the queue empty, or stops at a message that has to
  -- wait; and every message that is left can still be sent.
  pub deferred_messages_stream :
      (x : Transport)
      → is_connected x.state ≡ true
      → AllSendable x.buffered_messages_outgoing
      → let r = sctp_send_deferred_messages lib sctp x in
        (stream r.1 ≡ stream x)
        × (((r.0 ≡ success) × (r.1.buffered_messages_outgoing ≡ [])) ⊎ (r.0 ≡ stop_iteration))
        × AllSendable r.1.buffered_messages_outgoing
  unfolding sctp_send_deferred_messages
  deferred_messages_stream x on h =
      let c = clear-Clears x.buffered_messages_outgoing x on h in (c.conserved, c.ended, c.sendable)
