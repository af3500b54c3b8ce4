-- ===== src/Transport/Send/Loop.antt =====
-- The loop of `sctp_transport_send`: what it sends and what it leaves, for any answers of usrsctp.
use rawrtc_data_channel.Base.{
  ℕ, zero, suc, ◌≡◌, ◌≢◌, refl, ap, ◌∙◌, ◌≤◌, ◌<◌, List, [], ◌∷◌, ◌++◌, Bool, true, false,
  if◌then◌else◌, ltb, ◌==◌, length, take, drop, length-take, take-take-append-drop, append_assoc,
  arith, Bool-cases, inl, inr,
}
use rawrtc_data_channel.Base.Code.{Code, success, invalid_state}
use rawrtc_data_channel.External.{Libre, Mbuf, left, left-advanced}
use rawrtc_data_channel.Transport.{
  Transport, Info, Sent, Sctp, Written, written, failed, tick, sndinfo, spa, noinfo, other_info,
}
use rawrtc_data_channel.Transport.Send.{
  set_eor, is_connected, chunk_length, chunk_info, record_sent, after_sendv, send_loop, restore_eor,
  sctp_transport_send,
}

-- The bytes on the wire, in the order in which usrsctp took them.
abbrev pub wire_bytes : List Sent → List ℕ
wire_bytes [] = []
wire_bytes (s ∷ w) = wire_bytes w ++ s.bytes

-- The transport that differs only in what sending changes.
abbrev pub resent : Transport → Transport → Transport
resent x x' = record x { wire = x'.wire; clock = x'.clock }

set_eor-set_eor : (a b : Bool) (i : Info) → set_eor a (set_eor b i) ≡ set_eor a i
set_eor-set_eor a b (sndinfo s) = refl
set_eor-set_eor a b (spa s) = refl
set_eor-set_eor a b noinfo = refl
set_eor-set_eor a b (other_info k) = refl

-- The result `r` of sending from the buffer `b` of the transport `x`.
pub record Sends (x : Transport) (b : Mbuf) (info : Info) (r : Code × Mbuf × Info × Transport)
    : Type 0 where
  pub conserved : wire_bytes r.3.wire ++ left r.1 ≡ wire_bytes x.wire ++ left b
  pub all_sent : r.0 ≡ success → left r.1 ≡ []
  pub same_info : (a : Bool) → set_eor a r.2 ≡ set_eor a info
  pub same_transport : r.3 ≡ resent x r.3

pub nil_of_no_length : (l : List ℕ) → ltb 0 (length l) ≡ false → l ≡ []
nil_of_no_length [] h = refl
nil_of_no_length (x ∷ l) h = absurd (ground arith)

module _ (lib : Libre) (sctp : Sctp) where
  chunk_info-set_eor :
      (x : Transport) (b : Mbuf) (e : Bool) (i : Info) (a : Bool)
      → set_eor a (chunk_info lib sctp x b e i) ≡ set_eor a i
  chunk_info-set_eor x b e i a = ground (arith, set_eor-set_eor a false i, set_eor-set_eor a true i)

  -- the bytes handed to usrsctp
  abbrev pub chunk : Transport → Mbuf → List ℕ
  chunk x b = take (chunk_length lib sctp x b) (left b)

  pub length-chunk : (x : Transport) (b : Mbuf) → length (chunk x b) ≤ length (left b)
  length-chunk x b = omega (arith, length-take (chunk_length lib sctp x b) (left b))

  -- the buffer after `n` bytes were taken
  pub left-advance :
      (b : Mbuf) (n : ℕ) → n ≤ length (left b) → left (lib.advance b n) ≡ drop n (left b)
  left-advance b n h = rw (lib.advance_law b n h) (left-advanced b n)

  -- one round that sends `n` bytes
  one_piece :
      (x : Transport) (b : Mbuf) (i : Info) (n : ℕ)
      → n ≤ length (chunk x b)
      → wire_bytes (record_sent (tick x) (chunk x b) n i).wire ++ left (lib.advance b n)
        ≡ wire_bytes x.wire ++ left b
  one_piece x b i n h = rw (left-advance b n (omega (arith, length-chunk x b))) (
      append_assoc (wire_bytes x.wire) (take n (chunk x b)) (drop n (left b))
      ∙ ap (λ l. wire_bytes x.wire ++ l)
          (take-take-append-drop n (chunk_length lib sctp x b) (left b) h))

  pub error_to_code_pos : (e : ℕ) → 0 < e → lib.error_to_code e ≢ success
  error_to_code_pos zero h = absurd (omega arith)
  error_to_code_pos (suc e) h = lib.error_to_code_suc e

  -- whatever the next round does from the buffer and the transport it is given
  after_sendv-Sends :
      (x : Transport) (b : Mbuf) (i i' : Info)
      (next_round : Mbuf → Transport → Code × Mbuf × Info × Transport) (w : Written)
      → ((a : Bool) → set_eor a i' ≡ set_eor a i)
      → ((n : ℕ) → w ≡ written n → n ≤ length (chunk x b))
      → ((e : ℕ) → w ≡ failed e → 0 < e)
      → ((b' : Mbuf) (x' : Transport) → Sends x' b' i' (next_round b' x'))
      → Sends x b i (after_sendv lib sctp x b i' next_round w)
  after_sendv-Sends x b i i' next_round (failed e) eor fits errno h = record {
    conserved = refl;
    all_sent = λ s. absurd (error_to_code_pos e (errno e refl) s);
    same_info = eor;
    same_transport = refl;
  }
  after_sendv-Sends x b i i' next_round (written n) eor fits errno h =
      let b' = lib.advance b n in
      let x' = record_sent (tick x) (chunk x b) n i' in
      let k = h b' x' in
      let piece = one_piece x b i' n (fits n refl) in
      elim (Bool-cases (n == 0)) [
        | inl z ↦ rw z (record {
          conserved = refl;
          all_sent = λ s. cc;
          same_info = eor;
          same_transport = refl;
        })
        | inr p ↦ rw p (elim (Bool-cases (ltb 0 (lib.get_left b'))) [
          | inl more ↦ rw more (record {
            conserved = k.conserved ∙ piece;
            all_sent = k.all_sent;
            same_info = λ a. k.same_info a ∙ eor a;
            same_transport = k.same_transport;
          })
          | inr done ↦ rw done (record {
            conserved = piece;
            all_sent = λ s. nil_of_no_length (left b') (rw (lib.get_left_law b') at done);
            same_info = eor;
            same_transport = refl;
          })
        ])
      ]

  pub send_loop-Sends :
      (fuel : ℕ) (x : Transport) (b : Mbuf) (i : Info) (e : Bool) (flags : ℕ)
      → Sends x b i (send_loop lib sctp fuel x b i e flags)
  unfolding send_loop
  send_loop-Sends zero x b i e flags = record {
    conserved = refl;
    all_sent = λ h. cc;
    same_info = λ a. refl;
    same_transport = refl;
  }
  send_loop-Sends (suc fuel) x b i e flags =
      let i' = chunk_info lib sctp x b e i in
      after_sendv-Sends x b i i' (λ b' x'. send_loop lib sctp fuel x' b' i' e flags)
        (sctp.sendv x.clock (chunk x b) i' flags) (chunk_info-set_eor x b e i)
        (λ n w. sctp.sendv_law x.clock (chunk x b) i' flags n w)
        (λ k w. sctp.sendv_errno x.clock (chunk x b) i' flags k w)
        (λ b' x'. send_loop-Sends fuel x' b' i' e flags)

  -- without EOR in the message, no piece is given one, and the information stays as it is
  chunk_info-unset :
      (x : Transport) (b : Mbuf) (i : Info)
      → set_eor false i ≡ i
      → chunk_info lib sctp x b false i ≡ i
  chunk_info-unset x b i h = ground arith

  after_sendv-unset :
      (x : Transport) (b : Mbuf) (i : Info)
      (next_round : Mbuf → Transport → Code × Mbuf × Info × Transport) (w : Written)
      → ((b' : Mbuf) (x' : Transport) → (next_round b' x').2 ≡ i)
      → (after_sendv lib sctp x b i next_round w).2 ≡ i
  after_sendv-unset x b i next_round (failed e) h = refl
  after_sendv-unset x b i next_round (written n) h =
      let b' = lib.advance b n in ground (arith, h b' (record_sent (tick x) (chunk x b) n i))

  send_loop-unset :
      (fuel : ℕ) (x : Transport) (b : Mbuf) (i : Info) (flags : ℕ)
      → set_eor false i ≡ i
      → (send_loop lib sctp fuel x b i false flags).2 ≡ i
  unfolding send_loop
  send_loop-unset zero x b i flags h = refl
  send_loop-unset (suc fuel) x b i flags h = rw (chunk_info-unset x b i h) (
      after_sendv-unset x b i (λ b' x'. send_loop lib sctp fuel x' b' i false flags)
        (sctp.sendv x.clock (chunk x b) i flags) (λ b' x'. send_loop-unset fuel x' b' i flags h))

  -- the loop and the reset of the flag, for the flag `e` that the information has
  restored :
      (fuel : ℕ) (x : Transport) (b : Mbuf) (i : Info) (e : Bool) (flags : ℕ)
      → set_eor e i ≡ i
      → let r = restore_eor lib sctp e (send_loop lib sctp fuel x b i e flags) in
        Sends x b i r × (r.2 ≡ i)
  restored fuel x b i true flags h =
      let k = send_loop-Sends fuel x b i true flags in
      (
        record {
          conserved = k.conserved;
          all_sent = k.all_sent;
          same_info = λ a. set_eor-set_eor a true _ ∙ k.same_info a;
          same_transport = k.same_transport;
        },
        k.same_info true ∙ h,
      )
  restored fuel x b i false flags h =
      (send_loop-Sends fuel x b i false flags, send_loop-unset fuel x b i flags h)

  refused : (x : Transport) (b : Mbuf) (i : Info) → Sends x b i (invalid_state, b, i, x)
  refused x b i = record {
    conserved = refl;
    all_sent = λ s. cc;
    same_info = λ a. refl;
    same_transport = refl;
  }

  if_connected :
      (x : Transport) (b : Mbuf) (i : Info) (c : Bool) (r : Code × Mbuf × Info × Transport)
      → Sends x b i r × (r.2 ≡ i)
      → let r' = if c then r else (invalid_state, b, i, x) in Sends x b i r' × (r'.2 ≡ i)
  if_connected x b i true r h = h
  if_connected x b i false r h = (refused x b i, refl)

  -- Sending loses and repeats no byte, whatever usrsctp answers: the bytes on the wire followed by
  -- those left in the buffer are what they were before. On success nothing is left in the buffer.
  -- The information is returned as it was, EOR flag included, and of the transport only the wire
  -- and the clock change.
  pub transport_send-Sends :
      (x : Transport) (b : Mbuf) (i : Info) (flags : ℕ)
      → let r = sctp_transport_send lib sctp x b i flags in Sends x b i r × (r.2 ≡ i)
  unfolding sctp_transport_send
  transport_send-Sends x b (sndinfo s) flags =
      if_connected x b (sndinfo s) (is_connected x.state) _
        (restored (suc (length (left b))) x b (sndinfo s) s.eor flags refl)
  transport_send-Sends x b (spa s) flags =
      if_connected x b (spa s) (is_connected x.state) _
        (restored (suc (length (left b))) x b (spa s) s.sendv_sndinfo.eor flags refl)
  transport_send-Sends x b noinfo flags =
      if_connected x b noinfo (is_connected x.state) _ (refused x b noinfo, refl)
  transport_send-Sends x b (other_info k) flags =
      if_connected x b (other_info k) (is_connected x.state) _ (refused x b (other_info k), refl)
