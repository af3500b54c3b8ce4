-- ===== src/Redirect/Runs.antt =====
-- Runs of a redirect transport: any sequence of its operations, whatever the sockets answer.
use rawrtc_data_channel.Base.{
  ℕ, ◌≤◌, ◌≡◌, refl, sym, ap, ◌∙◌, Bool, true, false, not, ◌&&◌, ◌||◌, if◌then◌else◌, arith,
  Bool-cases, inl, inr, ◌==◌,
}
use rawrtc_data_channel.Base.Code.{Code, success, invalid_state, is_error}
use rawrtc_data_channel.External.{Libre, Mbuf, left}
use rawrtc_data_channel.Checksum.{Crc}
use rawrtc_data_channel.Redirect.{
  RedirectTransport, RedirectState, new, opened, closed, Net, Received, receive_failed, received,
  Answer, answered, failed, redirect_from_raw, feed_inbound, receive_raw, check_address,
  redirect_packet, skip_ipv4_header, send_raw, is_opened, next_moment, record_event, listening,
  received_into, patch_sctp_header,
}
use rawrtc_data_channel.Redirect.Life.{set_state, stop, start, is_closed, is_new}

abbrev pub rank : RedirectState → ℕ
rank new = 0
rank opened = 1
rank closed = 2

rank-le : (s : RedirectState) → rank s ≤ 2
rank-le new = omega arith
rank-le opened = omega arith
rank-le closed = omega arith

new-open : (s : RedirectState) → is_new s ≡ true → (is_closed s ≡ false) × (rank s ≡ 0)
new-open new h = (refl, refl)
new-open opened h = absurd (cc)
new-open closed h = absurd (cc)

not-false : (b : Bool) → not b ≡ false → b ≡ true
not-false true h = refl
not-false false h = absurd (cc)

module _ {Sa : Type 0} where
  -- The flag says what the state says.
  abbrev pub IsCoherent : RedirectTransport Sa → Type 0
  IsCoherent x = x.is_detached ≡ is_closed x.state

  -- Neither the state nor the flag changes.
  record SameLife (x y : RedirectTransport Sa) : Type 0 where
    same_state : y.state ≡ x.state
    same_flag : y.is_detached ≡ x.is_detached

  -- The flag and the state agree afterwards, and the state has not gone back.
  record Proceeds (x y : RedirectTransport Sa) : Type 0 where
    coherent : IsCoherent y
    onward : rank x.state ≤ rank y.state

  same-Proceeds : {x y : RedirectTransport Sa} → IsCoherent x → SameLife x y → Proceeds x y
  same-Proceeds {x} {y} c s = record {
    coherent = s.same_flag ∙ (c ∙ ap is_closed (sym s.same_state));
    onward = omega (arith, ap rank s.same_state);
  }

  -- Nothing happens.
  still : (x : RedirectTransport Sa) → SameLife x x
  still x = record { same_state = refl; same_flag = refl }

  set_state-closed :
      (x : RedirectTransport Sa)
      → ((set_state x closed).is_detached ≡ true) × ((set_state x closed).state ≡ closed)
  unfolding set_state
  set_state-closed x = (ground arith, ground arith)

  set_state-opened :
      (x : RedirectTransport Sa)
      → ((set_state x opened).is_detached ≡ x.is_detached) × ((set_state x opened).state ≡ opened)
  unfolding set_state
  set_state-opened x = (ground arith, ground arith)

  closed-Proceeds : (x : RedirectTransport Sa) → Proceeds x (set_state x closed)
  closed-Proceeds x = record {
    coherent = rw ((set_state-closed x).0, (set_state-closed x).1) refl;
    onward = rw (set_state-closed x).1 (rank-le x.state);
  }

  opened-Proceeds :
      (x y : RedirectTransport Sa)
      → IsCoherent x
      → is_new x.state ≡ true
      → SameLife x y
      → Proceeds x (set_state y opened)
  opened-Proceeds x y c n s = record {
    coherent =
        rw ((set_state-opened y).0, (set_state-opened y).1)
          (s.same_flag ∙ (c ∙ (new-open x.state n).0));
    onward = rw (set_state-opened y).1 (omega (arith, (new-open x.state n).1));
  }

  stop-Proceeds : (x : RedirectTransport Sa) → IsCoherent x → Proceeds x (stop x).1
  unfolding stop
  stop-Proceeds x c = elim (Bool-cases (x.is_detached || is_closed x.state)) [
    | inl e ↦ rw e (same-Proceeds c (still x))
    | inr e ↦ rw e (closed-Proceeds x)
  ]

  if-SameLife :
      {x y z : RedirectTransport Sa} (b : Bool)
      → SameLife x y
      → SameLife x z
      → SameLife x (if b then y else z)
  if-SameLife true s t = s
  if-SameLife false s t = t

  branch-SameLife :
      (x : RedirectTransport Sa) (p q r : Code × Mbuf × RedirectTransport Sa) (d w : Bool)
      → SameLife x p.2
      → SameLife x q.2
      → SameLife x r.2
      → SameLife x (if d then p else if w then q else r).2
  branch-SameLife x p q r true w s t u = s
  branch-SameLife x p q r false true s t u = t
  branch-SameLife x p q r false false s t u = u

module _ (lib : Libre) (crc : Crc) {Sa Sockaddr : Type 0} (net : Net Sa Sockaddr) where
  -- One operation, with any arguments.
  pub data Step (x : RedirectTransport Sa) : RedirectTransport Sa → Type 0 where
    starts : (remote_port : ℕ) → Step x (start lib net x remote_port).1
    stops : Step x (stop x).1
    hears : (readable : Bool) → Step x (redirect_from_raw lib crc net x readable)
    feeds : (b : Mbuf) → Step x (feed_inbound lib crc net x b).2

  pub data Run (x : RedirectTransport Sa) : RedirectTransport Sa → Type 0 where
    here : Run x x
    next : {y z : RedirectTransport Sa} → Run x y → Step y z → Run x z

  packet-SameLife :
      (x : RedirectTransport Sa) (b : Mbuf) → SameLife x (redirect_packet lib crc net x b)
  packet-SameLife x b =
      if-SameLife (_ == _) (record { same_state = refl; same_flag = refl })
        (record { same_state = refl; same_flag = refl })

  address-SameLife :
      (x : RedirectTransport Sa) (e : ℕ) (from : Sa)
      → SameLife x (check_address lib crc net x (e, from))
  address-SameLife x e from =
      if-SameLife (is_error (lib.error_to_code e)) (record { same_state = refl; same_flag = refl })
        (if-SameLife (not (net.sa_isset from) && not (net.sa_cmp x.redirect_address from))
          (record { same_state = refl; same_flag = refl })
          (packet-SameLife x (skip_ipv4_header lib x.buffer)))

  receive-SameLife : (x : RedirectTransport Sa) → SameLife x (receive_raw lib crc net x)
  receive-SameLife x = answer (net.recvfrom x.clock x.socket x.buffer) refl
    where
      answer :
          (a : Received Sockaddr)
          → net.recvfrom x.clock x.socket x.buffer ≡ a
          → SameLife x (receive_raw lib crc net x)
      answer (receive_failed e) h =
          rw (h, receive_raw) (record { same_state = refl; same_flag = refl })
      answer (received p addr) h =
          let y = next_moment (record x { buffer = received_into x.buffer p }) in
          let s = address-SameLife y (net.sa_set_sa addr).0 (net.sa_set_sa addr).1 in
          rw (h, receive_raw) (record { same_state = s.same_state; same_flag = s.same_flag })

  raw-SameLife :
      (x : RedirectTransport Sa) (readable : Bool)
      → SameLife x (redirect_from_raw lib crc net x readable)
  unfolding redirect_from_raw
  raw-SameLife x true =
      let s = receive-SameLife x in
      if-SameLife x.is_detached (still x)
        (record { same_state = s.same_state; same_flag = s.same_flag })
  raw-SameLife x false =
      if-SameLife x.is_detached (still x) (record { same_state = refl; same_flag = refl })

  send-SameLife : (x : RedirectTransport Sa) (b : Mbuf) → SameLife x (send_raw lib crc net x b).2
  send-SameLife x b = answer (net.sendto x.clock x.socket (left b) x.redirect_address) refl
    where
      answer :
          (a : Answer)
          → net.sendto x.clock x.socket (left b) x.redirect_address ≡ a
          → SameLife x (send_raw lib crc net x b).2
      answer (answered n) h = rw (send_raw, h) (record { same_state = refl; same_flag = refl })
      answer (failed e) h = rw (send_raw, h) (record { same_state = refl; same_flag = refl })

  feed-SameLife :
      (x : RedirectTransport Sa) (b : Mbuf) → SameLife x (feed_inbound lib crc net x b).2
  unfolding feed_inbound
  feed-SameLife x b =
      branch-SameLife x (invalid_state, b, x) (success, b, x)
        (send_raw lib crc net x
          (patch_sctp_header lib crc x.clock b x.local_port (net.sa_port x.redirect_address)))
        x.is_detached (not (is_opened x.state)) (still x) (still x)
        (send-SameLife x
          (patch_sctp_header lib crc x.clock b x.local_port (net.sa_port x.redirect_address)))

  start-Proceeds :
      (x : RedirectTransport Sa) (port : ℕ) → IsCoherent x → Proceeds x (start lib net x port).1
  unfolding start
  start-Proceeds x port c = elim (Bool-cases (not (is_new x.state))) [
    | inl e ↦ rw e (same-Proceeds c (still x))
    | inr n ↦ elim (Bool-cases (is_error (lib.error_to_code (net.fd_listen x.clock x.socket)))) [
      | inl e ↦ rw (n, e) (same-Proceeds c (record { same_state = refl; same_flag = refl }))
      | inr e ↦
          rw (n, e)
            (opened-Proceeds x
              (record_event (listening x.socket)
                (next_moment (record x { remote_port = if port == 0 then x.local_port else port })))
              c (not-false (is_new x.state) n) (record { same_state = refl; same_flag = refl }))
    ]
  ]

  one_operation : {x y : RedirectTransport Sa} → IsCoherent x → Step x y → Proceeds x y
  one_operation {x} c (starts port) = start-Proceeds x port c
  one_operation {x} c stops = stop-Proceeds x c
  one_operation {x} c (hears readable) = same-Proceeds c (raw-SameLife x readable)
  one_operation {x} c (feeds b) = same-Proceeds c (feed-SameLife x b)

  -- In a run from a transport whose detached flag is set exactly when it is closed, this stays so,
  -- and the state never goes back from closed to open or from open to new.
  pub run-Proceeds :
      {x y : RedirectTransport Sa}
      → IsCoherent x
      → Run x y
      → IsCoherent y × (rank x.state ≤ rank y.state)
  run-Proceeds c here = (c, omega arith)
  run-Proceeds c (next r s) =
      let before = run-Proceeds c r in
      let after = one_operation before.0 s in
      (after.coherent, omega (arith, before.1, after.onward))

  closed_operation :
      {x y : RedirectTransport Sa}
      → x.is_detached ≡ true
      → is_new x.state ≡ false
      → Step x y
      → y ≡ x
  unfolding start stop redirect_from_raw feed_inbound
  closed_operation {x} d n (starts port) = rw n refl
  closed_operation {x} d n stops = ground arith
  closed_operation {x} d n (hears readable) = ground arith
  closed_operation {x} d n (feeds b) = ground arith

  -- A transport that is closed, with its detached flag set, is never changed again: nothing is sent,
  -- passed on or raised, whatever it is asked to do and whatever arrives.
  pub closed_for_good :
      {x y : RedirectTransport Sa} → x.is_detached ≡ true → x.state ≡ closed → Run x y → y ≡ x
  closed_for_good d c here = refl
  closed_for_good {x} d c (next r s) =
      let same = closed_for_good d c r in
      closed_operation (ap (λ (z : RedirectTransport Sa). z.is_detached) same ∙ d)
        (ap (λ (z : RedirectTransport Sa). is_new z.state) same ∙ ap is_new c) s
      ∙ same
