-- ===== src/Transport/Send/Once.antt =====
-- A message that fits in one chunk and that usrsctp takes whole.
use rawrtc_data_channel.Base.{
  ℕ, suc, ◌≡◌, refl, ap, ◌∙◌, ◌≤◌, ◌<◌, List, ◌∷◌, Bool, true, false, if◌then◌else◌, length, take,
  drop_all, take_all, ltb, ◌==◌, ◌&&◌, arith,
}
use rawrtc_data_channel.Base.Code.{Code, success, try_again_later}
use rawrtc_data_channel.External.{Libre, Mbuf, left, left-advanced}
use rawrtc_data_channel.Transport.{Transport, Info, spa, Spa, Sctp, written, tick}
use rawrtc_data_channel.Transport.Send.{
  set_eor, is_connected, is_empty, chunk_length, chunk_info, after_sendv, buffer_message, send_loop,
  sctp_transport_send, sctp_send,
}

-- usrsctp has room for whatever it is given at the moment `t`.
abbrev pub TakesAll : Sctp → ℕ → Type 0
TakesAll sctp t =
    (bytes : List ℕ) (i : Info) (flags : ℕ) → sctp.sendv t bytes i flags ≡ written (length bytes)

module _ (lib : Libre) (sctp : Sctp) where
  last_round :
      (x : Transport) (b : Mbuf) (i : Info)
      (next_round : Mbuf → Transport → Code × Mbuf × Info × Transport)
      → 0 < length (left b)
      → length (left b) ≤ x.usrsctp_chunk_size
      → let n = length (left b) in
        after_sendv lib sctp x b i next_round (written n) ≡ (
          success,
          lib.advance b n,
          i,
          record (tick x) { wire = record { bytes = left b; info = i } ∷ x.wire },
        )
  last_round x b i next_round some_bytes fits =
      let n = length (left b) in
      let not_zero : (n == 0) ≡ false = ground arith in
      let whole : chunk_length lib sctp x b ≡ n = ground (arith, lib.get_left_law b) in
      let gone : lib.get_left (lib.advance b n) ≡ 0 =
        lib.get_left_law (lib.advance b n)
        ∙ (ap (λ m. length (left m)) (lib.advance_law b n (omega arith))
            ∙ ap length (left-advanced b n ∙ drop_all n (left b) (omega arith))) in
      let done : ltb 0 (lib.get_left (lib.advance b n)) ≡ false = rw gone refl in
      let same : take n (left b) ≡ left b = take_all n (left b) (omega arith) in
      rw (not_zero, done, whole, same, same) refl

  -- The loop ends in its first round.
  loop_once :
      (x : Transport) (b : Mbuf) (i : Info) (eor : Bool)
      → eor ≡ true
      → 0 < length (left b)
      → length (left b) ≤ x.usrsctp_chunk_size
      → TakesAll sctp x.clock
      → send_loop lib sctp (suc (length (left b))) x b i eor 0 ≡ (
        success,
        lib.advance b (length (left b)),
        set_eor true i,
        record (tick x) { wire = record { bytes = left b; info = set_eor true i } ∷ x.wire },
      )
  unfolding send_loop
  loop_once x b i false e some_bytes fits takes = absurd (cc)
  loop_once x b i true e some_bytes fits takes =
      let n = length (left b) in
      let short : ltb x.usrsctp_chunk_size (lib.get_left b) ≡ false =
        ground (arith, lib.get_left_law b) in
      let whole : take (chunk_length lib sctp x b) (left b) ≡ left b =
        take_all (chunk_length lib sctp x b) (left b) (ground (arith, lib.get_left_law b)) in
      let next_round =
        λ (b' : Mbuf) (x' : Transport). send_loop lib sctp n x' b' (set_eor true i) true 0 in
      let ending : chunk_info lib sctp x b true i ≡ set_eor true i = rw short refl in
      rw ending (
        ap
          (λ l.
            after_sendv lib sctp x b (set_eor true i) next_round
              (sctp.sendv x.clock l (set_eor true i) 0))
          whole
        ∙ (ap (λ w. after_sendv lib sctp x b (set_eor true i) next_round w)
              (takes (left b) (set_eor true i) 0)
            ∙ last_round x b (set_eor true i) next_round some_bytes fits))

  if_on :
      (c : Bool) (p q : Code × Mbuf × Info × Transport) (y : Transport)
      → c ≡ true
      → p.0 ≡ success
      → p.3 ≡ y
      → let r = if c then p else q in (r.0 ≡ success) × (r.3 ≡ y)
  if_on true p q y e f g = (f, g)
  if_on false p q y e f g = absurd (cc)

  pub transport_send_once :
      (x : Transport) (b : Mbuf) (s : Spa)
      → is_connected x.state ≡ true
      → s.sendv_sndinfo.eor ≡ true
      → 0 < length (left b)
      → length (left b) ≤ x.usrsctp_chunk_size
      → TakesAll sctp x.clock
      → let r = sctp_transport_send lib sctp x b (spa s) 0 in
        (r.0 ≡ success)
        × (r.3 ≡ record (tick x) {
          wire = record { bytes = left b; info = set_eor true (spa s) } ∷ x.wire;
        })
  unfolding sctp_transport_send
  transport_send_once x b s on eor some_bytes fits takes =
      let f = loop_once x b (spa s) s.sendv_sndinfo.eor eor some_bytes fits takes in
      if_on (is_connected x.state) _ _ _ on (ap (λ r. r.0) f) (ap (λ r. r.3) f)

  abbrev attempted : ℕ → Code × Mbuf × Info × Transport → Code × Transport
  attempted flags (code, b, i, z) = elim code [
    | try_again_later ↦ buffer_message lib sctp z b i flags
    | c ↦ (c, z)
  ]

  settled :
      (flags : ℕ) (r : Code × Mbuf × Info × Transport) (y : Transport)
      → r.0 ≡ success
      → r.3 ≡ y
      → attempted flags r ≡ (success, y)
  settled flags (success, b, i, z) y e f = ap (λ w. (success, w)) f
  settled flags (_, b, i, z) y e f = absurd (cc)

  if_direct : (c : Bool) (p q r : Code × Transport) → c ≡ true → p ≡ r → (if c then p else q) ≡ r
  if_direct true p q r e f = f
  if_direct false p q r e f = absurd (cc)

  -- What usrsctp has taken in one piece.
  abbrev pub taken : Transport → Mbuf → Spa → Transport
  taken x b s = record (tick x) {
    is_buffered_amount_low = false;
    wire = record { bytes = left b; info = set_eor true (spa s) } ∷ x.wire;
  }

  pub sctp_send_once :
      (x : Transport) (b : Mbuf) (s : Spa)
      → (is_connected x.state && is_empty x.buffered_messages_outgoing) ≡ true
      → s.sendv_sndinfo.eor ≡ true
      → 0 < length (left b)
      → length (left b) ≤ x.usrsctp_chunk_size
      → TakesAll sctp x.clock
      → sctp_send lib sctp x b (spa s) 0 ≡ (success, taken x b s)
  unfolding sctp_send
  sctp_send_once x b s on eor some_bytes fits takes =
      let y = record x { is_buffered_amount_low = false } in
      let k = transport_send_once y b s (ground arith) eor some_bytes fits takes in
      if_direct (is_connected x.state && is_empty x.buffered_messages_outgoing) _ _ _ on
        (settled 0 (sctp_transport_send lib sctp y b (spa s) 0) (taken x b s) k.0 k.1)
