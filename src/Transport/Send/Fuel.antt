-- ===== src/Transport/Send/Fuel.antt =====
-- The loop of `sctp_transport_send` ends: each round but the last sends at least one byte.
use rawrtc_data_channel.Base.{
  ℕ, zero, suc, ◌≡◌, refl, ◌<◌, Bool, false, ◌==◌, length, length-drop, arith, Bool-cases, inl, inr,
}
use rawrtc_data_channel.Base.Code.{Code}
use rawrtc_data_channel.External.{Libre, Mbuf, left}
use rawrtc_data_channel.Transport.{Transport, Info, Sctp, Written, written, failed, tick}
use rawrtc_data_channel.Transport.Send.{chunk_info, record_sent, after_sendv, send_loop}
use rawrtc_data_channel.Transport.Send.Loop.{chunk, length-chunk, left-advance}

module _ (lib : Libre) (sctp : Sctp) where
  -- two continuations that agree where the next round starts
  after_sendv-cong :
      (x : Transport) (b : Mbuf) (i : Info)
      (k l : Mbuf → Transport → Code × Mbuf × Info × Transport) (w : Written)
      → ((n : ℕ)
          → w ≡ written n
          → (n == 0) ≡ false
          → let b' = lib.advance b n in
            let x' = record_sent (tick x) (chunk lib sctp x b) n i in k b' x' ≡ l b' x')
      → after_sendv lib sctp x b i k w ≡ after_sendv lib sctp x b i l w
  after_sendv-cong x b i k l (failed e) h = refl
  after_sendv-cong x b i k l (written n) h = elim (Bool-cases (n == 0)) [
    | inl z ↦ rw z
    | inr p ↦ rw (p, h n refl p)
  ]

  -- With more fuel than there are bytes in the buffer, the result does not depend on the fuel: the
  -- loop ends by one of its own tests, and the fuel of `sctp_transport_send` is enough.
  pub send_loop-fuel :
      (f g : ℕ) (x : Transport) (b : Mbuf) (i : Info) (e : Bool) (flags : ℕ)
      → length (left b) < f
      → length (left b) < g
      → send_loop lib sctp f x b i e flags ≡ send_loop lib sctp g x b i e flags
  unfolding send_loop
  send_loop-fuel zero g x b i e flags hf hg = absurd (omega arith)
  send_loop-fuel (suc f) zero x b i e flags hf hg = absurd (omega arith)
  send_loop-fuel (suc f) (suc g) x b i e flags hf hg =
      let i' = chunk_info lib sctp x b e i in
      after_sendv-cong x b i' (λ b' x'. send_loop lib sctp f x' b' i' e flags)
        (λ b' x'. send_loop lib sctp g x' b' i' e flags)
        (sctp.sendv x.clock (chunk lib sctp x b) i' flags)
        (λ n w p.
          let fits = sctp.sendv_law x.clock (chunk lib sctp x b) i' flags n w in
          let shorter = left-advance lib sctp b n (omega (arith, length-chunk lib sctp x b)) in
          let less : length (left (lib.advance b n)) < length (left b) =
            rw shorter (ground (arith, length-drop n (left b), length-chunk lib sctp x b)) in
          send_loop-fuel f g (record_sent (tick x) (chunk lib sctp x b) n i') (lib.advance b n) i' e
            flags (omega arith) (omega arith))
