-- ===== src/Transport/Options/Checked.antt =====
-- What the options let through.
use rawrtc_data_channel.Base.{
  ℕ, suc, ◌≡◌, refl, sym, ap, ◌≤◌, ◌<◌, ◌⊎◌, inl, inr, ◌||◌, none, some, ltb, ◌==◌, arith,
  Bool-cases, Option-cases,
}
use rawrtc_data_channel.Base.Code.{Code, success, invalid_argument, ok}
use rawrtc_data_channel.External.{Libre}
use rawrtc_data_channel.Transport.{
  Transport, Sctp, Written, written, SocketOption, send_buffer, receive_buffer, congestion_control,
  option_set, emit, tick,
}
use rawrtc_data_channel.Transport.Options.{
  int_max, CongestionCtrl, rfc2581, hstcp, htcp, rtcc, other_algorithm, cc_value, algorithm_of,
  set_option, set_buffer_length, set_congestion_ctrl_algorithm, get_congestion_ctrl_algorithm,
}

some-inj : {m n : ℕ} → some m ≡ some n → m ≡ n
some-inj h = cc

algorithm_of-cc_value : (a : CongestionCtrl) (v : ℕ) → cc_value a ≡ some v → algorithm_of v ≡ ok a
algorithm_of-cc_value rfc2581 v e = ap algorithm_of (sym (some-inj e))
algorithm_of-cc_value hstcp v e = ap algorithm_of (sym (some-inj e))
algorithm_of-cc_value htcp v e = ap algorithm_of (sym (some-inj e))
algorithm_of-cc_value rtcc v e = ap algorithm_of (sym (some-inj e))
algorithm_of-cc_value other_algorithm v e = absurd (cc)

module _ (lib : Libre) (sctp : Sctp) where
  pub set_option_works :
      (x : Transport) (o : SocketOption)
      → sctp.setsockopt x.clock ≡ none
      → set_option lib sctp x o ≡ (none, emit (option_set o) (tick x))
  unfolding set_option
  set_option_works x o h = rw (h, set_option) refl

  pub set_option_fails :
      (x : Transport) (o : SocketOption) (e : ℕ)
      → sctp.setsockopt x.clock ≡ some e
      → set_option lib sctp x o ≡ (some (lib.error_to_code e), tick x)
  unfolding set_option
  set_option_fails x o e h = rw (h, set_option) refl

  -- What a call of the setter of both lengths has done: it has refused them and done nothing, or
  -- both lengths fit in a positive `int`, and then it has set both and succeeds, or the first only,
  -- or none, and returns the code of the call that failed.
  pub data BufferLengths (x : Transport) (s r : ℕ) : Code × Transport → Type 0 where
    out_of_range :
        (s ≡ 0) ⊎ (r ≡ 0) ⊎ (int_max < s) ⊎ (int_max < r)
        → BufferLengths x s r (invalid_argument, x)
    set_both :
        (0 < s) × (s ≤ int_max)
        → (0 < r) × (r ≤ int_max)
        → BufferLengths x s r (
          success,
          emit (option_set (receive_buffer r)) (tick (emit (option_set (send_buffer s)) (tick x))),
        )
    set_first :
        (e : ℕ)
        → (0 < s) × (s ≤ int_max)
        → (0 < r) × (r ≤ int_max)
        → BufferLengths x s r
            (lib.error_to_code e, tick (emit (option_set (send_buffer s)) (tick x)))
    set_none :
        (e : ℕ)
        → (0 < s) × (s ≤ int_max)
        → (0 < r) × (r ≤ int_max)
        → BufferLengths x s r (lib.error_to_code e, tick x)

  -- A length reaches the socket only if both lengths are positive and fit in an `int`; the length
  -- for sending is set first, and that for receiving only if this succeeds.
  pub set_buffer_length-BufferLengths :
      (x : Transport) (s r : ℕ) → BufferLengths x s r (set_buffer_length lib sctp x s r)
  unfolding set_buffer_length
  set_buffer_length-BufferLengths x s r =
      let y = emit (option_set (send_buffer s)) (tick x) in
      elim (Bool-cases (s == 0 || (r == 0 || (ltb int_max s || ltb int_max r)))) [
        | inl e ↦ rw e (out_of_range (ground arith))
        | inr e ↦
            let ps : (0 < s) × (s ≤ int_max) = (ground arith, ground arith) in
            let pr : (0 < r) × (r ≤ int_max) = (ground arith, ground arith) in
            elim (Option-cases (sctp.setsockopt x.clock)) [
              | inr (n, f) ↦ rw (e, set_option_fails x (send_buffer s) n f) (set_none n ps pr)
              | inl f ↦ elim (Option-cases (sctp.setsockopt (suc x.clock))) [
                | inl g ↦
                    rw
                      (
                        e,
                        set_option_works x (send_buffer s) f,
                        set_option_works y (receive_buffer r) g,
                      )
                      (set_both ps pr)
                | inr (n, g) ↦
                    rw
                      (
                        e,
                        set_option_works x (send_buffer s) f,
                        set_option_fails y (receive_buffer r) n g,
                      )
                      (set_first n ps pr)
              ]
            ]
      ]

  congestion_ctrl_set :
      (x : Transport) (a : CongestionCtrl) (v : ℕ)
      → cc_value a ≡ some v
      → sctp.setsockopt x.clock ≡ none
      → set_congestion_ctrl_algorithm lib sctp x a
        ≡ (success, emit (option_set (congestion_control v)) (tick x))
  unfolding set_congestion_ctrl_algorithm
  congestion_ctrl_set x a v c s =
      rw (c, set_congestion_ctrl_algorithm) (rw (set_option_works x (congestion_control v) s) refl)

  congestion_ctrl_got :
      (getsockopt : ℕ → Written) (x : Transport) (a : CongestionCtrl) (v : ℕ)
      → cc_value a ≡ some v
      → getsockopt x.clock ≡ written v
      → get_congestion_ctrl_algorithm lib sctp getsockopt x ≡ ok a
  unfolding get_congestion_ctrl_algorithm
  congestion_ctrl_got getsockopt x a v c g =
      rw (g, get_congestion_ctrl_algorithm) (algorithm_of-cc_value a v c)

  -- When the socket takes a congestion control algorithm, and answers at the next moment with the
  -- value that it was given for it, then the setter succeeds and the getter returns this algorithm.
  pub congestion_ctrl_round_trip :
      (getsockopt : ℕ → Written) (x : Transport) (a : CongestionCtrl) (v : ℕ)
      → cc_value a ≡ some v
      → sctp.setsockopt x.clock ≡ none
      → getsockopt (suc x.clock) ≡ written v
      → ((set_congestion_ctrl_algorithm lib sctp x a).0 ≡ success)
        × (get_congestion_ctrl_algorithm lib sctp getsockopt
              (set_congestion_ctrl_algorithm lib sctp x a).1
            ≡ ok a)
  congestion_ctrl_round_trip getsockopt x a v c s g = rw (congestion_ctrl_set x a v c s) (
    refl,
    congestion_ctrl_got getsockopt (emit (option_set (congestion_control v)) (tick x)) a v c g,
  )
