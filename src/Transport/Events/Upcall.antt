-- ===== src/Transport/Events/Upcall.antt =====
-- The loop of the upcall on a transport that is closed and detached.
use rawrtc_data_channel.Base.{
  ℕ, zero, suc, ◌≡◌, refl, ◌∙◌, Bool, true, false, ◌&&◌, ◌||◌, none, some, arith,
}
use rawrtc_data_channel.External.{Libre}
use rawrtc_data_channel.External.Dtls.{Dtls}
use rawrtc_data_channel.Transport.{Transport, closed, Sctp, tick}
use rawrtc_data_channel.Transport.Events.{
  Events, all_events, no_events, read_event, union, without, is_none, Arrival, error_event_handler,
  write_event_handler, read_event_handler, upcall_round, upcall_loop, upcall_handler_helper,
}
use rawrtc_data_channel.Transport.Events.Closed.{closed_events}

-- What usrsctp reports when there is an error and nothing else.
abbrev pub only_error : Events
only_error = record { readable = false; writable = false; erroneous = true }

and_false : (a : Bool) → (a && false) ≡ false
and_false true = refl
and_false false = refl

error_remains :
    (ignored : Events)
    → ignored.erroneous ≡ false
    → without only_error (union ignored read_event) ≡ only_error
error_remains ignored i = rw i refl

none_remains : (e : Events) → is_none (without e all_events) ≡ true
none_remains e = rw (and_false e.readable, and_false e.writable, and_false e.erroneous) refl

still_ignored :
    (ignored : Events) → ignored.erroneous ≡ false → (union ignored read_event).erroneous ≡ false
still_ignored ignored i = rw i refl

module _ (lib : Libre) (sctp : Sctp) (dtls : Dtls) (on_low : ℕ → Transport → Transport)
    (recvv : ℕ → Arrival) (h : ℕ) where
  abbrev pub reads : Transport → Events × Transport
  reads = read_event_handler lib sctp dtls on_low recvv h

  spins :
      (get_events : ℕ → Events) (rounds : ℕ) (ignored : Events) (x : Transport)
      → x.state ≡ closed
      → x.is_detached ≡ true
      → ignored.erroneous ≡ false
      → ((t : ℕ) → get_events t ≡ only_error)
      → upcall_loop lib sctp reads get_events rounds ignored only_error x ≡ none
  unfolding upcall_loop
  spins get_events zero ignored x c d i g = refl
  spins get_events (suc rounds) ignored x c d i g =
      rw ((closed_events lib sctp dtls on_low recvv h x c d).2, g x.clock, error_remains ignored i)
        (spins get_events rounds (union ignored read_event) (tick x) c d (still_ignored ignored i)
          g)

  full_round :
      (r w e : Bool) (x : Transport)
      → reads x ≡ (all_events, x)
      → write_event_handler lib sctp x ≡ (all_events, x)
      → error_event_handler x ≡ read_event
      → (r || w) ≡ true
      → upcall_round lib sctp reads no_events
          (record { readable = r; writable = w; erroneous = e })
          x
        ≡ (all_events, x)
  unfolding upcall_round
  full_round true true true x p q s m = rw (p, q, s) refl
  full_round true true false x p q s m = rw (p, q) refl
  full_round true false true x p q s m = rw (p, s) refl
  full_round true false false x p q s m = rw p refl
  full_round false true true x p q s m = rw (q, s) refl
  full_round false true false x p q s m = rw q refl
  full_round false false e x p q s m = absurd (grind arith)

  ends :
      (get_events : ℕ → Events) (rounds : ℕ) (ignored events : Events) (x : Transport)
      → is_none events ≡ true
      → upcall_loop lib sctp reads get_events rounds ignored events x ≡ some x
  unfolding upcall_loop
  ends get_events zero ignored events x n = rw n refl
  ends get_events (suc rounds) ignored events x n = rw n refl

  starts_over :
      (get_events : ℕ → Events) (rounds : ℕ) (ignored : Events) (r w e : Bool) (x : Transport)
      → (r || w) ≡ true
      → upcall_loop lib sctp reads get_events
          (suc rounds)
          ignored
          (record { readable = r; writable = w; erroneous = e })
          x
        ≡ (let u : Events × Transport =
              upcall_round lib sctp reads ignored
                (record { readable = r; writable = w; erroneous = e })
                x in
            upcall_loop lib sctp reads get_events rounds u.0
              (without (get_events u.1.clock) u.0)
              (tick u.1))
  unfolding upcall_loop
  starts_over get_events rounds ignored true w e x m = refl
  starts_over get_events rounds ignored false true e x m = refl
  starts_over get_events rounds ignored false false e x m = absurd (grind arith)

-- On a transport that is closed and detached, an upcall whose first events include read or write
-- ends after one round, whatever usrsctp reports after it, and changes nothing of the transport
-- but that time passes.
pub upcall_settles :
    (lib : Libre) (sctp : Sctp) (dtls : Dtls) (on_low : ℕ → Transport → Transport)
    (recvv : ℕ → Arrival) (h : ℕ) (get_events : ℕ → Events) (rounds : ℕ) (x : Transport)
    → x.state ≡ closed
    → x.is_detached ≡ true
    → ((get_events x.clock).readable || (get_events x.clock).writable) ≡ true
    → upcall_handler_helper lib sctp
        (read_event_handler lib sctp dtls on_low recvv h)
        get_events
        (suc rounds)
        x
      ≡ some (tick (tick x))
unfolding upcall_handler_helper
upcall_settles lib sctp dtls on_low recvv h get_events rounds x c d m =
    let e = get_events x.clock in
    let loops =
      starts_over lib sctp dtls on_low recvv h get_events rounds no_events e.readable e.writable
        e.erroneous (tick x) m in
    let ignores = closed_events lib sctp dtls on_low recvv h (tick x) c d in
    let round =
      full_round lib sctp dtls on_low recvv h e.readable e.writable e.erroneous (tick x) ignores.0
        ignores.1 ignores.2 m in
    loops
    ∙ rw round (
        ends lib sctp dtls on_low recvv h get_events rounds all_events
          (without (get_events (tick x).clock) all_events) (tick (tick x))
          (none_remains (get_events (tick x).clock)))

-- On a transport that is closed and detached, the loop of an upcall does not end, in any number of
-- rounds, while usrsctp reports an error and nothing else: the error event is never ignored.
pub upcall_spins :
    (lib : Libre) (sctp : Sctp) (dtls : Dtls) (on_low : ℕ → Transport → Transport)
    (recvv : ℕ → Arrival) (h : ℕ) (get_events : ℕ → Events) (rounds : ℕ) (x : Transport)
    → x.state ≡ closed
    → x.is_detached ≡ true
    → ((t : ℕ) → get_events t ≡ only_error)
    → upcall_handler_helper lib sctp
        (read_event_handler lib sctp dtls on_low recvv h)
        get_events
        rounds
        x
      ≡ none
unfolding upcall_handler_helper
upcall_spins lib sctp dtls on_low recvv h get_events rounds x c d g =
    rw (g x.clock)
      (spins lib sctp dtls on_low recvv h get_events rounds no_events (tick x) c d refl g)
