-- ===== src/Transport/Start/Outcome.antt =====
-- What starting a transport comes to.
use rawrtc_data_channel.Base.{
  ℕ, suc, ◌<◌, arith, ◌≡◌, refl, ap, ◌∙◌, inl, inr, List, ◌∷◌, Bool, true, false, not, none, some,
  if◌then◌else◌, ◌==◌, Bool-cases, Option-cases,
}
use rawrtc_data_channel.Base.Code.{Code, success, invalid_argument, invalid_state, is_error}
use rawrtc_data_channel.External.{Libre}
use rawrtc_data_channel.External.Errors.{success_only, error_is_error}
use rawrtc_data_channel.Transport.{
  Transport, TransportState, new, connecting, connected, closed, Event, Sctp, path_mtu, option_set,
  emit, tick,
}
use rawrtc_data_channel.Transport.Registry.{WellFormed, Shrinks-WellFormed, Shrinks-same}
use rawrtc_data_channel.Transport.State.{set_state}
use rawrtc_data_channel.Transport.State.Machine.{
  set_state_closed, connecting_frame, set_state_closed_effect,
}
use rawrtc_data_channel.Transport.Options.{set_mtu, return_code, is_started}
use rawrtc_data_channel.Transport.Options.Checked.{set_option_works, set_option_fails}
use rawrtc_data_channel.Transport.Start.{
  is_in_progress, start, close_on_error, transition, connect_to, default_mtu, is_new,
}

-- A transport that is closed, detached and without a socket or a channel.
pub record IsShut (x : Transport) : Type 0 where
  pub shut_state : x.state ≡ closed
  pub shut_flag : x.is_detached ≡ true
  pub no_socket : x.has_socket ≡ false
  pub no_channel : (i : ℕ) → x.channels i ≡ none

module _ (lib : Libre) (sctp : Sctp) where
  pub data Started (x : Transport) (max_message_size remote_port : ℕ)
      : Code × Transport → Type 0 where
    not_new : is_new x.state ≡ false → Started x max_message_size remote_port (invalid_state, x)
    connects :
        (y : Transport)
        → is_new x.state ≡ true
        → y.state ≡ connecting
        → y.remote_port ≡ some (if remote_port == 0 then x.port else remote_port)
        → y.remote_maximum_message_size ≡ max_message_size
        → y.is_detached ≡ x.is_detached
        → y.channels ≡ x.channels
        → y.heap ≡ x.heap
        → y.n_channels ≡ x.n_channels
        → Started x max_message_size remote_port (success, y)
    gives_up :
        (c : Code) (y : Transport)
        → is_new x.state ≡ true
        → is_error c ≡ true
        → IsShut y
        → Started x max_message_size remote_port (c, y)

  pub shut : (x : Transport) → WellFormed x → IsShut (set_state lib sctp x closed)
  shut x w =
      let (a, b, c, d, e) = set_state_closed_effect lib sctp x w.in_range in
      record { shut_state = a; shut_flag = b; no_socket = c; no_channel = d }

  -- What a connecting transport has of the one that was started.
  record Connecting (x : Transport) (max_message_size remote_port : ℕ) (y : Transport)
      : Type 0 where
    in_state : y.state ≡ connecting
    to_port : y.remote_port ≡ some (if remote_port == 0 then x.port else remote_port)
    with_size : y.remote_maximum_message_size ≡ max_message_size
    same_flag : y.is_detached ≡ x.is_detached
    same_channels : y.channels ≡ x.channels
    same_heap : y.heap ≡ x.heap
    same_size : y.n_channels ≡ x.n_channels

  finish-Started :
      (x : Transport) (m p : ℕ) (c : Code) (y : Transport)
      → is_new x.state ≡ true
      → WellFormed x
      → Connecting x m p y
      → Started x m p (close_on_error lib sctp (c, y))
  finish-Started x m p c y n w k = elim (Bool-cases (is_error c)) [
    | inl e ↦ rw e (
        gives_up c (set_state lib sctp y closed) n e
          (shut y (Shrinks-WellFormed (Shrinks-same k.same_channels k.same_heap k.same_size) w)))
    | inr e ↦ rw (success_only c e) (
        connects y n k.in_state k.to_port k.with_size k.same_flag k.same_channels k.same_heap
          k.same_size)
  ]

  guards_pass :
      (h : Bool) (s : TransportState) (a b : Code × Transport) {v w : Code × Transport}
      → h ≡ true
      → s ≡ connecting
      → v ≡ w
      → (if not h then a else if not (is_started s) then b else v) ≡ w
  guards_pass false s a b e f g = absurd (cc)
  guards_pass true connecting a b e f g = g
  guards_pass true connected a b e f g = g
  guards_pass true new a b e f g = absurd (cc)
  guards_pass true closed a b e f g = absurd (cc)

  set_mtu_works :
      (y : Transport) (mtu : ℕ)
      → y.has_socket ≡ true
      → y.state ≡ connecting
      → sctp.setsockopt y.clock ≡ none
      → set_mtu lib sctp y mtu ≡ (success, emit (option_set (path_mtu mtu)) (tick y))
  unfolding set_mtu
  set_mtu_works y mtu s c f =
      guards_pass y.has_socket y.state (invalid_argument, y) (invalid_state, y) s c
        (ap (return_code lib sctp) (set_option_works lib sctp y (path_mtu mtu) f))

  set_mtu_fails :
      (y : Transport) (mtu n : ℕ)
      → y.has_socket ≡ true
      → y.state ≡ connecting
      → sctp.setsockopt y.clock ≡ some n
      → set_mtu lib sctp y mtu ≡ (lib.error_to_code n, tick y)
  unfolding set_mtu
  set_mtu_fails y mtu n s c f =
      guards_pass y.has_socket y.state (invalid_argument, y) (invalid_state, y) s c
        (ap (return_code lib sctp) (set_option_fails lib sctp y (path_mtu mtu) n f))

  no_socket_left : (h : Bool) (a b : Code × Transport) → h ≡ false → (if not h then a else b) ≡ a
  no_socket_left false a b e = refl
  no_socket_left true a b e = absurd (cc)

  set_mtu_unset :
      (y : Transport) (mtu : ℕ)
      → y.has_socket ≡ false
      → set_mtu lib sctp y mtu ≡ (invalid_argument, y)
  unfolding set_mtu
  set_mtu_unset y mtu s = no_socket_left y.has_socket _ _ s

  later-Started :
      (x : Transport) (m p : ℕ) (y : Transport) (e : List Event) (c : Code)
      → is_new x.state ≡ true
      → WellFormed x
      → Connecting x m p y
      → Started x m p (close_on_error lib sctp (c, record (tick y) { events = e }))
  later-Started x m p y e c n w k =
      finish-Started x m p c (record (tick y) { events = e }) n w
        (record {
          in_state = k.in_state;
          to_port = k.to_port;
          with_size = k.with_size;
          same_flag = k.same_flag;
          same_channels = k.same_channels;
          same_heap = k.same_heap;
          same_size = k.same_size;
        })

  mtu-Started :
      (x : Transport) (m p : ℕ) (y : Transport)
      → is_new x.state ≡ true
      → WellFormed x
      → Connecting x m p y
      → Started x m p (close_on_error lib sctp (set_mtu lib sctp y default_mtu))
  mtu-Started x m p y n w k = elim (Bool-cases y.has_socket) [
    | inr s ↦ rw (set_mtu_unset y default_mtu s) (finish-Started x m p invalid_argument y n w k)
    | inl s ↦ elim (Option-cases (sctp.setsockopt y.clock)) [
      | inl f ↦
          rw (set_mtu_works y default_mtu s k.in_state f)
            (later-Started x m p y (option_set (path_mtu default_mtu) ∷ y.events) success n w k)
      | inr (errno, f) ↦
          rw (set_mtu_fails y default_mtu errno s k.in_state f)
            (later-Started x m p y y.events (lib.error_to_code errno) n w k)
    ]
  ]

  -- The transport that is started, with the message size stored, at a later moment.
  abbrev pub prepared : Transport → ℕ → Transport
  prepared x m = tick (record x { remote_maximum_message_size = m })

  transition-Started :
      (x : Transport) (m p : ℕ)
      → is_new x.state ≡ true
      → WellFormed x
      → Started x m p (transition lib sctp (prepared x m) (if p == 0 then x.port else p))
  transition-Started x m p n w =
      let f = connecting_frame lib sctp (prepared x m) in
      mtu-Started x m p
        (record (set_state lib sctp (prepared x m) connecting) {
          remote_port = some (if p == 0 then x.port else p);
        })
        n w
        (record {
          in_state = ap (λ (t : Transport). t.state) f;
          to_port = refl;
          with_size = ap (λ (t : Transport). t.remote_maximum_message_size) f;
          same_flag = ap (λ (t : Transport). t.is_detached) f;
          same_channels = ap (λ (t : Transport). t.channels) f;
          same_heap = ap (λ (t : Transport). t.heap) f;
          same_size = ap (λ (t : Transport). t.n_channels) f;
        })

  refused-Started :
      (x : Transport) (m p e : ℕ)
      → is_new x.state ≡ true
      → WellFormed x
      → 0 < e
      → Started x m p (close_on_error lib sctp (lib.error_to_code e, prepared x m))
  refused-Started x m p e n w h =
      let bad = error_is_error lib e h in
      rw bad (
        gives_up (lib.error_to_code e) (set_state lib sctp (prepared x m) closed) n bad
          (shut (prepared x m) (Shrinks-WellFormed (Shrinks-same refl refl refl) w)))

  connect-Started :
      (x : Transport) (m p : ℕ)
      → is_new x.state ≡ true
      → WellFormed x
      → Started x m p (
          connect_to lib sctp
            (record x { remote_maximum_message_size = m })
            (if p == 0 then x.port else p))
  connect-Started x m p n w = elim (Option-cases (sctp.connect x.clock)) [
    | inl c ↦ rw (c, connect_to) (transition-Started x m p n w)
    | inr (e, c) ↦ elim (Bool-cases (is_in_progress e)) [
      | inl g ↦ rw (c, connect_to, g) (transition-Started x m p n w)
      | inr g ↦ rw (c, connect_to, g) (refused-Started x m p e n w (sctp.connect_errno x.clock e c))
    ]
  ]

  -- Starting a transport with a well-formed registry has one of three results. A transport that is
  -- not new is refused and stays as it is. A new one is connecting afterwards, to the given port or,
  -- when this is 0, to the port that it has itself, with the maximum message size of the peer, its
  -- channels and its flag as before. Or the code is an error, and the transport is closed, detached,
  -- without a socket and without any channel.
  pub start-Started :
      (x : Transport) (m p : ℕ) → WellFormed x → Started x m p (start lib sctp x m p)
  unfolding start
  start-Started x m p w = elim (Bool-cases (is_new x.state)) [
    | inr n ↦ rw n (not_new n)
    | inl n ↦ rw n (connect-Started x m p n w)
  ]

  -- When a new transport with a socket connects at once, but setting the default MTU then fails, the
  -- start returns the code of this failure and the transport is closed.
  pub start_without_mtu :
      (x : Transport) (m p e : ℕ)
      → x.state ≡ new
      → x.has_socket ≡ true
      → sctp.connect x.clock ≡ none
      → sctp.setsockopt (suc x.clock) ≡ some (suc e)
      → ((start lib sctp x m p).0 ≡ lib.error_to_code (suc e))
        × ((start lib sctp x m p).1.state ≡ closed)
  unfolding start
  start_without_mtu x m p e n s c f =
      let f1 = connecting_frame lib sctp (prepared x m) in
      let z = record (set_state lib sctp (prepared x m) connecting) {
        remote_port = some (if p == 0 then x.port else p);
      } in
      let failure : set_mtu lib sctp z default_mtu ≡ (lib.error_to_code (suc e), tick z) =
        set_mtu_fails z default_mtu (suc e) (ap (λ (t : Transport). t.has_socket) f1 ∙ s)
          (ap (λ (t : Transport). t.state) f1)
          (ap (λ (t : Transport). sctp.setsockopt t.clock) f1 ∙ f) in
      rw (ap is_new n, c, connect_to, failure, error_is_error lib (suc e) (omega arith))
        (refl, ap (λ (t : Transport). t.state) (set_state_closed lib sctp (tick z)))
