-- ===== src/Transport/Create/Outcome.antt =====
-- What creating a transport comes to.
use rawrtc_data_channel.Base.{
  ℕ, suc, ◌-◌, ◌≡◌, refl, sym, ap, subst, [], Bool, true, false, ◌&&◌, ◌||◌, Option, none, some,
  if◌then◌else◌, ◌==◌, arith, Bool-cases, Option-cases, inl, inr,
}
use rawrtc_data_channel.Base.Code.{
  Code, success, invalid_state, external_error, no_memory, is_error,
}
use rawrtc_data_channel.External.{Libre}
use rawrtc_data_channel.External.Dtls.{Dtls, is_closed_or_failed, TransportContext}
use rawrtc_data_channel.Channel.{Channel}
use rawrtc_data_channel.Transport.{Transport, TransportState, new, closed, Sctp, emit, destroyed}
use rawrtc_data_channel.Transport.Registry.{WellFormed}
use rawrtc_data_channel.Transport.State.{set_state, stop, is_closed}
use rawrtc_data_channel.Transport.Start.Outcome.{IsShut, shut}
use rawrtc_data_channel.Transport.Create.{Globals, Creating, release, destroy, validate_context}
use rawrtc_data_channel.Transport.Create.Steps.{
  Platform, fill, finish, new_transport, initialise, allocate, create_from_external,
}
use rawrtc_data_channel.Transport.Create.UnderWay.{UnderWay, empty-WellFormed, fill-UnderWay}

-- Nothing was allocated, or what was allocated is shut again, or a new transport is returned. The
-- last two say how many users of usrsctp there are.
pub data Outcome (before : ℕ) : Code × Globals × Option Transport → Type 0 where
  refused :
      (c : Code) (g : Globals)
      → is_error c ≡ true
      → g.usrsctp_initialized ≡ before
      → Outcome before (c, g, none)
  torn_down :
      (c : Code) (g : Globals) (x : Transport)
      → is_error c ≡ true
      → g.usrsctp_initialized ≡ before
      → IsShut x
      → Outcome before (c, g, some x)
  ready :
      (g : Globals) (x : Transport)
      → g.usrsctp_initialized ≡ suc before
      → x.initialized ≡ true
      → x.state ≡ new
      → x.is_detached ≡ false
      → WellFormed x
      → Outcome before (success, g, some x)

if-released :
    (b : Bool) (g h : Globals) {n : ℕ}
    → g.usrsctp_initialized ≡ n
    → h.usrsctp_initialized ≡ n
    → (if b then g else h).usrsctp_initialized ≡ n
if-released true g h e f = e
if-released false g h e f = f

released :
    (g : Globals) (n : ℕ) → g.usrsctp_initialized ≡ suc n → (release g).usrsctp_initialized ≡ n
released g n e =
    if-released (g.usrsctp_initialized - 1 == 0) _ _ (omega (arith, e)) (omega (arith, e))

quit-IsShut :
    (b : Bool) (x : Transport)
    → IsShut x
    → IsShut (record (if b then emit destroyed x else x) { buffered_messages_outgoing = [] })
quit-IsShut true x s = record {
  shut_state = s.shut_state;
  shut_flag = s.shut_flag;
  no_socket = s.no_socket;
  no_channel = s.no_channel;
}
quit-IsShut false x s = record {
  shut_state = s.shut_state;
  shut_flag = s.shut_flag;
  no_socket = s.no_socket;
  no_channel = s.no_channel;
}

alive :
    (d : Bool) (s : TransportState) (a b : Code × Transport)
    → d ≡ false
    → s ≡ new
    → (if d || is_closed s then a else b) ≡ b
alive true s a b e f = absurd (cc)
alive false new a b e f = refl
alive false TransportState.connecting a b e f = refl
alive false TransportState.connected a b e f = refl
alive false closed a b e f = absurd (cc)

module _ (lib : Libre) (sctp : Sctp) where
  stop_new :
      (s : Creating) {users : ℕ}
      → UnderWay users s
      → stop lib sctp s.transport ≡ (success, set_state lib sctp s.transport closed)
  unfolding stop
  stop_new s u =
      alive s.transport.is_detached s.transport.state (success, s.transport)
        (success, set_state lib sctp s.transport closed) u.attached u.is_new

  destroyed-IsShut :
      (s : Creating) {users : ℕ} → UnderWay users s → IsShut (destroy lib sctp s).transport
  unfolding destroy
  destroyed-IsShut s u =
      let x = (stop lib sctp s.transport).1 in
      quit-IsShut (x.initialized && x.has_destroyed_handler) x (
        subst IsShut (ap (λ (r : Code × Transport). r.1) (sym (stop_new s u)))
          (shut lib sctp s.transport (empty-WellFormed s.transport u.empty)))

  module _ (platform : Platform) where
    finish-Outcome :
        (c : Code) (s : Creating) (before : ℕ)
        → UnderWay (suc before) s
        → Outcome before (finish lib sctp platform (c, s))
    unfolding destroy
    finish-Outcome c s before u = elim (Bool-cases (is_error c)) [
      | inl e ↦ rw e (
          torn_down c (release s.globals) _ e (released s.globals before u.counted)
            (destroyed-IsShut s u))
      | inr e ↦ rw e (
          ready s.globals (record s.transport { initialized = true }) u.counted refl u.is_new
            u.attached (empty-WellFormed (record s.transport { initialized = true }) u.empty))
    ]

    initialise_count :
        (g : Globals) → (initialise lib sctp platform g).usrsctp_initialized ≡ g.usrsctp_initialized
    initialise_count g = if-released (g.usrsctp_initialized == 0) _ _ refl refl

    allocate-Outcome :
        (context : TransportContext) (port : ℕ) (channels states : Bool) (heap : ℕ → Channel)
        (g : Globals) (before t : ℕ)
        → g.usrsctp_initialized ≡ before
        → Outcome before (allocate lib sctp platform context port channels states heap g t)
    allocate-Outcome context port channels states heap g before t e =
        elim (Option-cases (lib.zalloc t)) [
          | inl z ↦ rw (z, allocate) (refused no_memory g refl e)
          | inr (u, z) ↦
              let h : Globals = record g { usrsctp_initialized = suc g.usrsctp_initialized } in
              let s : Creating = record {
                globals = h;
                transport =
                    new_transport lib sctp platform context port channels states heap h (suc t);
              } in
              let f = fill lib sctp platform context s in
              rw (z, allocate)
                (finish-Outcome f.0 f.1 before (
                  fill-UnderWay lib sctp platform context s (record {
                    counted = ap suc e;
                    is_new = refl;
                    attached = refl;
                    unfinished = refl;
                    empty = λ i. refl;
                  })))
        ]

    if-Outcome :
        {before : ℕ} {r : Code × Globals × Option Transport} (b : Bool) (c : Code) (g : Globals)
        → is_error c ≡ true
        → g.usrsctp_initialized ≡ before
        → Outcome before r
        → Outcome before (if b then (c, g, none) else r)
    if-Outcome true c g e f o = refused c g e f
    if-Outcome false c g e f o = o

    invalid-Outcome :
        {before : ℕ} {r : Code × Globals × Option Transport} (c : Code) (g : Globals)
        → g.usrsctp_initialized ≡ before
        → Outcome before r
        → Outcome before (if is_error c then (c, g, none) else r)
    invalid-Outcome c g f o = elim (Bool-cases (is_error c)) [
      | inl e ↦ rw e (refused c g e f)
      | inr e ↦ rw e o
    ]

    -- Creating a transport has one of three results, whatever usrsctp, the allocations, the timer and
    -- the trace file answer. It is refused with an error and without a transport; or the code is an
    -- error and the transport is destroyed again: closed, detached, without a socket and without any
    -- channel; and in both cases there are as many users of usrsctp as before. Or it succeeds, there
    -- is one user more, and the transport is new, initialised and attached, with a well-formed
    -- registry.
    pub create_from_external-Outcome :
        (dtls : Dtls) (context : TransportContext) (port : ℕ) (channels states : Bool)
        (heap : ℕ → Channel) (g : Globals) (t : ℕ)
        → Outcome g.usrsctp_initialized
            (create_from_external lib sctp platform dtls context port channels states heap g t)
    unfolding create_from_external
    create_from_external-Outcome dtls context port channels states heap g t =
        invalid-Outcome (validate_context context) g refl (
          if-Outcome (is_error (dtls.state_getter t).0) external_error g refl refl (
            if-Outcome (is_closed_or_failed (dtls.state_getter t).1) invalid_state g refl refl (
              allocate-Outcome context port channels states heap (initialise lib sctp platform g)
                g.usrsctp_initialized (suc t) (initialise_count g))))
