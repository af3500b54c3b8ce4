-- ===== src/Redirect/Creation.antt =====
-- What creating a redirect transport comes to.
use rawrtc_data_channel.Base.{
  ℕ, suc, ◌≡◌, refl, List, [], ◌∷◌, Bool, true, false, not, Option, none, some, if◌then◌else◌, ◌==◌,
  Bool-cases, Option-cases, inl, inr,
}
use rawrtc_data_channel.Base.Code.{
  Code, success, invalid_argument, invalid_state, external_error, no_memory, is_error,
}
use rawrtc_data_channel.External.{Libre}
use rawrtc_data_channel.External.Dtls.{Dtls, DtlsState, is_closed_or_failed, TransportContext}
use rawrtc_data_channel.Redirect.{
  RedirectTransport, new, closed, RedirectEvent, state_changed, detached, socket_closed, fd_closed,
  Net, Answer, answered, failed, next_moment, receive_size,
}
use rawrtc_data_channel.Redirect.Life.{
  destroy, created, open_socket, create_buffer, new_transport, allocate, validate_context,
  create_from_external,
}

success-only : (c : Code) → is_error c ≡ false → c ≡ success
success-only success e = refl
success-only _ e = absurd (cc)

module _ {Sa : Type 0} where
  abbrev pub closing_socket : Option ℕ → List (RedirectEvent Sa)
  closing_socket none = []
  closing_socket (some fd) = socket_closed (some fd) ∷ fd_closed (some fd) ∷ []

  abbrev pub detaching : Bool → List (RedirectEvent Sa) → List (RedirectEvent Sa)
  detaching true l = detached ∷ l
  detaching false l = l

  abbrev pub raising : Bool → List (RedirectEvent Sa) → List (RedirectEvent Sa)
  raising true l = state_changed closed ∷ l
  raising false l = l

  -- What leaves the library when a transport is destroyed that was never returned: its descriptor
  -- is taken from the event loop and closed, the DTLS transport is told, and the handler is called.
  abbrev pub teardown : RedirectTransport Sa → List (RedirectEvent Sa)
  teardown x =
      raising x.has_state_change_handler
        (detaching x.context.has_detach_handler (closing_socket x.socket))

  -- Nothing was allocated, or what was allocated is closed again, or a new transport is returned.
  pub data Outcome : Code × Option (RedirectTransport Sa) → Type 0 where
    refused : (c : Code) → is_error c ≡ true → Outcome (c, none)
    torn_down :
        (c : Code) (x : RedirectTransport Sa)
        → is_error c ≡ true
        → x.state ≡ closed
        → x.is_detached ≡ true
        → x.events ≡ teardown x
        → Outcome (c, some x)
    ready :
        (x : RedirectTransport Sa)
        → x.state ≡ new
        → x.is_detached ≡ false
        → x.initialized ≡ true
        → x.events ≡ []
        → Outcome (success, some x)

  -- A transport under construction: the other fields are those of `x`.
  abbrev under_construction :
      RedirectTransport Sa → TransportContext → Bool → Bool → Option ℕ → RedirectTransport Sa
  under_construction x context detaches raises socket = record x {
    initialized = false;
    is_detached = false;
    state = new;
    context = record context { has_detach_handler = detaches };
    has_state_change_handler = raises;
    socket = socket;
    events = [];
  }

  -- What `out` makes of a transport under construction, with an error.
  destroyed :
      (c : Code) (x : RedirectTransport Sa) (context : TransportContext) (detaches raises : Bool)
      (socket : Option ℕ)
      → is_error c ≡ true
      → Outcome (c, some (destroy (under_construction x context detaches raises socket)))
  unfolding destroy
  destroyed c x context true true none e = torn_down c _ e refl refl refl
  destroyed c x context true false none e = torn_down c _ e refl refl refl
  destroyed c x context false true none e = torn_down c _ e refl refl refl
  destroyed c x context false false none e = torn_down c _ e refl refl refl
  destroyed c x context true true (some fd) e = torn_down c _ e refl refl refl
  destroyed c x context true false (some fd) e = torn_down c _ e refl refl refl
  destroyed c x context false true (some fd) e = torn_down c _ e refl refl refl
  destroyed c x context false false (some fd) e = torn_down c _ e refl refl refl

  -- The value that creation returns.
  abbrev returned : Code × RedirectTransport Sa → Code × Option (RedirectTransport Sa)
  returned (error, x) = (error, some x)

  created-Outcome :
      (c : Code) (x : RedirectTransport Sa) (context : TransportContext) (raises : Bool)
      (socket : Option ℕ)
      → Outcome (
          returned
            (created (c, under_construction x context context.has_detach_handler raises socket)))
  created-Outcome c x context raises socket = elim (Bool-cases (is_error c)) [
    | inl e ↦ rw e (destroyed c x context context.has_detach_handler raises socket e)
    | inr e ↦ rw (success-only c e) (ready _ refl refl refl refl)
  ]

  if-Outcome :
      {r : Code × Option (RedirectTransport Sa)} (b : Bool) (c : Code)
      → is_error c ≡ true
      → Outcome r
      → Outcome (if b then (c, none) else r)
  if-Outcome true c e o = refused c e
  if-Outcome false c e o = o

  error-Outcome :
      {r : Code × Option (RedirectTransport Sa)} (c : Code)
      → Outcome r
      → Outcome (if is_error c then (c, none) else r)
  error-Outcome c o = elim (Bool-cases (is_error c)) [ inl e ↦ rw e (refused c e) | inr e ↦ rw e o ]

module _ (lib : Libre) {Sa Sockaddr : Type 0} (net : Net Sa Sockaddr) where
  socket-Outcome :
      (x : RedirectTransport Sa) (context : TransportContext) (raises : Bool) (s : Option ℕ)
      → Outcome (
          returned (
            created (
              open_socket lib net
                (under_construction x context context.has_detach_handler raises s))))
  socket-Outcome x context raises s = answer (net.socket x.clock) refl
    where
      answer :
          (a : Answer)
          → net.socket x.clock ≡ a
          → Outcome (
              returned (
                created (
                  open_socket lib net
                    (under_construction x context context.has_detach_handler raises s))))
      answer (failed e) h =
          rw (h, open_socket)
            (created-Outcome (lib.error_to_code e) (next_moment x) context raises none)
      answer (answered fd) h =
          rw (h, open_socket)
            (created-Outcome (lib.error_to_code (net.set_non_blocking (suc x.clock) (some fd)))
              (next_moment (next_moment x)) context raises (some fd))

  buffer-Outcome :
      (x : RedirectTransport Sa) (context : TransportContext) (raises : Bool) (s : Option ℕ)
      → Outcome (
          returned (
            created (
              create_buffer lib net
                (under_construction x context context.has_detach_handler raises s))))
  buffer-Outcome x context raises s = elim (Option-cases (lib.alloc x.clock receive_size)) [
    | inl h ↦ rw (h, create_buffer) (created-Outcome no_memory (next_moment x) context raises s)
    | inr (b, h) ↦
        rw (h, create_buffer)
          (socket-Outcome (next_moment (record x { buffer = b })) context raises s)
  ]

  allocate-Outcome :
      (context : TransportContext) (address : Sa) (port : ℕ) (raises : Bool) (t : ℕ)
      → Outcome (allocate lib net context address port raises t)
  allocate-Outcome context address port raises t = elim (Option-cases (lib.zalloc t)) [
    | inl h ↦ rw (h, allocate) (refused no_memory refl)
    | inr (u, h) ↦
        rw (h, allocate)
          (buffer-Outcome (new_transport context address port raises (suc t)) context raises
            (some 0))
  ]

  -- Creating a redirect transport has one of three results. It is refused with an error and nothing
  -- is returned; or it fails later with an error, and the transport is closed and detached, its
  -- descriptor is taken from the event loop and closed, and the detach handler and the state handler
  -- are called where they are set; or it succeeds with a transport that is new, initialised and
  -- attached. Of handlers that are called, packets that are passed on, and descriptors that are
  -- listened to or closed, there are no others in the second case, and none in the third.
  pub creation-Outcome :
      (dtls : Dtls) (context : TransportContext) (port : ℕ) (ip : List ℕ) (redirect_port : ℕ)
      (raises : Bool) (t : ℕ)
      → Outcome (create_from_external lib net dtls context port ip redirect_port raises t)
  unfolding create_from_external
  creation-Outcome dtls context port ip redirect_port raises t =
      let (e, address) = net.sa_set_str ip redirect_port in
      if-Outcome (redirect_port == 0) invalid_argument refl (
        error-Outcome (lib.error_to_code e) (
          if-Outcome (not (net.sa_is_inet address)) invalid_argument refl (
            error-Outcome (validate_context context) (
              if-Outcome (is_error (dtls.state_getter t).0) external_error refl (
                if-Outcome (is_closed_or_failed (dtls.state_getter t).1) invalid_state refl
                  (allocate-Outcome context address port raises (suc t)))))))

  destroy-zero :
      (x : RedirectTransport Sa) (context : TransportContext) (detaches raises : Bool)
      → (destroy (under_construction x context detaches raises (some 0))).events
        ≡ raising raises (detaching detaches (socket_closed (some 0) ∷ fd_closed (some 0) ∷ []))
  unfolding destroy
  destroy-zero x context true true = refl
  destroy-zero x context true false = refl
  destroy-zero x context false true = refl
  destroy-zero x context false false = refl

  -- When the arguments are valid and the DTLS transport is usable, and there is memory for the
  -- transport but none for its buffer, creation returns `no_memory`, and the destructor closes the
  -- descriptor 0, which nobody has opened.
  pub create_without_buffer :
      (dtls : Dtls) (context : TransportContext) (port : ℕ) (ip : List ℕ) (redirect_port : ℕ)
      (raises : Bool) (t : ℕ) (s : DtlsState)
      → (redirect_port == 0) ≡ false
      → lib.error_to_code (net.sa_set_str ip redirect_port).0 ≡ success
      → net.sa_is_inet (net.sa_set_str ip redirect_port).1 ≡ true
      → validate_context context ≡ success
      → dtls.state_getter t ≡ (success, s)
      → is_closed_or_failed s ≡ false
      → lib.zalloc (suc t) ≡ some tt
      → lib.alloc (suc (suc t)) receive_size ≡ none
      → ((x : RedirectTransport Sa) × (create_from_external lib net dtls context port ip
              redirect_port raises t
            ≡ (no_memory, some x))
          × (x.events
              ≡ raising raises (
                  detaching context.has_detach_handler
                    (socket_closed (some 0) ∷ fd_closed (some 0) ∷ []))))
  unfolding create_from_external
  create_without_buffer dtls context port ip redirect_port raises t s h e i v g d z m =
      let x : RedirectTransport Sa =
        next_moment
          (new_transport context (net.sa_set_str ip redirect_port).1 port raises (suc (suc t))) in
      (
        destroy x,
        rw (h, e, i, v, g, d, z, allocate, create_buffer, m) refl,
        destroy-zero x context context.has_detach_handler raises,
      )
