-- ===== src/Redirect/Life.antt =====
-- Creation, start, stop and the states of the redirect transport, with the getters of
-- src/sctp_redirect_transport/attributes.c.
use rawrtc_data_channel.Base.{
  ℕ, suc, List, [], Bool, true, false, not, ◌&&◌, ◌||◌, Option, none, some, if◌then◌else◌, ◌==◌,
}
use rawrtc_data_channel.Base.Code.{
  Code, success, invalid_argument, invalid_state, external_error, no_memory, is_error,
}
use rawrtc_data_channel.External.{Libre}
use rawrtc_data_channel.External.Dtls.{Dtls, is_closed_or_failed, TransportContext}
use rawrtc_data_channel.Redirect.{
  RedirectState, new, opened, closed, RedirectTransport, state_changed, detached, destroyed,
  listening, fd_closed, socket_closed, Net, answered, failed, default_port, receive_size,
  record_event, next_moment,
}

abbrev pub is_new : RedirectState → Bool
is_new new = true
is_new _ = false

abbrev pub is_closed : RedirectState → Bool
is_closed closed = true
is_closed _ = false

-- Ensure the context contains all necessary callbacks.
unfoldable pub validate_context : TransportContext → Code
validate_context c =
    if not c.has_state_getter || not c.has_outbound_handler || not c.has_detach_handler
    then invalid_argument
    else success

module _ {Sa : Type 0} where
  -- Stop listening and close raw socket. The descriptor stays in the field.
  abbrev pub close_raw : RedirectTransport Sa → RedirectTransport Sa
  close_raw x = elim x.socket [
    | none ↦ x
    | some fd ↦ record_event (socket_closed (some fd)) (record_event (fd_closed (some fd)) x)
  ]

  -- Mark as detached & detach from DTLS transport.
  abbrev pub detach : RedirectTransport Sa → RedirectTransport Sa
  detach x =
      let y = record x { is_detached = true } in
      if y.context.has_detach_handler then record_event detached y else y

  abbrev pub before_state : RedirectState → RedirectTransport Sa → RedirectTransport Sa
  before_state closed x = detach (close_raw x)
  before_state _ x = x

  unfoldable pub set_state : RedirectTransport Sa → RedirectState → RedirectTransport Sa
  set_state x s =
      let y = record (before_state s x) { state = s } in
      if y.has_state_change_handler then record_event (state_changed s) y else y

  -- `rawrtc_sctp_redirect_transport_stop`
  unfoldable pub stop : RedirectTransport Sa → Code × RedirectTransport Sa
  unfolding set_state
  stop x =
      if x.is_detached || is_closed x.state then (success, x) else (success, set_state x closed)

  -- `rawrtc_sctp_redirect_transport_destroy`
  unfoldable pub destroy : RedirectTransport Sa → RedirectTransport Sa
  unfolding stop
  destroy x =
      let y = (stop x).1 in
      if y.initialized && y.context.has_destroyed_handler then record_event destroyed y else y

  unfoldable pub get_state : RedirectTransport Sa → RedirectState
  get_state x = x.state

  unfoldable pub get_port : RedirectTransport Sa → ℕ
  get_port x = x.local_port

  -- What `out` does with the transport.
  abbrev pub created : Code × RedirectTransport Sa → Code × RedirectTransport Sa
  created (error, x) =
      if is_error error then (error, destroy x) else (success, record x { initialized = true })

  -- The memory of a new transport is zero, also in the field `socket`.
  abbrev pub new_transport : TransportContext → Sa → ℕ → Bool → ℕ → RedirectTransport Sa
  new_transport context address port has_handler t = record {
    initialized = false;
    is_detached = false;
    state = new;
    local_port = if port == 0 then default_port else port;
    remote_port = 0;
    redirect_address = address;
    context = context;
    has_state_change_handler = has_handler;
    buffer = record { buf = []; pos = 0 };
    socket = some 0;
    clock = t;
    events = [];
  }

module _ (lib : Libre) {Sa Sockaddr : Type 0} (net : Net Sa Sockaddr) where
  abbrev pub listen : RedirectTransport Sa → Code × RedirectTransport Sa
  listen x =
      let error = lib.error_to_code (net.fd_listen x.clock x.socket) in
      let y = next_moment x in
      if is_error error
      then (error, record_event (fd_closed x.socket) y)
      else (success, set_state (record_event (listening x.socket) y) opened)

  -- `rawrtc_sctp_redirect_transport_start`, with capabilities that are not NULL: they are not read.
  unfoldable pub start : RedirectTransport Sa → ℕ → Code × RedirectTransport Sa
  unfolding set_state
  start x remote_port =
      if not (is_new x.state)
      then (invalid_state, x)
      else listen
          (record x { remote_port = if remote_port == 0 then x.local_port else remote_port })

  abbrev pub make_non_blocking : RedirectTransport Sa → Code × RedirectTransport Sa
  make_non_blocking x = (lib.error_to_code (net.set_non_blocking x.clock x.socket), next_moment x)

  -- Create raw socket. A descriptor is stored before it is tested.
  abbrev pub open_socket : RedirectTransport Sa → Code × RedirectTransport Sa
  open_socket x = elim (net.socket x.clock) [
    | failed e ↦ (lib.error_to_code e, record x { socket = none; clock = suc x.clock })
    | answered fd ↦ make_non_blocking (record x { socket = some fd; clock = suc x.clock })
  ]

  -- Create buffer.
  abbrev pub create_buffer : RedirectTransport Sa → Code × RedirectTransport Sa
  create_buffer x = elim (lib.alloc x.clock receive_size) [
    | none ↦ (no_memory, next_moment x)
    | some b ↦ open_socket (record x { buffer = b; clock = suc x.clock })
  ]

  abbrev pub allocate : TransportContext → Sa → ℕ → Bool → ℕ → Code × Option (RedirectTransport Sa)
  allocate context address port has_handler t = elim (lib.zalloc t) [
    | none ↦ (no_memory, none)
    | some _ ↦
        let (error, x) =
          created (create_buffer (new_transport context address port has_handler (suc t))) in
        (error, some x)
  ]

  abbrev pub check_dtls :
      Dtls → TransportContext → Sa → ℕ → Bool → ℕ → Code × Option (RedirectTransport Sa)
  check_dtls dtls context address port has_handler t =
      let (error, dtls_state) = dtls.state_getter t in
      if is_error error
      then (external_error, none)
      else if is_closed_or_failed dtls_state
      then (invalid_state, none)
      else allocate context address port has_handler (suc t)

  -- `rawrtc_sctp_redirect_transport_create_from_external` at the moment `t`, with pointers that are
  -- not NULL. The transport is returned also on an error, as it is destroyed then.
  unfoldable pub create_from_external :
      Dtls → TransportContext → ℕ → List ℕ → ℕ → Bool → ℕ → Code × Option (RedirectTransport Sa)
  unfolding destroy
  create_from_external dtls context port redirect_ip redirect_port has_handler t =
      let (e, address) = net.sa_set_str redirect_ip redirect_port in
      let error = lib.error_to_code e in
      let invalid = validate_context context in
      if redirect_port == 0
      then (invalid_argument, none)
      else if is_error error
      then (error, none)
      else if not (net.sa_is_inet address)
      then (invalid_argument, none)
      else if is_error invalid
      then (invalid, none)
      else check_dtls dtls context address port has_handler t
