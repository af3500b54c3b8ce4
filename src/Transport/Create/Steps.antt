-- ===== src/Transport/Create/Steps.antt =====
-- The steps of `rawrtc_sctp_transport_create_from_external` of src/sctp_transport/transport.c.
use rawrtc_data_channel.Base.{
  ℕ, suc, List, [], ◌∷◌, Bool, true, false, not, ◌||◌, Option, none, some, if◌then◌else◌, ltb, ◌==◌,
}
use rawrtc_data_channel.Base.Code.{
  Code, success, invalid_state, external_error, no_memory, initialise_fail, is_error,
}
use rawrtc_data_channel.External.{Libre}
use rawrtc_data_channel.External.Dtls.{Dtls, is_closed_or_failed, TransportContext}
use rawrtc_data_channel.Channel.{Channel}
use rawrtc_data_channel.Transport.{
  Transport, new, Sctp, SocketOption, enable_stream_reset, recv_rcvinfo, linger, no_delay,
  explicit_eor, subscribe, assoc_change, partial_delivery, send_failed, sender_dry, shutdown,
  stream_change, stream_reset, socket_opened, trace_opened, emit, tick,
}
use rawrtc_data_channel.Transport.Options.{set_option}
use rawrtc_data_channel.Transport.Create.{
  Globals, usrsctp_init, timer_started, called, Creating, destroy, validate_context,
  data_channels_alloc,
}

-- What `usrsctp_getsockopt` answers for SCTP_PARTIAL_DELIVERY_POINT: a size that is that of an `int`
-- or not, with the value (0 for a negative one), or an `errno`.
pub data PointAnswer : Type 0 where
  point : Bool → ℕ → PointAnswer
  point_failed : ℕ → PointAnswer

-- The calls of creation: each takes the moment, and is `none` or an `errno` where it is optional.
pub record Platform : Type 0 where
  pub timer_handler : ℕ → Code
  pub reallocarray : ℕ → ℕ → Bool
  pub sdprintf : ℕ → Code
  pub fopen : ℕ → Bool
  pub socket : ℕ → Option ℕ
  pub set_non_blocking : ℕ → Option ℕ
  pub set_upcall : ℕ → Option ℕ
  pub bind : ℕ → Option ℕ
  pub partial_delivery_point : ℕ → PointAnswer

abbrev pub number_of_streams : ℕ
number_of_streams = 65535

abbrev pub default_port : ℕ
default_port = 5000

abbrev pub timer_timeout : ℕ
timer_timeout = 10

-- The options that creation sets, in order.
abbrev pub start_options : List SocketOption
start_options =
    enable_stream_reset
    ∷ recv_rcvinfo
    ∷ linger
    ∷ no_delay
    ∷ explicit_eor
    ∷ subscribe assoc_change
    ∷ subscribe partial_delivery
    ∷ subscribe send_failed
    ∷ subscribe sender_dry
    ∷ subscribe shutdown
    ∷ subscribe stream_change
    ∷ subscribe stream_reset
    ∷ []

-- Go on unless there was a `goto out`, which carries its code.
abbrev pub and_then :
    Option Code × Creating → (Creating → Option Code × Creating) → Option Code × Creating
and_then (none, s) f = f s
and_then (some c, s) f = (some c, s)

module _ (lib : Libre) (sctp : Sctp) (platform : Platform) where
  -- A call of usrsctp on the socket.
  abbrev pub call_socket : (ℕ → Option ℕ) → Creating → Option Code × Creating
  call_socket f s = elim (f s.transport.clock) [
    | none ↦ (none, record s { transport = tick s.transport })
    | some e ↦ (some (lib.error_to_code e), record s { transport = tick s.transport })
  ]

  -- Start timer (if needed).
  abbrev pub start_timer : Creating → Option Code × Creating
  start_timer s =
      let t : Creating = record {
        globals = called (timer_started timer_timeout) s.globals;
        transport = tick s.transport;
      } in
      if s.globals.usrsctp_initialized == 1
      then if is_error (platform.timer_handler s.transport.clock)
        then (some external_error, t)
        else (none, t)
      else (none, s)

  -- Allocate channel array.
  abbrev pub allocate_channels : Creating → Option Code × Creating
  allocate_channels s =
      let x = s.transport in
      let (error, channels) =
        data_channels_alloc (platform.reallocarray x.clock number_of_streams) x.channels
          number_of_streams 0 in
      if is_error error then (some error, record s { transport = tick x }) else (
        none,
        record s {
          transport = record (tick x) {
            channels = channels;
            n_channels = number_of_streams;
            current_channel_sid = 0;
          };
        },
      )

  -- Create packet tracer: the value that it leaves in `error`.
  abbrev pub create_tracer : TransportContext → Creating → Code × Creating
  create_tracer context s =
      let x = s.transport in
      let error = platform.sdprintf x.clock in
      if not context.trace_packets
      then (success, s)
      else if is_error error
      then (error, record s { transport = tick x })
      else (
        error,
        record s {
          transport =
              if platform.fopen x.clock
              then emit trace_opened (record (tick x) { has_trace_handle = true })
              else tick x;
        },
      )

  -- Create SCTP socket, register instance.
  abbrev pub create_socket : Creating → Option Code × Creating
  create_socket s =
      let x = s.transport in
      elim (platform.socket x.clock) [
        | some e ↦ (some (lib.error_to_code e), record s { transport = tick x })
        | none ↦ (
          none,
          record s { transport = emit socket_opened (record (tick x) { has_socket = true }) },
        )
      ]

  abbrev pub store_chunk_size : Creating → PointAnswer → Option Code × Creating
  store_chunk_size s (point_failed e) = (some (lib.error_to_code e), s)
  store_chunk_size s (point size_ok value) =
      if not size_ok || ltb value 1 then (some initialise_fail, s) else (
        none,
        record {
          globals = record s.globals { chunk_size = value };
          transport = record s.transport { usrsctp_chunk_size = value };
        },
      )

  -- Determine chunk size.
  abbrev pub determine_chunk_size : Creating → Option Code × Creating
  determine_chunk_size s =
      if s.globals.usrsctp_initialized == 1
      then store_chunk_size (record s { transport = tick s.transport })
          (platform.partial_delivery_point s.transport.clock)
      else (none, s)

  -- The options one after the other.
  abbrev pub set_options : List SocketOption → Creating → Option Code × Creating
  set_options [] s = (none, s)
  set_options (o ∷ rest) s =
      let (error, x) = set_option lib sctp s.transport o in
      and_then (error, record s { transport = x }) (set_options rest)

  -- From the socket to `out`.
  abbrev pub prepare_socket : Creating → Option Code × Creating
  prepare_socket s = and_then (create_socket s) (λ s1.
      and_then (call_socket platform.set_non_blocking s1) (λ s2.
        and_then (call_socket platform.set_upcall s2) (λ s3.
          and_then (determine_chunk_size s3)
            (λ s4. and_then (set_options start_options s4) (call_socket platform.bind)))))

  -- The value of `error` at `out`: that of the `goto`, or what the tracer has left.
  abbrev pub code_at_out : Code → Option Code × Creating → Code × Creating
  code_at_out left (none, s) = (left, s)
  code_at_out left (some c, s) = (c, s)

  abbrev pub trace_and_prepare : TransportContext → Option Code × Creating → Code × Creating
  trace_and_prepare context (some c, s) = (c, s)
  trace_and_prepare context (none, s) =
      let (left, s1) = create_tracer context s in code_at_out left (prepare_socket s1)

  abbrev pub fill : TransportContext → Creating → Code × Creating
  fill context s = trace_and_prepare context (and_then (start_timer s) allocate_channels)

  -- What `out` does.
  abbrev pub finish : Code × Creating → Code × Globals × Option Transport
  finish (error, s) =
      if is_error error
      then (let d : Creating = destroy lib sctp s in (error, d.globals, some d.transport))
      else (success, s.globals, some (record s.transport { initialized = true }))

  -- Set fields/reference: the memory of a new transport is zero. `heap` is the store.
  abbrev pub new_transport :
      TransportContext → ℕ → Bool → Bool → (ℕ → Channel) → Globals → ℕ → Transport
  new_transport context port has_channel_handler has_state_handler heap g t = record {
    initialized = false;
    is_detached = false;
    sending_in_progress = false;
    is_buffered_amount_low = false;
    state = new;
    port = if port == 0 then default_port else port;
    remote_port = none;
    remote_maximum_message_size = 0;
    has_detach_handler = context.has_detach_handler;
    has_destroyed_handler = context.has_destroyed_handler;
    has_data_channel_handler = has_channel_handler;
    has_state_change_handler = has_state_handler;
    buffered_messages_outgoing = [];
    buffer_dcep_inbound = none;
    info_dcep_inbound = record { rcv_sid = 0; rcv_ppid = 0 };
    channels = λ i. none;
    n_channels = 0;
    current_channel_sid = 0;
    has_trace_handle = false;
    has_socket = false;
    usrsctp_chunk_size = g.chunk_size;
    heap = heap;
    clock = t;
    wire = [];
    resets = [];
    events = [];
  }

  -- Initialise usrsctp (if needed).
  abbrev pub initialise : Globals → Globals
  initialise g = if g.usrsctp_initialized == 0 then called usrsctp_init g else g

  -- Allocate, and increase in-use counter.
  abbrev pub allocate :
      TransportContext
      → ℕ
      → Bool
      → Bool
      → (ℕ → Channel)
      → Globals
      → ℕ
      → Code × Globals × Option Transport
  allocate context port has_channel_handler has_state_handler heap g t = elim (lib.zalloc t) [
    | none ↦ (no_memory, g, none)
    | some _ ↦
        let h = record g { usrsctp_initialized = suc g.usrsctp_initialized } in
        finish (
          fill context (record {
            globals = h;
            transport =
                new_transport context port has_channel_handler has_state_handler heap h (suc t);
          }))
  ]

  -- At the moment `t`. The transport is returned also on an error, as it is destroyed then.
  unfoldable pub create_from_external :
      Dtls
      → TransportContext
      → ℕ
      → Bool
      → Bool
      → (ℕ → Channel)
      → Globals
      → ℕ
      → Code × Globals × Option Transport
  create_from_external dtls context port has_channel_handler has_state_handler heap g t =
      let invalid = validate_context context in
      let (error, dtls_state) = dtls.state_getter t in
      if is_error invalid
      then (invalid, g, none)
      else if is_error error
      then (external_error, g, none)
      else if is_closed_or_failed dtls_state
      then (invalid_state, g, none)
      else allocate context port has_channel_handler has_state_handler heap (initialise g) (suc t)
