-- ===== src/Transport/Create.antt =====
-- The life of the transport outside its states: `data_channels_alloc`, `validate_context`,
-- `rawrtc_sctp_transport_create_from_external`, `rawrtc_sctp_transport_destroy` and
-- `rawrtc_sctp_transport_set_context` of src/sctp_transport/transport.c, with the counter of users
-- of usrsctp of src/main/main.h. Pointers are not NULL.
pub mod Steps
pub mod UnderWay
pub mod Outcome
mod Tests
use rawrtc_data_channel.Base.{
  ℕ, zero, suc, ◌-◌, List, [], ◌∷◌, Bool, true, false, not, ◌&&◌, ◌||◌, Option, none, some,
  if◌then◌else◌, ltb, ◌==◌,
}
use rawrtc_data_channel.Base.Code.{
  Code, success, invalid_argument, invalid_state, external_error, no_memory, still_in_use,
  initialise_fail, is_error,
}
use rawrtc_data_channel.External.{Libre}
use rawrtc_data_channel.External.Dtls.{Dtls, DtlsState, is_closed_or_failed, TransportContext}
use rawrtc_data_channel.Channel.{Channel}
use rawrtc_data_channel.Transport.{
  Transport, TransportState, new, Sctp, SocketOption, enable_stream_reset, recv_rcvinfo, linger,
  no_delay, explicit_eor, subscribe, Subscription, assoc_change, partial_delivery, send_failed,
  sender_dry, shutdown, stream_change, stream_reset, destroyed, socket_opened, trace_opened, emit,
  tick,
}
use rawrtc_data_channel.Transport.State.{stop}
use rawrtc_data_channel.Transport.Options.{set_option}

-- Calls for the whole process: of usrsctp, and of the timer handler.
pub data GlobalCall : Type 0 where
  usrsctp_init usrsctp_finish timer_cancelled : GlobalCall
  timer_started : ℕ → GlobalCall

-- `struct rawrtcdc_global`, as far as the transport changes it, and the calls, the latest first.
pub record Globals : Type 0 where
  pub usrsctp_initialized : ℕ
  pub chunk_size : ℕ
  pub calls : List GlobalCall

-- Ensure the context contains all necessary callbacks.
unfoldable pub validate_context : TransportContext → Code
validate_context c =
    if not c.has_role_getter
      || (not c.has_state_getter || (not c.has_outbound_handler || not c.has_detach_handler))
    then invalid_argument
    else success

-- Is there a channel in one of the first slots?
abbrev pub any_active : ℕ → (ℕ → Option ℕ) → Bool
any_active zero channels = false
any_active (suc n) channels = elim (channels n) [ none ↦ any_active n channels | some h ↦ true ]

-- The slots, those from `n_previously` on empty. `reallocates` says whether there is memory.
unfoldable pub data_channels_alloc : Bool → (ℕ → Option ℕ) → ℕ → ℕ → Code × (ℕ → Option ℕ)
data_channels_alloc reallocates channels n_channels n_previously =
    if ltb 0 n_previously && (ltb n_channels n_previously && any_active n_previously channels)
    then (still_in_use, channels)
    else if not reallocates
    then (no_memory, channels)
    else (success, λ i. if ltb i n_previously then channels i else none)

-- Set the transport's context.
unfoldable pub set_context : Transport → TransportContext → Code × Transport
set_context x c =
    let error = validate_context c in
    if is_error error then (error, x) else (
      success,
      record x {
        has_detach_handler = c.has_detach_handler;
        has_destroyed_handler = c.has_destroyed_handler;
      },
    )

-- The state of the process and a transport under construction.
pub record Creating : Type 0 where
  pub globals : Globals
  pub transport : Transport

abbrev pub called : GlobalCall → Globals → Globals
called c g = record g { calls = c ∷ g.calls }

-- Decrease in-use counter; close usrsctp (if needed).
abbrev pub release : Globals → Globals
release g =
    let h = record g { usrsctp_initialized = g.usrsctp_initialized - 1 } in
    if h.usrsctp_initialized == 0 then called usrsctp_finish (called timer_cancelled h) else h

module _ (lib : Libre) (sctp : Sctp) where
  -- `rawrtc_sctp_transport_destroy`
  unfoldable pub destroy : Creating → Creating
  destroy s =
      let x = (stop lib sctp s.transport).1 in
      let y = if x.initialized && x.has_destroyed_handler then emit destroyed x else x in
      record {
        globals = release s.globals;
        transport = record y { buffered_messages_outgoing = [] };
      }
