-- ===== src/Transport/Start.antt =====
-- `rawrtc_sctp_transport_start` of src/sctp_transport/transport.c, on pointers that are not NULL.
pub mod Outcome
mod Tests
use rawrtc_data_channel.Base.{ℕ, Bool, true, false, not, Option, none, some, if◌then◌else◌, ◌==◌}
use rawrtc_data_channel.Base.Code.{Code, invalid_state, is_error}
use rawrtc_data_channel.External.{Libre}
use rawrtc_data_channel.Transport.{Transport, TransportState, new, connecting, closed, Sctp, tick}
use rawrtc_data_channel.Transport.State.{set_state}
use rawrtc_data_channel.Transport.Options.{set_mtu}

abbrev pub default_mtu : ℕ
default_mtu = 1200

-- EINPROGRESS is 115 on Linux.
abbrev pub is_in_progress : ℕ → Bool
is_in_progress e = e == 115

abbrev pub is_new : TransportState → Bool
is_new new = true
is_new _ = false

module _ (lib : Libre) (sctp : Sctp) where
  -- What `out` does.
  abbrev pub close_on_error : Code × Transport → Code × Transport
  close_on_error (error, x) =
      if is_error error then (error, set_state lib sctp x closed) else (error, x)

  -- Transition to connecting state, set remote address, set default MTU.
  abbrev pub transition : Transport → ℕ → Code × Transport
  transition x remote_port = close_on_error (
      set_mtu lib sctp (record (set_state lib sctp x connecting) { remote_port = some remote_port })
        default_mtu)

  abbrev pub connect_to : Transport → ℕ → Code × Transport
  connect_to x remote_port = elim (sctp.connect x.clock) [
    | none ↦ transition (tick x) remote_port
    | some e ↦
        if is_in_progress e
        then transition (tick x) remote_port
        else close_on_error (lib.error_to_code e, tick x)
  ]

  -- `max_message_size` is that of the remote capabilities.
  unfoldable pub start : Transport → ℕ → ℕ → Code × Transport
  start x max_message_size remote_port =
      if not (is_new x.state)
      then (invalid_state, x)
      else connect_to (record x { remote_maximum_message_size = max_message_size })
          (if remote_port == 0 then x.port else remote_port)
