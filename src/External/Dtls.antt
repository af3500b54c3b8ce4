-- ===== src/External/Dtls.antt =====
-- The DTLS transport behind the SCTP transport: include/rawrtcdc/external.h. The getters belong to
-- the user of the library, so they are parameters; each takes the moment of the call.
use rawrtc_data_channel.Base.{ℕ, Bool, true, false}
use rawrtc_data_channel.Base.Code.{Code}

-- `enum rawrtc_external_dtls_role`, and any other value
pub data DtlsRole : Type 0 where
  client server other_role : DtlsRole

-- `enum rawrtc_external_dtls_transport_state`
pub data DtlsState : Type 0 where
  new_or_connecting dtls_connected closed_or_failed : DtlsState

-- The getters of `struct rawrtc_sctp_transport_context`.
pub record Dtls : Type 0 where
  pub state_getter : ℕ → Code × DtlsState
  pub role_getter : ℕ → Code × DtlsRole

-- `struct rawrtc_sctp_transport_context`: which of its functions are set, and its flag.
pub record TransportContext : Type 0 where
  pub has_role_getter : Bool
  pub has_state_getter : Bool
  pub has_outbound_handler : Bool
  pub has_detach_handler : Bool
  pub has_destroyed_handler : Bool
  pub trace_packets : Bool

abbrev pub is_closed_or_failed : DtlsState → Bool
is_closed_or_failed closed_or_failed = true
is_closed_or_failed _ = false
