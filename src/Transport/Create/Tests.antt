-- ===== src/Transport/Create/Tests.antt =====
-- The creation of a transport on a host where every call works.
use rawrtc_data_channel.Base.{[], none, true}
use rawrtc_data_channel.Base.Code.{success}
use rawrtc_data_channel.External.Host.{host}
use rawrtc_data_channel.External.Dtls.{DtlsRole, TransportContext}
use rawrtc_data_channel.Channel.{ChannelState}
use rawrtc_data_channel.Transport.Host.{usrsctp, dtls_of, channel_at}
use rawrtc_data_channel.Transport.Create.{Globals}
use rawrtc_data_channel.Transport.Create.Steps.{Platform, point, create_from_external}
use rawrtc_data_channel.Transport.Create.Outcome.{Outcome, create_from_external-Outcome}

abbrev working : Platform
working = record {
  timer_handler = λ t. success;
  reallocarray = λ t n. true;
  sdprintf = λ t. success;
  fopen = λ t. true;
  socket = λ t. none;
  set_non_blocking = λ t. none;
  set_upcall = λ t. none;
  bind = λ t. none;
  partial_delivery_point = λ t. point true 65536;
}

abbrev nobody : Globals
nobody = record { usrsctp_initialized = 0; chunk_size = 0; calls = [] }

abbrev full_context : TransportContext
full_context = record {
  has_role_getter = true;
  has_state_getter = true;
  has_outbound_handler = true;
  has_detach_handler = true;
  has_destroyed_handler = true;
  trace_packets = true;
}

create_from_external-Outcome_example : Outcome 0 (
    create_from_external host usrsctp working
      (dtls_of DtlsRole.client)
      full_context
      0
      true
      true
      (channel_at ChannelState.opened)
      nobody
      0)
create_from_external-Outcome_example =
    create_from_external-Outcome host usrsctp working (dtls_of DtlsRole.client) full_context 0 true
      true (channel_at ChannelState.opened) nobody 0
