-- ===== src/Transport/Generic.antt =====
-- The generic data transport: src/data_transport/transport.{h,c} and attributes.c, and
-- `rawrtc_sctp_transport_get_data_transport`, which fills its table of functions with the handlers
-- of the SCTP transport. The transport that is referenced is passed to each handler as state.
mod Laws
use rawrtc_data_channel.Base.{ℕ, suc, Bool, Option, none, some, if◌then◌else◌}
use rawrtc_data_channel.Base.Code.{
  Code, success, invalid_argument, invalid_state, no_memory, Result, ok, err,
}
use rawrtc_data_channel.External.{Libre, Mbuf}
use rawrtc_data_channel.External.Dtls.{Dtls}
use rawrtc_data_channel.Parameters.{Parameters}
use rawrtc_data_channel.Channel.{Channel}
use rawrtc_data_channel.Transport.{Transport, Sctp}
use rawrtc_data_channel.Transport.State.{is_closed}
use rawrtc_data_channel.Transport.Channels.{
  channel_create_handler, channel_close_handler, channel_send_handler,
  channel_set_streaming_handler,
}

pub data DataTransportType : Type 0 where
  sctp_type : DataTransportType

abbrev pub CreateHandler : Type 0
CreateHandler = Transport → ℕ → Parameters → Code × Transport

abbrev pub CloseHandler : Type 0
CloseHandler = Transport → ℕ → Code × Transport

abbrev pub SendHandler : Type 0
SendHandler = Transport → ℕ → Option Mbuf → Bool → Code × Transport

abbrev pub StreamingHandler : Type 0
StreamingHandler = Channel → Code

pub record DataTransport : Type 0 where
  pub kind : DataTransportType
  pub channel_create : CreateHandler
  pub channel_close : CloseHandler
  pub channel_send : SendHandler
  pub channel_set_streaming : StreamingHandler

module _ (lib : Libre) where
  -- Only the handler that creates channels is checked for NULL.
  unfoldable pub data_transport_create :
      ℕ
      → DataTransportType
      → Option CreateHandler
      → CloseHandler
      → SendHandler
      → StreamingHandler
      → Result DataTransport
  data_transport_create t kind none close send streaming = err invalid_argument
  data_transport_create t kind (some create) close send streaming = elim (lib.zalloc t) [
    | none ↦ err no_memory
    | some _ ↦ ok (record {
      kind = kind;
      channel_create = create;
      channel_close = close;
      channel_send = send;
      channel_set_streaming = streaming;
    })
  ]

  unfoldable pub sctp_data_transport : Sctp → Dtls → Transport → Result DataTransport
  unfolding data_transport_create
  sctp_data_transport sctp dtls x =
      if is_closed x.state
      then err invalid_state
      else data_transport_create x.clock sctp_type (some (channel_create_handler lib sctp dtls))
          (channel_close_handler lib sctp) (channel_send_handler lib sctp)
          channel_set_streaming_handler

-- `rawrtc_data_transport_get_transport`.
unfoldable pub get_transport : DataTransport → Result DataTransportType
get_transport d = ok d.kind
