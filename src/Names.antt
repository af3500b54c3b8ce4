-- ===== src/Names.antt =====
-- The names of states, algorithms and types: utils.c of src/data_channel, src/sctp_transport,
-- src/sctp_redirect_transport and src/data_transport. A value that is no enumerator is named "???".
mod Laws
use Prim.Native.String.{String}
use rawrtc_data_channel.Channel.{ChannelState}
use rawrtc_data_channel.Transport.{TransportState}
use rawrtc_data_channel.Transport.Options.{CongestionCtrl}
use rawrtc_data_channel.Transport.Generic.{DataTransportType}
use rawrtc_data_channel.Redirect.{RedirectState}

unfoldable pub data_channel_state_to_name : ChannelState → String
data_channel_state_to_name ChannelState.connecting = "connecting"
data_channel_state_to_name ChannelState.opened = "open"
data_channel_state_to_name ChannelState.closing = "closing"
data_channel_state_to_name ChannelState.closed = "closed"

unfoldable pub sctp_transport_state_to_name : TransportState → String
sctp_transport_state_to_name TransportState.new = "new"
sctp_transport_state_to_name TransportState.connecting = "connecting"
sctp_transport_state_to_name TransportState.connected = "connected"
sctp_transport_state_to_name TransportState.closed = "closed"

unfoldable pub sctp_redirect_transport_state_to_name : RedirectState → String
sctp_redirect_transport_state_to_name RedirectState.new = "new"
sctp_redirect_transport_state_to_name RedirectState.opened = "open"
sctp_redirect_transport_state_to_name RedirectState.closed = "closed"

unfoldable pub congestion_ctrl_algorithm_to_name : CongestionCtrl → String
congestion_ctrl_algorithm_to_name CongestionCtrl.rfc2581 = "RFC2581"
congestion_ctrl_algorithm_to_name CongestionCtrl.hstcp = "HSTCP"
congestion_ctrl_algorithm_to_name CongestionCtrl.htcp = "HTCP"
congestion_ctrl_algorithm_to_name CongestionCtrl.rtcc = "RTCC"
congestion_ctrl_algorithm_to_name CongestionCtrl.other_algorithm = "???"

unfoldable pub data_transport_type_to_str : DataTransportType → String
data_transport_type_to_str DataTransportType.sctp_type = "SCTP"
