-- ===== src/Names/Laws.antt =====
-- A name tells its value: there is a function that reads it back.
use Prim.Native.String.{String}
use text.Mathlib.Text.{◌==◌}
use rawrtc_data_channel.Base.{◌≡◌, refl, if◌then◌else◌}
use rawrtc_data_channel.Channel.{ChannelState}
use rawrtc_data_channel.Transport.{TransportState}
use rawrtc_data_channel.Redirect.{RedirectState}
use rawrtc_data_channel.Transport.Options.{CongestionCtrl}
use rawrtc_data_channel.Names.{
  data_channel_state_to_name, sctp_transport_state_to_name, sctp_redirect_transport_state_to_name,
  congestion_ctrl_algorithm_to_name,
}

abbrev read_channel_state : String → ChannelState
read_channel_state s =
    if s == "connecting"
    then ChannelState.connecting
    else if s == "open"
    then ChannelState.opened
    else if s == "closing"
    then ChannelState.closing
    else ChannelState.closed

abbrev read_transport_state : String → TransportState
read_transport_state s =
    if s == "new"
    then TransportState.new
    else if s == "connecting"
    then TransportState.connecting
    else if s == "connected"
    then TransportState.connected
    else TransportState.closed

abbrev read_redirect_state : String → RedirectState
read_redirect_state s =
    if s == "new"
    then RedirectState.new
    else if s == "open"
    then RedirectState.opened
    else RedirectState.closed

abbrev read_algorithm : String → CongestionCtrl
read_algorithm s =
    if s == "RFC2581"
    then CongestionCtrl.rfc2581
    else if s == "HSTCP"
    then CongestionCtrl.hstcp
    else if s == "HTCP"
    then CongestionCtrl.htcp
    else if s == "RTCC"
    then CongestionCtrl.rtcc
    else CongestionCtrl.other_algorithm

pub channel_state_read : (s : ChannelState) → read_channel_state (data_channel_state_to_name s) ≡ s
unfolding data_channel_state_to_name
channel_state_read ChannelState.connecting = refl
channel_state_read ChannelState.opened = refl
channel_state_read ChannelState.closing = refl
channel_state_read ChannelState.closed = refl

pub transport_state_read :
    (s : TransportState) → read_transport_state (sctp_transport_state_to_name s) ≡ s
unfolding sctp_transport_state_to_name
transport_state_read TransportState.new = refl
transport_state_read TransportState.connecting = refl
transport_state_read TransportState.connected = refl
transport_state_read TransportState.closed = refl

pub redirect_state_read :
    (s : RedirectState) → read_redirect_state (sctp_redirect_transport_state_to_name s) ≡ s
unfolding sctp_redirect_transport_state_to_name
redirect_state_read RedirectState.new = refl
redirect_state_read RedirectState.opened = refl
redirect_state_read RedirectState.closed = refl

pub algorithm_read : (a : CongestionCtrl) → read_algorithm (congestion_ctrl_algorithm_to_name a) ≡ a
unfolding congestion_ctrl_algorithm_to_name
algorithm_read CongestionCtrl.rfc2581 = refl
algorithm_read CongestionCtrl.hstcp = refl
algorithm_read CongestionCtrl.htcp = refl
algorithm_read CongestionCtrl.rtcc = refl
algorithm_read CongestionCtrl.other_algorithm = refl
