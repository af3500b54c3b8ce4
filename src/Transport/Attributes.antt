-- ===== src/Transport/Attributes.antt =====
-- The attributes of the SCTP transport: src/sctp_transport/attributes.c, and the capabilities of
-- src/sctp_capabilities. The transport is not NULL.
pub mod Capabilities
use rawrtc_data_channel.Base.{ℕ, ◌%◌, ◌^◌, Bool}
use rawrtc_data_channel.Base.Code.{Code, success, Result, ok}
use rawrtc_data_channel.External.{Libre}
use rawrtc_data_channel.Channel.Attributes.{if_set}
use rawrtc_data_channel.Transport.{Transport, TransportState}
use rawrtc_data_channel.Transport.Attributes.Capabilities.{capabilities_create}

abbrev pub max_message_size : ℕ
max_message_size = 0

unfoldable pub get_state : Transport → Result TransportState
get_state x = ok x.state

unfoldable pub get_port : Transport → Result ℕ
get_port x = ok x.port

-- The number is cast to 16 bits.
unfoldable pub get_n_streams : Transport → Result ℕ
get_n_streams x = ok (x.n_channels % 2 ^ 16)

unfoldable pub get_capabilities : Libre → ℕ → Result ℕ
unfolding capabilities_create
get_capabilities lib t = capabilities_create lib t max_message_size

unfoldable pub set_data_channel_handler : Transport → Bool → Code × Transport
set_data_channel_handler x handler = (success, record x { has_data_channel_handler = handler })

unfoldable pub get_data_channel_handler : Transport → Result Bool
get_data_channel_handler x = if_set x.has_data_channel_handler

unfoldable pub set_state_change_handler : Transport → Bool → Code × Transport
set_state_change_handler x handler = (success, record x { has_state_change_handler = handler })

unfoldable pub get_state_change_handler : Transport → Result Bool
get_state_change_handler x = if_set x.has_state_change_handler
