-- ===== src/Channel.antt =====
-- A data channel object: src/data_channel/channel.h, the message flags and states of
-- include/rawrtcdc/data_channel.h, and `struct rawrtc_sctp_data_channel_context` with its flags of
-- src/sctp_transport/transport.h. A bit of a flags field is a Boolean field; a handler is a Boolean
-- that says whether it is set.
pub mod Attributes
use rawrtc_data_channel.Base.{ℕ, Bool, true, false, Option, none}
use rawrtc_data_channel.External.{Mbuf}
use rawrtc_data_channel.Parameters.{Parameters}

-- `opened` is RAWRTC_DATA_CHANNEL_STATE_OPEN.
pub data ChannelState : Type 0 where
  connecting opened closing closed : ChannelState

-- `struct sctp_rcvinfo`, as far as it is read.
pub record RcvInfo : Type 0 where
  pub rcv_sid : ℕ
  pub rcv_ppid : ℕ

-- The context that the SCTP transport keeps for a channel.
pub record Context : Type 0 where
  pub sid : ℕ
  pub can_send_unordered : Bool
  pub pending_inbound_message : Bool
  pub pending_stream_reset : Bool
  pub buffer_inbound : Option Mbuf
  pub info_inbound : RcvInfo

-- `incoming_stream_reset` and `outgoing_stream_reset` are bits of the channel's own flags: there
-- the code sets and tests them, though their enumeration belongs to the context.
pub record Channel : Type 0 where
  pub initialized : Bool
  pub streamed : Bool
  pub incoming_stream_reset : Bool
  pub outgoing_stream_reset : Bool
  pub state : ChannelState
  pub transport_arg : Option Context
  pub parameters : Parameters
  pub open_handler : Bool
  pub buffered_amount_low_handler : Bool
  pub error_handler : Bool
  pub close_handler : Bool
  pub message_handler : Bool

-- `enum rawrtc_data_channel_message_flag`
pub record MessageFlags : Type 0 where
  pub is_aborted : Bool
  pub is_complete : Bool
  pub is_string : Bool
  pub is_binary : Bool

-- The handlers of the application that a channel is created with.
pub record Handlers : Type 0 where
  pub on_open : Bool
  pub on_buffered_amount_low : Bool
  pub on_error : Bool
  pub on_close : Bool
  pub on_message : Bool

-- The channel that `rawrtc_data_channel_create_internal` allocates, with its flags as it returns it.
abbrev pub channel_object : Parameters → Handlers → Channel
channel_object p handlers = record {
  initialized = true;
  streamed = false;
  incoming_stream_reset = false;
  outgoing_stream_reset = false;
  state = connecting;
  transport_arg = none;
  parameters = p;
  open_handler = handlers.on_open;
  buffered_amount_low_handler = handlers.on_buffered_amount_low;
  error_handler = handlers.on_error;
  close_handler = handlers.on_close;
  message_handler = handlers.on_message;
}
