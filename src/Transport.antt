-- ===== src/Transport.antt =====
-- The SCTP transport: `struct rawrtc_sctp_transport` and the constants of
-- src/sctp_transport/transport.h, `struct send_context` of src/sctp_transport/transport.c, and what
-- transport.c calls in usrsctp and in the message buffer of rawrtcc, as parameters.
pub mod Host
mod Tests
mod Examples
pub mod Registry
pub mod Send
pub mod State
pub mod Reset
pub mod Channels
pub mod Receive
pub mod Events
pub mod Api
pub mod Packets
pub mod Options
pub mod Start
pub mod Create
pub mod Runs
pub mod Attributes
pub mod Lifecycle
pub mod Generic
pub mod Arrival
pub mod Establishment
pub mod Teardown
use rawrtc_data_channel.Base.{
  ℕ, suc, ◌≡◌, ◌≤◌, ◌<◌, List, [], ◌∷◌, ◌++◌, Bool, true, false, Option, some, length,
}
use rawrtc_data_channel.Base.Code.{Code, success, stop_iteration, is_error}
use rawrtc_data_channel.External.{Mbuf}
use rawrtc_data_channel.Channel.{Channel, RcvInfo, MessageFlags}

-- `enum rawrtc_sctp_transport_state`
pub data TransportState : Type 0 where
  new connecting connected closed : TransportState

abbrev pub sid_max : ℕ
sid_max = 65534

abbrev pub empty_message_size : ℕ
empty_message_size = 1

abbrev pub ppid_dcep : ℕ
ppid_dcep = 50

abbrev pub ppid_utf16 : ℕ
ppid_utf16 = 51

abbrev pub ppid_utf16_empty : ℕ
ppid_utf16_empty = 56

abbrev pub ppid_utf16_partial : ℕ
ppid_utf16_partial = 54

abbrev pub ppid_binary : ℕ
ppid_binary = 53

abbrev pub ppid_binary_empty : ℕ
ppid_binary_empty = 57

abbrev pub ppid_binary_partial : ℕ
ppid_binary_partial = 52

-- `struct sctp_sndinfo`: `snd_flags` has the bits SCTP_EOR and SCTP_UNORDERED.
pub record SndInfo : Type 0 where
  pub snd_sid : ℕ
  pub eor : Bool
  pub unordered : Bool
  pub snd_ppid : ℕ

pub data PrPolicy : Type 0 where
  pr_none pr_rtx pr_ttl : PrPolicy

-- `struct sctp_sendv_spa`
pub record Spa : Type 0 where
  pub sndinfo_valid : Bool
  pub prinfo_valid : Bool
  pub sendv_sndinfo : SndInfo
  pub pr_policy : PrPolicy
  pub pr_value : ℕ

-- What `info` points to, with its `info_type`: `other_info` is any type that transport.c does not
-- handle.
pub data Info : Type 0 where
  noinfo : Info
  sndinfo : SndInfo → Info
  spa : Spa → Info
  other_info : ℕ → Info

-- A buffered outgoing message: the buffer and its `struct send_context`.
pub record Message : Type 0 where
  pub buffer : Mbuf
  pub info : Info
  pub flags : ℕ

-- What usrsctp took in one call: the bytes and the information that went with them.
pub record Sent : Type 0 where
  pub bytes : List ℕ
  pub info : Info

-- The notifications of usrsctp that the transport subscribes to.
pub data Subscription : Type 0 where
  assoc_change partial_delivery send_failed sender_dry : Subscription
  shutdown stream_change stream_reset : Subscription

-- What `usrsctp_setsockopt` sets: SO_SNDBUF, SO_RCVBUF, SCTP_PLUGGABLE_CC and the fixed MTU of
-- SCTP_PEER_ADDR_PARAMS; and, with fixed values, SCTP_ENABLE_STREAM_RESET, SCTP_RECVRCVINFO,
-- SO_LINGER, SCTP_NODELAY, SCTP_EXPLICIT_EOR and SCTP_EVENT.
pub data SocketOption : Type 0 where
  enable_stream_reset recv_rcvinfo linger no_delay explicit_eor : SocketOption
  subscribe : Subscription → SocketOption
  send_buffer receive_buffer congestion_control path_mtu : ℕ → SocketOption

-- What `usrsctp_setsockopt` is given with SCTP_RESET_STREAMS: is SCTP_STREAM_RESET_OUTGOING in
-- `srs_flags`, and `srs_stream_list`.
pub record ResetRequest : Type 0 where
  pub is_outgoing : Bool
  pub stream_list : List ℕ

-- Calls that leave the library, the channel by its address.
pub data Event : Type 0 where
  channel_opened channel_closed buffered_amount_low new_channel : ℕ → Event
  received : ℕ → Option (List ℕ) → MessageFlags → Event
  state_changed : TransportState → Event
  detached socket_opened socket_closed trace_opened trace_closed destroyed : Event
  -- a packet handed to the outbound handler, with its type of service and `set_df`, and a packet
  -- fed to usrsctp, with its congestion bits
  outbound : List ℕ → ℕ → ℕ → Event
  fed : List ℕ → ℕ → Event
  option_set : SocketOption → Event
  -- the text that a packet leaves in the trace file
  traced : List ℕ → Event

-- A channel is an address in `heap`, and `channels` holds the addresses of the registered ones.
-- `usrsctp_chunk_size` is the global of src/main/main.h. `clock` counts the calls that can turn
-- out either way; `wire`, `resets` and `events` record the calls that leave the library, the latest
-- first.
pub record Transport : Type 0 where
  pub initialized : Bool
  pub is_detached : Bool
  pub sending_in_progress : Bool
  pub is_buffered_amount_low : Bool
  pub state : TransportState
  pub port : ℕ
  pub remote_port : Option ℕ
  pub remote_maximum_message_size : ℕ
  pub has_detach_handler : Bool
  pub has_destroyed_handler : Bool
  pub has_data_channel_handler : Bool
  pub has_state_change_handler : Bool
  pub buffered_messages_outgoing : List Message
  pub buffer_dcep_inbound : Option Mbuf
  pub info_dcep_inbound : RcvInfo
  pub channels : ℕ → Option ℕ
  pub n_channels : ℕ
  pub current_channel_sid : ℕ
  pub has_trace_handle : Bool
  pub has_socket : Bool
  pub usrsctp_chunk_size : ℕ
  pub heap : ℕ → Channel
  pub clock : ℕ
  pub wire : List Sent
  pub resets : List ResetRequest
  pub events : List Event

abbrev pub emit : Event → Transport → Transport
emit e x = record x { events = e ∷ x.events }

abbrev pub tick : Transport → Transport
tick x = record x { clock = suc x.clock }

-- What `usrsctp_sendv` returns.
pub data Written : Type 0 where
  written : ℕ → Written
  failed : ℕ → Written

-- usrsctp and the message buffer of rawrtcc. Each call of usrsctp takes the moment at which it is
-- made, so that it may answer differently each time.
pub record Sctp : Type 0 where
  -- `usrsctp_sendv`: it takes no more than it was given
  pub sendv : ℕ → List ℕ → Info → ℕ → Written
  pub sendv_law :
      (t : ℕ) (bytes : List ℕ) (info : Info) (flags n : ℕ)
      → sendv t bytes info flags ≡ written n
      → n ≤ length bytes
  -- a call that fails sets `errno`, which is not 0
  pub sendv_errno :
      (t : ℕ) (bytes : List ℕ) (info : Info) (flags e : ℕ)
      → sendv t bytes info flags ≡ failed e
      → 0 < e
  -- `usrsctp_setsockopt` and `usrsctp_connect`: `none`, or `errno`
  pub setsockopt : ℕ → Option ℕ
  pub connect : ℕ → Option ℕ
  pub setsockopt_errno : (t e : ℕ) → setsockopt t ≡ some e → 0 < e
  pub connect_errno : (t e : ℕ) → connect t ≡ some e → 0 < e
  -- `rawrtc_message_buffer_append`: at the end, or not at all
  pub append : ℕ → List Message → Message → Code × List Message
  pub append_ok :
      (t : ℕ) (l : List Message) (m : Message)
      → (append t l m).0 ≡ success
      → (append t l m).1 ≡ l ++ m ∷ []
  pub append_err :
      (t : ℕ) (l : List Message) (m : Message)
      → is_error (append t l m).0 ≡ true
      → (append t l m).1 ≡ l
  -- `rawrtc_message_buffer_clear`: it hands the messages to the handler in order, drops each for
  -- which the handler returns true, and stops at the first for which it returns false
  pub clear :
      (Message → Transport → Bool × Message × Transport)
      → List Message
      → Transport
      → Code × List Message × Transport
  pub clear_nil :
      (handler : Message → Transport → Bool × Message × Transport) (x : Transport)
      → clear handler [] x ≡ (success, [], x)
  pub clear_continue :
      (handler : Message → Transport → Bool × Message × Transport) (m : Message) (l : List Message)
      (x : Transport)
      → (handler m x).0 ≡ true
      → clear handler (m ∷ l) x ≡ clear handler l (handler m x).2
  pub clear_stop :
      (handler : Message → Transport → Bool × Message × Transport) (m : Message) (l : List Message)
      (x : Transport)
      → (handler m x).0 ≡ false
      → clear handler (m ∷ l) x ≡ (stop_iteration, (handler m x).1 ∷ l, (handler m x).2)
