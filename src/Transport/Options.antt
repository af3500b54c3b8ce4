-- ===== src/Transport/Options.antt =====
-- The options of the SCTP socket: `rawrtc_sctp_transport_set_buffer_length`,
-- `_set_congestion_ctrl_algorithm`, `_set_mtu`, their getters and `_enable_mtu_discovery` of
-- src/sctp_transport/transport.c. Pointers are not NULL. What `usrsctp_getsockopt` answers is a
-- parameter, which takes the moment of the call.
pub mod Checked
use rawrtc_data_channel.Base.{
  ℕ, ◌+◌, ◌-◌, Bool, true, false, not, ◌||◌, Option, none, some, if◌then◌else◌, ltb, ◌==◌,
}
use rawrtc_data_channel.Base.Code.{
  Code, success, invalid_argument, invalid_state, external_error, unsupported_algorithm,
  not_implemented, Result, ok, err,
}
use rawrtc_data_channel.External.{Libre}
use rawrtc_data_channel.Transport.{
  Transport, TransportState, connecting, connected, Sctp, Written, written, failed, SocketOption,
  send_buffer, receive_buffer, congestion_control, path_mtu, option_set, emit, tick,
}

abbrev pub int_max : ℕ
int_max = 2147483647

-- `enum rawrtc_sctp_transport_congestion_ctrl`, and any other value
pub data CongestionCtrl : Type 0 where
  rfc2581 hstcp htcp rtcc other_algorithm : CongestionCtrl

-- What `usrsctp_getsockopt` answers for SCTP_PEER_ADDR_PARAMS: `size_ok` says whether the size is
-- that of the structure, `discovery` whether SPP_PMTUD_ENABLE is set.
pub record PathParams : Type 0 where
  pub size_ok : Bool
  pub discovery : Bool
  pub mtu : ℕ

pub data PathAnswer : Type 0 where
  path_answered : PathParams → PathAnswer
  path_failed : ℕ → PathAnswer

-- Translate algorithm: the values SCTP_CC_* of usrsctp.
abbrev pub cc_value : CongestionCtrl → Option ℕ
cc_value rfc2581 = some 0
cc_value hstcp = some 1
cc_value htcp = some 2
cc_value rtcc = some 3
cc_value other_algorithm = none

abbrev pub algorithm_of : ℕ → Result CongestionCtrl
algorithm_of v =
    if v == 0
    then ok rfc2581
    else if v == 1
    then ok hstcp
    else if v == 2
    then ok htcp
    else if v == 3
    then ok rtcc
    else err unsupported_algorithm

-- The states in which a transport has a peer.
abbrev pub is_started : TransportState → Bool
is_started connecting = true
is_started connected = true
is_started _ = false

module _ (lib : Libre) (sctp : Sctp) where
  -- A call of `usrsctp_setsockopt`: `none`, or the code for its error.
  unfoldable pub set_option : Transport → SocketOption → Option Code × Transport
  set_option x o = elim (sctp.setsockopt x.clock) [
    | none ↦ (none, emit (option_set o) (tick x))
    | some e ↦ (some (lib.error_to_code e), tick x)
  ]

  -- The code of the last call.
  abbrev pub return_code : Option Code × Transport → Code × Transport
  return_code (none, x) = (success, x)
  return_code (some c, x) = (c, x)

  -- Set length for receive buffer.
  abbrev pub set_receive : ℕ → Option Code × Transport → Code × Transport
  set_receive n (none, x) = return_code (set_option x (receive_buffer n))
  set_receive n (some c, x) = (c, x)

  unfoldable pub set_buffer_length : Transport → ℕ → ℕ → Code × Transport
  set_buffer_length x send_length receive_length =
      if send_length == 0
        || (receive_length == 0 || (ltb int_max send_length || ltb int_max receive_length))
      then (invalid_argument, x)
      else set_receive receive_length (set_option x (send_buffer send_length))

  unfoldable pub set_congestion_ctrl_algorithm : Transport → CongestionCtrl → Code × Transport
  set_congestion_ctrl_algorithm x algorithm = elim (cc_value algorithm) [
    | none ↦ (invalid_argument, x)
    | some v ↦ return_code (set_option x (congestion_control v))
  ]

  unfoldable pub set_mtu : Transport → ℕ → Code × Transport
  set_mtu x mtu =
      if not x.has_socket
      then (invalid_argument, x)
      else if not (is_started x.state)
      then (invalid_state, x)
      else return_code (set_option x (path_mtu mtu))

  unfoldable pub enable_mtu_discovery : Transport → Code
  enable_mtu_discovery x = if not (is_started x.state) then invalid_state else not_implemented

  module _ (getsockopt : ℕ → Written) where
    -- An `int` as a word of 32 bits.
    abbrev pub get_int : ℕ → Result ℕ
    get_int t = elim (getsockopt t) [ written v ↦ ok v | failed e ↦ err (lib.error_to_code e) ]

    abbrev pub get_both : Result ℕ → Result ℕ → Result (ℕ × ℕ)
    get_both (ok s) (ok r) = ok (s, r)
    get_both (ok s) (err c) = err c
    get_both (err c) _ = err c

    unfoldable pub get_buffer_length : Transport → Result (ℕ × ℕ)
    get_buffer_length x = get_both (get_int x.clock) (get_int (x.clock + 1))

    unfoldable pub get_congestion_ctrl_algorithm : Transport → Result CongestionCtrl
    get_congestion_ctrl_algorithm x = elim (getsockopt x.clock) [
      | written v ↦ algorithm_of v
      | failed e ↦ err (lib.error_to_code e)
    ]

  abbrev pub mtu_of : PathAnswer → Result (ℕ × Bool)
  mtu_of (path_failed e) = err (lib.error_to_code e)
  mtu_of (path_answered p) =
      if not p.size_ok
      then err external_error
      else ok (if p.discovery then 0 else p.mtu, p.discovery)

  -- The MTU, and whether its discovery is enabled.
  unfoldable pub get_mtu : (ℕ → PathAnswer) → Transport → Result (ℕ × Bool)
  get_mtu getsockopt x =
      if not x.has_socket
      then err invalid_argument
      else if not (is_started x.state)
      then err invalid_state
      else mtu_of (getsockopt x.clock)
