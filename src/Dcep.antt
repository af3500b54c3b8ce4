-- ===== src/Dcep.antt =====
-- The data channel establishment protocol: `data_channel_open_message_parse`,
-- `data_channel_open_message_create` and `data_channel_ack_message_create` of
-- src/sctp_transport/transport.c, with the message constants of src/sctp_transport/transport.h.
pub mod Encoding
pub mod Parse
pub mod RoundTrip
pub mod Wire
mod Tests
use Prim.Native.Nat.{bit_or}
use rawrtc_data_channel.Base.{
  ℕ, zero, suc, ◌+◌, ◌-◌, List, [], ◌∷◌, Bool, true, false, ◌||◌, Option, none, some, if◌then◌else◌,
  ltb, ◌==◌, length, take,
}
use rawrtc_data_channel.Base.Code.{
  Code, success, invalid_argument, invalid_message, no_memory, Result, ok, err,
}
use rawrtc_data_channel.External.{Libre, Mbuf, swap16, swap32}
use rawrtc_data_channel.Parameters.{
  ChannelType, reliable_ordered, reliable_unordered, unreliable_ordered_retransmit,
  unreliable_unordered_retransmit, unreliable_ordered_timed, unreliable_unordered_timed,
  channel_type_value, Parameters, parameters_create_internal,
}

abbrev pub message_type_ack : ℕ
message_type_ack = 0x02

abbrev pub message_type_open : ℕ
message_type_open = 0x03

abbrev pub message_ack_base_size : ℕ
message_ack_base_size = 1

abbrev pub message_open_base_size : ℕ
message_open_base_size = 12

abbrev pub priority_normal : ℕ
priority_normal = 256

abbrev pub uint16_max : ℕ
uint16_max = 65535

-- The `switch` that validates the byte, with the cast to the enumeration.
abbrev pub channel_type_of : ℕ → Option ChannelType
channel_type_of v =
    if v == 0x00
    then some reliable_ordered
    else if v == 0x80
    then some reliable_unordered
    else if v == 0x01
    then some unreliable_ordered_retransmit
    else if v == 0x81
    then some unreliable_unordered_retransmit
    else if v == 0x02
    then some unreliable_ordered_timed
    else if v == 0x82
    then some unreliable_unordered_timed
    else none

pub record OpenFields : Type 0 where
  pub channel_type : ℕ
  pub priority : ℕ
  pub reliability_parameter : ℕ
  pub label_length : ℕ
  pub protocol_length : ℕ

-- Get fields.
pub read_open_fields : Libre → Mbuf → OpenFields × Mbuf
read_open_fields lib b =
    let (channel_type, b1) = lib.read_u8 b in
    let (priority, b2) = lib.read_u16 b1 in
    let (reliability, b3) = lib.read_u32 b2 in
    let (label_length, b4) = lib.read_u16 b3 in
    let (protocol_length, b5) = lib.read_u16 b4 in
    (
      record {
        channel_type = channel_type;
        priority = swap16 priority;
        reliability_parameter = swap32 reliability;
        label_length = swap16 label_length;
        protocol_length = swap16 protocol_length;
      },
      b5,
    )

-- Get label, get protocol: NULL if the length is 0.
pub read_text : Libre → ℕ → Mbuf → ℕ → Result (Option (List ℕ) × Mbuf)
read_text lib t b n =
    if ltb (lib.get_left b) n
    then err invalid_message
    else if n == 0
    then ok (none, b)
    else (let (e, text, b') = lib.strdup t b n in
        if e == 0 then ok (some text, b') else err (lib.error_to_code e))

read_parameters : Libre → ℕ → ℕ → OpenFields → ChannelType → Mbuf → Result (Parameters × ℕ)
read_parameters lib t id f channel_type b = elim (read_text lib t b f.label_length) [
  | err e ↦ err e
  | ok (label, b1) ↦ elim (read_text lib t b1 f.protocol_length) [
    | err e ↦ err e
    | ok (protocol, b2) ↦
        elim (parameters_create_internal lib t label channel_type f.reliability_parameter protocol
          false id) [ err e ↦ err e | ok p ↦ ok (p, f.priority) ]
  ]
]

-- Validate channel type, and go on.
open_parameters : Libre → ℕ → ℕ → OpenFields → Mbuf → Result (Parameters × ℕ)
open_parameters lib t id f b = elim (channel_type_of f.channel_type) [
  | none ↦ err invalid_message
  | some c ↦ read_parameters lib t id f c b
]

-- The parameters and the priority. The message type has been read before.
unfoldable pub data_channel_open_message_parse : Libre → ℕ → ℕ → Mbuf → Result (Parameters × ℕ)
unfolding read_open_fields read_text read_parameters open_parameters
data_channel_open_message_parse lib t id buffer =
    if ltb (lib.get_left buffer) (message_open_base_size - 1)
    then err invalid_message
    else (let (f, b) = read_open_fields lib buffer in open_parameters lib t id f b)

-- `strlen`: a text ends before its first zero byte.
abbrev pub strlen : List ℕ → ℕ
strlen [] = 0
strlen (zero ∷ xs) = 0
strlen (suc x ∷ xs) = suc (strlen xs)

abbrev pub strlen_or_zero : Option (List ℕ) → ℕ
strlen_or_zero none = 0
strlen_or_zero (some text) = strlen text

-- `if (text) err |= mbuf_write_mem(…)`
write_text : Libre → ℕ → Option (List ℕ) → ℕ × Mbuf → ℕ × Mbuf
write_text lib t none (e, b) = (e, b)
write_text lib t (some text) (e, b) =
    let (e', b') = lib.write_mem t b (take (strlen text) text) in (bit_or e e', b')

-- The fields and texts of the message, with the errors joined by `|`.
pub write_open_message : Libre → ℕ → Parameters → Mbuf → ℕ × Mbuf
unfolding write_text
write_open_message lib t p b =
    let (e1, b1) = lib.write_u8 t b message_type_open in
    let (e2, b2) = lib.write_u8 t b1 (channel_type_value p.channel_type) in
    let (e3, b3) = lib.write_u16 t b2 (swap16 priority_normal) in
    let (e4, b4) = lib.write_u32 t b3 (swap32 p.reliability_parameter) in
    let (e5, b5) = lib.write_u16 t b4 (swap16 (strlen_or_zero p.label)) in
    let (e6, b6) = lib.write_u16 t b5 (swap16 (strlen_or_zero p.protocol)) in
    let e : ℕ = bit_or (bit_or (bit_or (bit_or (bit_or e1 e2) e3) e4) e5) e6 in
    write_text lib t p.protocol (write_text lib t p.label (e, b6))

-- `if (err)`: the error, or the buffer set to its start.
finish_message : Libre → ℕ × Mbuf → Result Mbuf
finish_message lib (e, b) = if e == 0 then ok (lib.set_pos b 0) else err (lib.error_to_code e)

unfoldable pub data_channel_open_message_create : Libre → ℕ → Parameters → Result Mbuf
unfolding write_open_message finish_message
data_channel_open_message_create lib t p =
    let label_length : ℕ = strlen_or_zero p.label in
    let protocol_length : ℕ = strlen_or_zero p.protocol in
    if ltb uint16_max label_length || ltb uint16_max protocol_length
    then err invalid_argument
    else elim (lib.alloc t (message_open_base_size + label_length + protocol_length)) [
      | none ↦ err no_memory
      | some b ↦ finish_message lib (write_open_message lib t p b)
    ]

unfoldable pub data_channel_ack_message_create : Libre → ℕ → Result Mbuf
unfolding finish_message
data_channel_ack_message_create lib t = elim (lib.alloc t message_ack_base_size) [
  | none ↦ err no_memory
  | some b ↦ finish_message lib (lib.write_u8 t b message_type_ack)
]
