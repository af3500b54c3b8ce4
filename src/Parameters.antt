-- ===== src/Parameters.antt =====
-- Data channel parameters: src/data_channel_parameters/parameters.{h,c}, attributes.c, the channel
-- types of include/rawrtcdc/data_channel.h and the unordered bit of src/data_channel/channel.h.
-- A text is the list of its bytes without the final zero; NULL is `none`.
pub mod Laws
pub mod Copies
mod Tests
use rawrtc_data_channel.Base.{
  ℕ, List, Bool, true, false, Option, none, some, if◌then◌else◌, leb, ◌==◌,
}
use rawrtc_data_channel.Base.Code.{Code, success, no_value, no_memory, Result, ok, err}
use rawrtc_data_channel.External.{Libre}

pub data ChannelType : Type 0 where
  reliable_ordered reliable_unordered : ChannelType
  unreliable_ordered_retransmit unreliable_unordered_retransmit : ChannelType
  unreliable_ordered_timed unreliable_unordered_timed : ChannelType

-- The value of the enumerator.
abbrev pub channel_type_value : ChannelType → ℕ
channel_type_value reliable_ordered = 0x00
channel_type_value reliable_unordered = 0x80
channel_type_value unreliable_ordered_retransmit = 0x01
channel_type_value unreliable_unordered_retransmit = 0x81
channel_type_value unreliable_ordered_timed = 0x02
channel_type_value unreliable_unordered_timed = 0x82

-- `channel_type & RAWRTC_DATA_CHANNEL_TYPE_IS_UNORDERED` (0x80), of a byte.
abbrev pub is_unordered : ChannelType → Bool
is_unordered c = leb 0x80 (channel_type_value c)

pub record Parameters : Type 0 where
  pub label : Option (List ℕ)
  pub channel_type : ChannelType
  pub reliability_parameter : ℕ
  pub protocol : Option (List ℕ)
  pub negotiated : Bool
  pub id : ℕ

abbrev pub is_reliable : ChannelType → Bool
is_reliable reliable_ordered = true
is_reliable reliable_unordered = true
is_reliable _ = false

-- `mem_zalloc` leaves `id` at 0 unless the channel is negotiated.
unfoldable pub data_parameters_create :
    Libre → ℕ → Option (List ℕ) → ChannelType → ℕ → Option (List ℕ) → Bool → ℕ → Result Parameters
data_parameters_create lib t label channel_type reliability protocol negotiated id =
    elim (lib.zalloc t) [
      | none ↦ err no_memory
      | some _ ↦ ok (record {
        label = label;
        channel_type = channel_type;
        reliability_parameter = if is_reliable channel_type then 0 else reliability;
        protocol = protocol;
        negotiated = negotiated;
        id = if negotiated then id else 0;
      })
    ]

-- References to the texts are counted by libre, so nothing more happens to the values.
unfoldable pub parameters_create_internal :
    Libre → ℕ → Option (List ℕ) → ChannelType → ℕ → Option (List ℕ) → Bool → ℕ → Result Parameters
unfolding data_parameters_create
parameters_create_internal = data_parameters_create

pub get_label : Parameters → Result (List ℕ)
get_label p = elim p.label [ some l ↦ ok l | none ↦ err no_value ]

pub get_channel_type : Parameters → Result ChannelType
get_channel_type p = ok p.channel_type

pub get_reliability_parameter : Parameters → Result ℕ
get_reliability_parameter p =
    if is_reliable p.channel_type then err no_value else ok p.reliability_parameter

pub get_protocol : Parameters → Result (List ℕ)
get_protocol p = elim p.protocol [ some l ↦ ok l | none ↦ err no_value ]

pub get_negotiated : Parameters → Result Bool
get_negotiated p = ok p.negotiated

pub get_id : Parameters → Result ℕ
get_id p = if p.negotiated then ok p.id else err no_value
