-- ===== src/Parameters/Laws.antt =====
-- The getters of data channel parameters after their creation.
use rawrtc_data_channel.Base.{ℕ, ◌≡◌, List, Bool, Option, none, some, if◌then◌else◌, arith}
use rawrtc_data_channel.Base.Code.{Result, ok, err, no_value}
use rawrtc_data_channel.External.{Libre}
use rawrtc_data_channel.Parameters.{
  ChannelType, Parameters, is_reliable, data_parameters_create, get_label, get_channel_type,
  get_reliability_parameter, get_protocol, get_negotiated, get_id,
}

abbrev pub or_no_value {ℓ} : {A : Type ℓ} → Option A → Result A
or_no_value (some a) = ok a
or_no_value none = err no_value

-- If creation succeeds, every getter gives back the argument it is named after, except that the
-- reliability parameter has no value on a reliable channel, that the id has no value on a channel
-- that is not negotiated, and that a NULL text has no value.
pub create-getters :
    (lib : Libre) (t : ℕ) (label : Option (List ℕ)) (c : ChannelType) (reliability : ℕ)
    (protocol : Option (List ℕ)) (negotiated : Bool) (id : ℕ) {p : Parameters}
    → data_parameters_create lib t label c reliability protocol negotiated id ≡ ok p
    → (get_label p ≡ or_no_value label)
      × (get_channel_type p ≡ ok c)
      × (get_reliability_parameter p ≡ (if is_reliable c then err no_value else ok reliability))
      × (get_protocol p ≡ or_no_value protocol)
      × (get_negotiated p ≡ ok negotiated)
      × (get_id p ≡ (if negotiated then ok id else err no_value))
unfolding data_parameters_create get_label get_channel_type get_reliability_parameter get_protocol
    get_negotiated get_id
create-getters lib t label c reliability protocol negotiated id h = ground arith
