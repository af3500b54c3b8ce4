-- ===== src/Dcep/Tests.antt =====
-- Runs of the parser and the writers, and instances of the theorems on DCEP messages.
use rawrtc_data_channel.Base.{ℕ, ◌≡◌, refl, List, [], ◌∷◌, some, none, true, arith}
use rawrtc_data_channel.Base.Code.{ok}
use rawrtc_data_channel.External.{Mbuf, left}
use rawrtc_data_channel.External.Host.{host, host-HasMemory}
use rawrtc_data_channel.Parameters.{Parameters, unreliable_ordered_retransmit}
use rawrtc_data_channel.Dcep.{
  message_type_open, priority_normal, data_channel_open_message_create,
  data_channel_open_message_parse,
}
use rawrtc_data_channel.Dcep.Encoding.{message, open_body, open_message_create-bytes}
use rawrtc_data_channel.Dcep.Parse.{decode, parse-eq-decode}
use rawrtc_data_channel.Dcep.Wire.{IsWhole, open_message_create-IsWhole}
use rawrtc_data_channel.Dcep.RoundTrip.{as_received, open_message_round_trip}

-- label "ab", three retransmissions
abbrev chat : Parameters
chat = record {
  label = some (97 ∷ 98 ∷ []);
  channel_type = unreliable_ordered_retransmit;
  reliability_parameter = 3;
  protocol = none;
  negotiated = true;
  id = 7;
}

abbrev chat_message : List ℕ
chat_message = 3 ∷ 1 ∷ 1 ∷ 0 ∷ 0 ∷ 0 ∷ 0 ∷ 3 ∷ 0 ∷ 2 ∷ 0 ∷ 0 ∷ 97 ∷ 98 ∷ []

create_chat : data_channel_open_message_create host 0 chat ≡ ok (message chat_message)
unfolding data_channel_open_message_create
create_chat = refl

abbrev chat_body : Mbuf
chat_body = record { buf = chat_message; pos = 1 }

parse-eq-decode_example :
    data_channel_open_message_parse host 0 7 chat_body ≡ decode (left chat_body)
parse-eq-decode_example = parse-eq-decode host 0 (host-HasMemory 0) 7 chat_body (omega arith)

open_message_create-bytes_example :
    data_channel_open_message_create host 0 chat ≡ ok (message (message_type_open ∷ open_body chat))
open_message_create-bytes_example = open_message_create-bytes host 0 (host-HasMemory 0) chat

open_message_round_trip_example :
    ((host.read_u8 (message chat_message)).0 ≡ message_type_open)
    × (data_channel_open_message_parse host 0 7 (host.read_u8 (message chat_message)).1
        ≡ ok (as_received chat, priority_normal))
open_message_round_trip_example =
    open_message_round_trip host 0 0 7 chat (host-HasMemory 0) (host-HasMemory 0)
      (record { label_text = omega arith; protocol_text = tt; reliability_u32 = omega arith })
      create_chat

open_message_create-IsWhole_example : IsWhole chat chat_message
open_message_create-IsWhole_example =
    open_message_create-IsWhole host 0 chat (host-HasMemory 0)
      (record { label_text = omega arith; protocol_text = tt; reliability_u32 = omega arith })
      create_chat
