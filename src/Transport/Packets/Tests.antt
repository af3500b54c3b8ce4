-- ===== src/Transport/Packets/Tests.antt =====
-- A packet with its checksum, sent and fed.
use rawrtc_data_channel.Base.{ℕ, ◌≡◌, refl, List, [], ◌∷◌, Option, some, arith}
use rawrtc_data_channel.Base.Code.{success, invalid_message}
use rawrtc_data_channel.External.{AllBytes}
use rawrtc_data_channel.Channel.{ChannelState}
use rawrtc_data_channel.Checksum.{with_checksum}
use rawrtc_data_channel.Checksum.Host.{weighted_sum, enable_all}
use rawrtc_data_channel.Transport.{Transport, connected, outbound, fed, emit}
use rawrtc_data_channel.Transport.Host.{transport_in}
use rawrtc_data_channel.Transport.Packets.{
  Direction, dump_inbound, dump_outbound, trace_packet, sctp_packet_handler, feed_inbound,
}
use rawrtc_data_channel.Transport.Packets.Checked.{feed_inbound_verdict, packet_round_trip}

-- The ports 5000, a verification tag, no checksum, and a chunk.
abbrev unsummed : List ℕ
unsummed = 19 ∷ 136 ∷ 19 ∷ 136 ∷ 1 ∷ 2 ∷ 3 ∷ 4 ∷ 0 ∷ 0 ∷ 0 ∷ 0 ∷ 14 ∷ 0 ∷ 0 ∷ 4 ∷ []

unsummed_bytes : AllBytes unsummed
unsummed_bytes = (
  omega arith,
  (
    omega arith,
    (
      omega arith,
      (
        omega arith,
        (
          omega arith,
          (
            omega arith,
            (
              omega arith,
              (
                omega arith,
                (
                  omega arith,
                  (
                    omega arith,
                    (
                      omega arith,
                      (omega arith, (omega arith, (omega arith, (omega arith, (omega arith, tt))))),
                    ),
                  ),
                ),
              ),
            ),
          ),
        ),
      ),
    ),
  ),
)

abbrev dump_all : ℕ → List ℕ → Direction → Option (List ℕ)
dump_all t p direction = some p

abbrev here : Transport
here = transport_in connected ChannelState.opened

feed_inbound_verdict_example :
    feed_inbound dump_all weighted_sum enable_all here (record { buf = unsummed; pos = 0 }) 1 ≡ (
      invalid_message,
      record { buf = unsummed; pos = 0 },
      trace_packet dump_all here unsummed dump_inbound,
    )
feed_inbound_verdict_example =
    feed_inbound_verdict dump_all weighted_sum enable_all here (record { buf = unsummed; pos = 0 })
      1 unsummed_bytes

packet_round_trip_example :
    ((s : List ℕ) × (with_checksum s 0 ≡ unsummed)
      × (sctp_packet_handler dump_all weighted_sum enable_all here unsummed 0 0
          ≡ (s, emit (outbound s 0 0) (trace_packet dump_all here s dump_outbound)))
      × (feed_inbound dump_all weighted_sum enable_all here (record { buf = s; pos = 0 }) 1 ≡ (
        success,
        record { buf = s; pos = 0 },
        emit (fed s 1) (trace_packet dump_all here s dump_inbound),
      )))
packet_round_trip_example =
    packet_round_trip dump_all weighted_sum enable_all enable_all here here unsummed 0 0 1
      (omega arith) unsummed_bytes refl refl refl refl
