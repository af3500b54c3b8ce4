-- ===== src/Redirect/Tests.antt =====
-- Runs of the redirect transport on concrete input.
use rawrtc_data_channel.Base.{ℕ, ◌≡◌, ◌≤◌, refl, List, [], ◌∷◌, true, false, none, some, arith}
use rawrtc_data_channel.Base.Code.{success, no_memory}
use rawrtc_data_channel.External.{advanced}
use rawrtc_data_channel.External.Host.{host}
use rawrtc_data_channel.External.Dtls.{DtlsRole, dtls_connected}
use rawrtc_data_channel.Checksum.Fields.{stamped}
use rawrtc_data_channel.Checksum.Host.{weighted_sum, enable_all}
use rawrtc_data_channel.Redirect.{
  RedirectTransport, new, opened, closed, outbound, redirected, record_event, next_moment,
  redirect_from_raw, feed_inbound, socket_closed, fd_closed,
}
use rawrtc_data_channel.Redirect.Packet.{at, packet}
use rawrtc_data_channel.Redirect.Life.{validate_context, start, stop, create_from_external}
use rawrtc_data_channel.Redirect.Forwarding.{done, raw_packet_verdict}
use rawrtc_data_channel.Redirect.Feeding.{feed_inbound_redirects, raw_packet_reaches_peer}
use rawrtc_data_channel.Redirect.Runs.{
  IsCoherent, rank, starts, stops, hears, Run, here, next, run-Proceeds, closed_for_good,
}
use rawrtc_data_channel.Redirect.Creation.{
  Outcome, raising, detaching, creation-Outcome, create_without_buffer,
}
use rawrtc_data_channel.Redirect.Host.{
  Address, peer_address, ipv4_options, some_body, some_body-bytes, raw_net, full_context,
  redirect_in, no_buffers,
}
use rawrtc_data_channel.Transport
use rawrtc_data_channel.Transport.{emit, fed}
use rawrtc_data_channel.Transport.Packets
use rawrtc_data_channel.Transport.Packets.{trace_packet, dump_inbound}
use rawrtc_data_channel.Transport.Host.{dtls_of, transport_in}
use rawrtc_data_channel.Channel.{ChannelState}

abbrev open_one : RedirectTransport Address
open_one = redirect_in opened false

raw_packet_verdict_example :
    redirect_from_raw host weighted_sum raw_net open_one true
    ≡ done host weighted_sum raw_net
        (next_moment open_one)
        true
        (stamped weighted_sum (packet 5000 5001 some_body))
raw_packet_verdict_example =
    raw_packet_verdict host weighted_sum raw_net open_one peer_address 69 ipv4_options 6000 5000
      some_body refl refl refl refl (omega arith) (omega arith) refl

feed_inbound_redirects_example :
    feed_inbound host weighted_sum raw_net open_one (at [] (1 ∷ 2 ∷ 3 ∷ 4 ∷ some_body)) ≡ (
      success,
      advanced (at [] (stamped weighted_sum (packet 5000 6000 some_body))) 16,
      record_event
          (redirected (stamped weighted_sum (packet 5000 6000 some_body)) peer_address)
          (next_moment open_one),
    )
feed_inbound_redirects_example =
    feed_inbound_redirects host weighted_sum raw_net open_one [] 1 2 3 4 some_body 16 refl refl
      (omega arith) refl

raw_packet_reaches_peer_example :
    ((s : List ℕ) × ((redirect_from_raw host weighted_sum raw_net open_one true).events
        ≡ outbound s ∷ [])
      × (Packets.feed_inbound
            (λ t p d. none)
            weighted_sum
            enable_all
            (transport_in Transport.connected ChannelState.opened)
            (record { buf = s; pos = 0 })
            0
          ≡ (
            success,
            record { buf = s; pos = 0 },
            emit (fed s 0) (
                trace_packet
                  (λ t p d. none)
                  (transport_in Transport.connected ChannelState.opened)
                  s
                  dump_inbound),
          )))
raw_packet_reaches_peer_example =
    raw_packet_reaches_peer host weighted_sum raw_net (λ t p d. none) enable_all
      (transport_in Transport.connected ChannelState.opened) 0 open_one peer_address 69 ipv4_options
      6000 5000 some_body refl refl refl refl (omega arith) (omega arith) refl refl some_body-bytes
      refl

abbrev started :
    Run host weighted_sum raw_net
      (redirect_in new false)
      (stop (start host raw_net (redirect_in new false) 0).1).1
started = next (next here (starts 0)) stops

run-Proceeds_example :
    IsCoherent (stop (start host raw_net (redirect_in new false) 0).1).1
    × (rank new ≤ rank (stop (start host raw_net (redirect_in new false) 0).1).1.state)
run-Proceeds_example = run-Proceeds host weighted_sum raw_net refl started

abbrev asked :
    Run host weighted_sum raw_net
      (redirect_in closed true)
      (redirect_from_raw host weighted_sum raw_net (redirect_in closed true) true)
asked = next here (hears true)

closed_for_good_example :
    redirect_from_raw host weighted_sum raw_net (redirect_in closed true) true
    ≡ redirect_in closed true
closed_for_good_example = closed_for_good host weighted_sum raw_net refl refl asked

creation-Outcome_example :
    Outcome
      (create_from_external host raw_net (dtls_of DtlsRole.client) full_context 0 [] 6000 true 0)
creation-Outcome_example =
    creation-Outcome host raw_net (dtls_of DtlsRole.client) full_context 0 [] 6000 true 0

create_without_buffer_example :
    ((x : RedirectTransport Address) × (create_from_external no_buffers raw_net
          (dtls_of DtlsRole.client)
          full_context
          0
          []
          6000
          true
          0
        ≡ (no_memory, some x))
      × (x.events
          ≡ raising true (detaching true (socket_closed (some 0) ∷ fd_closed (some 0) ∷ []))))
unfolding validate_context
create_without_buffer_example =
    create_without_buffer no_buffers raw_net (dtls_of DtlsRole.client) full_context 0 [] 6000 true 0
      dtls_connected refl refl refl refl refl refl refl refl
