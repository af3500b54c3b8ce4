-- ===== src/Transport/Tests.antt =====
-- Runs of the transport, and instances of its theorems.
use rawrtc_data_channel.Base.{ℕ, ◌≡◌, refl, ◌⊎◌, [], ◌∷◌, ◌++◌, true, false, none, some, arith}
use rawrtc_data_channel.Base.Code.{success, stop_iteration}
use rawrtc_data_channel.External.{Mbuf, left}
use rawrtc_data_channel.External.Host.{host}
use rawrtc_data_channel.Channel.{ChannelState, opened}
use rawrtc_data_channel.Transport.{Transport, connected, closed, Info, sndinfo}
use rawrtc_data_channel.Transport.Host.{usrsctp, transport_in, registered}
use rawrtc_data_channel.Transport.Send.{
  sctp_transport_send, send_loop, sctp_send, sctp_send_deferred_messages,
}
use rawrtc_data_channel.Transport.Send.Loop.{Sends, transport_send-Sends}
use rawrtc_data_channel.Transport.Send.Fuel.{send_loop-fuel}
use rawrtc_data_channel.Transport.Send.Stream.{stream, stream-sctp_send}
use rawrtc_data_channel.Transport.Send.Deferred.{FailsSoftly, AllSendable, deferred_messages_stream}
use rawrtc_data_channel.Transport.State.{close_data_channels, set_state}
use rawrtc_data_channel.Transport.State.Closing.{close_data_channels_effect}
use rawrtc_data_channel.Transport.State.Machine.{set_state_closed_effect}

abbrev online : Transport
online = transport_in connected opened

abbrev ten_bytes : Mbuf
ten_bytes = record { buf = 1 ∷ 2 ∷ 3 ∷ 4 ∷ 5 ∷ 6 ∷ 7 ∷ 8 ∷ 9 ∷ 10 ∷ []; pos = 0 }

abbrev plain : Info
plain = sndinfo (record { snd_sid = 2; eor = true; unordered = false; snd_ppid = 53 })

abbrev queued : Transport
queued = record online {
  buffered_messages_outgoing =
      record { buffer = ten_bytes; info = plain; flags = 0 }
      ∷ record { buffer = ten_bytes; info = plain; flags = 0 }
      ∷ [];
}

transport_send-Sends_example :
    Sends online ten_bytes plain (sctp_transport_send host usrsctp online ten_bytes plain 0)
    × ((sctp_transport_send host usrsctp online ten_bytes plain 0).2 ≡ plain)
transport_send-Sends_example = transport_send-Sends host usrsctp online ten_bytes plain 0

send_loop-fuel_example :
    send_loop host usrsctp 11 online ten_bytes plain true 0
    ≡ send_loop host usrsctp 40 online ten_bytes plain true 0
send_loop-fuel_example =
    send_loop-fuel host usrsctp 11 40 online ten_bytes plain true 0 (omega arith) (omega arith)

sends_ten : (sctp_send host usrsctp online ten_bytes plain 0).0 ≡ success
unfolding sctp_send
sends_ten = refl

stream-sctp_send_example :
    stream (sctp_send host usrsctp online ten_bytes plain 0).1 ≡ stream online ++ left ten_bytes
stream-sctp_send_example = stream-sctp_send host usrsctp online ten_bytes plain 0 sends_ten

softly : FailsSoftly host usrsctp
softly = record { soft = λ t bytes info flags e h. ground arith }

-- the second message has to wait
queue_waits : (sctp_send_deferred_messages host usrsctp queued).0 ≡ stop_iteration
unfolding sctp_send_deferred_messages sctp_transport_send
queue_waits = refl

deferred_messages_stream_example :
    let r = sctp_send_deferred_messages host usrsctp queued in
    (stream r.1 ≡ stream queued)
    × (((r.0 ≡ success) × (r.1.buffered_messages_outgoing ≡ [])) ⊎ (r.0 ≡ stop_iteration))
    × AllSendable r.1.buffered_messages_outgoing
deferred_messages_stream_example =
    deferred_messages_stream host usrsctp softly queued refl (refl, (refl, tt))

close_data_channels_effect_example :
    ((close_data_channels online).channels 2 ≡ none)
    × ((h : ℕ)
        → online.channels 2 ≡ some h
        → ((close_data_channels online).heap h).state ≡ ChannelState.closed)
close_data_channels_effect_example = close_data_channels_effect online 2 (omega arith)

set_state_closed_effect_example :
    let y = set_state host usrsctp online closed in
    (y.state ≡ closed)
    × (y.is_detached ≡ true)
    × (y.has_socket ≡ false)
    × ((j : ℕ) → y.channels j ≡ none)
    × ((j h : ℕ) → online.channels j ≡ some h → (y.heap h).state ≡ ChannelState.closed)
set_state_closed_effect_example =
    set_state_closed_effect host usrsctp online (registered connected opened).in_range

abbrev offline : Transport
offline = record (transport_in closed ChannelState.closed) { is_detached = true }
