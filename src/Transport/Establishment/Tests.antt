-- ===== src/Transport/Establishment/Tests.antt =====
-- An instance of the theorem on channels that are established: the client opens one on stream 0.
use rawrtc_data_channel.Base.{◌≡◌, refl, [], ◌∷◌, false, some, none, arith}
use rawrtc_data_channel.External.Host.{host, host-HasMemory}
use rawrtc_data_channel.External.Dtls.{client, server}
use rawrtc_data_channel.Parameters.{Parameters, reliable_ordered}
use rawrtc_data_channel.Channel.{ChannelState}
use rawrtc_data_channel.Transport.{Transport, connected}
use rawrtc_data_channel.Transport.Host.{spacious, dtls_of, transport_in}
use rawrtc_data_channel.Transport.Channels.{find_free_sid, channel_create_handler}
use rawrtc_data_channel.Transport.Establishment.{Established, create_handler-Established}

-- A transport that sends chunks of 64 bytes.
abbrev online : Transport
online = record (transport_in connected ChannelState.connecting) { usrsctp_chunk_size = 64 }

abbrev chat : Parameters
chat = record {
  label = some (99 ∷ 104 ∷ 97 ∷ 116 ∷ []);
  channel_type = reliable_ordered;
  reliability_parameter = 0;
  protocol = none;
  negotiated = false;
  id = 0;
}

finds : find_free_sid 4 online 0 ≡ some 0
unfolding find_free_sid
finds = refl

create_handler-Established_example :
    Established host spacious
      (λ t. host-HasMemory t)
      (λ t bytes i flags. refl)
      (dtls_of server)
      online
      online
      7
      8
      0
      chat
      (channel_create_handler host spacious (dtls_of client) online 7 chat)
create_handler-Established_example =
    create_handler-Established host spacious (λ t. host-HasMemory t) (λ t bytes i flags. refl)
      (dtls_of client) (dtls_of server) client online online 7 8 0 0 chat refl
      (record {
        label_text = omega arith;
        protocol_text = omega arith;
        reliability_u32 = omega arith;
      })
      refl refl refl refl refl finds refl (omega arith) refl (omega arith) refl refl
