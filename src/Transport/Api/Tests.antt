-- ===== src/Transport/Api/Tests.antt =====
-- Instances of the theorems on the interface of the application, and its attributes at work.
use rawrtc_data_channel.Base.{◌≡◌, refl, [], ◌∷◌, true}
use rawrtc_data_channel.Base.Code.{ok}
use rawrtc_data_channel.External.Host.{host}
use rawrtc_data_channel.Channel.{ChannelState, opened}
use rawrtc_data_channel.Transport.{Transport, connected}
use rawrtc_data_channel.Transport.Host.{usrsctp, context_of, transport_in}
use rawrtc_data_channel.Transport.State.{channel_set_state}
use rawrtc_data_channel.Transport.Channels.{channel_close_handler}
use rawrtc_data_channel.Transport.Receive.{application_message}
use rawrtc_data_channel.Transport.Attributes.{get_n_streams, get_capabilities}
use rawrtc_data_channel.Transport.Attributes.Capabilities.{get_max_message_size}
use rawrtc_data_channel.Transport.Api.{data_channel_destroy}
use rawrtc_data_channel.Transport.Api.Silence.{unset, unset_handlers_silence}

abbrev online : Transport
online = transport_in connected opened

streams_of_online : get_n_streams online ≡ ok online.n_channels
unfolding get_n_streams
streams_of_online = refl

any_size : (get_capabilities host 0 ≡ ok 0) × (get_max_message_size 0 ≡ ok 0)
unfolding get_capabilities get_max_message_size
any_size = (refl, refl)

unset_handlers_silence_example :
    ((channel_set_state (unset online 6) 6 ChannelState.closed).events ≡ online.events)
    × ((application_message host
          (unset online 6)
          6
          (context_of 2)
          (record { buf = 104 ∷ 105 ∷ []; pos = 0 })
          (record { rcv_sid = 2; rcv_ppid = 51 })
          true).events
        ≡ online.events)
    × ((channel_close_handler host usrsctp (unset online 6) 6).1.events ≡ online.events)
    × ((data_channel_destroy host usrsctp online 6).events ≡ online.events)
unset_handlers_silence_example =
    unset_handlers_silence host usrsctp online 6 ChannelState.closed (context_of 2)
      (record { buf = 104 ∷ 105 ∷ []; pos = 0 }) (record { rcv_sid = 2; rcv_ppid = 51 }) true
