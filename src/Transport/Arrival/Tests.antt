-- ===== src/Transport/Arrival/Tests.antt =====
-- An instance of the theorem on messages that arrive: a text, from one channel to its counterpart.
use rawrtc_data_channel.Base.{refl, [], ◌∷◌, false, some, none, arith}
use rawrtc_data_channel.External.{Mbuf}
use rawrtc_data_channel.External.Host.{host, host-HasMemory}
use rawrtc_data_channel.External.Dtls.{client}
use rawrtc_data_channel.Channel.{ChannelState, RcvInfo}
use rawrtc_data_channel.Transport.{Transport, connected}
use rawrtc_data_channel.Transport.Host.{spacious, dtls_of, context_of, transport_in}
use rawrtc_data_channel.Transport.Channels.{channel_send_handler}
use rawrtc_data_channel.Transport.Receive.Delivery.{Gathers}
use rawrtc_data_channel.Transport.Arrival.{Arrives, send_handler-Arrives}

abbrev online : Transport
online = transport_in connected ChannelState.opened

abbrev text : Mbuf
text = record { buf = 104 ∷ 105 ∷ []; pos = 0 }

abbrev no_info : RcvInfo
no_info = record { rcv_sid = 0; rcv_ppid = 0 }

waiting : Gathers online 2 2 none no_info []
waiting = record {
  context = context_of 2;
  slot = refl;
  has_context = refl;
  has_inbound = refl;
  has_info = refl;
  whole = refl;
  handled = refl;
  raised = refl;
}

send_handler-Arrives_example :
    Arrives host spacious
      (dtls_of client)
      9
      online
      (channel_send_handler host spacious online 2 (some text) false)
      online
      2
      2
      (104 ∷ 105 ∷ [])
      false
send_handler-Arrives_example =
    send_handler-Arrives host spacious (dtls_of client) 9 online online 2 2 (context_of 2) no_info
      (some text) false refl refl (omega arith) (omega arith) refl (λ bytes i flags. refl)
      (host-HasMemory 0) waiting
