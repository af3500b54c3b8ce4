-- ===== src/Transport/Teardown/Tests.antt =====
-- An instance of the theorem on the end of a channel: channel 2 of two transports that are online.
use rawrtc_data_channel.Base.{refl, [], arith}
use rawrtc_data_channel.External.Host.{host}
use rawrtc_data_channel.Channel.{ChannelState}
use rawrtc_data_channel.Transport.{Transport, connected}
use rawrtc_data_channel.Transport.Host.{usrsctp, context_of, channel_at, transport_in}
use rawrtc_data_channel.Transport.Reset.Standing.{Standing}
use rawrtc_data_channel.Transport.Reset.Directions.{Resets}
use rawrtc_data_channel.Transport.Api.{data_channel_close}
use rawrtc_data_channel.Transport.Teardown.{IsLive, TornDown, close-TornDown}

abbrev online : Transport
online = transport_in connected ChannelState.opened

standing : Standing online 2 (context_of 2) (channel_at ChannelState.opened 2) []
standing = record { slot = refl; here = refl; held = refl; in_range = omega arith; raised = refl }

live : IsLive (channel_at ChannelState.opened 2)
live = record { created = refl; not_closing = refl; no_incoming = refl; no_outgoing = refl }

accepted : Resets host usrsctp online
accepted = record { nothing_queued = refl; accepted = refl }

close-TornDown_example :
    TornDown host usrsctp online online 2 2
      (context_of 2)
      (context_of 2)
      (channel_at ChannelState.opened 2)
      (channel_at ChannelState.opened 2)
      []
      []
      (data_channel_close host usrsctp online 2)
close-TornDown_example =
    close-TornDown host usrsctp online online 2 2 (context_of 2) (context_of 2)
      (channel_at ChannelState.opened 2) (channel_at ChannelState.opened 2) [] [] standing standing
      refl live live accepted accepted
