-- ===== src/Transport/Lifecycle/Tests.antt =====
-- An instance of the theorem on runs: a transport is started, comes up, sends a message, is lost,
-- and is asked to send another one.
use rawrtc_data_channel.Base.{refl, [], ◌∷◌, true, some, none}
use rawrtc_data_channel.External.{Mbuf}
use rawrtc_data_channel.External.Host.{host}
use rawrtc_data_channel.External.Dtls.{DtlsRole}
use rawrtc_data_channel.Checksum.Host.{weighted_sum, enable_all}
use rawrtc_data_channel.Channel.{ChannelState}
use rawrtc_data_channel.Transport.{Transport, TransportState}
use rawrtc_data_channel.Transport.Host.{usrsctp, dtls_of, transport_in}
use rawrtc_data_channel.Transport.State.{AssocState, comm_up}
use rawrtc_data_channel.Transport.Reset.{assoc_change, handle_notification}
use rawrtc_data_channel.Transport.Channels.{channel_send_handler}
use rawrtc_data_channel.Transport.Start.{start}
use rawrtc_data_channel.Transport.Lifecycle.{Keeps-refl}
use rawrtc_data_channel.Transport.Lifecycle.Changes.{IsCoherent, Proceeds}
use rawrtc_data_channel.Transport.Lifecycle.Runs.{
  Run, here, next, starts, notifies, sends, life_of_runs,
}

abbrev fresh : Transport
fresh = transport_in TransportState.new ChannelState.opened

abbrev text : Mbuf
text = record { buf = 104 ∷ 105 ∷ []; pos = 0 }

abbrev up : Transport
up =
    handle_notification host usrsctp (λ g y. y) (start host usrsctp fresh 0 0).1 20 20
      (assoc_change comm_up)

abbrev lost : Transport
lost =
    handle_notification host usrsctp (λ g y. y)
      (channel_send_handler host usrsctp up 2 (some text) true).1 20 20
      (assoc_change AssocState.comm_lost)

abbrev whole_life :
    Run host usrsctp
      (dtls_of DtlsRole.client)
      weighted_sum
      enable_all
      (λ t p d. none)
      fresh
      (channel_send_handler host usrsctp lost 2 (some text) true).1
whole_life =
    next
      (next
        (next (next (next here (starts 0 0)) (notifies (λ g y. y) 20 20 (assoc_change comm_up)))
          (sends 2 (some text) true))
        (notifies (λ g y. y) 20 20 (assoc_change AssocState.comm_lost)))
      (sends 2 (some text) true)

life_of_runs_example :
    IsCoherent (channel_send_handler host usrsctp lost 2 (some text) true).1
    × Proceeds fresh (channel_send_handler host usrsctp lost 2 (some text) true).1
life_of_runs_example =
    life_of_runs host usrsctp (dtls_of DtlsRole.client) weighted_sum enable_all (λ t p d. none) refl
      whole_life (((((tt, tt), λ g y. Keeps-refl y), tt), λ g y. Keeps-refl y), tt)
