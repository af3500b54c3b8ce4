-- ===== src/Transport/Events/Tests.antt =====
-- Instances of the theorems on the events of the socket.
use rawrtc_data_channel.Base.{◌≡◌, refl, true, none, some}
use rawrtc_data_channel.External.Host.{host}
use rawrtc_data_channel.External.Dtls.{client}
use rawrtc_data_channel.Channel.{ChannelState}
use rawrtc_data_channel.Transport.{Transport, closed, tick}
use rawrtc_data_channel.Transport.Host.{usrsctp, dtls_of, transport_in}
use rawrtc_data_channel.Transport.Events.{
  all_events, recv_failed, read_event_handler, upcall_handler_helper,
}
use rawrtc_data_channel.Transport.Events.Upcall.{only_error, upcall_settles, upcall_spins}

abbrev offline : Transport
offline = record (transport_in closed ChannelState.closed) { is_detached = true }

upcall_settles_example :
    upcall_handler_helper host usrsctp
      (read_event_handler host usrsctp (dtls_of client) (λ n. λ y. y) (λ t. recv_failed 11) 5)
      (λ t. all_events)
      3
      offline
    ≡ some (tick (tick offline))
upcall_settles_example =
    upcall_settles host usrsctp (dtls_of client) (λ n. λ y. y) (λ t. recv_failed 11) 5
      (λ t. all_events) 2 offline refl refl refl

upcall_spins_example :
    upcall_handler_helper host usrsctp
      (read_event_handler host usrsctp (dtls_of client) (λ n. λ y. y) (λ t. recv_failed 11) 5)
      (λ t. only_error)
      100
      offline
    ≡ none
upcall_spins_example =
    upcall_spins host usrsctp (dtls_of client) (λ n. λ y. y) (λ t. recv_failed 11) 5
      (λ t. only_error) 100 offline refl refl (λ t. refl)
