-- ===== src/Transport/Start/Tests.antt =====
-- A transport that is started, and options that are set.
use rawrtc_data_channel.Base.{ℕ, ◌<◌, ◌≡◌, refl, some, none, arith}
use rawrtc_data_channel.Base.Code.{other}
use rawrtc_data_channel.External.Host.{host}
use rawrtc_data_channel.Channel.{ChannelState}
use rawrtc_data_channel.Transport.{Transport, TransportState, Sctp, closed}
use rawrtc_data_channel.Transport.Host.{usrsctp, dtls_of, transport_in, registered}
use rawrtc_data_channel.Transport.Options.{set_buffer_length}
use rawrtc_data_channel.Transport.Options.Checked.{BufferLengths, set_buffer_length-BufferLengths}
use rawrtc_data_channel.External.Dtls.{DtlsRole}
use rawrtc_data_channel.Checksum.Host.{weighted_sum, enable_all}
use rawrtc_data_channel.Transport.Registry.{WellFormed}
use rawrtc_data_channel.Transport.State.{stop}
use rawrtc_data_channel.Transport.Channels.{channel_close_handler}
use rawrtc_data_channel.Transport.Runs.{Run, here, next, starts, stops, closes, run-WellFormed}
use rawrtc_data_channel.Transport.Start.{start}
use rawrtc_data_channel.Transport.Start.Outcome.{Started, start-Started, start_without_mtu}

abbrev fresh : Transport
fresh = transport_in TransportState.new ChannelState.opened

set_buffer_length-BufferLengths_example :
    BufferLengths host usrsctp fresh 2147483648 1
      (set_buffer_length host usrsctp fresh 2147483648 1)
set_buffer_length-BufferLengths_example =
    set_buffer_length-BufferLengths host usrsctp fresh 2147483648 1

start-Started_example : Started host usrsctp fresh 65536 0 (start host usrsctp fresh 65536 0)
start-Started_example =
    start-Started host usrsctp fresh 65536 0 (registered TransportState.new ChannelState.opened)

some-pos : {e : ℕ} → some 22 ≡ some e → 0 < e
some-pos h = ground arith

-- A usrsctp whose options cannot be set.
abbrev no_options : Sctp
no_options = record usrsctp { setsockopt = λ t. some 22; setsockopt_errno = λ t e h. some-pos h }

start_without_mtu_example :
    ((start host no_options fresh 65536 0).0 ≡ other 21)
    × ((start host no_options fresh 65536 0).1.state ≡ closed)
start_without_mtu_example = start_without_mtu host no_options fresh 65536 0 21 refl refl refl refl

-- The start of a transport, the closing of its channel, and its stop.
abbrev some_run :
    Run host usrsctp
      (dtls_of DtlsRole.client)
      weighted_sum
      enable_all
      (λ t p d. none)
      fresh
      (stop host usrsctp
        (channel_close_handler host usrsctp (start host usrsctp fresh 0 0).1 2).1).1
some_run = next (next (next here (starts 0 0)) (closes 2)) stops

run-WellFormed_example :
    WellFormed
      (stop host usrsctp
        (channel_close_handler host usrsctp (start host usrsctp fresh 0 0).1 2).1).1
run-WellFormed_example =
    run-WellFormed host usrsctp (dtls_of DtlsRole.client) weighted_sum enable_all (λ t p d. none)
      (registered TransportState.new ChannelState.opened) some_run (((tt, tt), tt), tt)
