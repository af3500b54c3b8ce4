-- ===== src/Transport/Examples.antt =====
-- Instances of the theorems on the channels of the transport and on incoming messages.
use rawrtc_data_channel.Base.{
  ℕ, ◌≡◌, ◌≢◌, refl, ◌≤◌, ◌<◌, ◌%◌, ◌⊎◌, [], ◌∷◌, true, false, none, some, arith, ◌==◌,
  if◌then◌else◌,
}
use rawrtc_data_channel.External.{Mbuf}
use rawrtc_data_channel.External.Host.{host, host-HasMemory}
use rawrtc_data_channel.External.Dtls.{client}
use rawrtc_data_channel.Channel.{opened, closing, RcvInfo}
use rawrtc_data_channel.Transport.{Transport, connected, received}
use rawrtc_data_channel.Transport.Host.{usrsctp, dtls_of, context_of, transport_in, registered}
use rawrtc_data_channel.Transport.Registry.{WellFormed, Shrinks-refl}
use rawrtc_data_channel.Transport.Reset.{StreamReset, reset_stream, dry_loop}
use rawrtc_data_channel.Transport.Reset.Handshake.{Settled, closing_handshake}
use rawrtc_data_channel.Transport.Reset.Dry.{dry_loop_ends}
use rawrtc_data_channel.Transport.Channels.{channel_context_create, channel_register, find_free_sid}
use rawrtc_data_channel.Transport.Channels.Sids.{
  find_free_sid_least, find_free_sid-none, OccupiedFrom,
}
use rawrtc_data_channel.Transport.Receive.Incoming.{data_receive-WellFormed}
use rawrtc_data_channel.Transport.Receive.{
  data_receive_handler, handle_data_channel_open_message, open_parsed, accept_channel, send_ack,
  get_data_transport, data_channel_create_internal, received_flags, handle_application_message,
  sid_fits,
}
use rawrtc_data_channel.Transport.Receive.Delivery.{
  Gathers, IsPlain, receive_chunks, chunks_delivered,
}
use rawrtc_data_channel.Transport.Receive.Opening.{peer, found_sid_accepted}
use rawrtc_data_channel.Parameters.{parameters_create_internal}
use rawrtc_data_channel.Dcep.{data_channel_open_message_parse, data_channel_ack_message_create}
use rawrtc_data_channel.Transport.Send.{send_message, sctp_transport_send}
use rawrtc_data_channel.Transport.State.{channel_set_state}
use rawrtc_data_channel.Transport.Api.{data_channel_close}
use rawrtc_data_channel.Transport.Api.Closing.{Closes, data_channel_close-Closes}

abbrev online : Transport
online = transport_in connected opened

abbrev in_closing : Transport
in_closing = transport_in connected closing

abbrev both_reset : StreamReset
both_reset = record {
  denied = false;
  failed_reset = false;
  incoming_ssn = true;
  outgoing_ssn = true;
  stream_list = 2 ∷ [];
}

-- an open message behind its type, with the label "ab"
abbrev open_body_of_chat : Mbuf
open_body_of_chat = record {
  buf = 3 ∷ 0 ∷ 1 ∷ 0 ∷ 0 ∷ 0 ∷ 0 ∷ 0 ∷ 0 ∷ 2 ∷ 0 ∷ 0 ∷ 97 ∷ 98 ∷ [];
  pos = 1;
}

-- an application that does nothing when the buffered amount is low
abbrev idle : ℕ → Transport → Transport
idle g x = x

closing_handshake_example :
    Settled true true (in_closing.heap 2) 2 2 (reset_stream host usrsctp both_reset in_closing 2)
closing_handshake_example =
    closing_handshake host usrsctp both_reset in_closing 2 (context_of 2) (omega arith) refl refl
      refl

dry_loop_ends_example :
    let r = dry_loop host usrsctp 4 idle online 3 3 in
    (dry_loop host usrsctp 9 idle online 3 3 ≡ r)
    × ((r.0.is_buffered_amount_low ≡ false) ⊎ (r.1 ≡ 3))
dry_loop_ends_example =
    dry_loop_ends host usrsctp idle (λ g y. Shrinks-refl y) 9 online 3 (omega arith) (omega arith)

-- slot 2 is taken, so the client side skips it
abbrev busy : Transport
busy = record online {
  channels = λ i. if i == 0 then some 0 else if i == 2 then some 2 else none;
  n_channels = 6;
}

finds_4 : find_free_sid 6 busy 0 ≡ some 4
unfolding find_free_sid
finds_4 = refl

find_free_sid_least_example :
    (0 ≤ 4) × (4 < 6) × (busy.channels 4 ≡ none) × (4 % 2 ≡ 0 % 2) × OccupiedFrom busy 0 4
find_free_sid_least_example = find_free_sid_least 6 busy 0 4 finds_4

abbrev full : Transport
full = record busy { n_channels = 4 }

finds_none : find_free_sid 4 full 0 ≡ none
unfolding find_free_sid
finds_none = refl

find_free_sid-none_example : OccupiedFrom full 0 4
find_free_sid-none_example = find_free_sid-none full 0 finds_none

not_registered : (i : ℕ) → online.channels i ≢ some 5
not_registered i h = ground arith

abbrev text_on_2 : RcvInfo
text_on_2 = record { rcv_sid = 2; rcv_ppid = 51 }

-- a chunk with a headroom of one byte
abbrev chunk : Mbuf
chunk = record { buf = 0 ∷ 104 ∷ 105 ∷ []; pos = 1 }

text-IsPlain : IsPlain text_on_2
text-IsPlain = record { known = refl; not_empty = refl; not_partial = refl }

nothing_gathered : Gathers online 2 2 none (record { rcv_sid = 0; rcv_ppid = 0 }) []
nothing_gathered = record {
  context = context_of 2;
  slot = refl;
  has_context = refl;
  has_inbound = refl;
  has_info = refl;
  whole = refl;
  handled = refl;
  raised = refl;
}

chunks_delivered_example :
    Gathers
      (handle_application_message host
        (receive_chunks host (chunk ∷ chunk ∷ []) text_on_2 online)
        chunk
        text_on_2
        true)
      2
      2
      none
      text_on_2
      (received 2 (some (104 ∷ 105 ∷ 104 ∷ 105 ∷ 104 ∷ 105 ∷ [])) (received_flags 51 true) ∷ [])
chunks_delivered_example =
    chunks_delivered host host-HasMemory chunk chunk (chunk ∷ []) online 2
      (record { rcv_sid = 0; rcv_ppid = 0 }) text_on_2 [] text-IsPlain nothing_gathered

found_sid_accepted_example : (sid_fits (peer client) 4 ≡ true) × (sid_fits client 4 ≡ false)
found_sid_accepted_example = found_sid_accepted 6 busy client 0 4 refl finds_4

-- the message is accepted: the channel stands in the slot 1
accepted_1 :
    (handle_data_channel_open_message host usrsctp
        (dtls_of client)
        5
        online
        open_body_of_chat
        (record { rcv_sid = 1; rcv_ppid = 50 })).channels
      1
    ≡ some 5
unfolding handle_data_channel_open_message open_parsed accept_channel send_ack
    data_channel_open_message_parse get_data_transport data_channel_create_internal
    channel_context_create data_channel_ack_message_create send_message sctp_transport_send
    channel_register channel_set_state parameters_create_internal
accepted_1 = refl

data_channel_close-Closes_example :
    Closes true online 2 (context_of 2) (data_channel_close host usrsctp online 2)
data_channel_close-Closes_example =
    data_channel_close-Closes host usrsctp online 2 (context_of 2) refl refl refl

data_receive-WellFormed_example : WellFormed (
    data_receive_handler host usrsctp
      (dtls_of client)
      5
      online
      chunk
      (record { rcv_sid = 2; rcv_ppid = 855638016 })
      true)
data_receive-WellFormed_example =
    data_receive-WellFormed host usrsctp (dtls_of client) 5 online chunk
      (record { rcv_sid = 2; rcv_ppid = 855638016 }) true (registered connected opened)
      (omega arith) (omega arith) not_registered
