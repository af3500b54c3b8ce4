-- ===== src/Transport/Lifecycle/Runs.antt =====
-- The life of the SCTP transport in runs of any calls and events.
use rawrtc_data_channel.Base.{ℕ, refl, List, Bool, true, Option}
use rawrtc_data_channel.Base.Code.{is_error}
use rawrtc_data_channel.External.{Libre, Mbuf}
use rawrtc_data_channel.External.Dtls.{Dtls}
use rawrtc_data_channel.Checksum.{Crc, ChecksumFlags}
use rawrtc_data_channel.Parameters.{Parameters}
use rawrtc_data_channel.Channel.{RcvInfo}
use rawrtc_data_channel.Transport.{Transport, Sctp}
use rawrtc_data_channel.Transport.Send.Life.{deferred_messages-Keeps}
use rawrtc_data_channel.Transport.State.{stop}
use rawrtc_data_channel.Transport.Reset.{Notification, handle_notification, is_closing}
use rawrtc_data_channel.Transport.Reset.Association.{notification-Proceeds}
use rawrtc_data_channel.Transport.Channels.{
  channel_create_handler, channel_close_handler, channel_send_handler,
  channel_set_streaming_handler,
}
use rawrtc_data_channel.Transport.Channels.Life.{create-Keeps, close-Keeps, send-Keeps}
use rawrtc_data_channel.Transport.Receive.{data_receive_handler}
use rawrtc_data_channel.Transport.Receive.Life.{data_receive-Keeps}
use rawrtc_data_channel.Transport.Events.{write_event_handler}
use rawrtc_data_channel.Transport.Packets.{Direction, sctp_packet_handler, feed_inbound}
use rawrtc_data_channel.Transport.Packets.Life.{packet-Keeps, feed-Keeps}
use rawrtc_data_channel.Transport.Start.{start}
use rawrtc_data_channel.Transport.Options.{set_mtu}
use rawrtc_data_channel.Transport.Api.{data_channel_set_streaming, unchanged}
use rawrtc_data_channel.Transport.Lifecycle.{Keeps, Keeps-refl, Keeps-trans, Keeps-same, pair-Keeps}
use rawrtc_data_channel.Transport.Lifecycle.Changes.{
  IsCoherent, Proceeds, Keeps-Proceeds, Proceeds-trans, stop-Proceeds, start-Proceeds, mtu-Keeps,
}

streaming-Keeps :
    (x : Transport) (h : ℕ) (on : Bool) → Keeps x (data_channel_set_streaming x h on).1
unfolding data_channel_set_streaming
streaming-Keeps x h on = pair-Keeps (is_closing (x.heap h).state) _ _ (Keeps-refl x) (
    pair-Keeps (unchanged on (x.heap h).streamed) _ _ (Keeps-refl x) (
      pair-Keeps (is_error (channel_set_streaming_handler (x.heap h))) _ _ (Keeps-refl x)
        (Keeps-same refl refl refl)))

module _ (lib : Libre) (sctp : Sctp) where
  write-Keeps : (x : Transport) → Keeps x (write_event_handler lib sctp x).1
  unfolding write_event_handler
  write-Keeps x =
      let y = record x { sending_in_progress = true } in
      pair-Keeps x.is_detached _ _ (Keeps-refl x) (
        pair-Keeps x.sending_in_progress _ _ (Keeps-refl x) (
          Keeps-trans {y = y} (Keeps-same refl refl refl)
            (Keeps-trans (deferred_messages-Keeps lib sctp y) (Keeps-same refl refl refl))))

module _ (lib : Libre) (sctp : Sctp) (dtls : Dtls) (crc : Crc) (flags : ChecksumFlags)
    (dump : ℕ → List ℕ → Direction → Option (List ℕ)) where
  -- A call of the application, or an event of usrsctp, with any arguments. `on_low` is
  -- what the application does on a buffered amount low event.
  pub data Step (x : Transport) : Transport → Type 0 where
    starts : (m p : ℕ) → Step x (start lib sctp x m p).1
    stops : Step x (stop lib sctp x).1
    sets_mtu : (mtu : ℕ) → Step x (set_mtu lib sctp x mtu).1
    feeds : (b : Mbuf) (ecn_bits : ℕ) → Step x (feed_inbound dump crc flags x b ecn_bits).2
    hands_out :
        (p : List ℕ) (tos set_df : ℕ) → Step x (sctp_packet_handler dump crc flags x p tos set_df).1
    notifies :
        (on_low : ℕ → Transport → Transport) (end sn_length : ℕ) (n : Notification)
        → Step x (handle_notification lib sctp on_low x end sn_length n)
    receives :
        (h : ℕ) (b : Mbuf) (info : RcvInfo) (eor : Bool)
        → Step x (data_receive_handler lib sctp dtls h x b info eor)
    writes : Step x (write_event_handler lib sctp x).1
    creates : (h : ℕ) (p : Parameters) → Step x (channel_create_handler lib sctp dtls x h p).1
    closes : (h : ℕ) → Step x (channel_close_handler lib sctp x h).1
    sends :
        (h : ℕ) (b : Option Mbuf) (is_binary : Bool)
        → Step x (channel_send_handler lib sctp x h b is_binary).1
    streams : (h : ℕ) (on : Bool) → Step x (data_channel_set_streaming x h on).1

  pub data Run (x : Transport) : Transport → Type 0 where
    here : Run x x
    next : {y z : Transport} → Run x y → Step y z → Run x z

  -- The application's answer to a buffered amount low event keeps the state and the flag, and what
  -- usrsctp has taken too while the transport is not connected.
  abbrev pub KeepsOnLow : {x y : Transport} → Step x y → Type 0
  KeepsOnLow (notifies on_low end sn_length n) = (g : ℕ) (y : Transport) → Keeps y (on_low g y)
  KeepsOnLow _ = Unit

  abbrev pub AllKeepOnLow : {x y : Transport} → Run x y → Type 0
  AllKeepOnLow here = Unit
  AllKeepOnLow (next r s) = AllKeepOnLow r × KeepsOnLow s

  one_call : {x y : Transport} (s : Step x y) → KeepsOnLow s → Proceeds x y
  one_call {x} (starts m p) k = start-Proceeds lib sctp x m p
  one_call {x} stops k = stop-Proceeds lib sctp x
  one_call {x} (sets_mtu mtu) k = Keeps-Proceeds (mtu-Keeps lib sctp x mtu)
  one_call {x} (feeds b ecn_bits) k = Keeps-Proceeds (feed-Keeps dump crc flags x b ecn_bits)
  one_call {x} (hands_out p tos set_df) k =
      Keeps-Proceeds (packet-Keeps dump crc flags x p tos set_df)
  one_call {x} (notifies on_low end sn_length n) low =
      notification-Proceeds lib sctp on_low low x end sn_length n
  one_call {x} (receives h b info eor) k =
      Keeps-Proceeds (data_receive-Keeps lib sctp dtls h x b info eor)
  one_call {x} writes k = Keeps-Proceeds (write-Keeps lib sctp x)
  one_call {x} (creates h p) k = Keeps-Proceeds (create-Keeps lib sctp dtls x h p)
  one_call {x} (closes h) k = Keeps-Proceeds (close-Keeps lib sctp x h)
  one_call {x} (sends h b is_binary) k = Keeps-Proceeds (send-Keeps lib sctp x h b is_binary)
  one_call {x} (streams h on) k = Keeps-Proceeds (streaming-Keeps x h on)

  -- In every run that starts from a transport whose detached flag is set exactly if it is closed,
  -- the state never goes back along new, connecting, connected and closed, and the flag stays set
  -- exactly on a closed transport. No message is handed to usrsctp (`usrsctp_sendv`) until the
  -- transport is connected, and none any more once it is closed. The run is of calls of the
  -- application and events of usrsctp with any arguments; what the application does on a buffered
  -- amount low event keeps the state and the flag, and sends nothing while the transport is not
  -- connected.
  pub life_of_runs :
      {x y : Transport}
      → IsCoherent x
      → (r : Run x y) → AllKeepOnLow r
      → IsCoherent y × Proceeds x y
  life_of_runs c here k = (c, Keeps-Proceeds (Keeps-refl _))
  life_of_runs c (next r s) k =
      let (d, p) = life_of_runs c r k.0 in
      let q = one_call s k.1 in (q.coherent d, Proceeds-trans p q)
