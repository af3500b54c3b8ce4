-- ===== src/Transport/Runs.antt =====
-- Runs of the SCTP transport: any sequence of the calls of the application and the events of usrsctp.
use rawrtc_data_channel.Base.{
  ℕ, ◌≡◌, ◌≢◌, refl, ap, ◌<◌, List, Bool, true, ◌||◌, Option, none, some, ◌==◌, Bool-cases,
  Option-cases, inl, inr,
}
use rawrtc_data_channel.Base.Code.{Code, is_error, Result, ok, err}
use rawrtc_data_channel.External.{Libre, Mbuf}
use rawrtc_data_channel.External.Dtls.{Dtls}
use rawrtc_data_channel.Checksum.{Crc, ChecksumFlags}
use rawrtc_data_channel.Parameters.{Parameters}
use rawrtc_data_channel.Channel.{RcvInfo}
use rawrtc_data_channel.Transport.{Transport, Sctp}
use rawrtc_data_channel.Transport.Registry.{
  sid_of, WellFormed, Shrinks, Shrinks-refl, Shrinks-trans, Shrinks-WellFormed, Shrinks-same,
}
use rawrtc_data_channel.Transport.Send.{send_message}
use rawrtc_data_channel.Transport.Send.Frame.{sent, deferred_messages_frame, send_message_frame}
use rawrtc_data_channel.Transport.State.{stop, is_closed}
use rawrtc_data_channel.Transport.Reset.{Notification, handle_notification}
use rawrtc_data_channel.Transport.Reset.Notifications.{notification-WellFormed}
use rawrtc_data_channel.Transport.State.Machine.{set_state_closed, close_data_channels-Shrinks}
use rawrtc_data_channel.Transport.Channels.{
  channel_create_handler, channel_send_handler, send_on, send_empty,
}
use rawrtc_data_channel.Transport.Channels.Registered.{create_handler-WellFormed}
use rawrtc_data_channel.Transport.Receive.{data_receive_handler}
use rawrtc_data_channel.Transport.Receive.Incoming.{data_receive-WellFormed}
use rawrtc_data_channel.Transport.Events.{write_event_handler}
use rawrtc_data_channel.Transport.Packets.{Direction, sctp_packet_handler, feed_inbound}
use rawrtc_data_channel.Transport.Start.{start}
use rawrtc_data_channel.Transport.Start.Outcome.{
  IsShut, Started, not_new, connects, gives_up, start-Started,
}
use rawrtc_data_channel.Transport.Packets.Registry.{pair-Shrinks, packet-Shrinks, feed-Shrinks}
use rawrtc_data_channel.Transport.Reset.Registry.{
  reset_outgoing_stream-Shrinks, set_channel-Shrinks,
}
use rawrtc_data_channel.Transport.State.Closing.{channel_set_state-Shrinks}
use rawrtc_data_channel.Transport.Reset.{channel_registered, reset_outgoing_stream, is_closing}
use rawrtc_data_channel.Transport.Channels.{
  channel_close_handler, set_closing, channel_set_streaming_handler,
}
use rawrtc_data_channel.Transport.Api.{data_channel_set_streaming, unchanged}
use rawrtc_data_channel.Channel.{closing}

shut-WellFormed : (x : Transport) → IsShut x → WellFormed x
shut-WellFormed x s = record {
  sid_ok = λ i h e. absurd (cc (s.no_channel i));
  in_range = λ i le. s.no_channel i;
}

-- A send changes nothing of the registry.
sent-Shrinks : (x y : Transport) → y ≡ sent x y → Shrinks x y
sent-Shrinks x y f =
    Shrinks-same (ap (λ (t : Transport). t.channels) f) (ap (λ (t : Transport). t.heap) f)
      (ap (λ (t : Transport). t.n_channels) f)

module _ (lib : Libre) (sctp : Sctp) where
  after_start-WellFormed :
      {x : Transport} {m p : ℕ} {r : Code × Transport}
      → WellFormed x
      → Started lib sctp x m p r
      → WellFormed r.1
  after_start-WellFormed w (not_new n) = w
  after_start-WellFormed w (connects y n a b c d e f g) = Shrinks-WellFormed (Shrinks-same e f g) w
  after_start-WellFormed w (gives_up c y n e s) = shut-WellFormed y s

  on-Shrinks :
      (x : Transport) (h : ℕ) (b : Mbuf) (ppid : ℕ) → Shrinks x (send_on lib sctp x h b ppid).1
  on-Shrinks x h b ppid = elim (Option-cases ((x.heap h).transport_arg)) [
    | inl e ↦ rw (e, send_on) (Shrinks-refl x)
    | inr (c, e) ↦
        rw (e, send_on)
          (sent-Shrinks x (send_message lib sctp x (some (x.heap h)) c b ppid).1
            (send_message_frame lib sctp x (some (x.heap h)) c b ppid))
  ]

  empty-Shrinks :
      (x : Transport) (h : ℕ) (is_binary : Bool) (r : Result Mbuf)
      → Shrinks x (send_empty lib sctp x h is_binary r).1
  empty-Shrinks x h is_binary (err e) = Shrinks-refl x
  empty-Shrinks x h is_binary (ok b) = on-Shrinks x h b _

  send-Shrinks :
      (x : Transport) (h : ℕ) (b : Option Mbuf) (is_binary : Bool)
      → Shrinks x (channel_send_handler lib sctp x h b is_binary).1
  unfolding channel_send_handler
  send-Shrinks x h none is_binary = empty-Shrinks x h is_binary _
  send-Shrinks x h (some b) is_binary =
      pair-Shrinks (lib.get_left b == 0) _ _ (empty-Shrinks x h is_binary _)
        (pair-Shrinks _ _ _ (Shrinks-refl x) (on-Shrinks x h b _))

  write-Shrinks : (x : Transport) → Shrinks x (write_event_handler lib sctp x).1
  unfolding write_event_handler
  write-Shrinks x =
      let y = record x { sending_in_progress = true } in
      let f = deferred_messages_frame lib sctp y in
      pair-Shrinks x.is_detached _ _ (Shrinks-refl x) (
        pair-Shrinks x.sending_in_progress _ _ (Shrinks-refl x) (
          Shrinks-same (ap (λ (t : Transport). t.channels) f) (ap (λ (t : Transport). t.heap) f)
            (ap (λ (t : Transport). t.n_channels) f)))

  stop-Shrinks : (x : Transport) → Shrinks x (stop lib sctp x).1
  unfolding stop
  stop-Shrinks x =
      let f = set_state_closed lib sctp x in
      pair-Shrinks (x.is_detached || is_closed x.state) _ _ (Shrinks-refl x) (
        Shrinks-trans (close_data_channels-Shrinks x) (
          Shrinks-same (ap (λ (t : Transport). t.channels) f) (ap (λ (t : Transport). t.heap) f)
            (ap (λ (t : Transport). t.n_channels) f)))

  closing-Shrinks :
      (x : Transport) (h : ℕ) (r : Code × Transport)
      → Shrinks x r.1
      → Shrinks x (set_closing lib sctp h r)
  closing-Shrinks x h (error, y) s = elim (Bool-cases (is_error error)) [
    | inl e ↦ rw e s
    | inr e ↦ rw e (Shrinks-trans s (channel_set_state-Shrinks y h closing))
  ]

  close-Shrinks : (x : Transport) (h : ℕ) → Shrinks x (channel_close_handler lib sctp x h).1
  unfolding channel_close_handler
  close-Shrinks x h = elim (Option-cases ((x.heap h).transport_arg)) [
    | inl e ↦ rw (e, channel_close_handler) (Shrinks-refl x)
    | inr (c, e) ↦
        rw (e, channel_close_handler)
          (pair-Shrinks (channel_registered x h c) _ _
            (closing-Shrinks x h (reset_outgoing_stream lib sctp x h c)
              (reset_outgoing_stream-Shrinks lib sctp x h c (rw (e, sid_of) refl)))
            (Shrinks-refl x))
  ]

streaming-Shrinks :
    (x : Transport) (h : ℕ) (on : Bool) → Shrinks x (data_channel_set_streaming x h on).1
unfolding data_channel_set_streaming
streaming-Shrinks x h on = pair-Shrinks (is_closing (x.heap h).state) _ _ (Shrinks-refl x) (
    pair-Shrinks (unchanged on (x.heap h).streamed) _ _ (Shrinks-refl x) (
      pair-Shrinks (is_error (channel_set_streaming_handler (x.heap h))) _ _ (Shrinks-refl x)
        (set_channel-Shrinks x h (record (x.heap h) { streamed = on }) refl)))

module _ (lib : Libre) (sctp : Sctp) (dtls : Dtls) (crc : Crc) (flags : ChecksumFlags)
    (dump : ℕ → List ℕ → Direction → Option (List ℕ)) where
  -- A call of the application, or an event of usrsctp, with any arguments. `on_low` is what the
  -- application does on a buffered amount low event.
  pub data Step (x : Transport) : Transport → Type 0 where
    starts : (m p : ℕ) → Step x (start lib sctp x m p).1
    stops : Step x (stop lib sctp x).1
    feeds : (b : Mbuf) (ecn_bits : ℕ) → Step x (feed_inbound dump crc flags x b ecn_bits).2
    hands_out :
        (p : List ℕ) (tos set_df : ℕ) → Step x (sctp_packet_handler dump crc flags x p tos set_df).1
    notifies :
        (on_low : ℕ → Transport → Transport) (end sn_length : ℕ) (n : Notification)
        → Step x (handle_notification lib sctp on_low x end sn_length n)
    receives :
        (h : ℕ) (b : Mbuf) (info : RcvInfo) (eor : Bool)
        → Step x (data_receive_handler lib sctp dtls h x b info eor)
    writes : Step x (write_event_handler lib sctp x).1
    creates : (h : ℕ) (p : Parameters) → Step x (channel_create_handler lib sctp dtls x h p).1
    closes : (h : ℕ) → Step x (channel_close_handler lib sctp x h).1
    sends :
        (h : ℕ) (b : Option Mbuf) (is_binary : Bool)
        → Step x (channel_send_handler lib sctp x h b is_binary).1
    streams : (h : ℕ) (on : Bool) → Step x (data_channel_set_streaming x h on).1

  pub data Run (x : Transport) : Transport → Type 0 where
    here : Run x x
    next : {y z : Transport} → Run x y → Step y z → Run x z

  -- What a step takes for granted. An incoming message is on a stream that has a slot, as is the one
  -- whose DCEP chunks are being gathered; a channel that is allocated is at an address that is not
  -- registered; and the application's answer to a buffered amount low event registers no channel.
  abbrev pub IsOrderly : {x y : Transport} → Step x y → Type 0
  IsOrderly (notifies on_low end sn_length n) = (g : ℕ) (y : Transport) → Shrinks y (on_low g y)
  IsOrderly {x} (receives h b info eor) =
      (info.rcv_sid < x.n_channels)
      × (x.info_dcep_inbound.rcv_sid < x.n_channels)
      × ((i : ℕ) → x.channels i ≢ some h)
  IsOrderly {x} (creates h p) = (i : ℕ) → x.channels i ≢ some h
  IsOrderly _ = Unit

  abbrev pub AllOrderly : {x y : Transport} → Run x y → Type 0
  AllOrderly here = Unit
  AllOrderly (next r s) = AllOrderly r × IsOrderly s

  one_call : {x y : Transport} → WellFormed x → (s : Step x y) → IsOrderly s → WellFormed y
  one_call {x} w (starts m p) k = after_start-WellFormed lib sctp w (start-Started lib sctp x m p w)
  one_call {x} w stops k = Shrinks-WellFormed (stop-Shrinks lib sctp x) w
  one_call {x} w (feeds b ecn_bits) k =
      Shrinks-WellFormed (feed-Shrinks dump crc flags x b ecn_bits) w
  one_call {x} w (hands_out p tos set_df) k =
      Shrinks-WellFormed (packet-Shrinks dump crc flags x p tos set_df) w
  one_call {x} w (notifies on_low end sn_length n) low =
      notification-WellFormed lib sctp on_low x end sn_length n low w
  one_call {x} w (receives h b info eor) (lt, lt', fresh) =
      data_receive-WellFormed lib sctp dtls h x b info eor w lt lt' fresh
  one_call {x} w writes k = Shrinks-WellFormed (write-Shrinks lib sctp x) w
  one_call {x} w (creates h p) fresh = create_handler-WellFormed lib sctp dtls x h p w fresh
  one_call {x} w (closes h) k = Shrinks-WellFormed (close-Shrinks lib sctp x h) w
  one_call {x} w (sends h b is_binary) k =
      Shrinks-WellFormed (send-Shrinks lib sctp x h b is_binary) w
  one_call {x} w (streams h on) k = Shrinks-WellFormed (streaming-Shrinks x h on) w

  -- The registry stays well formed in every run, whatever sequence of starting, stopping, packets,
  -- notifications, messages, write events and channels that are created, closed, written to and
  -- switched to streaming follows on a well-formed transport: each registered channel has a context
  -- with the number of its slot afterwards, and no channel is behind the last slot. Of each step it
  -- takes for granted that an incoming message is on a stream that has a slot, as is the stream of
  -- the DCEP message whose chunks are being gathered; that the address at which a channel may be
  -- allocated is not registered; and that what the application does on a buffered amount low event
  -- registers no channel.
  pub run-WellFormed :
      {x y : Transport} → WellFormed x → (r : Run x y) → AllOrderly r → WellFormed y
  run-WellFormed w here k = w
  run-WellFormed w (next r s) k = one_call (run-WellFormed w r k.0) s k.1
