-- ===== src/Transport/Generic/Laws.antt =====
-- What the application reaches through the table of functions of a data transport.
use rawrtc_data_channel.Base.{
  ℕ, ◌≡◌, ◌∙◌, ap, sym, Bool, true, false, Option, if_true, if_false, not, arith,
}
use rawrtc_data_channel.Base.Code.{Code, success, Result, ok, err}
use rawrtc_data_channel.External.{Libre, Mbuf}
use rawrtc_data_channel.External.Dtls.{Dtls}
use rawrtc_data_channel.Channel.{ChannelState}
use rawrtc_data_channel.Transport.{Transport, Sctp}
use rawrtc_data_channel.Transport.State.{is_closed}
use rawrtc_data_channel.Transport.Reset.{is_closing}
use rawrtc_data_channel.Transport.Channels.{
  channel_create_handler, channel_close_handler, channel_send_handler,
  channel_set_streaming_handler,
}
use rawrtc_data_channel.Transport.Receive.{get_data_transport}
use rawrtc_data_channel.Transport.Generic.{
  DataTransport, sctp_type, data_transport_create, sctp_data_transport, get_transport,
}
use rawrtc_data_channel.Transport.Api.{is_open, data_channel_send, data_channel_close}

abbrev code_of {ℓ} : {A : Type ℓ} → Result A → Code
code_of (ok a) = success
code_of (err e) = e

module _ (lib : Libre) (sctp : Sctp) (dtls : Dtls) where
  -- The code of the whole function, of which Transport.Receive has only the code.
  pub sctp_data_transport-code :
      (x : Transport) → code_of (sctp_data_transport lib sctp dtls x) ≡ get_data_transport lib x
  unfolding sctp_data_transport data_transport_create get_data_transport
  sctp_data_transport-code x = ground arith

  abbrev table : DataTransport
  table = record {
    kind = sctp_type;
    channel_create = channel_create_handler lib sctp dtls;
    channel_close = channel_close_handler lib sctp;
    channel_send = channel_send_handler lib sctp;
    channel_set_streaming = channel_set_streaming_handler;
  }

  filled :
      (x : Transport) {d : DataTransport}
      → sctp_data_transport lib sctp dtls x ≡ ok d
      → (is_closed x.state ≡ false) × (table ≡ d)
  unfolding sctp_data_transport data_transport_create
  filled x e = ground arith

  open_not_closing : (s : ChannelState) → is_open s ≡ true → is_closing s ≡ false
  open_not_closing s e = ground arith

  sent_by_table :
      (y : Transport) (h : ℕ) (b : Option Mbuf) (is_binary : Bool)
      → is_open (y.heap h).state ≡ true
      → data_channel_send lib sctp y h b is_binary ≡ table.channel_send y h b is_binary
  unfolding data_channel_send
  sent_by_table y h b is_binary on = if_true _ _ _ on

  closed_by_table :
      (y : Transport) (h : ℕ)
      → is_open (y.heap h).state ≡ true
      → (y.heap h).initialized ≡ true
      → data_channel_close lib sctp y h ≡ table.channel_close y h
  unfolding data_channel_close
  closed_by_table y h on live =
      if_false _ _ _ (ap not live) ∙ if_false _ _ _ (open_not_closing (y.heap h).state on)

  -- A data transport that was got from an SCTP transport that is not closed is of its type, and what
  -- an application calls on an open channel is the handler in the table.
  pub dispatched :
      (x y : Transport) (h : ℕ) (b : Option Mbuf) (is_binary : Bool) {d : DataTransport}
      → sctp_data_transport lib sctp dtls x ≡ ok d
      → is_open (y.heap h).state ≡ true
      → (y.heap h).initialized ≡ true
      → (is_closed x.state ≡ false)
        × (get_transport d ≡ ok sctp_type)
        × (data_channel_send lib sctp y h b is_binary ≡ d.channel_send y h b is_binary)
        × (data_channel_close lib sctp y h ≡ d.channel_close y h)
  unfolding get_transport
  dispatched x y h b is_binary e on live =
      let (alive, t) = filled x e in
      (
        alive,
        ap (λ d. ok d.kind) (sym t),
        sent_by_table y h b is_binary on ∙ ap (λ d. d.channel_send y h b is_binary) t,
        closed_by_table y h on live ∙ ap (λ d. d.channel_close y h) t,
      )
