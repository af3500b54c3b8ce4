-- ===== src/Transport/Events/Closed.antt =====
-- The events of a transport that is closed and detached.
use rawrtc_data_channel.Base.{ℕ, ◌≡◌, refl, true}
use rawrtc_data_channel.External.{Libre}
use rawrtc_data_channel.External.Dtls.{Dtls}
use rawrtc_data_channel.Transport.{Transport, closed, Sctp}
use rawrtc_data_channel.Transport.Events.{
  all_events, read_event, Arrival, error_event_handler, write_event_handler, read_event_handler,
}

-- A transport that is closed and detached is changed neither by a read event nor by a write event,
-- and both ask to ignore all events from then on. An error event asks to ignore read events only,
-- so it does not ask to ignore further error events.
pub closed_events :
    (lib : Libre) (sctp : Sctp) (dtls : Dtls) (on_low : ℕ → Transport → Transport)
    (recvv : ℕ → Arrival) (h : ℕ) (x : Transport)
    → x.state ≡ closed
    → x.is_detached ≡ true
    → (read_event_handler lib sctp dtls on_low recvv h x ≡ (all_events, x))
      × (write_event_handler lib sctp x ≡ (all_events, x))
      × (error_event_handler x ≡ read_event)
unfolding read_event_handler write_event_handler error_event_handler
closed_events lib sctp dtls on_low recvv h x e d = rw (e, d) (refl, refl, refl)
