-- ===== src/Transport/Events.antt =====
-- The events of the socket: `read_event_handler`, `write_event_handler`, `error_event_handler` and
-- the loop of `upcall_handler_helper` of src/sctp_transport/transport.c.
pub mod Closed
pub mod Upcall
mod Tests
use rawrtc_data_channel.Base.{
  ℕ, zero, suc, Bool, true, false, not, ◌&&◌, ◌||◌, List, Option, none, some, if◌then◌else◌, ◌==◌,
}
use rawrtc_data_channel.Base.Code.{Code}
use rawrtc_data_channel.External.{Libre, Mbuf}
use rawrtc_data_channel.External.Dtls.{Dtls}
use rawrtc_data_channel.Channel.{RcvInfo}
use rawrtc_data_channel.Transport.{Transport, Sctp, tick}
use rawrtc_data_channel.Transport.Send.{is_connected, sctp_send_deferred_messages}
use rawrtc_data_channel.Transport.State.{is_closed}
use rawrtc_data_channel.Transport.Reset.{Notification, handle_notification}
use rawrtc_data_channel.Transport.Receive.{data_receive_handler}

-- A set of the bits SCTP_EVENT_READ, SCTP_EVENT_WRITE and SCTP_EVENT_ERROR.
pub record Events : Type 0 where
  pub readable : Bool
  pub writable : Bool
  pub erroneous : Bool

abbrev pub no_events : Events
no_events = record { readable = false; writable = false; erroneous = false }

abbrev pub all_events : Events
all_events = record { readable = true; writable = true; erroneous = true }

abbrev pub read_event : Events
read_event = record { readable = true; writable = false; erroneous = false }

abbrev pub write_event : Events
write_event = record { readable = false; writable = true; erroneous = false }

abbrev pub union : Events → Events → Events
union a b = record {
  readable = a.readable || b.readable;
  writable = a.writable || b.writable;
  erroneous = a.erroneous || b.erroneous;
}

-- `a & ~b`
abbrev pub without : Events → Events → Events
without a b = record {
  readable = a.readable && not b.readable;
  writable = a.writable && not b.writable;
  erroneous = a.erroneous && not b.erroneous;
}

abbrev pub is_none : Events → Bool
is_none a = not a.readable && not a.writable && not a.erroneous

-- What `usrsctp_recvv` has filled in: an `errno`, a notification with the length of the buffer and
-- that of its header, or data with its receive information, if it came with one, and MSG_EOR.
pub data Arrival : Type 0 where
  recv_failed : ℕ → Arrival
  notification : ℕ → ℕ → Notification → Arrival
  message : List ℕ → Option RcvInfo → Bool → Arrival

-- EAGAIN of Linux, which EWOULDBLOCK is too.
abbrev pub eagain : ℕ
eagain = 11

-- The handler returns `bool`, so a set that is not empty becomes the number 1, SCTP_EVENT_READ.
abbrev pub as_bool : Events → Events
as_bool a = if is_none a then no_events else read_event

unfoldable pub error_event_handler : Transport → Events
error_event_handler x = as_bool (if is_closed x.state then all_events else no_events)

module _ (lib : Libre) (sctp : Sctp) where
  unfoldable pub write_event_handler : Transport → Events × Transport
  write_event_handler x =
      if x.is_detached
      then (all_events, x)
      else if x.sending_in_progress
      then (write_event, x)
      else (let (code, y) =
            sctp_send_deferred_messages lib sctp (record x { sending_in_progress = true }) in
          (write_event, record y { sending_in_progress = false }))

  -- Pass what has arrived to its handler. `on_low` and `h` are those of the handlers.
  abbrev pub handle_arrival :
      Dtls → (ℕ → Transport → Transport) → ℕ → Transport → Arrival → Events × Transport
  handle_arrival dtls on_low h x (recv_failed errno) =
      (if errno == eagain then read_event else no_events, x)
  handle_arrival dtls on_low h x (notification end sn_length n) =
      (no_events, handle_notification lib sctp on_low x end sn_length n)
  handle_arrival dtls on_low h x (message bytes none eor) = (no_events, x)
  handle_arrival dtls on_low h x (message bytes (some info) eor) =
      if is_connected x.state
      then (
        no_events,
        data_receive_handler lib sctp dtls h x (record { buf = bytes; pos = 0 }) info eor,
      )
      else (no_events, x)

  -- `recvv` is `usrsctp_recvv` at the moment of the call.
  unfoldable pub read_event_handler :
      Dtls → (ℕ → Transport → Transport) → (ℕ → Arrival) → ℕ → Transport → Events × Transport
  read_event_handler dtls on_low recvv h x =
      if x.is_detached then (all_events, x) else elim (lib.alloc x.clock x.usrsctp_chunk_size) [
        | none ↦ (no_events, tick x)
        | some b ↦ handle_arrival dtls on_low h (tick x) (recvv x.clock)
      ]

  -- One round of the upcall: the events that are to be ignored, and the transport.
  unfoldable pub upcall_round :
      (Transport → Events × Transport) → Events → Events → Transport → Events × Transport
  upcall_round read ignored events x0 =
      let i1 = if events.erroneous then union ignored (error_event_handler x0) else ignored in
      let (i2, x2) : Events × Transport =
        (if events.readable then (let (i, y) = read x0 in (union i1 i, y)) else (i1, x0)) in
      if events.writable then (let (i, y) = write_event_handler x2 in (union i2 i, y)) else (i2, x2)

  -- The loop, for at most so many rounds: `none` if events are left after them. `get_events` is
  -- `usrsctp_get_events`, which takes the moment of the call.
  unfoldable pub upcall_loop :
      (Transport → Events × Transport)
      → (ℕ → Events)
      → ℕ
      → Events
      → Events
      → Transport
      → Option Transport
  unfolding upcall_round
  upcall_loop read get_events zero ignored events x = if is_none events then some x else none
  upcall_loop read get_events (suc rounds) ignored events x =
      let r : Events × Transport = upcall_round read ignored events x in
      let rest =
        upcall_loop read get_events rounds r.0 (without (get_events r.1.clock) r.0) (tick r.1) in
      if is_none events then some x else rest

  unfoldable pub upcall_handler_helper :
      (Transport → Events × Transport) → (ℕ → Events) → ℕ → Transport → Option Transport
  unfolding upcall_loop
  upcall_handler_helper read get_events rounds x =
      upcall_loop read get_events rounds no_events (get_events x.clock) (tick x)
