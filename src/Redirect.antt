-- ===== src/Redirect.antt =====
-- The SCTP redirect transport, which joins a DTLS transport and a raw IPv4 socket:
-- src/sctp_redirect_transport/transport.h and transport.c. The sockets and `struct sa` are
-- parameters, and so are the getters of the DTLS transport. A descriptor is `none` where it is -1.
pub mod Packet
pub mod Life
pub mod Forwarding
pub mod Feeding
pub mod Runs
pub mod Creation
mod Host
mod Tests
use rawrtc_data_channel.Base.{
  ℕ, zero, suc, ◌+◌, ◌*◌, ◌%◌, ◌≤◌, ◌≡◌, List, [], ◌∷◌, ◌++◌, Bool, true, false, not, ◌&&◌, ◌||◌,
  Option, none, some, if◌then◌else◌, length, take, drop, ◌==◌,
}
use rawrtc_data_channel.Base.Code.{
  Code, success, invalid_argument, invalid_state, external_error, no_memory, try_again_later,
  is_error,
}
use rawrtc_data_channel.External.{Libre, Mbuf, left, swap16, bytes_of}
use rawrtc_data_channel.External.Dtls.{Dtls, DtlsState, closed_or_failed, TransportContext}
use rawrtc_data_channel.Checksum.{Crc}

-- `enum rawrtc_sctp_redirect_transport_state`: `opened` is its OPEN.
pub data RedirectState : Type 0 where
  new opened closed : RedirectState

-- What a call of a socket returns: a number, or the `errno` of a failure.
pub data Answer : Type 0 where
  answered : ℕ → Answer
  failed : ℕ → Answer

-- What `recvfrom` returns.
pub data Received (Sockaddr : Type 0) : Type 0 where
  received : List ℕ → Sockaddr → Received Sockaddr
  receive_failed : ℕ → Received Sockaddr

-- Calls that leave the library, with the bytes and the descriptors.
pub data RedirectEvent (Sa : Type 0) : Type 0 where
  outbound : List ℕ → RedirectEvent Sa
  redirected : List ℕ → Sa → RedirectEvent Sa
  state_changed : RedirectState → RedirectEvent Sa
  detached destroyed : RedirectEvent Sa
  listening fd_closed socket_closed : Option ℕ → RedirectEvent Sa

-- The raw socket, the event loop and the addresses of libre. Each call of a socket takes the moment
-- at which it is made.
pub record Net (Sa Sockaddr : Type 0) : Type 0 where
  pub socket : ℕ → Answer
  -- `net_sockopt_blocking_set` and `fd_listen`: an error number
  pub set_non_blocking : ℕ → Option ℕ → ℕ
  pub fd_listen : ℕ → Option ℕ → ℕ
  -- into the space behind the position of the buffer
  pub recvfrom : ℕ → Option ℕ → Mbuf → Received Sockaddr
  pub sendto : ℕ → Option ℕ → List ℕ → Sa → Answer
  pub sendto_law :
      (t : ℕ) (fd : Option ℕ) (p : List ℕ) (to : Sa) (n : ℕ)
      → sendto t fd p to ≡ answered n
      → n ≤ length p
  pub sa_set_str : List ℕ → ℕ → ℕ × Sa
  pub sa_set_sa : Sockaddr → ℕ × Sa
  pub sa_is_inet : Sa → Bool
  -- with SA_ADDR
  pub sa_isset : Sa → Bool
  pub sa_cmp : Sa → Sa → Bool
  pub sa_port : Sa → ℕ

-- `buffer` is NULL until it is allocated; nothing reads it before.
pub record RedirectTransport (Sa : Type 0) : Type 0 where
  pub initialized : Bool
  pub is_detached : Bool
  pub state : RedirectState
  pub local_port : ℕ
  pub remote_port : ℕ
  pub redirect_address : Sa
  pub context : TransportContext
  pub has_state_change_handler : Bool
  pub buffer : Mbuf
  pub socket : Option ℕ
  pub clock : ℕ
  pub events : List (RedirectEvent Sa)

abbrev pub default_port : ℕ
default_port = 5000

abbrev pub receive_size : ℕ
receive_size = 8192

-- `memset(mbuf_buf(b), 0, 4)`: the end of the buffer stays where it is.
abbrev pub zero_fill : Mbuf → Mbuf
zero_fill b = record b {
  buf = take (length b.buf) (take b.pos b.buf ++ (bytes_of 4 0 ++ drop (b.pos + 4) b.buf));
}

-- EAGAIN, which is EWOULDBLOCK on Linux.
abbrev pub is_again : ℕ → Bool
is_again e = e == 11

abbrev pub is_opened : RedirectState → Bool
is_opened opened = true
is_opened _ = false

module _ {Sa : Type 0} where
  abbrev pub record_event : RedirectEvent Sa → RedirectTransport Sa → RedirectTransport Sa
  record_event e x = record x { events = e ∷ x.events }

  abbrev pub next_moment : RedirectTransport Sa → RedirectTransport Sa
  next_moment x = record x { clock = suc x.clock }

  -- Pass to outbound handler.
  abbrev pub pass_patched : RedirectTransport Sa → Mbuf → RedirectTransport Sa
  pass_patched x b = record_event (outbound (left b)) (record x { buffer = b })

-- The bytes behind the position, and the end behind the last of as many bytes as were received.
abbrev pub received_into : Mbuf → List ℕ → Mbuf
received_into b p = record b { buf = take (length p) (take b.pos b.buf ++ p) }

-- Skip IPv4 header.
abbrev pub skip_ipv4_header : Libre → Mbuf → Mbuf
skip_ipv4_header lib b =
    let (first, b1) = lib.read_u8 b in lib.advance (lib.retreat b1 1) (first % 16 * 4)

module _ (lib : Libre) (crc : Crc) where
  -- Reset checksum field to '0', recalculate it and set it: `start` is the position of the header.
  abbrev pub patch_checksum : ℕ → ℕ → Mbuf → Mbuf
  patch_checksum t start b =
      let zeroed : Mbuf = lib.set_pos (zero_fill b) start in
      let (e, b2) = lib.write_u32 t (lib.advance zeroed 8) (crc.crc32c (left zeroed)) in
      if e == 0 then lib.set_pos b2 start else b2

  abbrev pub patch_destination : ℕ → ℕ → ℕ → Mbuf → Mbuf
  patch_destination t start destination b =
      let (e, b1) = lib.write_u16 t b (swap16 destination) in
      if e == 0 then patch_checksum t start (lib.advance b1 4) else b1

  unfoldable pub patch_sctp_header : ℕ → Mbuf → ℕ → ℕ → Mbuf
  patch_sctp_header t b source destination =
      let (e, b1) = lib.write_u16 t b (swap16 source) in
      if e == 0 then patch_destination t b.pos destination b1 else b1

  module _ {Sa Sockaddr : Type 0} (net : Net Sa Sockaddr) where
    -- Read source and destination port; is this from the correct source?
    abbrev pub redirect_packet : RedirectTransport Sa → Mbuf → RedirectTransport Sa
    redirect_packet x b =
        let (source, b1) = lib.read_u16 b in
        let (destination, b2) = lib.read_u16 b1 in
        let b3 : Mbuf = lib.retreat b2 4 in
        if swap16 source == net.sa_port x.redirect_address
        then pass_patched x (patch_sctp_header x.clock b3 x.local_port x.remote_port)
        else record x { buffer = b3 }

    -- Check address.
    abbrev pub check_address : RedirectTransport Sa → ℕ × Sa → RedirectTransport Sa
    check_address x (e, from) =
        if is_error (lib.error_to_code e)
        then x
        else if not (net.sa_isset from) && not (net.sa_cmp x.redirect_address from)
        then x
        else redirect_packet x (skip_ipv4_header lib x.buffer)

    abbrev pub receive_raw : RedirectTransport Sa → RedirectTransport Sa
    receive_raw x = elim (net.recvfrom x.clock x.socket x.buffer) [
      | receive_failed e ↦ next_moment x
      | received p sockaddr ↦
          check_address (next_moment (record x { buffer = received_into x.buffer p }))
            (net.sa_set_sa sockaddr)
    ]

    abbrev pub rewound : RedirectTransport Sa → RedirectTransport Sa
    rewound x = record x { buffer = lib.rewind x.buffer }

    -- `readable`: `flags` has FD_READ.
    unfoldable pub redirect_from_raw : RedirectTransport Sa → Bool → RedirectTransport Sa
    redirect_from_raw x readable =
        if x.is_detached then x else rewound (if readable then receive_raw x else x)

    -- Send over raw socket.
    abbrev pub send_raw : RedirectTransport Sa → Mbuf → Code × Mbuf × RedirectTransport Sa
    send_raw x b =
        let y : RedirectTransport Sa =
          record_event (redirected (left b) x.redirect_address) (next_moment x) in
        elim (net.sendto x.clock x.socket (left b) x.redirect_address) [
          | answered n ↦ (success, lib.advance b n, y)
          | failed e ↦
              (if is_again e then try_again_later else lib.error_to_code e, b, next_moment x)
        ]

    -- `rawrtc_sctp_redirect_transport_feed_inbound`
    unfoldable pub feed_inbound : RedirectTransport Sa → Mbuf → Code × Mbuf × RedirectTransport Sa
    feed_inbound x b =
        if x.is_detached
        then (invalid_state, b, x)
        else if not (is_opened x.state)
        then (success, b, x)
        else send_raw x (patch_sctp_header x.clock b x.local_port (net.sa_port x.redirect_address))
