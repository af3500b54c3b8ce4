-- ===== src/Redirect/Feeding.antt =====
-- What the redirect transport passes on from the DTLS transport to the raw socket, and what its
-- packets are to an SCTP transport.
use rawrtc_data_channel.Base.{
  ℕ, ◌*◌, ◌%◌, ◌≤◌, ◌<◌, ◌≡◌, refl, ap, ◌∙◌, List, ◌∷◌, ◌++◌, Bool, true, false, not, if◌then◌else◌,
  Option, length, arith,
}
use rawrtc_data_channel.Base.Code.{Code, success, invalid_state, invalid_message}
use rawrtc_data_channel.External.{Libre, Mbuf, advanced, AllBytes}
use rawrtc_data_channel.Checksum.{Crc, ChecksumFlags, with_checksum}
use rawrtc_data_channel.Checksum.Fields.{
  stamped, is_genuine, stamped_genuine, AllBytes-with_checksum,
}
use rawrtc_data_channel.Redirect.{
  RedirectTransport, RedirectState, opened, outbound, redirected, Net, received, answered,
  record_event, next_moment, feed_inbound, send_raw, is_opened, redirect_from_raw,
}
use rawrtc_data_channel.Redirect.Packet.{at, packet, left-at, patch-stamped}
use rawrtc_data_channel.Redirect.Forwarding.{empty_buffer, is_accepted, raw_packet_verdict}
use rawrtc_data_channel.Transport.{Transport, fed, emit}
use rawrtc_data_channel.Transport.Packets
use rawrtc_data_channel.Transport.Packets.{Direction, dump_inbound, trace_packet}
use rawrtc_data_channel.Transport.Packets.Checked.{accepted, feed_inbound_verdict}

packet-bytes :
    (source destination : ℕ) (body : List ℕ)
    → AllBytes body
    → AllBytes (packet source destination body)
packet-bytes source destination body h =
    (omega arith, (omega arith, (omega arith, (omega arith, h))))

module _ (lib : Libre) (crc : Crc) {Sa Sockaddr : Type 0} (net : Net Sa Sockaddr) where
  sent_raw :
      (x : RedirectTransport Sa) (pre p : List ℕ) (n : ℕ)
      → net.sendto x.clock x.socket p x.redirect_address ≡ answered n
      → send_raw lib crc net x (at pre p) ≡ (
        success,
        advanced (at pre p) n,
        record_event (redirected p x.redirect_address) (next_moment x),
      )
  sent_raw x pre p n e =
      rw
        (
          send_raw,
          left-at pre p,
          e,
          lib.advance_law (at pre p) n (
              omega (
                arith,
                net.sendto_law x.clock x.socket p x.redirect_address n e,
                ap length (left-at pre p),
              )),
        )
        (ap
          (λ (q : List ℕ). (
            success,
            advanced (at pre p) n,
            record_event (redirected q x.redirect_address) (next_moment x),
          ))
          (left-at pre p))

  guarded :
      (d : Bool) (s : RedirectState) (i q : Code × Mbuf × RedirectTransport Sa)
      {v r : Code × Mbuf × RedirectTransport Sa}
      → d ≡ false
      → s ≡ opened
      → v ≡ r
      → (if d then i else if not (is_opened s) then q else v) ≡ r
  guarded true s i q h k e = absurd (cc)
  guarded false opened i q h k e = e
  guarded false RedirectState.new i q h k e = absurd (cc)
  guarded false RedirectState.closed i q h k e = absurd (cc)

  -- An SCTP packet of at least 12 bytes that an open redirect transport is fed, when the socket
  -- takes `n` bytes: the socket gets the packet with the local port and the redirect port and a new
  -- checksum, and the buffer is advanced by `n`.
  pub feed_inbound_redirects :
      (x : RedirectTransport Sa) (pre : List ℕ) (a b c d : ℕ) (body : List ℕ) (n : ℕ)
      → x.is_detached ≡ false
      → x.state ≡ opened
      → 8 ≤ length body
      → net.sendto x.clock x.socket
          (stamped crc (packet x.local_port (net.sa_port x.redirect_address) body))
          x.redirect_address
        ≡ answered n
      → feed_inbound lib crc net x (at pre (a ∷ b ∷ c ∷ d ∷ body)) ≡ (
        success,
        advanced
            (at pre (stamped crc (packet x.local_port (net.sa_port x.redirect_address) body)))
            n,
        record_event
            (redirected
              (stamped crc (packet x.local_port (net.sa_port x.redirect_address) body))
              x.redirect_address)
            (next_moment x),
      )
  unfolding feed_inbound
  feed_inbound_redirects x pre a b c d body n h o l e =
      let port : ℕ = net.sa_port x.redirect_address in
      guarded x.is_detached x.state (invalid_state, at pre (a ∷ b ∷ c ∷ d ∷ body), x)
        (success, at pre (a ∷ b ∷ c ∷ d ∷ body), x) h o
        (ap (send_raw lib crc net x)
            (patch-stamped lib crc x.clock x.local_port port pre a b c d body l)
          ∙ sent_raw x pre (stamped crc (packet x.local_port port body)) n e)

  -- A raw IPv4 packet that the redirect transport passes on reaches an SCTP transport: when it holds
  -- an SCTP packet of at least 12 bytes from the redirect port, and its sender is set or is the
  -- redirect address, the outbound handler gets some bytes `s`, and an SCTP transport that is not
  -- detached accepts exactly these bytes and feeds them to usrsctp, whatever its checksum flags.
  pub raw_packet_reaches_peer :
      (dump : ℕ → List ℕ → Direction → Option (List ℕ)) (flags : ChecksumFlags) (y : Transport)
      (ecn_bits : ℕ) (x : RedirectTransport Sa) (addr : Sockaddr) (v : ℕ) (options : List ℕ)
      (source destination : ℕ) (body : List ℕ)
      → x.is_detached ≡ false
      → x.buffer ≡ empty_buffer
      → net.recvfrom x.clock x.socket x.buffer
        ≡ received ((v ∷ options) ++ packet source destination body) addr
      → length (v ∷ options) ≡ v % 16 * 4
      → 8 ≤ length body
      → source < 65536
      → (net.sa_set_sa addr).0 ≡ 0
      → is_accepted lib crc net x (net.sa_set_sa addr).1 source ≡ true
      → AllBytes body
      → y.is_detached ≡ false
      → ((s : List ℕ) × ((redirect_from_raw lib crc net x true).events ≡ outbound s ∷ x.events)
          × (Packets.feed_inbound dump crc flags y (record { buf = s; pos = 0 }) ecn_bits ≡ (
            success,
            record { buf = s; pos = 0 },
            emit (fed s ecn_bits) (trace_packet dump y s dump_inbound),
          )))
  raw_packet_reaches_peer dump flags y ecn_bits x addr v options source destination body d b r e h w
        z g bytes dy =
      let p : List ℕ = packet x.local_port x.remote_port body in
      let s : List ℕ = stamped crc p in
      let m : Mbuf = record { buf = s; pos = 0 } in
      (
        s,
        ap (λ (q : RedirectTransport Sa). q.events)
              (raw_packet_verdict lib crc net x addr v options source destination body d b r e h w
                z)
            ∙ rw g refl,
        accepted dump y.is_detached flags.disable_inbound (is_genuine crc s) (invalid_state, m, y)
            (invalid_message, m, trace_packet dump y s dump_inbound) dy
            (stamped_genuine crc p (omega arith))
            (feed_inbound_verdict dump crc flags y m ecn_bits (
              AllBytes-with_checksum p (crc.crc32c (with_checksum p 0))
                (packet-bytes x.local_port x.remote_port body bytes))),
      )
