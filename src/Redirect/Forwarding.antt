-- ===== src/Redirect/Forwarding.antt =====
-- What the redirect transport passes on, from the raw socket to the DTLS transport.
use rawrtc_data_channel.Base.{
  ℕ, ◌*◌, ◌%◌, ◌/◌, ◌≤◌, ◌<◌, ◌≡◌, refl, ap, ◌∙◌, List, [], ◌∷◌, ◌++◌, Bool, true, false, not, ◌&&◌,
  ◌||◌, if◌then◌else◌, length, drop, ◌==◌, arith, take_all,
}
use rawrtc_data_channel.External.{
  Libre, Mbuf, left, advanced, left-advanced, word_of, swap16, swap16-word_of-be16,
}
use rawrtc_data_channel.Checksum.{Crc}
use rawrtc_data_channel.Checksum.Fields.{stamped}
use rawrtc_data_channel.Redirect.{
  RedirectTransport, outbound, Net, received, receive_raw, redirect_packet, next_moment, rewound,
  pass_patched, skip_ipv4_header, check_address, received_into, patch_sctp_header,
  redirect_from_raw,
}
use rawrtc_data_channel.Redirect.Packet.{at, packet, mbuf-eq, left-at, advance-at, patch-stamped}

abbrev pub empty_buffer : Mbuf
empty_buffer = record { buf = []; pos = 0 }

received_empty : (b : Mbuf) (p : List ℕ) → b ≡ empty_buffer → received_into b p ≡ at [] p
received_empty b p h =
    ap (λ c. received_into c p) h ∙ mbuf-eq (take_all (length p) p (omega arith)) refl

module _ (lib : Libre) (crc : Crc) {Sa Sockaddr : Type 0} (net : Net Sa Sockaddr) where
  header_read :
      (x : RedirectTransport Sa) (pre : List ℕ) (a b c d : ℕ) (body : List ℕ)
      → redirect_packet lib crc net x (at pre (a ∷ b ∷ c ∷ d ∷ body)) ≡ (
          if swap16 (word_of (a ∷ b ∷ [])) == net.sa_port x.redirect_address
          then pass_patched x (
              patch_sctp_header lib crc x.clock
                (at pre (a ∷ b ∷ c ∷ d ∷ body))
                x.local_port
                x.remote_port)
          else record x { buffer = at pre (a ∷ b ∷ c ∷ d ∷ body) })
  header_read x pre a b c d body =
      let m : Mbuf = at pre (a ∷ b ∷ c ∷ d ∷ body) in
      let behind : left m ≡ a ∷ b ∷ c ∷ d ∷ body = left-at pre (a ∷ b ∷ c ∷ d ∷ body) in
      let back : lib.retreat (advanced (advanced m 2) 2) 4 ≡ m =
        lib.retreat_law (advanced (advanced m 2) 2) 4 (omega arith) ∙ mbuf-eq refl (omega arith) in
      rw
        (
          lib.read_u16_law m a b (c ∷ d ∷ body) behind,
          lib.read_u16_law (advanced m 2) c d body (left-advanced m 2 ∙ ap (drop 2) behind),
          back,
        )
        refl

  header_skipped :
      (v : ℕ) (options p : List ℕ)
      → length (v ∷ options) ≡ v % 16 * 4
      → skip_ipv4_header lib (at [] ((v ∷ options) ++ p)) ≡ at (v ∷ options) p
  header_skipped v options p e =
      rw
        (
          lib.read_u8_law (at [] ((v ∷ options) ++ p)) v (options ++ p) refl,
          skip_ipv4_header,
          lib.retreat_law (advanced (at [] ((v ∷ options) ++ p)) 1) 1 (omega arith),
        )
        (advance-at lib (v % 16 * 4) [] (v ∷ options) p e)

  -- The transport when a packet has been dealt with, and the packet is passed on or not.
  abbrev pub done : RedirectTransport Sa → Bool → List ℕ → RedirectTransport Sa
  done x passed p = record x {
    buffer = empty_buffer;
    events = if passed then outbound p ∷ x.events else x.events;
  }

  abbrev pub is_accepted : RedirectTransport Sa → Sa → ℕ → Bool
  is_accepted x from source =
      (net.sa_isset from || net.sa_cmp x.redirect_address from)
      && (source == net.sa_port x.redirect_address)

  rewound_quiet :
      (x : RedirectTransport Sa) (b : Mbuf) (p : List ℕ)
      → rewound lib crc net (record x { buffer = b }) ≡ done x false p
  rewound_quiet x b p = rw (lib.rewind_law b) refl

  rewound_passed :
      (x : RedirectTransport Sa) (b : Mbuf) (p : List ℕ)
      → left b ≡ p
      → rewound lib crc net (pass_patched x b) ≡ done x true p
  rewound_passed x b p e = rw (lib.rewind_law b, e) refl

  filtered :
      (set same port : Bool) {quiet ignored passed : RedirectTransport Sa}
      (x : RedirectTransport Sa) (p : List ℕ)
      → rewound lib crc net quiet ≡ done x false p
      → rewound lib crc net ignored ≡ done x false p
      → rewound lib crc net passed ≡ done x true p
      → rewound lib crc net
          (if not set && not same then quiet else if port then passed else ignored)
        ≡ done x ((set || same) && port) p
  filtered true same true x p a b c = c
  filtered true same false x p a b c = b
  filtered false true true x p a b c = c
  filtered false true false x p a b c = b
  filtered false false port x p a b c = a

  checked :
      (x : RedirectTransport Sa) (from : Sa) (v : ℕ) (options : List ℕ) (source destination : ℕ)
      (body : List ℕ)
      → length (v ∷ options) ≡ v % 16 * 4
      → 8 ≤ length body
      → source < 65536
      → rewound lib crc net (
          check_address lib crc net
            (record x { buffer = at [] ((v ∷ options) ++ packet source destination body) })
            (0, from))
        ≡ done x (is_accepted x from source) (stamped crc (packet x.local_port x.remote_port body))
  checked x from v options source destination body e h s =
      let whole : List ℕ = (v ∷ options) ++ packet source destination body in
      let p : List ℕ = stamped crc (packet x.local_port x.remote_port body) in
      let y : RedirectTransport Sa = record x { buffer = at [] whole } in
      rw
        (
          lib.error_to_code_zero,
          header_skipped v options (packet source destination body) e,
          header_read y (v ∷ options) (source / 256 % 256) (source % 256) (destination / 256 % 256)
              (destination % 256) body,
          swap16-word_of-be16 source s,
          patch-stamped lib crc x.clock x.local_port x.remote_port (v ∷ options)
              (source / 256 % 256) (source % 256) (destination / 256 % 256) (destination % 256) body
              h,
        )
        (filtered (net.sa_isset from) (net.sa_cmp x.redirect_address from)
          (source == net.sa_port x.redirect_address) x p (rewound_quiet x (at [] whole) p)
          (rewound_quiet x (at (v ∷ options) (packet source destination body)) p)
          (rewound_passed x (at (v ∷ options) p) p (left-at (v ∷ options) p)))

  attached :
      (d : Bool) (x : RedirectTransport Sa) {y z : RedirectTransport Sa}
      → d ≡ false
      → y ≡ z
      → (if d then x else y) ≡ z
  attached true x h e = absurd (cc)
  attached false x h e = e

  receive_step :
      (x : RedirectTransport Sa) (addr : Sockaddr) (p : List ℕ)
      → x.buffer ≡ empty_buffer
      → net.recvfrom x.clock x.socket x.buffer ≡ received p addr
      → (net.sa_set_sa addr).0 ≡ 0
      → receive_raw lib crc net x
        ≡ check_address lib crc net
            (next_moment (record x { buffer = at [] p }))
            (0, (net.sa_set_sa addr).1)
  receive_step x addr p b r z =
      rw (r, receive_raw)
        (ap
            (λ m.
              check_address lib crc net (next_moment (record x { buffer = m }))
                (net.sa_set_sa addr))
            (received_empty x.buffer p b)
          ∙ ap
              (λ e.
                check_address lib crc net (next_moment (record x { buffer = at [] p }))
                  (e, (net.sa_set_sa addr).1))
              z)

  -- A raw IPv4 packet that holds an SCTP packet of at least 12 bytes, received into the empty buffer
  -- with a sender address that libre takes: when this address is set or is the redirect address,
  -- and the source port is that of the redirect address, the outbound handler gets the SCTP packet
  -- with the local and the remote port and a new checksum, without the IPv4 header; if not, nothing
  -- is passed on. In both cases the buffer is empty again.
  pub raw_packet_verdict :
      (x : RedirectTransport Sa) (addr : Sockaddr) (v : ℕ) (options : List ℕ)
      (source destination : ℕ) (body : List ℕ)
      → x.is_detached ≡ false
      → x.buffer ≡ empty_buffer
      → net.recvfrom x.clock x.socket x.buffer
        ≡ received ((v ∷ options) ++ packet source destination body) addr
      → length (v ∷ options) ≡ v % 16 * 4
      → 8 ≤ length body
      → source < 65536
      → (net.sa_set_sa addr).0 ≡ 0
      → redirect_from_raw lib crc net x true
        ≡ done
            (next_moment x)
            (is_accepted x (net.sa_set_sa addr).1 source)
            (stamped crc (packet x.local_port x.remote_port body))
  unfolding redirect_from_raw
  raw_packet_verdict x addr v options source destination body d b r e h s z =
      attached x.is_detached x d (
        ap (rewound lib crc net)
          (receive_step x addr ((v ∷ options) ++ packet source destination body) b r z)
        ∙ checked (next_moment x) (net.sa_set_sa addr).1 v options source destination body e h s)
