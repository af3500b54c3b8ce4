-- ===== src/Transport/Channels/Inband.antt =====
-- A channel that is opened in-band, from its parameters to the open message that usrsctp takes.
use rawrtc_data_channel.Base.{
  if_false, ℕ, ◌≡◌, ◌≤◌, refl, ap, ◌∙◌, ◌∷◌, ◌||◌, ◌&&◌, true, false, some, length, ltb, arith,
}
use rawrtc_data_channel.Base.Code.{success, ok}
use rawrtc_data_channel.External.{Libre, HasMemory, Mbuf, left}
use rawrtc_data_channel.External.Dtls.{Dtls, DtlsRole, dtls_connected}
use rawrtc_data_channel.Parameters.{Parameters}
use rawrtc_data_channel.Dcep.{
  message_type_open, strlen_or_zero, uint16_max, data_channel_open_message_create,
}
use rawrtc_data_channel.Dcep.Encoding.{message, open_body, open_message_create-bytes}
use rawrtc_data_channel.Transport.{Transport, Sctp, Spa, tick, ppid_dcep}
use rawrtc_data_channel.Transport.Send.{is_connected, is_empty, plain_spa, send_message}
use rawrtc_data_channel.Transport.Send.Once.{TakesAll, taken, sctp_send_once}
use rawrtc_data_channel.Transport.Channels.{
  new_context, channel_register, find_free_sid, first_of_role, channel_context_create, send_open,
  open_on, open_with_role, channel_create_inband, register_created, channel_create_handler,
}

-- The open message for the parameters `p`.
abbrev pub open_message : Parameters → Mbuf
open_message p = message (message_type_open ∷ open_body p)

-- The texts fit in the fields for their lengths.
abbrev pub HasShortTexts : Parameters → Type 0
HasShortTexts p =
    (ltb uint16_max (strlen_or_zero p.label) || ltb uint16_max (strlen_or_zero p.protocol)) ≡ false

module _ (lib : Libre) (sctp : Sctp) (mem : (t : ℕ) → HasMemory lib t)
    (takes : (t : ℕ) → TakesAll sctp t) where
  -- The information that the open message is sent with.
  abbrev pub open_info : ℕ → Spa
  open_info sid = plain_spa (new_context sid false) ppid_dcep

  opening_sent :
      (x : Transport) (sid : ℕ) (p : Parameters)
      → HasShortTexts p
      → (is_connected x.state && is_empty x.buffered_messages_outgoing) ≡ true
      → length (left (open_message p)) ≤ x.usrsctp_chunk_size
      → send_open lib sctp x (new_context sid false) p
        ≡ (ok (new_context sid false), taken lib sctp x (open_message p) (open_info sid))
  unfolding send_open send_message
  opening_sent x sid p short on room =
      let made : data_channel_open_message_create lib x.clock p ≡ ok (open_message p) =
        rw short at (open_message_create-bytes lib x.clock (mem x.clock) p) in
      rw (made, send_open)
        (rw
          (sctp_send_once lib sctp x (open_message p) (open_info sid) on refl (omega arith) room
            (takes x.clock))
          refl)

  opening_on :
      (x : Transport) (sid : ℕ) (p : Parameters)
      → HasShortTexts p
      → (is_connected x.state && is_empty x.buffered_messages_outgoing) ≡ true
      → length (left (open_message p)) ≤ x.usrsctp_chunk_size
      → open_on lib sctp x (some sid) p
        ≡ (ok (new_context sid false), taken lib sctp (tick x) (open_message p) (open_info sid))
  unfolding open_on
  opening_on x sid p short on room =
      let d : channel_context_create lib x.clock sid false ≡ ok (new_context sid false) =
        rw ((mem x.clock).zalloc_ok, channel_context_create) refl in
      rw (d, open_on) (opening_sent (tick x) sid p short on room)

  with_role :
      (x : Transport) (role : DtlsRole) (i sid : ℕ) (p : Parameters)
      → first_of_role role ≡ some i
      → find_free_sid x.n_channels x i ≡ some sid
      → open_with_role lib sctp x (success, role) p ≡ open_on lib sctp x (some sid) p
  unfolding open_with_role
  with_role x role i sid p first found = rw (first, found, open_with_role) refl

  -- What the creation of a channel in-band comes to.
  pub created_inband :
      (dtls : Dtls) (role : DtlsRole) (x : Transport) (h i sid : ℕ) (p : Parameters)
      → p.negotiated ≡ false
      → dtls.state_getter x.clock ≡ (success, dtls_connected)
      → dtls.role_getter x.clock ≡ (success, role)
      → first_of_role role ≡ some i
      → find_free_sid x.n_channels x i ≡ some sid
      → HasShortTexts p
      → (is_connected x.state && is_empty x.buffered_messages_outgoing) ≡ true
      → length (left (open_message p)) ≤ x.usrsctp_chunk_size
      → channel_create_handler lib sctp dtls x h p ≡ (
        success,
        channel_register
            (taken lib sctp (tick x) (open_message p) (open_info sid))
            h
            (new_context sid false)
            false,
      )
  unfolding channel_create_handler channel_create_inband
  created_inband dtls role x h i sid p own state getter first found short on room =
      let inband : channel_create_inband lib sctp dtls x p
          ≡ (ok (new_context sid false), taken lib sctp (tick x) (open_message p) (open_info sid)) =
        rw (state, getter, channel_create_inband)
          (with_role x role i sid p first found ∙ opening_on x sid p short on room) in
      if_false p.negotiated _ _ own ∙ ap (register_created lib sctp h) inband
