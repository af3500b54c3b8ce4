-- ===== src/Transport/Receive/Incoming.antt =====
-- Any incoming message and the registry of channels: `data_receive_handler`.
use rawrtc_data_channel.Base.{
  ℕ, ◌≡◌, ◌≢◌, refl, ◌<◌, ◌⊎◌, inl, inr, List, Bool, true, false, ltb, ◌==◌, Option, none, some,
  if◌then◌else◌, Bool-cases, Option-cases,
}
use rawrtc_data_channel.Base.Code.{Code, success, no_value, is_error}
use rawrtc_data_channel.External.{Libre, Mbuf, left, swap32}
use rawrtc_data_channel.External.Dtls.{Dtls}
use rawrtc_data_channel.Dcep.{message_type_ack, message_type_open}
use rawrtc_data_channel.Channel.{RcvInfo}
use rawrtc_data_channel.Transport.{Transport, Sctp, tick, ppid_dcep}
use rawrtc_data_channel.Transport.Registry.{
  WellFormed, Shrinks, Shrinks-refl, Shrinks-same, Shrinks-WellFormed,
}
use rawrtc_data_channel.Transport.Reset.Registry.{set_context-Shrinks, sid_of_context}
use rawrtc_data_channel.Transport.Receive.{
  is_complete_chunk, discard, append_chunk, first_chunk, buffer_message_received_raise_complete,
  handle_data_channel_ack_message, after_dcep, handle_dcep_message, data_receive_handler,
}
use rawrtc_data_channel.Transport.Receive.Registry.{application_message-WellFormed}
use rawrtc_data_channel.Transport.Receive.Accepting.{open_message-WellFormed}

discard-info : (e : Code) (b : Mbuf) (info : RcvInfo) → (discard e b info).2 ≡ info
discard-info no_value b info = refl
discard-info _ b info = refl

ack-Shrinks : (x : Transport) (info : RcvInfo) → Shrinks x (handle_data_channel_ack_message x info)
unfolding handle_data_channel_ack_message
ack-Shrinks x info = elim (Option-cases (x.channels info.rcv_sid)) [
  | inl empty ↦ rw (empty, handle_data_channel_ack_message) (Shrinks-refl x)
  | inr (h, e) ↦ elim (Option-cases ((x.heap h).transport_arg)) [
    | inl no_context ↦ rw (e, no_context, handle_data_channel_ack_message) (Shrinks-refl x)
    | inr (c, p) ↦
        let s =
          set_context-Shrinks x h (record c { can_send_unordered = true })
            (sid_of_context (x.heap h) c p) in
        elim (Bool-cases c.can_send_unordered) [
          | inl set ↦ rw (e, p, set, handle_data_channel_ack_message) (Shrinks-refl x)
          | inr unset ↦ rw (e, p, unset, handle_data_channel_ack_message) s
        ]
  ]
]

if-WellFormed :
    (b : Bool) (y z : Transport) → WellFormed y → WellFormed z → WellFormed (if b then y else z)
if-WellFormed true y z s t = s
if-WellFormed false y z s t = t

module _ (lib : Libre) where
  append_chunk-info :
      (t : ℕ) (b : Mbuf) (info : RcvInfo) (src : List ℕ) (complete : Bool)
      → (append_chunk lib t b info src complete).2 ≡ info
  unfolding append_chunk
  append_chunk-info t b info src complete =
      let (e, b') = lib.write_mem t b src in
      elim (Bool-cases (is_error (lib.error_to_code e))) [
        | inl bad ↦ rw bad (discard-info (lib.error_to_code e) b' info)
        | inr good ↦ elim (Bool-cases complete) [
          | inl on ↦ rw (good, on) refl
          | inr off ↦ rw (good, off) refl
        ]
      ]

  first_chunk-info : (t : ℕ) (b : Mbuf) (info : RcvInfo) → (first_chunk lib t b info).2 ≡ info
  unfolding first_chunk
  first_chunk-info t b info = elim (Bool-cases (ltb 0 b.pos)) [
    | inr no_room ↦ rw no_room (append_chunk-info t _ info _ false)
    | inl room ↦
        let (e, b') = lib.shift_to_start t b in
        elim (Bool-cases (is_error (lib.error_to_code e))) [
          | inl bad ↦ rw (room, bad) (discard-info (lib.error_to_code e) b' info)
          | inr good ↦ rw (room, good) (append_chunk-info t _ info _ false)
        ]
  ]

  -- the information is that of this chunk, or the one that was there
  buffered_info :
      (t : ℕ) (inbound : Option Mbuf) (old : RcvInfo) (b : Mbuf) (info : RcvInfo) (eor : Bool)
      → let r = buffer_message_received_raise_complete lib t inbound old b info eor in
        (r.2 ≡ info) ⊎ (r.2 ≡ old)
  unfolding buffer_message_received_raise_complete
  buffered_info t (some c) old b info eor = inr (append_chunk-info t c old (left b) _)
  buffered_info t none old b info eor = elim (Bool-cases (is_complete_chunk info.rcv_ppid eor)) [
    | inl whole ↦ rw whole (inl refl)
    | inr part ↦ rw part (inl (first_chunk-info t b info))
  ]

module _ (lib : Libre) (sctp : Sctp) (dtls : Dtls) (h : ℕ) where
  after_dcep-WellFormed :
      (x : Transport) (r : Code × Option Mbuf × RcvInfo)
      → WellFormed x
      → r.2.rcv_sid < x.n_channels
      → ((i : ℕ) → x.channels i ≢ some h)
      → WellFormed (after_dcep lib sctp dtls h x r)
  after_dcep-WellFormed x (success, some b, info) w lt fresh =
      let y = record x { buffer_dcep_inbound = some b; info_dcep_inbound = info } in
      let v : WellFormed y = Shrinks-WellFormed (Shrinks-same refl refl refl) w in
      let (type, b') = lib.read_u8 b in
      Shrinks-WellFormed (Shrinks-same refl refl refl) (
        if-WellFormed (type == message_type_ack) _ _ (Shrinks-WellFormed (ack-Shrinks y info) v) (
          if-WellFormed (type == message_type_open) _ _
            (open_message-WellFormed lib sctp dtls h y b' info v lt fresh) v))
  after_dcep-WellFormed x (no_value, b, info) w lt fresh =
      Shrinks-WellFormed (Shrinks-same refl refl refl) w
  after_dcep-WellFormed x (_, b, info) w lt fresh =
      Shrinks-WellFormed (Shrinks-same refl refl refl) w

  dcep_message-WellFormed :
      (x : Transport) (b : Mbuf) (info : RcvInfo) (eor : Bool)
      → WellFormed x
      → info.rcv_sid < x.n_channels
      → x.info_dcep_inbound.rcv_sid < x.n_channels
      → ((i : ℕ) → x.channels i ≢ some h)
      → WellFormed (handle_dcep_message lib sctp dtls h x b info eor)
  unfolding handle_dcep_message
  dcep_message-WellFormed x b info eor w lt lt' fresh =
      let r =
        buffer_message_received_raise_complete lib x.clock x.buffer_dcep_inbound x.info_dcep_inbound
          b info eor in
      after_dcep-WellFormed (tick x) r (Shrinks-WellFormed (Shrinks-same refl refl refl) w)
        (elim (buffered_info lib x.clock x.buffer_dcep_inbound x.info_dcep_inbound b info eor) [
          | inl this ↦ rw this lt
          | inr old ↦ rw old lt'
        ])
        fresh

  -- Any incoming message keeps the registry well formed: application data, acks, open messages and
  -- their chunks. The stream that it came on and that of a DCEP message whose chunks are being
  -- gathered have slots, and the channel that may be allocated is not registered yet.
  pub data_receive-WellFormed :
      (x : Transport) (b : Mbuf) (info : RcvInfo) (eor : Bool)
      → WellFormed x
      → info.rcv_sid < x.n_channels
      → x.info_dcep_inbound.rcv_sid < x.n_channels
      → ((i : ℕ) → x.channels i ≢ some h)
      → WellFormed (data_receive_handler lib sctp dtls h x b info eor)
  unfolding data_receive_handler
  data_receive-WellFormed x b info' eor w lt lt' fresh =
      let info : RcvInfo = record info' { rcv_ppid = swap32 (info'.rcv_ppid) } in
      if-WellFormed (info.rcv_ppid == ppid_dcep) _ _
        (dcep_message-WellFormed x b info eor w lt lt' fresh)
        (application_message-WellFormed lib x b info eor w).1
