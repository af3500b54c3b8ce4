-- ===== src/Transport/Receive/Registry.antt =====
-- Application messages and acks, and the registry of channels.
use rawrtc_data_channel.Base.{
  ℕ, ◌≡◌, refl, inl, inr, Bool, true, false, not, ◌||◌, Option, none, some, if◌then◌else◌,
  Bool-cases, Option-cases,
}
use rawrtc_data_channel.Base.Code.{Code, success, no_value}
use rawrtc_data_channel.External.{Libre, Mbuf}
use rawrtc_data_channel.Channel.{Context, RcvInfo}
use rawrtc_data_channel.Transport.{Transport, tick}
use rawrtc_data_channel.Transport.Registry.{
  sid_of, WellFormed, Shrinks, Shrinks-refl, Shrinks-trans, Shrinks-same, Shrinks-WellFormed,
}
use rawrtc_data_channel.Transport.Reset.{set_context}
use rawrtc_data_channel.Transport.Reset.Registry.{set_context-Shrinks, sid_of_context}
use rawrtc_data_channel.Transport.Receive.{
  is_empty_ppid, is_string_ppid, is_binary_ppid, deliver, pass_message, after_buffering,
  application_message, handle_application_message, buffer_message_received_raise_complete,
}

pass_message-Shrinks :
    (x : Transport) (h : ℕ) (b : Mbuf) (ppid : ℕ) (complete : Bool)
    → Shrinks x (pass_message x h b ppid complete)
pass_message-Shrinks x h b ppid complete = elim (Bool-cases (x.heap h).message_handler) [
  | inl on ↦ rw on (Shrinks-same refl refl refl)
  | inr off ↦ rw off (Shrinks-same refl refl refl)
]

if-Shrinks :
    (b : Bool) (x y z : Transport) → Shrinks x y → Shrinks x z → Shrinks x (if b then y else z)
if-Shrinks true x y z s t = s
if-Shrinks false x y z s t = t

deliver-Shrinks :
    (x : Transport) (h : ℕ) (c : Context) (b : Mbuf) (ppid : ℕ) (complete : Bool)
    → sid_of (x.heap h) ≡ some c.sid
    → Shrinks x (deliver x h c b ppid complete)
deliver-Shrinks x h c b ppid complete e =
    let d : Context = record c { buffer_inbound = none } in
    let s = set_context-Shrinks x h d e in
    if-Shrinks (is_string_ppid ppid || is_binary_ppid ppid) x _ _
      (Shrinks-trans s (pass_message-Shrinks (set_context x h d) h b ppid complete)) s

after_buffering-Shrinks :
    (x : Transport) (h : ℕ) (c : Context) (r : Code × Option Mbuf × RcvInfo)
    → sid_of (x.heap h) ≡ some c.sid
    → Shrinks x (after_buffering x h c r)
after_buffering-Shrinks x h c (success, some b, info) e =
    deliver-Shrinks x h (record c { info_inbound = info; pending_inbound_message = false }) b
      info.rcv_ppid true e
after_buffering-Shrinks x h c (no_value, b, info) e =
    set_context-Shrinks x h
      (record c { buffer_inbound = b; info_inbound = info; pending_inbound_message = true }) e
after_buffering-Shrinks x h c (_, b, info) e =
    set_context-Shrinks x h (record c { buffer_inbound = none; info_inbound = info }) e

module _ (lib : Libre) where
  application_message-Shrinks :
      (x : Transport) (h : ℕ) (c : Context) (b : Mbuf) (info : RcvInfo) (eor : Bool)
      → sid_of (x.heap h) ≡ some c.sid
      → Shrinks x (application_message lib x h c b info eor)
  unfolding application_message
  application_message-Shrinks x h c b info eor e =
      if-Shrinks (is_empty_ppid info.rcv_ppid) x _ _
        (if-Shrinks eor x _ _
          (deliver-Shrinks x h (record c { pending_inbound_message = false }) (lib.skip_to_end b)
            info.rcv_ppid true e)
          (set_context-Shrinks x h (record c { buffer_inbound = none }) e))
        (if-Shrinks (x.heap h).streamed x _ _
          (deliver-Shrinks x h (record c { pending_inbound_message = not eor }) b info.rcv_ppid eor
            e)
          (Shrinks-trans (Shrinks-same refl refl refl) (
            after_buffering-Shrinks (tick x) h c
              (buffer_message_received_raise_complete lib x.clock c.buffer_inbound c.info_inbound b
                info eor)
              e)))

  -- An application message, whatever it is and wherever it goes, keeps the registry well formed:
  -- each slot holds what it held and each channel keeps its stream.
  pub application_message-WellFormed :
      (x : Transport) (b : Mbuf) (info : RcvInfo) (eor : Bool)
      → WellFormed x
      → let y = handle_application_message lib x b info eor in Shrinks x y × WellFormed y
  unfolding handle_application_message
  application_message-WellFormed x b info eor w = elim (Option-cases (x.channels info.rcv_sid)) [
    | inl empty ↦ rw (empty, handle_application_message) (Shrinks-refl x, w)
    | inr (h, e) ↦ elim (Option-cases ((x.heap h).transport_arg)) [
      | inl no_context ↦ rw (e, no_context, handle_application_message) (Shrinks-refl x, w)
      | inr (c, p) ↦
          let s =
            application_message-Shrinks x h (record c { can_send_unordered = true }) b info eor
              (sid_of_context (x.heap h) c p) in
          rw (e, p, handle_application_message) (s, Shrinks-WellFormed s w)
    ]
  ]
