-- ===== src/Transport/Channels/Once.antt =====
-- A message on a channel that usrsctp takes in one piece.
use rawrtc_data_channel.Base.{
  ℕ, ◌≡◌, refl, ap, ◌≤◌, ◌<◌, [], ◌∷◌, Bool, true, false, if◌then◌else◌, length, ◌==◌, some, ◌&&◌,
  arith,
}
use rawrtc_data_channel.Base.Code.{Code, success, ok}
use rawrtc_data_channel.External.{Libre, HasMemory, Mbuf, left, swap32, appended, bytes_of}
use rawrtc_data_channel.Channel.{Channel, Context}
use rawrtc_data_channel.Parameters.{is_unordered}
use rawrtc_data_channel.Transport.{
  Transport, SndInfo, Spa, Sctp, PrPolicy, pr_none, pr_rtx, pr_ttl, ppid_dcep, ppid_utf16,
  ppid_utf16_empty, ppid_binary, ppid_binary_empty,
}
use rawrtc_data_channel.Transport.Send.{
  is_connected, is_empty, send_message, plain_spa, channel_spa, policy,
}
use rawrtc_data_channel.Transport.Send.Once.{TakesAll, taken, sctp_send_once}
use rawrtc_data_channel.Transport.Channels.{empty_message, send_on, send_empty}
use rawrtc_data_channel.Transport.Receive.Reassembly.{merged}

-- What goes with the channel's policy has the stream, the PPID and the EOR flag of the plain
-- information.
by_policy :
    (pol : PrPolicy) (s : Spa) (info : SndInfo) (v : ℕ)
    → let r : Spa = elim pol [
      | pr_none ↦ record s { sendv_sndinfo = info }
      | p ↦ record s { sendv_sndinfo = info; prinfo_valid = true; pr_policy = p; pr_value = v }
    ] in
      r.sendv_sndinfo ≡ info
by_policy pr_none s info v = refl
by_policy pr_rtx s info v = refl
by_policy pr_ttl s info v = refl

-- The information that is sent with a message on a channel.
abbrev pub spa_of : Channel → Context → ℕ → Spa
spa_of channel c ppid = channel_spa channel c (plain_spa c ppid)

pub spa_of-info :
    (channel : Channel) (c : Context) (ppid : ℕ)
    → let t = (spa_of channel c ppid).sendv_sndinfo in
      (t.snd_sid ≡ c.sid) × (t.snd_ppid ≡ swap32 ppid) × (t.eor ≡ true)
spa_of-info channel c ppid =
    let s = plain_spa c ppid in
    let p = channel.parameters in
    let info : SndInfo = record (s.sendv_sndinfo) {
      unordered = is_unordered p.channel_type && c.can_send_unordered;
    } in
    let e = by_policy (policy p.channel_type) s info p.reliability_parameter in
    (
      ap (λ (t : SndInfo). t.snd_sid) e,
      ap (λ (t : SndInfo). t.snd_ppid) e,
      ap (λ (t : SndInfo). t.eor) e,
    )

pub if_not : (b : Bool) (p q r : Code × Transport) → b ≡ false → q ≡ r → (if b then p else q) ≡ r
if_not true p q r e f = absurd (cc)
if_not false p q r e f = f

-- The kind of a message, and its flags at the handler of the peer.
abbrev pub kind : Bool → Bool → ℕ
kind true true = ppid_binary_empty
kind false true = ppid_utf16_empty
kind true false = ppid_binary
kind false false = ppid_utf16

pub no_dcep : (is_binary is_empty : Bool) → (kind is_binary is_empty == ppid_dcep) ≡ false
no_dcep true true = refl
no_dcep true false = refl
no_dcep false true = refl
no_dcep false false = refl

module _ (lib : Libre) (sctp : Sctp) where
  pub send_on_once :
      (x : Transport) (h : ℕ) (c : Context) (b : Mbuf) (ppid : ℕ)
      → (x.heap h).transport_arg ≡ some c
      → (ppid == ppid_dcep) ≡ false
      → (is_connected x.state && is_empty x.buffered_messages_outgoing) ≡ true
      → 0 < length (left b)
      → length (left b) ≤ x.usrsctp_chunk_size
      → TakesAll sctp x.clock
      → send_on lib sctp x h b ppid ≡ (success, taken lib sctp x b (spa_of (x.heap h) c ppid))
  unfolding send_message
  send_on_once x h c b ppid e n on some_bytes fits takes =
      let s = spa_of (x.heap h) c ppid in
      rw (e, send_on)
        (if_not (ppid == ppid_dcep) _ _ _ n (
          sctp_send_once lib sctp x b s on (spa_of-info (x.heap h) c ppid).2 some_bytes fits takes))

  -- The helper message is one zero.
  pub helper_message :
      (t : ℕ) → HasMemory lib t → (b : Mbuf) × (empty_message lib t ≡ ok b) × (left b ≡ 0 ∷ [])
  unfolding empty_message
  helper_message t mem =
      let b : Mbuf = merged [] in
      (
        merged (0 ∷ []),
        rw
            (
              mem.alloc_ok 1,
              empty_message,
              lib.write_u8_law t b 0 refl (mem.write_u8_ok b 0),
              lib.error_to_code_zero,
              lib.set_pos_law (appended b (bytes_of 1 0)) 0 (omega arith),
            )
            refl,
        refl,
      )

  pub as_kind :
      (x : Transport) (h : ℕ) (b : Mbuf) (is_binary : Bool)
      → send_empty lib sctp x h is_binary (ok b) ≡ send_on lib sctp x h b (kind is_binary true)
  as_kind x h b true = refl
  as_kind x h b false = refl

  pub as_kind_data :
      (x : Transport) (h : ℕ) (b : Mbuf) (is_binary : Bool)
      → send_on lib sctp x h b (if is_binary then ppid_binary else ppid_utf16)
        ≡ send_on lib sctp x h b (kind is_binary false)
  as_kind_data x h b true = refl
  as_kind_data x h b false = refl
