-- ===== src/Transport/Send.antt =====
-- Sending: `sctp_transport_send`, `sctp_send_deferred_message`, `sctp_send_deferred_messages`,
-- `message_send_context_create`, `sctp_send` and `send_message` of src/sctp_transport/transport.c.
pub mod Loop
pub mod Fuel
pub mod Stream
pub mod Deferred
pub mod Frame
pub mod Life
pub mod Once
use rawrtc_data_channel.Base.{
  ℕ, zero, suc, List, [], ◌∷◌, Bool, true, false, ◌&&◌, Option, none, some, if◌then◌else◌, ltb,
  ◌==◌, length, take,
}
use rawrtc_data_channel.Base.Code.{
  Code, success, invalid_state, invalid_argument, no_memory, try_again_later, unknown_error, Result,
  ok, err,
}
use rawrtc_data_channel.External.{Libre, Mbuf, left, swap32}
use rawrtc_data_channel.Parameters.{
  ChannelType, is_unordered, unreliable_ordered_retransmit, unreliable_unordered_retransmit,
  unreliable_ordered_timed, unreliable_unordered_timed,
}
use rawrtc_data_channel.Channel.{Channel, Context}
use rawrtc_data_channel.Transport.{
  Transport, TransportState, connected, Info, noinfo, sndinfo, spa, other_info, SndInfo, Spa,
  PrPolicy, pr_none, pr_rtx, pr_ttl, Message, Sctp, Written, written, failed, tick, ppid_dcep,
}

-- Get reference to send flags.
abbrev pub send_info : Info → Option SndInfo
send_info (sndinfo s) = some s
send_info (spa s) = some s.sendv_sndinfo
send_info noinfo = none
send_info (other_info k) = none

-- The write of SCTP_EOR through that reference.
abbrev pub set_eor : Bool → Info → Info
set_eor b (sndinfo s) = sndinfo (record s { eor = b })
set_eor b (spa s) = spa (record s { sendv_sndinfo = record (s.sendv_sndinfo) { eor = b } })
set_eor b noinfo = noinfo
set_eor b (other_info k) = other_info k

abbrev pub is_connected : TransportState → Bool
is_connected connected = true
is_connected _ = false

abbrev pub is_empty : List Message → Bool
is_empty [] = true
is_empty _ = false

-- `usrsctp_sendv` wrote `n` of the bytes.
abbrev pub record_sent : Transport → List ℕ → ℕ → Info → Transport
record_sent x bytes n info = record x {
  wire = record { bytes = take n bytes; info = info } ∷ x.wire;
}

-- Stop iterating through the message queue, or continue.
abbrev pub deferred_result : Message → Code × Mbuf × Info × Transport → Bool × Message × Transport
deferred_result m (try_again_later, b, info, x) = (false, record m { buffer = b; info = info }, x)
deferred_result m (_, b, info, x) = (true, record m { buffer = b; info = info }, x)

-- Partial reliability policy.
abbrev pub policy : ChannelType → PrPolicy
policy unreliable_ordered_retransmit = pr_rtx
policy unreliable_unordered_retransmit = pr_rtx
policy unreliable_ordered_timed = pr_ttl
policy unreliable_unordered_timed = pr_ttl
policy _ = pr_none

abbrev pub plain_spa : Context → ℕ → Spa
plain_spa context ppid = record {
  sndinfo_valid = true;
  prinfo_valid = false;
  sendv_sndinfo = record {
    snd_sid = context.sid;
    eor = true;
    unordered = false;
    snd_ppid = swap32 ppid;
  };
  pr_policy = pr_none;
  pr_value = 0;
}

-- Set ordered/unordered and partial reliability policy.
abbrev pub channel_spa : Channel → Context → Spa → Spa
channel_spa channel context s =
    let p = channel.parameters in
    let info = record (s.sendv_sndinfo) {
      unordered = is_unordered p.channel_type && context.can_send_unordered;
    } in
    elim (policy p.channel_type) [
      | pr_none ↦ record s { sendv_sndinfo = info }
      | pol ↦ record s {
        sendv_sndinfo = info;
        prinfo_valid = true;
        pr_policy = pol;
        pr_value = p.reliability_parameter;
      }
    ]

module _ (lib : Libre) (sctp : Sctp) where
  -- The next chunk: its length, and the information with the EOR flag as it goes out.
  abbrev pub chunk_length : Transport → Mbuf → ℕ
  chunk_length x b =
      if ltb x.usrsctp_chunk_size (lib.get_left b) then x.usrsctp_chunk_size else lib.get_left b

  abbrev pub chunk_info : Transport → Mbuf → Bool → Info → Info
  chunk_info x b eor_set info =
      if ltb x.usrsctp_chunk_size (lib.get_left b)
      then set_eor false info
      else if eor_set
      then set_eor true info
      else info

  -- One answer of `usrsctp_sendv`, given what the next round would return.
  abbrev pub after_sendv :
      Transport
      → Mbuf
      → Info
      → (Mbuf → Transport → Code × Mbuf × Info × Transport)
      → Written
      → Code × Mbuf × Info × Transport
  after_sendv x b info next_round (failed errno) = (lib.error_to_code errno, b, info, tick x)
  after_sendv x b info next_round (written n) =
      let b' = lib.advance b n in
      let x' = record_sent (tick x) (take (chunk_length x b) (left b)) n info in
      let rest = next_round b' x' in
      if n == 0
      then (try_again_later, b, info, tick x)
      else if ltb 0 (lib.get_left b')
      then rest
      else (success, b', info, x')

  -- Send until buffer is empty. The result is the code, and the buffer, the information and the
  -- transport as they are left.
  unfoldable pub send_loop : ℕ → Transport → Mbuf → Info → Bool → ℕ → Code × Mbuf × Info × Transport
  send_loop zero x b info eor_set flags = (unknown_error, b, info, x)
  send_loop (suc fuel) x b info eor_set flags =
      let info' = chunk_info x b eor_set info in
      let next_round = λ (b' : Mbuf) (x' : Transport). send_loop fuel x' b' info' eor_set flags in
      after_sendv x b info' next_round
        (sctp.sendv x.clock (take (chunk_length x b) (left b)) info' flags)

  -- Reset EOR flag.
  abbrev pub restore_eor : Bool → Code × Mbuf × Info × Transport → Code × Mbuf × Info × Transport
  restore_eor eor_set (code, b, info, x) = (code, b, if eor_set then set_eor true info else info, x)

  -- Each round but the last sends at least one byte, so the length of the buffer and one more round
  -- are enough fuel.
  unfoldable pub sctp_transport_send : Transport → Mbuf → Info → ℕ → Code × Mbuf × Info × Transport
  unfolding send_loop
  sctp_transport_send x b info flags =
      if is_connected x.state
      then elim (send_info info) [
        | none ↦ (invalid_state, b, info, x)
        | some s ↦ restore_eor s.eor (send_loop (suc (length (left b))) x b info s.eor flags)
      ]
      else (invalid_state, b, info, x)

  -- Whether iterating goes on, and the message as it is left. A message that fails with anything
  -- but `try_again_later` is dropped with a warning.
  unfoldable pub sctp_send_deferred_message : Message → Transport → Bool × Message × Transport
  sctp_send_deferred_message m x = elim (send_info m.info) [
    | none ↦ (true, m, x)
    | some _ ↦ deferred_result m (sctp_transport_send x m.buffer m.info m.flags)
  ]

  unfoldable pub sctp_send_deferred_messages : Transport → Code × Transport
  unfolding sctp_send_deferred_message
  sctp_send_deferred_messages x =
      let (code, queue, x') =
        sctp.clear sctp_send_deferred_message x.buffered_messages_outgoing x in
      (code, record x' { buffered_messages_outgoing = queue })

  -- The copy of the information that is kept with a buffered message.
  unfoldable pub message_send_context_create : ℕ → Info → Result Info
  message_send_context_create t info = elim (lib.zalloc t) [
    | none ↦ err no_memory
    | some _ ↦ elim info [ other_info k ↦ err invalid_state | i ↦ ok i ]
  ]

  -- Buffer message, if there is a message context.
  append_message : Transport → Mbuf → ℕ → Result Info → Code × Transport
  append_message x b flags (err e) = (e, tick x)
  append_message x b flags (ok info) =
      let m : Message = record { buffer = b; info = info; flags = flags } in
      let (code, queue) = sctp.append x.clock x.buffered_messages_outgoing m in
      (code, record (tick x) { buffered_messages_outgoing = queue })

  -- Create message context (for buffering), and buffer message.
  buffer_message : Transport → Mbuf → Info → ℕ → Code × Transport
  unfolding message_send_context_create append_message
  buffer_message x b info flags =
      append_message x b flags (message_send_context_create x.clock info)

  unfoldable pub sctp_send : Transport → Mbuf → Info → ℕ → Code × Transport
  unfolding sctp_transport_send buffer_message
  sctp_send y b info flags =
      let x = record y { is_buffered_amount_low = false } in
      if is_connected x.state && is_empty x.buffered_messages_outgoing
      then (let (code, b', info', x') = sctp_transport_send x b info flags in
          elim code [ try_again_later ↦ buffer_message x' b' info' flags | c ↦ (c, x') ])
      else buffer_message x b info flags

  unfoldable pub send_message : Transport → Option Channel → Context → Mbuf → ℕ → Code × Transport
  unfolding sctp_send
  send_message x channel context b ppid =
      let s = plain_spa context ppid in
      if ppid == ppid_dcep then sctp_send x b (spa s) 0 else elim channel [
        | none ↦ (invalid_argument, x)
        | some c ↦ sctp_send x b (spa (channel_spa c context s)) 0
      ]
