-- ===== src/Transport/Arrival.antt =====
-- A message from one application to the other: what is sent on a channel of one transport, as
-- usrsctp takes it, is what the handler of the peer's channel gets.
mod Tests
use rawrtc_data_channel.Base.{
  ℕ, zero, suc, ◌≡◌, refl, ap, ◌∙◌, sym, ◌≤◌, ◌<◌, List, [], ◌∷◌, Bool, true, false, if◌then◌else◌,
  length, ltb, ◌==◌, Option, some, none, ◌&&◌, ◌||◌, not, arith, Bool-cases, inl, inr,
}
use rawrtc_data_channel.Base.Code.{Code, success, ok, Result}
use rawrtc_data_channel.External.{Libre, HasMemory, Mbuf, left, swap32, appended, bytes_of}
use rawrtc_data_channel.External.Dtls.{Dtls}
use rawrtc_data_channel.Channel.{Channel, Context, RcvInfo, MessageFlags}
use rawrtc_data_channel.Parameters.{is_unordered}
use rawrtc_data_channel.Transport.{
  Transport, connected, Info, SndInfo, spa, Spa, Sctp, Sent, PrPolicy, pr_none, pr_rtx, pr_ttl,
  received, ppid_dcep, ppid_utf16, ppid_utf16_empty, ppid_binary, ppid_binary_empty,
}
use rawrtc_data_channel.Transport.Send.{
  send_info, set_eor, is_connected, is_empty, sctp_send, send_message, plain_spa, channel_spa,
  policy,
}
use rawrtc_data_channel.Transport.Send.Loop.{nil_of_no_length}
use rawrtc_data_channel.Transport.Send.Once.{TakesAll, taken, sctp_send_once}
use rawrtc_data_channel.Transport.Channels.{
  empty_message, send_on, send_empty, is_too_long, channel_send_handler,
}
use rawrtc_data_channel.Transport.Channels.Once.{
  spa_of, spa_of-info, if_not, kind, no_dcep, as_kind, as_kind_data, send_on_once, helper_message,
}
use rawrtc_data_channel.Transport.Receive.{data_receive_handler, received_flags}
use rawrtc_data_channel.Transport.Receive.Reassembly.{merged}
use rawrtc_data_channel.Transport.Receive.Delivery.{Gathers, IsPlain}
use rawrtc_data_channel.Transport.Receive.Whole.{whole_delivered, empty_delivered, data_received}

-- What the application passes: no buffer is an empty message.
abbrev pub text_of : Option Mbuf → List ℕ
text_of none = []
text_of (some b) = left b

abbrev pub arrived_flags : Bool → MessageFlags
arrived_flags is_binary = record {
  is_aborted = false;
  is_complete = true;
  is_string = not is_binary;
  is_binary = is_binary;
}

module _ (lib : Libre) (sctp : Sctp) where
  module _ (dtls : Dtls) (h' : ℕ) where
    -- What sending has done, and what the peer `p` raises when the piece that usrsctp has taken
    -- arrives there.
    pub record Arrives (x : Transport) (r : Code × Transport) (p : Transport) (sid h : ℕ)
        (l : List ℕ) (is_binary : Bool) : Type 0 where
      pub sent_well : r.0 ≡ success
      pub piece : Sent
      pub info : SndInfo
      pub on_wire : r.1.wire ≡ piece ∷ x.wire
      pub with_info : send_info piece.info ≡ some info
      pub on_stream : info.snd_sid ≡ sid
      pub ends : info.eor ≡ true
      pub raised :
          (data_receive_handler lib sctp dtls h' p
            (merged piece.bytes)
            (record { rcv_sid = info.snd_sid; rcv_ppid = info.snd_ppid })
            true).events
          ≡ received h (some l) (arrived_flags is_binary) ∷ p.events

    -- A piece that was taken with the information of a channel.
    carried :
        (x : Transport) (channel : Channel) (c : Context) (b : Mbuf) (ppid : ℕ)
        (r : Code × Transport) (p : Transport) (h : ℕ) (l : List ℕ) (is_binary : Bool)
        → r ≡ (success, taken lib sctp x b (spa_of channel c ppid))
        → (data_receive_handler lib sctp dtls h' p
            (merged (left b))
            (record { rcv_sid = c.sid; rcv_ppid = swap32 ppid })
            true).events
          ≡ received h (some l) (arrived_flags is_binary) ∷ p.events
        → Arrives x r p c.sid h l is_binary
    carried x channel c b ppid r p h l is_binary e a =
        let t = (spa_of channel c ppid).sendv_sndinfo in
        let i = spa_of-info channel c ppid in
        let arrive = λ (sid q : ℕ).
          (data_receive_handler lib sctp dtls h' p (merged (left b))
            (record { rcv_sid = sid; rcv_ppid = q }) true).events in
        record {
          sent_well = ap (λ q. q.0) e;
          piece = record { bytes = left b; info = set_eor true (spa (spa_of channel c ppid)) };
          info = record t { eor = true };
          on_wire = ap (λ q. q.1.wire) e;
          with_info = refl;
          on_stream = i.0;
          ends = refl;
          raised = ap (λ sid. arrive sid t.snd_ppid) i.0 ∙ (ap (λ q. arrive c.sid q) i.1 ∙ a);
        }

    kind_arrives :
        (p : Transport) (sid h : ℕ) (old : RcvInfo) (l : List ℕ) (is_binary : Bool)
        → Gathers p sid h none old p.events
        → (data_receive_handler lib sctp dtls h' p
            (merged l)
            (record { rcv_sid = sid; rcv_ppid = swap32 (kind is_binary false) })
            true).events
          ≡ received h (some l) (arrived_flags is_binary) ∷ p.events
    kind_arrives p sid h old l true g =
        ap (λ (y : Transport). y.events)
          (data_received lib sctp dtls h' p (merged l) sid ppid_binary (swap32 ppid_binary) refl
            refl)
        ∙ (whole_delivered lib p h old (record { rcv_sid = sid; rcv_ppid = ppid_binary }) p.events l
            (record { known = refl; not_empty = refl; not_partial = refl }) g).raised
    kind_arrives p sid h old l false g =
        ap (λ (y : Transport). y.events)
          (data_received lib sctp dtls h' p (merged l) sid ppid_utf16 (swap32 ppid_utf16) refl refl)
        ∙ (whole_delivered lib p h old (record { rcv_sid = sid; rcv_ppid = ppid_utf16 }) p.events l
            (record { known = refl; not_empty = refl; not_partial = refl }) g).raised

    empty_arrives :
        (p : Transport) (sid h : ℕ) (old : RcvInfo) (l : List ℕ) (is_binary : Bool)
        → Gathers p sid h none old p.events
        → (data_receive_handler lib sctp dtls h' p
            (merged l)
            (record { rcv_sid = sid; rcv_ppid = swap32 (kind is_binary true) })
            true).events
          ≡ received h (some []) (arrived_flags is_binary) ∷ p.events
    empty_arrives p sid h old l true g =
        ap (λ (y : Transport). y.events)
          (data_received lib sctp dtls h' p (merged l) sid ppid_binary_empty
            (swap32 ppid_binary_empty) refl refl)
        ∙ empty_delivered lib p h old (record { rcv_sid = sid; rcv_ppid = ppid_binary_empty })
            p.events (merged l) refl refl g
    empty_arrives p sid h old l false g =
        ap (λ (y : Transport). y.events)
          (data_received lib sctp dtls h' p (merged l) sid ppid_utf16_empty
            (swap32 ppid_utf16_empty) refl refl)
        ∙ empty_delivered lib p h old (record { rcv_sid = sid; rcv_ppid = ppid_utf16_empty })
            p.events (merged l) refl refl g

    empty_sent :
        (x p : Transport) (h g : ℕ) (c : Context) (old : RcvInfo) (is_binary : Bool)
        → (x.heap h).transport_arg ≡ some c
        → (is_connected x.state && is_empty x.buffered_messages_outgoing) ≡ true
        → 0 < x.usrsctp_chunk_size
        → TakesAll sctp x.clock
        → HasMemory lib x.clock
        → Gathers p c.sid g none old p.events
        → Arrives x
            (send_empty lib sctp x h is_binary (empty_message lib x.clock))
            p
            c.sid
            g
            []
            is_binary
    empty_sent x p h g c old is_binary e on fits takes mem k =
        let (m, f, one) = helper_message lib sctp x.clock mem in
        let n = kind is_binary true in
        carried x (x.heap h) c m n (send_empty lib sctp x h is_binary (empty_message lib x.clock)) p
          g [] is_binary
          (ap (λ r. send_empty lib sctp x h is_binary r) f
            ∙ (as_kind lib sctp x h m is_binary
                ∙ send_on_once lib sctp x h c m n e (no_dcep is_binary true) on
                    (omega (arith, ap length one)) (omega (arith, ap length one)) takes))
          (empty_arrives p c.sid g old (left m) is_binary k)

    -- The send handler of a channel with a context succeeds when the transport is connected and
    -- has nothing queued, the message fits in one chunk and in the remote maximum, usrsctp takes
    -- all bytes that it is given and memory does not fail. The wire grows by one piece, which has
    -- the channel's stream and the EOR flag. When that piece arrives at a peer whose channel in
    -- the slot of that stream is not streamed, gathers no message and has a message handler, the
    -- peer raises one message of exactly the bytes that were passed, complete, and binary or text
    -- as it was sent. An empty message and a call without a buffer arrive as an empty message.
    pub send_handler-Arrives :
        (x p : Transport) (h g : ℕ) (c : Context) (old : RcvInfo) (b : Option Mbuf)
        (is_binary : Bool)
        → (x.heap h).transport_arg ≡ some c
        → (is_connected x.state && is_empty x.buffered_messages_outgoing) ≡ true
        → 0 < x.usrsctp_chunk_size
        → length (text_of b) ≤ x.usrsctp_chunk_size
        → is_too_long lib sctp x (length (text_of b)) ≡ false
        → TakesAll sctp x.clock
        → HasMemory lib x.clock
        → Gathers p c.sid g none old p.events
        → Arrives x (channel_send_handler lib sctp x h b is_binary) p c.sid g (text_of b) is_binary
    unfolding channel_send_handler
    send_handler-Arrives x p h g c old none is_binary e on room fits short takes mem k =
        empty_sent x p h g c old is_binary e on room takes mem k
    send_handler-Arrives x p h g c old (some b) is_binary e on room fits short takes mem k =
        let n = kind is_binary false in
        elim (Bool-cases (lib.get_left b == 0)) [
          | inl nothing ↦
              let empty : left b ≡ [] =
                nil_of_no_length (left b) (ground (arith, lib.get_left_law b)) in
              rw (nothing, empty) (empty_sent x p h g c old is_binary e on room takes mem k)
          | inr some_bytes ↦
              let fitting : is_too_long lib sctp x (lib.get_left b) ≡ false =
                ap (λ l. is_too_long lib sctp x l) (lib.get_left_law b) ∙ short in
              carried x (x.heap h) c b n (channel_send_handler lib sctp x h (some b) is_binary) p g
                (left b) is_binary
                (if_not (lib.get_left b == 0) _ _ _ some_bytes (
                  if_not (is_too_long lib sctp x (lib.get_left b)) _ _ _ fitting (
                    as_kind_data lib sctp x h b is_binary
                    ∙ send_on_once lib sctp x h c b n e (no_dcep is_binary false) on
                        (ground (arith, lib.get_left_law b)) fits takes)))
                (kind_arrives p c.sid g old (left b) is_binary k)
        ]
