-- ===== src/Transport/Receive/Whole.antt =====
-- A message that arrives in one piece.
use rawrtc_data_channel.Base.{
  if_false, ℕ, ◌≡◌, refl, ap, ◌∙◌, List, [], ◌∷◌, ◌||◌, true, false, none, some, length, drop_all,
  ◌==◌, arith,
}
use rawrtc_data_channel.Base.Code.{success}
use rawrtc_data_channel.External.{Libre, Mbuf, left, swap32}
use rawrtc_data_channel.External.Dtls.{Dtls}
use rawrtc_data_channel.Channel.{Context, RcvInfo}
use rawrtc_data_channel.Transport.{Transport, Sctp, Event, received, tick, ppid_dcep}
use rawrtc_data_channel.Transport.Receive.{
  is_complete_chunk, is_empty_ppid, is_string_ppid, is_binary_ppid, received_flags,
  buffer_message_received_raise_complete, application_message, handle_application_message, deliver,
  data_receive_handler,
}
use rawrtc_data_channel.Transport.Receive.Reassembly.{merged}
use rawrtc_data_channel.Transport.Receive.Delivery.{
  Gathers, IsPlain, found, handled_as, tick-Gathers, delivered-Gathers, negotiated,
  set_context-Gathers,
}

module _ (lib : Libre) where
  pub complete_at_once :
      (t : ℕ) (old info : RcvInfo) (b : Mbuf)
      → is_complete_chunk info.rcv_ppid true ≡ true
      → buffer_message_received_raise_complete lib t none old b info true ≡ (success, some b, info)
  unfolding buffer_message_received_raise_complete
  complete_at_once t old info b e = rw e refl

  pub whole_delivered :
      (x : Transport) (h : ℕ) (old info : RcvInfo) (events : List Event) (l : List ℕ)
      → IsPlain info
      → Gathers x info.rcv_sid h none old events
      → Gathers
          (handle_application_message lib x (merged l) info true)
          info.rcv_sid
          h
          none
          info
          (received h (some l) (received_flags info.rcv_ppid true) ∷ events)
  whole_delivered x h old info events l k g =
      rw
        (handled_as lib x h none old info events (merged l) true g _ k.not_empty
          (complete_at_once x.clock old info (merged l) k.not_partial))
        (delivered-Gathers lib (tick x) info.rcv_sid h none old info events
          (negotiated lib g.context) l (tick-Gathers lib x info.rcv_sid h none old events g)
          k.known)

  emptied :
      (x : Transport) (h : ℕ) (c : Context) (b : Mbuf) (info : RcvInfo)
      → is_empty_ppid info.rcv_ppid ≡ true
      → application_message lib x h c b info true
        ≡ deliver x h
            (record c { pending_inbound_message = false })
            (lib.skip_to_end b)
            info.rcv_ppid
            true
  unfolding application_message
  emptied x h c b info e = rw e refl

  skipped : (b : Mbuf) → left (lib.skip_to_end b) ≡ []
  skipped b = ap left (lib.skip_to_end_law b) ∙ drop_all (length b.buf) b.buf (omega arith)

  pub empty_delivered :
      (x : Transport) (h : ℕ) (old info : RcvInfo) (events : List Event) (b : Mbuf)
      → is_empty_ppid info.rcv_ppid ≡ true
      → is_string_ppid info.rcv_ppid || is_binary_ppid info.rcv_ppid ≡ true
      → Gathers x info.rcv_sid h none old events
      → (handle_application_message lib x b info true).events
        ≡ received h (some []) (received_flags info.rcv_ppid true) ∷ events
  empty_delivered x h old info events b e known g =
      let c = record (negotiated lib g.context) {
        pending_inbound_message = false;
        buffer_inbound = none;
      } in
      let s = set_context-Gathers x info.rcv_sid h none none old old events c g refl g.has_info in
      rw
        (
          found lib x h g.context b info true g.slot g.has_context,
          emptied x h (negotiated lib g.context) b info e,
        )
        (rw (known, s.handled, skipped b)
          (ap (λ l. received h (some []) (received_flags info.rcv_ppid true) ∷ l) s.raised))

  -- Data goes to the handler of application messages, with its PPID in the byte order of the host.
  pub data_received :
      (sctp : Sctp) (dtls : Dtls) (h' : ℕ) (x : Transport) (b : Mbuf) (sid ppid wire_ppid : ℕ)
      → swap32 wire_ppid ≡ ppid
      → (ppid == ppid_dcep) ≡ false
      → data_receive_handler lib sctp dtls h' x b
          (record { rcv_sid = sid; rcv_ppid = wire_ppid })
          true
        ≡ handle_application_message lib x b (record { rcv_sid = sid; rcv_ppid = ppid }) true
  unfolding data_receive_handler
  data_received sctp dtls h' x b sid ppid wire_ppid e n = rw e (if_false (ppid == ppid_dcep) _ _ n)
