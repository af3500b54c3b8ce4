-- ===== src/Transport/Receive/Delivery.antt =====
-- Application messages that arrive in chunks: `handle_application_message`.
use rawrtc_data_channel.Base.{
  update_here, ℕ, ◌≡◌, refl, ap, ◌∙◌, List, [], ◌∷◌, ◌++◌, append_assoc, append-nil, Bool, true,
  false, ◌||◌, Option, none, some,
}
use rawrtc_data_channel.Base.Code.{Code, success, no_value}
use rawrtc_data_channel.External.{Libre, Mbuf, left, HasMemory}
use rawrtc_data_channel.Channel.{Channel, Context, RcvInfo}
use rawrtc_data_channel.Transport.{Transport, Event, received, tick}
use rawrtc_data_channel.Transport.Reset.{set_context}
use rawrtc_data_channel.Transport.Receive.{
  is_complete_chunk, is_empty_ppid, is_string_ppid, is_binary_ppid, received_flags, after_buffering,
  buffer_message_received_raise_complete, application_message, handle_application_message,
}
use rawrtc_data_channel.Transport.Receive.Reassembly.{
  gathered, merged, buffer_message-more, buffer_message-last,
}

-- The channel at `h` in the slot `sid` gathers a message and passes messages to its handler:
-- `inbound` is its buffer, and `info` the information of the first chunk if there is one.
pub record Gathers (x : Transport) (sid h : ℕ) (inbound : Option Mbuf) (info : RcvInfo)
    (events : List Event) : Type 0 where
  pub context : Context
  pub slot : x.channels sid ≡ some h
  pub has_context : (x.heap h).transport_arg ≡ some context
  pub has_inbound : context.buffer_inbound ≡ inbound
  pub has_info : context.info_inbound ≡ info
  pub whole : (x.heap h).streamed ≡ false
  pub handled : (x.heap h).message_handler ≡ true
  pub raised : x.events ≡ events

-- a context is written, and nothing is passed on
pub set_context-Gathers :
    (x : Transport) (sid h : ℕ) (inbound inbound' : Option Mbuf) (info info' : RcvInfo)
    (events : List Event) (c : Context)
    → Gathers x sid h inbound info events
    → c.buffer_inbound ≡ inbound'
    → c.info_inbound ≡ info'
    → Gathers (set_context x h c) sid h inbound' info' events
set_context-Gathers x sid h inbound inbound' info info' events c g e f =
    let here = update_here x.heap h (record (x.heap h) { transport_arg = some c }) in
    record {
      context = c;
      slot = g.slot;
      has_context = ap (λ (k : Channel). k.transport_arg) here;
      has_inbound = e;
      has_info = f;
      whole = ap (λ (k : Channel). k.streamed) here ∙ g.whole;
      handled = ap (λ (k : Channel). k.message_handler) here ∙ g.handled;
      raised = g.raised;
    }

-- A kind of message that is handed on when it is complete, and not empty.
pub record IsPlain (info : RcvInfo) : Type 0 where
  pub known : is_string_ppid info.rcv_ppid || is_binary_ppid info.rcv_ppid ≡ true
  pub not_empty : is_empty_ppid info.rcv_ppid ≡ false
  pub not_partial : is_complete_chunk info.rcv_ppid true ≡ true

-- The bytes of chunks, in order.
abbrev pub content : List Mbuf → List ℕ
content [] = []
content (b ∷ l) = left b ++ content l

module _ (lib : Libre) where
  pub found :
      (x : Transport) (h : ℕ) (c : Context) (b : Mbuf) (info : RcvInfo) (eor : Bool)
      → x.channels info.rcv_sid ≡ some h
      → (x.heap h).transport_arg ≡ some c
      → handle_application_message lib x b info eor
        ≡ application_message lib x h (record c { can_send_unordered = true }) b info eor
  unfolding handle_application_message
  found x h c b info eor e p = rw (e, p, handle_application_message) refl

  buffered :
      (x : Transport) (h : ℕ) (c : Context) (b : Mbuf) (info : RcvInfo) (eor : Bool)
      → is_empty_ppid info.rcv_ppid ≡ false
      → (x.heap h).streamed ≡ false
      → application_message lib x h c b info eor
        ≡ after_buffering (tick x) h c (
            buffer_message_received_raise_complete lib x.clock c.buffer_inbound c.info_inbound b
              info eor)
  unfolding application_message
  buffered x h c b info eor e s = rw (e, s) refl

  -- the context that the first chunk leaves has the flag for unordered messages set
  abbrev pub negotiated : Context → Context
  negotiated c = record c { can_send_unordered = true }

  pub handled_as :
      (x : Transport) (h : ℕ) (inbound : Option Mbuf) (old info : RcvInfo) (events : List Event)
      (b : Mbuf) (eor : Bool) (g : Gathers x info.rcv_sid h inbound old events)
      (r : Code × Option Mbuf × RcvInfo)
      → is_empty_ppid info.rcv_ppid ≡ false
      → buffer_message_received_raise_complete lib x.clock inbound old b info eor ≡ r
      → handle_application_message lib x b info eor
        ≡ after_buffering (tick x) h (negotiated g.context) r
  handled_as x h inbound old info events b eor g r plain e =
      let c = negotiated g.context in
      found x h g.context b info eor g.slot g.has_context
      ∙ buffered x h c b info eor plain g.whole
      ∙ ap
          (λ (o : Option Mbuf). after_buffering (tick x) h c (
            buffer_message_received_raise_complete lib x.clock o g.context.info_inbound b info eor))
          g.has_inbound
      ∙ ap
          (λ (o : RcvInfo).
            after_buffering (tick x) h c
              (buffer_message_received_raise_complete lib x.clock inbound o b info eor))
          g.has_info
      ∙ ap (after_buffering (tick x) h c) e

  pub tick-Gathers :
      (x : Transport) (sid h : ℕ) (inbound : Option Mbuf) (info : RcvInfo) (events : List Event)
      → Gathers x sid h inbound info events
      → Gathers (tick x) sid h inbound info events
  tick-Gathers x sid h inbound info events g = record {
    context = g.context;
    slot = g.slot;
    has_context = g.has_context;
    has_inbound = g.has_inbound;
    has_info = g.has_info;
    whole = g.whole;
    handled = g.handled;
    raised = g.raised;
  }

  gather-Gathers :
      (x : Transport) (h : ℕ) (inbound : Option Mbuf) (old info info' : RcvInfo)
      (events : List Event) (b : Mbuf) (l : List ℕ)
      → Gathers x info.rcv_sid h inbound old events
      → is_empty_ppid info.rcv_ppid ≡ false
      → buffer_message_received_raise_complete lib x.clock inbound old b info false
        ≡ (no_value, some (gathered l), info')
      → Gathers
          (handle_application_message lib x b info false)
          info.rcv_sid
          h
          (some (gathered l))
          info'
          events
  gather-Gathers x h inbound old info info' events b l g plain e =
      rw (handled_as x h inbound old info events b false g _ plain e) (
        set_context-Gathers (tick x) info.rcv_sid h inbound (some (gathered l)) old info' events _
          (tick-Gathers x info.rcv_sid h inbound old events g) refl refl)

  pub delivered-Gathers :
      (x : Transport) (sid h : ℕ) (inbound : Option Mbuf) (old info : RcvInfo) (events : List Event)
      (c : Context) (l : List ℕ)
      → Gathers x sid h inbound old events
      → is_string_ppid info.rcv_ppid || is_binary_ppid info.rcv_ppid ≡ true
      → Gathers
          (after_buffering x h c (success, some (merged l), info))
          sid
          h
          none
          info
          (received h (some l) (received_flags info.rcv_ppid true) ∷ events)
  delivered-Gathers x sid h inbound old info events c l g known =
      let c' = record c {
        info_inbound = info;
        pending_inbound_message = false;
        buffer_inbound = none;
      } in
      let s = set_context-Gathers x sid h inbound none old info events c' g refl refl in
      rw (known, s.handled)
        (record {
          context = s.context;
          slot = s.slot;
          has_context = s.has_context;
          has_inbound = s.has_inbound;
          has_info = s.has_info;
          whole = s.whole;
          handled = s.handled;
          raised = ap (λ e. received h (some l) (received_flags info.rcv_ppid true) ∷ e) s.raised;
        })

  -- The handler called for chunks that are not the last one.
  abbrev pub receive_chunks : List Mbuf → RcvInfo → Transport → Transport
  receive_chunks [] info x = x
  receive_chunks (b ∷ l) info x =
      receive_chunks l info (handle_application_message lib x b info false)

  receive_chunks-Gathers :
      (mem : (t : ℕ) → HasMemory lib t) (chunks : List Mbuf) (x : Transport) (h : ℕ)
      (info : RcvInfo) (events : List Event) (l : List ℕ)
      → IsPlain info
      → Gathers x info.rcv_sid h (some (gathered l)) info events
      → Gathers
          (receive_chunks chunks info x)
          info.rcv_sid
          h
          (some (gathered (l ++ content chunks)))
          info
          events
  receive_chunks-Gathers mem [] x h info events l k g = rw (append-nil l) g
  receive_chunks-Gathers mem (b ∷ chunks) x h info events l k g =
      rw⁻¹ (append_assoc l (left b) (content chunks)) (
        receive_chunks-Gathers mem chunks (handle_application_message lib x b info false) h info
          events (l ++ left b) k
          (gather-Gathers x h _ info info info events b (l ++ left b) g k.not_empty
            (buffer_message-more lib x.clock (mem x.clock) l info info info b).1))

  -- A message that arrives in several chunks with the same receive information, of which only the
  -- last is marked as the end, on a registered channel that is not streamed and has a message
  -- handler, is passed to it once, with the last chunk, whole and in order, and marked as complete;
  -- and the channel is ready for the next message. There has to be memory, nothing is buffered
  -- before, and the payload is text or binary data that is neither empty nor deprecated-partial.
  pub chunks_delivered :
      (mem : (t : ℕ) → HasMemory lib t) (first last : Mbuf) (chunks : List Mbuf) (x : Transport)
      (h : ℕ) (old info : RcvInfo) (events : List Event)
      → IsPlain info
      → Gathers x info.rcv_sid h none old events
      → Gathers
          (handle_application_message lib (receive_chunks (first ∷ chunks) info x) last info true)
          info.rcv_sid
          h
          none
          info
          (received h
              (some ((left first ++ content chunks) ++ left last))
              (received_flags info.rcv_ppid true)
            ∷ events)
  chunks_delivered mem first last chunks x h old info events k g =
      let l = left first in
      let y = handle_application_message lib x first info false in
      let one =
        gather-Gathers x h none old info info events first l g k.not_empty
          (buffer_message-more lib x.clock (mem x.clock) [] old info info first).0 in
      let z = receive_chunks chunks info y in
      let all = receive_chunks-Gathers mem chunks y h info events l k one in
      rw
        (handled_as z h _ info info events last true all _ k.not_empty (
          buffer_message-last lib z.clock (mem z.clock) (l ++ content chunks) info info last
            k.not_partial))
        (delivered-Gathers (tick z) info.rcv_sid h _ info info events (negotiated all.context) _
          (tick-Gathers z info.rcv_sid h _ info events all) k.known)
