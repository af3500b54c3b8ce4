-- ===== src/Transport/Host.antt =====
-- A usrsctp that takes five bytes a call and is full at every fourth moment, and a message buffer
-- that is a list: the laws of `Sctp` can be met, and tests can run.
use rawrtc_data_channel.Base.{
  ℕ, ◌%◌, ◌≡◌, refl, ◌≤◌, ◌<◌, List, [], ◌∷◌, ◌++◌, Bool, true, false, none, some, length, arith,
  if◌then◌else◌, ◌==◌, ltb, ==_iff,
}
use rawrtc_data_channel.Base.Code.{Code, success, stop_iteration, is_error}
use rawrtc_data_channel.External.Dtls.{Dtls, DtlsRole, dtls_connected}
use rawrtc_data_channel.Parameters.{Parameters, reliable_ordered}
use rawrtc_data_channel.Channel.{Channel, ChannelState, Context, Handlers, channel_object}
use rawrtc_data_channel.Transport.Registry.{WellFormed}
use rawrtc_data_channel.Transport.{
  Transport, TransportState, Info, Message, Sctp, Written, written, failed,
}

abbrev pub clear :
    (Message → Transport → Bool × Message × Transport)
    → List Message
    → Transport
    → Code × List Message × Transport
clear handler [] x = (success, [], x)
clear handler (m ∷ l) x =
    let r = handler m x in
    let rest = clear handler l r.2 in if r.0 then rest else (stop_iteration, r.1 ∷ l, r.2)

abbrev pub sendv : ℕ → List ℕ → Info → ℕ → Written
sendv t bytes info flags =
    if t % 4 == 3 then failed 11 else written (if ltb 5 (length bytes) then 5 else length bytes)

written-inj : {m n : ℕ} → written m ≡ written n → m ≡ n
written-inj h = cc

failed-inj : {m n : ℕ} → failed m ≡ failed n → m ≡ n
failed-inj h = cc

pub sendv-le :
    (t : ℕ) (bytes : List ℕ) (info : Info) (flags n : ℕ)
    → sendv t bytes info flags ≡ written n
    → n ≤ length bytes
sendv-le t bytes info flags n h = ground arith

pub sendv-pos :
    (t : ℕ) (bytes : List ℕ) (info : Info) (flags e : ℕ)
    → sendv t bytes info flags ≡ failed e
    → 0 < e
sendv-pos t bytes info flags e h = ground arith

pub clear-continue :
    (handler : Message → Transport → Bool × Message × Transport) (m : Message) (l : List Message)
    (x : Transport)
    → (handler m x).0 ≡ true
    → clear handler (m ∷ l) x ≡ clear handler l (handler m x).2
clear-continue handler m l x h = rw h refl

pub clear-stop :
    (handler : Message → Transport → Bool × Message × Transport) (m : Message) (l : List Message)
    (x : Transport)
    → (handler m x).0 ≡ false
    → clear handler (m ∷ l) x ≡ (stop_iteration, (handler m x).1 ∷ l, (handler m x).2)
clear-stop handler m l x h = rw h refl

pub append-err : {l r : List Message} → is_error success ≡ true → r ≡ l
append-err h = absurd (cc)

pub none-pos : {e : ℕ} → none ≡ some e → 0 < e
none-pos h = absurd (cc)

abbrev pub usrsctp : Sctp
usrsctp = record {
  sendv = sendv;
  sendv_law = sendv-le;
  sendv_errno = sendv-pos;
  setsockopt = λ t. none;
  setsockopt_errno = λ t e h. none-pos h;
  connect = λ t. none;
  connect_errno = λ t e h. none-pos h;
  append = λ t l m. (success, l ++ m ∷ []);
  append_ok = λ t l m h. refl;
  append_err = λ t l m h. append-err h;
  clear = clear;
  clear_nil = λ handler x. refl;
  clear_continue = clear-continue;
  clear_stop = clear-stop;
}

-- The getters of a DTLS transport that is connected, in a role.
abbrev pub dtls_of : DtlsRole → Dtls
dtls_of role = record {
  state_getter = λ t. (success, dtls_connected);
  role_getter = λ t. (success, role);
}

abbrev pub default_parameters : Parameters
default_parameters = record {
  label = none;
  channel_type = reliable_ordered;
  reliability_parameter = 0;
  protocol = none;
  negotiated = false;
  id = 0;
}

abbrev pub context_of : ℕ → Context
context_of i = record {
  sid = i;
  can_send_unordered = true;
  pending_inbound_message = false;
  pending_stream_reset = false;
  buffer_inbound = none;
  info_inbound = record { rcv_sid = 0; rcv_ppid = 0 };
}

abbrev pub all_handlers : Handlers
all_handlers = record {
  on_open = true;
  on_buffered_amount_low = true;
  on_error = true;
  on_close = true;
  on_message = true;
}

-- The channel at the address `h` has the stream `h`.
abbrev pub channel_at : ChannelState → ℕ → Channel
channel_at s h = record (channel_object default_parameters all_handlers) {
  state = s;
  transport_arg = some (context_of h);
}

-- A transport with four slots, the channel at the address 2 in the slot 2.
abbrev pub transport_in : TransportState → ChannelState → Transport
transport_in s c = record {
  initialized = true;
  is_detached = false;
  sending_in_progress = false;
  is_buffered_amount_low = false;
  state = s;
  port = 5000;
  remote_port = some 5000;
  remote_maximum_message_size = 0;
  has_detach_handler = true;
  has_destroyed_handler = true;
  has_data_channel_handler = true;
  has_state_change_handler = true;
  buffered_messages_outgoing = [];
  buffer_dcep_inbound = none;
  info_dcep_inbound = record { rcv_sid = 0; rcv_ppid = 0 };
  channels = λ i. if i == 2 then some 2 else none;
  n_channels = 4;
  current_channel_sid = 0;
  has_trace_handle = true;
  has_socket = true;
  usrsctp_chunk_size = 8;
  heap = channel_at c;
  clock = 0;
  wire = [];
  resets = [];
  events = [];
}

pub registered : (s : TransportState) (c : ChannelState) → WellFormed (transport_in s c)
registered s c = record {
  sid_ok = λ i h e. ground (arith, ==_iff i 2);
  in_range = λ i le. ground arith;
}

pub whole-le : (bytes : List ℕ) (n : ℕ) → written (length bytes) ≡ written n → n ≤ length bytes
whole-le bytes n h = ground arith

pub whole-pos : (n e : ℕ) → written n ≡ failed e → 0 < e
whole-pos n e h = absurd (cc)

-- A usrsctp that always takes everything.
abbrev pub spacious : Sctp
spacious = record usrsctp {
  sendv = λ t bytes info flags. written (length bytes);
  sendv_law = λ t bytes info flags n h. whole-le bytes n h;
  sendv_errno = λ t bytes info flags e h. whole-pos (length bytes) e h;
}
