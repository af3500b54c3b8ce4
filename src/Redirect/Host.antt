-- ===== src/Redirect/Host.antt =====
-- A raw socket that has received one packet, and takes what it is sent: the laws of `Net` can be met,
-- and tests can run.
use rawrtc_data_channel.Base.{
  ℕ, ◌≤◌, ◌≡◌, List, [], ◌∷◌, ◌++◌, Bool, true, false, Option, none, some, length, ◌==◌, arith,
}
use rawrtc_data_channel.External.{AllBytes, Mbuf, Libre}
use rawrtc_data_channel.External.Host.{host}
use rawrtc_data_channel.External.Dtls.{TransportContext}
use rawrtc_data_channel.Redirect.{RedirectTransport, RedirectState, Net, Answer, answered, received}
use rawrtc_data_channel.Redirect.Packet.{packet}

-- An address of libre: is it set, its number and its port?
pub record Address : Type 0 where
  pub is_set : Bool
  pub number : ℕ
  pub port : ℕ

abbrev pub peer_address : Address
peer_address = record { is_set = true; number = 7; port = 6000 }

-- 20 bytes of IPv4 header without options, the first of which is 0x45.
abbrev pub ipv4_options : List ℕ
ipv4_options = 0 ∷ 0 ∷ 40 ∷ 0 ∷ 0 ∷ 0 ∷ 0 ∷ 64 ∷ 132 ∷ 0 ∷ 0 ∷ 10 ∷ 0 ∷ 0 ∷ 1 ∷ 10 ∷ 0 ∷ 0 ∷ 2 ∷ []

-- A verification tag, a checksum that is wrong, and a chunk.
abbrev pub some_body : List ℕ
some_body = 1 ∷ 2 ∷ 3 ∷ 4 ∷ 9 ∷ 9 ∷ 9 ∷ 9 ∷ 14 ∷ 0 ∷ 0 ∷ 4 ∷ []

pub some_body-bytes : AllBytes some_body
some_body-bytes = (
  omega arith,
  (
    omega arith,
    (
      omega arith,
      (
        omega arith,
        (
          omega arith,
          (
            omega arith,
            (
              omega arith,
              (omega arith, (omega arith, (omega arith, (omega arith, (omega arith, tt))))),
            ),
          ),
        ),
      ),
    ),
  ),
)

abbrev pub sendto : ℕ → Option ℕ → List ℕ → Address → Answer
sendto t fd p to = answered (length p)

answered-inj : {m n : ℕ} → answered m ≡ answered n → m ≡ n
answered-inj h = cc

pub sendto-le :
    (t : ℕ) (fd : Option ℕ) (p : List ℕ) (to : Address) (n : ℕ)
    → sendto t fd p to ≡ answered n
    → n ≤ length p
sendto-le t fd p to n h = omega (arith, answered-inj h)

abbrev pub raw_net : Net Address Address
raw_net = record {
  socket = λ t. answered 3;
  set_non_blocking = λ t fd. 0;
  fd_listen = λ t fd. 0;
  recvfrom = λ t fd b. received ((69 ∷ ipv4_options) ++ packet 6000 5000 some_body) peer_address;
  sendto = sendto;
  sendto_law = sendto-le;
  sa_set_str = λ text port. (0, record { is_set = true; number = 7; port = port });
  sa_set_sa = λ addr. (0, addr);
  sa_is_inet = λ addr. true;
  sa_isset = λ addr. addr.is_set;
  sa_cmp = λ a b. a.number == b.number;
  sa_port = λ addr. addr.port;
}

abbrev pub full_context : TransportContext
full_context = record {
  has_role_getter = true;
  has_state_getter = true;
  has_outbound_handler = true;
  has_detach_handler = true;
  has_destroyed_handler = true;
  trace_packets = false;
}

abbrev pub redirect_in : RedirectState → Bool → RedirectTransport Address
redirect_in s is_detached = record {
  initialized = true;
  is_detached = is_detached;
  state = s;
  local_port = 5000;
  remote_port = 5001;
  redirect_address = peer_address;
  context = full_context;
  has_state_change_handler = true;
  buffer = record { buf = []; pos = 0 };
  socket = some 3;
  clock = 0;
  events = [];
}

pub none-alloc : {b c : Mbuf} → none ≡ some b → b ≡ c
none-alloc h = absurd (cc)

-- A libre that has memory for the transport and none for its buffer.
abbrev pub no_buffers : Libre
no_buffers = record host { alloc = λ t n. none; alloc_law = λ t n h. none-alloc h }
