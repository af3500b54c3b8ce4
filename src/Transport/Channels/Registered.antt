-- ===== src/Transport/Channels/Registered.antt =====
-- Creating a channel and the registry.
use rawrtc_data_channel.Base.{
  ℕ, ◌≡◌, ◌≢◌, refl, sym, ap, ◌∙◌, ◌<◌, inl, inr, Bool, true, false, not, ◌||◌, Option, none, some,
  if◌then◌else◌, ltb, leb, ◌==◌, arith, Bool-cases, Option-cases, ==_iff,
}
use rawrtc_data_channel.Base.Code.{
  Code, is_error, Result, ok, err, Result-cases, insufficient_space, invalid_state, external_error,
}
use rawrtc_data_channel.External.{Libre}
use rawrtc_data_channel.External.Dtls.{Dtls, DtlsRole}
use rawrtc_data_channel.Parameters.{Parameters}
use rawrtc_data_channel.Channel.{Context, opened}
use rawrtc_data_channel.Dcep.{data_channel_open_message_create}
use rawrtc_data_channel.Transport.{Transport, Sctp, tick, ppid_dcep, sid_max}
use rawrtc_data_channel.Transport.Send.{is_connected}
use rawrtc_data_channel.Transport.Send.Frame.{sent, send_message_frame}
use rawrtc_data_channel.Transport.State.{channel_set_state}
use rawrtc_data_channel.Transport.State.Closing.{channel_set_state-Shrinks}
use rawrtc_data_channel.Transport.Registry.{
  WellFormed, Shrinks, Shrinks-refl, Shrinks-trans, Shrinks-same, Shrinks-WellFormed,
}
use rawrtc_data_channel.Transport.Channels.{
  is_free, fill_slot, call_channel_handler, channel_register, find_free_sid, channel_context_create,
  channel_create_negotiated, after_open, send_open, open_on, open_with_role, channel_create_inband,
  register_created, channel_create_handler, first_of_role, is_dtls_connected,
}
use rawrtc_data_channel.Transport.Channels.Sids.{find_free_sid_least}

-- What creating a context leaves: a context has a free slot, and only sending has happened.
record Opens (x : Transport) (r : Result Context × Transport) : Type 0 where
  fits : (c : Context) → r.0 ≡ ok c → (c.sid < x.n_channels) × (x.channels c.sid ≡ none)
  frame : r.1 ≡ sent x r.1

fails : (x y : Transport) (e : Code) → y ≡ sent x y → Opens x (err e, y)
fails x y e f = record { fits = λ c p. absurd (cc); frame = f }

-- a channel that is not registered takes a free slot
pub fill_slot-WellFormed :
    (x : Transport) (h : ℕ) (c : Context)
    → WellFormed x
    → c.sid < x.n_channels
    → ((i : ℕ) → x.channels i ≢ some h)
    → WellFormed (fill_slot x h c)
fill_slot-WellFormed x h c w lt fresh = record {
  sid_ok = λ i g e. elim (Bool-cases (i == c.sid)) [
    | inl here ↦ ground (arith, ==_iff i c.sid, ==_iff g h)
    | inr there ↦
        let old : x.channels i ≡ some g = ground arith in
        elim (Bool-cases (g == h)) [
          | inl same ↦ absurd (fresh i (old ∙ ap some ((==_iff g h).0 same)))
          | inr other ↦ rw other (w.sid_ok i g old)
        ]
  ];
  in_range = λ i le. ground (arith, w.in_range i);
}

raised-Shrinks :
    (y : Transport) (h : ℕ) (b : Bool) → Shrinks y (if b then call_channel_handler y h else y)
raised-Shrinks y h false = Shrinks-refl y
raised-Shrinks y h true = elim (Bool-cases y.has_data_channel_handler) [
  | inl on ↦ rw on (Shrinks-same refl refl refl)
  | inr off ↦ rw off (Shrinks-same refl refl refl)
]

opened-Shrinks :
    (z : Transport) (h : ℕ) (b : Bool) → Shrinks z (if b then channel_set_state z h opened else z)
opened-Shrinks z h false = Shrinks-refl z
opened-Shrinks z h true = channel_set_state-Shrinks z h opened

pub register-WellFormed :
    (x : Transport) (h : ℕ) (c : Context) (raise_event : Bool)
    → WellFormed (fill_slot x h c)
    → WellFormed (channel_register x h c raise_event)
unfolding channel_register
register-WellFormed x h c raise_event w =
    let y = fill_slot x h c in
    let z = if raise_event then call_channel_handler y h else y in
    Shrinks-WellFormed
      (Shrinks-trans (raised-Shrinks y h raise_event) (opened-Shrinks z h (is_connected z.state))) w

abbrev context_sid : ℕ → Result Context → ℕ
context_sid n (ok c) = c.sid
context_sid n (err e) = n

either :
    (b : Bool) (l r : Code × Transport)
    → WellFormed l.1
    → WellFormed r.1
    → WellFormed (if b then l else r).1
either true l r v w = v
either false l r v w = w

module _ (lib : Libre) (sctp : Sctp) where
  pub context_create_sid :
      (t sid : ℕ) (b : Bool) (c : Context) → channel_context_create lib t sid b ≡ ok c → c.sid ≡ sid
  unfolding channel_context_create
  context_create_sid t sid b c e = ground arith

  negotiated-Opens :
      (x : Transport) (p : Parameters) → Opens x (channel_create_negotiated lib x p, tick x)
  unfolding channel_create_negotiated
  negotiated-Opens x p = record {
    fits = λ c e.
        let same = context_create_sid x.clock p.id true c in
        elim (Bool-cases (ltb sid_max p.id || leb x.n_channels p.id || not (is_free x p.id))) [
          | inl bad ↦ absurd (ground arith)
          | inr good ↦ let q = same (ground arith) in rw q (ground (arith))
        ];
    frame = refl;
  }

  after_open-Opens :
      (x : Transport) (c : Context) (r : Code × Transport)
      → c.sid < x.n_channels
      → x.channels c.sid ≡ none
      → r.1 ≡ sent x r.1
      → Opens x (after_open lib sctp c r)
  after_open-Opens x c (e, y) lt free f = elim (Bool-cases (is_error e)) [
    | inl bad ↦ rw bad (fails x y e f)
    | inr good ↦ rw good (record {
      fits = λ d p. let same : c.sid ≡ d.sid = ap (context_sid c.sid) p in rw⁻¹ same (lt, free);
      frame = f;
    })
  ]

  send_open-Opens :
      (x : Transport) (c : Context) (p : Parameters)
      → c.sid < x.n_channels
      → x.channels c.sid ≡ none
      → Opens x (send_open lib sctp x c p)
  unfolding send_open
  send_open-Opens x c p lt free =
      elim (Result-cases (data_channel_open_message_create lib x.clock p)) [
        | inl (e, q) ↦ rw (q, send_open) (fails x x e refl)
        | inr (b, q) ↦
            rw (q, send_open)
              (after_open-Opens x c _ lt free (send_message_frame lib sctp x none c b ppid_dcep))
      ]

  open_on-Opens :
      (x : Transport) (i : ℕ) (s : Option ℕ) (p : Parameters)
      → s ≡ find_free_sid x.n_channels x i
      → Opens x (open_on lib sctp x s p)
  unfolding open_on
  open_on-Opens x i none p e = fails x x insufficient_space refl
  open_on-Opens x i (some sid) p e =
      let (a, lt, free, b, c) = find_free_sid_least x.n_channels x i sid (sym e) in
      elim (Result-cases (channel_context_create lib x.clock sid false)) [
        | inl (k, q) ↦ rw (q, open_on) (fails x (tick x) k refl)
        | inr (d, q) ↦
            let same = context_create_sid x.clock sid false d q in
            let o = send_open-Opens (tick x) d p (rw same lt) (rw same free) in
            rw (q, open_on) (record { fits = o.fits; frame = o.frame })
      ]

  role-Opens :
      (x : Transport) (r : Code × DtlsRole) (p : Parameters)
      → Opens x (open_with_role lib sctp x r p)
  unfolding open_with_role
  role-Opens x (error, role) p = elim (Bool-cases (is_error error)) [
    | inl bad ↦ rw bad (fails x x external_error refl)
    | inr good ↦ elim (Option-cases (first_of_role role)) [
      | inl other ↦ rw (good, other, open_with_role) (fails x x invalid_state refl)
      | inr (i, q) ↦ rw (good, q, open_with_role) (open_on-Opens x i _ p refl)
    ]
  ]

  inband-Opens :
      (dtls : Dtls) (x : Transport) (p : Parameters)
      → Opens x (channel_create_inband lib sctp dtls x p)
  unfolding channel_create_inband
  inband-Opens dtls x p =
      let s = dtls.state_getter x.clock in
      elim (Bool-cases (is_error s.0)) [
        | inl bad ↦ rw bad (fails x x external_error refl)
        | inr good ↦ elim (Bool-cases (is_dtls_connected s.1)) [
          | inl on ↦ rw (good, on) (role-Opens x (dtls.role_getter x.clock) p)
          | inr off ↦ rw (good, off) (fails x x invalid_state refl)
        ]
      ]

  register_created-WellFormed :
      (x : Transport) (h : ℕ) (r : Result Context × Transport)
      → WellFormed x
      → ((i : ℕ) → x.channels i ≢ some h)
      → Opens x r
      → WellFormed (register_created lib sctp h r).1
  register_created-WellFormed x h (err e, y) w fresh o =
      let f = o.frame in
      Shrinks-WellFormed
        (Shrinks-same (ap (λ (t : Transport). t.channels) f) (ap (λ (t : Transport). t.heap) f)
          (ap (λ (t : Transport). t.n_channels) f))
        w
  register_created-WellFormed x h (ok c, y) w fresh o =
      let f = o.frame in
      let slots = ap (λ (t : Transport). t.channels) f in
      let size = ap (λ (t : Transport). t.n_channels) f in
      let w' = Shrinks-WellFormed (Shrinks-same slots (ap (λ (t : Transport). t.heap) f) size) w in
      register-WellFormed y h c false (
        fill_slot-WellFormed y h c w' (rw size (o.fits c refl).0)
          (λ i. rw (ap (λ k. k i) slots) (fresh i)))

  -- Creating a channel keeps the registry well formed, whether it succeeds or not, if the channel
  -- is not registered yet.
  pub create_handler-WellFormed :
      (dtls : Dtls) (x : Transport) (h : ℕ) (p : Parameters)
      → WellFormed x
      → ((i : ℕ) → x.channels i ≢ some h)
      → WellFormed (channel_create_handler lib sctp dtls x h p).1
  unfolding channel_create_handler
  create_handler-WellFormed dtls x h p w fresh =
      either p.negotiated _ _ (register_created-WellFormed x h _ w fresh (negotiated-Opens x p))
        (register_created-WellFormed x h _ w fresh (inband-Opens dtls x p))
