-- ===== src/Transport/Reset/Requests.antt =====
-- The request to usrsctp that a stream is reset: what any answer to it leaves.
use rawrtc_data_channel.Base.{
  ◌≡◌, refl, List, ◌∷◌, Bool, true, false, none, some, Option-cases, inl, inr, arith,
}
use rawrtc_data_channel.Base.Code.{Code, success, no_memory, is_error}
use rawrtc_data_channel.External.{Libre}
use rawrtc_data_channel.External.Errors.{error_is_error}
use rawrtc_data_channel.Channel.{Context}
use rawrtc_data_channel.Transport.{Transport, ResetRequest, Sctp, tick}
use rawrtc_data_channel.Transport.Reset.{try_reset, reset_request}

-- The transport after the request, with the requests `l`.
abbrev pub asked : Transport → List ResetRequest → Transport
asked x l = record (tick x) { resets = l }

-- What holds whatever the code is and whatever is recorded.
pub whatever_answer {ℓ} :
    (lib : Libre) (sctp : Sctp) (x : Transport) (c : Context) (P : Code × Transport → Type ℓ)
    → ((error : Code) (l : List ResetRequest) → P (error, asked x l))
    → P (try_reset lib sctp x c)
whatever_answer lib sctp x c P f = elim (Option-cases (lib.zalloc x.clock)) [
  | inl e ↦ rw (e, try_reset) (f no_memory x.resets)
  | inr (u, e) ↦ elim (Option-cases (sctp.setsockopt x.clock)) [
    | inl s ↦ rw (e, s, try_reset) (f success _)
    | inr (n, s) ↦ rw (e, s, try_reset) (f (lib.error_to_code n) x.resets)
  ]
]

-- Memory and usrsctp let the request through.
abbrev pub is_accepted : Libre → Sctp → Transport → Bool
is_accepted lib sctp x = elim (lib.zalloc x.clock) [
  | none ↦ false
  | some _ ↦ elim (sctp.setsockopt x.clock) [ none ↦ true | some _ ↦ false ]
]

pub accepted_answer :
    (lib : Libre) (sctp : Sctp) (x : Transport) (c : Context)
    → is_accepted lib sctp x ≡ true
    → try_reset lib sctp x c ≡ (success, asked x (reset_request c.sid ∷ x.resets))
accepted_answer lib sctp x c a = elim (Option-cases (lib.zalloc x.clock)) [
  | inl e ↦ absurd (ground arith)
  | inr (u, e) ↦ elim (Option-cases (sctp.setsockopt x.clock)) [
    | inl s ↦ rw (e, s, try_reset) refl
    | inr (n, s) ↦ absurd (ground arith)
  ]
]

pub refused_answer :
    (lib : Libre) (sctp : Sctp) (x : Transport) (c : Context)
    → is_accepted lib sctp x ≡ false
    → (error : Code) × (is_error error ≡ true) × (try_reset lib sctp x c ≡ (error, tick x))
refused_answer lib sctp x c a = elim (Option-cases (lib.zalloc x.clock)) [
  | inl e ↦ (no_memory, refl, rw (e, try_reset) refl)
  | inr (u, e) ↦ elim (Option-cases (sctp.setsockopt x.clock)) [
    | inl s ↦ absurd (ground arith)
    | inr (n, s) ↦ (
      lib.error_to_code n,
      error_is_error lib n (sctp.setsockopt_errno x.clock n s),
      rw (e, s, try_reset) refl,
    )
  ]
]
