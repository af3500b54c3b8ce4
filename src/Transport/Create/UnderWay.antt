-- ===== src/Transport/Create/UnderWay.antt =====
-- What every step of creation keeps.
use rawrtc_data_channel.Base.{
  ℕ, ◌≡◌, refl, ap, ◌∙◌, List, [], ◌∷◌, Bool, true, false, not, ◌||◌, Option, none, some,
  if◌then◌else◌, ltb, ◌==◌, arith, Option-cases, inl, inr,
}
use rawrtc_data_channel.Base.Code.{Code, success, is_error}
use rawrtc_data_channel.External.{Libre}
use rawrtc_data_channel.External.Dtls.{TransportContext}
use rawrtc_data_channel.Transport.{
  Transport, new, Sctp, SocketOption, emit, tick, option_set, trace_opened,
}
use rawrtc_data_channel.Transport.Registry.{WellFormed}
use rawrtc_data_channel.Transport.Options.Checked.{set_option_works, set_option_fails}
use rawrtc_data_channel.Transport.Create.{Creating, data_channels_alloc}
use rawrtc_data_channel.Transport.Create.Steps.{
  Platform, PointAnswer, point, point_failed, and_then, call_socket, start_timer, allocate_channels,
  create_tracer, create_socket, store_chunk_size, determine_chunk_size, set_options, start_options,
  prepare_socket, code_at_out, trace_and_prepare, fill,
}

-- A transport under construction, with `users` users of usrsctp, itself included.
pub record UnderWay (users : ℕ) (s : Creating) : Type 0 where
  pub counted : s.globals.usrsctp_initialized ≡ users
  pub is_new : s.transport.state ≡ new
  pub attached : s.transport.is_detached ≡ false
  pub unfinished : s.transport.initialized ≡ false
  pub empty : (i : ℕ) → s.transport.channels i ≡ none

and_then-UnderWay :
    {users : ℕ} (r : Option Code × Creating) (f : Creating → Option Code × Creating)
    → UnderWay users r.1
    → ((s : Creating) → UnderWay users s → UnderWay users (f s).1)
    → UnderWay users (and_then r f).1
and_then-UnderWay (none, s) f u v = v s u
and_then-UnderWay (some c, s) f u v = u

pub empty-WellFormed : (x : Transport) → ((i : ℕ) → x.channels i ≡ none) → WellFormed x
empty-WellFormed x e = record { sid_ok = λ i h p. absurd (cc (e i)); in_range = λ i le. e i }

-- What keeps the counter, the state, the flags and the table.
moved :
    {users : ℕ} {s t : Creating}
    → UnderWay users s
    → t.globals.usrsctp_initialized ≡ s.globals.usrsctp_initialized
    → t.transport.state ≡ s.transport.state
    → t.transport.is_detached ≡ s.transport.is_detached
    → t.transport.initialized ≡ s.transport.initialized
    → t.transport.channels ≡ s.transport.channels
    → UnderWay users t
moved u a b c d e = record {
  counted = a ∙ u.counted;
  is_new = b ∙ u.is_new;
  attached = c ∙ u.attached;
  unfinished = d ∙ u.unfinished;
  empty = λ i. ap (λ f. f i) e ∙ u.empty i;
}

if-UnderWay :
    {users : ℕ} {C : Type 0} (b : Bool) (p q : C × Creating)
    → UnderWay users p.1
    → UnderWay users q.1
    → UnderWay users (if b then p else q).1
if-UnderWay true p q u v = u
if-UnderWay false p q u v = v

alloc-empty :
    (b : Bool) (channels : ℕ → Option ℕ) (n i : ℕ)
    → channels i ≡ none
    → (data_channels_alloc b channels n 0).1 i ≡ none
unfolding data_channels_alloc
alloc-empty true channels n i e = ground arith
alloc-empty false channels n i e = ground arith

module _ (lib : Libre) (sctp : Sctp) (platform : Platform) {users : ℕ} where
  call-UnderWay :
      (f : ℕ → Option ℕ) (s : Creating)
      → UnderWay users s
      → UnderWay users (call_socket lib sctp platform f s).1
  call-UnderWay f s u = elim (Option-cases (f s.transport.clock)) [
    | inl e ↦ rw (e, call_socket) (moved u refl refl refl refl refl)
    | inr (n, e) ↦ rw (e, call_socket) (moved u refl refl refl refl refl)
  ]

  timer-UnderWay :
      (s : Creating) → UnderWay users s → UnderWay users (start_timer lib sctp platform s).1
  timer-UnderWay s u =
      if-UnderWay (s.globals.usrsctp_initialized == 1) _ (none, s)
        (if-UnderWay (is_error (platform.timer_handler s.transport.clock)) _ _
          (moved u refl refl refl refl refl) (moved u refl refl refl refl refl))
        u

  allocate-UnderWay :
      (s : Creating) → UnderWay users s → UnderWay users (allocate_channels lib sctp platform s).1
  allocate-UnderWay s u = if-UnderWay (is_error _) _ _ (moved u refl refl refl refl refl) (record {
    counted = u.counted;
    is_new = u.is_new;
    attached = u.attached;
    unfinished = u.unfinished;
    empty = λ i. alloc-empty _ s.transport.channels _ i (u.empty i);
  })

  socket-UnderWay :
      (s : Creating) → UnderWay users s → UnderWay users (create_socket lib sctp platform s).1
  socket-UnderWay s u = elim (Option-cases (platform.socket s.transport.clock)) [
    | inl e ↦ rw (e, create_socket) (moved u refl refl refl refl refl)
    | inr (n, e) ↦ rw (e, create_socket) (moved u refl refl refl refl refl)
  ]

  store-UnderWay :
      (s : Creating) (a : PointAnswer)
      → UnderWay users s
      → UnderWay users (store_chunk_size lib sctp platform s a).1
  store-UnderWay s (point_failed e) u = u
  store-UnderWay s (point ok value) u =
      if-UnderWay (not ok || ltb value 1) _ _ u (moved u refl refl refl refl refl)

  chunk-UnderWay :
      (s : Creating)
      → UnderWay users s
      → UnderWay users (determine_chunk_size lib sctp platform s).1
  chunk-UnderWay s u =
      if-UnderWay (s.globals.usrsctp_initialized == 1) _ (none, s)
        (store-UnderWay (record s { transport = tick s.transport })
          (platform.partial_delivery_point s.transport.clock) (moved u refl refl refl refl refl))
        u

  options-UnderWay :
      (options : List SocketOption) (s : Creating)
      → UnderWay users s
      → UnderWay users (set_options lib sctp platform options s).1
  options-UnderWay [] s u = u
  options-UnderWay (o ∷ rest) s u = elim (Option-cases (sctp.setsockopt s.transport.clock)) [
    | inl e ↦ rw (set_option_works lib sctp s.transport o e) (
        options-UnderWay rest (record s { transport = emit (option_set o) (tick s.transport) })
          (moved u refl refl refl refl refl))
    | inr (n, e) ↦
        rw (set_option_fails lib sctp s.transport o n e) (moved u refl refl refl refl refl)
  ]

  prepare-UnderWay :
      (s : Creating) → UnderWay users s → UnderWay users (prepare_socket lib sctp platform s).1
  prepare-UnderWay s u =
      and_then-UnderWay (create_socket lib sctp platform s) _ (socket-UnderWay s u) (λ s1 u1.
        and_then-UnderWay (call_socket lib sctp platform platform.set_non_blocking s1) _
          (call-UnderWay platform.set_non_blocking s1 u1)
          (λ s2 u2.
            and_then-UnderWay (call_socket lib sctp platform platform.set_upcall s2) _
              (call-UnderWay platform.set_upcall s2 u2)
              (λ s3 u3.
                and_then-UnderWay (determine_chunk_size lib sctp platform s3) _
                  (chunk-UnderWay s3 u3)
                  (λ s4 u4.
                    and_then-UnderWay (set_options lib sctp platform start_options s4) _
                      (options-UnderWay start_options s4 u4) (call-UnderWay platform.bind)))))

  opened-UnderWay :
      (b : Bool) (s : Creating)
      → UnderWay users s
      → UnderWay users (record s {
        transport =
            if b
            then emit trace_opened (record (tick s.transport) { has_trace_handle = true })
            else tick s.transport;
      })
  opened-UnderWay true s u = moved u refl refl refl refl refl
  opened-UnderWay false s u = moved u refl refl refl refl refl

  tracer-UnderWay :
      (context : TransportContext) (s : Creating)
      → UnderWay users s
      → UnderWay users (create_tracer lib sctp platform context s).1
  tracer-UnderWay context s u =
      if-UnderWay (not context.trace_packets) (success, s) _ u
        (if-UnderWay (is_error (platform.sdprintf s.transport.clock)) _ _
          (moved u refl refl refl refl refl)
          (opened-UnderWay (platform.fopen s.transport.clock) s u))

  out-UnderWay :
      (left : Code) (r : Option Code × Creating)
      → UnderWay users r.1
      → UnderWay users (code_at_out lib sctp platform left r).1
  out-UnderWay left (none, s) u = u
  out-UnderWay left (some c, s) u = u

  pub fill-UnderWay :
      (context : TransportContext) (s : Creating)
      → UnderWay users s
      → UnderWay users (fill lib sctp platform context s).1
  fill-UnderWay context s u =
      rest (and_then (start_timer lib sctp platform s) (allocate_channels lib sctp platform)) (
        and_then-UnderWay (start_timer lib sctp platform s) _ (timer-UnderWay s u)
          allocate-UnderWay)
    where
      rest :
          (r : Option Code × Creating)
          → UnderWay users r.1
          → UnderWay users (trace_and_prepare lib sctp platform context r).1
      rest (some c, t) v = v
      rest (none, t) v = out-UnderWay (create_tracer lib sctp platform context t).0 _ (
          prepare-UnderWay (create_tracer lib sctp platform context t).1
            (tracer-UnderWay context t v))
