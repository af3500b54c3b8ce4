-- ===== src/Transport/Reset/Standing.antt =====
-- A channel in its slot, and what stream resets (`handle_stream_reset_event`) do to it until it has
-- left the slot.
use rawrtc_data_channel.Base.{
  ℕ, ◌≡◌, ◌<◌, refl, ap, sym, ◌∙◌, List, [], ◌∷◌, Bool, true, false, ◌||◌, some, none,
  if◌then◌else◌, if_true, update_here, ◌==◌, arith, Bool-cases, inl, inr,
}
use rawrtc_data_channel.Channel.{Channel, Context, ChannelState, closing}
use rawrtc_data_channel.Transport.{Transport, Event, channel_closed}
use rawrtc_data_channel.Transport.State.{set_channel, clear_slot, channel_set_state}
use rawrtc_data_channel.Transport.State.Closing.{channel_set_state_heap}
use rawrtc_data_channel.Transport.Reset.{StreamReset}

-- The channel `k` at `h` is in the slot of its context `c`; `e` has been raised so far.
pub record Standing (x : Transport) (h : ℕ) (c : Context) (k : Channel) (e : List Event)
    : Type 0 where
  pub slot : x.channels c.sid ≡ some h
  pub here : x.heap h ≡ k
  pub held : k.transport_arg ≡ some c
  pub in_range : c.sid < x.n_channels
  pub raised : x.events ≡ e

-- The channel has left its slot and is `k`.
pub record Gone (x : Transport) (h : ℕ) (c : Context) (k : Channel) (e : List Event) : Type 0 where
  pub slot : x.channels c.sid ≡ none
  pub here : x.heap h ≡ k
  pub raised : x.events ≡ e

pub moved :
    {x y : Transport} {h : ℕ} {c : Context} {k : Channel} {e : List Event}
    → y ≡ x
    → Standing x h c k e
    → Standing y h c k e
moved {h = h} {c = c} p s = record {
  slot = ap (λ (t : Transport). t.channels c.sid) p ∙ s.slot;
  here = ap (λ (t : Transport). t.heap h) p ∙ s.here;
  held = s.held;
  in_range = omega (arith, s.in_range, ap (λ (t : Transport). t.n_channels) p);
  raised = ap (λ (t : Transport). t.events) p ∙ s.raised;
}

pub Gone-moved :
    {x y : Transport} {h : ℕ} {c : Context} {k : Channel} {e : List Event}
    → y ≡ x
    → Gone x h c k e
    → Gone y h c k e
Gone-moved {h = h} {c = c} p s = record {
  slot = ap (λ (t : Transport). t.channels c.sid) p ∙ s.slot;
  here = ap (λ (t : Transport). t.heap h) p ∙ s.here;
  raised = ap (λ (t : Transport). t.events) p ∙ s.raised;
}

pub renamed :
    {x : Transport} {h : ℕ} {c : Context} {k l : Channel} {e : List Event}
    → k ≡ l
    → Standing x h c k e
    → Standing x h c l e
renamed p s = record {
  slot = s.slot;
  here = s.here ∙ p;
  held = ap (λ (m : Channel). m.transport_arg) (sym p) ∙ s.held;
  in_range = s.in_range;
  raised = s.raised;
}

pub Gone-renamed :
    {x : Transport} {h : ℕ} {c : Context} {k l : Channel} {e : List Event}
    → k ≡ l
    → Gone x h c k e
    → Gone x h c l e
Gone-renamed p s = record { slot = s.slot; here = s.here ∙ p; raised = s.raised }

pub or_true : (b : Bool) → (b || true) ≡ true
or_true b = ground arith

pub or_false : (b : Bool) → (b || false) ≡ b
or_false b = ground arith

-- A change of a channel that keeps its context.
pub stored :
    {x : Transport} {h : ℕ} {c : Context} {k : Channel} {e : List Event} (k' : Channel)
    → Standing x h c k e
    → k'.transport_arg ≡ k.transport_arg
    → Standing (set_channel x h k') h c k' e
stored {x} {h} {c} {k} {e} k' s same = record {
  slot = s.slot;
  here = update_here x.heap h k';
  held = same ∙ s.held;
  in_range = s.in_range;
  raised = s.raised;
}

pub closing_state :
    {x : Transport} {h : ℕ} {c : Context} {k : Channel} {e : List Event}
    → Standing x h c k e
    → Standing (channel_set_state x h closing) h c (record k { state = closing }) e
unfolding channel_set_state
closing_state {x} {h} {c} {k} {e} s = record {
  slot = s.slot;
  here = update_here x.heap h _ ∙ ap (λ (l : Channel). record l { state = closing }) s.here;
  held = s.held;
  in_range = s.in_range;
  raised = s.raised;
}

abbrev pub with_close : Channel → ℕ → List Event → List Event
with_close k h e = if k.close_handler then channel_closed h ∷ e else e

closed_events :
    (x : Transport) (h : ℕ)
    → (channel_set_state x h ChannelState.closed).events ≡ with_close (x.heap h) h x.events
unfolding channel_set_state
closed_events x h = elim (Bool-cases (x.heap h).close_handler) [
  | inl e ↦ rw e refl
  | inr e ↦ rw e refl
]

pub closed_state :
    {x : Transport} {h : ℕ} {c : Context} {k : Channel} {e : List Event}
    → Standing x h c k e
    → Gone
        (clear_slot (channel_set_state x h ChannelState.closed) c.sid)
        h
        c
        (record k { state = ChannelState.closed })
        (with_close k h e)
closed_state {x} {h} {c} {k} {e} s = record {
  slot = update_here (channel_set_state x h ChannelState.closed).channels c.sid none;
  here =
      channel_set_state_heap x h ChannelState.closed h
      ∙ if_true (h == h) _ _ (ground arith)
      ∙ ap (λ (l : Channel). record l { state = ChannelState.closed }) s.here;
  raised =
      closed_events x h
      ∙ (ap (λ (l : Channel). with_close l h x.events) s.here
          ∙ ap (λ r. with_close k h r) s.raised);
}

-- The event of one stream.
abbrev pub reset_of : Bool → Bool → ℕ → StreamReset
reset_of incoming outgoing sid = record {
  denied = false;
  failed_reset = false;
  incoming_ssn = incoming;
  outgoing_ssn = outgoing;
  stream_list = sid ∷ [];
}
