-- ===== src/Transport/Registry.antt =====
-- The registry of channels: each registered channel knows the slot that it stands in.
use rawrtc_data_channel.Base.{ℕ, ◌≡◌, refl, ◌∙◌, ap, ◌≤◌, ◌⊎◌, inl, Option, none, some, arith}
use rawrtc_data_channel.Channel.{Channel}
use rawrtc_data_channel.Transport.{Transport}

abbrev pub sid_of : Channel → Option ℕ
sid_of c = elim c.transport_arg [ none ↦ none | some context ↦ some context.sid ]

-- Every registered channel has a context with the number of its slot, and there is no channel
-- behind the last slot.
pub record WellFormed (x : Transport) : Type 0 where
  pub sid_ok : (i h : ℕ) → x.channels i ≡ some h → sid_of (x.heap h) ≡ some i
  pub in_range : (i : ℕ) → x.n_channels ≤ i → x.channels i ≡ none

-- An operation that registers nothing: a slot stays as it is or is cleared, and a channel keeps
-- its stream.
pub record Shrinks (x y : Transport) : Type 0 where
  pub slots : (i : ℕ) → (y.channels i ≡ x.channels i) ⊎ (y.channels i ≡ none)
  pub sids : (h : ℕ) → sid_of (y.heap h) ≡ sid_of (x.heap h)
  pub size : y.n_channels ≡ x.n_channels

pub Shrinks-refl : (x : Transport) → Shrinks x x
Shrinks-refl x = record { slots = λ i. inl refl; sids = λ h. refl; size = refl }

pub Shrinks-trans : {x y z : Transport} → Shrinks x y → Shrinks y z → Shrinks x z
Shrinks-trans {x} {y} {z} a b = record {
  slots = λ i. ground (arith, a.slots i, b.slots i);
  sids = λ h. b.sids h ∙ a.sids h;
  size = b.size ∙ a.size;
}

-- What registers nothing keeps the registry well formed.
pub Shrinks-WellFormed : {x y : Transport} → Shrinks x y → WellFormed x → WellFormed y
Shrinks-WellFormed {x} {y} s w = record {
  sid_ok = λ i h e. s.sids h ∙ w.sid_ok i h (ground (arith, s.slots i));
  in_range = λ i le. ground (arith, s.slots i, s.size, w.in_range i);
}

-- Two slots never hold the same channel.
pub slots_differ :
    {x : Transport} {i j h : ℕ}
    → WellFormed x
    → x.channels i ≡ some h
    → x.channels j ≡ some h
    → i ≡ j
slots_differ {i} {j} {h} w p q = ground (arith, w.sid_ok i h p, w.sid_ok j h q)

pub Shrinks-same :
    {x y : Transport}
    → y.channels ≡ x.channels
    → y.heap ≡ x.heap
    → y.n_channels ≡ x.n_channels
    → Shrinks x y
Shrinks-same c h n = record {
  slots = λ i. inl (ap (λ f. f i) c);
  sids = λ g. ap (λ f. sid_of (f g)) h;
  size = n;
}
