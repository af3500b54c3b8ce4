-- ===== src/Transport/State/Closing.antt =====
-- Closing every data channel, and the states of the channels.
use rawrtc_data_channel.Base.{
  ℕ, zero, suc, ◌+◌, ◌≡◌, refl, ap, ◌∙◌, ◌≤◌, ◌<◌, inl, inr, true, Option, none, some,
  if◌then◌else◌, ◌==◌, arith, Bool-cases, Option-cases, ==_iff,
}
use rawrtc_data_channel.Channel.{ChannelState}
use rawrtc_data_channel.Transport.{Transport}
use rawrtc_data_channel.Transport.Registry.{Shrinks, Shrinks-refl, Shrinks-trans}
use rawrtc_data_channel.Transport.State.{
  channel_set_state, close_slot, close_from, close_data_channels, clear_slot,
}

-- What setting a channel's state does to the rest of the store.
pub channel_set_state_heap :
    (x : Transport) (h : ℕ) (s : ChannelState) (g : ℕ)
    → (channel_set_state x h s).heap g
      ≡ (if g == h then record (x.heap h) { state = s } else x.heap g)
unfolding channel_set_state
channel_set_state_heap x h s g = ground arith

pub channel_set_state_channels :
    (x : Transport) (h : ℕ) (s : ChannelState) → (channel_set_state x h s).channels ≡ x.channels
unfolding channel_set_state
channel_set_state_channels x h s = ground arith

pub channel_set_state_size :
    (x : Transport) (h : ℕ) (s : ChannelState) → (channel_set_state x h s).n_channels ≡ x.n_channels
unfolding channel_set_state
channel_set_state_size x h s = ground arith

pub channel_set_state-Shrinks :
    (x : Transport) (h : ℕ) (s : ChannelState) → Shrinks x (channel_set_state x h s)
channel_set_state-Shrinks x h s = record {
  slots = λ i. inl (ap (λ f. f i) (channel_set_state_channels x h s));
  sids = λ g. rw (channel_set_state_heap x h s g) (ground arith);
  size = channel_set_state_size x h s;
}

same_slot : (f : ℕ → Option ℕ) (j i : ℕ) → (j == i) ≡ true → f j ≡ f i
same_slot f j i h = ap f ((==_iff j i).0 h)

pub clear_slot-Shrinks : (x : Transport) (i : ℕ) → Shrinks x (clear_slot x i)
clear_slot-Shrinks x i = record { slots = λ j. ground arith; sids = λ h. refl; size = refl }

close_slot-Shrinks : (x : Transport) (i : ℕ) → Shrinks x (close_slot x i)
close_slot-Shrinks x i = elim (Option-cases (x.channels i)) [
  | inl empty ↦ rw (empty, close_slot) (Shrinks-refl x)
  | inr (h, e) ↦
      rw (e, close_slot)
        (Shrinks-trans (channel_set_state-Shrinks x h ChannelState.closed) (clear_slot-Shrinks _ i))
]

-- what closing a slot guarantees: it is empty afterwards, its channel is closed, the other slots
-- are as they were, and a closed channel stays closed
record Closes (x : Transport) (i : ℕ) (y : Transport) : Type 0 where
  slots : (j : ℕ) → y.channels j ≡ (if j == i then none else x.channels j)
  closes : (h : ℕ) → x.channels i ≡ some h → (y.heap h).state ≡ ChannelState.closed
  stays : (h : ℕ) → (x.heap h).state ≡ ChannelState.closed → (y.heap h).state ≡ ChannelState.closed
  size : y.n_channels ≡ x.n_channels

close_slot-Closes : (x : Transport) (i : ℕ) → Closes x i (close_slot x i)
close_slot-Closes x i = elim (Option-cases (x.channels i)) [
  | inl empty ↦
      rw (empty, close_slot)
        (record {
          slots = λ j. ground (arith, same_slot x.channels j i);
          closes = λ h e. cc;
          stays = λ h e. e;
          size = refl;
        })
  | inr (g, e) ↦
      let y = channel_set_state x g ChannelState.closed in
      let heap = channel_set_state_heap x g ChannelState.closed in
      rw (e, close_slot)
        (record {
          slots = λ j. rw (channel_set_state_channels x g ChannelState.closed);
          closes = λ h p. ground (arith, heap h);
          stays = λ h c. ground (arith, heap h);
          size = channel_set_state_size x g ChannelState.closed;
        })
]

-- the loop, from the slot `i` on
pub close_from-Shrinks : (rounds i : ℕ) (x : Transport) → Shrinks x (close_from rounds i x)
unfolding close_from
close_from-Shrinks zero i x = Shrinks-refl x
close_from-Shrinks (suc rounds) i x =
    Shrinks-trans (close_slot-Shrinks x i) (close_from-Shrinks rounds (suc i) (close_slot x i))

close_from_stays :
    (rounds i : ℕ) (x : Transport) (h : ℕ)
    → (x.heap h).state ≡ ChannelState.closed
    → ((close_from rounds i x).heap h).state ≡ ChannelState.closed
unfolding close_from
close_from_stays zero i x h e = e
close_from_stays (suc rounds) i x h e =
    close_from_stays rounds (suc i) (close_slot x i) h ((close_slot-Closes x i).stays h e)

close_from_before :
    (rounds i : ℕ) (x : Transport) (j : ℕ)
    → j < i
    → (close_from rounds i x).channels j ≡ x.channels j
unfolding close_from
close_from_before zero i x j h = refl
close_from_before (suc rounds) i x j h =
    close_from_before rounds (suc i) (close_slot x i) j (omega arith)
    ∙ (close_slot-Closes x i).slots j
    ∙ ground arith

close_from_empties :
    (rounds i : ℕ) (x : Transport) (j : ℕ)
    → i ≤ j
    → j < i + rounds
    → (close_from rounds i x).channels j ≡ none
unfolding close_from
close_from_empties zero i x j h k = absurd (omega arith)
close_from_empties (suc rounds) i x j h k = elim (Bool-cases (j == i)) [
  | inl here ↦
      close_from_before rounds (suc i) (close_slot x i) j (ground arith)
      ∙ (close_slot-Closes x i).slots j
      ∙ rw here refl
  | inr later ↦ close_from_empties rounds (suc i) (close_slot x i) j (ground arith) (omega arith)
]

close_from_closes :
    (rounds i : ℕ) (x : Transport) (j h : ℕ)
    → i ≤ j
    → j < i + rounds
    → x.channels j ≡ some h
    → ((close_from rounds i x).heap h).state ≡ ChannelState.closed
unfolding close_from
close_from_closes zero i x j h p k e = absurd (omega arith)
close_from_closes (suc rounds) i x j h p k e =
    let step = close_slot-Closes x i in
    elim (Bool-cases (j == i)) [
      | inl here ↦
          close_from_stays rounds (suc i) (close_slot x i) h
            (step.closes h (ground (arith, same_slot x.channels j i)))
      | inr later ↦
          close_from_closes rounds (suc i) (close_slot x i) j h (ground arith) (omega arith)
            (ground (arith, step.slots j))
    ]

-- Closing the data channels empties every slot below `n_channels`, and every channel that stood in
-- one of them is closed afterwards.
pub close_data_channels_effect :
    (x : Transport) (j : ℕ)
    → j < x.n_channels
    → ((close_data_channels x).channels j ≡ none)
      × ((h : ℕ)
          → x.channels j ≡ some h
          → ((close_data_channels x).heap h).state ≡ ChannelState.closed)
unfolding close_data_channels
close_data_channels_effect x j lt = (
  close_from_empties x.n_channels 0 x j (omega arith) (omega arith),
  λ h e. close_from_closes x.n_channels 0 x j h (omega arith) (omega arith) e,
)
