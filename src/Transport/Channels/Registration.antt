-- ===== src/Transport/Channels/Registration.antt =====
-- A channel that is registered on a connected transport: it stands in its slot and is open.
use rawrtc_data_channel.Base.{
  ℕ, ◌≡◌, refl, ap, ◌∙◌, Bool, true, false, ◌∷◌, Option, some, if◌then◌else◌, update_here, if_true,
  if_false,
}
use rawrtc_data_channel.Channel.{Channel, Context, opened}
use rawrtc_data_channel.Transport.{Transport, Event, new_channel, channel_opened, emit}
use rawrtc_data_channel.Transport.Send.{is_connected}
use rawrtc_data_channel.Transport.State.{set_channel, channel_set_state}
use rawrtc_data_channel.Transport.Channels.{channel_register, fill_slot, call_channel_handler}

-- An event, or none, changes nothing but the events.
emitted :
    (b : Bool) (y : Transport) (e : Event)
    → let z : Transport = if b then emit e y else y in
      (z.channels ≡ y.channels)
      × (z.heap ≡ y.heap)
      × (z.state ≡ y.state)
      × (z.wire ≡ y.wire)
      × (z.events ≡ (if b then e ∷ y.events else y.events))
emitted true y e = (refl, refl, refl, refl, refl)
emitted false y e = (refl, refl, refl, refl, refl)

opened_quietly :
    (x : Transport) (h : ℕ)
    → (x.heap h).open_handler ≡ false
    → channel_set_state x h opened ≡ set_channel x h (record (x.heap h) { state = opened })
unfolding channel_set_state
opened_quietly x h n =
    let y = set_channel x h (record (x.heap h) { state = opened }) in
    if_false (x.heap h).open_handler (emit (channel_opened h) y) y n

-- A channel without an open handler that is registered on a connected transport.
pub registered_open :
    (x : Transport) (h : ℕ) (c : Channel) (context : Context)
    → c.open_handler ≡ false
    → is_connected x.state ≡ true
    → let y = channel_register (set_channel x h c) h context true in
      (y.channels context.sid ≡ some h)
      × (y.heap h ≡ record c { transport_arg = some context; state = opened })
      × (y.events ≡ (if x.has_data_channel_handler then new_channel h ∷ x.events else x.events))
      × (y.wire ≡ x.wire)
unfolding channel_register
registered_open x h c context n on =
    let q = set_channel x h c in
    let y = fill_slot q h context in
    let z = call_channel_handler y h in
    let f = emitted x.has_data_channel_handler y (new_channel h) in
    let c' = record c { transport_arg = some context } in
    let stored : z.heap h ≡ c' =
      ap (λ (g : ℕ → Channel). g h) f.1
      ∙ (update_here q.heap h (record (q.heap h) { transport_arg = some context })
          ∙ ap (λ (k : Channel). record k { transport_arg = some context })
              (update_here x.heap h c)) in
    let last : (if is_connected z.state then channel_set_state z h opened else z)
        ≡ set_channel z h (record (z.heap h) { state = opened }) =
      if_true (is_connected z.state) (channel_set_state z h opened) z (ap is_connected f.2 ∙ on)
      ∙ opened_quietly z h (ap (λ (k : Channel). k.open_handler) stored ∙ n) in
    (
      ap (λ (t : Transport). t.channels context.sid) last
          ∙ (ap (λ (g : ℕ → Option ℕ). g context.sid) f.0
              ∙ update_here q.channels context.sid (some h)),
      ap (λ (t : Transport). t.heap h) last
          ∙ (update_here z.heap h (record (z.heap h) { state = opened })
              ∙ ap (λ (k : Channel). record k { state = opened }) stored),
      ap (λ (t : Transport). t.events) last ∙ f.4,
      ap (λ (t : Transport). t.wire) last ∙ f.3,
    )

-- A channel that its own peer registers on a connected transport stands in its slot and is open.
pub registered_own :
    (x : Transport) (h : ℕ) (context : Context)
    → is_connected x.state ≡ true
    → let y = channel_register x h context false in
      (y.channels context.sid ≡ some h)
      × (y.heap h ≡ record (x.heap h) { transport_arg = some context; state = opened })
      × (y.wire ≡ x.wire)
unfolding channel_register channel_set_state
registered_own x h context on =
    let z = fill_slot x h context in
    let q = set_channel z h (record (z.heap h) { state = opened }) in
    let stored = update_here x.heap h (record (x.heap h) { transport_arg = some context }) in
    let last = if_true (is_connected x.state) (channel_set_state z h opened) z on in
    let f = emitted (z.heap h).open_handler q (channel_opened h) in
    (
      ap (λ (t : Transport). t.channels context.sid) last
          ∙ (ap (λ (g : ℕ → Option ℕ). g context.sid) f.0
              ∙ update_here x.channels context.sid (some h)),
      ap (λ (t : Transport). t.heap h) last
          ∙ (ap (λ (g : ℕ → Channel). g h) f.1
              ∙ (update_here z.heap h (record (z.heap h) { state = opened })
                  ∙ ap (λ (k : Channel). record k { state = opened }) stored)),
      ap (λ (t : Transport). t.wire) last ∙ f.3,
    )
