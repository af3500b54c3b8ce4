-- ===== src/Transport/Reset/Dry.antt =====
-- The loop of `handle_sender_dry_event` over the channels.
use native.Mathlib.Nat.{mod-eq_of_lt, mod_self}
use rawrtc_data_channel.Base.{
  ℕ, zero, suc, ◌+◌, ◌%◌, ◌≡◌, refl, ◌≤◌, ◌<◌, ◌⊎◌, inl, inr, false, not, ◌||◌, ◌==◌, arith,
  Bool-cases,
}
use rawrtc_data_channel.External.{Libre}
use rawrtc_data_channel.Transport.{Transport, Sctp}
use rawrtc_data_channel.Transport.Registry.{Shrinks}
use rawrtc_data_channel.Transport.Reset.{dry_slot, dry_loop}
use rawrtc_data_channel.Transport.Reset.Registry.{dry_slot-Shrinks}

-- the slot after `i`, of `n` slots
next_slot :
    (i n : ℕ) → i < n → ((i + 1 < n) × ((i + 1) % n ≡ i + 1)) ⊎ ((i + 1 ≡ n) × ((i + 1) % n ≡ 0))
next_slot i n lt = elim (Bool-cases ((i + 1) == n)) [
  | inl last ↦ let e : i + 1 ≡ n = ground arith in inr (e, rw e (mod_self n))
  | inr more ↦ let l : i + 1 < n = ground arith in inl (l, mod-eq_of_lt l)
]

module _ (lib : Libre) (sctp : Sctp) (on_low : ℕ → Transport → Transport)
    (low : (g : ℕ) (y : Transport) → Shrinks y (on_low g y)) where
  dry_loop_ends_from :
      (rounds more : ℕ) (x : Transport) (i stop : ℕ)
      → rounds ≤ more
      → i < x.n_channels
      → stop < x.n_channels
      → (i < stop → stop ≤ i + rounds)
      → (stop ≤ i → stop + x.n_channels ≤ i + rounds)
      → let r = dry_loop lib sctp rounds on_low x i stop in
        (dry_loop lib sctp more on_low x i stop ≡ r)
        × ((r.0.is_buffered_amount_low ≡ false) ⊎ (r.1 ≡ stop))
  unfolding dry_loop
  dry_loop_ends_from zero more x i stop le lt lt' a b = absurd (ground arith)
  dry_loop_ends_from (suc rounds) zero x i stop le lt lt' a b = absurd (omega arith)
  dry_loop_ends_from (suc rounds) (suc more) x i stop le lt lt' a b =
      let y = dry_slot lib sctp on_low x i in
      let j = (i + 1) % x.n_channels in
      let size = (dry_slot-Shrinks lib sctp on_low x i low).size in
      let next = next_slot i x.n_channels lt in
      elim (Bool-cases (not y.is_buffered_amount_low || (j == stop))) [
        | inl done ↦ rw done (refl, ground arith)
        | inr on ↦ rw on (
            dry_loop_ends_from rounds more y j stop (omega arith) (ground (arith, size, next))
              (ground (arith, size)) (λ k. ground (arith, next)) (λ k. ground (arith, size, next)))
      ]

  -- The loop of the sender dry event, started at a slot, ends by one of its own tests within as many
  -- rounds as there are slots: the application has cleared the flag, or the loop is back where it
  -- began; and the loop that is given more rounds has the same result, so it makes none of them. It
  -- is enough that what the application does on the event registers no channel.
  pub dry_loop_ends :
      (more : ℕ) (x : Transport) (i : ℕ)
      → x.n_channels ≤ more
      → i < x.n_channels
      → let r = dry_loop lib sctp x.n_channels on_low x i i in
        (dry_loop lib sctp more on_low x i i ≡ r)
        × ((r.0.is_buffered_amount_low ≡ false) ⊎ (r.1 ≡ i))
  dry_loop_ends more x i le lt =
      dry_loop_ends_from x.n_channels more x i i le lt lt (λ k. absurd (omega arith))
        (λ k. omega arith)
