-- ===== src/Transport/Channels/Sids.antt =====
-- The stream identifiers that `channel_create_inband` chooses.
use rawrtc_data_channel.Base.{
  ℕ, zero, suc, ◌+◌, ◌*◌, ◌%◌, ◌≡◌, refl, ap, ◌∙◌, ◌≤◌, ◌<◌, inl, inr, true, false, none, some, ltb,
  arith, Bool-cases,
}
use rawrtc_data_channel.Transport.{Transport}
use rawrtc_data_channel.Transport.Channels.{is_free, find_free_sid}

-- All slots from `i` to `end` that are an even distance from `i` are occupied.
abbrev pub OccupiedFrom : Transport → ℕ → ℕ → Type 0
OccupiedFrom x i end = (j : ℕ) → i ≤ j → j < end → j % 2 ≡ i % 2 → is_free x j ≡ false

free_slot : (x : Transport) (i : ℕ) → is_free x i ≡ true → x.channels i ≡ none
free_slot x i h = ground arith

occupied_step :
    (x : Transport) (i end : ℕ)
    → is_free x i ≡ false
    → OccupiedFrom x (i + 2) end
    → OccupiedFrom x i end
occupied_step x i end taken rest j le lt par = elim (Bool-cases (ltb i j)) [
  | inl later ↦ rest j (ground arith) lt (omega arith)
  | inr same ↦ let e : j ≡ i = ground arith in ap (is_free x) e ∙ taken
]

-- The SID that is found is the least free one from `i` on with the parity of `i`, and there is a
-- slot for it.
pub find_free_sid_least :
    (rounds : ℕ) (x : Transport) (i sid : ℕ)
    → find_free_sid rounds x i ≡ some sid
    → (i ≤ sid)
      × (sid < x.n_channels)
      × (x.channels sid ≡ none)
      × (sid % 2 ≡ i % 2)
      × OccupiedFrom x i sid
unfolding find_free_sid
find_free_sid_least zero x i sid h = absurd (cc)
find_free_sid_least (suc rounds) x i sid h = elim (Bool-cases (ltb i x.n_channels)) [
  | inr out ↦ absurd (ground arith)
  | inl fits ↦ elim (Bool-cases (is_free x i)) [
    | inl free ↦
        let e : i ≡ sid = ground arith in
        rw⁻¹ e
          (omega arith, ground arith, free_slot x i free, refl, λ j a b c. absurd (omega arith))
    | inr taken ↦
        let (a, b, c, d, f) = find_free_sid_least rounds x (i + 2) sid (ground arith) in
        (omega arith, b, c, ground arith, occupied_step x i sid taken f)
  ]
]

exhausted :
    (rounds : ℕ) (x : Transport) (i : ℕ)
    → x.n_channels ≤ i + rounds * 2
    → find_free_sid rounds x i ≡ none
    → OccupiedFrom x i x.n_channels
unfolding find_free_sid
exhausted zero x i le h = λ j a b c. absurd (omega arith)
exhausted (suc rounds) x i le h = elim (Bool-cases (ltb i x.n_channels)) [
  | inr out ↦ λ j a b c. absurd (ground arith)
  | inl fits ↦ elim (Bool-cases (is_free x i)) [
    | inl free ↦ absurd (ground arith)
    | inr taken ↦
        occupied_step x i x.n_channels taken
          (exhausted rounds x (i + 2) (omega arith) (ground arith))
  ]
]

-- With as many rounds as there are slots, no SID is found only if every slot with the parity of `i`,
-- from `i` on, is occupied.
pub find_free_sid-none :
    (x : Transport) (i : ℕ) → find_free_sid x.n_channels x i ≡ none → OccupiedFrom x i x.n_channels
find_free_sid-none x i h = exhausted x.n_channels x i (omega arith) h
