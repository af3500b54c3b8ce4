-- ===== src/Parameters/Copies.antt =====
-- `rawrtc_data_channel_parameters_create` of src/data_channel_parameters/parameters.c, which copies
-- its texts with `rawrtc_strdup` of rawrtcc.
use rawrtc_data_channel.Base.{
  ℕ, suc, ◌≡◌, ◌≢◌, ap, refl, List, Bool, Option, none, some, if◌then◌else◌,
}
use rawrtc_data_channel.Base.Code.{Result, ok, err, no_value}
use rawrtc_data_channel.External.{Libre}
use rawrtc_data_channel.Parameters.{
  ChannelType, Parameters, is_reliable, data_parameters_create, get_label, get_channel_type,
  get_reliability_parameter, get_protocol, get_negotiated, get_id,
}
use rawrtc_data_channel.Parameters.Laws.{or_no_value, create-getters}

-- The copy of a text, `none` if memory fails. What is copied are the same bytes.
pub record Copier : Type 0 where
  pub strdup : ℕ → List ℕ → Option (List ℕ)
  pub strdup_law : (t : ℕ) (text copy : List ℕ) → strdup t text ≡ some copy → copy ≡ text

module _ (lib : Libre) (copier : Copier) where
  -- The local variable of a copy. It holds `unset` before the call, and still does after a copy that
  -- fails, since the result of `rawrtc_strdup` is not looked at.
  unfoldable pub copied : ℕ → Option (List ℕ) → Option (List ℕ) → Option (List ℕ)
  copied t unset none = none
  copied t unset (some text) = elim (copier.strdup t text) [ none ↦ unset | some copy ↦ some copy ]

  unfoldable pub parameters_create :
      ℕ
      → Option (List ℕ)
      → Option (List ℕ)
      → Option (List ℕ)
      → ChannelType
      → ℕ
      → Option (List ℕ)
      → Bool
      → ℕ
      → Result Parameters
  unfolding copied data_parameters_create
  parameters_create t unset unset' label channel_type reliability protocol negotiated id =
      data_parameters_create lib (suc (suc t)) (copied t unset label) channel_type reliability
        (copied (suc t) unset' protocol) negotiated id

  -- Every copy succeeds at the moment `t`.
  abbrev pub HasCopies : ℕ → Type 0
  HasCopies t = (text : List ℕ) → copier.strdup t text ≢ none

  copied-eq : (t : ℕ) (unset text : Option (List ℕ)) → HasCopies t → copied t unset text ≡ text
  unfolding copied
  copied-eq t unset none c = refl
  copied-eq t unset (some text) c = by_cases (copier.strdup t text) refl
    where
      by_cases :
          (r : Option (List ℕ))
          → copier.strdup t text ≡ r
          → (let v : Option (List ℕ) = elim r [ none ↦ unset | some copy ↦ some copy ] in v)
            ≡ some text
      by_cases none e = absurd (c text e)
      by_cases (some copy) e = ap some (copier.strdup_law t text copy e)

  -- If the copies and the creation succeed, every getter gives back the argument it is named after,
  -- except that the reliability parameter has no value on a reliable channel, that the id has no
  -- value on a channel that is not negotiated, and that a NULL text has no value.
  pub parameters_create-getters :
      (t : ℕ) (unset unset' label : Option (List ℕ)) (c : ChannelType) (reliability : ℕ)
      (protocol : Option (List ℕ)) (negotiated : Bool) (id : ℕ) {p : Parameters}
      → HasCopies t
      → HasCopies (suc t)
      → parameters_create t unset unset' label c reliability protocol negotiated id ≡ ok p
      → (get_label p ≡ or_no_value label)
        × (get_channel_type p ≡ ok c)
        × (get_reliability_parameter p ≡ (if is_reliable c then err no_value else ok reliability))
        × (get_protocol p ≡ or_no_value protocol)
        × (get_negotiated p ≡ ok negotiated)
        × (get_id p ≡ (if negotiated then ok id else err no_value))
  unfolding parameters_create
  parameters_create-getters t unset unset' label c reliability protocol negotiated id {p} k k' h =
      let l = copied-eq t unset label k in
      let q = copied-eq (suc t) unset' protocol k' in
      create-getters lib (suc (suc t)) label c reliability protocol negotiated id (rw (l, q) at h)
