-- ===== src/Parameters/Tests.antt =====
-- An instance of the theorem on the getters of parameters.
use rawrtc_data_channel.Base.{ℕ, ◌≡◌, refl, arith, List, [], ◌∷◌, true, none, some}
use rawrtc_data_channel.Base.Code.{ok, err, no_value}
use rawrtc_data_channel.External.Host.{host}
use rawrtc_data_channel.Parameters.{
  Parameters, reliable_unordered, get_label, get_channel_type, get_reliability_parameter,
  get_protocol, get_negotiated, get_id,
}
use rawrtc_data_channel.Parameters.Copies.{
  Copier, HasCopies, parameters_create, parameters_create-getters,
}

abbrev labelled : Parameters
labelled = record {
  label = some (97 ∷ []);
  channel_type = reliable_unordered;
  reliability_parameter = 0;
  protocol = none;
  negotiated = true;
  id = 7;
}

duplicate_law : (t : ℕ) (text copy : List ℕ) → some text ≡ some copy → copy ≡ text
duplicate_law t text copy e = ground arith

failed_law : (t : ℕ) (text copy : List ℕ) → none ≡ some copy → copy ≡ text
failed_law t text copy e = ground arith

abbrev duplicates : Copier
duplicates = record { strdup = λ t text. some text; strdup_law = duplicate_law }

always : (t : ℕ) → HasCopies host duplicates t
always t text e = ground arith

created :
    parameters_create host duplicates 0 none none (some (97 ∷ [])) reliable_unordered 5 none true 7
    ≡ ok labelled
unfolding parameters_create
created = refl

-- The creation succeeds though the copy of the label has failed: the label is what was in the
-- variable.
abbrev fails : Copier
fails = record { strdup = λ t text. none; strdup_law = failed_law }

unset_label :
    parameters_create host fails 0
      (some (5 ∷ []))
      none
      (some (97 ∷ []))
      reliable_unordered
      5
      none
      true
      7
    ≡ ok (record labelled { label = some (5 ∷ []) })
unfolding parameters_create
unset_label = refl

parameters_create-getters_example :
    (get_label labelled ≡ ok (97 ∷ []))
    × (get_channel_type labelled ≡ ok reliable_unordered)
    × (get_reliability_parameter labelled ≡ err no_value)
    × (get_protocol labelled ≡ err no_value)
    × (get_negotiated labelled ≡ ok true)
    × (get_id labelled ≡ ok 7)
parameters_create-getters_example =
    parameters_create-getters host duplicates 0 none none (some (97 ∷ [])) reliable_unordered 5 none
      true 7 (always 0) (always 1) created
