-- ===== src/Base/Code.antt =====
-- `enum rawrtc_code` of rawrtcc, as far as src/ names its values; `other` stands for the rest.
use mathlib.Core.Bool.{Bool, true, false}
use mathlib.Core.Logic.{◌⊎◌, inl, inr}
use mathlib.Core.Path.{◌≡◌, refl}
use Prim.Native.Nat.{ℕ}

pub data Code : Type 0 where
  success no_value stop_iteration : Code
  invalid_argument invalid_state invalid_message : Code
  no_memory try_again_later message_too_long still_in_use insufficient_space : Code
  external_error unknown_error unsupported_algorithm not_implemented initialise_fail : Code
  other : ℕ → Code

-- `if (error)`: success is the value 0.
abbrev pub is_error : Code → Bool
is_error success = false
is_error _ = true

-- A function that returns a value through a pointer on success, and a code otherwise.
pub data Result {ℓ} (A : Type ℓ) : Type ℓ where
  ok : A → Result A
  err : Code → Result A

pub Result-cases {ℓ} :
    {A : Type ℓ} (r : Result A) → ((e : Code) × (r ≡ err e)) ⊎ ((a : A) × (r ≡ ok a))
Result-cases (err e) = inl (e, refl)
Result-cases (ok a) = inr (a, refl)
