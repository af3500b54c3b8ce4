-- ===== src/External/Errors.antt =====
-- The translation of `errno` to a code.
use rawrtc_data_channel.Base.{
  ℕ, zero, suc, ◌≡◌, refl, ◌<◌, true, false, arith, Bool-cases, inl, inr,
}
use rawrtc_data_channel.Base.Code.{Code, success, is_error}
use rawrtc_data_channel.External.{Libre}

pub success_only : (c : Code) → is_error c ≡ false → c ≡ success
success_only success e = refl
success_only _ e = absurd (cc)

pub error_is_error : (lib : Libre) (e : ℕ) → 0 < e → is_error (lib.error_to_code e) ≡ true
error_is_error lib zero h = absurd (omega arith)
error_is_error lib (suc e) h = elim (Bool-cases (is_error (lib.error_to_code (suc e)))) [
  | inl b ↦ b
  | inr b ↦ absurd (lib.error_to_code_suc e (success_only (lib.error_to_code (suc e)) b))
]
