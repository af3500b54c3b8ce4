-- ===== src/Dcep/Wire.antt =====
-- What a DATA_CHANNEL_OPEN message is on the wire: a list of bytes of a bounded length.
use rawrtc_data_channel.Base.{
  ℕ, ◌+◌, ◌≡◌, ap, sym, ◌∙◌, subst, ◌≤◌, List, ◌∷◌, length, length-append, arith,
}
use rawrtc_data_channel.Base.Code.{ok}
use rawrtc_data_channel.External.{AllBytes, Libre, HasMemory, Mbuf, left}
use rawrtc_data_channel.Parameters.{Parameters}
use rawrtc_data_channel.Dcep.{strlen_or_zero, message_type_open, data_channel_open_message_create}
use rawrtc_data_channel.Dcep.Encoding.{text_of, open_body, open_message_create-bytes}
use rawrtc_data_channel.Dcep.RoundTrip.{IsTyped, open_body-bytes, strlen-text_of, created_fits}

-- The bytes `l` of an open message with the parameters `p`.
pub record IsWhole (p : Parameters) (l : List ℕ) : Type 0 where
  pub bytes : AllBytes l
  pub size : length l ≡ 12 + (strlen_or_zero p.label + strlen_or_zero p.protocol)
  pub bounded : length l ≤ 131082

open_body-length :
    (p : Parameters)
    → IsTyped p
    → length (open_body p) ≡ 11 + (strlen_or_zero p.label + strlen_or_zero p.protocol)
open_body-length p w = omega (
  arith,
  length-append (text_of p.label) (text_of p.protocol),
  strlen-text_of p.label w.label_text,
  strlen-text_of p.protocol w.protocol_text,
)

-- An open message that is created from parameters in the range of their C types, while memory lasts,
-- consists of bytes. It has 12 of them before the two texts, and at most 131082 in all.
pub open_message_create-IsWhole :
    (lib : Libre) (t : ℕ) (p : Parameters) {b : Mbuf}
    → HasMemory lib t
    → IsTyped p
    → data_channel_open_message_create lib t p ≡ ok b
    → IsWhole p (left b)
open_message_create-IsWhole lib t p {b} m w e =
    let (label_fits, protocol_fits, made) =
      created_fits (strlen_or_zero p.label) (strlen_or_zero p.protocol)
        (sym (open_message_create-bytes lib t m p) ∙ e) in
    let same : message_type_open ∷ open_body p ≡ left b = ap left made in
    let size = open_body-length p w in
    record {
      bytes = subst (λ l. AllBytes l) same (omega arith, open_body-bytes p w);
      size = omega (arith, size, ap length same);
      bounded = omega (arith, size, ap length same, label_fits, protocol_fits);
    }
