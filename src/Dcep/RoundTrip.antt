-- ===== src/Dcep/RoundTrip.antt =====
-- A DATA_CHANNEL_OPEN message that one peer creates is read back by the other.
use rawrtc_data_channel.Base.{
  ℕ, zero, suc, ◌+◌, ◌*◌, ◌/◌, ◌%◌, ◌≡◌, refl, sym, ap, ◌∙◌, ◌≤◌, ◌<◌, List, [], ◌∷◌, ◌++◌, Option,
  none, some, false, length, length-append, drop, take-append_length, drop-append_length, take_all,
  arith, ltb, le→ltb, if◌then◌else◌, ◌||◌, append-nil,
}
use rawrtc_data_channel.Base.Code.{ok, err, invalid_argument}
use rawrtc_data_channel.External.{AllBytes, AllBytes-append, Libre, HasMemory, Mbuf, be16, be32}
use rawrtc_data_channel.Parameters.{ChannelType, channel_type_value, Parameters, is_reliable}
use rawrtc_data_channel.Dcep.{
  strlen, strlen_or_zero, priority_normal, message_type_open, uint16_max, channel_type_of,
  data_channel_open_message_create, data_channel_open_message_parse,
}
use rawrtc_data_channel.Dcep.Encoding.{text_of, open_body, message, open_message_create-bytes}
use rawrtc_data_channel.Dcep.Parse.{
  text_or_null, decode_texts, decode_fields, decode, parse-eq-decode, read_u8_step, suc-eq-zero,
}

-- Characters of a C string: no byte is zero.
abbrev pub IsText : List ℕ → Type 0
IsText [] = Unit
IsText (x ∷ xs) = (0 < x) × (x < 256) × IsText xs

abbrev pub IsTextOrNull : Option (List ℕ) → Type 0
IsTextOrNull none = Unit
IsTextOrNull (some l) = IsText l

-- What the C types of the fields guarantee.
pub record IsTyped (p : Parameters) : Type 0 where
  pub label_text : IsTextOrNull p.label
  pub protocol_text : IsTextOrNull p.protocol
  pub reliability_u32 : p.reliability_parameter < 4294967296

-- An empty text cannot be told from none on the wire.
abbrev pub null_if_empty : Option (List ℕ) → Option (List ℕ)
null_if_empty none = none
null_if_empty (some []) = none
null_if_empty (some (x ∷ xs)) = some (x ∷ xs)

-- The parameters that the other peer sees.
abbrev pub as_received : Parameters → Parameters
as_received p = record {
  label = null_if_empty p.label;
  channel_type = p.channel_type;
  reliability_parameter = if is_reliable p.channel_type then 0 else p.reliability_parameter;
  protocol = null_if_empty p.protocol;
  negotiated = false;
  id = 0;
}

strlen-eq-length : (l : List ℕ) → IsText l → strlen l ≡ length l
strlen-eq-length [] h = refl
strlen-eq-length (zero ∷ l) h = absurd (omega arith)
strlen-eq-length (suc x ∷ l) h = ap suc (strlen-eq-length l h.2)

pub strlen-text_of : (o : Option (List ℕ)) → IsTextOrNull o → strlen_or_zero o ≡ length (text_of o)
strlen-text_of none h = refl
strlen-text_of (some l) h = rw (strlen-eq-length l h, take_all (length l) l (omega arith))

text_or_null-text_of :
    (o : Option (List ℕ)) (rest : List ℕ)
    → IsTextOrNull o
    → text_or_null (strlen_or_zero o) (text_of o ++ rest) ≡ null_if_empty o
text_or_null-text_of none rest h = refl
text_or_null-text_of (some []) rest h = refl
text_or_null-text_of (some (zero ∷ l)) rest h = absurd (omega arith)
text_or_null-text_of (some (suc x ∷ l)) rest h =
    rw (strlen-eq-length l h.2, take_all (length l) l (omega arith))
      (rw (suc-eq-zero (length l), take-append_length l rest))

channel_type_of-value : (c : ChannelType) → channel_type_of (channel_type_value c) ≡ some c
channel_type_of-value c = ground arith

IsText-bytes : (l : List ℕ) → IsText l → AllBytes l
IsText-bytes [] h = tt
IsText-bytes (x ∷ l) h = (h.1, IsText-bytes l h.2)

text_of-bytes : (o : Option (List ℕ)) → IsTextOrNull o → AllBytes (text_of o)
text_of-bytes none h = tt
text_of-bytes (some l) h =
    rw (strlen-eq-length l h, take_all (length l) l (omega arith)) (IsText-bytes l h)

be16_value : (n : ℕ) → n ≤ 65535 → n / 256 % 256 * 256 + n % 256 ≡ n
be16_value n h = omega arith

be32_value :
    (n : ℕ)
    → n < 4294967296
    → ((n / 16777216 % 256 * 256 + n / 65536 % 256) * 256 + n / 256 % 256) * 256 + n % 256 ≡ n
be32_value n h = omega arith

decode_texts-text_of :
    (p : Parameters)
    → IsTyped p
    → decode_texts p.channel_type priority_normal p.reliability_parameter
        (strlen_or_zero p.label)
        (strlen_or_zero p.protocol)
        (text_of p.label ++ text_of p.protocol)
      ≡ ok (as_received p, priority_normal)
decode_texts-text_of p w =
    let l = text_of p.label in
    let r = text_of p.protocol in
    let el = strlen-text_of p.label w.label_text in
    let er = strlen-text_of p.protocol w.protocol_text in
    let rest : drop (strlen_or_zero p.label) (l ++ r) ≡ r = rw el (drop-append_length l r) in
    let label = text_or_null-text_of p.label r w.label_text in
    let protocol : text_or_null (strlen_or_zero p.protocol) r ≡ null_if_empty p.protocol =
      ap (text_or_null (strlen_or_zero p.protocol)) (sym (append-nil r))
      ∙ text_or_null-text_of p.protocol [] w.protocol_text in
    rw
      (le→ltb (length (l ++ r)) (strlen_or_zero p.label + strlen_or_zero p.protocol)
        (omega (arith, length-append l r, el, er)))
      (rw (rest, label, protocol))

decode-open_body :
    (p : Parameters)
    → IsTyped p
    → strlen_or_zero p.label ≤ 65535
    → strlen_or_zero p.protocol ≤ 65535
    → decode (open_body p) ≡ ok (as_received p, priority_normal)
unfolding decode
decode-open_body p w hl hp =
    rw
      (
        channel_type_of-value p.channel_type,
        decode_fields,
        be16_value (strlen_or_zero p.label) hl,
        be16_value (strlen_or_zero p.protocol) hp,
        be32_value p.reliability_parameter w.reliability_u32,
        decode,
      )
      (decode_texts-text_of p w)

-- What stands between the channel type and the texts.
abbrev fixed_fields : Parameters → List ℕ
fixed_fields p =
    be16 priority_normal
    ++ (be32 p.reliability_parameter
        ++ (be16 (strlen_or_zero p.label) ++ be16 (strlen_or_zero p.protocol)))

pub created_fits :
    (x y : ℕ) {b b' : Mbuf}
    → (if ltb uint16_max x || ltb uint16_max y then err invalid_argument else ok b') ≡ ok b
    → (x ≤ 65535) × (y ≤ 65535) × (b' ≡ b)
created_fits x y h = ground arith

channel_type_value-lt : (c : ChannelType) → channel_type_value c < 256
channel_type_value-lt c = ground arith

pub open_body-bytes : (p : Parameters) → IsTyped p → AllBytes (open_body p)
open_body-bytes p w =
    let texts =
      AllBytes-append (text_of p.label) (text_of p.protocol) (text_of-bytes p.label w.label_text)
        (text_of-bytes p.protocol w.protocol_text) in
    AllBytes-append (channel_type_value p.channel_type ∷ fixed_fields p)
      (text_of p.label ++ text_of p.protocol) (channel_type_value-lt p.channel_type, omega arith)
      texts

-- If the creation of an open message succeeds, its first byte is the type of an open message, and
-- the parser reads from the rest the normal priority and the parameters as the other peer sees
-- them: an empty text becomes NULL, the reliability parameter of a reliable channel 0, and the
-- channel is not negotiated. It holds while memory lasts on both sides, for texts without a zero
-- byte and a reliability parameter of 32 bits.
pub open_message_round_trip :
    (lib : Libre) (t u id : ℕ) (p : Parameters) {b : Mbuf}
    → HasMemory lib t
    → HasMemory lib u
    → IsTyped p
    → data_channel_open_message_create lib t p ≡ ok b
    → ((lib.read_u8 b).0 ≡ message_type_open)
      × (data_channel_open_message_parse lib u id (lib.read_u8 b).1
          ≡ ok (as_received p, priority_normal))
open_message_round_trip lib t u id p m m' w created =
    let fits =
      created_fits (strlen_or_zero p.label) (strlen_or_zero p.protocol)
        (sym (open_message_create-bytes lib t m p) ∙ created) in
    let b' = message (message_type_open ∷ open_body p) in
    let step = read_u8_step lib u m' b' message_type_open (open_body p) refl in
    let parsed = parse-eq-decode lib u m' id (lib.read_u8 b').1 (rw step.1 (open_body-bytes p w)) in
    let decoded = ap decode step.1 ∙ decode-open_body p w fits.0 fits.1 in
    rw (← fits.2) (step.0, parsed ∙ decoded)
