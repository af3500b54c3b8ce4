-- ===== src/Dcep/Parse.antt =====
-- `data_channel_open_message_parse` against a decoder of byte lists.
use rawrtc_data_channel.Base.{
  ℕ, zero, suc, ◌+◌, ◌*◌, ◌-◌, ◌≡◌, refl, ◌∙◌, ap, ◌≤◌, ◌<◌, List, [], ◌∷◌, Option, none, some,
  length, take, drop, arith, ltb, ◌==◌, if◌then◌else◌, Bool-cases, inl, inr, false, Option-cases,
  length-drop, le→ltb, lt→ltb, true, ltb→lt,
}
use rawrtc_data_channel.Base.Code.{Result, ok, err, invalid_message}
use rawrtc_data_channel.External.{
  AllBytes, Libre, HasMemory, Mbuf, left, advanced, left-advanced, word_of, swap16, swap32,
}
use rawrtc_data_channel.Parameters.{
  ChannelType, Parameters, is_reliable, parameters_create_internal,
}
use rawrtc_data_channel.Dcep.{
  channel_type_of, OpenFields, read_open_fields, read_text, read_parameters, open_parameters,
  data_channel_open_message_parse,
}

abbrev pub text_or_null : ℕ → List ℕ → Option (List ℕ)
text_or_null n l = if n == 0 then none else some (take n l)

abbrev pub decode_texts : ChannelType → ℕ → ℕ → ℕ → ℕ → List ℕ → Result (Parameters × ℕ)
decode_texts c priority reliability n m texts =
    if ltb (length texts) (n + m)
    then err invalid_message
    else ok (
      record {
        label = text_or_null n texts;
        channel_type = c;
        reliability_parameter = if is_reliable c then 0 else reliability;
        protocol = text_or_null m (drop n texts);
        negotiated = false;
        id = 0;
      },
      priority,
    )

abbrev pub decode_fields : OpenFields → List ℕ → Result (Parameters × ℕ)
decode_fields f texts = elim (channel_type_of f.channel_type) [
  | none ↦ err invalid_message
  | some c ↦
      decode_texts c f.priority f.reliability_parameter f.label_length f.protocol_length texts
]

-- The message without its type, read field by field in network byte order.
unfoldable pub decode : List ℕ → Result (Parameters × ℕ)
decode (c ∷ p1 ∷ p0 ∷ r3 ∷ r2 ∷ r1 ∷ r0 ∷ l1 ∷ l0 ∷ q1 ∷ q0 ∷ texts) =
    decode_fields
      (record {
        channel_type = c;
        priority = p1 * 256 + p0;
        reliability_parameter = ((r3 * 256 + r2) * 256 + r1) * 256 + r0;
        label_length = l1 * 256 + l0;
        protocol_length = q1 * 256 + q0;
      })
      texts
decode _ = err invalid_message

decode_short : (l : List ℕ) → length l < 11 → decode l ≡ err invalid_message
unfolding decode
decode_short [] h = refl
decode_short (c ∷ p1 ∷ p0 ∷ r3 ∷ r2 ∷ r1 ∷ r0 ∷ l1 ∷ l0 ∷ q1 ∷ q0 ∷ texts) h = absurd (omega arith)
decode_short _ h = refl

-- `ntohs` and `ntohl` of what was read give the numbers in network byte order.
network_order :
    (c p1 p0 r3 r2 r1 r0 l1 l0 q1 q0 : ℕ)
    → AllBytes (c ∷ p1 ∷ p0 ∷ r3 ∷ r2 ∷ r1 ∷ r0 ∷ l1 ∷ l0 ∷ q1 ∷ q0 ∷ [])
    → ◌≡◌ {A = OpenFields}
        (record {
          channel_type = c;
          priority = swap16 (word_of (p1 ∷ p0 ∷ []));
          reliability_parameter = swap32 (word_of (r3 ∷ r2 ∷ r1 ∷ r0 ∷ []));
          label_length = swap16 (word_of (l1 ∷ l0 ∷ []));
          protocol_length = swap16 (word_of (q1 ∷ q0 ∷ []));
        })
        (record {
          channel_type = c;
          priority = p1 * 256 + p0;
          reliability_parameter = ((r3 * 256 + r2) * 256 + r1) * 256 + r0;
          label_length = l1 * 256 + l0;
          protocol_length = q1 * 256 + q0;
        })
network_order c p1 p0 r3 r2 r1 r0 l1 l0 q1 q0 bytes = ground arith

pub suc-eq-zero : (n : ℕ) → (suc n == 0) ≡ false
suc-eq-zero n = ground arith

module _ (lib : Libre) (t : ℕ) (m : HasMemory lib t) where
  strdup_eq :
      (b : Mbuf) (n : ℕ)
      → n ≤ length (left b)
      → lib.strdup t b n ≡ (0, take n (left b), advanced b n)
  strdup_eq b n h = lib.strdup_law t b n h (m.strdup_ok b n h)

  read_text_eq :
      (b : Mbuf) (n : ℕ)
      → n ≤ length (left b)
      → read_text lib t b n ≡ ok (text_or_null n (left b), if n == 0 then b else advanced b n)
  unfolding read_text
  read_text_eq b n h = rw (lib.get_left_law b, strdup_eq b n h) (ground arith)

  pub read_u8_step :
      (b : Mbuf) (x : ℕ) (xs : List ℕ)
      → left b ≡ x ∷ xs
      → ((lib.read_u8 b).0 ≡ x) × (left (lib.read_u8 b).1 ≡ xs)
  read_u8_step b x xs h =
      rw (lib.read_u8_law b x xs h) (refl, rw (left-advanced b 1) (ap (drop 1) h))

  read_u16_step :
      (b : Mbuf) (x y : ℕ) (xs : List ℕ)
      → left b ≡ x ∷ y ∷ xs
      → ((lib.read_u16 b).0 ≡ word_of (x ∷ y ∷ [])) × (left (lib.read_u16 b).1 ≡ xs)
  read_u16_step b x y xs h =
      rw (lib.read_u16_law b x y xs h) (refl, rw (left-advanced b 2) (ap (drop 2) h))

  read_u32_step :
      (b : Mbuf) (x y z w : ℕ) (xs : List ℕ)
      → left b ≡ x ∷ y ∷ z ∷ w ∷ xs
      → ((lib.read_u32 b).0 ≡ word_of (x ∷ y ∷ z ∷ w ∷ [])) × (left (lib.read_u32 b).1 ≡ xs)
  read_u32_step b x y z w xs h =
      rw (lib.read_u32_law b x y z w xs h) (refl, rw (left-advanced b 4) (ap (drop 4) h))

  read_open_fields_eq :
      (b : Mbuf) (c p1 p0 r3 r2 r1 r0 l1 l0 q1 q0 : ℕ) (texts : List ℕ)
      → left b ≡ c ∷ p1 ∷ p0 ∷ r3 ∷ r2 ∷ r1 ∷ r0 ∷ l1 ∷ l0 ∷ q1 ∷ q0 ∷ texts
      → ((read_open_fields lib b).0 ≡ record {
        channel_type = c;
        priority = swap16 (word_of (p1 ∷ p0 ∷ []));
        reliability_parameter = swap32 (word_of (r3 ∷ r2 ∷ r1 ∷ r0 ∷ []));
        label_length = swap16 (word_of (l1 ∷ l0 ∷ []));
        protocol_length = swap16 (word_of (q1 ∷ q0 ∷ []));
      })
        × (left (read_open_fields lib b).1 ≡ texts)
  unfolding read_open_fields
  read_open_fields_eq b c p1 p0 r3 r2 r1 r0 l1 l0 q1 q0 texts h =
      let s1 = read_u8_step b _ _ h in
      let s2 = read_u16_step _ _ _ _ s1.1 in
      let s3 = read_u32_step _ _ _ _ _ _ s2.1 in
      let s4 = read_u16_step _ _ _ _ s3.1 in
      let s5 = read_u16_step _ _ _ _ s4.1 in (rw (s1.0, s2.0, s3.0, s4.0, s5.0), s5.1)

  after : (b : Mbuf) (n : ℕ) → left (if n == 0 then b else advanced b n) ≡ drop n (left b)
  after b zero = refl
  after b (suc n) = rw (suc-eq-zero n) (left-advanced b (suc n))

  read_text_short :
      (b : Mbuf) (n : ℕ)
      → ltb (length (left b)) n ≡ true
      → read_text lib t b n ≡ err invalid_message
  unfolding read_text
  read_text_short b n h = rw (lib.get_left_law b, h)

  -- both texts are there
  read_parameters_ok :
      (id : ℕ) (f : OpenFields) (c : ChannelType) (b : Mbuf)
      → f.label_length + f.protocol_length ≤ length (left b)
      → read_parameters lib t id f c b
        ≡ decode_texts c f.priority f.reliability_parameter f.label_length f.protocol_length
            (left b)
  unfolding read_parameters parameters_create_internal
  read_parameters_ok id f c b h =
      let rest : length (drop f.label_length (left b)) ≡ length (left b) - f.label_length =
        length-drop f.label_length (left b) in
      let b' = if f.label_length == 0 then b else advanced b f.label_length in
      let e = after b f.label_length in
      let r1 = read_text_eq b f.label_length (omega arith) in
      let r2 = read_text_eq b' f.protocol_length (rw e (omega arith)) in
      rw (r1, read_parameters) (rw (r2, read_parameters) (rw (m.zalloc_ok, e, le→ltb _ _ h)))

  -- one of them is not
  read_parameters_err :
      (id : ℕ) (f : OpenFields) (c : ChannelType) (b : Mbuf)
      → length (left b) < f.label_length + f.protocol_length
      → read_parameters lib t id f c b ≡ err invalid_message
  unfolding read_parameters
  read_parameters_err id f c b h = elim (Bool-cases (ltb (length (left b)) f.label_length)) [
    | inl short ↦ rw (read_text_short b f.label_length short, read_parameters)
    | inr long ↦
        let r1 = read_text_eq b f.label_length (ground arith) in
        let b' = if f.label_length == 0 then b else advanced b f.label_length in
        let e = after b f.label_length in
        let rest : length (drop f.label_length (left b)) ≡ length (left b) - f.label_length =
          length-drop f.label_length (left b) in
        let r2 = read_text_short b' f.protocol_length (rw e (ground arith)) in
        rw (r1, read_parameters) (rw (r2, read_parameters))
  ]

  parse_short :
      (id : ℕ) (b : Mbuf)
      → length (left b) < 11
      → data_channel_open_message_parse lib t id b ≡ err invalid_message
  unfolding data_channel_open_message_parse
  parse_short id b h = rw (lib.get_left_law b, lt→ltb _ _ h)

  open_parameters_eq :
      (id : ℕ) (f : OpenFields) (b : Mbuf) → open_parameters lib t id f b ≡ decode_fields f (left b)
  unfolding open_parameters
  open_parameters_eq id f b = elim (Option-cases (channel_type_of f.channel_type)) [
    | inl bad ↦ rw (bad, open_parameters, decode_fields)
    | inr (c, good) ↦
        let n = f.label_length + f.protocol_length in
        rw (good, open_parameters, decode_fields)
          (elim (Bool-cases (ltb (length (left b)) n)) [
            | inl short ↦ rw short (read_parameters_err id f c b (ltb→lt _ _ short))
            | inr long ↦ read_parameters_ok id f c b (ground arith)
          ])
  ]

  parse_long :
      (id : ℕ) (b : Mbuf) (c p1 p0 r3 r2 r1 r0 l1 l0 q1 q0 : ℕ) (texts : List ℕ)
      → left b ≡ c ∷ p1 ∷ p0 ∷ r3 ∷ r2 ∷ r1 ∷ r0 ∷ l1 ∷ l0 ∷ q1 ∷ q0 ∷ texts
      → AllBytes (c ∷ p1 ∷ p0 ∷ r3 ∷ r2 ∷ r1 ∷ r0 ∷ l1 ∷ l0 ∷ q1 ∷ q0 ∷ texts)
      → data_channel_open_message_parse lib t id b
        ≡ decode (c ∷ p1 ∷ p0 ∷ r3 ∷ r2 ∷ r1 ∷ r0 ∷ l1 ∷ l0 ∷ q1 ∷ q0 ∷ texts)
  unfolding data_channel_open_message_parse decode
  parse_long id b c p1 p0 r3 r2 r1 r0 l1 l0 q1 q0 texts h bytes =
      let (f, after_fields) = read_open_fields_eq b c p1 p0 r3 r2 r1 r0 l1 l0 q1 q0 texts h in
      let (f', b') = read_open_fields lib b in
      let enough : ltb (lib.get_left b) 11 ≡ false =
        rw (lib.get_left_law b, h) (le→ltb _ _ (omega arith)) in
      rw (enough, open_parameters_eq id f' b', after_fields)
        (ap (λ x. decode_fields x texts)
          (f ∙ network_order c p1 p0 r3 r2 r1 r0 l1 l0 q1 q0 (omega arith)))

  parse_cases :
      (id : ℕ) (b : Mbuf) (l : List ℕ)
      → left b ≡ l
      → AllBytes l
      → data_channel_open_message_parse lib t id b ≡ decode l
  parse_cases id b (c ∷ p1 ∷ p0 ∷ r3 ∷ r2 ∷ r1 ∷ r0 ∷ l1 ∷ l0 ∷ q1 ∷ q0 ∷ texts) h bytes =
      parse_long id b c p1 p0 r3 r2 r1 r0 l1 l0 q1 q0 texts h bytes
  parse_cases id b l h bytes =
      rw (decode_short l (omega arith)) (parse_short id b (rw h (omega arith)))

  -- While memory lasts, the parser accepts exactly the messages that the decoder of byte lists
  -- accepts, with the same parameters and priority, and refuses the others as invalid: a message
  -- shorter than its fixed part, an unknown channel type, a text longer than what is left.
  pub parse-eq-decode :
      (id : ℕ) (b : Mbuf)
      → AllBytes (left b)
      → data_channel_open_message_parse lib t id b ≡ decode (left b)
  parse-eq-decode id b bytes = parse_cases id b (left b) refl bytes
