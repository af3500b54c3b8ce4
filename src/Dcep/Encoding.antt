-- ===== src/Dcep/Encoding.antt =====
-- The messages written by `data_channel_open_message_create` and `data_channel_ack_message_create`,
-- byte by byte.
use rawrtc_data_channel.Base.{
  ℕ, ◌≡◌, refl, List, [], ◌∷◌, ◌++◌, Option, none, some, length, take, append-nil, arith, ltb,
  if◌then◌else◌, ◌||◌,
}
use rawrtc_data_channel.Base.Code.{ok, err, invalid_argument}
use rawrtc_data_channel.External.{
  Libre, HasMemory, Mbuf, be16, be32, bytes_of, bytes_of-swap16, bytes_of-swap32,
}
use rawrtc_data_channel.Parameters.{ChannelType, channel_type_value, Parameters}
use rawrtc_data_channel.Dcep.{
  strlen, strlen_or_zero, priority_normal, message_type_open, message_type_ack, uint16_max,
  data_channel_open_message_create, data_channel_ack_message_create, write_open_message, write_text,
  finish_message,
}

-- The bytes of a text up to its first zero.
abbrev pub text_of : Option (List ℕ) → List ℕ
text_of none = []
text_of (some text) = take (strlen text) text

-- The DATA_CHANNEL_OPEN message without the message type.
abbrev pub open_body : Parameters → List ℕ
open_body p =
    channel_type_value p.channel_type
    ∷ (be16 priority_normal
        ++ (be32 p.reliability_parameter
            ++ (be16 (strlen_or_zero p.label)
                ++ (be16 (strlen_or_zero p.protocol) ++ (text_of p.label ++ text_of p.protocol)))))

-- The buffer that a complete message stands in.
abbrev pub message : List ℕ → Mbuf
message l = record { buf = l; pos = 0 }

abbrev at_end : List ℕ → Mbuf
at_end l = record { buf = l; pos = length l }

channel_type_value-byte :
    (c : ChannelType) → bytes_of 1 (channel_type_value c) ≡ channel_type_value c ∷ []
channel_type_value-byte c = ground arith

module _ (lib : Libre) (t : ℕ) (m : HasMemory lib t) where
  write_u8-at_end :
      (l : List ℕ) (v : ℕ) → lib.write_u8 t (at_end l) v ≡ (0, at_end (l ++ bytes_of 1 v))
  write_u8-at_end l v = lib.write_u8_law t (at_end l) v refl (m.write_u8_ok (at_end l) v)

  write_u16-at_end :
      (l : List ℕ) (v : ℕ) → lib.write_u16 t (at_end l) v ≡ (0, at_end (l ++ bytes_of 2 v))
  write_u16-at_end l v = lib.write_u16_law t (at_end l) v refl (m.write_u16_ok (at_end l) v)

  write_u32-at_end :
      (l : List ℕ) (v : ℕ) → lib.write_u32 t (at_end l) v ≡ (0, at_end (l ++ bytes_of 4 v))
  write_u32-at_end l v = lib.write_u32_law t (at_end l) v refl (m.write_u32_ok (at_end l) v)

  write_text-at_end :
      (o : Option (List ℕ)) (l : List ℕ)
      → write_text lib t o (0, at_end l) ≡ (0, at_end (l ++ text_of o))
  unfolding write_text
  write_text-at_end none l = rw append-nil
  write_text-at_end (some text) l =
      rw (
        lib.write_mem_law t (at_end l) (take (strlen text) text) refl (m.write_mem_ok (at_end l) _))

  finish-at_end : (l : List ℕ) → finish_message lib (0, at_end l) ≡ ok (message l)
  unfolding finish_message
  finish-at_end l = rw (lib.set_pos_law (at_end l) 0 (omega arith))

  write_open_message-at_end :
      (p : Parameters)
      → write_open_message lib t p (at_end []) ≡ (0, at_end (message_type_open ∷ open_body p))
  unfolding write_open_message
  write_open_message-at_end p = simp (
    write_u8-at_end, write_u16-at_end, write_u32-at_end, bytes_of-swap16, bytes_of-swap32,
    channel_type_value-byte, write_text-at_end,
  )

  -- While memory lasts, the open message is refused exactly if a text is longer than 65535 bytes, and
  -- is otherwise the message type followed by the fields in network byte order and the texts.
  pub open_message_create-bytes :
      (p : Parameters)
      → data_channel_open_message_create lib t p ≡ (
          if ltb uint16_max (strlen_or_zero p.label) || ltb uint16_max (strlen_or_zero p.protocol)
          then err invalid_argument
          else ok (message (message_type_open ∷ open_body p)))
  unfolding data_channel_open_message_create
  open_message_create-bytes p = rw (m.alloc_ok, write_open_message-at_end p, finish-at_end)

  -- While memory lasts, the ack message is the one byte of its type.
  pub ack_message_create-bytes :
      data_channel_ack_message_create lib t ≡ ok (message (message_type_ack ∷ []))
  unfolding data_channel_ack_message_create
  ack_message_create-bytes =
      rw (m.alloc_ok 1, data_channel_ack_message_create)
        (rw (write_u8-at_end [] message_type_ack) (finish-at_end (message_type_ack ∷ [])))
