-- ===== src/Transport/Receive/Reassembly.antt =====
-- The chunks of an incoming message in `buffer_message_received_raise_complete`.
use rawrtc_data_channel.Base.{
  ℕ, ◌≡◌, refl, ap, ◌∙◌, sym, List, [], ◌++◌, append-nil, true, false, none, some, inl, inr, ltb,
  length, drop, drop_all, arith, Bool-cases,
}
use rawrtc_data_channel.Base.Code.{success, no_value}
use rawrtc_data_channel.External.{Libre, Mbuf, left, HasMemory}
use rawrtc_data_channel.Channel.{RcvInfo}
use rawrtc_data_channel.Transport.Receive.{
  is_complete_chunk, append_chunk, keep_chunk, first_chunk, buffer_message_received_raise_complete,
}

-- A buffer that holds chunks and waits for more, and the one that is handed on.
abbrev pub gathered : List ℕ → Mbuf
gathered l = record { buf = l; pos = length l }

abbrev pub merged : List ℕ → Mbuf
merged l = record { buf = l; pos = 0 }

module _ (lib : Libre) (t : ℕ) (mem : HasMemory lib t) where
  append_chunk-more :
      (l src : List ℕ) (info : RcvInfo)
      → append_chunk lib t (gathered l) info src false
        ≡ (no_value, some (gathered (l ++ src)), info)
  unfolding append_chunk
  append_chunk-more l src info = rw (
    lib.write_mem_law t (gathered l) src refl (mem.write_mem_ok (gathered l) src),
    lib.error_to_code_zero,
  )

  append_chunk-last :
      (l src : List ℕ) (info : RcvInfo)
      → append_chunk lib t (gathered l) info src true ≡ (success, some (merged (l ++ src)), info)
  unfolding append_chunk
  append_chunk-last l src info = rw (
    lib.write_mem_law t (gathered l) src refl (mem.write_mem_ok (gathered l) src),
    lib.error_to_code_zero,
    lib.set_pos_law (gathered (l ++ src)) 0 (omega arith),
  )

  keep_chunk-all :
      (b : Mbuf) (info : RcvInfo)
      → keep_chunk lib t b info ≡ (no_value, some (gathered (b.buf)), info)
  keep_chunk-all b info = rw (
    lib.skip_to_end_law b,
    drop_all (length b.buf) b.buf (omega arith),
    append_chunk-more b.buf [] info,
    append-nil b.buf,
  )

  first_chunk-all :
      (b : Mbuf) (info : RcvInfo)
      → first_chunk lib t b info ≡ (no_value, some (gathered (left b)), info)
  unfolding first_chunk
  first_chunk-all b info = elim (Bool-cases (ltb 0 b.pos)) [
    | inl room ↦
        rw (room, lib.shift_to_start_law t b (mem.shift_ok b), lib.error_to_code_zero)
          (keep_chunk-all (merged (left b)) info)
    | inr no_room ↦
        let start : b.pos ≡ 0 = ground arith in
        rw no_room (
          keep_chunk-all b info
          ∙ ap (λ n. (no_value, some (gathered (drop n b.buf)), info)) (sym start))
  ]

  -- The first of several chunks is kept, whatever its headroom; each further one is appended.
  pub buffer_message-more :
      (l : List ℕ) (old info0 info : RcvInfo) (b : Mbuf)
      → (buffer_message_received_raise_complete lib t none old b info false
          ≡ (no_value, some (gathered (left b)), info))
        × (buffer_message_received_raise_complete lib t (some (gathered l)) info0 b info false
            ≡ (no_value, some (gathered (l ++ left b)), info0))
  unfolding buffer_message_received_raise_complete
  buffer_message-more l old info0 info b =
      (first_chunk-all b info, append_chunk-more l (left b) info0)

  -- With the last chunk the message is complete.
  pub buffer_message-last :
      (l : List ℕ) (info0 info : RcvInfo) (b : Mbuf)
      → is_complete_chunk info.rcv_ppid true ≡ true
      → buffer_message_received_raise_complete lib t (some (gathered l)) info0 b info true
        ≡ (success, some (merged (l ++ left b)), info0)
  unfolding buffer_message_received_raise_complete
  buffer_message-last l info0 info b h = rw (h, append_chunk-last l (left b) info0) refl
