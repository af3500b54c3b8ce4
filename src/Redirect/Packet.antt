-- ===== src/Redirect/Packet.antt =====
-- The bytes of a patched packet. A buffer is seen as what stands before its position and what
-- stands behind it.
use rawrtc_data_channel.Base.{
  ℕ, suc, ◌+◌, ◌≤◌, ◌≡◌, refl, sym, ap, subst, ◌∙◌, List, [], ◌∷◌, ◌++◌, length, take, drop, arith,
  length-append, drop-append_length, take-append_length, take-append-drop, drop-add, length-take,
  length-drop, append_assoc, take_all,
}
use rawrtc_data_channel.External.{
  Libre, Mbuf, left, advanced, overwritten, swap16, bytes_of, be16, bytes_of-swap16,
}
use rawrtc_data_channel.Checksum.{Crc, with_checksum}
use rawrtc_data_channel.Checksum.Fields.{stamped}
use rawrtc_data_channel.Redirect.{zero_fill, patch_checksum, patch_sctp_header}

abbrev pub at : List ℕ → List ℕ → Mbuf
at pre rest = record { buf = pre ++ rest; pos = length pre }

-- An SCTP packet: two ports and what follows them.
abbrev pub packet : ℕ → ℕ → List ℕ → List ℕ
packet source destination body = be16 source ++ (be16 destination ++ body)

pub mbuf-eq :
    {l m : List ℕ} {i j : ℕ}
    → l ≡ m
    → i ≡ j
    → ◌≡◌ {A = Mbuf} (record { buf = l; pos = i }) (record { buf = m; pos = j })
mbuf-eq e f = cc

pub left-at : (pre rest : List ℕ) → left (at pre rest) ≡ rest
left-at pre rest = drop-append_length pre rest

drop_behind : (pre old rest : List ℕ) → drop (length pre + length old) (pre ++ (old ++ rest)) ≡ rest
drop_behind pre old rest =
    drop-add (length pre) (length old) (pre ++ (old ++ rest))
    ∙ (ap (drop (length old)) (drop-append_length pre (old ++ rest)) ∙ drop-append_length old rest)

advanced-at :
    (pre old rest : List ℕ) → advanced (at pre (old ++ rest)) (length old) ≡ at (pre ++ old) rest
advanced-at pre old rest = mbuf-eq (sym (append_assoc pre old rest)) (sym (length-append pre old))

overwritten-at :
    (pre old src rest : List ℕ)
    → length old ≡ length src
    → overwritten (at pre (old ++ rest)) src ≡ at (pre ++ src) rest
overwritten-at pre old src rest e =
    mbuf-eq
      (rw (take-append_length pre (old ++ rest), sym e, drop_behind pre old rest)
        (sym (append_assoc pre src rest)))
      (sym (length-append pre src))

zero_fill-at :
    (pre old rest : List ℕ)
    → length old ≡ 4
    → zero_fill (at pre (old ++ rest)) ≡ at pre (bytes_of 4 0 ++ rest)
zero_fill-at pre old rest e =
    mbuf-eq
      (rw (take-append_length pre (old ++ rest), sym e, drop_behind pre old rest)
        (take_all (length (pre ++ (old ++ rest))) (pre ++ (bytes_of 4 0 ++ rest)) (
          omega (
            arith,
            length-append pre (bytes_of 4 0 ++ rest),
            length-append pre (old ++ rest),
            length-append old rest,
          ))))
      refl

set_pos-at :
    (pre mid rest : List ℕ)
    → record (at (pre ++ mid) rest) { pos = length pre } ≡ at pre (mid ++ rest)
set_pos-at pre mid rest = mbuf-eq (append_assoc pre mid rest) refl

room :
    {n : ℕ} (pre old rest : List ℕ)
    → length old ≡ n
    → length pre + n ≤ length (pre ++ (old ++ rest))
room pre old rest e = omega (arith, length-append pre (old ++ rest), length-append old rest)

take_front : (n : ℕ) (old rest : List ℕ) → length old ≡ n → take n (old ++ rest) ≡ old
take_front n old rest e = ap (λ k. take k (old ++ rest)) (sym e) ∙ take-append_length old rest

drop_front : (n : ℕ) (old rest : List ℕ) → length old ≡ n → drop n (old ++ rest) ≡ rest
drop_front n old rest e = ap (λ k. drop k (old ++ rest)) (sym e) ∙ drop-append_length old rest

-- What a checksum changes in a packet whose verification tag and checksum are known.
with_checksum-packet :
    (s d v : ℕ) (tag sum rest : List ℕ)
    → length tag ≡ 4
    → length sum ≡ 4
    → with_checksum (packet s d (tag ++ (sum ++ rest))) v
      ≡ be16 s ++ (be16 d ++ (tag ++ (bytes_of 4 v ++ rest)))
with_checksum-packet s d v tag sum rest e f =
    rw
      (
        take_front 4 tag (sum ++ rest) e,
        drop-add 4 4 (tag ++ (sum ++ rest)),
        drop_front 4 tag (sum ++ rest) e,
        drop_front 4 sum rest f,
      )
      refl

module _ (lib : Libre) where
  pub advance-at :
      (n : ℕ) (pre old rest : List ℕ)
      → length old ≡ n
      → lib.advance (at pre (old ++ rest)) n ≡ at (pre ++ old) rest
  advance-at n pre old rest e =
      lib.advance_law (at pre (old ++ rest)) n
        (omega (arith, ap length (left-at pre (old ++ rest)), length-append old rest))
      ∙ (ap (advanced (at pre (old ++ rest))) (sym e) ∙ advanced-at pre old rest)

  write_u16-at :
      (t : ℕ) (pre old rest : List ℕ) (v : ℕ)
      → length old ≡ 2
      → lib.write_u16 t (at pre (old ++ rest)) v ≡ (0, at (pre ++ bytes_of 2 v) rest)
  write_u16-at t pre old rest v e =
      lib.write_u16_in t (at pre (old ++ rest)) v (room pre old rest e)
      ∙ ap (λ b. (0, b)) (overwritten-at pre old (bytes_of 2 v) rest e)

  write_u32-at :
      (t : ℕ) (pre old rest : List ℕ) (v : ℕ)
      → length old ≡ 4
      → lib.write_u32 t (at pre (old ++ rest)) v ≡ (0, at (pre ++ bytes_of 4 v) rest)
  write_u32-at t pre old rest v e =
      lib.write_u32_in t (at pre (old ++ rest)) v (room pre old rest e)
      ∙ ap (λ b. (0, b)) (overwritten-at pre old (bytes_of 4 v) rest e)

  pub set_pos_back :
      (pre mid rest : List ℕ)
      → lib.set_pos (at (pre ++ mid) rest) (length pre) ≡ at pre (mid ++ rest)
  set_pos_back pre mid rest =
      lib.set_pos_law (at (pre ++ mid) rest) (length pre)
        (omega (arith, length-append (pre ++ mid) rest, length-append pre mid))
      ∙ set_pos-at pre mid rest

  module _ (crc : Crc) where
    patch_checksum-at :
        (t : ℕ) (pre mid sum rest : List ℕ)
        → length mid ≡ 8
        → length sum ≡ 4
        → patch_checksum lib crc t (length pre) (at (pre ++ mid) (sum ++ rest))
          ≡ at pre (mid ++ (bytes_of 4 (crc.crc32c (mid ++ (bytes_of 4 0 ++ rest))) ++ rest))
    patch_checksum-at t pre mid sum rest e f =
        let c : ℕ = crc.crc32c (mid ++ (bytes_of 4 0 ++ rest)) in
        rw
          (
            zero_fill-at (pre ++ mid) sum rest f,
            set_pos_back pre mid (bytes_of 4 0 ++ rest),
            left-at pre (mid ++ (bytes_of 4 0 ++ rest)),
            advance-at 8 pre mid (bytes_of 4 0 ++ rest) e,
            write_u32-at t (pre ++ mid) (bytes_of 4 0) rest c refl,
            append_assoc pre mid (bytes_of 4 c),
            set_pos_back pre (mid ++ bytes_of 4 c) rest,
            append_assoc mid (bytes_of 4 c) rest,
          )
          refl

    patch_parts :
        (t s d : ℕ) (pre one two tag sum rest : List ℕ)
        → length one ≡ 2
        → length two ≡ 2
        → length tag ≡ 4
        → length sum ≡ 4
        → patch_sctp_header lib crc t (at pre (one ++ (two ++ (tag ++ (sum ++ rest))))) s d
          ≡ at pre (stamped crc (packet s d (tag ++ (sum ++ rest))))
    unfolding patch_sctp_header
    patch_parts t s d pre one two tag sum rest a b e f =
        rw
          (
            write_u16-at t pre one (two ++ (tag ++ (sum ++ rest))) (swap16 s) a,
            bytes_of-swap16 s,
            write_u16-at t (pre ++ be16 s) two (tag ++ (sum ++ rest)) (swap16 d) b,
            bytes_of-swap16 d,
            advance-at 4 ((pre ++ be16 s) ++ be16 d) tag (sum ++ rest) e,
            append_assoc (pre ++ be16 s) (be16 d) tag,
            append_assoc pre (be16 s) (be16 d ++ tag),
          )
          (patch_checksum-at t pre (be16 s ++ (be16 d ++ tag)) sum rest
              (ap (λ n. suc (suc (suc (suc n)))) e) f
            ∙ rw
                (
                  with_checksum-packet s d 0 tag sum rest e f,
                  with_checksum-packet s d
                      (crc.crc32c (be16 s ++ (be16 d ++ (tag ++ (bytes_of 4 0 ++ rest))))) tag sum
                      rest e f,
                )
                refl)

    -- A packet of 12 bytes or more gets the ports and a checksum that is right for them; nothing
    -- else changes, and the position is back at the header.
    pub patch-stamped :
        (t s d : ℕ) (pre : List ℕ) (a b c e : ℕ) (body : List ℕ)
        → 8 ≤ length body
        → patch_sctp_header lib crc t (at pre (a ∷ b ∷ c ∷ e ∷ body)) s d
          ≡ at pre (stamped crc (packet s d body))
    patch-stamped t s d pre a b c e body h =
        let tag = take 4 body in
        let sum = take 4 (drop 4 body) in
        let behind : drop 8 body ≡ drop 4 (drop 4 body) = drop-add 4 4 body in
        let split : tag ++ (sum ++ drop 8 body) ≡ body =
          rw (behind, take-append-drop 4 (drop 4 body), take-append-drop 4 body) refl in
        subst
          (λ l.
            patch_sctp_header lib crc t (at pre (a ∷ b ∷ c ∷ e ∷ l)) s d
            ≡ at pre (stamped crc (packet s d l)))
          split
          (patch_parts t s d pre (a ∷ b ∷ []) (c ∷ e ∷ []) tag sum (drop 8 body) refl refl
            (omega (arith, length-take 4 body))
            (omega (arith, length-take 4 (drop 4 body), length-drop 4 body)))
