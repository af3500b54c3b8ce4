-- ===== src/Checksum/Fields.antt =====
-- Reading and writing the checksum field.
use rawrtc_data_channel.Base.{
  ℕ, zero, suc, ◌<◌, ◌≤◌, ◌≡◌, refl, ap, ◌∙◌, List, [], ◌∷◌, ◌++◌, Bool, true, ◌&&◌, leb, ◌==◌,
  length, take, drop, arith, take-take-append, drop-take-append, drop-add, length-take, length-drop,
  take-append-drop, length-append,
}
use rawrtc_data_channel.External.{word_of, bytes_of, AllBytes, AllBytes-append, AllBytes-bytes_of}
use rawrtc_data_channel.Checksum.{Crc, header_size, checksum_of, with_checksum}

pub word_of-bytes_of : (v : ℕ) → v < 4294967296 → word_of (bytes_of 4 v) ≡ v
word_of-bytes_of v h = omega arith

bytes_of-word_of :
    (a b c d : ℕ)
    → a < 256
    → b < 256
    → c < 256
    → d < 256
    → bytes_of 4 (word_of (a ∷ b ∷ c ∷ d ∷ [])) ≡ a ∷ b ∷ c ∷ d ∷ []
bytes_of-word_of a b c d ha hb hc hd = ground arith

bytes_of-four : (l : List ℕ) → length l ≡ 4 → AllBytes l → bytes_of 4 (word_of l) ≡ l
bytes_of-four [] e h = absurd (omega arith)
bytes_of-four (a ∷ []) e h = absurd (omega arith)
bytes_of-four (a ∷ b ∷ []) e h = absurd (omega arith)
bytes_of-four (a ∷ b ∷ c ∷ []) e h = absurd (omega arith)
bytes_of-four (a ∷ b ∷ c ∷ d ∷ []) e h = bytes_of-word_of a b c d h.0 h.1.0 h.1.1.0 h.1.1.1.0
bytes_of-four (a ∷ b ∷ c ∷ d ∷ x ∷ xs) e h = absurd (omega arith)

AllBytes-take : (n : ℕ) (l : List ℕ) → AllBytes l → AllBytes (take n l)
AllBytes-take zero l h = tt
AllBytes-take (suc n) [] h = tt
AllBytes-take (suc n) (x ∷ l) h = (h.0, AllBytes-take n l h.1)

AllBytes-drop : (n : ℕ) (l : List ℕ) → AllBytes l → AllBytes (drop n l)
AllBytes-drop zero l h = h
AllBytes-drop (suc n) [] h = tt
AllBytes-drop (suc n) (x ∷ l) h = AllBytes-drop n l h.1

drop_twelve : (p r : List ℕ) (v : ℕ) → 8 ≤ length p → drop 12 (take 8 p ++ (bytes_of 4 v ++ r)) ≡ r
drop_twelve p r v h =
    drop-add 8 4 (take 8 p ++ (bytes_of 4 v ++ r)) ∙ ap (drop 4) (drop-take-append 8 p _ h)

pub checksum_of-with_checksum :
    (p : List ℕ) (v : ℕ) → 8 ≤ length p → v < 4294967296 → checksum_of (with_checksum p v) ≡ v
checksum_of-with_checksum p v h k =
    ap (λ l. word_of (take 4 l)) (drop-take-append 8 p (bytes_of 4 v ++ drop 12 p) h)
    ∙ word_of-bytes_of v k

pub with_checksum-with_checksum :
    (p : List ℕ) (v w : ℕ) → 8 ≤ length p → with_checksum (with_checksum p v) w ≡ with_checksum p w
with_checksum-with_checksum p v w h =
    rw (take-take-append 8 p (bytes_of 4 v ++ drop 12 p) h, drop_twelve p (drop 12 p) v h) refl

pub with_checksum-checksum_of :
    (p : List ℕ) → 12 ≤ length p → AllBytes p → with_checksum p (checksum_of p) ≡ p
with_checksum-checksum_of p h b =
    let four : bytes_of 4 (checksum_of p) ≡ take 4 (drop 8 p) =
      bytes_of-four (take 4 (drop 8 p)) (omega (arith, length-take 4 (drop 8 p), length-drop 8 p))
        (AllBytes-take 4 (drop 8 p) (AllBytes-drop 8 p b)) in
    ap (λ l. take 8 p ++ (l ++ drop 12 p)) four
    ∙ (ap (λ l. take 8 p ++ (take 4 (drop 8 p) ++ l)) (drop-add 8 4 p)
        ∙ (ap (take 8 p ++◌) (take-append-drop 4 (drop 8 p)) ∙ take-append-drop 8 p))

pub length-with_checksum :
    (p : List ℕ) (v : ℕ) → 12 ≤ length p → length (with_checksum p v) ≡ length p
length-with_checksum p v h =
    omega (
      arith,
      length-append (take 8 p) (bytes_of 4 v ++ drop 12 p),
      length-take 8 p,
      length-drop 12 p,
    )

pub AllBytes-with_checksum : (p : List ℕ) (v : ℕ) → AllBytes p → AllBytes (with_checksum p v)
AllBytes-with_checksum p v h =
    AllBytes-append (take 8 p) (bytes_of 4 v ++ drop 12 p) (AllBytes-take 8 p h)
      (AllBytes-append (bytes_of 4 v) (drop 12 p) (AllBytes-bytes_of 4 v) (AllBytes-drop 12 p h))

-- A packet with the checksum that it should have.
abbrev pub stamped : Crc → List ℕ → List ℕ
stamped crc p = with_checksum p (crc.crc32c (with_checksum p 0))

-- A header, and the checksum of the packet with a checksum of 0.
abbrev pub is_genuine : Crc → List ℕ → Bool
is_genuine crc p = leb header_size (length p) && (checksum_of p == crc.crc32c (with_checksum p 0))

pub unstamped :
    (crc : Crc) (p : List ℕ) → 12 ≤ length p → with_checksum (stamped crc p) 0 ≡ with_checksum p 0
unstamped crc p h = with_checksum-with_checksum p (crc.crc32c (with_checksum p 0)) 0 (omega arith)

pub stamped_genuine :
    (crc : Crc) (p : List ℕ) → 12 ≤ length p → is_genuine crc (stamped crc p) ≡ true
stamped_genuine crc p h =
    let c = crc.crc32c (with_checksum p 0) in
    rw
      (
        unstamped crc p h,
        checksum_of-with_checksum p c (omega arith) (crc.crc32c_u32 (with_checksum p 0)),
        length-with_checksum p c h,
      )
      (ground arith)
