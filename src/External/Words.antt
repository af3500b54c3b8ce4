-- ===== src/External/Words.antt =====
-- Words in memory on a little-endian host, and the byte order functions of the C library.
use rawrtc_data_channel.Base.{
  ℕ, zero, suc, ◌+◌, ◌*◌, ◌/◌, ◌%◌, ◌<◌, ◌≡◌, List, [], ◌∷◌, ◌++◌, arith,
}

-- The word that bytes in memory stand for, the lowest first.
abbrev pub word_of : List ℕ → ℕ
word_of [] = 0
word_of (x ∷ xs) = x + 256 * word_of xs

-- The `n` bytes of a word in memory.
abbrev pub bytes_of : ℕ → ℕ → List ℕ
bytes_of zero v = []
bytes_of (suc n) v = (v % 256) ∷ bytes_of n (v / 256)

-- The `n` bytes of a number in network byte order.
abbrev pub be16 : ℕ → List ℕ
be16 v = (v / 256 % 256) ∷ (v % 256) ∷ []

abbrev pub be32 : ℕ → List ℕ
be32 v = (v / 16777216 % 256) ∷ (v / 65536 % 256) ∷ (v / 256 % 256) ∷ (v % 256) ∷ []

-- `htons` and `ntohs`, `htonl` and `ntohl` are the same exchange of bytes.
abbrev pub swap16 : ℕ → ℕ
swap16 v = v % 256 * 256 + v / 256 % 256

abbrev pub swap32 : ℕ → ℕ
swap32 v = v % 256 * 16777216 + v / 256 % 256 * 65536 + v / 65536 % 256 * 256 + v / 16777216 % 256

pub bytes_of-swap16 : (v : ℕ) → bytes_of 2 (swap16 v) ≡ be16 v
bytes_of-swap16 v = ground arith

pub bytes_of-swap32 : (v : ℕ) → bytes_of 4 (swap32 v) ≡ be32 v
bytes_of-swap32 v = ground arith

pub swap16-word_of-be16 : (v : ℕ) → v < 65536 → swap16 (word_of (be16 v)) ≡ v
swap16-word_of-be16 v h = omega arith

pub swap32-word_of-be32 : (v : ℕ) → v < 4294967296 → swap32 (word_of (be32 v)) ≡ v
swap32-word_of-be32 v h = omega arith

abbrev pub AllBytes : List ℕ → Type 0
AllBytes [] = Unit
AllBytes (x ∷ xs) = (x < 256) × AllBytes xs

pub AllBytes-append : (xs ys : List ℕ) → AllBytes xs → AllBytes ys → AllBytes (xs ++ ys)
AllBytes-append [] ys h k = k
AllBytes-append (x ∷ xs) ys h k = (h.0, AllBytes-append xs ys h.1 k)

pub AllBytes-bytes_of : (n v : ℕ) → AllBytes (bytes_of n v)
AllBytes-bytes_of zero v = tt
AllBytes-bytes_of (suc n) v = (omega arith, AllBytes-bytes_of n (v / 256))
