-- ===== src/Checksum/Host.antt =====
-- A checksum for the tests: the sum of the bytes, each with its place.
use rawrtc_data_channel.Base.{ℕ, suc, ◌+◌, ◌*◌, ◌%◌, ◌<◌, List, [], ◌∷◌, false, arith}
use rawrtc_data_channel.Checksum.{Crc, ChecksumFlags}

abbrev pub weighted : ℕ → List ℕ → ℕ
weighted i [] = 0
weighted i (x ∷ xs) = i * x + weighted (suc i) xs

pub weighted-u32 : (p : List ℕ) → weighted 1 p % 4294967296 < 4294967296
weighted-u32 p = omega arith

abbrev pub weighted_sum : Crc
weighted_sum = record { crc32c = λ p. weighted 1 p % 4294967296; crc32c_u32 = weighted-u32 }

abbrev pub enable_all : ChecksumFlags
enable_all = record { disable_inbound = false; disable_outbound = false }
