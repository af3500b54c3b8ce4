-- ===== src/Checksum.antt =====
-- The CRC32-C checksum in the common header of an SCTP packet. `rawrtc_crc32c` calls a routine of
-- usrsctp or one after Mark Adler's crc32c.c, so it is a parameter; `struct sctp_common_header` of
-- usrsctp has the ports, the verification tag and the checksum, in 12 bytes.
pub mod Fields
pub mod Host
use rawrtc_data_channel.Base.{
  ℕ, ◌+◌, ◌<◌, ◌≤◌, ◌≡◌, List, ◌++◌, Bool, false, not, ◌&&◌, ◌||◌, length, take, drop,
}
use rawrtc_data_channel.External.{word_of, bytes_of}

-- `rawrtc_crc32c`: its result is a word of 32 bits.
pub record Crc : Type 0 where
  pub crc32c : List ℕ → ℕ
  pub crc32c_u32 : (p : List ℕ) → crc32c p < 4294967296

-- The bits of `enum rawrtc_sctp_transport_checksum_flags`, kept in the global `checksum_flags`.
pub record ChecksumFlags : Type 0 where
  pub disable_inbound : Bool
  pub disable_outbound : Bool

-- `sizeof(struct sctp_common_header)`
abbrev pub header_size : ℕ
header_size = 12

-- `header->crc32c` read, and written.
abbrev pub checksum_of : List ℕ → ℕ
checksum_of p = word_of (take 4 (drop 8 p))

abbrev pub with_checksum : List ℕ → ℕ → List ℕ
with_checksum p v = take 8 p ++ (bytes_of 4 v ++ drop 12 p)
