-- ===== src/External.antt =====
-- What src/ takes from outside: the `mbuf` of libre, the error translation of rawrtcc and the byte
-- order functions of the C library.
mod Words
mod Memory
pub mod Host
pub mod Dtls
pub mod Errors
pub use Words.*
pub use Memory.*
