-- ===== src/Binary.antt =====
-- src/alir/binary_write.c and src/alir/binary_read.c: the binary format of an ALIR module.
pub mod File
pub mod Write
pub mod Read
pub mod Leb
pub mod Kept
pub mod Pieces
pub mod RoundTrip
pub mod Stable
pub mod Header
pub mod Losses
