-- ===== src/Edl/Mbn.antt =====
-- protocols/edl_mbn.rs: the identity of a programmer file, read from its bytes.
pub mod Parsed
pub mod Certificates
pub mod Metadata
pub mod Segment
pub mod Elf
pub mod Filename
