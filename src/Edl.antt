-- ===== src/Edl.antt =====
-- protocols/edl_mbn.rs and protocols/edl_db.rs: what a programmer file says of itself, and which of
-- the stored programmers fit a device.
pub mod Identity
pub mod Chipsets
pub mod Mbn
pub mod Db
