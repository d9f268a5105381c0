-- ===== src/Adb.antt =====
-- protocols/adb_usb.rs and adb/: ADB over USB. Message frames, one connection with its handshake, the
-- dispatcher that shares it, the streams on it, and the services logcat, sideload and sync.
pub mod Message
pub mod Usb
pub mod Banner
pub mod Discovery
pub mod Connect
pub mod Dispatcher
pub mod Stream
pub mod Logcat
pub mod Sideload
pub mod Open
pub mod Shell
pub mod Device
pub mod Dump
pub mod Install
pub mod Sync
