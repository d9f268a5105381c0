-- ===== src/Runs.antt =====
-- Runs of the program on concrete inputs: the theorems applied, and tests.
mod Images
mod Tables
pub mod Messages
mod Connections
mod Services
mod Flashing
mod Programmers
mod Databases
mod Shells
mod Devices
mod Writes
