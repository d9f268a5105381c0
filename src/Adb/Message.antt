-- ===== src/Adb/Message.antt =====
-- The ADB wire format: `AdbMessage`, `adb_checksum`, `build_header`, `parse_message`.
pub mod Laws
use rusty_cortex.Base.{
  ℕ, ◌+◌, ◌-◌, ◌%◌, ◌^◌, ◌≤◌, ◌<◌, min, not, ◌&&◌, List, [], ◌∷◌, ◌++◌, ltb, ◌==◌, if◌then◌else◌,
  length, slice, drop,
}
use rusty_cortex.Base.Words.{Bytes, u32_at, to_le_bytes}
use rusty_cortex.Failure.{Result, ok, err, protocol, number, Arg}

abbrev pub a_cnxn : ℕ
a_cnxn = 0x4E584E43

abbrev pub a_auth : ℕ
a_auth = 0x48545541

abbrev pub a_open : ℕ
a_open = 0x4E45504F

abbrev pub a_wrte : ℕ
a_wrte = 0x45545257

abbrev pub a_okay : ℕ
a_okay = 0x59414B4F

abbrev pub a_clse : ℕ
a_clse = 0x45534C43

abbrev pub a_version : ℕ
a_version = 0x01000001

abbrev pub max_payload_size : ℕ
max_payload_size = 1048576

abbrev pub auth_token : ℕ
auth_token = 1

abbrev pub auth_signature : ℕ
auth_signature = 2

abbrev pub auth_rsapublickey : ℕ
auth_rsapublickey = 3

abbrev pub adb_header_size : ℕ
adb_header_size = 24

pub record AdbMessage : Type 0 where
  pub command : ℕ
  pub arg0 : ℕ
  pub arg1 : ℕ
  pub payload : Bytes

abbrev sum_from : ℕ → Bytes → ℕ
sum_from acc [] = acc
sum_from acc (b ∷ bs) = sum_from ((acc + b) % 2 ^ 32) bs

-- Wrapping at 32 bits.
unfoldable pub adb_checksum : Bytes → ℕ
adb_checksum bs = sum_from 0 bs

-- `command ^ 0xFFFF_FFFF`: of a `u32` this is its distance from the largest one.
unfoldable pub magic_of : ℕ → ℕ
magic_of command = 0xFFFF_FFFF - command

unfoldable pub build_header : ℕ → ℕ → ℕ → Bytes → Bytes
build_header command arg0 arg1 payload =
    to_le_bytes 4 command
    ++ (to_le_bytes 4 arg0
        ++ (to_le_bytes 4 arg1
            ++ (to_le_bytes 4 (length payload)
                ++ (to_le_bytes 4 (adb_checksum payload) ++ to_le_bytes 4 (magic_of command)))))

-- The check of the checksum, which zero switches off, and the message.
unfoldable pub checked_message : ℕ → AdbMessage → Result AdbMessage
checked_message checksum m =
    if not (checksum == 0) && not (adb_checksum m.payload == checksum)
    then err (
        protocol "ADB checksum mismatch: got 0x{:08X}, expected 0x{:08X}"
          (number (adb_checksum m.payload) ∷ number checksum ∷ []))
    else ok m

abbrev pub bad_magic : ℕ → ℕ → Result AdbMessage
bad_magic magic command = err (
    protocol "ADB bad magic: got 0x{:08X}, expected 0x{:08X}"
      (number magic ∷ number (magic_of command) ∷ []))

-- The payload may be cut short: what is there up to the stated length is used.
unfoldable pub parse_message : Bytes → Result AdbMessage
parse_message raw =
    if ltb (length raw) adb_header_size
    then err (
        protocol "ADB message too short: {} bytes (need at least {})"
          (number (length raw) ∷ number adb_header_size ∷ []))
    else if not (u32_at raw 20 == magic_of (u32_at raw 0))
    then bad_magic (u32_at raw 20) (u32_at raw 0)
    else checked_message (u32_at raw 16) (record {
      command = u32_at raw 0;
      arg0 = u32_at raw 4;
      arg1 = u32_at raw 8;
      payload = slice raw adb_header_size (min (u32_at raw 12) (length raw - adb_header_size));
    })
