-- ===== src/Adb/Usb.antt =====
-- Bulk transfers: `usb_send_message`, `cancellable_bulk_in` and `usb_read_message`. What the device
-- does is a script: the transfers that complete, in order. After the script nothing more arrives, and
-- the deadline passes.
pub mod Fragments
use rusty_cortex.Base.{
  ℕ, ◌+◌, ◌-◌, Bool, true, false, not, ◌&&◌, List, [], ◌∷◌, ◌++◌, ltb, leb, ◌==◌, if◌then◌else◌,
  length, drop, String, codes,
}
use rusty_cortex.Base.Words.{Bytes, u32_at}
use rusty_cortex.Failure.{
  FlashError, Result, ok, err, panic, protocol, usb, device_disconnected, number, text, Arg,
}
use rusty_cortex.Adb.Message.{
  AdbMessage, adb_checksum, magic_of, build_header, checked_message, bad_magic, adb_header_size,
  max_payload_size,
}

-- How a bulk IN transfer ends; `expired` is the deadline passing before one is started.
pub data Transfer : Type 0 where
  received : Bytes → Transfer
  timed_out : Transfer
  disconnected : Transfer
  failed : Transfer
  expired : Transfer

-- Which of the two reads is going on: the header or the payload.
pub data Part : Type 0 where
  header payload : Part

abbrev part_name : Part → String
part_name header = "header"
part_name payload = "payload"

-- The timeout of the loop; the format string contains "timeout".
abbrev pub loop_timeout : Part → ℕ → ℕ → FlashError
loop_timeout header got need =
    protocol "USB read timeout waiting for ADB header (got {} of {} bytes)"
      (number got ∷ number need ∷ [])
loop_timeout payload got need =
    protocol "USB read timeout waiting for ADB payload (got {} of {} bytes)"
      (number got ∷ number need ∷ [])

abbrev pub transfer_timeout : Part → FlashError
transfer_timeout part =
    protocol "USB bulk IN ({where_}) timeout after {} ms — device sent no data"
      (text (codes (part_name part)) ∷ [])

abbrev pub transfer_failed : Part → FlashError
transfer_failed part = usb "bulk IN ({where_}) failed: {e}" (text (codes (part_name part)) ∷ [])

-- `while buf.len() < need { … buf.extend_from_slice(&bulk_in(…)?) }`
unfoldable pub read_until : ℕ → Part → Bytes → List Transfer → Result Bytes × List Transfer
read_until need part buf [] =
    if leb need (length buf) then (ok buf, []) else (err (loop_timeout part (length buf) need), [])
read_until need part buf (received bytes ∷ script) =
    let rest = read_until need part (buf ++ bytes) script in
    if leb need (length buf) then (ok buf, received bytes ∷ script) else rest
read_until need part buf (timed_out ∷ script) =
    if leb need (length buf)
    then (ok buf, timed_out ∷ script)
    else (err (transfer_timeout part), script)
read_until need part buf (disconnected ∷ script) =
    if leb need (length buf)
    then (ok buf, disconnected ∷ script)
    else (err device_disconnected, script)
read_until need part buf (failed ∷ script) =
    if leb need (length buf)
    then (ok buf, failed ∷ script)
    else (err (transfer_failed part), script)
read_until need part buf (expired ∷ script) =
    if leb need (length buf)
    then (ok buf, expired ∷ script)
    else (err (loop_timeout part (length buf) need), script)

-- The end of `usb_read_message`: the payload has been read, as far as that went.
abbrev pub with_payload : Bytes → Result Bytes × List Transfer → Result AdbMessage × List Transfer
with_payload head (ok bytes, script) = (
  checked_message (u32_at head 16) (record {
    command = u32_at head 0;
    arg0 = u32_at head 4;
    arg1 = u32_at head 8;
    payload = bytes;
  }),
  script,
)
with_payload head (err e, script) = (err e, script)
with_payload head (panic, script) = (panic, script)

-- From the header on. What stands behind its 24 bytes is the start of the payload.
abbrev pub with_header : Result Bytes × List Transfer → Result AdbMessage × List Transfer
with_header (ok head, script) =
    if not (u32_at head 20 == magic_of (u32_at head 0))
    then (bad_magic (u32_at head 20) (u32_at head 0), script)
    else if ltb max_payload_size (u32_at head 12)
    then (
      err (
          protocol "ADB message payload too large: {} bytes (max {})"
            (number (u32_at head 12) ∷ number max_payload_size ∷ [])),
      script,
    )
    else with_payload head (read_until (u32_at head 12) payload (drop adb_header_size head) script)
with_header (err e, script) = (err e, script)
with_header (panic, script) = (panic, script)

unfoldable pub usb_read_message : List Transfer → Result AdbMessage × List Transfer
usb_read_message script = with_header (read_until adb_header_size header [] script)

-- How a bulk OUT transfer ends.
pub data Sent : Type 0 where
  delivered gone broken : Sent

-- The two endpoints of a claimed interface: what will arrive, how the coming OUT transfers end (all
-- after those listed are delivered), and the transfers that reached the device.
pub record Link : Type 0 where
  pub incoming : List Transfer
  pub outcomes : List Sent
  pub wire : List Bytes

-- One bulk OUT transfer; `what` is the text of its error.
abbrev bulk_result : String → Bytes → Sent → List Sent → Link → Result (Unit {0}) × Link
bulk_result what bytes delivered later l =
    (ok tt, record l { outcomes = later; wire = l.wire ++ (bytes ∷ []) })
bulk_result what bytes gone later l = (err device_disconnected, record l { outcomes = later })
bulk_result what bytes broken later l = (err (usb what []), record l { outcomes = later })

abbrev pub bulk_next : String → Bytes → List Sent → Link → Result (Unit {0}) × Link
bulk_next what bytes [] l = bulk_result what bytes delivered [] l
bulk_next what bytes (s ∷ later) l = bulk_result what bytes s later l

unfoldable pub bulk_out : String → Bytes → Link → Result (Unit {0}) × Link
bulk_out what bytes l = bulk_next what bytes l.outcomes l

-- Transfer 2, for a payload that is not empty.
abbrev pub send_payload : Bytes → Result (Unit {0}) × Link → Result (Unit {0}) × Link
send_payload [] (r, l) = (r, l)
send_payload (b ∷ bs) (ok _, l) = bulk_out "bulk OUT (payload) failed: {e}" (b ∷ bs) l
send_payload (b ∷ bs) (err e, l) = (err e, l)
send_payload (b ∷ bs) (panic, l) = (panic, l)

unfoldable pub usb_send_message : ℕ → ℕ → ℕ → Bytes → Link → Result (Unit {0}) × Link
usb_send_message command arg0 arg1 bytes l =
    send_payload bytes
      (bulk_out "bulk OUT (header) failed: {e}" (build_header command arg0 arg1 bytes) l)

-- `usb_read_message` on the link's IN endpoint.
abbrev pub receive : Link → Result AdbMessage × Link
receive l = let (r, script) = usb_read_message l.incoming in (r, record l { incoming = script })
