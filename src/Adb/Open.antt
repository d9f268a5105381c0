-- ===== src/Adb/Open.antt =====
-- `adb_usb_open` over the dispatcher's table of streams, `UsbShellWriter`, and the drop of a stream.
pub mod Registered
use rusty_cortex.Base.{
  ℕ, ◌+◌, ◌%◌, ◌^◌, min, Bool, true, false, not, ◌||◌, List, [], ◌∷◌, ◌++◌, ◌==◌, if◌then◌else◌,
  length, take,
}
use rusty_cortex.Base.Words.{Bytes}
use rusty_cortex.Failure.{FlashError, Result, ok, err, panic, protocol, io, IoErrorKind, text, Arg}
use rusty_cortex.Adb.Message.{AdbMessage, a_open, a_okay, a_clse, a_wrte}
use rusty_cortex.Adb.Usb.{Link, usb_send_message}
use rusty_cortex.Adb.Dispatcher.{UsbDispatcher, register_stream, unregister_stream, step, is_alive}
use rusty_cortex.Adb.Stream.{Received, got, quiet, hung_up, UsbStream, close, flash_error_to_io}

-- What an open changes: the counter of local ids, the dispatcher, and the endpoints.
pub record Opening : Type 0 where
  pub next_local_id : ℕ
  pub dispatcher : UsbDispatcher
  pub link : Link

abbrev pub unregister : ℕ → Opening → Opening
unregister i o = record o { dispatcher = step (unregister_stream i) o.dispatcher }

abbrev open_timeout : FlashError
open_timeout = protocol "Timeout waiting for OKAY after OPEN" []

-- The loop that waits for the answer; the list is the channel of the new stream.
unfoldable pub open_loop : ℕ → ℕ → Bytes → List Received → Opening → Result UsbStream × Opening
open_loop local_id max_payload service [] o = (err open_timeout, unregister local_id o)
open_loop local_id max_payload service (quiet ∷ rest) o = (err open_timeout, unregister local_id o)
open_loop local_id max_payload service (hung_up ∷ rest) o =
    (err (protocol "USB dispatcher stopped during OPEN" []), unregister local_id o)
open_loop local_id max_payload service (got m ∷ rest) o =
    let skipped = open_loop local_id max_payload service rest o in
    if m.command == a_okay
    then (
      ok (record {
        local_id = local_id;
        remote_id = m.arg0;
        max_payload = max_payload;
        read_buf = [];
        read_pos = 0;
        closed = false;
        inbox = rest;
        link = o.link;
      }),
      o,
    )
    else if m.command == a_clse
    then (
      err (protocol "Device refused to open service '{service}'" (text service ∷ [])),
      unregister local_id o,
    )
    else skipped

-- After OPEN was sent. A failed send is passed on with `?`.
abbrev open_sent :
    ℕ → ℕ → Bytes → List Received → Opening → Result (Unit {0}) × Link → Result UsbStream × Opening
open_sent local_id max_payload service inbox o (ok _, l) =
    open_loop local_id max_payload service inbox (record o { link = l })
open_sent local_id max_payload service inbox o (err e, l) = (err e, record o { link = l })
open_sent local_id max_payload service inbox o (panic, l) = (panic, record o { link = l })

-- `inbox` is what the dispatcher will put into the new stream's channel. The counter wraps at 32 bits.
unfoldable pub adb_usb_open : ℕ → Bytes → List Received → Opening → Result UsbStream × Opening
adb_usb_open max_payload service inbox o =
    let local_id = o.next_local_id in
    let registered : Opening = record o {
      next_local_id = (local_id + 1) % 2 ^ 32;
      dispatcher = step (register_stream local_id) o.dispatcher;
    } in
    open_sent local_id max_payload service inbox registered
      (usb_send_message a_open local_id 0 (service ++ (0 ∷ [])) o.link)

-- `Drop for UsbStream`
unfoldable pub drop_stream : UsbStream → Opening → Opening
drop_stream s o =
    let closed_stream = close s in unregister s.local_id (record o { link = closed_stream.link })

pub record UsbShellWriter : Type 0 where
  pub local_id : ℕ
  pub remote_id : ℕ
  pub max_payload : ℕ
  pub closed : Bool

-- `create_shell_writer`
abbrev pub create_shell_writer : UsbStream → UsbShellWriter
create_shell_writer s = record {
  local_id = s.local_id;
  remote_id = s.remote_id;
  max_payload = s.max_payload;
  closed = false;
}

-- `UsbShellWriter::shutdown`
abbrev pub shutdown : UsbShellWriter → UsbShellWriter
shutdown w = record w { closed = true }

abbrev shell_sent : ℕ → Result (Unit {0}) × Link → Result ℕ × Link
shell_sent n (ok _, l) = (ok n, l)
shell_sent n (err e, l) = (err (flash_error_to_io e), l)
shell_sent n (panic, l) = (panic, l)

-- `UsbShellWriter::write`: no wait for the acknowledgement.
unfoldable pub shell_write : Bytes → UsbShellWriter → UsbDispatcher → Link → Result ℕ × Link
shell_write bytes w d l =
    let chunk_size = min (length bytes) w.max_payload in
    if w.closed || not (is_alive d)
    then (err (io IoErrorKind.broken_pipe), l)
    else shell_sent chunk_size
        (usb_send_message a_wrte w.local_id w.remote_id (take chunk_size bytes) l)
