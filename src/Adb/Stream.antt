-- ===== src/Adb/Stream.antt =====
-- `UsbStream`: opening a service, `io::Read` and `io::Write` over it, and `close`.
pub mod Pending
pub mod Wire
pub mod Writes
use rusty_cortex.Base.{
  ℕ, ◌+◌, ◌-◌, min, Bool, true, false, List, [], ◌∷◌, ◌++◌, ltb, ◌==◌, if◌then◌else◌, length, take,
  drop, codes,
}
use rusty_cortex.Base.Words.{Bytes}
use rusty_cortex.Failure.{
  FlashError, Result, ok, err, panic, protocol, io, IoErrorKind, device_disconnected, text, Arg,
}
use rusty_cortex.Adb.Message.{AdbMessage, a_open, a_wrte, a_okay, a_clse}
use rusty_cortex.Adb.Usb.{Link, usb_send_message}

-- What `recv_timeout` on the stream's channel gives. After the list nothing arrives in time.
pub data Received : Type 0 where
  got : AdbMessage → Received
  quiet : Received
  hung_up : Received

pub record UsbStream : Type 0 where
  pub local_id : ℕ
  pub remote_id : ℕ
  pub max_payload : ℕ
  pub read_buf : Bytes
  pub read_pos : ℕ
  pub closed : Bool
  pub inbox : List Received
  pub link : Link

-- `flash_error_to_io`
abbrev pub flash_error_to_io : FlashError → FlashError
flash_error_to_io device_disconnected = io IoErrorKind.connection_reset
flash_error_to_io _ = io IoErrorKind.other

-- An empty message on the stream, such as OKAY or CLSE; the error is an `io::Error`.
abbrev pub io_result : Result (Unit {0}) × Link → Result (Unit {0}) × Link
io_result (ok u, l) = (ok u, l)
io_result (err e, l) = (err (flash_error_to_io e), l)
io_result (panic, l) = (panic, l)

unfoldable pub send_on : ℕ → Bytes → UsbStream → Result (Unit {0}) × Link
send_on command bytes s = io_result (usb_send_message command s.local_id s.remote_id bytes s.link)

-- Copies up to `len` unread bytes out of `read_buf`, and clears it when all have been read.
unfoldable pub hand_out : ℕ → UsbStream → Result Bytes × UsbStream
hand_out len s =
    let n = min (length s.read_buf - s.read_pos) len in
    let pos = s.read_pos + n in
    (
      ok (take n (drop s.read_pos s.read_buf)),
      if pos == length s.read_buf
          then record s { read_buf = []; read_pos = 0 }
          else record s { read_pos = pos },
    )

-- A WRTE message: acknowledge it, then hand out from its payload.
abbrev acked : ℕ → Bytes → UsbStream → Result (Unit {0}) × Link → Result Bytes × UsbStream
acked len bytes s (ok _, l) = hand_out len (record s { read_buf = bytes; read_pos = 0; link = l })
acked len bytes s (err e, l) = (err e, record s { link = l })
acked len bytes s (panic, l) = (panic, record s { link = l })

-- The loop of `read`; the list is the channel.
unfoldable pub read_loop : ℕ → List Received → UsbStream → Result Bytes × UsbStream
read_loop len [] s = (err (io IoErrorKind.timed_out), record s { inbox = [] })
read_loop len (quiet ∷ rest) s = (err (io IoErrorKind.timed_out), record s { inbox = rest })
read_loop len (hung_up ∷ rest) s =
    (err (io IoErrorKind.connection_reset), record s { inbox = rest; closed = true })
read_loop len (got m ∷ rest) s =
    let again = read_loop len rest s in
    if m.command == a_wrte
    then acked len m.payload (record s { inbox = rest }) (send_on a_okay [] s)
    else if m.command == a_clse
    then (ok [], record s { inbox = rest; closed = true })
    else again

-- `read` into a buffer of `len` bytes; the bytes are those that it fills in.
unfoldable pub read : ℕ → UsbStream → Result Bytes × UsbStream
read len s =
    if s.closed
    then (ok [], s)
    else if ltb s.read_pos (length s.read_buf)
    then hand_out len s
    else read_loop len s.inbox s

-- A WRTE that arrives while a write waits: acknowledge and buffer it.
abbrev buffered : Bytes → UsbStream → Result (Unit {0}) × Link → Result (Unit {0}) × UsbStream
buffered bytes s (ok u, l) = (ok u, record s { read_buf = s.read_buf ++ bytes; link = l })
buffered bytes s (err e, l) = (err e, record s { link = l })
buffered bytes s (panic, l) = (panic, record s { link = l })

abbrev go_on :
    (UsbStream → Result ℕ × UsbStream) → Result (Unit {0}) × UsbStream → Result ℕ × UsbStream
go_on again (ok _, s) = again s
go_on again (err e, s) = (err e, s)
go_on again (panic, s) = (panic, s)

-- The loop of `write`, waiting for the OKAY of the `n` bytes sent.
unfoldable pub ack_loop : ℕ → List Received → UsbStream → Result ℕ × UsbStream
ack_loop n [] s = (err (io IoErrorKind.timed_out), record s { inbox = [] })
ack_loop n (quiet ∷ rest) s = (err (io IoErrorKind.timed_out), record s { inbox = rest })
ack_loop n (hung_up ∷ rest) s =
    (err (io IoErrorKind.connection_reset), record s { inbox = rest; closed = true })
ack_loop n (got m ∷ rest) s =
    let again = ack_loop n rest s in
    let after_data = go_on (ack_loop n rest) (buffered m.payload s (send_on a_okay [] s)) in
    if m.command == a_okay
    then (ok n, record s { inbox = rest })
    else if m.command == a_wrte
    then after_data
    else if m.command == a_clse
    then (err (io IoErrorKind.broken_pipe), record s { inbox = rest; closed = true })
    else again

abbrev sent : ℕ → UsbStream → Result (Unit {0}) × Link → Result ℕ × UsbStream
sent n s (ok _, l) = ack_loop n s.inbox (record s { link = l })
sent n s (err e, l) = (err e, record s { link = l })
sent n s (panic, l) = (panic, record s { link = l })

-- `write`: one WRTE of at most `max_payload` bytes, and its OKAY.
unfoldable pub write : Bytes → UsbStream → Result ℕ × UsbStream
write bytes s =
    let chunk_size = min (length bytes) s.max_payload in
    if s.closed
    then (err (io IoErrorKind.broken_pipe), s)
    else sent chunk_size s (send_on a_wrte (take chunk_size bytes) s)

-- `close`: CLSE once, its outcome ignored.
unfoldable pub close : UsbStream → UsbStream
close s = if s.closed then s else record s { closed = true; link = (send_on a_clse [] s).1 }
