-- ===== src/Adb/Shell.antt =====
-- protocols/adb/shell.rs: shell commands over an open stream, in both versions of the protocol.
pub mod Packets
pub mod Output
pub mod Stdin
use rusty_cortex.Base.{
  codes, ℕ, zero, suc, ◌+◌, ◌-◌, ◌*◌, ◌/◌, ◌^◌, ◌%◌, Bool, true, false, List, [], ◌∷◌, ◌++◌, Option,
  none, some, ltb, leb, ◌==◌, ◌||◌, if◌then◌else◌, length, take, drop, get_or,
}
use rusty_cortex.Base.Words.{Bytes, u32_at, to_le_bytes, from_le_bytes}
use rusty_cortex.Failure.{
  Arg, text, number, FlashError, device_disconnected, protocol, io, IoErrorKind, unexpected_eof,
  timed_out, would_block, connection_reset, connection_aborted, broken_pipe, Result, ok, err, panic,
  ◌>>=◌,
}

abbrev pub shell_v2_header_size : ℕ
shell_v2_header_size = 5

abbrev pub shell_v2_max_payload : ℕ
shell_v2_max_payload = 1048576

pub data ShellV2Id : Type 0 where
  stdin stdout stderr exit close_stdin window_size_change : ShellV2Id

abbrev pub id_byte : ShellV2Id → ℕ
id_byte stdin = 0
id_byte stdout = 1
id_byte stderr = 2
id_byte exit = 3
id_byte close_stdin = 4
id_byte window_size_change = 5

-- `TryFrom<u8>`.
unfoldable pub try_from : ℕ → Result ShellV2Id
try_from value =
    if value == 0
    then ok stdin
    else if value == 1
    then ok stdout
    else if value == 2
    then ok stderr
    else if value == 3
    then ok exit
    else if value == 4
    then ok close_stdin
    else if value == 5
    then ok window_size_change
    else err (protocol "Unknown Shell V2 packet ID: {value}" (number value ∷ []))

-- The length is cut to 32 bits.
unfoldable pub shell_v2_build_packet : ShellV2Id → Bytes → Bytes
unfolding to_le_bytes
shell_v2_build_packet id bytes = id_byte id ∷ (to_le_bytes 4 (length bytes % 2 ^ 32) ++ bytes)

unfoldable pub classify_stream_error : IoErrorKind → List ℕ → FlashError
classify_stream_error connection_reset phase = device_disconnected
classify_stream_error connection_aborted phase = device_disconnected
classify_stream_error unexpected_eof phase = device_disconnected
classify_stream_error timed_out phase = device_disconnected
classify_stream_error would_block phase = device_disconnected
classify_stream_error kind phase = protocol "Shell V2 {phase} read failed: {e}" (text phase ∷ [])

-- What the device will send, and the error of a read that it does not serve.
pub record Source : Type 0 where
  pub incoming : Bytes
  pub ends : IoErrorKind

unfoldable pub read_exact : List ℕ → ℕ → Source → Result (Bytes × Source)
read_exact phase n s =
    if leb n (length s.incoming)
    then ok (take n s.incoming, record s { incoming = drop n s.incoming })
    else err (classify_stream_error s.ends phase)

-- The payload behind a header that was read.
abbrev pub packet_payload : ShellV2Id → ℕ → Source → Result ((ShellV2Id × Bytes) × Source)
packet_payload id len s =
    if ltb shell_v2_max_payload len
    then err (
        protocol "Shell V2 payload too large: {} bytes (max {})"
          (number len ∷ number shell_v2_max_payload ∷ []))
    else read_exact (codes "data") len s >>= λ (bytes, rest). ok ((id, bytes), rest)

-- The header that was read, and what follows it.
abbrev pub after_header : Bytes × Source → Result ((ShellV2Id × Bytes) × Source)
after_header (header, rest) =
    try_from (get_or header 0 0) >>= λ id. packet_payload id (u32_at header 1) rest

unfoldable pub shell_v2_read_packet : Source → Result ((ShellV2Id × Bytes) × Source)
unfolding try_from read_exact classify_stream_error from_le_bytes
shell_v2_read_packet s = read_exact (codes "header") shell_v2_header_size s >>= after_header

-- `String::from_utf8_lossy` of the standard library, which replaces what is no UTF-8; a text is the
-- bytes of its UTF-8 form.
abbrev pub Lossy : Type 0
Lossy = Bytes → Bytes

pub record ShellResult : Type 0 where
  pub stdout_text : Bytes
  pub stderr_text : Bytes
  pub exit_code : Option ℕ

-- The bytes of both outputs when the loop ends, and the exit code.
pub record Finished : Type 0 where
  pub stdout_bytes : Bytes
  pub stderr_bytes : Bytes
  pub finished_code : Option ℕ

abbrev pub as_text : Lossy → Finished → ShellResult
as_text lossy f = record {
  stdout_text = lossy f.stdout_bytes;
  stderr_text = lossy f.stderr_bytes;
  exit_code = f.finished_code;
}

abbrev pub shell_v2_max_output : ℕ
shell_v2_max_output = 104857600

abbrev too_much : FlashError
too_much = protocol "Shell output exceeded {} MB limit" (number 100 ∷ [])

-- `data.first().copied()`.
abbrev pub first : Bytes → Option ℕ
first [] = none
first (b ∷ bs) = some b

-- The output so far.
pub record Gathered : Type 0 where
  pub out : Bytes
  pub errors : Bytes
  pub total_bytes : ℕ

-- What a packet does to the loop: it goes on, stops or fails.
pub data Turn : Type 0 where
  more : Gathered → Turn
  done : Option ℕ → Turn
  refused : FlashError → Turn

unfoldable pub take_packet : ShellV2Id × Bytes → Gathered → Turn
take_packet (stdout, bytes) o =
    let total = o.total_bytes + length bytes in
    if ltb shell_v2_max_output total
    then refused too_much
    else more record { out = o.out ++ bytes; errors = o.errors; total_bytes = total }
take_packet (stderr, bytes) o =
    let total = o.total_bytes + length bytes in
    if ltb shell_v2_max_output total
    then refused too_much
    else more record { out = o.out; errors = o.errors ++ bytes; total_bytes = total }
take_packet (exit, bytes) o = done (first bytes)
take_packet (id, bytes) o = more o

abbrev pub after_turn : Gathered → Turn → (Gathered → Result Finished) → Result Finished
after_turn o (more next) loop = loop next
after_turn o (done code) loop =
    ok record { stdout_bytes = o.out; stderr_bytes = o.errors; finished_code = code }
after_turn o (refused why) loop = err why

-- The loop of `adb_shell_v2`, with as much fuel as there are bytes to come: each packet takes five.
unfoldable pub shell_loop : ℕ → Source → Gathered → Result Finished
unfolding shell_v2_read_packet classify_stream_error
shell_loop zero s o = err (classify_stream_error s.ends (codes "header"))
shell_loop (suc fuel) s o = shell_v2_read_packet s >>= λ (packet, rest).
    after_turn o (take_packet packet o) (shell_loop fuel rest)

-- Once the stream is open.
unfoldable pub adb_shell_v2 : Lossy → Source → Result ShellResult
unfolding shell_loop
adb_shell_v2 lossy s =
    shell_loop (length s.incoming) s record { out = []; errors = []; total_bytes = 0 } >>= λ f.
    ok (as_text lossy f)

-- A writer that takes so many more writes.
pub record Writer : Type 0 where
  pub written : Bytes
  pub writes_left : ℕ

unfoldable pub write_all : IoErrorKind → Bytes → Writer → Result Writer
write_all kind bytes w =
    if w.writes_left == 0
    then err (io kind)
    else ok record { written = w.written ++ bytes; writes_left = w.writes_left - 1 }

abbrev pub code_or_255 : Option ℕ → ℕ
code_or_255 none = 255
code_or_255 (some code) = code

-- How a stream to a writer ends: the result, what was written, and whether the cached USB
-- connection was dropped.
abbrev pub Streamed : Type 0
Streamed = Result ℕ × (Writer × Bool)

-- A failed read: only a lost device drops the connection.
abbrev read_failed : FlashError → Writer → Streamed
read_failed device_disconnected w = (err device_disconnected, (w, true))
read_failed why w = (err why, (w, false))

-- The loop of `adb_shell_stream`; `kind` is the error of a write that fails. Progress is left out.
unfoldable pub stream_loop : ℕ → IoErrorKind → Source → Writer → Streamed
unfolding shell_v2_read_packet classify_stream_error write_all
stream_loop zero kind s w = read_failed (classify_stream_error s.ends (codes "header")) w
stream_loop (suc fuel) kind s w = elim (shell_v2_read_packet s) [
  | err why ↦ read_failed why w
  | panic ↦ (panic, (w, false))
  | ok ((stdout, bytes), rest) ↦ elim (write_all kind bytes w) [
    | ok next ↦ stream_loop fuel kind rest next
    | err why ↦ (err why, (w, false))
    | panic ↦ (panic, (w, false))
  ]
  | ok ((exit, bytes), rest) ↦ (ok (code_or_255 (first bytes)), (w, false))
  | ok ((id, bytes), rest) ↦ stream_loop fuel kind rest w
]

unfoldable pub adb_shell_stream : IoErrorKind → Source → Writer → Streamed
unfolding stream_loop
adb_shell_stream kind s w = stream_loop (length s.incoming) kind s w

-- What one `read` gives; no bytes are the end of the file.
pub data Read : Type 0 where
  got : Bytes → Read
  failed : IoErrorKind → Read

-- A failed write of `adb_shell_stream_stdin`, and whether it drops the USB connection.
abbrev write_failed : IoErrorKind → FlashError × Bool
write_failed connection_reset = (device_disconnected, true)
write_failed broken_pipe = (device_disconnected, true)
write_failed kind = (protocol "Shell V2 stdin write failed: {e}" [], false)

abbrev closed : Writer → Result Writer → Result Writer × (Writer × Bool)
closed w (ok next) = (ok next, (next, false))
closed w (err why) = (err (protocol "Shell V2 CloseStdin failed: {e}" []), (w, false))
closed w panic = (panic, (w, false))

-- The end of the input: CloseStdin, with its own error.
abbrev close_input : IoErrorKind → Writer → Result Writer × (Writer × Bool)
close_input kind w = closed w (write_all kind (shell_v2_build_packet close_stdin []) w)

abbrev after_write :
    IoErrorKind
    → Writer
    → Result Writer
    → (Writer → Result Writer × (Writer × Bool))
    → Result Writer × (Writer × Bool)
after_write kind w (ok next) loop = loop next
after_write kind w (err why) loop = (err ((write_failed kind).0), (w, (write_failed kind).1))
after_write kind w panic loop = (panic, (w, false))

-- The loop over the reads; after the last of them the file ends.
unfoldable pub send_loop : IoErrorKind → List Read → Writer → Result Writer × (Writer × Bool)
send_loop kind [] w = close_input kind w
send_loop kind (failed why ∷ reads) w = (err (io why), (w, false))
send_loop kind (got [] ∷ reads) w = close_input kind w
send_loop kind (got (b ∷ bs) ∷ reads) w =
    after_write kind w (write_all kind (shell_v2_build_packet stdin (b ∷ bs)) w)
      (send_loop kind reads)

unfoldable pub exit_of : ShellV2Id × Bytes → Option ℕ
exit_of (exit, bytes) = some (code_or_255 (first bytes))
exit_of (id, bytes) = none

abbrev pub unless_exit : Option ℕ → Result ℕ → Result ℕ
unless_exit (some code) rest = ok code
unless_exit none rest = rest

-- The packets behind the input, until the exit code.
unfoldable pub answer_loop : ℕ → Source → Result ℕ
unfolding shell_v2_read_packet classify_stream_error
answer_loop zero s = err (classify_stream_error s.ends (codes "header"))
answer_loop (suc fuel) s = shell_v2_read_packet s >>= λ (packet, rest).
    unless_exit (exit_of packet) (answer_loop fuel rest)

abbrev after_input : Source → Result Writer × (Writer × Bool) → Streamed
after_input s (ok next, at) = (answer_loop (length s.incoming) s, at)
after_input s (err why, at) = (err why, at)
after_input s (panic, at) = (panic, at)

unfoldable pub adb_shell_stream_stdin : IoErrorKind → List Read → Source → Writer → Streamed
unfolding send_loop answer_loop
adb_shell_stream_stdin kind reads s w = after_input s (send_loop kind reads w)

-- The loop of version 1, until the stream ends or times out.
unfoldable pub shell_v1_loop : List Read → Bytes → Result Bytes
shell_v1_loop [] output = ok output
shell_v1_loop (got [] ∷ reads) output = ok output
shell_v1_loop (got (b ∷ bs) ∷ reads) output =
    let more_output = output ++ (b ∷ bs) in
    let rest = shell_v1_loop reads more_output in
    if ltb shell_v2_max_output (length more_output)
    then err (protocol "Shell V1 output exceeded {} MB limit" (number 100 ∷ []))
    else rest
shell_v1_loop (failed timed_out ∷ reads) output = ok output
shell_v1_loop (failed why ∷ reads) output = err (protocol "ADB shell read failed: {e}" [])

abbrev v1_result : Lossy → Bytes → Result ShellResult
v1_result lossy output =
    ok record { stdout_text = lossy output; stderr_text = []; exit_code = none }

-- `adb_shell` once the stream of the chosen version is open.
unfoldable pub adb_shell : Lossy → Bool → Source → List Read → Result ShellResult
unfolding adb_shell_v2 shell_v1_loop
adb_shell lossy true s reads = adb_shell_v2 lossy s
adb_shell lossy false s reads = shell_v1_loop reads [] >>= v1_result lossy
