-- ===== src/Runs/Shells.antt =====
-- A command whose output and errors are mixed, and a file that is written in two pieces.
use rusty_cortex.Base.{◌≡◌, refl, arith, List, [], ◌∷◌, ◌++◌, some, map, All, false, codes}
use rusty_cortex.Failure.{ok, unexpected_eof, broken_pipe}
use rusty_cortex.Adb.Shell.{
  stdout, stderr, exit, exit_of, take_packet, shell_v2_build_packet, Source, adb_shell_v2, Writer,
  got, adb_shell_stream_stdin,
}
use rusty_cortex.Adb.Shell.Output.{Packet, IsData, encode_packets, adb_shell_v2-packets}
use rusty_cortex.Adb.Shell.Stdin.{sent, adb_shell_stream_stdin-sends}

abbrev mixed : List Packet
mixed = (stdout, codes "ab") ∷ (stderr, codes "!") ∷ (stdout, codes "c") ∷ []

mixed-IsData : All IsData mixed
unfolding exit_of
mixed-IsData = ((refl, omega arith), ((refl, omega arith), ((refl, omega arith), tt)))

abbrev answer : List Packet → Source
answer ps = record {
  incoming = encode_packets ps ++ (shell_v2_build_packet exit (0 ∷ []) ++ []);
  ends = unexpected_eof;
}

adb_shell_v2-packets_example :
    adb_shell_v2 (λ bytes. bytes) (answer mixed)
    ≡ ok record { stdout_text = codes "abc"; stderr_text = codes "!"; exit_code = some 0 }
adb_shell_v2-packets_example =
    adb_shell_v2-packets (λ bytes. bytes) mixed (0 ∷ []) [] unexpected_eof mixed-IsData
      (omega arith) (omega arith)

-- The run itself.
mixed_run :
    adb_shell_v2 (λ bytes. bytes) (answer mixed)
    ≡ ok record { stdout_text = codes "abc"; stderr_text = codes "!"; exit_code = some 0 }
unfolding adb_shell_v2 shell_v2_build_packet take_packet
mixed_run = refl

abbrev fresh_writer : Writer
fresh_writer = record { written = []; writes_left = 9 }

adb_shell_stream_stdin-sends_example :
    adb_shell_stream_stdin broken_pipe
      (map got ((1 ∷ 2 ∷ []) ∷ (3 ∷ []) ∷ []))
      (answer [])
      fresh_writer
    ≡ (ok 0, (sent fresh_writer ((1 ∷ 2 ∷ []) ∷ (3 ∷ []) ∷ []), false))
adb_shell_stream_stdin-sends_example =
    adb_shell_stream_stdin-sends broken_pipe unexpected_eof ((1 ∷ 2 ∷ []) ∷ (3 ∷ []) ∷ []) []
      (0 ∷ []) [] fresh_writer (omega arith, (omega arith, tt)) (omega arith) tt (omega arith)
