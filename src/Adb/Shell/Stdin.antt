-- ===== src/Adb/Shell/Stdin.antt =====
-- What `adb_shell_stream_stdin` sends of a file.
use rusty_cortex.Base.{
  ℕ, zero, suc, ◌-◌, ◌≤◌, ◌<◌, ◌≡◌, refl, sym, ap, ◌∙◌, arith, false, List, [], ◌∷◌, ◌++◌, some,
  length, append_assoc, map, All,
}
use rusty_cortex.Base.Words.{Bytes}
use rusty_cortex.Failure.{IoErrorKind, ok}
use rusty_cortex.Adb.Shell.{
  stdin, exit, close_stdin, shell_v2_build_packet, shell_v2_max_payload, got, Writer, write_all,
  send_loop, answer_loop, adb_shell_stream_stdin, code_or_255, first, exit_of,
}
use rusty_cortex.Adb.Shell.Packets.{shell_v2_read_packet-build_packet}
use rusty_cortex.Adb.Shell.Output.{Packet, IsData, encode_packets, length-encode_packets}

abbrev pub IsChunk : Bytes → Type 0
IsChunk chunk = 0 < length chunk

-- The packets that carry the pieces of a file.
abbrev pub stdin_packets : List Bytes → Bytes
stdin_packets chunks = encode_packets (map (λ chunk. (stdin, chunk)) chunks)

writer_eq : {a b : Writer} → a.written ≡ b.written → a.writes_left ≡ b.writes_left → a ≡ b
writer_eq p q = λ i. record { written = p i; writes_left = q i }

exit_of-exit : (code : Bytes) → exit_of (exit, code) ≡ some (code_or_255 (first code))
unfolding exit_of
exit_of-exit code = refl

answer_loop-packets :
    (ps : List Packet) (fuel : ℕ) (code rest : Bytes) (ends : IoErrorKind)
    → length ps < fuel
    → All IsData ps
    → length code ≤ shell_v2_max_payload
    → answer_loop fuel record {
      incoming = encode_packets ps ++ (shell_v2_build_packet exit code ++ rest);
      ends = ends;
    }
      ≡ ok (code_or_255 (first code))
unfolding answer_loop
answer_loop-packets ps zero code rest ends enough fit small = absurd (omega arith)
answer_loop-packets [] (suc fuel) code rest ends enough fit small =
    rw (shell_v2_read_packet-build_packet exit code rest ends small, exit_of-exit code)
answer_loop-packets ((id, bytes) ∷ ps) (suc fuel) code rest ends enough ((data_packet, short), fit)
      small =
    let follow = shell_v2_build_packet exit code ++ rest in
    rw
      (
        append_assoc (shell_v2_build_packet id bytes) (encode_packets ps) follow,
        shell_v2_read_packet-build_packet id bytes (encode_packets ps ++ follow) ends short,
        data_packet,
      )
      (answer_loop-packets ps fuel code rest ends (omega arith) fit small)

-- The writer behind one more packet, and behind the packets of the pieces and the end of the input.
abbrev wrote : Writer → Bytes → Writer
wrote w bytes = record { written = w.written ++ bytes; writes_left = w.writes_left - 1 }

abbrev pub sent : Writer → List Bytes → Writer
sent w chunks = record {
  written = w.written ++ (stdin_packets chunks ++ shell_v2_build_packet close_stdin []);
  writes_left = w.writes_left - length chunks - 1;
}

write_all-room :
    (kind : IoErrorKind) (bytes : Bytes) (w : Writer)
    → 0 < w.writes_left
    → write_all kind bytes w ≡ ok (wrote w bytes)
unfolding write_all
write_all-room kind bytes w room = ground arith

sent_next :
    (w : Writer) (chunk : Bytes) (chunks : List Bytes)
    → sent (wrote w (shell_v2_build_packet stdin chunk)) chunks ≡ sent w (chunk ∷ chunks)
sent_next w chunk chunks =
    writer_eq
      (append_assoc w.written (shell_v2_build_packet stdin chunk) _
        ∙ ap (◌++◌ w.written)
            (sym (append_assoc (shell_v2_build_packet stdin chunk) (stdin_packets chunks) _)))
      (omega arith)

send_loop-chunks :
    (kind : IoErrorKind) (chunks : List Bytes) (w : Writer)
    → All IsChunk chunks
    → length chunks < w.writes_left
    → send_loop kind (map got chunks) w ≡ (ok (sent w chunks), (sent w chunks, false))
unfolding send_loop
send_loop-chunks kind [] w fit room =
    rw (write_all-room kind (shell_v2_build_packet close_stdin []) w room)
      (ap (λ v. (ok v, (v, false))) (writer_eq refl (omega arith)))
send_loop-chunks kind ([] ∷ chunks) w (h, fit) room = absurd (omega arith)
send_loop-chunks kind ((b ∷ bs) ∷ chunks) w (h, fit) room =
    rw (write_all-room kind (shell_v2_build_packet stdin (b ∷ bs)) w (omega arith)) (
      send_loop-chunks kind chunks (wrote w (shell_v2_build_packet stdin (b ∷ bs))) fit
        (omega arith)
      ∙ ap (λ v. (ok v, (v, false))) (sent_next w (b ∷ bs) chunks))

-- A file that is read in pieces of any size reaches the device piece by piece in order, each in a
-- packet, then the end of the input; if the device answers with packets of at most 1 MiB and an exit
-- packet, its code is returned. The stream must take all these writes.
pub adb_shell_stream_stdin-sends :
    (kind ends : IoErrorKind) (chunks : List Bytes) (ps : List Packet) (code rest : Bytes)
    (w : Writer)
    → All IsChunk chunks
    → length chunks < w.writes_left
    → All IsData ps
    → length code ≤ shell_v2_max_payload
    → adb_shell_stream_stdin kind
        (map got chunks)
        record {
          incoming = encode_packets ps ++ (shell_v2_build_packet exit code ++ rest);
          ends = ends;
        }
        w
      ≡ (ok (code_or_255 (first code)), (sent w chunks, false))
unfolding adb_shell_stream_stdin
adb_shell_stream_stdin-sends kind ends chunks ps code rest w fit room packets small = rw (
  send_loop-chunks kind chunks w fit room,
  answer_loop-packets ps (length (encode_packets ps ++ (shell_v2_build_packet exit code ++ rest)))
      code rest ends (length-encode_packets ps code rest) packets small,
)
