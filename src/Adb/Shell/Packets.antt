-- ===== src/Adb/Shell/Packets.antt =====
-- Packets of the shell protocol, written and read back.
use rusty_cortex.Base.{
  take-all, append_assoc, ℕ, ◌%◌, ◌^◌, ◌≤◌, ◌≡◌, refl, ap, ◌∙◌, arith, ◌∷◌, ◌++◌, le→leb, le→ltb,
  length, length-append, take-append, drop-append, codes,
}
use rusty_cortex.Base.Words.{
  Bytes, to_le_bytes, from_le_bytes, from-to_u32, u32_at, length-to_le_bytes,
}
use rusty_cortex.Failure.{IoErrorKind, ok}
use rusty_cortex.Adb.Shell.{
  read_exact, after_header, ShellV2Id, stdin, stdout, stderr, exit, close_stdin, window_size_change,
  id_byte, try_from, shell_v2_build_packet, packet_payload, shell_v2_read_packet,
  shell_v2_max_payload,
}

try_from-id_byte : (id : ShellV2Id) → try_from (id_byte id) ≡ ok id
unfolding try_from
try_from-id_byte stdin = refl
try_from-id_byte stdout = refl
try_from-id_byte stderr = refl
try_from-id_byte exit = refl
try_from-id_byte close_stdin = refl
try_from-id_byte window_size_change = refl

length_field : (n : ℕ) → n ≤ 1048576 → from_le_bytes (to_le_bytes 4 (n % 2 ^ 32)) ≡ n
length_field n small = from-to_u32 (n % 2 ^ 32) (omega arith) ∙ omega arith

read_exact-append :
    (phase bytes rest : Bytes) (n : ℕ) (ends : IoErrorKind)
    → length bytes ≡ n
    → read_exact phase n record { incoming = bytes ++ rest; ends = ends }
      ≡ ok (bytes, record { incoming = rest; ends = ends })
unfolding read_exact
read_exact-append phase bytes rest n ends size = rw (
  le→leb n (length (bytes ++ rest)) (omega (arith, length-append bytes rest)),
  take-append n bytes rest size,
  drop-append n bytes rest size,
)

packet_payload-bytes :
    (id : ShellV2Id) (bytes rest : Bytes) (n : ℕ) (ends : IoErrorKind)
    → length bytes ≡ n
    → n ≤ shell_v2_max_payload
    → packet_payload id n record { incoming = bytes ++ rest; ends = ends }
      ≡ ok ((id, bytes), record { incoming = rest; ends = ends })
packet_payload-bytes id bytes rest n ends size small =
    rw
      (le→ltb shell_v2_max_payload n small, read_exact-append (codes "data") bytes rest n ends size)

abbrev header : ShellV2Id → ℕ → Bytes
header id n = id_byte id ∷ to_le_bytes 4 (n % 2 ^ 32)

field_of : (id : ShellV2Id) (n : ℕ) → n ≤ 1048576 → u32_at (header id n) 1 ≡ n
field_of id n small =
    ap from_le_bytes
      (take-all 4 (to_le_bytes 4 (n % 2 ^ 32)) (omega (arith, length-to_le_bytes 4 (n % 2 ^ 32))))
    ∙ length_field n small

after_header-header :
    (id : ShellV2Id) (bytes rest : Bytes) (ends : IoErrorKind)
    → length bytes ≤ shell_v2_max_payload
    → after_header (header id (length bytes), record { incoming = bytes ++ rest; ends = ends })
      ≡ ok ((id, bytes), record { incoming = rest; ends = ends })
after_header-header id bytes rest ends small = rw (
  try_from-id_byte id,
  field_of id (length bytes) small,
  packet_payload-bytes id bytes rest (length bytes) ends refl small,
)

packet_split :
    (id : ShellV2Id) (bytes rest : Bytes)
    → shell_v2_build_packet id bytes ++ rest ≡ header id (length bytes) ++ (bytes ++ rest)
unfolding shell_v2_build_packet
packet_split id bytes rest =
    ap (◌∷◌ (id_byte id)) (append_assoc (to_le_bytes 4 (length bytes % 2 ^ 32)) bytes rest)

-- A packet that was built with at most 1 MiB of data is read back, whatever follows it, and only its
-- bytes are taken.
pub shell_v2_read_packet-build_packet :
    (id : ShellV2Id) (bytes rest : Bytes) (ends : IoErrorKind)
    → length bytes ≤ shell_v2_max_payload
    → shell_v2_read_packet record { incoming = shell_v2_build_packet id bytes ++ rest; ends = ends }
      ≡ ok ((id, bytes), record { incoming = rest; ends = ends })
unfolding shell_v2_read_packet
shell_v2_read_packet-build_packet id bytes rest ends small =
    rw
      (
        packet_split id bytes rest,
        read_exact-append (codes "header") (header id (length bytes)) (bytes ++ rest) 5 ends
            (omega (arith, length-to_le_bytes 4 (length bytes % 2 ^ 32))),
      )
      (after_header-header id bytes rest ends small)
