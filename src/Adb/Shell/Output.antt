-- ===== src/Adb/Shell/Output.antt =====
-- What `adb_shell_v2` returns for the packets that a device sends.
use rusty_cortex.Base.{
  subst, if◌then◌else◌, ℕ, zero, suc, ◌+◌, ◌≤◌, ◌<◌, ◌≡◌, refl, sym, ap, ◌∙◌, arith, inl, inr,
  Bool-cases, List, [], ◌∷◌, ◌++◌, Option, none, ltb, le→ltb, ltb→ge, length, length-append,
  append-nil, append_assoc, All,
}
use rusty_cortex.Base.Words.{Bytes}
use rusty_cortex.Failure.{FlashError, IoErrorKind, Result, ok, err, ◌>>=◌, >>=-eq-ok}
use rusty_cortex.Adb.Shell.{
  ShellV2Id, stdin, stdout, stderr, exit, close_stdin, window_size_change, shell_v2_build_packet,
  Source, shell_v2_read_packet, shell_v2_max_payload, shell_v2_max_output, Gathered, Turn, more,
  Lossy, as_text, Finished, done, refused, take_packet, after_turn, shell_loop, adb_shell_v2,
  Finished, first, exit_of,
}
use rusty_cortex.Adb.Shell.Packets.{shell_v2_read_packet-build_packet}

abbrev pub Packet : Type 0
Packet = ShellV2Id × Bytes

-- Any packet but the last one.
abbrev pub IsData : Packet → Type 0
IsData p = (exit_of p ≡ none) × (length p.1 ≤ shell_v2_max_payload)

abbrev pub encode_packets : List Packet → Bytes
encode_packets [] = []
encode_packets (p ∷ ps) = shell_v2_build_packet p.0 p.1 ++ encode_packets ps

-- What a packet adds to the standard output, and to the errors.
abbrev stdout_part : Packet → Bytes
stdout_part (stdout, bytes) = bytes
stdout_part (id, bytes) = []

abbrev stderr_part : Packet → Bytes
stderr_part (stderr, bytes) = bytes
stderr_part (id, bytes) = []

abbrev pub stdout_of : List Packet → Bytes
stdout_of [] = []
stdout_of (p ∷ ps) = stdout_part p ++ stdout_of ps

abbrev pub stderr_of : List Packet → Bytes
stderr_of [] = []
stderr_of (p ∷ ps) = stderr_part p ++ stderr_of ps

abbrev pub size_of : List Packet → ℕ
size_of ps = length (stdout_of ps) + length (stderr_of ps)

abbrev added : Packet → Gathered → Gathered
added p o = record {
  out = o.out ++ stdout_part p;
  errors = o.errors ++ stderr_part p;
  total_bytes = o.total_bytes + (length (stdout_part p) + length (stderr_part p));
}

gathered_eq :
    {a b : Gathered} → a.out ≡ b.out → a.errors ≡ b.errors → a.total_bytes ≡ b.total_bytes → a ≡ b
gathered_eq p q r = λ i. record { out = p i; errors = q i; total_bytes = r i }

take_packet-added :
    (p : Packet) (o : Gathered)
    → exit_of p ≡ none
    → o.total_bytes + (length (stdout_part p) + length (stderr_part p)) ≤ shell_v2_max_output
    → take_packet p o ≡ more (added p o)
unfolding take_packet exit_of
take_packet-added (stdin, bytes) o data_packet fits =
    ap more (gathered_eq (sym (append-nil o.out)) (sym (append-nil o.errors)) (omega arith))
take_packet-added (stdout, bytes) o data_packet fits =
    rw (le→ltb shell_v2_max_output (o.total_bytes + length bytes) (omega (arith, fits)))
      (ap more (gathered_eq refl (sym (append-nil o.errors)) (omega arith)))
take_packet-added (stderr, bytes) o data_packet fits =
    rw (le→ltb shell_v2_max_output (o.total_bytes + length bytes) (omega (arith, fits)))
      (ap more (gathered_eq (sym (append-nil o.out)) refl (omega arith)))
take_packet-added (exit, bytes) o data_packet fits = absurd (cc)
take_packet-added (close_stdin, bytes) o data_packet fits =
    ap more (gathered_eq (sym (append-nil o.out)) (sym (append-nil o.errors)) (omega arith))
take_packet-added (window_size_change, bytes) o data_packet fits =
    ap more (gathered_eq (sym (append-nil o.out)) (sym (append-nil o.errors)) (omega arith))

take_packet-exit : (code : Bytes) (o : Gathered) → take_packet (exit, code) o ≡ done (first code)
unfolding take_packet
take_packet-exit code o = refl

same_result :
    {a b c d : Bytes} {code : Option ℕ}
    → a ≡ b
    → c ≡ d
    → ◌≡◌ {A = Result Finished}
        (ok record { stdout_bytes = a; stderr_bytes = c; finished_code = code })
        (ok record { stdout_bytes = b; stderr_bytes = d; finished_code = code })
same_result {code} p q =
    λ i. ok record { stdout_bytes = p i; stderr_bytes = q i; finished_code = code }

shell_loop-packets :
    (ps : List Packet) (fuel : ℕ) (code rest : Bytes) (ends : IoErrorKind) (o : Gathered)
    → length ps < fuel
    → All IsData ps
    → length code ≤ shell_v2_max_payload
    → o.total_bytes + size_of ps ≤ shell_v2_max_output
    → shell_loop fuel
        record {
          incoming = encode_packets ps ++ (shell_v2_build_packet exit code ++ rest);
          ends = ends;
        }
        o
      ≡ ok record {
        stdout_bytes = o.out ++ stdout_of ps;
        stderr_bytes = o.errors ++ stderr_of ps;
        finished_code = first code;
      }
unfolding shell_loop
shell_loop-packets [] (suc fuel) code rest ends o enough fit small total = rw (
  shell_v2_read_packet-build_packet exit code rest ends small,
  take_packet-exit code o,
  append-nil o.out,
  append-nil o.errors,
)
shell_loop-packets ((id, bytes) ∷ ps) (suc fuel) code rest ends o enough ((data_packet, short), fit)
      small total =
    let follow = shell_v2_build_packet exit code ++ rest in
    rw
      (
        append_assoc (shell_v2_build_packet id bytes) (encode_packets ps) follow,
        shell_v2_read_packet-build_packet id bytes (encode_packets ps ++ follow) ends short,
        take_packet-added (id, bytes) o data_packet
            (omega (
              arith,
              total,
              length-append (stdout_part (id, bytes)) (stdout_of ps),
              length-append (stderr_part (id, bytes)) (stderr_of ps),
            )),
      )
      (shell_loop-packets ps fuel code rest ends (added (id, bytes) o) (omega arith) fit small (
          omega (
            arith,
            total,
            length-append (stdout_part (id, bytes)) (stdout_of ps),
            length-append (stderr_part (id, bytes)) (stderr_of ps),
          ))
        ∙ same_result (append_assoc o.out (stdout_part (id, bytes)) (stdout_of ps))
            (append_assoc o.errors (stderr_part (id, bytes)) (stderr_of ps)))
shell_loop-packets ps zero code rest ends o enough fit small total = absurd (omega arith)

pub length-encode_packets :
    (ps : List Packet) (code rest : Bytes)
    → length ps < length (encode_packets ps ++ (shell_v2_build_packet exit code ++ rest))
unfolding shell_v2_build_packet
length-encode_packets [] code rest = omega arith
length-encode_packets (p ∷ ps) code rest = omega (
  arith,
  length-encode_packets ps code rest,
  length-append (shell_v2_build_packet p.0 p.1) (encode_packets ps),
  length-append (shell_v2_build_packet p.0 p.1 ++ encode_packets ps)
      (shell_v2_build_packet exit code ++ rest),
  length-append (encode_packets ps) (shell_v2_build_packet exit code ++ rest),
)

-- However a device mixes the packets of its output, of its errors and of other kinds, in packets of
-- at most 1 MiB and with at most 100 MiB in all, and then sends the exit packet: the command
-- returns the exit code and the texts that `from_utf8_lossy` makes of the output and of the errors,
-- each whole and in the order in which it was sent.
pub adb_shell_v2-packets :
    (lossy : Lossy) (ps : List Packet) (code rest : Bytes) (ends : IoErrorKind)
    → All IsData ps
    → length code ≤ shell_v2_max_payload
    → size_of ps ≤ shell_v2_max_output
    → adb_shell_v2 lossy record {
      incoming = encode_packets ps ++ (shell_v2_build_packet exit code ++ rest);
      ends = ends;
    }
      ≡ ok record {
        stdout_text = lossy (stdout_of ps);
        stderr_text = lossy (stderr_of ps);
        exit_code = first code;
      }
unfolding adb_shell_v2
adb_shell_v2-packets lossy ps code rest ends fit small total =
    ap (λ r. r >>= λ f. ok (as_text lossy f))
      (shell_loop-packets ps
        (length (encode_packets ps ++ (shell_v2_build_packet exit code ++ rest))) code rest ends
        record { out = []; errors = []; total_bytes = 0 } (length-encode_packets ps code rest) fit
        small (omega (arith, total)))

-- What the loop has gathered stays within the limit.
abbrev IsWithin : Gathered → Type 0
IsWithin o =
    (length o.out + length o.errors ≤ o.total_bytes) × (o.total_bytes ≤ shell_v2_max_output)

ok_inj : {a b : Finished} → ok a ≡ ok b → a ≡ b
ok_inj e = cc

err_not_ok : {why : FlashError} {a : Finished} → err why ≡ ok a → ⊥
err_not_ok e = cc

more_inj : {a b : Gathered} → more a ≡ more b → a ≡ b
more_inj e = cc

refused_not_more : {why : FlashError} {a : Gathered} → refused why ≡ more a → ⊥
refused_not_more e = cc

limited-Within :
    (o next : Gathered) (n : ℕ) (why : FlashError)
    → (if ltb shell_v2_max_output n then refused why else more o) ≡ more next
    → (n ≤ shell_v2_max_output → IsWithin o)
    → IsWithin next
limited-Within o next n why goes within = elim (Bool-cases (ltb shell_v2_max_output n)) [
  | inl large ↦ absurd (refused_not_more (rw large at goes))
  | inr fits ↦
      subst IsWithin (more_inj (rw fits at goes)) (within (ltb→ge shell_v2_max_output n fits))
]

take_packet-Within :
    (p : Packet) (o next : Gathered) → IsWithin o → take_packet p o ≡ more next → IsWithin next
unfolding take_packet
take_packet-Within (stdin, bytes) o next within goes = subst IsWithin (more_inj goes) within
take_packet-Within (stdout, bytes) o next (parts, total) goes =
    limited-Within _ next (o.total_bytes + length bytes) _ goes
      λ fits. (omega (arith, length-append o.out bytes), fits)
take_packet-Within (stderr, bytes) o next (parts, total) goes =
    limited-Within _ next (o.total_bytes + length bytes) _ goes
      λ fits. (omega (arith, length-append o.errors bytes), fits)
take_packet-Within (exit, bytes) o next within goes = absurd (cc)
take_packet-Within (close_stdin, bytes) o next within goes = subst IsWithin (more_inj goes) within
take_packet-Within (window_size_change, bytes) o next within goes =
    subst IsWithin (more_inj goes) within

abbrev IsLimited : Finished → Type 0
IsLimited r = length r.stdout_bytes + length r.stderr_bytes ≤ shell_v2_max_output

after_turn-Limited :
    (o : Gathered) (t : Turn) (loop : Gathered → Result Finished) (r : Finished)
    → IsWithin o
    → ((next : Gathered) → t ≡ more next → IsWithin next)
    → ((next : Gathered) → IsWithin next → loop next ≡ ok r → IsLimited r)
    → after_turn o t loop ≡ ok r
    → IsLimited r
after_turn-Limited o (more next) loop r within later on returns = on next (later next refl) returns
after_turn-Limited o (done code) loop r (parts, total) later on returns =
    subst IsLimited (ok_inj returns) (omega arith)
after_turn-Limited o (refused why) loop r within later on returns = absurd (err_not_ok returns)

-- Whatever a device sends, a loop that returns has gathered at most 100 MiB of output and errors, if it
-- began within that limit.
pub shell_loop-Limited :
    (fuel : ℕ) (s : Source) (o : Gathered) (r : Finished)
    → IsWithin o
    → shell_loop fuel s o ≡ ok r
    → IsLimited r
unfolding shell_loop
shell_loop-Limited zero s o r within returns = absurd (err_not_ok returns)
shell_loop-Limited (suc fuel) s o r within returns =
    let ((packet, rest), read, later) = >>=-eq-ok (shell_v2_read_packet s) _ returns in
    after_turn-Limited o (take_packet packet o) (shell_loop fuel rest) r within
      (λ next goes. take_packet-Within packet o next within goes)
      (λ next inside on. shell_loop-Limited fuel rest next r inside on) later
