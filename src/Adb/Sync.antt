-- ===== src/Adb/Sync.antt =====
-- protocols/adb/sync.rs: push and pull over a `sync:` stream. The local disk takes what is written to it.
pub mod Frames
pub mod Atomic
pub mod Pull
use rusty_cortex.Base.{
  ℕ, zero, suc, ◌+◌, ◌-◌, ◌^◌, ◌%◌, min, Bool, true, false, not, List, [], ◌∷◌, ◌++◌, Option, none,
  some, ltb, leb, ◌==◌, if◌then◌else◌, length, take, drop, codes,
}
use rusty_cortex.Base.Words.{Bytes, u32_at, to_le_bytes, from_le_bytes}
use rusty_cortex.Sparse.Files.{FilePath, Disk, same_path, store}
use rusty_cortex.Failure.{
  FlashError, Result, ok, err, panic, protocol, validation, text, number, Arg,
}

abbrev pub sync_data_max : ℕ
sync_data_max = 65536

-- Four ASCII bytes, the least significant first.
abbrev pub id_lstat_v1 : ℕ
id_lstat_v1 = 0x54415453

abbrev pub id_send_v1 : ℕ
id_send_v1 = 0x444E4553

abbrev pub id_recv_v1 : ℕ
id_recv_v1 = 0x56434552

abbrev pub id_data : ℕ
id_data = 0x41544144

abbrev pub id_done : ℕ
id_done = 0x454E4F44

abbrev pub id_okay : ℕ
id_okay = 0x59414B4F

abbrev pub id_fail : ℕ
id_fail = 0x4C494146

-- The stream to the device: what it will send, what it got, and how many writes it still takes.
pub record Session : Type 0 where
  pub incoming : Bytes
  pub wire : Bytes
  pub writes_left : ℕ

abbrev pub Exchange {ℓ} : Type ℓ → Type ℓ
Exchange A = Session → Result A × Session

abbrev pub pure {ℓ} : {A : Type ℓ} → A → Exchange A
pure a s = (ok a, s)

abbrev pub fail {ℓ} : {A : Type ℓ} → FlashError → Exchange A
fail e s = (err e, s)

abbrev pub continue {ℓ κ} :
    {A : Type ℓ} {B : Type κ}
    → Result A × Session
    → (A → Session → Result B × Session)
    → Result B × Session
continue (ok a, s) f = f a s
continue (err e, s) f = (err e, s)
continue (panic, s) f = (panic, s)

infixl 5 ◌>>=◌ ◌>>◌
abbrev pub ◌>>=◌ {ℓ κ} :
    {A : Type ℓ} {B : Type κ}
    → (Session → Result A × Session)
    → (A → Session → Result B × Session)
    → Session
    → Result B × Session
◌>>=◌ m f s = continue (m s) f

abbrev pub ◌>>◌ {ℓ} :
    {B : Type ℓ}
    → Exchange (Unit {0})
    → (Session → Result B × Session)
    → Session
    → Result B × Session
m >> k = m >>= λ _. k

-- `write_all`, with its error wrapped.
unfoldable pub write_all : FlashError → Bytes → Exchange (Unit {0})
write_all e bytes s =
    if s.writes_left == 0
    then (err e, s)
    else (ok tt, record s { wire = s.wire ++ bytes; writes_left = s.writes_left - 1 })

unfoldable pub read_exact : FlashError → ℕ → Exchange Bytes
read_exact e n s =
    if leb n (length s.incoming)
    then (ok (take n s.incoming), record s { incoming = drop n s.incoming })
    else (err e, record s { incoming = [] })

abbrev pub write_failed : FlashError
write_failed = protocol "SYNC write failed: {e}" []

unfoldable pub write_sync_request : ℕ → Bytes → Exchange (Unit {0})
write_sync_request id bytes = do
  write_all write_failed (to_le_bytes 4 id)
  write_all write_failed (to_le_bytes 4 (length bytes))
  write_all write_failed bytes

abbrev header_pair : Bytes → ℕ × ℕ
header_pair buf = (u32_at buf 0, u32_at buf 4)

unfoldable pub read_sync_response : Exchange (ℕ × ℕ)
read_sync_response = do
  buf ← read_exact (protocol "SYNC read failed: {e}" []) 8
  pure (header_pair buf)

-- The error that a FAIL response carries.
abbrev fail_message : Result Bytes × Session → FlashError × Session
fail_message (ok msg, s) = (protocol "{}" (text msg ∷ []), s)
fail_message (err _, s) = (protocol "SYNC operation failed (could not read error message)" [], s)
fail_message (panic, s) = (protocol "SYNC operation failed (could not read error message)" [], s)

unfoldable pub read_sync_fail : ℕ → Session → FlashError × Session
read_sync_fail msg_len s = fail_message (read_exact write_failed (min msg_len 4096) s)

abbrev failed_with {ℓ} : {A : Type ℓ} → FlashError × Session → Result A × Session
failed_with (e, s) = (err e, s)

abbrev pub push_failed : FlashError
push_failed = protocol "Push write failed: {e}" []

-- The DATA loop over what is left of the file. Each round takes at least a byte.
unfoldable pub push_data : ℕ → Bytes → Exchange (Unit {0})
push_data zero file = pure tt
push_data (suc fuel) file =
    let chunk = take sync_data_max file in
    if length chunk == 0 then pure tt else do
      write_all push_failed (to_le_bytes 4 id_data)
      write_all push_failed (to_le_bytes 4 (length chunk))
      write_all push_failed chunk
      push_data fuel (drop sync_data_max file)

abbrev push_answer : ℕ × ℕ → Exchange (Unit {0})
push_answer (id, val) s =
    if id == id_okay
    then (ok tt, s)
    else if id == id_fail
    then failed_with (read_sync_fail val s)
    else (err (protocol "Unexpected SYNC response: 0x{:08x}" (number id ∷ [])), s)

abbrev done_failed : FlashError
done_failed = protocol "Push DONE write failed: {e}" []

-- `sync_push` once the file is open and the stream is there.
unfoldable pub sync_push : Bytes → Bytes → ℕ → Exchange (Unit {0})
sync_push remote_path file mtime = do
  write_sync_request id_send_v1 (remote_path ++ codes ",0100644")
  push_data (length file) file
  write_all done_failed (to_le_bytes 4 id_done)
  write_all done_failed (to_le_bytes 4 mtime)
  answer ← read_sync_response
  push_answer answer

-- One round of the loop of `sync_pull`: `out` was written to the temporary file so far, and `again`
-- goes on.
abbrev Pulled : Type 0
Pulled = Result (Unit {0}) × Bytes × Session

abbrev pub chunk_read :
    (Bytes → Session → Result (Unit {0}) × Bytes × Session)
    → Bytes
    → Result Bytes × Session
    → Pulled
chunk_read again out (ok chunk, t) = again (out ++ chunk) t
chunk_read again out (err e, t) = (err e, out, t)
chunk_read again out (panic, t) = (panic, out, t)

abbrev pull_failed : Bytes → FlashError × Session → Pulled
pull_failed out (e, t) = (err e, out, t)

abbrev pub pull_read_failed : FlashError
pull_read_failed = protocol "Pull read failed: {e}" []

abbrev pub pull_answered :
    (Bytes → Session → Result (Unit {0}) × Bytes × Session)
    → Bytes
    → Result (ℕ × ℕ) × Session
    → Pulled
pull_answered again out (ok (id, size), t) =
    let more = chunk_read again out (read_exact pull_read_failed size t) in
    if id == id_data
    then more
    else if id == id_done
    then (ok tt, out, t)
    else if id == id_fail
    then pull_failed out (read_sync_fail size t)
    else (err (protocol "Unexpected SYNC response: 0x{:08x}" (number id ∷ [])), out, t)
pull_answered again out (err e, t) = (err e, out, t)
pull_answered again out (panic, t) = (panic, out, t)

-- The loop. Each round takes at least the eight bytes of a header, so as many rounds as there are
-- bytes, and one more that finds none, are enough.
unfoldable pub pull_data : ℕ → Bytes → Session → Result (Unit {0}) × Bytes × Session
pull_data zero out s = (err (protocol "SYNC read failed: {e}" []), out, s)
pull_data (suc fuel) out s = pull_answered (λ o t. pull_data fuel o t) out (read_sync_response s)

abbrev pub erase : FilePath → Disk → Disk
erase p disk q = if same_path p q then none else disk q

-- How the local disk answers to the renaming and to the removal of the temporary file.
pub record Outcomes : Type 0 where
  pub renaming : Result (Unit {0})
  pub removing : Result (Unit {0})

-- A finished file takes the place of the local one, or stays where it is.
abbrev pub after_renaming :
    FilePath → FilePath → Bytes → Disk → Result (Unit {0}) → Result (Unit {0}) × Disk
after_renaming tmp local_path out disk (ok _) = (ok tt, store local_path out (erase tmp disk))
after_renaming tmp local_path out disk (err e) = (err e, store tmp out disk)
after_renaming tmp local_path out disk panic = (panic, store tmp out disk)

-- A partial file is removed; if that fails, the code only warns.
abbrev pub after_removing : FilePath → Bytes → Disk → Result (Unit {0}) → Disk
after_removing tmp out disk (ok _) = erase tmp disk
after_removing tmp out disk _ = store tmp out disk

abbrev pub pull_ended :
    Outcomes
    → FilePath
    → FilePath
    → Disk
    → Result (Unit {0}) × Bytes × Session
    → Result (Unit {0}) × Disk × Session
pull_ended o tmp local_path disk (ok _, out, s) =
    let (result, after) = after_renaming tmp local_path out disk o.renaming in (result, after, s)
pull_ended o tmp local_path disk (err e, out, s) =
    (err e, after_removing tmp out disk o.removing, s)
pull_ended o tmp local_path disk (panic, out, s) = (panic, store tmp out disk, s)

abbrev pull_requested :
    Outcomes
    → FilePath
    → FilePath
    → Disk
    → Result (Unit {0}) × Session
    → Result (Unit {0}) × Disk × Session
pull_requested o tmp local_path disk (ok _, s) =
    pull_ended o tmp local_path disk (pull_data (suc (length s.incoming)) [] s)
pull_requested o tmp local_path disk (err e, s) = (err e, disk, s)
pull_requested o tmp local_path disk (panic, s) = (panic, disk, s)

abbrev pub not_found : Bytes → FlashError
not_found remote_path = protocol "Remote file not found: {}" (text remote_path ∷ [])

-- STAT, then RECV; nothing is created before the device has accepted both.
unfoldable pub request_file : Bytes → Exchange (Unit {0})
request_file remote_path = do
  write_sync_request id_lstat_v1 remote_path
  stat_buf ← read_exact (protocol "STAT read failed: {e}" []) 16
  if u32_at stat_buf 4 == 0
      then fail (not_found remote_path)
      else write_sync_request id_recv_v1 remote_path

-- `sync_pull` once the stream is there; `tmp` is `local_path.with_extension("img.tmp")`.
unfoldable pub sync_pull :
    Outcomes → Bytes → FilePath → FilePath → Disk → Session → Result (Unit {0}) × Disk × Session
sync_pull o remote_path tmp local_path disk s =
    pull_requested o tmp local_path disk (request_file remote_path s)
