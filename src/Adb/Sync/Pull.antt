-- ===== src/Adb/Sync/Pull.antt =====
-- A pull that the device answers in full.
use rusty_cortex.Base.{
  ℕ, suc, ◌-◌, ◌≤◌, ◌<◌, List, [], ◌∷◌, ◌++◌, some, ◌≡◌, ◌≢◌, refl, ap, arith, length, All,
  length-append, ne→==,
}
use rusty_cortex.Base.Words.{Bytes, IsU32, u32_at, to_le_bytes}
use rusty_cortex.Failure.{FlashError, ok}
use rusty_cortex.Sparse.Files.{FilePath, Disk}
use rusty_cortex.Adb.Sync.{
  Outcomes, id_lstat_v1, Session, id_done, id_recv_v1, write_all, write_sync_request, request_file,
  sync_pull,
}
use rusty_cortex.Adb.Sync.Atomic.{same_path_self}
use rusty_cortex.Adb.Sync.Frames.{pair_bytes, data_frames, concat, read_exact_lem, pull_data-frames}

-- The session after a request.
abbrev requested : ℕ → Bytes → Session → Session
requested id bytes s = record s {
  wire = ((s.wire ++ to_le_bytes 4 id) ++ to_le_bytes 4 (length bytes)) ++ bytes;
  writes_left = s.writes_left - 1 - 1 - 1;
}

write_all_lem :
    (e : FlashError) (bytes : Bytes) (s : Session)
    → 0 < s.writes_left
    → write_all e bytes s
      ≡ (ok tt, record s { wire = s.wire ++ bytes; writes_left = s.writes_left - 1 })
unfolding write_all
write_all_lem e bytes s h = rw (ne→== s.writes_left 0 (λ z. omega arith))

write_sync_request_lem :
    (id : ℕ) (bytes : Bytes) (s : Session)
    → 3 ≤ s.writes_left
    → write_sync_request id bytes s ≡ (ok tt, requested id bytes s)
unfolding write_sync_request
write_sync_request_lem id bytes s h = rw (write_all_lem _ (to_le_bytes 4 id) s (omega arith)) (
    rw
      (write_all_lem _ (to_le_bytes 4 (length bytes))
        (record s { wire = s.wire ++ to_le_bytes 4 id; writes_left = s.writes_left - 1 })
        (omega arith))
      (write_all_lem _ bytes
        (record s {
          wire = (s.wire ++ to_le_bytes 4 id) ++ to_le_bytes 4 (length bytes);
          writes_left = s.writes_left - 1 - 1;
        })
        (omega arith)))

length-data_frames : (chunks : List Bytes) → length chunks ≤ length (data_frames chunks)
unfolding pair_bytes to_le_bytes
length-data_frames [] = omega arith
length-data_frames (c ∷ cs) = omega (arith, length-data_frames cs, length-append c (data_frames cs))

-- After both requests: whatever was sent, the frames are next.
record Requested (remote_path : Bytes) (s : Session) (later : Bytes) : Type 0 where
  after : Session
  runs : request_file remote_path s ≡ (ok tt, after)
  frames_next : after.incoming ≡ later

request_file-Requested :
    (remote_path stat later : Bytes) (s : Session)
    → s.incoming ≡ stat ++ later
    → length stat ≡ 16
    → u32_at stat 4 ≢ 0
    → 6 ≤ s.writes_left
    → Requested remote_path s later
unfolding request_file
request_file-Requested remote_path stat later s e n mode room =
    let asked = requested id_lstat_v1 remote_path s in
    let answered : Session = record asked { incoming = later } in
    record {
      after = requested id_recv_v1 remote_path answered;
      runs = rw (write_sync_request_lem id_lstat_v1 remote_path s (omega arith)) (
          rw (read_exact_lem _ 16 stat later asked n e) (
            rw (ne→== (u32_at stat 4) 0 mode)
              (write_sync_request_lem id_recv_v1 remote_path answered (omega arith))));
      frames_next = refl;
    }

-- A device that knows the file, sends it in data frames of any size and then says DONE: if the
-- temporary file can be renamed, the pull succeeds and the local file is the frames' contents, one after the other.
pub sync_pull-frames :
    (o : Outcomes) (remote_path : Bytes) (tmp local_path : FilePath) (disk : Disk) (s : Session)
    (stat : Bytes) (chunks : List Bytes) (val : ℕ) (rest : Bytes)
    → s.incoming ≡ stat ++ (data_frames chunks ++ (pair_bytes id_done val ++ rest))
    → length stat ≡ 16
    → u32_at stat 4 ≢ 0
    → 6 ≤ s.writes_left
    → All (λ c. IsU32 (length c)) chunks
    → IsU32 val
    → o.renaming ≡ ok tt
    → ((sync_pull o remote_path tmp local_path disk s).0 ≡ ok tt)
      × ((sync_pull o remote_path tmp local_path disk s).1 local_path ≡ some (concat chunks))
unfolding sync_pull
sync_pull-frames o remote_path tmp local_path disk s stat chunks val rest e n mode room fit small
      can =
    let later = data_frames chunks ++ (pair_bytes id_done val ++ rest) in
    let q = request_file-Requested remote_path stat later s e n mode room in
    rw q.runs (
      rw
        (pull_data-frames chunks (suc (length q.after.incoming)) [] rest val q.after fit small
          (omega (
            arith,
            ap length q.frames_next,
            length-append (data_frames chunks) (pair_bytes id_done val ++ rest),
            length-data_frames chunks,
          ))
          q.frames_next)
        (rw can (refl, rw (same_path_self local_path))))
