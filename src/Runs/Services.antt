-- ===== src/Runs/Services.antt =====
-- A log in pieces, and a sideload of a small file.
use rusty_cortex.Base.{equal, none, some}
use rusty_cortex.Sparse.Files.{FilePath, Disk, same_path}
use rusty_cortex.Adb.Sync.{Outcomes, Session, id_done, sync_pull}
use rusty_cortex.Adb.Sync.Frames.{pair_bytes, data_frames}
use rusty_cortex.Adb.Sync.Atomic.{Untouched, sync_pull-Untouched}
use rusty_cortex.Adb.Sync.Pull.{sync_pull-frames}
use rusty_cortex.Base.{ℕ, List, [], ◌∷◌, ◌++◌, ◌≡◌, refl, arith, codes, true, map, take, drop}
use rusty_cortex.Base.Words.{Bytes, to_le_bytes, from_le_bytes}
use rusty_cortex.Failure.{ok, panic}
use rusty_cortex.Adb.Logcat.{feed, feed_all}
use rusty_cortex.Adb.Logcat.Records.{LogRecord, IsRecord, encode_record, encode_log}
use rusty_cortex.Adb.Logcat.Chunks.{concat, log_entry, feed_all-encode_log}
use rusty_cortex.Adb.Logcat.Empty.{feed_panic}
use rusty_cortex.Adb.Sideload.{asked, adb_sideload}
use rusty_cortex.Adb.Sideload.Blocks.{ask, file_block, adb_sideload-ask}

abbrev log_record : LogRecord
log_record = record {
  pid = 1234;
  tid = 5678;
  sec = 1000;
  nsec = 999999;
  extra = [];
  level = 4;
  tag = codes "MyTag";
  message = codes "hi";
}

log_record-IsRecord : IsRecord log_record
log_record-IsRecord = record {
  pid_fits = omega arith;
  tid_fits = omega arith;
  sec_fits = omega arith;
  nsec_fits = omega arith;
  extra_fits = omega arith;
  payload_fits = omega arith;
  tag_text = omega arith;
  message_text = omega arith;
}

abbrev log : List LogRecord
log = log_record ∷ log_record ∷ []

abbrev log_pieces : List Bytes
log_pieces = take 17 (encode_log log) ∷ drop 17 (encode_log log) ∷ []

abbrev same_text : Bytes → List ℕ
same_text bytes = bytes

feed_all-encode_log_example :
    feed_all same_text [] log_pieces ≡ (ok (map (log_entry same_text) log), [])
unfolding encode_record to_le_bytes
feed_all-encode_log_example =
    feed_all-encode_log same_text log_pieces log (log_record-IsRecord, (log_record-IsRecord, tt))
      refl (omega arith)

abbrev empty_entry : Bytes
empty_entry =
    to_le_bytes 2 0
    ++ (to_le_bytes 2 20 ++ (0 ∷ 0 ∷ 0 ∷ 0 ∷ 0 ∷ 0 ∷ 0 ∷ 0 ∷ 0 ∷ 0 ∷ 0 ∷ 0 ∷ 0 ∷ 0 ∷ 0 ∷ 0 ∷ []))

feed_panic_example : feed same_text [] empty_entry ≡ (panic, empty_entry)
unfolding to_le_bytes from_le_bytes
feed_panic_example =
    feed_panic same_text [] empty_entry (omega arith) (omega arith) (omega arith) (omega arith) refl

abbrev zip : Bytes
zip = codes "PK zip"

adb_sideload-ask_example :
    adb_sideload (λ bytes. true) zip (ask (0 ∷ 0 ∷ []) (asked (codes "DONEDONE") ∷ []))
    ≡ (ok tt, map (file_block zip) (0 ∷ 0 ∷ []))
adb_sideload-ask_example =
    adb_sideload-ask (λ bytes. true) zip (0 ∷ 0 ∷ []) [] (omega arith)
      ((omega arith, omega arith, refl), ((omega arith, omega arith, refl), tt))

abbrev session : Session
session = record {
  incoming =
      (codes "STAT" ++ (1 ∷ 0 ∷ 0 ∷ 0 ∷ 3 ∷ 0 ∷ 0 ∷ 0 ∷ 0 ∷ 0 ∷ 0 ∷ 0 ∷ []))
      ++ (data_frames (codes "ab" ∷ codes "c" ∷ []) ++ (pair_bytes id_done 0 ++ []));
  wire = [];
  writes_left = 6;
}

abbrev local_file : FilePath
local_file = record { directory = codes "/tmp"; file_name = codes "a.txt" }

abbrev tmp_file : FilePath
tmp_file = record { directory = codes "/tmp"; file_name = codes "a.img.tmp" }

abbrev empty_disk : Disk
empty_disk p = none

abbrev good_disk : Outcomes
good_disk = record { renaming = ok tt; removing = ok tt }

sync_pull-frames_example :
    ((sync_pull good_disk (codes "/a") tmp_file local_file empty_disk session).0 ≡ ok tt)
    × ((sync_pull good_disk (codes "/a") tmp_file local_file empty_disk session).1 local_file
        ≡ some (concat (codes "ab" ∷ codes "c" ∷ [])))
unfolding from_le_bytes
sync_pull-frames_example =
    sync_pull-frames good_disk (codes "/a") tmp_file local_file empty_disk session
      (codes "STAT" ++ (1 ∷ 0 ∷ 0 ∷ 0 ∷ 3 ∷ 0 ∷ 0 ∷ 0 ∷ 0 ∷ 0 ∷ 0 ∷ 0 ∷ []))
      (codes "ab" ∷ codes "c" ∷ []) 0 [] refl refl (omega arith) (omega arith)
      (omega arith, (omega arith, tt)) (omega arith) refl

-- The device closes the stream in the middle of a frame.
abbrev broken_session : Session
broken_session = record session { incoming = take 26 session.incoming }

sync_pull-Untouched_example :
    Untouched good_disk tmp_file local_file empty_disk
      (sync_pull good_disk (codes "/a") tmp_file local_file empty_disk broken_session)
unfolding same_path equal
sync_pull-Untouched_example =
    sync_pull-Untouched good_disk (codes "/a") tmp_file local_file empty_disk broken_session refl
