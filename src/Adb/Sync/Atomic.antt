-- ===== src/Adb/Sync/Atomic.antt =====
-- A pull that fails leaves the local file alone.
use rusty_cortex.Base.{true, false, [], none, ◌≡◌, ◌≢◌, ◌⊎◌, inl, inr, refl, length, suc, equal_iff}
use rusty_cortex.Base.Words.{Bytes}
use rusty_cortex.Failure.{FlashError, Result, ok, err, panic}
use rusty_cortex.Sparse.Files.{FilePath, Disk, same_path}
use rusty_cortex.Adb.Sync.{
  Outcomes, after_renaming, after_removing, Session, pull_data, pull_ended, pull_requested,
  request_file, sync_pull,
}

-- After an error the local file is as before. The temporary file is gone or as before, unless it is a
-- complete one whose renaming failed with this error, or its removal failed.
abbrev pub Untouched :
    Outcomes → FilePath → FilePath → Disk → Result (Unit {0}) × Disk × Session → Type 0
Untouched o tmp local_path disk (ok u, after, s) = Unit
Untouched o tmp local_path disk (err e, after, s) =
    (after local_path ≡ disk local_path)
    × ((after tmp ≡ none) ⊎ (after tmp ≡ disk tmp) ⊎ (o.renaming ≡ err e) ⊎ (o.removing ≢ ok tt))
Untouched o tmp local_path disk (panic, after, s) = Unit

pub same_path_self : (p : FilePath) → same_path p p ≡ true
unfolding same_path
same_path_self p =
    rw ((equal_iff p.directory p.directory).1 refl) ((equal_iff p.file_name p.file_name).1 refl)

-- A partial file after its removal.
removed-Untouched :
    (o : Outcomes) (tmp local_path : FilePath) (disk : Disk) (out : Bytes) (e : FlashError)
    (s : Session) (r : Result (Unit {0}))
    → o.removing ≡ r
    → same_path tmp local_path ≡ false
    → Untouched o tmp local_path disk (err e, after_removing tmp out disk r, s)
removed-Untouched o tmp local_path disk out e s (ok u) q h = (rw h, inl (rw (same_path_self tmp)))
removed-Untouched o tmp local_path disk out e s (err x) q h = (rw h, inr (inr (inr λ fine. cc)))
removed-Untouched o tmp local_path disk out e s panic q h = (rw h, inr (inr (inr λ fine. cc)))

renamed-Untouched :
    (o : Outcomes) (tmp local_path : FilePath) (disk : Disk) (out : Bytes) (s : Session)
    (r : Result (Unit {0}))
    → o.renaming ≡ r
    → same_path tmp local_path ≡ false
    → Untouched o tmp local_path disk (
      (after_renaming tmp local_path out disk r).0,
      (after_renaming tmp local_path out disk r).1,
      s,
    )
renamed-Untouched o tmp local_path disk out s (ok u) q h = tt
renamed-Untouched o tmp local_path disk out s (err x) q h = (rw h, inr (inr (inl q)))
renamed-Untouched o tmp local_path disk out s panic q h = tt

pull_ended-Untouched :
    (o : Outcomes) (tmp local_path : FilePath) (disk : Disk)
    (r : Result (Unit {0}) × Bytes × Session)
    → same_path tmp local_path ≡ false
    → Untouched o tmp local_path disk (pull_ended o tmp local_path disk r)
pull_ended-Untouched o tmp local_path disk (ok u, out, s) h =
    renamed-Untouched o tmp local_path disk out s o.renaming refl h
pull_ended-Untouched o tmp local_path disk (err e, out, s) h =
    removed-Untouched o tmp local_path disk out e s o.removing refl h
pull_ended-Untouched o tmp local_path disk (panic, out, s) h = tt

pull_requested-Untouched :
    (o : Outcomes) (tmp local_path : FilePath) (disk : Disk) (r : Result (Unit {0}) × Session)
    → same_path tmp local_path ≡ false
    → Untouched o tmp local_path disk (pull_requested o tmp local_path disk r)
pull_requested-Untouched o tmp local_path disk (ok u, s) h =
    pull_ended-Untouched o tmp local_path disk (pull_data (suc (length s.incoming)) [] s) h
pull_requested-Untouched o tmp local_path disk (err e, s) h = (refl, inr (inl refl))
pull_requested-Untouched o tmp local_path disk (panic, s) h = tt

-- Whatever the device sends and whenever the stream breaks: a pull that fails leaves the local file
-- with its old content, or absent. The temporary file is then gone or as before, unless everything was
-- received and its renaming failed, with the error that is returned, or its removal failed. The
-- temporary path is assumed to differ from the local one.
pub sync_pull-Untouched :
    (o : Outcomes) (remote_path : Bytes) (tmp local_path : FilePath) (disk : Disk) (s : Session)
    → same_path tmp local_path ≡ false
    → Untouched o tmp local_path disk (sync_pull o remote_path tmp local_path disk s)
unfolding sync_pull
sync_pull-Untouched o remote_path tmp local_path disk s h =
    pull_requested-Untouched o tmp local_path disk (request_file remote_path s) h
