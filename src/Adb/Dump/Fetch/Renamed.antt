-- ===== src/Adb/Dump/Fetch/Renamed.antt =====
-- When the local file of a dump appears.
use rusty_cortex.Base.{
  codes, ◌++◌, ℕ, zero, suc, Bool, true, false, List, [], ◌∷◌, Option, none, some, ◌≡◌, ◌↔◌, refl,
  arith,
}
use rusty_cortex.Failure.{ok}
use rusty_cortex.Adb.Device.{wrap_for_root, validate_shell_path, Text, RootType}
use rusty_cortex.Adb.Dump.{validate_partition_name}
use rusty_cortex.Adb.Dump.Write.{Reply, done, failed}
use rusty_cortex.Adb.Dump.Fetch.{
  Step, renamed, Source, Dumped, after_rename, after_receive, after_create, dump_v2, image_dd,
  run_dump_partition, run_dump_image,
}

-- Whether a run renames the temporary file to the local one.
abbrev pub renames : List Step → Bool
renames [] = false
renames (renamed ∷ steps) = true
renames (_ ∷ steps) = renames steps

-- The command has ended with exit code 0, into a temporary file that could be made and renamed.
abbrev pub Fetched : Source → Text → Type 0
Fetched d cmd = (d.create ≡ done tt) × (d.receive cmd ≡ done 0) × (d.rename ≡ done tt)

-- A run succeeds exactly if `P` holds, and exactly then a file is renamed.
abbrev pub Exactly : Type 0 → Dumped → Type 0
Exactly P w = ((w.0 ≡ ok tt) ↔ P) × ((renames w.1 ≡ true) ↔ P)

after_rename-Exactly : (r : Reply (Unit {0})) → Exactly (r ≡ done tt) (after_rename r)
after_rename-Exactly (done moved) = ground arith
after_rename-Exactly (failed why) = ground arith

after_receive-Exactly :
    (d : Source) (r : Reply ℕ) → Exactly ((r ≡ done 0) × (d.rename ≡ done tt)) (after_receive d r)
after_receive-Exactly d (done zero) = ground (arith, after_rename-Exactly d.rename)
after_receive-Exactly d (done (suc code)) = ground arith
after_receive-Exactly d (failed why) = ground arith

after_create-Exactly :
    (d : Source) (cmd : Text) (r : Reply (Unit {0}))
    → Exactly
        ((r ≡ done tt) × (d.receive cmd ≡ done 0) × (d.rename ≡ done tt))
        (after_create d cmd r)
after_create-Exactly d cmd (done opened) = ground (arith, after_receive-Exactly d (d.receive cmd))
after_create-Exactly d cmd (failed why) = ground arith

-- With version 2 of the shell and valid names, a dump of a partition succeeds exactly if the
-- temporary file can be made, the dd on the whole partition ends with exit code 0 and the file can be
-- renamed to the local one; and exactly then it is renamed.
pub run_dump_partition-Fetched :
    (d : Source) (partition temp_dir : Text) (root_type : RootType)
    → d.supports_v2 ≡ true
    → validate_partition_name partition ≡ ok tt
    → validate_shell_path temp_dir ≡ ok tt
    → Exactly
        (Fetched d (
          wrap_for_root
            (codes "dd if=/dev/block/by-name/" ++ (partition ++ codes " bs=65536"))
            root_type))
        (run_dump_partition d partition temp_dir root_type)
unfolding run_dump_partition dump_v2
run_dump_partition-Fetched d partition temp_dir root_type v2 name dir =
    rw (v2, name, dir) (after_create-Exactly d _ d.create)

-- With version 2 of the shell and valid paths, a dump of a block device succeeds exactly if the
-- temporary file can be made, the dd ends with exit code 0 and the file can be renamed; and exactly
-- then it is renamed.
pub run_dump_image-Fetched :
    (d : Source) (device : Text) (offset size : Option ℕ) (temp_dir : Text) (root_type : RootType)
    → d.supports_v2 ≡ true
    → validate_shell_path device ≡ ok tt
    → validate_shell_path temp_dir ≡ ok tt
    → Exactly
        (Fetched d (wrap_for_root (image_dd device offset size) root_type))
        (run_dump_image d device offset size temp_dir root_type)
unfolding run_dump_image dump_v2
run_dump_image-Fetched d device offset size temp_dir root_type v2 path dir =
    rw (v2, path, dir) (after_create-Exactly d _ d.create)

-- With version 2 an offset that is given without a size changes nothing: the whole device is read.
pub run_dump_image-offset_alone :
    (d : Source) (device : Text) (offset : ℕ) (temp_dir : Text) (root_type : RootType)
    → d.supports_v2 ≡ true
    → run_dump_image d device (some offset) none temp_dir root_type
      ≡ run_dump_image d device none none temp_dir root_type
unfolding run_dump_image image_dd
run_dump_image-offset_alone d device offset temp_dir root_type v2 = rw v2 refl
