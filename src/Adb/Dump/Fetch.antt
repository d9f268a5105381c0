-- ===== src/Adb/Dump/Fetch.antt =====
-- `run_dump_partition` and `run_dump_image` as their steps on the device and on the local disk.
pub mod Renamed
use rusty_cortex.Base.{
  ℕ, zero, suc, ◌/◌, Bool, true, false, List, [], ◌∷◌, ◌++◌, Option, none, some, codes, map,
}
use rusty_cortex.Failure.{number, FlashError, protocol, Result, ok, err, panic, ◌>>◌}
use rusty_cortex.Adb.Device.{Text, RootType, wrap_for_root, validate_shell_path}
use rusty_cortex.Adb.Dump.{
  validate_partition_name, temp_path_in, build_dd_command, cleanup_device_temps, decimal,
}
use rusty_cortex.Adb.Dump.Write.{Command, ran, Reply, done, failed, partition_path, rm_cmd, removed}

-- A command to the device, a pull of a file, and what happens to the temporary file beside the local
-- one: its creation, a command whose output it takes, its removal and its renaming.
pub data Step : Type 0 where
  told : Command → Step
  pulled : Text → Step
  created : Step
  received : Text → Step
  erased : Step
  renamed : Step

-- How the device and the local disk answer.
pub record Source : Type 0 where
  pub shell : Text → Reply (Text × Text)
  pub pull : Text → Reply (Unit {0})
  pub create : Reply (Unit {0})
  pub receive : Text → Reply ℕ
  pub rename : Reply (Unit {0})
  pub supports_v2 : Bool

abbrev pub Dumped : Type 0
Dumped = Result (Unit {0}) × List Step

abbrev pub behind : List Step → Dumped → Dumped
behind before w = (w.0, before ++ w.1)

abbrev pub after_rename : Reply (Unit {0}) → Dumped
after_rename (done moved) = (ok tt, renamed ∷ [])
after_rename (failed why) = (err why, [])

abbrev pub after_receive : Source → Reply ℕ → Dumped
after_receive d (done zero) = after_rename d.rename
after_receive d (done (suc code)) =
    (err (protocol "dd failed with exit code {exit_code}" (number (suc code) ∷ [])), erased ∷ [])
after_receive d (failed why) = (err why, erased ∷ [])

abbrev pub after_create : Source → Text → Reply (Unit {0}) → Dumped
after_create d cmd (done opened) =
    behind (created ∷ received cmd ∷ []) (after_receive d (d.receive cmd))
after_create d cmd (failed why) = (err why, [])

-- Version 2: the output of dd goes to the file.
unfoldable pub dump_v2 : Source → Text → Dumped
dump_v2 d cmd = after_create d cmd d.create

abbrev output_of : Reply (Text × Text) → Option Text
output_of (done (out, errors)) = some out
output_of (failed why) = none

abbrev pub after_pull : Source → Text → Reply (Unit {0}) → Dumped
after_pull d rm (done pulled_file) = (ok tt, map told (removed rm (d.shell rm)))
after_pull d rm (failed why) = (err why, told (ran rm) ∷ [])

abbrev pub after_dump : Source → Text → Text → Reply (Text × Text) → Dumped
after_dump d temp rm (done answer) = behind (pulled temp ∷ []) (after_pull d rm (d.pull temp))
after_dump d temp rm (failed why) = (err why, told (ran rm) ∷ [])

abbrev ls_cmd : Text → RootType → Text
ls_cmd temp_dir root_type =
    wrap_for_root (codes "ls " ++ (temp_dir ++ codes "/.rusty_dump_*.img 2>/dev/null")) root_type

-- Version 1: dd to a temporary file on the device, a pull, and the removal behind the guard.
unfoldable pub dump_v1 : Source → Text → Text → Text → RootType → Dumped
dump_v1 d temp_dir temp dd root_type =
    behind
      (told (ran (ls_cmd temp_dir root_type))
        ∷ (map (λ rm. told (ran rm))
              (cleanup_device_temps (λ cmd. output_of (d.shell cmd)) temp_dir root_type)
            ++ (told (ran dd) ∷ [])))
      (after_dump d temp (rm_cmd temp root_type) (d.shell dd))

abbrev dumped : Bool → Dumped → Dumped → Dumped
dumped true v2 v1 = v2
dumped false v2 v1 = v1

-- What runs once the checks of the names have passed.
abbrev pub allowed : Result (Unit {0}) → Dumped → Dumped
allowed (ok valid) run = run
allowed (err why) run = (err why, [])
allowed panic run = (panic, [])

unfoldable pub run_dump_partition : Source → Text → Text → RootType → Dumped
run_dump_partition d partition temp_dir root_type =
    let v2 =
      wrap_for_root (codes "dd if=" ++ (partition_path partition ++ codes " bs=65536")) root_type in
    let temp = temp_path_in temp_dir partition in
    let v1 = wrap_for_root (build_dd_command (partition_path partition) temp none none) root_type in
    allowed (validate_partition_name partition >> validate_shell_path temp_dir)
      (dumped d.supports_v2 (dump_v2 d v2) (dump_v1 d temp_dir temp v1 root_type))

-- The dd of version 2 has a range only where both bounds are given.
unfoldable pub image_dd : Text → Option ℕ → Option ℕ → Text
image_dd device (some offset) (some size) =
    codes "dd if="
    ++ (device
        ++ (codes " bs=512 skip="
            ++ (decimal (offset / 512) ++ (codes " count=" ++ decimal (size / 512)))))
image_dd device (some offset) none = codes "dd if=" ++ (device ++ codes " bs=65536")
image_dd device none size = codes "dd if=" ++ (device ++ codes " bs=65536")

unfoldable pub run_dump_image : Source → Text → Option ℕ → Option ℕ → Text → RootType → Dumped
run_dump_image d device offset_bytes size_bytes temp_dir root_type =
    let v2 = wrap_for_root (image_dd device offset_bytes size_bytes) root_type in
    let temp = temp_path_in temp_dir (codes "raw") in
    let v1 = wrap_for_root (build_dd_command device temp offset_bytes size_bytes) root_type in
    allowed (validate_shell_path device >> validate_shell_path temp_dir)
      (dumped d.supports_v2 (dump_v2 d v2) (dump_v1 d temp_dir temp v1 root_type))
