-- ===== src/Runs/Writes.antt =====
-- A write to a partition of 8192 bytes on a device without version 2 of the shell, and a dump with it.
use rusty_cortex.Base.{
  some, none, true, contains, [], ◌∷◌, ◌++◌, codes, ◌≡◌, refl, length, arith, false,
}
use rusty_cortex.Adb.Banner.{split}
use rusty_cortex.Adb.Sideload.{digits_from}
use rusty_cortex.Adb.Device.{wrap_for_root, trim, parse_below, validate_shell_path, su, no_root}
use rusty_cortex.Adb.Dump.{write_temp_path_in, validate_partition_name}
use rusty_cortex.Adb.Dump.Write.{
  cleanup_write_temps, says_failed, ran, done, Answers, rm_cmd, write_v1, run_write_partition,
}
use rusty_cortex.Adb.Dump.Fetch.{Source, run_dump_partition}
use rusty_cortex.Adb.Dump.Fetch.Renamed.{Exactly, Fetched, run_dump_partition-Fetched}
use rusty_cortex.Adb.Dump.{is_safe_char}
use rusty_cortex.Adb.Install.{device_path, run_install}
use rusty_cortex.Adb.Install.Outcome.{IsRemoval, last_command, run_install-IsRemoval}
use rusty_cortex.Adb.Dump.Write.Guarded.{
  IsChecked, run_write_partition-IsChecked, EndsIn, write_v1-EndsIn,
}

-- Every command prints "8192".
abbrev small_device : Answers
small_device = record {
  shell = λ cmd. done (codes "8192" ++ (10 ∷ []), []);
  push = λ path. done tt;
  stream = λ cmd. done 0;
  file_size = done 4096;
  open_file = done tt;
  supports_v2 = false;
  to_lowercase = λ s. s;
  format_size = λ n. [];
}

six_commands : length (run_write_partition small_device (codes "boot") (codes "/tmp") no_root).1 ≡ 6
unfolding run_write_partition write_v1 cleanup_write_temps says_failed validate_partition_name
    validate_shell_path parse_below trim split contains digits_from
six_commands = refl

run_write_partition-IsChecked_example : IsChecked small_device (codes "boot") (codes "/tmp") no_root
run_write_partition-IsChecked_example =
    run_write_partition-IsChecked small_device (codes "boot") (codes "/tmp") no_root
      (omega (arith, six_commands))

write_v1-EndsIn_example :
    EndsIn
      (write_v1 small_device (codes "boot") (codes "/tmp") su).1
      (ran (rm_cmd (write_temp_path_in (codes "/tmp") (codes "boot")) su))
write_v1-EndsIn_example = write_v1-EndsIn small_device (codes "boot") (codes "/tmp") su

abbrev streaming_device : Source
streaming_device = record {
  shell = λ cmd. done ([], []);
  pull = λ path. done tt;
  create = done tt;
  receive = λ cmd. done 0;
  rename = done tt;
  supports_v2 = true;
}

run_dump_partition-Fetched_example :
    Exactly
      (Fetched streaming_device (codes "dd if=/dev/block/by-name/boot bs=65536"))
      (run_dump_partition streaming_device (codes "boot") (codes "/tmp") no_root)
unfolding wrap_for_root validate_partition_name validate_shell_path
run_dump_partition-Fetched_example =
    run_dump_partition-Fetched streaming_device (codes "boot") (codes "/tmp") no_root refl refl refl

-- The shell of version 1, which says "Failure" to everything.
run_install-IsRemoval_example : IsRemoval (device_path (codes "a.apk")) (
    last_command
      (run_install
        (λ cmd. done (record { out = codes "Failure"; exit_code = none }))
        (λ path. done tt)
        (some (codes "a.apk"))
        true
        false
        false).1)
unfolding is_safe_char
run_install-IsRemoval_example =
    run_install-IsRemoval (λ cmd. done (record { out = codes "Failure"; exit_code = none }))
      (λ path. done tt) (codes "a.apk") true false false refl
