-- ===== src/Adb/Dump/Write.antt =====
-- `run_write_partition` as the commands that it gives to the device, in order.
pub mod Guarded
use rusty_cortex.Base.{
  ℕ, zero, suc, ◌-◌, Bool, true, false, ◌||◌, ◌&&◌, List, [], ◌∷◌, ◌++◌, Option, none, some, codes,
  contains, equal, leb, ◌==◌, if◌then◌else◌, length, drop,
}
use rusty_cortex.Failure.{
  text, number, FlashError, validation, protocol, Result, ok, err, panic, ◌>>◌,
}
use rusty_cortex.Adb.Banner.{split}
use rusty_cortex.Adb.Device.{Text, trim, parse_below, RootType, wrap_for_root, validate_shell_path}
use rusty_cortex.Adb.Dump.{validate_partition_name, write_temp_path_in, build_dd_command}

-- A shell command, a push to a path, and a command that gets the file as its input.
pub data Command : Type 0 where
  ran : Text → Command
  pushed : Text → Command
  streamed : Text → Command

-- A call that returns, with a value or with an error.
pub data Reply (A : Type 0) : Type 0 where
  done : A → Reply A
  failed : FlashError → Reply A

-- What the device and the local disk answer: output and errors of a shell command, a push, the exit
-- code of a streamed command, the size of the image, its opening; and two functions on texts.
pub record Answers : Type 0 where
  pub shell : Text → Reply (Text × Text)
  pub push : Text → Reply (Unit {0})
  pub stream : Text → Reply ℕ
  pub file_size : Reply ℕ
  pub open_file : Reply (Unit {0})
  pub supports_v2 : Bool
  pub to_lowercase : Text → Text
  pub format_size : ℕ → Text

abbrev pub Written : Type 0
Written = Result (Unit {0}) × List Command

abbrev pub after : List Command → Written → Written
after before w = (w.0, before ++ w.1)

abbrev pub partition_path : Text → Text
partition_path partition = codes "/dev/block/by-name/" ++ partition

abbrev pub size_cmd : Text → RootType → Text
size_cmd partition root_type =
    wrap_for_root (codes "blockdev --getsize64 " ++ partition_path partition) root_type

-- The size that the device reports, if it reports one.
abbrev pub reported : Reply (Text × Text) → Option ℕ
reported (done (out, errors)) = parse_below 18446744073709551616 (trim out)
reported (failed why) = none

-- Version 2: the file is the input of dd.
abbrev pub after_stream : Text → Reply ℕ → Written
after_stream cmd (done zero) = (ok tt, streamed cmd ∷ [])
after_stream cmd (done (suc code)) = (
  err (protocol "dd failed with exit code {exit_code}" (number (suc code) ∷ [])),
  streamed cmd ∷ [],
)
after_stream cmd (failed why) = (err why, streamed cmd ∷ [])

abbrev pub after_open : Answers → Text → Reply (Unit {0}) → Written
after_open d cmd (done opened) = after_stream cmd (d.stream cmd)
after_open d cmd (failed why) = (err why, [])

unfoldable pub write_v2 : Answers → Text → RootType → Written
write_v2 d partition root_type =
    after_open d
      (wrap_for_root (codes "dd of=" ++ (partition_path partition ++ codes " bs=65536")) root_type)
      d.open_file

abbrev pub rm_cmd : Text → RootType → Text
rm_cmd temp root_type = wrap_for_root (codes "rm " ++ temp) root_type

abbrev is_leftover : Text → Bool
is_leftover l = contains l (codes ".rusty_write_") && equal (drop (length l - 4) l) (codes ".img")

abbrev removals : RootType → List Text → List Command
removals root_type [] = []
removals root_type (l ∷ ls) =
    let rest = removals root_type ls in
    if is_leftover (trim l) then ran (rm_cmd (trim l) root_type) ∷ rest else rest

abbrev listed : RootType → Reply (Text × Text) → List Command
listed root_type (done (out, errors)) = removals root_type (split 10 out)
listed root_type (failed why) = []

abbrev ls_cmd : Text → RootType → Text
ls_cmd temp_dir root_type =
    wrap_for_root (codes "ls " ++ (temp_dir ++ codes "/.rusty_write_*.img 2>/dev/null")) root_type

unfoldable pub cleanup_write_temps : Answers → Text → RootType → List Command
cleanup_write_temps d temp_dir root_type =
    ran (ls_cmd temp_dir root_type) ∷ listed root_type (d.shell (ls_cmd temp_dir root_type))

-- The output of a dd that failed; version 1 has no exit codes.
unfoldable pub says_failed : Text → Bool
says_failed s =
    contains s (codes "no space left")
    || (contains s (codes "permission denied")
        || (contains s (codes "read-only file system") || contains s (codes "i/o error")))

-- The removal of the temporary file; if it fails the guard tries once more.
abbrev pub removed : Text → Reply (Text × Text) → List Command
removed rm (done answer) = ran rm ∷ []
removed rm (failed why) = ran rm ∷ ran rm ∷ []

-- What follows the dd, by whether its output tells of a failure.
abbrev pub judged : Answers → Text → RootType → Text → Bool → Written
judged d temp root_type combined true =
    (err (protocol "dd failed: {}" (text (trim combined) ∷ [])), ran (rm_cmd temp root_type) ∷ [])
judged d temp root_type combined false = (
  ok tt,
  ran (wrap_for_root (codes "sync") root_type)
      ∷ removed (rm_cmd temp root_type) (d.shell (rm_cmd temp root_type)),
)

abbrev pub after_dd : Answers → Text → RootType → Reply (Text × Text) → Written
after_dd d temp root_type (done (out, errors)) =
    let combined = out ++ (codes " " ++ errors) in
    judged d temp root_type combined (says_failed (d.to_lowercase combined))
after_dd d temp root_type (failed why) = (err why, ran (rm_cmd temp root_type) ∷ [])

-- The dd behind the push; the guard removes the file on every error.
abbrev pub after_push : Answers → Text → Text → RootType → Reply (Unit {0}) → Written
after_push d partition temp root_type (done sent) =
    let dd = wrap_for_root (build_dd_command temp (partition_path partition) none none) root_type in
    after (ran dd ∷ []) (after_dd d temp root_type (d.shell dd))
after_push d partition temp root_type (failed why) = (err why, ran (rm_cmd temp root_type) ∷ [])

unfoldable pub write_v1 : Answers → Text → Text → RootType → Written
write_v1 d partition temp_dir root_type =
    let temp = write_temp_path_in temp_dir partition in
    after (cleanup_write_temps d temp_dir root_type ++ (pushed temp ∷ []))
      (after_push d partition temp root_type (d.push temp))

abbrev pub written : Answers → Text → Text → RootType → Bool → Written
written d partition temp_dir root_type true = write_v2 d partition root_type
written d partition temp_dir root_type false = write_v1 d partition temp_dir root_type

-- The size check against what the device reports.
abbrev pub within : Answers → Text → Text → RootType → ℕ → Option ℕ → Written
within d partition temp_dir root_type size none =
    written d partition temp_dir root_type d.supports_v2
within d partition temp_dir root_type size (some partition_size) =
    let rest = written d partition temp_dir root_type d.supports_v2 in
    let refused =
      validation "Image ({}) exceeds partition size ({})"
        (text (d.format_size size) ∷ text (d.format_size partition_size) ∷ []) in
    if leb size partition_size then rest else (err refused, [])

abbrev pub sized : Answers → Text → Text → RootType → Reply ℕ → Written
sized d partition temp_dir root_type (failed why) = (err why, [])
sized d partition temp_dir root_type (done zero) = (err (validation "Image file is empty" []), [])
sized d partition temp_dir root_type (done (suc n)) =
    after (ran (size_cmd partition root_type) ∷ []) (
      within d partition temp_dir root_type (suc n)
        (reported (d.shell (size_cmd partition root_type))))

abbrev pub named : Answers → Text → Text → RootType → Result (Unit {0}) → Written
named d partition temp_dir root_type (ok valid) = sized d partition temp_dir root_type d.file_size
named d partition temp_dir root_type (err why) = (err why, [])
named d partition temp_dir root_type panic = (panic, [])

unfoldable pub run_write_partition : Answers → Text → Text → RootType → Written
run_write_partition d partition temp_dir root_type =
    named d partition temp_dir root_type
      (validate_partition_name partition >> validate_shell_path temp_dir)
