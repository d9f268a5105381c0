-- ===== src/Adb/Install.antt =====
-- protocols/adb/install.rs: the installation of an APK as the commands that it gives to the device.
pub mod Outcome
use rusty_cortex.Base.{
  ℕ, Bool, true, false, not, ◌||◌, List, [], ◌∷◌, ◌++◌, Option, none, some, codes, contains, ◌==◌,
}
use rusty_cortex.Failure.{text, FlashError, validation, protocol, Result, ok, err}
use rusty_cortex.Adb.Device.{Text, adb, wrap_for_root, trim}
use rusty_cortex.Adb.Dump.{all_safe}
use rusty_cortex.Adb.Dump.Write.{Command, ran, pushed, Reply, done, failed, Written, after, rm_cmd}

abbrev pub flag_if : Bool → Text → List Text
flag_if true flag = flag ∷ []
flag_if false flag = []

unfoldable pub build_install_flags : Bool → Bool → Bool → List Text
build_install_flags replace downgrade grant_all =
    flag_if replace (codes "-r")
    ++ (flag_if downgrade (codes "-d") ++ flag_if grant_all (codes "-g"))

-- `flags.join(" ")`
abbrev join : Text → List Text → Text
join flag [] = flag
join flag (next ∷ flags) = flag ++ (32 ∷ join next flags)

unfoldable pub build_pm_install_command : Text → List Text → Text
build_pm_install_command device_path [] = codes "pm install " ++ device_path
build_pm_install_command device_path (flag ∷ flags) =
    codes "pm install " ++ (join flag flags ++ (32 ∷ device_path))

-- The output of a command, and its exit code where the shell has version 2.
pub record Ended : Type 0 where
  pub out : Text
  pub exit_code : Option ℕ

abbrev pub failed_by : Text → Option ℕ → Bool
failed_by out (some code) = not (code == 0)
failed_by out none = contains out (codes "Failure") || not (contains out (codes "Success"))

unfoldable pub install_failed : Ended → Bool
install_failed e = failed_by e.out e.exit_code

-- The removal of the APK by a plain command, after which the guard is disarmed.
abbrev pub plain_rm : Text → Command
plain_rm device_tmp = ran (codes "rm " ++ device_tmp)

-- The removal by the guard.
abbrev pub guard_rm : Text → Command
guard_rm device_tmp = ran (rm_cmd device_tmp adb)

abbrev pub concluded : Text → Text → Bool → Written
concluded device_tmp out true =
    (err (protocol "Install failed: {}" (text (trim out) ∷ [])), plain_rm device_tmp ∷ [])
concluded device_tmp out false = (ok tt, plain_rm device_tmp ∷ [])

abbrev pub after_pm : Text → Reply Ended → Written
after_pm device_tmp (done e) = concluded device_tmp e.out (install_failed e)
after_pm device_tmp (failed why) = (err why, guard_rm device_tmp ∷ [])

abbrev pub after_sent : (Text → Reply Ended) → Text → List Text → Reply (Unit {0}) → Written
after_sent shell device_tmp flags (done sent) =
    let pm = build_pm_install_command device_tmp flags in
    after (ran pm ∷ []) (after_pm device_tmp (shell pm))
after_sent shell device_tmp flags (failed why) = (err why, guard_rm device_tmp ∷ [])

abbrev pub unsafe_name : Text → FlashError
unsafe_name filename =
    validation
      "APK filename contains unsafe characters: {}. Rename the file to use only letters, numbers, underscores, hyphens, and dots."
      (text filename ∷ [])

abbrev pub device_path : Text → Text
device_path filename = codes "/data/local/tmp/" ++ filename

abbrev pub safely :
    (Text → Reply Ended) → (Text → Reply (Unit {0})) → List Text → Text → Bool → Written
safely shell push flags filename true =
    after (pushed (device_path filename) ∷ [])
      (after_sent shell (device_path filename) flags (push (device_path filename)))
safely shell push flags filename false = (err (unsafe_name filename), [])

-- `filename` is the last part of the path where it is UTF-8.
unfoldable pub run_install :
    (Text → Reply Ended) → (Text → Reply (Unit {0})) → Option Text → Bool → Bool → Bool → Written
run_install shell push none replace downgrade grant_all =
    (err (validation "Invalid APK filename" []), [])
run_install shell push (some filename) replace downgrade grant_all =
    safely shell push (build_install_flags replace downgrade grant_all) filename (all_safe filename)
