-- ===== src/Adb/Install/Outcome.antt =====
-- What an installation leaves on the device.
use rusty_cortex.Base.{
  inl, inr, ◌⊎◌, Bool, true, false, List, [], ◌∷◌, Option, none, some, ◌≡◌, refl,
}
use rusty_cortex.Adb.Device.{Text}
use rusty_cortex.Adb.Dump.{all_safe}
use rusty_cortex.Adb.Dump.Write.{Command, ran, pushed, Reply, done, failed}
use rusty_cortex.Adb.Install.{
  Ended, build_install_flags, build_pm_install_command, install_failed, plain_rm, guard_rm,
  concluded, after_pm, after_sent, device_path, run_install,
}

-- The last command of a log, if it has one.
abbrev pub last_command : List Command → Option Command
last_command [] = none
last_command (c ∷ []) = some c
last_command (_ ∷ (c ∷ cs)) = last_command (c ∷ cs)

-- Whether a command is the removal of a file, plain or by the guard.
abbrev pub IsRemoval : Text → Option Command → Type 0
IsRemoval path c = (c ≡ some (plain_rm path)) ⊎ (c ≡ some (guard_rm path))

concluded-IsRemoval :
    (path out : Text) (c : Command) (b : Bool)
    → IsRemoval path (last_command (c ∷ (concluded path out b).1))
concluded-IsRemoval path out c true = inl refl
concluded-IsRemoval path out c false = inl refl

after_pm-IsRemoval :
    (path : Text) (c : Command) (r : Reply Ended)
    → IsRemoval path (last_command (c ∷ (after_pm path r).1))
after_pm-IsRemoval path c (done e) = concluded-IsRemoval path e.out c (install_failed e)
after_pm-IsRemoval path c (failed why) = inr refl

after_sent-IsRemoval :
    (shell : Text → Reply Ended) (path : Text) (flags : List Text) (r : Reply (Unit {0}))
    → IsRemoval path (last_command (pushed path ∷ (after_sent shell path flags r).1))
after_sent-IsRemoval shell path flags (failed why) = inr refl
after_sent-IsRemoval shell path flags (done sent) =
    after_pm-IsRemoval path (ran (build_pm_install_command path flags))
      (shell (build_pm_install_command path flags))

-- For a file with a safe name, whatever the device answers, the last command of an installation is
-- the removal of the pushed file.
pub run_install-IsRemoval :
    (shell : Text → Reply Ended) (push : Text → Reply (Unit {0})) (filename : Text)
    (replace downgrade grant_all : Bool)
    → all_safe filename ≡ true
    → IsRemoval
        (device_path filename)
        (last_command (run_install shell push (some filename) replace downgrade grant_all).1)
unfolding run_install
run_install-IsRemoval shell push filename replace downgrade grant_all safe = rw safe (
    after_sent-IsRemoval shell (device_path filename)
      (build_install_flags replace downgrade grant_all) (push (device_path filename)))
