-- ===== src/Adb/Dump/Write/Guarded.antt =====
-- What `run_write_partition` has checked before it writes, and what it leaves on the device.
use rusty_cortex.Base.{
  ℕ, zero, suc, ◌<◌, ◌≤◌, Bool, true, false, List, [], ◌∷◌, ◌++◌, Option, none, some, ◌≡◌, refl,
  leb, length, arith, codes, leb→le, Bool-cases, inl, inr, ap, sym, ◌∙◌, append_assoc,
}
use rusty_cortex.Failure.{Result, ok, err, panic, ◌>>◌, >>=-eq-ok}
use rusty_cortex.Adb.Device.{Text, RootType, wrap_for_root, validate_shell_path}
use rusty_cortex.Adb.Dump.{validate_partition_name, write_temp_path_in, build_dd_command}
use rusty_cortex.Adb.Dump.Write.{
  Command, ran, pushed, Reply, done, failed, Answers, size_cmd, reported, rm_cmd, removed,
  says_failed, partition_path, judged, after_dd, after_push, write_v1, within, sized, named,
  run_write_partition, cleanup_write_temps,
}

abbrev pub IsFitting : ℕ → Option ℕ → Type 0
IsFitting size none = Unit
IsFitting size (some partition_size) = size ≤ partition_size

-- The names are valid, and the image has bytes and fits the size that the device reports.
pub record IsChecked (d : Answers) (partition temp_dir : Text) (root_type : RootType) : Type 0 where
  pub name_valid : validate_partition_name partition ≡ ok tt
  pub dir_valid : validate_shell_path temp_dir ≡ ok tt
  pub size : ℕ
  pub has_size : d.file_size ≡ done size
  pub nonempty : 0 < size
  pub fitting : IsFitting size (reported (d.shell (size_cmd partition root_type)))

within-IsFitting :
    (d : Answers) (partition temp_dir : Text) (root_type : RootType) (size : ℕ) (r : Option ℕ)
    → 0 < length (within d partition temp_dir root_type size r).1
    → IsFitting size r
within-IsFitting d partition temp_dir root_type size none writes = tt
within-IsFitting d partition temp_dir root_type size (some partition_size) writes =
    elim (Bool-cases (leb size partition_size)) [
      | inl small ↦ leb→le size partition_size small
      | inr large ↦ absurd (omega (arith, rw large at writes))
    ]

abbrev SizedWell : Answers → Text → RootType → Reply ℕ → Type 0
SizedWell d partition root_type r =
    (size : ℕ) × (r ≡ done size)
    × (0 < size)
    × IsFitting size (reported (d.shell (size_cmd partition root_type)))

sized-SizedWell :
    (d : Answers) (partition temp_dir : Text) (root_type : RootType) (r : Reply ℕ)
    → 1 < length (sized d partition temp_dir root_type r).1
    → SizedWell d partition root_type r
sized-SizedWell d partition temp_dir root_type (failed why) writes = absurd (omega arith)
sized-SizedWell d partition temp_dir root_type (done zero) writes = absurd (omega arith)
sized-SizedWell d partition temp_dir root_type (done (suc n)) writes = (
  suc n,
  refl,
  omega arith,
  within-IsFitting d partition temp_dir root_type (suc n)
      (reported (d.shell (size_cmd partition root_type))) (omega arith),
)

named-SizedWell :
    (d : Answers) (partition temp_dir : Text) (root_type : RootType) (r : Result (Unit {0}))
    → 1 < length (named d partition temp_dir root_type r).1
    → (r ≡ ok tt) × SizedWell d partition root_type d.file_size
named-SizedWell d partition temp_dir root_type (ok tt) writes =
    (refl, sized-SizedWell d partition temp_dir root_type d.file_size writes)
named-SizedWell d partition temp_dir root_type (err why) writes = absurd (omega arith)
named-SizedWell d partition temp_dir root_type panic writes = absurd (omega arith)

-- If `run_write_partition` gives any command to the device behind the one that asks for the size of
-- the partition, then the names are valid, the image is not empty, and it is no larger than the
-- partition where the device has reported a size.
pub run_write_partition-IsChecked :
    (d : Answers) (partition temp_dir : Text) (root_type : RootType)
    → 1 < length (run_write_partition d partition temp_dir root_type).1
    → IsChecked d partition temp_dir root_type
unfolding run_write_partition
run_write_partition-IsChecked d partition temp_dir root_type writes =
    let (valid, (n, size, some_bytes, fits)) =
      named-SizedWell d partition temp_dir root_type
        (validate_partition_name partition >> validate_shell_path temp_dir) writes in
    let (tt, name, dir) =
      >>=-eq-ok (validate_partition_name partition) (λ u. validate_shell_path temp_dir) valid in
    record {
      name_valid = name;
      dir_valid = dir;
      size = n;
      has_size = size;
      nonempty = some_bytes;
      fitting = fits;
    }

-- The last command of a log.
abbrev pub EndsIn : List Command → Command → Type 0
EndsIn log c = (before : List Command) × (log ≡ before ++ (c ∷ []))

after-EndsIn :
    (before : List Command) (log : List Command) (c : Command)
    → EndsIn log c
    → EndsIn (before ++ log) c
after-EndsIn before log c (first, e) =
    (before ++ first, ap (λ l. before ++ l) e ∙ sym (append_assoc before first (c ∷ [])))

removed-EndsIn : (rm : Text) (r : Reply (Text × Text)) → EndsIn (removed rm r) (ran rm)
removed-EndsIn rm (done answer) = ([], refl)
removed-EndsIn rm (failed why) = (ran rm ∷ [], refl)

judged-EndsIn :
    (d : Answers) (temp : Text) (root_type : RootType) (combined : Text) (b : Bool)
    → EndsIn (judged d temp root_type combined b).1 (ran (rm_cmd temp root_type))
judged-EndsIn d temp root_type combined true = ([], refl)
judged-EndsIn d temp root_type combined false =
    after-EndsIn (ran (wrap_for_root (codes "sync") root_type) ∷ [])
      (removed (rm_cmd temp root_type) (d.shell (rm_cmd temp root_type)))
      (ran (rm_cmd temp root_type))
      (removed-EndsIn (rm_cmd temp root_type) (d.shell (rm_cmd temp root_type)))

after_dd-EndsIn :
    (d : Answers) (temp : Text) (root_type : RootType) (r : Reply (Text × Text))
    → EndsIn (after_dd d temp root_type r).1 (ran (rm_cmd temp root_type))
after_dd-EndsIn d temp root_type (failed why) = ([], refl)
after_dd-EndsIn d temp root_type (done (out, errors)) =
    let combined = out ++ (codes " " ++ errors) in
    judged-EndsIn d temp root_type combined (says_failed (d.to_lowercase combined))

after_push-EndsIn :
    (d : Answers) (partition temp : Text) (root_type : RootType) (r : Reply (Unit {0}))
    → EndsIn (after_push d partition temp root_type r).1 (ran (rm_cmd temp root_type))
after_push-EndsIn d partition temp root_type (failed why) = ([], refl)
after_push-EndsIn d partition temp root_type (done sent) =
    let dd = wrap_for_root (build_dd_command temp (partition_path partition) none none) root_type in
    after-EndsIn (ran dd ∷ []) (after_dd d temp root_type (d.shell dd)).1
      (ran (rm_cmd temp root_type)) (after_dd-EndsIn d temp root_type (d.shell dd))

-- Without version 2, whatever the device answers, the last command is the removal of the temporary
-- file.
pub write_v1-EndsIn :
    (d : Answers) (partition temp_dir : Text) (root_type : RootType)
    → EndsIn
        (write_v1 d partition temp_dir root_type).1
        (ran (rm_cmd (write_temp_path_in temp_dir partition) root_type))
unfolding write_v1
write_v1-EndsIn d partition temp_dir root_type =
    let temp = write_temp_path_in temp_dir partition in
    after-EndsIn (cleanup_write_temps d temp_dir root_type ++ (pushed temp ∷ []))
      (after_push d partition temp root_type (d.push temp)).1 (ran (rm_cmd temp root_type))
      (after_push-EndsIn d partition temp root_type (d.push temp))
