-- ===== src/Flash/Checks.antt =====
-- No partition is written unless all checks have passed.
use rusty_cortex.Base.{
  append_assoc, ℕ, ◌≤◌, ◌<◌, Bool, true, false, ◌||◌, List, [], ◌∷◌, ◌++◌, map, ◌≡◌, ◌≢◌, ◌↔◌, refl,
  sym, ap, ◌∙◌, arith, one_of, All, Bool-cases, inl, inr,
}
use rusty_cortex.Failure.{Result, ok, err, panic, ◌>>◌, >>=-eq-ok}
use rusty_cortex.Flash.{
  check_size, finished, max_firmware_size, allowed_extensions, Firmware, extension_or_empty,
  validate_firmware, is_name_char, all_name_chars, validate_partition, is_critical_partition,
  FlashStage, sending, Action, emit, detect, flash, Tools, on_device, warning, checked, run_flash,
}

all_name_chars_iff :
    (is_alphanumeric : ℕ → Bool) (cs : List ℕ)
    → (all_name_chars is_alphanumeric cs ≡ true)
      ↔ All (λ c. is_name_char is_alphanumeric c ≡ true) cs
unfolding all_name_chars
all_name_chars_iff is_alphanumeric [] = ground arith
all_name_chars_iff is_alphanumeric (c ∷ cs) = ground (arith, all_name_chars_iff is_alphanumeric cs)

-- The partition names that are accepted: those of at least one character all of whose characters are
-- alphanumeric, an underscore or a hyphen.
pub validate_partition_iff :
    (is_alphanumeric : ℕ → Bool) (partition : List ℕ)
    → (validate_partition is_alphanumeric partition ≡ ok tt)
      ↔ ((partition ≢ []) × All (λ c. is_name_char is_alphanumeric c ≡ true) partition)
unfolding validate_partition
validate_partition_iff is_alphanumeric [] = ground arith
validate_partition_iff is_alphanumeric (c ∷ cs) =
    ground (arith, all_name_chars_iff is_alphanumeric (c ∷ cs))

check_size_ok : (n : ℕ) → check_size n ≡ ok tt → (0 < n) × (n ≤ max_firmware_size)
check_size_ok n e = ground arith

-- What holds of a firmware file that is accepted: it is a file that exists, its extension in lower
-- case is an allowed one, and its size is between 1 byte and 8 GiB.
pub validate_firmware_ok :
    (to_lowercase : List ℕ → List ℕ) (f : Firmware)
    → validate_firmware to_lowercase f ≡ ok tt
    → (f.exists ≡ true)
      × (f.is_file ≡ true)
      × (one_of (to_lowercase (extension_or_empty f.extension)) allowed_extensions ≡ true)
      × ((n : ℕ) × (f.size ≡ ok n) × (0 < n) × (n ≤ max_firmware_size))
unfolding validate_firmware
validate_firmware_ok to_lowercase f e = elim (Bool-cases f.exists) [
  | inr missing ↦ absurd (cc (rw missing at e))
  | inl exists ↦ elim (Bool-cases f.is_file) [
    | inr folder ↦ absurd (cc (rw folder at (rw exists at e)))
    | inl file ↦
        elim (Bool-cases
          (one_of (to_lowercase (extension_or_empty f.extension)) allowed_extensions)) [
            | inr other ↦ absurd (cc (rw other at (rw file at (rw exists at e))))
            | inl allowed ↦
                let (n, size, fits) =
                  >>=-eq-ok f.size check_size (rw allowed at (rw file at (rw exists at e))) in
                let (some_bytes, bounded) = check_size_ok n fits in
                (exists, file, allowed, (n, size, some_bytes, bounded))
          ]
  ]
]

abbrev pub writes : List Action → Bool
writes [] = false
writes (flash p ∷ rest) = true
writes (_ ∷ rest) = writes rest

writes-append : (a b : List Action) → writes (a ++ b) ≡ (writes a || writes b)
writes-append [] b = refl
writes-append (emit s m ∷ a) b = writes-append a b
writes-append (detect ∷ a) b = writes-append a b
writes-append (flash p ∷ a) b = refl

writes-warning : (partition : List ℕ) → writes (warning partition) ≡ false
writes-warning partition = elim (Bool-cases (is_critical_partition partition)) [
  | inl critical ↦ rw critical refl
  | inr other ↦ rw other refl
]

checked-writes :
    (t : Tools) (partition : List ℕ) (r : Result (Unit {0}))
    → writes (checked t partition r).1 ≡ true
    → (r ≡ ok tt) × (t.detected ≡ ok true)
checked-writes t partition (err e) h = absurd cc
checked-writes t partition panic h = absurd cc
checked-writes t partition (ok u) h = (refl, device t.detected (sym (skip t.detected) ∙ h))
  where
    skip :
        (d : Result Bool)
        → writes ((warning partition ++ (detect ∷ [])) ++ (on_device t partition d).1)
          ≡ writes (on_device t partition d).1
    skip d =
        writes-append (warning partition ++ (detect ∷ [])) (on_device t partition d).1
        ∙ rw (writes-append (warning partition) (detect ∷ [])) (rw (writes-warning partition))

    device : (d : Result Bool) → writes (on_device t partition d).1 ≡ true → d ≡ ok true
    device (ok true) e = refl
    device (ok false) e = absurd cc
    device (err x) e = absurd cc
    device panic e = absurd cc

-- If a run writes a partition at all, the firmware file and the partition name are valid and a device
-- was found.
pub run_flash-writes :
    (t : Tools) (firmware : Firmware) (partition : List ℕ)
    → writes (run_flash t firmware partition).1 ≡ true
    → (validate_firmware t.to_lowercase firmware ≡ ok tt)
      × (validate_partition t.is_alphanumeric partition ≡ ok tt)
      × (t.detected ≡ ok true)
unfolding run_flash
run_flash-writes t firmware partition h =
    let (valid, device) =
      checked-writes t partition
        (validate_firmware t.to_lowercase firmware
          >> validate_partition t.is_alphanumeric partition)
        h in
    let (u, file, name) =
      >>=-eq-ok (validate_firmware t.to_lowercase firmware)
        (λ u. validate_partition t.is_alphanumeric partition) valid in
    (file, name, device)

finished_result : (r : Result (Unit {0})) → (finished r).0 ≡ r
finished_result (ok u) = refl
finished_result (err e) = refl
finished_result panic = refl

-- With valid input and a device, the run writes, and ends as the fastboot program does; for a critical
-- partition the warning comes before the search for the device.
pub run_flash-valid :
    (t : Tools) (firmware : Firmware) (partition : List ℕ)
    → validate_firmware t.to_lowercase firmware ≡ ok tt
    → validate_partition t.is_alphanumeric partition ≡ ok tt
    → t.detected ≡ ok true
    → ((run_flash t firmware partition).0 ≡ t.flashed)
      × ((rest : List Action) × ((run_flash t firmware partition).1
            ≡ emit FlashStage.validating "Validating firmware file..."
              ∷ (warning partition
                  ++ (detect ∷ emit sending "Flashing {} to '{}'..." ∷ flash partition ∷ rest))))
unfolding run_flash
run_flash-valid t firmware partition file name device = rw file (
    rw name (
      rw device (
        finished_result t.flashed,
        (
          map (λ p. emit sending "Sending... {:.0}%") t.percents ++ (finished t.flashed).1,
          ap (◌∷◌ (emit FlashStage.validating "Validating firmware file..."))
              (append_assoc (warning partition) (detect ∷ []) _),
        ),
      )))
