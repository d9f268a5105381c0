-- ===== src/Flash.antt =====
-- flash/validation.rs and `run_flash` of flash/manager.rs: what is checked before a partition is written.
pub mod Checks
use rusty_cortex.Base.{
  ℕ, Bool, true, false, not, ◌&&◌, ◌||◌, List, [], ◌∷◌, ◌++◌, map, Option, none, some, ltb, leb,
  ◌==◌, if◌then◌else◌, length, String, codes, equal, one_of, ◌+◌,
}
use rusty_cortex.Base.Words.{Bytes}
use rusty_cortex.Failure.{
  FlashError, Result, ok, err, panic, validation, no_device, number, text, Arg, ◌>>◌, ◌>>=◌,
}

abbrev pub max_firmware_size : ℕ
max_firmware_size = 8589934592

abbrev pub allowed_extensions : List String
allowed_extensions = "img" ∷ "bin" ∷ "mbn" ∷ "elf" ∷ "raw" ∷ []

-- What the file system says of a path; `extension` is `path.extension()` where it is UTF-8, `size` the
-- outcome of `metadata`.
pub record Firmware : Type 0 where
  pub display : List ℕ
  pub exists : Bool
  pub is_file : Bool
  pub extension : Option (List ℕ)
  pub size : Result ℕ

abbrev pub extension_or_empty : Option (List ℕ) → List ℕ
extension_or_empty none = []
extension_or_empty (some e) = e

abbrev pub check_size : ℕ → Result (Unit {0})
check_size n =
    if n == 0
    then err (validation "Firmware file is empty" [])
    else if ltb max_firmware_size n
    then err (
        validation "Firmware file too large: {} bytes (max {} bytes)"
          (number n ∷ number max_firmware_size ∷ []))
    else ok tt

-- `to_lowercase` is the library's.
unfoldable pub validate_firmware : (List ℕ → List ℕ) → Firmware → Result (Unit {0})
validate_firmware to_lowercase f =
    let ext = to_lowercase (extension_or_empty f.extension) in
    let sized = (do n ← f.size; check_size n) in
    if not f.exists
    then err (validation "File not found: {}" (text f.display ∷ []))
    else if not f.is_file
    then err (validation "Not a file: {}" (text f.display ∷ []))
    else if not (one_of ext allowed_extensions)
    then err (
        validation "Unsupported file type '.{}'. Expected one of: {}"
          (text ext ∷ text (codes "img, bin, mbn, elf, raw") ∷ []))
    else sized

-- `c.is_alphanumeric()` is the library's.
abbrev pub is_name_char : (ℕ → Bool) → ℕ → Bool
is_name_char is_alphanumeric c = is_alphanumeric c || (c == b'_' || c == b'-')

unfoldable pub all_name_chars : (ℕ → Bool) → List ℕ → Bool
all_name_chars is_alphanumeric [] = true
all_name_chars is_alphanumeric (c ∷ cs) =
    is_name_char is_alphanumeric c && all_name_chars is_alphanumeric cs

abbrev is_empty : List ℕ → Bool
is_empty [] = true
is_empty (c ∷ cs) = false

unfoldable pub validate_partition : (ℕ → Bool) → List ℕ → Result (Unit {0})
validate_partition is_alphanumeric partition =
    if is_empty partition
    then err (validation "Partition name is empty" [])
    else if not (all_name_chars is_alphanumeric partition)
    then err (
        validation "Invalid partition name '{}': only alphanumeric, underscore, and hyphen allowed"
          (text partition ∷ []))
    else ok tt

abbrev ascii_lower : ℕ → ℕ
ascii_lower c = if leb 65 c && leb c 90 then c + 32 else c

-- `eq_ignore_ascii_case` with one of the names, which are lower case.
unfoldable pub is_critical_partition : List ℕ → Bool
is_critical_partition partition =
    one_of (map ascii_lower partition)
      ("bootloader" ∷ "modem" ∷ "aboot" ∷ "sbl1" ∷ "tz" ∷ "rpm" ∷ "hyp" ∷ "xbl" ∷ "aop" ∷ [])

pub data FlashStage : Type 0 where
  validating sending complete error : FlashStage

-- What a run does, in order: progress events with their format string, the search for a device, and
-- the write of a partition.
pub data Action : Type 0 where
  emit : FlashStage → String → Action
  detect : Action
  flash : List ℕ → Action

-- The library's tests, and the fastboot program: whether it finds a device, the percentages that it
-- reports while it writes, and how that ends.
pub record Tools : Type 0 where
  pub to_lowercase : List ℕ → List ℕ
  pub is_alphanumeric : ℕ → Bool
  pub detected : Result Bool
  pub percents : List ℕ
  pub flashed : Result (Unit {0})

abbrev pub finished : Result (Unit {0}) → Result (Unit {0}) × List Action
finished (ok u) = (ok u, emit complete "Flash complete!" ∷ [])
finished (err e) = (err e, emit error "Flash failed: {}" ∷ [])
finished panic = (panic, [])

abbrev pub does : List Action → Result (Unit {0}) × List Action → Result (Unit {0}) × List Action
does before (r, after) = (r, before ++ after)

abbrev pub write_partition : Tools → List ℕ → Result (Unit {0}) × List Action
write_partition t partition =
    does
      (emit sending "Flashing {} to '{}'..."
        ∷ flash partition
        ∷ map (λ p. emit sending "Sending... {:.0}%") t.percents)
      (finished t.flashed)

abbrev pub on_device : Tools → List ℕ → Result Bool → Result (Unit {0}) × List Action
on_device t partition (ok true) = write_partition t partition
on_device t partition (ok false) = (err no_device, [])
on_device t partition (err e) = (err e, [])
on_device t partition panic = (panic, [])

abbrev pub warning : List ℕ → List Action
warning partition =
    if is_critical_partition partition
    then emit validating "WARNING: '{}' is a critical partition. Flashing may brick the device."
      ∷ []
    else []

abbrev pub checked : Tools → List ℕ → Result (Unit {0}) → Result (Unit {0}) × List Action
checked t partition (ok _) =
    does (warning partition ++ (detect ∷ [])) (on_device t partition t.detected)
checked t partition (err e) = (err e, [])
checked t partition panic = (panic, [])

unfoldable pub run_flash : Tools → Firmware → List ℕ → Result (Unit {0}) × List Action
run_flash t firmware partition = does (emit validating "Validating firmware file..." ∷ []) (
    checked t partition
      (validate_firmware t.to_lowercase firmware >> validate_partition t.is_alphanumeric partition))
