-- ===== src/Runs/Flashing.antt =====
-- Flashing a small file to a partition.
use rusty_cortex.Base.{equal, ℕ, Bool, true, [], ◌∷◌, ◌≡◌, refl, some, codes, one_of, leb, ◌&&◌}
use rusty_cortex.Failure.{ok}
use rusty_cortex.Flash.{
  is_critical_partition, Firmware, Tools, run_flash, validate_firmware, validate_partition,
  all_name_chars,
}
use rusty_cortex.Flash.Checks.{writes, run_flash-writes}

abbrev boot_image : Firmware
boot_image = record {
  display = codes "/tmp/boot.img";
  exists = true;
  is_file = true;
  extension = some (codes "img");
  size = ok 4096;
}

abbrev is_letter : ℕ → Bool
is_letter c = leb 97 c && leb c 122

abbrev tools : Tools
tools = record {
  to_lowercase = λ s. s;
  is_alphanumeric = is_letter;
  detected = ok true;
  percents = 50 ∷ 100 ∷ [];
  flashed = ok tt;
}

boot_image_valid : validate_firmware (λ s. s) boot_image ≡ ok tt
unfolding validate_firmware one_of equal
boot_image_valid = refl

xbl_writes : writes (run_flash tools boot_image (codes "xbl")).1 ≡ true
unfolding run_flash validate_firmware validate_partition all_name_chars is_critical_partition one_of
    equal
xbl_writes = refl

run_flash-writes_example :
    (validate_firmware tools.to_lowercase boot_image ≡ ok tt)
    × (validate_partition tools.is_alphanumeric (codes "xbl") ≡ ok tt)
    × (tools.detected ≡ ok true)
run_flash-writes_example = run_flash-writes tools boot_image (codes "xbl") xbl_writes
