-- ===== src/Runs/Tables.antt =====
-- A small GPT through protocols/edl_gpt.rs.
use rusty_cortex.Base.{ℕ, ◌*◌, [], ◌++◌, ◌≡◌, refl, arith, replicate, codes, All, equal}
use rusty_cortex.Base.Words.{Bytes, IsByte, to_le_bytes, from_le_bytes}
use rusty_cortex.Failure.{ok, panic}
use rusty_cortex.Gpt.{parse_gpt, parse_gpt_header, all_zero}
use rusty_cortex.Gpt.Entry.{DiskEntry, IsValidEntry, IsSound, encode_entry}
use rusty_cortex.Gpt.Table.{table, parse_gpt-table, parse_gpt-IsSound, parse_gpt-panic}

abbrev boot_entry : DiskEntry
boot_entry = record {
  type_guid = replicate 16 1;
  unique_guid = replicate 16 2;
  first_lba = 6;
  last_lba = 9;
  attributes = 0;
  units = codes "boot_a";
}

boot_entry-IsValidEntry : IsValidEntry boot_entry
unfolding all_zero
boot_entry-IsValidEntry = record {
  type_length = refl;
  type_used = refl;
  unique_length = refl;
  in_order = omega arith;
  last_fits = omega arith;
  attributes_fit = omega arith;
  units_valid = omega arith;
  units_fit = omega arith;
}

boot_entry-IsByte : All IsByte (encode_entry boot_entry)
unfolding to_le_bytes
boot_entry-IsByte = omega arith

-- A sector, then the header with one entry of 128 bytes at `lba`, in sectors of 128 bytes.
abbrev gpt_at : ℕ → Bytes
gpt_at lba =
    replicate 128 0
    ++ (codes "EFI PART"
        ++ (replicate 64 0
            ++ (to_le_bytes 8 lba ++ (to_le_bytes 4 1 ++ (to_le_bytes 4 128 ++ replicate 40 0)))))

abbrev one_partition : Bytes
one_partition = gpt_at 2 ++ encode_entry boot_entry

parse_gpt-table_example :
    parse_gpt one_partition 128 0 ≡ ok (table one_partition 128 0 128 (2 * 128) 1)
unfolding parse_gpt_header from_le_bytes to_le_bytes equal
parse_gpt-table_example =
    parse_gpt-table one_partition 128 0 1 128 2 (omega arith) refl (omega arith) (omega arith)

one_partition-IsByte : All IsByte one_partition
unfolding to_le_bytes
one_partition-IsByte = omega arith

one_partition_parsed :
    parse_gpt one_partition 128 0 ≡ ok (table one_partition 128 0 128 (2 * 128) 1)
unfolding parse_gpt_header from_le_bytes to_le_bytes equal
one_partition_parsed =
    parse_gpt-table one_partition 128 0 1 128 2 (omega arith) refl (omega arith) (omega arith)

parse_gpt-IsSound_example : All (IsSound 128 0) (table one_partition 128 0 128 (2 * 128) 1)
parse_gpt-IsSound_example =
    parse_gpt-IsSound one_partition 128 0 one_partition-IsByte one_partition_parsed

-- The table's address times 128 is 2 ^ 64 - 128.
abbrev hostile : Bytes
hostile = gpt_at 144115188075855871 ++ []

parse_gpt-panic_example : parse_gpt hostile 128 0 ≡ panic
unfolding parse_gpt_header from_le_bytes to_le_bytes equal
parse_gpt-panic_example =
    parse_gpt-panic hostile 128 0 0 128 144115188075855871 (omega arith) refl (omega arith)
      (omega arith) (omega arith)
