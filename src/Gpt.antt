-- ===== src/Gpt.antt =====
-- protocols/edl_gpt.rs: the GPT parser. Text is its code points. `usize` has 64 bits, and sums and
-- products wrap, as in a release build.
mod Guid
mod Category
unfoldable pub use Guid.*
unfoldable pub use Category.*
pub mod Entry
pub mod Table
pub mod Slots
use rusty_cortex.Base.{
  ℕ, zero, suc, ◌+◌, ◌-◌, ◌*◌, ◌<◌, Bool, true, false, not, ◌&&◌, List, [], ◌∷◌, ◌++◌, Option, none,
  some, leb, ltb, ◌==◌, if◌then◌else◌, length, take, drop, slice, String, codes, equal,
}
use rusty_cortex.Base.Words.{
  Bytes, from_le_bytes, u32_at, u64_at, wrapping_add, wrapping_mul, wrapping_sub,
}
use rusty_cortex.Failure.{FlashError, Result, ok, err, panic, protocol, number, Arg, ◌>>=◌}

-- types.rs: `EdlPartitionEntry`.
pub record EdlPartitionEntry : Type 0 where
  pub name : List ℕ
  pub start_sector : ℕ
  pub num_sectors : ℕ
  pub size_bytes : ℕ
  pub lun : ℕ
  pub type_guid : List ℕ
  pub unique_guid : List ℕ
  pub attributes : ℕ
  pub category : String

-- `Ok((num_entries, entry_size, entry_lba))`
unfoldable pub parse_gpt_header : Bytes → Result (ℕ × ℕ × ℕ)
parse_gpt_header header =
    let entry_size = u32_at header 84 in
    if ltb (length header) 92
    then err (protocol "GPT header too short" [])
    else if not (equal (slice header 0 8) (codes "EFI PART"))
    then err (protocol "Invalid GPT signature" [])
    else if ltb entry_size 128
    then err (protocol "Invalid GPT entry size: {entry_size}" (number entry_size ∷ []))
    else ok (u32_at header 80, entry_size, u64_at header 72)

-- `bytes.iter().all(|&b| b == 0)`
unfoldable pub all_zero : Bytes → Bool
all_zero [] = true
all_zero (b ∷ bs) = b == 0 && all_zero bs

-- `chunks_exact(2)`, each read as a `u16`.
unfoldable pub u16_units : Bytes → List ℕ
u16_units [] = []
u16_units (a ∷ []) = []
u16_units (a ∷ b ∷ bs) = from_le_bytes (a ∷ b ∷ []) ∷ u16_units bs

-- `take_while(|&c| c != 0)`
unfoldable pub until_zero : List ℕ → List ℕ
until_zero [] = []
until_zero (c ∷ cs) = if c == 0 then [] else c ∷ until_zero cs

abbrev is_high_surrogate : ℕ → Bool
is_high_surrogate u = leb 0xD800 u && ltb u 0xDC00

abbrev is_low_surrogate : ℕ → Bool
is_low_surrogate u = leb 0xDC00 u && ltb u 0xE000

-- `String::from_utf16_lossy`: a surrogate without its partner becomes U+FFFD.
unfoldable pub from_utf16_lossy : List ℕ → List ℕ
from_utf16_lossy [] = []
from_utf16_lossy (u ∷ []) =
    (if is_high_surrogate u then 0xFFFD else if is_low_surrogate u then 0xFFFD else u) ∷ []
from_utf16_lossy (u ∷ v ∷ us) =
    let pair = from_utf16_lossy us in
    let single = from_utf16_lossy (v ∷ us) in
    if is_high_surrogate u && is_low_surrogate v
    then (0x10000 + (u - 0xD800) * 0x400 + (v - 0xDC00)) ∷ pair
    else (if is_high_surrogate u then 0xFFFD else if is_low_surrogate u then 0xFFFD else u) ∷ single

-- The record that `parse_gpt_entry` builds.
unfoldable pub gpt_entry : Bytes → ℕ → ℕ → EdlPartitionEntry
gpt_entry entry sector_size lun =
    let first_lba = u64_at entry 32 in
    let last_lba = u64_at entry 40 in
    let num_sectors = wrapping_add (wrapping_sub last_lba first_lba) 1 in
    let name = from_utf16_lossy (until_zero (u16_units (slice entry 56 72))) in
    record {
      name = name;
      start_sector = first_lba;
      num_sectors = num_sectors;
      size_bytes = wrapping_mul num_sectors sector_size;
      lun = lun;
      type_guid = format_guid (slice entry 0 16);
      unique_guid = format_guid (slice entry 16 16);
      attributes = u64_at entry 48;
      category = partition_category name;
    }

unfoldable pub parse_gpt_entry : Bytes → ℕ → ℕ → Option EdlPartitionEntry
parse_gpt_entry entry sector_size lun =
    if ltb (length entry) 128
    then none
    else if all_zero (slice entry 0 16)
    then none
    else if ltb (u64_at entry 40) (u64_at entry 32)
    then none
    else some (gpt_entry entry sector_size lun)

-- `if let Some(part) = … { partitions.push(part) }`
abbrev pub push_some {ℓ} : {A : Type ℓ} → List A → Option A → List A
push_some xs none = xs
push_some xs (some x) = xs ++ (x ∷ [])

-- `&raw_data[start..end]`: a range that is reversed or ends too far aborts.
abbrev pub checked_slice : Bytes → ℕ → ℕ → Result Bytes
checked_slice bs start end =
    if leb start end && leb end (length bs) then ok (slice bs start (end - start)) else panic

-- The loop over `i in 0..num_entries`, with `left` rounds to go and `partitions` so far.
unfoldable pub read_entries :
    Bytes → ℕ → ℕ → ℕ → ℕ → ℕ → ℕ → List EdlPartitionEntry → Result (List EdlPartitionEntry)
read_entries raw_data sector_size lun entries_offset entry_size zero i partitions = ok partitions
read_entries raw_data sector_size lun entries_offset entry_size (suc left) i partitions =
    let offset = wrapping_add entries_offset (wrapping_mul i entry_size) in
    let end = wrapping_add offset entry_size in
    let rest = (do
      entry_data ← checked_slice raw_data offset end
      read_entries raw_data sector_size lun entries_offset entry_size left (i + 1)
          (push_some partitions (parse_gpt_entry entry_data sector_size lun))) in
    if ltb (length raw_data) end then ok partitions else rest

unfoldable pub parse_gpt : Bytes → ℕ → ℕ → Result (List EdlPartitionEntry)
unfolding parse_gpt_header
parse_gpt raw_data sector_size lun =
    if ltb (length raw_data) (sector_size * 2) then err (protocol "GPT data too short" []) else do
      (num_entries, entry_size, entry_lba) ←
          parse_gpt_header (slice raw_data sector_size sector_size)
      read_entries raw_data sector_size lun (wrapping_mul entry_lba sector_size) entry_size
          num_entries 0 []
