-- ===== src/Gpt/Entry.antt =====
-- One GPT entry: round trip with its encoding, and bounds on whatever is parsed.
use rusty_cortex.Base.{
  ℕ, zero, suc, ◌+◌, ◌-◌, ◌*◌, ◌/◌, ◌%◌, ◌^◌, ◌≤◌, ◌<◌, false, List, [], ◌∷◌, ◌++◌, ◌≡◌, refl, ap,
  subst, ◌∙◌, some, length, slice, arith, le→ltb, All, replicate, length-append, length-replicate,
  slice-first, slice-skip, take-all, length-slice-le,
}
use rusty_cortex.Base.Words.{
  Bytes, IsByte, IsU16, IsU64, to_le_bytes, from_le_bytes, length-to_le_bytes, from-to_u64, u64_at,
  u64_at-IsU64, wrapping_add, wrapping_sub,
}
use rusty_cortex.Gpt.{
  EdlPartitionEntry, gpt_entry, parse_gpt_entry, all_zero, u16_units, until_zero, from_utf16_lossy,
  format_guid, partition_category,
}

-- The fields of an entry on disk; `units` is the name in UTF-16.
pub record DiskEntry : Type 0 where
  pub type_guid : Bytes
  pub unique_guid : Bytes
  pub first_lba : ℕ
  pub last_lba : ℕ
  pub attributes : ℕ
  pub units : List ℕ

abbrev pub IsUnit16 : ℕ → Type 0
IsUnit16 u = (0 < u) × IsU16 u

pub record IsValidEntry (e : DiskEntry) : Type 0 where
  pub type_length : length e.type_guid ≡ 16
  pub type_used : all_zero e.type_guid ≡ false
  pub unique_length : length e.unique_guid ≡ 16
  pub in_order : e.first_lba ≤ e.last_lba
  pub last_fits : IsU64 (e.last_lba + 1)
  pub attributes_fit : IsU64 e.attributes
  pub units_valid : All IsUnit16 e.units
  pub units_fit : length e.units ≤ 36

abbrev pub unit_bytes : List ℕ → Bytes
unit_bytes [] = []
unit_bytes (u ∷ us) = to_le_bytes 2 u ++ unit_bytes us

abbrev pub encode_entry : DiskEntry → Bytes
encode_entry e =
    e.type_guid
    ++ (e.unique_guid
        ++ (to_le_bytes 8 e.first_lba
            ++ (to_le_bytes 8 e.last_lba
                ++ (to_le_bytes 8 e.attributes
                    ++ (unit_bytes e.units ++ replicate (72 - length (unit_bytes e.units)) 0)))))

-- What the program shows for it.
abbrev pub shown : DiskEntry → ℕ → ℕ → EdlPartitionEntry
shown e sector_size lun =
    let name = from_utf16_lossy e.units in
    record {
      name = name;
      start_sector = e.first_lba;
      num_sectors = e.last_lba - e.first_lba + 1;
      size_bytes = (e.last_lba - e.first_lba + 1) * sector_size % 2 ^ 64;
      lun = lun;
      type_guid = format_guid e.type_guid;
      unique_guid = format_guid e.unique_guid;
      attributes = e.attributes;
      category = partition_category name;
    }

length-unit_bytes : (us : List ℕ) → length (unit_bytes us) ≡ 2 * length us
unfolding to_le_bytes
length-unit_bytes [] = omega arith
length-unit_bytes (u ∷ us) = omega (arith, length-unit_bytes us)

until_zero-padding : (k : ℕ) → until_zero (u16_units (replicate k 0)) ≡ []
unfolding until_zero u16_units from_le_bytes
until_zero-padding zero = refl
until_zero-padding (suc zero) = refl
until_zero-padding (suc (suc k)) = refl

unit_value : (u : ℕ) → IsU16 u → from_le_bytes (u % 256 ∷ u / 256 % 256 ∷ []) ≡ u
unfolding from_le_bytes
unit_value u h = omega arith

until_zero-units :
    (us : List ℕ) (k : ℕ)
    → All IsUnit16 us
    → until_zero (u16_units (unit_bytes us ++ replicate k 0)) ≡ us
unfolding until_zero u16_units to_le_bytes
until_zero-units [] k h = until_zero-padding k
until_zero-units (u ∷ us) k ((pos, fits), h) =
    rw (unit_value u fits) (ground (arith, until_zero-units us k h))

-- The fields of an encoded entry are where the parser looks for them.
module _ (e : DiskEntry) (v : IsValidEntry e) where
  names : Bytes
  names = unit_bytes e.units ++ replicate (72 - length (unit_bytes e.units)) 0

  length-names : length names ≡ 72
  unfolding names
  length-names = omega (
    arith,
    length-append (unit_bytes e.units) (replicate (72 - length (unit_bytes e.units)) 0),
    length-replicate {A = ℕ} (72 - length (unit_bytes e.units)) 0,
    length-unit_bytes e.units,
    v.units_fit,
  )

  words : Bytes
  words =
      to_le_bytes 8 e.first_lba
      ++ (to_le_bytes 8 e.last_lba ++ (to_le_bytes 8 e.attributes ++ names))

  length-words : length words ≡ 96
  unfolding words
  length-words = omega (
    arith,
    length-append (to_le_bytes 8 e.first_lba)
        (to_le_bytes 8 e.last_lba ++ (to_le_bytes 8 e.attributes ++ names)),
    length-append (to_le_bytes 8 e.last_lba) (to_le_bytes 8 e.attributes ++ names),
    length-append (to_le_bytes 8 e.attributes) names,
    length-to_le_bytes 8 e.first_lba,
    length-to_le_bytes 8 e.last_lba,
    length-to_le_bytes 8 e.attributes,
    length-names,
  )

  slice-words :
      (k n : ℕ)
      → slice (e.type_guid ++ (e.unique_guid ++ words)) (16 + (16 + k)) n ≡ slice words k n
  slice-words k n =
      slice-skip 16 (16 + k) n e.type_guid (e.unique_guid ++ words) v.type_length
      ∙ slice-skip 16 k n e.unique_guid words v.unique_length

  entry_type : slice (encode_entry e) 0 16 ≡ e.type_guid
  entry_type = slice-first 16 e.type_guid _ v.type_length

  entry_unique : slice (encode_entry e) 16 16 ≡ e.unique_guid
  unfolding words names
  entry_unique =
      slice-skip 16 0 16 e.type_guid (e.unique_guid ++ words) v.type_length
      ∙ slice-first 16 e.unique_guid words v.unique_length

  entry_first : u64_at (encode_entry e) 32 ≡ e.first_lba
  unfolding words names
  entry_first =
      ap from_le_bytes (
        slice-words 0 8
        ∙ slice-first 8 (to_le_bytes 8 e.first_lba) _ (length-to_le_bytes 8 e.first_lba))
      ∙ from-to_u64 e.first_lba (omega (arith, v.in_order, v.last_fits))

  entry_last : u64_at (encode_entry e) 40 ≡ e.last_lba
  unfolding words names
  entry_last =
      ap from_le_bytes (
        slice-words 8 8
        ∙ slice-skip 8 0 8 (to_le_bytes 8 e.first_lba) _ (length-to_le_bytes 8 e.first_lba)
        ∙ slice-first 8 (to_le_bytes 8 e.last_lba) _ (length-to_le_bytes 8 e.last_lba))
      ∙ from-to_u64 e.last_lba (omega (arith, v.last_fits))

  entry_attributes : u64_at (encode_entry e) 48 ≡ e.attributes
  unfolding words names
  entry_attributes =
      ap from_le_bytes (
        slice-words 16 8
        ∙ slice-skip 8 8 8 (to_le_bytes 8 e.first_lba) _ (length-to_le_bytes 8 e.first_lba)
        ∙ slice-skip 8 0 8 (to_le_bytes 8 e.last_lba) _ (length-to_le_bytes 8 e.last_lba)
        ∙ slice-first 8 (to_le_bytes 8 e.attributes) _ (length-to_le_bytes 8 e.attributes))
      ∙ from-to_u64 e.attributes v.attributes_fit

  entry_names : slice (encode_entry e) 56 72 ≡ names
  unfolding words names
  entry_names =
      slice-words 24 72
      ∙ slice-skip 8 16 72 (to_le_bytes 8 e.first_lba) _ (length-to_le_bytes 8 e.first_lba)
      ∙ slice-skip 8 8 72 (to_le_bytes 8 e.last_lba) _ (length-to_le_bytes 8 e.last_lba)
      ∙ slice-skip 8 0 72 (to_le_bytes 8 e.attributes) _ (length-to_le_bytes 8 e.attributes)
      ∙ take-all 72 names (omega (arith, length-names))

  names_units : until_zero (u16_units names) ≡ e.units
  unfolding names
  names_units = until_zero-units e.units (72 - length (unit_bytes e.units)) v.units_valid

  length-encode_entry : length (encode_entry e) ≡ 128
  unfolding words names
  length-encode_entry = omega (
    arith,
    length-append e.type_guid (e.unique_guid ++ words),
    length-append e.unique_guid words,
    length-words,
    v.type_length,
    v.unique_length,
  )

sector_count :
    (last first : ℕ)
    → first ≤ last
    → IsU64 (last + 1)
    → wrapping_add (wrapping_sub last first) 1 ≡ last - first + 1
sector_count last first h fits = omega arith

-- The encoding of a valid entry is read back: the name up to its first NUL, both GUIDs, the sectors
-- from the first to the last, and the size in bytes modulo 2 ^ 64.
pub parse_gpt_entry-encode :
    (e : DiskEntry) (sector_size lun : ℕ)
    → IsValidEntry e
    → parse_gpt_entry (encode_entry e) sector_size lun ≡ some (shown e sector_size lun)
unfolding parse_gpt_entry gpt_entry
parse_gpt_entry-encode e sector_size lun v = rw (length-encode_entry e v) (
    rw (entry_type e v) (
      rw (entry_unique e v) (
        rw (entry_first e v) (
          rw (entry_last e v) (
            rw (entry_attributes e v) (
              rw (entry_names e v) (
                rw v.type_used (
                  rw (le→ltb e.last_lba e.first_lba v.in_order) (
                    rw (names_units e v)
                      (rw (sector_count e.last_lba e.first_lba v.in_order v.last_fits)))))))))))

length-until_zero : (us : List ℕ) → length (until_zero us) ≤ length us
unfolding until_zero
length-until_zero [] = omega arith
length-until_zero (u ∷ us) = ground (arith, length-until_zero us)

length-u16_units : (bs : Bytes) → 2 * length (u16_units bs) ≤ length bs
unfolding u16_units
length-u16_units [] = omega arith
length-u16_units (a ∷ []) = omega arith
length-u16_units (a ∷ b ∷ bs) = omega (arith, length-u16_units bs)

length-from_utf16_lossy : (us : List ℕ) → length (from_utf16_lossy us) ≤ length us
unfolding from_utf16_lossy
length-from_utf16_lossy [] = omega arith
length-from_utf16_lossy (u ∷ []) = omega arith
length-from_utf16_lossy (u ∷ v ∷ us) =
    ground (arith, length-from_utf16_lossy us, length-from_utf16_lossy (v ∷ us))

-- What every partition that the parser returns satisfies: it lies inside the 64-bit sector range,
-- its size is its sectors times the sector size modulo 2 ^ 64, its name has at most 36 characters.
pub record IsSound (sector_size lun : ℕ) (p : EdlPartitionEntry) : Type 0 where
  pub lun_is : p.lun ≡ lun
  pub name_bound : length p.name ≤ 36
  pub range : p.start_sector + p.num_sectors ≤ 2 ^ 64
  pub size_is : p.size_bytes ≡ p.num_sectors * sector_size % 2 ^ 64
  pub category_is : p.category ≡ partition_category p.name

name_bound :
    (entry : Bytes) → length (from_utf16_lossy (until_zero (u16_units (slice entry 56 72)))) ≤ 36
name_bound entry = omega (
  arith,
  length-from_utf16_lossy (until_zero (u16_units (slice entry 56 72))),
  length-until_zero (u16_units (slice entry 56 72)),
  length-u16_units (slice entry 56 72),
  length-slice-le entry 56 72,
)

range_bound :
    (last first : ℕ)
    → IsU64 last
    → first ≤ last
    → first + wrapping_add (wrapping_sub last first) 1 ≤ 2 ^ 64
range_bound last first h k = omega arith

gpt_entry-IsSound :
    (entry : Bytes) (sector_size lun : ℕ)
    → All IsByte entry
    → u64_at entry 32 ≤ u64_at entry 40
    → IsSound sector_size lun (gpt_entry entry sector_size lun)
unfolding gpt_entry
gpt_entry-IsSound entry sector_size lun h k = record {
  lun_is = refl;
  name_bound = name_bound entry;
  range = range_bound (u64_at entry 40) (u64_at entry 32) (u64_at-IsU64 entry 40 h) k;
  size_is = refl;
  category_is = refl;
}

parse_gpt_entry-eq-some :
    (entry : Bytes) (sector_size lun : ℕ) {p : EdlPartitionEntry}
    → parse_gpt_entry entry sector_size lun ≡ some p
    → (u64_at entry 32 ≤ u64_at entry 40) × (gpt_entry entry sector_size lun ≡ p)
unfolding parse_gpt_entry
parse_gpt_entry-eq-some entry sector_size lun e = ground arith

-- Whatever bytes are given: an entry that `parse_gpt_entry` returns lies inside the 64-bit sector range
-- and has at most 36 characters of name, the category of its name and the size of its sectors.
pub parse_gpt_entry-IsSound :
    (entry : Bytes) (sector_size lun : ℕ) {p : EdlPartitionEntry}
    → All IsByte entry
    → parse_gpt_entry entry sector_size lun ≡ some p
    → IsSound sector_size lun p
parse_gpt_entry-IsSound entry sector_size lun h e =
    let (k, q) = parse_gpt_entry-eq-some entry sector_size lun e in
    subst (IsSound sector_size lun) q (gpt_entry-IsSound entry sector_size lun h k)
