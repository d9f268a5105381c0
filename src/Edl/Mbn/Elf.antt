-- ===== src/Edl/Mbn/Elf.antt =====
-- `is_valid_programmer_magic`, `parse_elf_identity` and `parse_programmer_identity_from_bytes`.
pub mod Safety
use rusty_cortex.Base.{
  ℕ, zero, suc, ◌+◌, ◌-◌, ◌*◌, ◌/◌, ◌%◌, ◌^◌, [], ◌∷◌, Option, none, some, Bool, true, false, not,
  ◌&&◌, ◌||◌, ◌==◌, ltb, leb, if◌then◌else◌, length, slice, take, get_or, equal, bit_and,
}
use rusty_cortex.Base.Words.{Bytes, u16_at, u32_at, u64_at, wrapping_add, from_le_bytes}
use rusty_cortex.Edl.Identity.{ProgrammerIdentity}
use rusty_cortex.Edl.Mbn.Parsed.{Parsed, found, absent, panic, ◌>>=◌, of_option, sliced}
use rusty_cortex.Edl.Mbn.Certificates.{Hashes}
use rusty_cortex.Edl.Mbn.Segment.{extract_identity_from_hash_segment, parse_mbn_identity}

abbrev pub elf_magic : Bytes
elf_magic = 0x7F ∷ 0x45 ∷ 0x4C ∷ 0x46 ∷ []

abbrev pub mbn_sbl_magic : ℕ
mbn_sbl_magic = 0x844BDCD1

abbrev pub mbn_max_image_id : ℕ
mbn_max_image_id = 50

-- On the four bytes of a header.
unfoldable pub is_valid_programmer_magic : Bytes → Bool
unfolding equal from_le_bytes
is_valid_programmer_magic header =
    let le_val = from_le_bytes header in
    equal header elf_magic || (le_val == mbn_sbl_magic || leb le_val mbn_max_image_id)

-- The two classes of `data[4]`.
pub data ElfClass : Type 0 where
  class32 class64 : ElfClass

abbrev pub elf_class : ℕ → Option ElfClass
elf_class b = if b == 1 then some class32 else if b == 2 then some class64 else none

pub record Table : Type 0 where
  pub e_phoff : ℕ
  pub e_phentsize : ℕ
  pub e_phnum : ℕ

abbrev pub table_of : ElfClass → Bytes → Table
table_of class32 bytes = record {
  e_phoff = u32_at bytes 28;
  e_phentsize = u16_at bytes 42;
  e_phnum = u16_at bytes 44;
}
table_of class64 bytes = record {
  e_phoff = u64_at bytes 32;
  e_phentsize = u16_at bytes 54;
  e_phnum = u16_at bytes 56;
}

pub record ProgramHeader : Type 0 where
  pub p_type : ℕ
  pub p_offset : ℕ
  pub p_filesz : ℕ
  pub p_flags : ℕ

-- The bytes that the fields of a program header take.
abbrev pub header_need : ElfClass → ℕ
header_need class32 = 28
header_need class64 = 40

abbrev pub header_at : ElfClass → Bytes → ℕ → ProgramHeader
header_at class32 bytes start = record {
  p_type = u32_at bytes start;
  p_offset = u32_at bytes (start + 4);
  p_filesz = u32_at bytes (start + 16);
  p_flags = u32_at bytes (start + 24);
}
header_at class64 bytes start = record {
  p_type = u32_at bytes start;
  p_offset = u64_at bytes (start + 8);
  p_filesz = u64_at bytes (start + 32);
  p_flags = u32_at bytes (start + 4);
}

-- The slices abort where the fields do not lie inside the file.
unfoldable pub read_header : ElfClass → Bytes → ℕ → Parsed ProgramHeader
read_header class bytes start =
    if ltb (length bytes) (start + header_need class)
    then panic
    else found (header_at class bytes start)

-- The sum wraps in a release build.
unfoldable pub is_hash_segment : Bytes → ProgramHeader → Bool
is_hash_segment bytes ph =
    ltb 0 ph.p_offset
    && ltb 0 ph.p_filesz
    && (ph.p_type == 0 || not (bit_and ph.p_flags 0x02000000 == 0))
    && leb (wrapping_add ph.p_offset ph.p_filesz) (length bytes)

-- The `for` loop over `turns` program headers from number `i` on: offset and size of the segment.
unfoldable pub find_hash_segment : ElfClass → Bytes → Table → ℕ → ℕ → Parsed (ℕ × ℕ)
unfolding read_header is_hash_segment
find_hash_segment class bytes t i zero = absent
find_hash_segment class bytes t i (suc turns) =
    let ph_start = t.e_phoff + i * t.e_phentsize in
    if ltb (length bytes) (ph_start + t.e_phentsize)
    then absent
    else read_header class bytes ph_start >>= λ ph.
        let rest = find_hash_segment class bytes t (suc i) turns in
        if is_hash_segment bytes ph then found (ph.p_offset, ph.p_filesz) else rest

-- `data.get(offset..offset + size)`.
abbrev pub get_range : Bytes → ℕ → ℕ → Option Bytes
get_range bytes offset size =
    let end = wrapping_add offset size in
    if leb offset end && leb end (length bytes)
    then some (slice bytes offset (end - offset))
    else none

-- `checked_mul` and `checked_add` of the size of the table, and the test that it lies in the file.
abbrev pub table_fits : Bytes → Table → Bool
table_fits bytes t =
    let ph_end = t.e_phoff + t.e_phnum * t.e_phentsize in
    ltb ph_end (2 ^ 64) && leb ph_end (length bytes) && not (t.e_phnum == 0)

unfoldable pub parse_elf_table : Hashes → Bytes → ElfClass → Table → Parsed ProgrammerIdentity
unfolding find_hash_segment extract_identity_from_hash_segment
parse_elf_table h bytes class t =
    if table_fits bytes t
    then find_hash_segment class bytes t 0 t.e_phnum >>= (λ at.
      of_option (get_range bytes at.0 at.1) >>= λ segment.
      extract_identity_from_hash_segment h segment)
    else absent

-- The size of the file's header.
abbrev pub elf_header_size : ElfClass → ℕ
elf_header_size class32 = 52
elf_header_size class64 = 64

-- The last slice of the fields that are read.
abbrev pub fields_end : ElfClass → ℕ
fields_end class32 = 46
fields_end class64 = 58

unfoldable pub parse_elf_class : Hashes → Bytes → ElfClass → Parsed ProgrammerIdentity
unfolding parse_elf_table
parse_elf_class h bytes class =
    let read =
      sliced bytes (fields_end class) (table_of class bytes) >>= parse_elf_table h bytes class in
    if ltb (length bytes) (elf_header_size class) then absent else read

unfoldable pub parse_elf_identity : Hashes → Bytes → Parsed ProgrammerIdentity
unfolding parse_elf_class
parse_elf_identity h bytes =
    if ltb (length bytes) 64
    then absent
    else of_option (elf_class (get_or bytes 4 0)) >>= parse_elf_class h bytes

unfoldable pub parse_programmer_identity_from_bytes : Hashes → Bytes → Parsed ProgrammerIdentity
unfolding parse_elf_identity parse_mbn_identity equal from_le_bytes
parse_programmer_identity_from_bytes h bytes =
    let magic = take 4 bytes in
    let le_val = from_le_bytes magic in
    if ltb (length bytes) 4
    then absent
    else if equal magic elf_magic
    then parse_elf_identity h bytes
    else if le_val == mbn_sbl_magic || leb le_val mbn_max_image_id
    then parse_mbn_identity h bytes
    else absent
