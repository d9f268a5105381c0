-- ===== src/Edl/Mbn/Elf/Safety.antt =====
-- Where the search for the hash segment aborts, and where it cannot.
use native.Mathlib.Nat.{add-mul, suc-mul}
use rusty_cortex.Edl.Mbn.Metadata.{Metadata, nonzero, words_at, of_version, extract_metadata}
use rusty_cortex.Edl.Mbn.Segment.Layout.{
  identity, Segment, encode, IsWellFormed, extract_identity_from_hash_segment-encode,
}
use rusty_cortex.Base.Words.{IsU64, wrapping_add}
use rusty_cortex.Base.{
  get_or, if_elim, ltb→ge, ltb, leb, ◌==◌, ◌&&◌, slice, ◌-◌, le→leb, ℕ, zero, suc, ◌+◌, ◌*◌, ◌≤◌,
  ◌<◌, ◌≡◌, ◌≢◌, refl, inl, inr, arith, List, [], ◌∷◌, Option, none, some, Bool, true, false,
  Bool-cases, le→ltb, if◌then◌else◌, length,
}
use rusty_cortex.Base.Words.{Bytes, u32_at}
use rusty_cortex.Edl.Mbn.Parsed.{
  Parsed, found, absent, panic, ◌>>=◌, of_option, attempt, sliced, sliced-inside,
}
use rusty_cortex.Edl.Mbn.Certificates.{Hashes}
use rusty_cortex.Edl.Mbn.Segment.{
  Sizes, segment_sizes, segment_pkhash, segment_metadata, identity_behind,
  extract_identity_from_hash_segment,
}
use rusty_cortex.Edl.Mbn.Elf.{
  class32, class64, elf_class, elf_header_size, fields_end, parse_elf_identity, ElfClass, Table,
  ProgramHeader, header_need, header_at, read_header, is_hash_segment, find_hash_segment, get_range,
  table_of, table_fits, parse_elf_table, parse_elf_class,
}

-- The program headers of a table, `turns` of them from number `i` on.
abbrev pub headers : ElfClass → Bytes → Table → ℕ → ℕ → List ProgramHeader
headers class bytes t i zero = []
headers class bytes t i (suc turns) =
    header_at class bytes (t.e_phoff + i * t.e_phentsize) ∷ headers class bytes t (suc i) turns

-- Offset and size of the first hash segment among them.
unfoldable pub first_hash : Bytes → List ProgramHeader → Option (ℕ × ℕ)
first_hash bytes [] = none
first_hash bytes (ph ∷ phs) =
    let rest = first_hash bytes phs in
    if is_hash_segment bytes ph then some (ph.p_offset, ph.p_filesz) else rest

read_header-found :
    (class : ElfClass) (bytes : Bytes) (start : ℕ)
    → start + header_need class ≤ length bytes
    → read_header class bytes start ≡ found (header_at class bytes start)
unfolding read_header
read_header-found class bytes start inside = rw (le→ltb _ _ inside)

inside_table :
    (i turns off size n : ℕ) → off + (i + suc turns) * size ≤ n → off + i * size + size ≤ n
inside_table i turns off size n fits = omega (arith, add-mul i (suc turns) size, suc-mul turns size)

rest_of_table :
    (i turns off size n : ℕ) → off + (i + suc turns) * size ≤ n → off + (suc i + turns) * size ≤ n
rest_of_table i turns off size n fits = omega (
  arith,
  add-mul i (suc turns) size,
  suc-mul turns size,
  add-mul (suc i) turns size,
  suc-mul i size,
)

if-of_option :
    (b : Bool) (at : ℕ × ℕ) (rest : Option (ℕ × ℕ))
    → (if b then found at else of_option rest) ≡ of_option (if b then some at else rest)
if-of_option true at rest = refl
if-of_option false at rest = refl

-- Where an entry is large enough for the fields of a program header and the table lies inside the
-- file, the search takes the first hash segment that the table lists; it does not abort.
find_hash_segment-first :
    (class : ElfClass) (bytes : Bytes) (t : Table) (i turns : ℕ)
    → header_need class ≤ t.e_phentsize
    → t.e_phoff + (i + turns) * t.e_phentsize ≤ length bytes
    → find_hash_segment class bytes t i turns
      ≡ of_option (first_hash bytes (headers class bytes t i turns))
unfolding find_hash_segment first_hash
find_hash_segment-first class bytes t i zero room fits = refl
find_hash_segment-first class bytes t i (suc turns) room fits =
    let inside = inside_table i turns t.e_phoff t.e_phentsize (length bytes) fits in
    let rest =
      find_hash_segment-first class bytes t (suc i) turns room
        (rest_of_table i turns t.e_phoff t.e_phentsize (length bytes) fits) in
    rw
      (
        le→ltb _ _ inside,
        read_header-found class bytes (t.e_phoff + i * t.e_phentsize) (omega arith),
        rest,
      )
      (if-of_option (is_hash_segment bytes (header_at class bytes (t.e_phoff + i * t.e_phentsize)))
        _ _)

table-inside :
    (bytes : Bytes) (t : Table)
    → table_fits bytes t ≡ true
    → (t.e_phoff + t.e_phnum * t.e_phentsize ≤ length bytes) × (0 < t.e_phnum)
table-inside bytes t fits = ground arith

-- The headers of the whole table, where it lies inside the file.
table-first :
    (class : ElfClass) (bytes : Bytes) (t : Table)
    → header_need class ≤ t.e_phentsize
    → table_fits bytes t ≡ true
    → find_hash_segment class bytes t 0 t.e_phnum
      ≡ of_option (first_hash bytes (headers class bytes t 0 t.e_phnum))
table-first class bytes t room fits =
    find_hash_segment-first class bytes t 0 t.e_phnum room
      (omega (arith, (table-inside bytes t fits).0))

then-Safe {ℓ κ} :
    {A : Type ℓ} {B : Type κ} (o : Option A) (next : A → Parsed B)
    → ((a : A) → next a ≢ panic)
    → (of_option o >>= next) ≢ panic
then-Safe none next safe e = cc
then-Safe (some a) next safe e = safe a e

sliced-Safe {ℓ κ} :
    {A : Type ℓ} {B : Type κ} (bytes : Bytes) (end : ℕ) (value : A) (next : A → Parsed B)
    → end ≤ length bytes
    → next value ≢ panic
    → (sliced bytes end value >>= next) ≢ panic
sliced-Safe bytes end value next inside safe e =
    safe (rw (sliced-inside bytes end value inside) at e)

absent-Safe {ℓ} : {A : Type ℓ} → ◌≢◌ {A = Parsed A} absent panic
absent-Safe e = cc

-- A test on the length in front of what is read behind it.
guarded-Safe {ℓ} :
    {A : Type ℓ} (bytes : Bytes) (end : ℕ) (read : Parsed A)
    → (end ≤ length bytes → read ≢ panic)
    → (if ltb (length bytes) end then absent else read) ≢ panic
guarded-Safe bytes end read safe e = elim (Bool-cases (ltb (length bytes) end)) [
  | inl short ↦ absent-Safe (rw short at e)
  | inr long ↦ safe (ltb→ge (length bytes) end long) (rw long at e)
]

nonzero-Safe : (m : Metadata) → nonzero m ≢ panic
nonzero-Safe m = if_elim (λ r. r ≢ panic) (m.msm_id == 0) _ _ absent-Safe (λ e. cc)

of_version-Safe :
    (bytes : Bytes) (offset major : ℕ)
    → offset + 24 ≤ length bytes
    → of_version bytes offset major ≢ panic
of_version-Safe bytes offset major inside =
    if_elim (λ r. r ≢ panic) (leb 6 major && leb major 100) _ _
      (sliced-Safe bytes (offset + 24) (words_at bytes offset) nonzero inside
        (nonzero-Safe (words_at bytes offset)))
      absent-Safe

extract_metadata-Safe : (bytes : Bytes) (offset : ℕ) → extract_metadata bytes offset ≢ panic
unfolding extract_metadata
extract_metadata-Safe bytes offset = guarded-Safe bytes (offset + 24) _ λ inside.
    sliced-Safe bytes (offset + 4) (u32_at bytes offset) (of_version bytes offset) (omega arith)
      (of_version-Safe bytes offset (u32_at bytes offset) inside)

attempt-Safe {ℓ κ} :
    {A : Type ℓ} {B : Type κ} (p : Parsed A) (next : Option A → Parsed B)
    → p ≢ panic
    → ((o : Option A) → next o ≢ panic)
    → (attempt p >>= next) ≢ panic
attempt-Safe (found a) next safe later e = later (some a) e
attempt-Safe absent next safe later e = later none e
attempt-Safe panic next safe later e = safe refl

identity_behind-Safe :
    (h : Hashes) (segment : Bytes) (z : Sizes) → identity_behind h segment z ≢ panic
unfolding identity_behind segment_metadata
identity_behind-Safe h segment (c, g, n) = then-Safe (segment_pkhash h segment c n) _ λ key.
    elim (Bool-cases (leb 24 (length segment - (40 + c + g + n)))) [
      | inl room ↦ rw room (
          attempt-Safe (extract_metadata segment (40 + c)) _
            (extract_metadata-Safe segment (40 + c)) λ m e. cc)
      | inr small ↦ rw small (λ e. cc)
    ]

extract_identity_from_hash_segment-Safe :
    (h : Hashes) (segment : Bytes) → extract_identity_from_hash_segment h segment ≢ panic
unfolding extract_identity_from_hash_segment segment_sizes
extract_identity_from_hash_segment-Safe h segment = guarded-Safe segment 40 _ λ inside.
    sliced-Safe segment 0x28 _ (identity_behind h segment) inside (identity_behind-Safe h segment _)

parse_elf_table-Safe :
    (h : Hashes) (bytes : Bytes) (class : ElfClass) (t : Table)
    → header_need class ≤ t.e_phentsize
    → parse_elf_table h bytes class t ≢ panic
unfolding parse_elf_table
parse_elf_table-Safe h bytes class t room e = elim (Bool-cases (table_fits bytes t)) [
  | inl fits ↦
      then-Safe (first_hash bytes (headers class bytes t 0 t.e_phnum)) _
        (λ at.
          then-Safe (get_range bytes at.0 at.1) _
            (λ segment. extract_identity_from_hash_segment-Safe h segment))
        (rw (fits, table-first class bytes t room fits) at e)
  | inr small ↦ absurd (cc (rw small at e))
]

fields-inside : (class : ElfClass) (n : ℕ) → elf_header_size class ≤ n → fields_end class ≤ n
fields-inside class32 n inside = omega arith
fields-inside class64 n inside = omega arith

-- Where the entries of the table are large enough for a program header, no slice of an ELF file is
-- taken outside of it: not of its header, of its program headers, of the header of the hash segment or
-- of the segment's metadata. The walk over the certificates is taken as one that does not abort.
pub parse_elf_class-Safe :
    (h : Hashes) (bytes : Bytes) (class : ElfClass)
    → header_need class ≤ (table_of class bytes).e_phentsize
    → parse_elf_class h bytes class ≢ panic
unfolding parse_elf_class
parse_elf_class-Safe h bytes class room = guarded-Safe bytes (elf_header_size class) _ λ inside.
    sliced-Safe bytes (fields_end class) (table_of class bytes) (parse_elf_table h bytes class)
      (fields-inside class (length bytes) inside)
      (parse_elf_table-Safe h bytes class (table_of class bytes) room)

find-panics :
    (class : ElfClass) (bytes : Bytes) (t : Table) (turns : ℕ)
    → 0 < turns
    → t.e_phentsize ≡ 0
    → t.e_phoff ≤ length bytes
    → length bytes < t.e_phoff + header_need class
    → find_hash_segment class bytes t 0 turns ≡ panic
unfolding find_hash_segment read_header
find-panics class bytes t zero pos empty inside near = absurd (omega arith)
find-panics class bytes t (suc turns) pos empty inside near = ground arith

parse_elf_table-panics :
    (h : Hashes) (bytes : Bytes) (class : ElfClass) (t : Table)
    → t.e_phentsize ≡ 0
    → table_fits bytes t ≡ true
    → length bytes < t.e_phoff + header_need class
    → parse_elf_table h bytes class t ≡ panic
unfolding parse_elf_table
parse_elf_table-panics h bytes class t empty fits near =
    let inside = table-inside bytes t fits in
    rw (fits, find-panics class bytes t t.e_phnum inside.1 empty (omega (arith, inside.0)) near)

parse_elf_class-panics :
    (h : Hashes) (bytes : Bytes) (class : ElfClass)
    → elf_header_size class ≤ length bytes
    → (table_of class bytes).e_phentsize ≡ 0
    → table_fits bytes (table_of class bytes) ≡ true
    → length bytes < (table_of class bytes).e_phoff + header_need class
    → parse_elf_class h bytes class ≡ panic
unfolding parse_elf_class
parse_elf_class-panics h bytes class long empty fits near =
    rw
      (
        le→ltb (length bytes) (elf_header_size class) long,
        sliced-inside bytes (fields_end class) (table_of class bytes)
            (fields-inside class (length bytes) long),
      )
      (parse_elf_table-panics h bytes class (table_of class bytes) empty fits near)

header-inside : (class : ElfClass) (n : ℕ) → 64 ≤ n → elf_header_size class ≤ n
header-inside class32 n inside = omega arith
header-inside class64 n inside = omega arith

-- A file of at least 64 bytes whose byte 4 is the class 1 or 2, with entries of size 0 and a table
-- that begins too near to the end of the file for one program header: reading it as an ELF file
-- aborts, though the table passes the test on its size.
pub parse_elf_identity-panics :
    (h : Hashes) (bytes : Bytes) (class : ElfClass)
    → 64 ≤ length bytes
    → elf_class (get_or bytes 4 0) ≡ some class
    → (table_of class bytes).e_phentsize ≡ 0
    → table_fits bytes (table_of class bytes) ≡ true
    → length bytes < (table_of class bytes).e_phoff + header_need class
    → parse_elf_identity h bytes ≡ panic
unfolding parse_elf_identity
parse_elf_identity-panics h bytes class long named empty fits near =
    rw (le→ltb (length bytes) 64 long, named)
      (parse_elf_class-panics h bytes class (header-inside class (length bytes) long) empty fits
        near)

end_small : (at size n : ℕ) → at + size ≤ n → IsU64 n → wrapping_add at size ≡ at + size
end_small at size n inside small = omega arith

end_size : (at size : ℕ) → at + size - at ≡ size
end_size at size = omega arith

get_range-inside :
    (bytes : Bytes) (at size : ℕ)
    → at + size ≤ length bytes
    → IsU64 (length bytes)
    → get_range bytes at size ≡ some (slice bytes at size)
get_range-inside bytes at size inside small = rw (
  end_small at size (length bytes) inside small,
  le→leb at (at + size) (omega arith),
  le→leb (at + size) (length bytes) inside,
  end_size at size,
)

-- A table whose first hash segment is one that was written with a chain of certificates and
-- metadata, somewhere in a file below 2 ^ 64 bytes: the identity of the file is that segment's.
pub parse_elf_table-encode :
    (h : Hashes) (bytes : Bytes) (class : ElfClass) (t : Table) (s : Segment) (at : ℕ)
    → header_need class ≤ t.e_phentsize
    → table_fits bytes t ≡ true
    → first_hash bytes (headers class bytes t 0 t.e_phnum) ≡ some (at, length (encode s))
    → slice bytes at (length (encode s)) ≡ encode s
    → at + length (encode s) ≤ length bytes
    → IsU64 (length bytes)
    → IsWellFormed s
    → parse_elf_table h bytes class t ≡ found (identity h s)
unfolding parse_elf_table
parse_elf_table-encode h bytes class t s at room fits first here inside small w = rw (
  fits,
  table-first class bytes t room fits,
  first,
  get_range-inside bytes at (length (encode s)) inside small,
  here,
  extract_identity_from_hash_segment-encode h s w,
)
