-- ===== src/Adb/Dump.antt =====
-- protocols/adb/dump.rs: names, temporary files and the range of a partition dump. Texts are ASCII.
pub mod Ranges
pub mod Listing
pub mod Write
pub mod Fetch
use rusty_cortex.Base.{
  ℕ, zero, suc, ◌+◌, ◌-◌, ◌*◌, ◌/◌, ◌%◌, ◌^◌, Bool, true, false, not, ◌&&◌, ◌||◌, List, [], ◌∷◌,
  ◌++◌, Option, none, some, String, codes, equal, contains, ltb, leb, ◌==◌, if◌then◌else◌, length,
  drop, map,
}
use rusty_cortex.Base.Sort.{sort_by}
use rusty_cortex.Failure.{Arg, text, FlashError, validation, Result, ok, err, ◌>>=◌}
use rusty_cortex.Adb.Banner.{split}
use rusty_cortex.Adb.Device.{
  Text, trim, is_space, parse_below, RootType, wrap_for_root, ShellAnswers, validate_shell_path,
}
use rusty_cortex.Edl.Db.{text_le}

abbrev in_range : ℕ → ℕ → ℕ → Bool
in_range low high c = leb low c && leb c high

unfoldable pub is_safe_char : ℕ → Bool
is_safe_char c =
    in_range b'a' b'z' c
    || (in_range b'A' b'Z' c || (in_range b'0' b'9' c || (c == b'_' || (c == b'-' || c == b'.'))))

abbrev pub all_safe : Text → Bool
all_safe [] = true
all_safe (c ∷ s) = is_safe_char c && all_safe s

unfoldable pub validate_partition_name : Text → Result (Unit {0})
unfolding is_safe_char
validate_partition_name [] = err (validation "Partition name is empty" [])
validate_partition_name (c ∷ s) =
    if all_safe (c ∷ s)
    then ok tt
    else err (validation "Partition name contains unsafe characters: {}" (text (c ∷ s) ∷ []))

abbrev pub temp_candidates : List String
temp_candidates = "/data/local/tmp" ∷ "/sdcard" ∷ "/tmp" ∷ []

abbrev says_writable : Option Text → Bool
says_writable none = false
says_writable (some output) = contains (trim output) (codes "WRITABLE")

abbrev probe : Text → RootType → Text
probe candidate root_type =
    wrap_for_root (codes "test -w " ++ (candidate ++ codes " && echo WRITABLE")) root_type

unfoldable pub first_writable : ShellAnswers → RootType → List String → Text
unfolding wrap_for_root trim contains
first_writable shell root_type [] = codes "/data/local/tmp"
first_writable shell root_type (t ∷ ts) =
    let others = first_writable shell root_type ts in
    if says_writable (shell (probe (codes t) root_type)) then codes t else others

unfoldable pub find_writable_temp : ShellAnswers → RootType → Text
unfolding first_writable
find_writable_temp shell root_type = first_writable shell root_type temp_candidates

-- `split_whitespace`, with the field read so far.
abbrev pub close_field : Text → List Text → List Text
close_field [] fields = fields
close_field (c ∷ s) fields = (c ∷ s) ∷ fields

abbrev fields_from : Text → Text → List Text
fields_from field [] = close_field field []
fields_from field (c ∷ s) =
    let cut = close_field field (fields_from [] s) in
    let on = fields_from (field ++ (c ∷ [])) s in if is_space c then cut else on

-- The fourth field in bytes; the product wraps in a release build.
abbrev space_of : List Text → Option ℕ
space_of (a ∷ b ∷ c ∷ d ∷ more) = elim (parse_below 18446744073709551616 d) [
  | none ↦ none
  | some kb ↦ some (kb * 1024 % 2 ^ 64)
]
space_of other = none

abbrev space_in : Option Text → Option ℕ
space_in none = none
space_in (some output) = space_of (fields_from [] output)

abbrev if_valid : Result (Unit {0}) → Option ℕ → Option ℕ
if_valid (ok _) space = space
if_valid other space = none

unfoldable pub check_device_space : ShellAnswers → Text → Option ℕ
unfolding validate_shell_path parse_below
check_device_space shell path =
    if_valid (validate_shell_path path)
      (space_in (shell (codes "df " ++ (path ++ codes " 2>/dev/null | tail -1"))))

unfoldable pub temp_path_in : Text → Text → Text
temp_path_in temp_dir name = temp_dir ++ (codes "/.rusty_dump_" ++ (name ++ codes ".img"))

unfoldable pub write_temp_path_in : Text → Text → Text
write_temp_path_in temp_dir name = temp_dir ++ (codes "/.rusty_write_" ++ (name ++ codes ".img"))

pub record PartitionInfo : Type 0 where
  pub name : Text
  pub size_bytes : Option ℕ
  pub size_display : Text

-- `line.splitn(2, ' ')`: the text before the first space and the text behind it.
abbrev pub split_space : Text → Text → Text × Text
split_space piece [] = (piece, [])
split_space piece (c ∷ s) =
    let on = split_space (piece ++ (c ∷ [])) s in if c == 32 then (piece, s) else on

abbrev positive : Option ℕ → Option ℕ
positive none = none
positive (some n) = if n == 0 then none else some n

-- `format_size` is an argument: it prints floating-point numbers.
abbrev display : (ℕ → Text) → Option ℕ → Text
display format_size none = codes "?"
display format_size (some b) = format_size b

abbrev pub info_of : (ℕ → Text) → Text → Text → PartitionInfo
info_of format_size name size_str =
    let size_bytes = positive (parse_below 18446744073709551616 size_str) in
    record { name = name; size_bytes = size_bytes; size_display = display format_size size_bytes }

abbrev if_named : Result (Unit {0}) → PartitionInfo → List PartitionInfo
if_named (ok _) info = info ∷ []
if_named other info = []

-- An empty line has an empty name, and is skipped as such.
unfoldable pub parse_line : (ℕ → Text) → Text → List PartitionInfo
unfolding trim validate_partition_name parse_below
parse_line format_size line =
    let parts = split_space [] (trim line) in
    let name = trim parts.0 in
    if_named (validate_partition_name name) (info_of format_size name (trim parts.1))

abbrev pub parse_lines : (ℕ → Text) → List Text → List PartitionInfo
parse_lines format_size [] = []
parse_lines format_size (l ∷ ls) = parse_line format_size l ++ parse_lines format_size ls

-- A carriage return before the end of a line, and the empty piece behind the last line, are
-- trimmed and skipped by `parse_line`.
unfoldable pub parse_batch_partition_output : (ℕ → Text) → Text → List PartitionInfo
unfolding parse_line split
parse_batch_partition_output format_size output = parse_lines format_size (split 10 output)

abbrev pub partition_le : PartitionInfo → PartitionInfo → Bool
partition_le a b = text_le a.name b.name

abbrev listing_cmd : Text
listing_cmd =
    codes "for p in $(ls /dev/block/by-name/); do "
    ++ (codes "s=$(blockdev --getsize64 /dev/block/by-name/$p 2>/dev/null || echo 0); "
        ++ (codes "echo \"$p $s\"; " ++ codes "done"))

unfoldable pub list_partitions_sync :
    (ℕ → Text) → (Text → Result Text) → RootType → Result (List PartitionInfo)
unfolding parse_batch_partition_output sort_by wrap_for_root text_le
list_partitions_sync format_size shell root_type =
    shell (wrap_for_root listing_cmd root_type) >>= λ output.
    ok (sort_by partition_le (parse_batch_partition_output format_size output))

-- The decimal digits of a number of at most twenty digits.
abbrev decimal_from : ℕ → ℕ → Text → Text
decimal_from zero n s = s
decimal_from (suc k) n s =
    let rest = decimal_from k (n / 10) ((48 + n % 10) ∷ s) in
    if ltb n 10 then (48 + n) ∷ s else rest

abbrev pub decimal : ℕ → Text
decimal n = decimal_from 20 n []

-- The blocks of 4096 bytes that are skipped, and those that are copied.
unfoldable pub skip_blocks : ℕ → ℕ
skip_blocks offset = offset / 4096

unfoldable pub count_blocks : ℕ → ℕ
count_blocks size = (size + 4095) / 4096

abbrev skip_text : Option ℕ → Text
skip_text none = []
skip_text (some offset) =
    if skip_blocks offset == 0 then [] else codes " skip=" ++ decimal (skip_blocks offset)

abbrev count_text : Option ℕ → Text
count_text none = []
count_text (some size) = codes " count=" ++ decimal (count_blocks size)

unfoldable pub build_dd_command : Text → Text → Option ℕ → Option ℕ → Text
unfolding skip_blocks count_blocks
build_dd_command input output offset_bytes size_bytes =
    codes "dd if="
    ++ (input
        ++ (codes " of="
            ++ (output ++ (codes " bs=4096" ++ (skip_text offset_bytes ++ count_text size_bytes)))))

abbrev is_dump : Text → Bool
is_dump l = contains l (codes ".rusty_dump_") && equal (drop (length l - 4) l) (codes ".img")

abbrev dumps_in : List Text → List Text
dumps_in [] = []
dumps_in (l ∷ ls) = let rest = dumps_in ls in if is_dump (trim l) then trim l ∷ rest else rest

abbrev removals : RootType → Option Text → List Text
removals root_type none = []
removals root_type (some output) =
    map (λ file. wrap_for_root (codes "rm " ++ file) root_type) (dumps_in (split 10 output))

-- The commands that `cleanup_device_temps` runs after the listing.
unfoldable pub cleanup_device_temps : ShellAnswers → Text → RootType → List Text
unfolding wrap_for_root trim contains equal split
cleanup_device_temps shell temp_dir root_type = removals root_type (
    shell (
      wrap_for_root (codes "ls " ++ (temp_dir ++ codes "/.rusty_dump_*.img 2>/dev/null"))
        root_type))
