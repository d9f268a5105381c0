-- ===== src/Adb/Dump/Listing.antt =====
-- The partitions that are listed.
use rusty_cortex.Base.{ℕ, ◌≡◌, refl, subst, List, [], ◌∷◌, All, All-append}
use rusty_cortex.Base.Sort.{sort_by, IsSorted, IsOrder, sort_by-IsSorted, All-insert_by}
use rusty_cortex.Failure.{Result, ok, err, panic, >>=-eq-ok}
use rusty_cortex.Adb.Banner.{split}
use rusty_cortex.Adb.Device.{Text, RootType, trim}
use rusty_cortex.Adb.Dump.{
  PartitionInfo, validate_partition_name, if_named, info_of, parse_line, parse_lines,
  parse_batch_partition_output, partition_le, list_partitions_sync, split_space,
}
use rusty_cortex.Edl.Db.Listing.{text_le_total, text_le_trans}

abbrev pub IsNamed : PartitionInfo → Type 0
IsNamed p = validate_partition_name p.name ≡ ok tt

ok_inj : {a b : List PartitionInfo} → ok a ≡ ok b → a ≡ b
ok_inj e = cc

if_named-Named :
    (verdict : Result (Unit {0})) (info : PartitionInfo)
    → validate_partition_name info.name ≡ verdict
    → All IsNamed (if_named verdict info)
if_named-Named (ok tt) info same = (same, tt)
if_named-Named (err why) info same = tt
if_named-Named panic info same = tt

parse_line-Named :
    (format_size : ℕ → Text) (line : Text) → All IsNamed (parse_line format_size line)
unfolding parse_line
parse_line-Named format_size line =
    let parts = split_space [] (trim line) in
    if_named-Named (validate_partition_name (trim parts.0))
      (info_of format_size (trim parts.0) (trim parts.1)) refl

parse_lines-Named :
    (format_size : ℕ → Text) (ls : List Text) → All IsNamed (parse_lines format_size ls)
parse_lines-Named format_size [] = tt
parse_lines-Named format_size (l ∷ ls) =
    All-append IsNamed (parse_line format_size l) (parse_lines format_size ls)
      (parse_line-Named format_size l) (parse_lines-Named format_size ls)

sort_by-All :
    (P : PartitionInfo → Type 0) (ps : List PartitionInfo)
    → All P ps
    → All P (sort_by partition_le ps)
unfolding sort_by
sort_by-All P [] all = tt
sort_by-All P (p ∷ ps) (h, all) =
    All-insert_by P partition_le p (sort_by partition_le ps) h (sort_by-All P ps all)

partition_le-IsOrder : IsOrder partition_le
partition_le-IsOrder = record {
  total = λ a b h. text_le_total a.name b.name h;
  trans = λ a b c h k. text_le_trans a.name b.name c.name h k;
}

-- Whatever the device prints, the partitions that are listed have safe names, and the names ascend.
pub list_partitions_sync-IsNamed :
    (format_size : ℕ → Text) (shell : Text → Result Text) (root_type : RootType)
    (ps : List PartitionInfo)
    → list_partitions_sync format_size shell root_type ≡ ok ps
    → All IsNamed ps × IsSorted partition_le ps
unfolding list_partitions_sync parse_batch_partition_output
list_partitions_sync-IsNamed format_size shell root_type ps returns =
    let (output, answered, sorted) = >>=-eq-ok (shell _) _ returns in
    let found = parse_lines format_size (split 10 output) in
    subst (λ l. All IsNamed l × IsSorted partition_le l) (ok_inj sorted)
      (
        sort_by-All IsNamed found (parse_lines-Named format_size (split 10 output)),
        sort_by-IsSorted partition_le partition_le-IsOrder found,
      )
