-- ===== src/Runs/Devices.antt =====
-- A command with a quote, and a list of two partitions.
use rusty_cortex.Base.{◌≡◌, refl, List, [], ◌∷◌, ◌++◌, some, none, All, codes}
use rusty_cortex.Base.Sort.{IsSorted}
use rusty_cortex.Failure.{ok}
use rusty_cortex.Adb.Sideload.{digits_from}
use rusty_cortex.Adb.Device.{Text, no_root, su, wrap_for_root, parse_battery_health}
use rusty_cortex.Adb.Device.Quoting.{outside, read_word, quoted, wrap_for_root-quoted}
use rusty_cortex.Adb.Dump.{PartitionInfo, partition_le, list_partitions_sync, build_dd_command}
use rusty_cortex.Adb.Dump.Listing.{IsNamed, list_partitions_sync-IsNamed}

wrap_for_root-quoted_example :
    (wrap_for_root (codes "echo 'a'") su ≡ codes "su -c " ++ quoted (codes "echo 'a'"))
    × (read_word outside (quoted (codes "echo 'a'")) ≡ some (codes "echo 'a'"))
wrap_for_root-quoted_example = wrap_for_root-quoted (codes "echo 'a'")

abbrev two_lines : Text
two_lines = codes "boot 4096" ++ (10 ∷ (codes "abl x" ++ (10 ∷ [])))

abbrev two_partitions : List PartitionInfo
two_partitions =
    record { name = codes "abl"; size_bytes = none; size_display = codes "?" }
    ∷ record { name = codes "boot"; size_bytes = some 4096; size_display = [] }
    ∷ []

two_listed : list_partitions_sync (λ n. []) (λ cmd. ok two_lines) no_root ≡ ok two_partitions
unfolding list_partitions_sync digits_from
two_listed = refl

list_partitions_sync-IsNamed_example :
    All IsNamed two_partitions × IsSorted partition_le two_partitions
list_partitions_sync-IsNamed_example =
    list_partitions_sync-IsNamed (λ n. []) (λ cmd. ok two_lines) no_root two_partitions two_listed

dd_text :
    build_dd_command (codes "a") (codes "b") (some 8192) (some 4097)
    ≡ codes "dd if=a of=b bs=4096 skip=2 count=2"
unfolding build_dd_command
dd_text = refl

health_codes :
    (parse_battery_health (codes " 2") ≡ some (codes "Good"))
    × (parse_battery_health (codes "a::b@Proxy") ≡ none)
unfolding parse_battery_health digits_from
health_codes = (refl, refl)
