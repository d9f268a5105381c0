-- ===== src/Edl/Chipsets.antt =====
-- `chipset_name`, `sochw_name` and `resolve_chipset`: names by chip id.
mod Older
mod Newer
mod Sockets
pub mod Keys
use rusty_cortex.Base.{
  ◌^◌, ℕ, ◌%◌, ◌/◌, List, [], ◌∷◌, ◌++◌, Option, none, some, String, ◌==◌, leb, if◌then◌else◌,
  bit_or, codes, map, not, ◌&&◌,
}
use rusty_cortex.Edl.Chipsets.Older.{older_chipsets}
use rusty_cortex.Edl.Chipsets.Newer.{newer_chipsets}
use rusty_cortex.Edl.Chipsets.Sockets.{sochw_chipsets}

-- A `match` on numbers: the first arm with the number.
unfoldable pub arm_of : ℕ → List (ℕ × String) → Option (List ℕ)
arm_of m [] = none
arm_of m (arm ∷ arms) = let rest = arm_of m arms in if arm.0 == m then some (codes arm.1) else rest

unfoldable pub chipset_name : ℕ → Option (List ℕ)
chipset_name m = arm_of m (older_chipsets ++ newer_chipsets)

unfoldable pub sochw_name : ℕ → Option (List ℕ)
sochw_name m = arm_of m sochw_chipsets

abbrev pub or_else : Option (List ℕ) → Option (List ℕ) → Option (List ℕ)
or_else (some s) o = some s
or_else none o = o

-- The second attempt: the upper half as a SOC_HW number.
unfoldable pub by_sochw : ℕ → Option (List ℕ)
by_sochw m =
    let soc_hw = m / 65536 in
    if not (m % 256 == 0xE1) && not (soc_hw == 0) then sochw_name soc_hw else none

-- The third attempt: the id shifted by a byte.
unfoldable pub by_shift : ℕ → Option (List ℕ)
by_shift m = if (m % 256 == 0) && leb m 0xFFFFFF then chipset_name (bit_or (m / 256) 0xE1) else none

unfoldable pub resolve_chipset : ℕ → Option (List ℕ)
resolve_chipset m =
    if m == 0 then none else or_else (chipset_name m) (or_else (by_sochw m) (by_shift m))
