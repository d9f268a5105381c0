-- ===== src/Adb/Dump/Ranges.antt =====
-- The range of bytes that `build_dd_command` asks for.
use rusty_cortex.Base.{ℕ, ◌+◌, ◌*◌, ◌%◌, ◌≤◌, ◌<◌, ◌≡◌, arith}
use rusty_cortex.Adb.Dump.{skip_blocks, count_blocks}

-- The skipped blocks end within the block of the offset, and the copied blocks hold at least as many
-- bytes as are asked for, by less than a block more.
pub blocks_lem :
    (offset size : ℕ)
    → (skip_blocks offset * 4096 ≤ offset)
      × (offset < skip_blocks offset * 4096 + 4096)
      × (size ≤ count_blocks size * 4096)
      × (count_blocks size * 4096 < size + 4096)
unfolding skip_blocks count_blocks
blocks_lem offset size = (omega arith, omega arith, omega arith, omega arith)

-- With an offset inside of a block and a size of whole blocks, the copied range ends before the
-- range that is asked for.
pub blocks_short :
    (offset size : ℕ)
    → 0 < offset % 4096
    → size % 4096 ≡ 0
    → skip_blocks offset * 4096 + count_blocks size * 4096 < offset + size
unfolding skip_blocks count_blocks
blocks_short offset size inside whole = omega arith
