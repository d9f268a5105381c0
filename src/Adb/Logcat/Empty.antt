-- ===== src/Adb/Logcat/Empty.antt =====
-- A log entry without a payload.
use rusty_cortex.Base.{◌<◌, ℕ, zero, suc, ◌+◌, ◌≤◌, List, ◌++◌, ◌≡◌, arith, length, le→ltb, le→leb}
use rusty_cortex.Base.Words.{Bytes, u16_at}
use rusty_cortex.Failure.{panic}
use rusty_cortex.Adb.Logcat.{max_buf_size, parse_payload, front_entry, parse_loop, feed}

module _ (from_utf8_lossy : Bytes → List ℕ) where
  parse_loop-empty :
      (fuel : ℕ) (buf : Bytes)
      → 20 ≤ u16_at buf 2
      → u16_at buf 2 ≤ 64
      → u16_at buf 2 ≤ length buf
      → u16_at buf 0 ≡ 0
      → parse_loop from_utf8_lossy (suc fuel) buf ≡ (panic, buf)
  unfolding parse_loop front_entry parse_payload
  parse_loop-empty fuel buf low high whole empty = rw empty (
      rw (le→ltb (length buf) 4 (omega arith)) (
        rw (le→leb 20 (u16_at buf 2) low) (
          rw (le→leb (u16_at buf 2) 64 high)
            (rw (le→ltb (length buf) (u16_at buf 2 + 0) (omega arith))))))

  -- A complete entry at the front of the buffer whose header states a payload of no bytes aborts the
  -- program, whatever stands behind it, if the buffer is within its limit: the test for an empty
  -- payload covers the priority only, and the tag is sliced from offset 1.
  pub feed_panic :
      (buf bytes : Bytes)
      → length (buf ++ bytes) ≤ max_buf_size
      → 20 ≤ u16_at (buf ++ bytes) 2
      → u16_at (buf ++ bytes) 2 ≤ 64
      → u16_at (buf ++ bytes) 2 ≤ length (buf ++ bytes)
      → u16_at (buf ++ bytes) 0 ≡ 0
      → feed from_utf8_lossy buf bytes ≡ (panic, buf ++ bytes)
  unfolding feed
  feed_panic buf bytes small low high whole empty =
      rw (le→ltb max_buf_size (length (buf ++ bytes)) small)
        (panics (length (buf ++ bytes)) (omega arith))
    where
      panics :
          (fuel : ℕ)
          → 0 < fuel
          → parse_loop from_utf8_lossy fuel (buf ++ bytes) ≡ (panic, buf ++ bytes)
      panics (suc fuel) h = parse_loop-empty fuel (buf ++ bytes) low high whole empty
      panics zero h = absurd (omega arith)
