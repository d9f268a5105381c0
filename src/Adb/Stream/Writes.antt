-- ===== src/Adb/Stream/Writes.antt =====
-- A write leaves what the device sends meanwhile to the reads that follow.
use rusty_cortex.Base.{ℕ, List, ◌++◌, ◌≡◌}
use rusty_cortex.Base.Words.{Bytes}
use rusty_cortex.Failure.{Result, ok, err, panic}
use rusty_cortex.Adb.Stream.{UsbStream}
use rusty_cortex.Adb.Stream.Wire.{okays}
use rusty_cortex.Adb.Stream.Pending.{pending, IsStream}

-- A write of `n` bytes that returns says so, and the pending bytes are as before.
abbrev pub Keeps : ℕ → Bytes → Result ℕ × UsbStream → Type 0
Keeps n before (ok k, s) = (k ≡ n) × (pending s ≡ before) × IsStream s
Keeps n before (err e, s) = Unit
Keeps n before (panic, s) = Unit

-- A write that returns has sent `message` and then only acknowledgements.
abbrev pub Writes : UsbStream → ℕ → List Bytes → Result ℕ × UsbStream → Type 0
Writes before n message (ok k, s) =
    (k ≡ n)
    × (pending s ≡ pending before)
    × IsStream s
    × ((count : ℕ) × (s.link.wire
          ≡ (before.link.wire ++ message) ++ okays count before.local_id before.remote_id))
Writes before n message (err e, s) = Unit
Writes before n message (panic, s) = Unit
