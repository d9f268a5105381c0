-- ===== src/Adb/Sideload.antt =====
-- protocols/adb/sideload.rs: the host's side of `sideload-host`, which serves the blocks of a file that
-- the device asks for.
pub mod Blocks
use rusty_cortex.Base.{
  ℕ, zero, suc, ◌+◌, ◌-◌, ◌*◌, ◌^◌, min, Bool, true, false, not, ◌&&◌, List, [], ◌∷◌, ◌++◌, Option,
  none, some, ltb, leb, ◌==◌, if◌then◌else◌, length, slice, codes, equal,
}
use rusty_cortex.Base.Words.{Bytes, wrapping_mul}
use rusty_cortex.Failure.{
  FlashError, Result, ok, err, panic, protocol, validation, io, IoErrorKind, number, text, Arg,
}

abbrev pub sideload_block_size : ℕ
sideload_block_size = 65536

pub data SideloadRequest : Type 0 where
  block : ℕ → SideloadRequest
  done : SideloadRequest
  fail : SideloadRequest

-- `trim_start_matches('0')`
unfoldable pub trim_zeros : Bytes → Bytes
trim_zeros [] = []
trim_zeros (c ∷ cs) = let rest = trim_zeros cs in if c == 48 then rest else c ∷ cs

-- `str::parse::<u64>` of at most eight characters, which cannot overflow: an optional `+`, then digits
-- only, at least one.
unfoldable pub digits_from : ℕ → Bytes → Option ℕ
digits_from acc [] = some acc
digits_from acc (c ∷ cs) =
    let rest = digits_from (acc * 10 + (c - 48)) cs in if leb 48 c && leb c 57 then rest else none

abbrev digits : Bytes → Option ℕ
digits [] = none
digits (c ∷ cs) = digits_from 0 (c ∷ cs)

unfoldable pub parse_u64 : Bytes → Option ℕ
parse_u64 [] = none
parse_u64 (c ∷ cs) = if c == 43 then digits cs else digits (c ∷ cs)

abbrev block_of : Bytes → Option ℕ → Result SideloadRequest
block_of s none = err (protocol "Invalid block number: {:?}" (text s ∷ []))
block_of s (some n) = ok (block n)

abbrev pub parse_trimmed : Bytes → Bytes → Result SideloadRequest
parse_trimmed s [] = ok (block 0)
parse_trimmed s (c ∷ cs) = block_of s (parse_u64 (c ∷ cs))

-- `(offset, read_len)`
unfoldable pub calculate_block_read : ℕ → ℕ → ℕ → ℕ × ℕ
calculate_block_read n file_size block_size =
    let offset = wrapping_mul n block_size in (offset, min block_size (file_size - offset))

-- What the stream brings: a request of eight bytes, or the error of `read_exact`. After the list the
-- device closes the stream.
pub data Request : Type 0 where
  asked : Bytes → Request
  broke : IoErrorKind → Request

-- The error for a failed read, after `served` blocks.
abbrev pub read_failed : ℕ → IoErrorKind → FlashError
read_failed served IoErrorKind.timed_out = protocol "Sideload timed out waiting for device" []
read_failed served IoErrorKind.would_block = protocol "Sideload timed out waiting for device" []
read_failed served IoErrorKind.unexpected_eof =
    if served == 0
    then protocol
        "Device is not ready for sideload. Enter Recovery and select 'Apply update from ADB'" []
    else protocol "Device disconnected after {} blocks: {e}" (number served ∷ [])
read_failed served _ = protocol "Device disconnected during sideload: {e}" []

-- `str::from_utf8` is the library's test whether bytes are UTF-8.
module _ (is_utf8 : Bytes → Bool) where
  unfoldable pub parse_block_request : Bytes → Result SideloadRequest
  parse_block_request buf =
      if equal buf (codes "DONEDONE")
      then ok done
      else if equal buf (codes "FAILFAIL")
      then ok fail
      else if is_utf8 buf
      then parse_trimmed buf (trim_zeros buf)
      else err (protocol "Invalid block request: not UTF-8" [])

  -- The match on a request: the blocks sent so far, and whether the loop goes on.
  abbrev serve :
      Bytes
      → List Bytes
      → (List Bytes → Result (Unit {0}) × List Bytes)
      → Result SideloadRequest
      → Result (Unit {0}) × List Bytes
  serve file sent again (ok done) = (ok tt, sent)
  serve file sent again (ok fail) = (err (protocol "Device rejected the update package" []), sent)
  serve file sent again (ok (block n)) =
      let (offset, read_len) = calculate_block_read n (length file) sideload_block_size in
      let more = again (sent ++ (slice file offset read_len ∷ [])) in
      if read_len == 0
      then (
        err (
            protocol "Device requested block {} beyond file end (file is {} bytes)"
              (number n ∷ number (length file) ∷ [])),
        sent,
      )
      else more
  serve file sent again (err e) = (err e, sent)
  serve file sent again panic = (panic, sent)

  -- The loop of `adb_sideload`; `sent` holds the blocks written to the stream, which accepts them.
  unfoldable pub sideload_loop : Bytes → List Request → List Bytes → Result (Unit {0}) × List Bytes
  sideload_loop file [] sent = (err (read_failed (length sent) IoErrorKind.unexpected_eof), sent)
  sideload_loop file (broke k ∷ rest) sent = (err (read_failed (length sent) k), sent)
  sideload_loop file (asked buf ∷ rest) sent =
      serve file sent (sideload_loop file rest) (parse_block_request buf)

  -- `adb_sideload` once the service is open.
  unfoldable pub adb_sideload : Bytes → List Request → Result (Unit {0}) × List Bytes
  adb_sideload file requests =
      if length file == 0
      then (err (validation "Sideload file is empty" []), [])
      else sideload_loop file requests []
