-- ===== src/Adb/Logcat.antt =====
-- protocols/adb/logcat.rs: priorities, the filter, and the streaming parser of the binary log format.
pub mod Fuel
pub mod Records
pub mod Chunks
pub mod Empty
use rusty_cortex.Base.{
  ℕ, zero, suc, ◌+◌, ◌-◌, Bool, true, false, not, ◌&&◌, ◌||◌, List, [], ◌∷◌, ◌++◌, Option, none,
  some, ltb, leb, ◌==◌, if◌then◌else◌, length, take, drop, slice, map, codes, equal, one_of,
  starts_with,
}
use rusty_cortex.Base.Words.{Bytes, u16_at, u32_at}
use rusty_cortex.Failure.{Result, ok, err, panic}

abbrev pub max_buf_size : ℕ
max_buf_size = 1048576

pub data LogPriority : Type 0 where
  verbose debug info warn error fatal : LogPriority

-- The discriminants, by which the derived order compares.
abbrev pub discriminant : LogPriority → ℕ
discriminant verbose = 2
discriminant debug = 3
discriminant info = 4
discriminant warn = 5
discriminant error = 6
discriminant fatal = 7

abbrev pub from_u8 : ℕ → Option LogPriority
from_u8 v =
    if v == 2
    then some verbose
    else if v == 3
    then some debug
    else if v == 4
    then some info
    else if v == 5
    then some warn
    else if v == 6
    then some error
    else if v == 7
    then some fatal
    else none

pub record LogcatEntry : Type 0 where
  pub pid : ℕ
  pub tid : ℕ
  pub sec : ℕ
  pub nsec : ℕ
  pub priority : LogPriority
  pub tag : List ℕ
  pub message : List ℕ

pub record LogcatFilter : Type 0 where
  pub min_priority : LogPriority
  pub tag : Option (List ℕ)
  pub pid : Option ℕ

abbrev tag_passes : Option (List ℕ) → List ℕ → Bool
tag_passes none tag = true
tag_passes (some prefix) tag = starts_with tag prefix

abbrev pid_passes : Option ℕ → ℕ → Bool
pid_passes none pid = true
pid_passes (some wanted) pid = pid == wanted

unfoldable pub matches : LogcatFilter → LogcatEntry → Bool
matches filter entry =
    if ltb (discriminant entry.priority) (discriminant filter.min_priority)
    then false
    else tag_passes filter.tag entry.tag && pid_passes filter.pid entry.pid

-- `iter().position(|&b| b == 0)`
unfoldable pub position_zero : Bytes → Option ℕ
position_zero [] = none
position_zero (b ∷ bs) = if b == 0 then some 0 else map_suc (position_zero bs)
  where
    map_suc : Option ℕ → Option ℕ
    map_suc none = none
    map_suc (some p) = some (suc p)

-- `.map(|p| start + p).unwrap_or(payload.len())`
abbrev pub or_end : ℕ → Bytes → Option ℕ → ℕ
or_end start bytes none = length bytes
or_end start bytes (some p) = start + p

unfoldable pub end_from : Bytes → ℕ → ℕ
end_from bytes start = or_end start bytes (position_zero (drop start bytes))

abbrev pub or_verbose : Option LogPriority → LogPriority
or_verbose none = verbose
or_verbose (some p) = p

-- The priority and the bytes of the tag and the message. `payload[1..]` aborts on an empty payload.
unfoldable pub parse_payload : Bytes → Result (LogPriority × Bytes × Bytes)
parse_payload [] = panic
parse_payload (p ∷ rest) =
    let bytes = p ∷ rest in
    let tag_end = end_from bytes 1 in
    let msg_start = if ltb tag_end (length bytes) then tag_end + 1 else length bytes in
    let msg_end = end_from bytes msg_start in
    ok (
      or_verbose (from_u8 p),
      slice bytes 1 (tag_end - 1),
      slice bytes msg_start (msg_end - msg_start),
    )

-- An entry and what the later rounds give.
abbrev pub push_front :
    Bytes
    → Result LogcatEntry
    → Result (List LogcatEntry) × Bytes
    → Result (List LogcatEntry) × Bytes
push_front buf (ok e) (ok es, rest) = (ok (e ∷ es), rest)
push_front buf (ok e) (r, rest) = (r, rest)
push_front buf (err x) later = (err x, buf)
push_front buf panic later = (panic, buf)

-- The entries of a call and those of the later calls.
abbrev pub joined :
    Result (List LogcatEntry)
    → Result (List LogcatEntry) × Bytes
    → Result (List LogcatEntry) × Bytes
joined (ok es) (ok fs, buf) = (ok (es ++ fs), buf)
joined (ok es) (r, buf) = (r, buf)
joined r (_, buf) = (r, buf)

-- `String::from_utf8_lossy` is the library's.
module _ (from_utf8_lossy : Bytes → List ℕ) where
  abbrev entry_with : Bytes → Result (LogPriority × Bytes × Bytes) → Result LogcatEntry
  entry_with buf (ok (p, tag, message)) = ok (record {
    pid = u32_at buf 4;
    tid = u32_at buf 8;
    sec = u32_at buf 12;
    nsec = u32_at buf 16;
    priority = p;
    tag = from_utf8_lossy tag;
    message = from_utf8_lossy message;
  })
  entry_with buf (err e) = err e
  entry_with buf panic = panic

  -- The entry at the front of a buffer that holds it whole.
  unfoldable pub front_entry : Bytes → Result LogcatEntry
  front_entry buf = entry_with buf (parse_payload (slice buf (u16_at buf 2) (u16_at buf 0)))

  -- The loop of `feed`. A round that goes on takes at least 20 bytes, so as many rounds as there are
  -- bytes are enough.
  unfoldable pub parse_loop : ℕ → Bytes → Result (List LogcatEntry) × Bytes
  parse_loop zero buf = (ok [], buf)
  parse_loop (suc fuel) buf =
      let total = u16_at buf 2 + u16_at buf 0 in
      let rest = parse_loop fuel (drop total buf) in
      if ltb (length buf) 4
      then (ok [], buf)
      else if not (leb 20 (u16_at buf 2) && leb (u16_at buf 2) 64)
      then (ok [], [])
      else if ltb (length buf) total
      then (ok [], buf)
      else push_front buf (front_entry buf) rest

  -- The entries that a call returns, and the buffer that it leaves.
  unfoldable pub feed : Bytes → Bytes → Result (List LogcatEntry) × Bytes
  feed buf bytes =
      if ltb max_buf_size (length (buf ++ bytes))
      then (ok [], [])
      else parse_loop (length (buf ++ bytes)) (buf ++ bytes)

  -- Calls of `feed`, one for each piece that the transport delivers.
  unfoldable pub feed_all : Bytes → List Bytes → Result (List LogcatEntry) × Bytes
  feed_all buf [] = (ok [], buf)
  feed_all buf (piece ∷ pieces) = let (r, left) = feed buf piece in joined r (feed_all left pieces)
