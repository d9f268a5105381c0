-- ===== src/Sparse.antt =====
-- protocols/sparse.rs: Android sparse images. A reader is what it has consumed and what it has left,
-- the writer what was written; an error keeps both, as a partly written file does.
pub mod Image
pub mod Reads
pub mod Blocks
pub mod Files
pub mod Detect
pub mod RoundTrip
use rusty_cortex.Base.{
  ℕ, zero, suc, ◌+◌, ◌-◌, ◌*◌, ◌/◌, ◌≤◌, ◌<◌, min, Bool, true, false, not, List, [], ◌∷◌, ◌++◌, ◌≡◌,
  refl, leb, ◌==◌, if◌then◌else◌, length, take, drop, replicate, repeat, String, codes, arith,
}
use rusty_cortex.Base.Words.{Bytes, u16_at, u32_at}
use rusty_cortex.Failure.{
  FlashError, Result, ok, err, panic, protocol, io, IoErrorKind, number, Arg,
}

abbrev pub sparse_magic : ℕ
sparse_magic = 0xED26FF3A

abbrev pub sparse_header_size : ℕ
sparse_header_size = 28

abbrev pub chunk_header_size : ℕ
chunk_header_size = 12

abbrev pub chunk_raw : ℕ
chunk_raw = 0xCAC1

abbrev pub chunk_fill : ℕ
chunk_fill = 0xCAC2

abbrev pub chunk_dont_care : ℕ
chunk_dont_care = 0xCAC3

abbrev pub chunk_crc32 : ℕ
chunk_crc32 = 0xCAC4

-- `R: Read + Seek` and `W: Write` over memory.
pub record Streams : Type 0 where
  pub before : Bytes
  pub rest : Bytes
  pub written : Bytes

-- Code that reads and writes, and may fail on the way.
abbrev pub Copy {ℓ} : Type ℓ → Type ℓ
Copy A = Streams → Result A × Streams

abbrev pub pure {ℓ} : {A : Type ℓ} → A → Copy A
pure a s = (ok a, s)

abbrev pub fail {ℓ} : {A : Type ℓ} → FlashError → Copy A
fail e s = (err e, s)

abbrev pub continue {ℓ κ} :
    {A : Type ℓ} {B : Type κ}
    → Result A
    → (A → Streams → Result B × Streams)
    → Streams
    → Result B × Streams
continue (ok a) f s = f a s
continue (err e) f s = (err e, s)
continue panic f s = (panic, s)

infixl 5 ◌>>=◌ ◌>>◌
abbrev pub ◌>>=◌ {ℓ κ} :
    {A : Type ℓ} {B : Type κ}
    → (Streams → Result A × Streams)
    → (A → Streams → Result B × Streams)
    → Streams
    → Result B × Streams
◌>>=◌ m f s = continue (m s).0 f (m s).1

abbrev pub ◌>>◌ {ℓ} :
    {B : Type ℓ} → Copy (Unit {0}) → (Streams → Result B × Streams) → Streams → Result B × Streams
m >> k = m >>= λ _. k

-- `Read::read_exact` of `n` bytes; a short stream is consumed to its end.
unfoldable pub read_exact : ℕ → Copy Bytes
read_exact n s =
    if leb n (length s.rest)
    then (ok (take n s.rest), record s { before = s.before ++ take n s.rest; rest = drop n s.rest })
    else (err (io IoErrorKind.unexpected_eof), record s { before = s.before ++ s.rest; rest = [] })

unfoldable pub write_all : Bytes → Copy (Unit {0})
write_all bs s = (ok tt, record s { written = s.written ++ bs })

-- `Seek::seek` to an offset inside the stream.
unfoldable pub seek : ℕ → Copy (Unit {0})
seek p s =
    let all = s.before ++ s.rest in (ok tt, record s { before = take p all; rest = drop p all })

-- The end of the match in `is_sparse`: any other error of `read_exact` is passed on.
abbrev magic_read : ℕ → Result Bytes → Copy Bool
magic_read start (ok magic_buf) = do seek start; pure (u32_at magic_buf 0 == sparse_magic)
magic_read start (err (io IoErrorKind.unexpected_eof)) = do seek start; pure false
magic_read start (err e) = fail e
magic_read start panic = λ s. (panic, s)

unfoldable pub is_sparse : Copy Bool
unfolding seek
is_sparse s = let start = length s.before in let (r, s') = read_exact 4 s in magic_read start r s'

-- The loop of a RAW chunk. Each round takes at least a byte, so `remaining` rounds are enough.
unfoldable pub copy_raw : ℕ → ℕ → ℕ → Copy (Unit {0})
unfolding write_all
copy_raw zero remaining buf_len = pure tt
copy_raw (suc fuel) remaining buf_len = if remaining == 0 then pure tt else do
  bytes ← read_exact (min remaining buf_len)
  write_all bytes
  copy_raw fuel (remaining - min remaining buf_len) buf_len

-- `for _ in 0..n { writer.write_all(&block)?; }`
unfoldable pub write_blocks : ℕ → Bytes → Copy (Unit {0})
unfolding write_all
write_blocks zero block = pure tt
write_blocks (suc n) block = do write_all block; write_blocks n block

-- The match on the chunk type. `chunk_blocks` and `block_size` come from 32 bits, so their product
-- does not wrap.
unfoldable pub process_chunk : ℕ → ℕ → ℕ → Copy (Unit {0})
process_chunk block_size chunk_type chunk_blocks =
    let output_bytes = chunk_blocks * block_size in
    if chunk_type == chunk_raw
    then copy_raw output_bytes output_bytes (min block_size 65536)
    else if chunk_type == chunk_fill
    then (do
      pattern_bytes ← read_exact 4
      write_blocks chunk_blocks (repeat (block_size / 4) pattern_bytes))
    else if chunk_type == chunk_dont_care
    then write_blocks chunk_blocks (replicate block_size 0)
    else if chunk_type == chunk_crc32
    then (do _ ← read_exact 4; pure tt)
    else fail (protocol "Unknown sparse chunk type 0x{:04X}" (number chunk_type ∷ []))

-- `for _ in 0..total_chunks`
unfoldable pub process_chunks : ℕ → ℕ → Copy (Unit {0})
process_chunks block_size zero = pure tt
process_chunks block_size (suc n) = do
  chdr ← read_exact chunk_header_size
  process_chunk block_size (u16_at chdr 0) (u32_at chdr 4)
  process_chunks block_size n

unfoldable pub decompress_sparse : Copy (Unit {0})
decompress_sparse = do
  hdr ← read_exact sparse_header_size
  if u32_at hdr 0 == sparse_magic
      then process_chunks (u32_at hdr 12) (u32_at hdr 20)
      else fail (protocol "Not a sparse image" [])
