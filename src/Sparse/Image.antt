-- ===== src/Sparse/Image.antt =====
-- What a sparse image means: its chunks, the bytes that stand for them, and the raw image that they
-- expand to.
use rusty_cortex.Base.{
  ℕ, ◌+◌, ◌*◌, ◌/◌, ◌<◌, List, [], ◌∷◌, ◌++◌, ◌≡◌, length, repeat, replicate, All,
}
use rusty_cortex.Base.Words.{Bytes, IsU32, to_le_bytes}
use rusty_cortex.Sparse.{sparse_magic, chunk_raw, chunk_fill, chunk_dont_care, chunk_crc32}

-- A chunk covers `blocks` blocks of the raw image.
pub data Chunk : Type 0 where
  raw : ℕ → Bytes → Chunk
  fill : ℕ → Bytes → Chunk
  dont_care : ℕ → Chunk
  crc32 : ℕ → Bytes → Chunk

pub record Image : Type 0 where
  pub block_size : ℕ
  pub total_blocks : ℕ
  pub checksum : ℕ
  pub chunks : List Chunk

abbrev pub Fits : ℕ → Chunk → Type 0
Fits bs (raw n content) = IsU32 n × (length content ≡ n * bs)
Fits bs (fill n pattern_bytes) = IsU32 n × (length pattern_bytes ≡ 4)
Fits bs (dont_care n) = IsU32 n
Fits bs (crc32 n sum) = IsU32 n × (length sum ≡ 4)

pub record IsWellFormed (image : Image) : Type 0 where
  pub block_size_fits : IsU32 image.block_size
  pub block_size_pos : 0 < image.block_size
  pub count_fits : IsU32 (length image.chunks)
  pub chunks_fit : All (Fits image.block_size) image.chunks

-- type, reserved, blocks, bytes of the chunk with its header
unfoldable pub chunk_header : ℕ → ℕ → ℕ → Bytes
chunk_header kind n body =
    to_le_bytes 2 kind ++ (to_le_bytes 2 0 ++ (to_le_bytes 4 n ++ to_le_bytes 4 (12 + body)))

abbrev pub kind : Chunk → ℕ
kind (raw n content) = chunk_raw
kind (fill n pattern_bytes) = chunk_fill
kind (dont_care n) = chunk_dont_care
kind (crc32 n sum) = chunk_crc32

abbrev pub blocks : Chunk → ℕ
blocks (raw n content) = n
blocks (fill n pattern_bytes) = n
blocks (dont_care n) = n
blocks (crc32 n sum) = n

abbrev pub body : Chunk → Bytes
body (raw n content) = content
body (fill n pattern_bytes) = pattern_bytes
body (dont_care n) = []
body (crc32 n sum) = sum

abbrev pub encode_chunk : Chunk → Bytes
encode_chunk c = chunk_header (kind c) (blocks c) (length (body c)) ++ body c

abbrev pub encode_chunks : List Chunk → Bytes
encode_chunks [] = []
encode_chunks (c ∷ cs) = encode_chunk c ++ encode_chunks cs

-- magic, versions 1.0, header sizes, block size, blocks, chunks, checksum
unfoldable pub image_header : Image → Bytes
image_header image =
    to_le_bytes 4 sparse_magic
    ++ (to_le_bytes 2 1
        ++ (to_le_bytes 2 0
            ++ (to_le_bytes 2 28
                ++ (to_le_bytes 2 12
                    ++ (to_le_bytes 4 image.block_size
                        ++ (to_le_bytes 4 image.total_blocks
                            ++ (to_le_bytes 4 (length image.chunks)
                                ++ to_le_bytes 4 image.checksum)))))))

abbrev pub encode : Image → Bytes
encode image = image_header image ++ encode_chunks image.chunks

abbrev pub expand_chunk : ℕ → Chunk → Bytes
expand_chunk bs (raw n content) = content
expand_chunk bs (fill n pattern_bytes) = repeat n (repeat (bs / 4) pattern_bytes)
expand_chunk bs (dont_care n) = repeat n (replicate bs 0)
expand_chunk bs (crc32 n sum) = []

abbrev pub expand_chunks : ℕ → List Chunk → Bytes
expand_chunks bs [] = []
expand_chunks bs (c ∷ cs) = expand_chunk bs c ++ expand_chunks bs cs

abbrev pub expand : Image → Bytes
expand image = expand_chunks image.block_size image.chunks
