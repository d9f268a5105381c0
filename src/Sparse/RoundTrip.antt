-- ===== src/Sparse/RoundTrip.antt =====
-- The decompressor against the meaning of an image.
use rusty_cortex.Base.{
  ℕ, ◌*◌, ◌<◌, min, List, [], ◌∷◌, ◌++◌, ◌≡◌, refl, ◌∙◌, length, arith, append-nil, append_assoc,
  All, repeat, ◌/◌,
}
use rusty_cortex.Base.Words.{Bytes, IsU16, IsU32, to_le_bytes, from_le_bytes, u16_at, u32_at}
use rusty_cortex.Failure.{ok}
use rusty_cortex.Sparse.{sparse_magic, process_chunk, process_chunks, decompress_sparse}
use rusty_cortex.Sparse.Image.{
  Chunk, raw, fill, dont_care, crc32, Image, Fits, IsWellFormed, chunk_header, image_header, kind,
  blocks, body, encode_chunks, encode, expand_chunk, expand_chunks, expand,
}
use rusty_cortex.Sparse.Reads.{at, read_exact_lem, write_blocks_lem, copy_raw_lem}

process_chunk_lem :
    (bs : ℕ) (c : Chunk) (ys b w : Bytes)
    → Fits bs c
    → 0 < bs
    → process_chunk bs (kind c) (blocks c) (at b (body c ++ ys) w)
      ≡ (ok tt, at (b ++ body c) ys (w ++ expand_chunk bs c))
unfolding process_chunk
process_chunk_lem bs (raw n content) ys b w (hn, h) p =
    copy_raw_lem (n * bs) (n * bs) (min bs 65536) content ys b w h (omega arith) (omega arith)
process_chunk_lem bs (fill n q) ys b w (hn, h) p =
    rw (read_exact_lem 4 q ys b w h) (write_blocks_lem n (repeat (bs / 4) q) (b ++ q) ys w)
process_chunk_lem bs (dont_care n) ys b w h p = write_blocks_lem n _ b ys w ∙ simp append-nil
process_chunk_lem bs (crc32 n q) ys b w (hn, h) p =
    rw (read_exact_lem 4 q ys b w h) (simp append-nil)

length-chunk_header : (k n m : ℕ) → length (chunk_header k n m) ≡ 12
unfolding chunk_header to_le_bytes
length-chunk_header k n m = refl

chunk_header_kind : (k n m : ℕ) → IsU16 k → u16_at (chunk_header k n m) 0 ≡ k
unfolding chunk_header to_le_bytes from_le_bytes
chunk_header_kind k n m h = omega arith

chunk_header_blocks : (k n m : ℕ) → IsU32 n → u32_at (chunk_header k n m) 4 ≡ n
unfolding chunk_header to_le_bytes from_le_bytes
chunk_header_blocks k n m h = omega arith

Fits-kind : (bs : ℕ) (c : Chunk) → Fits bs c → IsU16 (kind c) × IsU32 (blocks c)
Fits-kind bs (raw n q) h = (omega arith, h.0)
Fits-kind bs (fill n q) h = (omega arith, h.0)
Fits-kind bs (dont_care n) h = (omega arith, h)
Fits-kind bs (crc32 n q) h = (omega arith, h.0)

process_chunks_lem :
    (bs : ℕ) (cs : List Chunk) (ys b w : Bytes)
    → All (Fits bs) cs
    → 0 < bs
    → process_chunks bs (length cs) (at b (encode_chunks cs ++ ys) w)
      ≡ (ok tt, at (b ++ encode_chunks cs) ys (w ++ expand_chunks bs cs))
unfolding process_chunks
process_chunks_lem bs [] ys b w h p = simp append-nil
process_chunks_lem bs (c ∷ cs) ys b w (hc, hs) p =
    let header = chunk_header (kind c) (blocks c) (length (body c)) in
    let (hk, hb) = Fits-kind bs c hc in
    rw append_assoc (
      rw append_assoc (
        rw
          (read_exact_lem 12 header (body c ++ (encode_chunks cs ++ ys)) b w
            (length-chunk_header (kind c) (blocks c) (length (body c))))
          (rw (chunk_header_kind (kind c) (blocks c) (length (body c)) hk) (
            rw (chunk_header_blocks (kind c) (blocks c) (length (body c)) hb) (
              rw (process_chunk_lem bs c (encode_chunks cs ++ ys) (b ++ header) w hc p) (
                rw
                  (process_chunks_lem bs cs ys ((b ++ header) ++ body c) (w ++ expand_chunk bs c) hs
                    p)
                  (simp append_assoc)))))))

image_header_fields :
    (image : Image)
    → IsWellFormed image
    → (length (image_header image) ≡ 28)
      × (u32_at (image_header image) 0 ≡ sparse_magic)
      × (u32_at (image_header image) 12 ≡ image.block_size)
      × (u32_at (image_header image) 20 ≡ length image.chunks)
unfolding image_header to_le_bytes from_le_bytes
image_header_fields image v = (refl, refl, omega arith, omega arith)

-- Decompressing the encoding of a well-formed image, whatever stands behind it in the stream,
-- succeeds, consumes exactly the encoding, and appends the image's expansion to the output.
pub decompress_sparse-encode :
    (image : Image) (tail before written : Bytes)
    → IsWellFormed image
    → decompress_sparse (at before (encode image ++ tail) written)
      ≡ (ok tt, at (before ++ encode image) tail (written ++ expand image))
unfolding decompress_sparse
decompress_sparse-encode image tail b w v =
    let (hl, hm, hb, hc) = image_header_fields image v in
    rw append_assoc (
      rw (read_exact_lem 28 (image_header image) (encode_chunks image.chunks ++ tail) b w hl) (
        rw hm (
          rw hb (
            rw hc (
              rw
                (process_chunks_lem image.block_size image.chunks tail (b ++ image_header image) w
                  v.chunks_fit v.block_size_pos)
                (simp append_assoc))))))
