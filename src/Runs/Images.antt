-- ===== src/Runs/Images.antt =====
-- A small sparse image through protocols/sparse.rs.
use rusty_cortex.Base.{equal, [], ◌∷◌, ◌++◌, ◌≡◌, refl, arith, true, some, codes}
use rusty_cortex.Failure.{ok}
use rusty_cortex.Sparse.{Streams, decompress_sparse}
use rusty_cortex.Sparse.Image.{Image, raw, fill, dont_care, crc32, IsWellFormed, encode, expand}
use rusty_cortex.Sparse.Reads.{at}
use rusty_cortex.Sparse.RoundTrip.{decompress_sparse-encode}
use rusty_cortex.Sparse.Files.{
  FilePath, Disk, ensure_raw_image, ensure_raw_image-encode, tmp_path, same_path,
}

abbrev four_chunks : Image
four_chunks = record {
  block_size = 4;
  total_blocks = 4;
  checksum = 0;
  chunks =
      raw 1 (1 ∷ 2 ∷ 3 ∷ 4 ∷ [])
      ∷ fill 2 (7 ∷ 7 ∷ 7 ∷ 7 ∷ [])
      ∷ dont_care 1
      ∷ crc32 0 (9 ∷ 9 ∷ 9 ∷ 9 ∷ [])
      ∷ [];
}

four_chunks-IsWellFormed : IsWellFormed four_chunks
four_chunks-IsWellFormed = record {
  block_size_fits = omega arith;
  block_size_pos = omega arith;
  count_fits = omega arith;
  chunks_fit =
      ((omega arith, refl), ((omega arith, refl), (omega arith, ((omega arith, refl), tt))));
}

abbrev four_chunks_stream : Streams
four_chunks_stream = at [] (encode four_chunks ++ (5 ∷ [])) []

decompress_sparse-encode_example :
    decompress_sparse four_chunks_stream
    ≡ (ok tt, at ([] ++ encode four_chunks) (5 ∷ []) ([] ++ expand four_chunks))
decompress_sparse-encode_example =
    decompress_sparse-encode four_chunks (5 ∷ []) [] [] four_chunks-IsWellFormed

abbrev image_path : FilePath
image_path = record { directory = codes "/tmp"; file_name = codes "a.img" }

abbrev sparse_disk : Disk
sparse_disk p = some (encode four_chunks ++ [])

abbrev raw_disk : Disk
raw_disk p = some (1 ∷ 2 ∷ 3 ∷ 4 ∷ 5 ∷ [])

ensure_raw_image-encode_example :
    ((ensure_raw_image image_path sparse_disk).0 ≡ ok (tmp_path image_path, true))
    × ((ensure_raw_image image_path sparse_disk).1 (tmp_path image_path)
        ≡ some (expand four_chunks))
    × ((ensure_raw_image image_path sparse_disk).1 image_path ≡ sparse_disk image_path)
    × ((ensure_raw_image image_path sparse_disk).1 image_path ≡ sparse_disk image_path)
unfolding same_path equal
ensure_raw_image-encode_example =
    ensure_raw_image-encode image_path sparse_disk four_chunks [] image_path refl
      four_chunks-IsWellFormed refl
