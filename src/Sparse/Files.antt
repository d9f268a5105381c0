-- ===== src/Sparse/Files.antt =====
-- `ensure_raw_image` over a file system. A path is its directory and its file name.
use rusty_cortex.Base.{
  Bool, true, false, ◌&&◌, [], ◌++◌, ◌≡◌, refl, ap, ◌∙◌, Option, none, some, arith, codes, equal,
  equal_iff, if◌then◌else◌, leb, ◌==◌, le→leb, length, length-append, Bool-cases, inl, inr,
}
use rusty_cortex.Base.Words.{Bytes, u32_at, to_le_bytes, from_le_bytes}
use rusty_cortex.Failure.{Result, ok, err, panic, io, IoErrorKind}
use rusty_cortex.Sparse.{Streams, sparse_magic, is_sparse, decompress_sparse}
use rusty_cortex.Sparse.Detect.{is_sparse_lem}
use rusty_cortex.Sparse.Image.{Image, IsWellFormed, image_header, encode, expand}
use rusty_cortex.Sparse.RoundTrip.{decompress_sparse-encode}

pub record FilePath : Type 0 where
  pub directory : Bytes
  pub file_name : Bytes

unfoldable pub same_path : FilePath → FilePath → Bool
same_path p q = equal p.directory q.directory && equal p.file_name q.file_name

same_path_refl : (p : FilePath) → same_path p p ≡ true
unfolding same_path
same_path_refl p =
    rw ((equal_iff p.directory p.directory).1 refl) ((equal_iff p.file_name p.file_name).1 refl)

-- The contents of the files that there are.
abbrev pub Disk : Type 0
Disk = FilePath → Option Bytes

abbrev pub store : FilePath → Bytes → Disk → Disk
store p bs disk q = if same_path p q then some bs else disk q

-- `path.with_file_name(format!("{}.raw.tmp", file_name))`
abbrev pub tmp_path : FilePath → FilePath
tmp_path p = record p { file_name = p.file_name ++ codes ".raw.tmp" }

-- After `create`: what the decompressor wrote stands in the file, however it ended.
abbrev written_out : FilePath → Disk → Result (Unit {0}) × Streams → Result (FilePath × Bool) × Disk
written_out tmp disk (ok _, s) = (ok (tmp, true), store tmp s.written disk)
written_out tmp disk (err e, s) = (err e, store tmp s.written disk)
written_out tmp disk (panic, s) = (panic, store tmp s.written disk)

abbrev detected : FilePath → Disk → Result Bool × Streams → Result (FilePath × Bool) × Disk
detected path disk (ok true, s) = written_out (tmp_path path) disk (decompress_sparse s)
detected path disk (ok false, s) = (ok (path, false), disk)
detected path disk (err e, s) = (err e, disk)
detected path disk (panic, s) = (panic, disk)

abbrev opened : FilePath → Disk → Option Bytes → Result (FilePath × Bool) × Disk
opened path disk none = (err (io IoErrorKind.not_found), disk)
opened path disk (some content) =
    detected path disk (is_sparse (record { before = []; rest = content; written = [] }))

unfoldable pub ensure_raw_image : FilePath → Disk → Result (FilePath × Bool) × Disk
ensure_raw_image path disk = opened path disk (disk path)

tmp_path-ne : (p : FilePath) → same_path (tmp_path p) p ≡ false
unfolding same_path
tmp_path-ne p = elim (Bool-cases (equal (p.file_name ++ codes ".raw.tmp") p.file_name)) [
  | inl same ↦ absurd (
      omega (
        arith,
        ap length ((equal_iff (p.file_name ++ codes ".raw.tmp") p.file_name).0 same),
        length-append p.file_name (codes ".raw.tmp"),
      ))
  | inr other ↦ rw other (ground arith)
]

is_sparse-encode :
    (image : Image) (tail : Bytes)
    → is_sparse (record { before = []; rest = encode image ++ tail; written = [] })
      ≡ (ok true, record { before = []; rest = encode image ++ tail; written = [] })
unfolding image_header to_le_bytes from_le_bytes
is_sparse-encode image tail =
    is_sparse_lem (record { before = []; rest = encode image ++ tail; written = [] })
    ∙ rw (le→leb 4 (length (encode image ++ tail)) (omega arith))

-- For a file that holds a well-formed sparse image, perhaps with more behind it, the call returns the
-- temporary path, the temporary file holds the expansion, the original file is unchanged, and so is
-- every other path.
pub ensure_raw_image-encode :
    (path : FilePath) (disk : Disk) (image : Image) (tail : Bytes) (q : FilePath)
    → disk path ≡ some (encode image ++ tail)
    → IsWellFormed image
    → same_path (tmp_path path) q ≡ false
    → ((ensure_raw_image path disk).0 ≡ ok (tmp_path path, true))
      × ((ensure_raw_image path disk).1 (tmp_path path) ≡ some (expand image))
      × ((ensure_raw_image path disk).1 path ≡ disk path)
      × ((ensure_raw_image path disk).1 q ≡ disk q)
unfolding ensure_raw_image
ensure_raw_image-encode path disk image tail q e v h = rw e (
    rw (is_sparse-encode image tail) (
      rw (decompress_sparse-encode image tail [] [] v)
        (refl, rw (same_path_refl (tmp_path path)), rw (tmp_path-ne path) e, rw h)))

-- A file that is shorter than four bytes or does not start with the magic number is returned as it
-- is, and no file changes.
pub ensure_raw_image_raw :
    (path : FilePath) (disk : Disk) (content : Bytes)
    → disk path ≡ some content
    → (leb 4 (length content) && (u32_at content 0 == sparse_magic)) ≡ false
    → ensure_raw_image path disk ≡ (ok (path, false), disk)
unfolding ensure_raw_image
ensure_raw_image_raw path disk content e h = rw e (rw is_sparse_lem (rw h))
