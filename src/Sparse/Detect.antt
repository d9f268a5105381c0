-- ===== src/Sparse/Detect.antt =====
-- `is_sparse` on every stream.
use rusty_cortex.Base.{
  ◌&&◌, ◌≡◌, length, inl, inr, Bool-cases, leb, ◌==◌, append_assoc, take-append-drop, take-take,
  append-nil, take-append, drop-append,
}
use rusty_cortex.Base.Words.{u32_at}
use rusty_cortex.Failure.{ok}
use rusty_cortex.Sparse.{Streams, sparse_magic, is_sparse, read_exact}

-- `is_sparse` never fails: it says whether at least four bytes are left and they spell the magic
-- number, and it leaves the reader and the output as they were.
pub is_sparse_lem :
    (s : Streams)
    → is_sparse s ≡ (ok (leb 4 (length s.rest) && (u32_at s.rest 0 == sparse_magic)), s)
unfolding is_sparse read_exact
is_sparse_lem s = elim (Bool-cases (leb 4 (length s.rest))) [
  | inl long ↦ rw long (
      simp (
        append_assoc, take-append-drop, take-take, append-nil, take-append, drop-append, take-take,
      ))
  | inr short ↦ rw short (simp (append_assoc, append-nil, take-append, drop-append))
]
