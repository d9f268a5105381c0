-- ===== src/Sparse/Blocks.antt =====
-- How much the decompressor writes on any input, well formed or not.
use rusty_cortex.Base.{
  ℕ, zero, suc, ◌+◌, ◌-◌, ◌*◌, ◌/◌, ◌%◌, ◌≤◌, ◌<◌, min, true, ◌++◌, ◌≡◌, refl, ap, ◌∙◌, leb, ◌==◌,
  if◌then◌else◌, length, take, drop, repeat, replicate, arith, ==_iff, inl, inr, Bool-cases,
  length-append, length-take, length-repeat, length-replicate,
}
use rusty_cortex.Base.Words.{Bytes, u16_at, u32_at}
use rusty_cortex.Failure.{Result, ok, err, panic}
use rusty_cortex.Sparse.{
  Streams, read_exact, copy_raw, write_blocks, process_chunk, process_chunks, decompress_sparse,
  ◌>>=◌, continue, chunk_raw, chunk_fill, chunk_dont_care, chunk_crc32, chunk_header_size,
  sparse_header_size, sparse_magic,
}
use rusty_cortex.Sparse.Reads.{write_blocks_lem}

-- If the code returns, it has written `n` bytes.
abbrev Writes : ℕ → Streams → Result (Unit {0}) × Streams → Type 0
Writes n s (ok _, t) = length t.written ≡ length s.written + n
Writes n s (err _, t) = Unit
Writes n s (panic, t) = Unit

-- If the code returns, it has written whole blocks.
abbrev pub Whole : ℕ → Streams → Result (Unit {0}) × Streams → Type 0
Whole bs s (ok _, t) = (k : ℕ) × (length t.written ≡ length s.written + k * bs)
Whole bs s (err _, t) = Unit
Whole bs s (panic, t) = Unit

-- Code that reads first keeps what holds after any full read that leaves the output alone.
read_exact-bind :
    (k : ℕ) (s : Streams) (f : Bytes → Streams → Result (Unit {0}) × Streams)
    (P : Result (Unit {0}) × Streams → Type 0)
    → ((xs : Bytes) (t : Streams) → length xs ≡ k → t.written ≡ s.written → P (f xs t))
    → ((r : Result (Unit {0}) × Streams) → ((e : _) → r.0 ≡ ok e → ⊥) → P r)
    → P ((read_exact k >>= f) s)
unfolding read_exact
read_exact-bind k s f P good bad = elim (Bool-cases (leb k (length s.rest))) [
  | inl long ↦ rw long (good _ _ (ground (arith, length-take k s.rest)) refl)
  | inr short ↦ rw short (bad _ (λ e p. cc))
]

Writes-bad :
    (n : ℕ) (s : Streams) (r : Result (Unit {0}) × Streams)
    → ((e : Unit {0}) → r.0 ≡ ok e → ⊥)
    → Writes n s r
Writes-bad n s (ok e, t) h = absurd (h e refl)
Writes-bad n s (err e, t) h = tt
Writes-bad n s (panic, t) h = tt

Whole-bad :
    (n : ℕ) (s : Streams) (r : Result (Unit {0}) × Streams)
    → ((e : Unit {0}) → r.0 ≡ ok e → ⊥)
    → Whole n s r
Whole-bad n s (ok e, t) h = absurd (h e refl)
Whole-bad n s (err e, t) h = tt
Whole-bad n s (panic, t) h = tt

Writes-shift :
    (m n : ℕ) (s t : Streams) (r : Result (Unit {0}) × Streams)
    → length t.written ≡ length s.written + m
    → Writes n t r
    → Writes (m + n) s r
Writes-shift m n s t (ok e, u) h k = omega arith
Writes-shift m n s t (err e, u) h k = tt
Writes-shift m n s t (panic, u) h k = tt

Writes-from :
    (n : ℕ) (s t : Streams) (r : Result (Unit {0}) × Streams)
    → t.written ≡ s.written
    → Writes n t r
    → Writes n s r
Writes-from n s t (ok e, u) h k = k ∙ rw h
Writes-from n s t (err e, u) h k = tt
Writes-from n s t (panic, u) h k = tt

Whole-shift :
    (m bs : ℕ) (s t : Streams) (r : Result (Unit {0}) × Streams)
    → length t.written ≡ length s.written + m * bs
    → Whole bs t r
    → Whole bs s r
Whole-shift m bs s t (ok e, u) h (k, p) = (m + k, grind arith)
Whole-shift m bs s t (err e, u) h k = tt
Whole-shift m bs s t (panic, u) h k = tt

copy_raw-Writes :
    (fuel remaining buf_len : ℕ) (s : Streams)
    → remaining ≤ fuel
    → 0 < buf_len
    → Writes remaining s (copy_raw fuel remaining buf_len s)
unfolding copy_raw
copy_raw-Writes zero remaining buf_len s f p = omega arith
copy_raw-Writes (suc fuel) remaining buf_len s f p = elim (Bool-cases (remaining == 0)) [
  | inl done ↦ rw done (ground arith)
  | inr more ↦ rw more (
      read_exact-bind (min remaining buf_len) s _ (Writes remaining s)
        (λ xs t h e.
          let u = record t { written = t.written ++ xs } in
          let sum : min remaining buf_len + (remaining - min remaining buf_len) ≡ remaining =
            omega arith in
          rw sum at (
            Writes-shift (min remaining buf_len) (remaining - min remaining buf_len) s u _
              (rw e (length-append s.written xs ∙ ap (◌+◌ (length s.written)) h))
              (copy_raw-Writes fuel (remaining - min remaining buf_len) buf_len u (ground arith)
                p)))
        (Writes-bad remaining s))
]

write_blocks-Writes :
    (n m : ℕ) (block : Bytes) (s : Streams)
    → n * length block ≡ m
    → Writes m s (write_blocks n block s)
write_blocks-Writes n m block s h =
    rw (write_blocks_lem n block s.before s.rest s.written)
      (rw length-append (rw length-repeat (rw h refl)))

-- A chunk with its blocks at a size that the four-byte pattern divides.
abbrev chunk_output : ℕ → ℕ → ℕ → ℕ
chunk_output bs kind n = if kind == chunk_crc32 then 0 else n * bs

fill_block : (bs : ℕ) (xs : Bytes) → bs % 4 ≡ 0 → length xs ≡ 4 → length (repeat (bs / 4) xs) ≡ bs
fill_block bs xs d h = length-repeat (bs / 4) xs ∙ rw h (omega arith)

process_chunk-Writes :
    (bs kind n : ℕ) (s : Streams)
    → 0 < bs
    → bs % 4 ≡ 0
    → Writes (chunk_output bs kind n) s (process_chunk bs kind n s)
unfolding process_chunk
process_chunk-Writes bs kind n s p d = elim (Bool-cases (kind == chunk_raw)) [
  | inl e ↦
      rw (same_kind kind chunk_raw e)
        (copy_raw-Writes (n * bs) (n * bs) (min bs 65536) s (omega arith) (omega arith))
  | inr e₁ ↦ elim (Bool-cases (kind == chunk_fill)) [
    | inl e ↦ rw (same_kind kind chunk_fill e) (
        read_exact-bind 4 s _ (Writes (n * bs) s)
          (λ xs t h w.
            Writes-from (n * bs) s t _ w
              (write_blocks-Writes n (n * bs) (repeat (bs / 4) xs) t (rw (fill_block bs xs d h))))
          (Writes-bad (n * bs) s))
    | inr e₂ ↦ elim (Bool-cases (kind == chunk_dont_care)) [
      | inl e ↦
          rw (same_kind kind chunk_dont_care e)
            (write_blocks-Writes n (n * bs) (replicate bs 0) s (rw (length-replicate bs)))
      | inr e₃ ↦ elim (Bool-cases (kind == chunk_crc32)) [
        | inl e ↦
            rw (same_kind kind chunk_crc32 e)
              (read_exact-bind 4 s _ (Writes 0 s) (λ xs t h w. rw w (omega arith)) (Writes-bad 0 s))
        | inr e₄ ↦ rw (e₁, e₂, e₃, e₄) tt
      ]
    ]
  ]
]
  where
    same_kind : (a b : ℕ) → (a == b) ≡ true → a ≡ b
    same_kind a b = (==_iff a b).0

chunk_output_whole : (bs kind n : ℕ) → (k : ℕ) × (chunk_output bs kind n ≡ k * bs)
chunk_output_whole bs kind n = elim (Bool-cases (kind == chunk_crc32)) [
  | inl e ↦ (0, rw e (omega arith))
  | inr e ↦ (n, rw e)
]

-- A chunk, then the rest.
Whole-bind :
    (n bs : ℕ) (s : Streams) (r : Result (Unit {0}) × Streams)
    (f : Unit {0} → Streams → Result (Unit {0}) × Streams)
    → Writes n s r
    → ((k : ℕ) × (n ≡ k * bs))
    → ((t : Streams) → Whole bs t (f tt t))
    → Whole bs s (continue r.0 f r.1)
Whole-bind n bs s (ok e, t) f w (k, p) h = Whole-shift k bs s t _ (w ∙ rw p) (h t)
Whole-bind n bs s (err e, t) f w k h = tt
Whole-bind n bs s (panic, t) f w k h = tt

process_chunks-Whole :
    (bs count : ℕ) (s : Streams) → 0 < bs → bs % 4 ≡ 0 → Whole bs s (process_chunks bs count s)
unfolding process_chunks
process_chunks-Whole bs zero s p d = (0, omega arith)
process_chunks-Whole bs (suc count) s p d =
    read_exact-bind chunk_header_size s _ (Whole bs s)
      (λ chdr t h w. Whole-shift 0 bs s t _ (rw w (omega arith)) (
        Whole-bind _ bs t _ _ (process_chunk-Writes bs (u16_at chdr 0) (u32_at chdr 4) t p d)
          (chunk_output_whole bs (u16_at chdr 0) (u32_at chdr 4))
          (λ u. process_chunks-Whole bs count u p d)))
      (Whole-bad bs s)

-- Whatever the stream holds: if the block size that its header states is positive and a multiple of
-- four, a call of `decompress_sparse` that returns has written a whole number of blocks.
pub decompress_sparse-Whole :
    (s : Streams)
    → 0 < u32_at (take sparse_header_size s.rest) 12
    → u32_at (take sparse_header_size s.rest) 12 % 4 ≡ 0
    → Whole (u32_at (take sparse_header_size s.rest) 12) s (decompress_sparse s)
unfolding decompress_sparse read_exact
decompress_sparse-Whole s p d = elim (Bool-cases (leb sparse_header_size (length s.rest))) [
  | inl long ↦
      rw long (elim (Bool-cases (u32_at (take sparse_header_size s.rest) 0 == sparse_magic)) [
        | inl magic ↦ rw magic (
            process_chunks-Whole _ (u32_at (take sparse_header_size s.rest) 20)
              (record s {
                before = s.before ++ take sparse_header_size s.rest;
                rest = drop sparse_header_size s.rest;
              })
              p d)
        | inr other ↦ rw other tt
      ])
  | inr short ↦ rw short tt
]
