-- ===== src/Sparse/Reads.antt =====
-- The loops of the decompressor on a reader that holds what they ask for.
use rusty_cortex.Base.{
  ℕ, zero, suc, ◌-◌, ◌≤◌, ◌<◌, min, false, [], ◌∷◌, ◌++◌, ◌≡◌, refl, sym, ap, ◌∙◌, ◌==◌, length,
  take, drop, repeat, arith, append-nil, append_assoc, length-append, length-take, length-drop,
  take-append-drop, take-append, drop-append, ◌≡⟨◌⟩◌, ◌∎,
}
use rusty_cortex.Base.Words.{Bytes}
use rusty_cortex.Failure.{ok}
use rusty_cortex.Sparse.{Streams, read_exact, copy_raw, write_blocks}

abbrev pub at : Bytes → Bytes → Bytes → Streams
at b r w = record { before = b; rest = r; written = w }

pub read_exact_lem :
    (n : ℕ) (xs ys b w : Bytes)
    → length xs ≡ n
    → read_exact n (at b (xs ++ ys) w) ≡ (ok xs, at (b ++ xs) ys w)
unfolding read_exact
read_exact_lem n xs ys b w h =
    ground (arith, take-append n xs ys h, drop-append n xs ys h, length-append xs ys)

pub write_blocks_lem :
    (n : ℕ) (block b r w : Bytes)
    → write_blocks n block (at b r w) ≡ (ok tt, at b r (w ++ repeat n block))
unfolding write_blocks
write_blocks_lem zero block b r w = rw append-nil
write_blocks_lem (suc n) block b r w = rw (write_blocks_lem n block) (rw append_assoc)

copy_raw_done : (fuel buf_len : ℕ) (s : Streams) → copy_raw fuel 0 buf_len s ≡ (ok tt, s)
unfolding copy_raw
copy_raw_done zero buf_len s = refl
copy_raw_done (suc fuel) buf_len s = refl

copy_raw_step :
    (fuel remaining buf_len : ℕ) (xs ys b w : Bytes)
    → length xs ≡ min remaining buf_len
    → (remaining == 0) ≡ false
    → copy_raw (suc fuel) remaining buf_len (at b (xs ++ ys) w)
      ≡ copy_raw fuel (remaining - min remaining buf_len) buf_len (at (b ++ xs) ys (w ++ xs))
unfolding copy_raw
copy_raw_step fuel remaining buf_len xs ys b w h p =
    rw p (rw (read_exact_lem (min remaining buf_len) xs ys b w h))

-- The chunked copy is one copy of `length xs` bytes.
pub copy_raw_lem :
    (fuel remaining buf_len : ℕ) (xs ys b w : Bytes)
    → length xs ≡ remaining
    → remaining ≤ fuel
    → 0 < buf_len
    → copy_raw fuel remaining buf_len (at b (xs ++ ys) w) ≡ (ok tt, at (b ++ xs) ys (w ++ xs))
copy_raw_lem fuel zero buf_len [] ys b w h f p =
    copy_raw_done fuel buf_len (at b ys w) ∙ simp append-nil
copy_raw_lem fuel zero buf_len (x ∷ xs) ys b w h f p = absurd (omega arith)
copy_raw_lem zero (suc r) buf_len xs ys b w h f p = absurd (omega arith)
copy_raw_lem (suc fuel) (suc r) buf_len xs ys b w h f p =
    let k = min (suc r) buf_len in
    copy_raw (suc fuel) (suc r) buf_len (at b (xs ++ ys) w)
    ≡⟨ ap (λ l. copy_raw (suc fuel) (suc r) buf_len (at b l w)) (split k) ⟩
      copy_raw (suc fuel) (suc r) buf_len (at b (take k xs ++ (drop k xs ++ ys)) w)
    ≡⟨ copy_raw_step fuel (suc r) buf_len (take k xs) (drop k xs ++ ys) b w
        (omega (arith, length-take k xs)) (ground arith) ⟩
      copy_raw fuel (suc r - k) buf_len (at (b ++ take k xs) (drop k xs ++ ys) (w ++ take k xs))
    ≡⟨ copy_raw_lem fuel (suc r - k) buf_len (drop k xs) ys (b ++ take k xs) (w ++ take k xs)
        (omega (arith, length-drop k xs)) (omega arith) p ⟩
      (ok tt, at ((b ++ take k xs) ++ drop k xs) ys ((w ++ take k xs) ++ drop k xs))
    ≡⟨ rw append_assoc (rw append_assoc (rw take-append-drop)) ⟩
      (ok tt, at (b ++ xs) ys (w ++ xs)) ∎
  where
    split : (k : ℕ) → xs ++ ys ≡ take k xs ++ (drop k xs ++ ys)
    split k =
        sym (
          sym (append_assoc (take k xs) (drop k xs) ys) ∙ ap (λ l. l ++ ys) (take-append-drop k xs))
