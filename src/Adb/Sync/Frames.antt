-- ===== src/Adb/Sync/Frames.antt =====
-- Requests and data frames on the stream.
use rusty_cortex.Base.{
  append-nil, ℕ, zero, suc, ◌<◌, List, [], ◌∷◌, ◌++◌, ◌≡◌, refl, ap, ◌∙◌, arith, length, All,
  append_assoc, length-append, le→leb, take-append, drop-append,
}
use rusty_cortex.Base.Words.{Bytes, IsU32, u32_at, to_le_bytes, from_le_bytes}
use rusty_cortex.Failure.{FlashError, ok}
use rusty_cortex.Adb.Sync.{
  Session, id_data, id_done, read_exact, read_sync_response, pull_read_failed, pull_data,
}

-- An id and a value, as the device and the host write them.
unfoldable pub pair_bytes : ℕ → ℕ → Bytes
pair_bytes id val = to_le_bytes 4 id ++ to_le_bytes 4 val

abbrev pub data_frames : List Bytes → Bytes
data_frames [] = []
data_frames (c ∷ cs) = (pair_bytes id_data (length c) ++ c) ++ data_frames cs

abbrev pub concat : List Bytes → Bytes
concat [] = []
concat (c ∷ cs) = c ++ concat cs

pub read_exact_lem :
    (e : FlashError) (n : ℕ) (xs ys : Bytes) (s : Session)
    → length xs ≡ n
    → s.incoming ≡ xs ++ ys
    → read_exact e n s ≡ (ok xs, record s { incoming = ys })
unfolding read_exact
read_exact_lem e n xs ys s h k = rw k (
    rw (le→leb n (length (xs ++ ys)) (omega (arith, length-append xs ys)))
      (rw (take-append n xs ys h) (rw (drop-append n xs ys h))))

pair_fields :
    (id val : ℕ)
    → IsU32 id
    → IsU32 val
    → (u32_at (pair_bytes id val) 0 ≡ id)
      × (u32_at (pair_bytes id val) 4 ≡ val)
      × (length (pair_bytes id val) ≡ 8)
unfolding pair_bytes to_le_bytes from_le_bytes
pair_fields id val hi hv = (omega arith, omega arith, refl)

pub read_sync_response_lem :
    (id val : ℕ) (rest : Bytes) (s : Session)
    → IsU32 id
    → IsU32 val
    → s.incoming ≡ pair_bytes id val ++ rest
    → read_sync_response s ≡ (ok (id, val), record s { incoming = rest })
unfolding read_sync_response
read_sync_response_lem id val rest s hi hv k =
    let (a, b, n) = pair_fields id val hi hv in
    rw (read_exact_lem _ 8 (pair_bytes id val) rest s n k) (rw a (rw b))

-- The loop of a pull on data frames and DONE.
pub pull_data-frames :
    (chunks : List Bytes) (fuel : ℕ) (out rest : Bytes) (val : ℕ) (s : Session)
    → All (λ c. IsU32 (length c)) chunks
    → IsU32 val
    → length chunks < fuel
    → s.incoming ≡ data_frames chunks ++ (pair_bytes id_done val ++ rest)
    → pull_data fuel out s ≡ (ok tt, out ++ concat chunks, record s { incoming = rest })
unfolding pull_data
pull_data-frames chunks zero out rest val s h hv f k = absurd (omega arith)
pull_data-frames [] (suc fuel) out rest val s h hv f k =
    rw (read_sync_response_lem id_done val rest s (omega arith) hv k) (rw (append-nil out))
pull_data-frames (c ∷ cs) (suc fuel) out rest val s (hc, h) hv f k =
    let later = data_frames cs ++ (pair_bytes id_done val ++ rest) in
    let cut : s.incoming ≡ pair_bytes id_data (length c) ++ (c ++ later) =
      k
      ∙ append_assoc (pair_bytes id_data (length c) ++ c) (data_frames cs)
          (pair_bytes id_done val ++ rest)
      ∙ append_assoc (pair_bytes id_data (length c)) c later in
    rw (read_sync_response_lem id_data (length c) (c ++ later) s (omega arith) hc cut) (
      rw
        (read_exact_lem pull_read_failed (length c) c later (record s { incoming = c ++ later })
          refl refl)
        (pull_data-frames cs fuel (out ++ c) rest val (record s { incoming = later }) h hv
            (omega arith) refl
          ∙ ap (λ (t : Bytes). (ok tt, t, record s { incoming = rest }))
              (append_assoc out c (concat cs))))
