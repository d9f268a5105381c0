-- ===== src/Adb/Logcat/Chunks.antt =====
-- The parser gives the same entries however the transport cuts the log.
use rusty_cortex.Base.{
  length-drop, ltb→lt, ltb→ge, take-append_le, ℕ, zero, suc, ◌+◌, ◌≤◌, ◌<◌, List, [], ◌∷◌, ◌++◌,
  ◌≡◌, refl, sym, ap, ◌∙◌, arith, ltb, length, drop, take, map, All, Bool-cases, inl, inr,
  length-append, append_assoc, drop-append, take-append, le→ltb, le→leb, lt→ltb, drop-append_le,
  take-append-drop,
}
use rusty_cortex.Base.Words.{Bytes, u16_at}
use rusty_cortex.Failure.{ok}
use rusty_cortex.Adb.Logcat.{
  LogcatEntry, max_buf_size, from_u8, or_verbose, front_entry, push_front, joined, parse_loop, feed,
  feed_all,
}
use rusty_cortex.Adb.Logcat.Records.{
  LogRecord, IsRecord, log_payload, encode_record, encode_log, parse_payload-text, record_fields,
  length-encode_record, record_payload,
}

abbrev pub concat : List Bytes → Bytes
concat [] = []
concat (c ∷ cs) = c ++ concat cs

-- The buffer holds less than the next record.
abbrev Partial : List LogRecord → Bytes → Type 0
Partial [] buf = buf ≡ []
Partial (r ∷ rs) buf = length buf < length (encode_record r)

header_prefix :
    (a b : Bytes)
    → 4 ≤ length a
    → (u16_at (a ++ b) 0 ≡ u16_at a 0) × (u16_at (a ++ b) 2 ≡ u16_at a 2)
header_prefix (w ∷ x ∷ y ∷ z ∷ a) b h = (refl, refl)
header_prefix (w ∷ x ∷ y ∷ []) b h = absurd (omega arith)
header_prefix (w ∷ x ∷ []) b h = absurd (omega arith)
header_prefix (w ∷ []) b h = absurd (omega arith)
header_prefix [] b h = absurd (omega arith)

-- Two ways to cut the same bytes, the first behind the second cut.
drop_cut : (a b c d : Bytes) → a ++ b ≡ c ++ d → length c ≤ length a → drop (length c) a ++ b ≡ d
drop_cut a b c d e h =
    sym (drop-append_le (length c) a b h) ∙ ap (drop (length c)) e ∙ drop-append (length c) c d refl

take_cut : (a b c d : Bytes) → a ++ b ≡ c ++ d → length c ≤ length a → c ++ drop (length c) a ≡ a
take_cut a b c d e h =
    ap (λ (t : Bytes). t ++ drop (length c) a)
      (sym (take-append (length c) c d refl)
        ∙ ap (take (length c)) (sym e)
        ∙ take-append_le (length c) a b h)
    ∙ take-append-drop (length c) a

map-append {ℓ κ} :
    {A : Type ℓ} {B : Type κ} (f : A → B) (xs ys : List A) → map f (xs ++ ys) ≡ map f xs ++ map f ys
map-append f [] ys = refl
map-append f (x ∷ xs) ys = ap (◌∷◌ (f x)) (map-append f xs ys)

length-encode_log :
    (as_ bs : List LogRecord) → length (encode_log bs) ≤ length (encode_log (as_ ++ bs))
length-encode_log [] bs = omega arith
length-encode_log (a ∷ as_) bs =
    omega
      (arith, length-encode_log as_ bs, length-append (encode_record a) (encode_log (as_ ++ bs)))

front_empty : (a b : Bytes) → a ++ b ≡ [] → a ≡ []
front_empty [] b e = refl
front_empty (x ∷ a) b e = cc

module _ (from_utf8_lossy : Bytes → List ℕ) where
  abbrev pub log_entry : LogRecord → LogcatEntry
  log_entry r = record {
    pid = r.pid;
    tid = r.tid;
    sec = r.sec;
    nsec = r.nsec;
    priority = or_verbose (from_u8 r.level);
    tag = from_utf8_lossy r.tag;
    message = from_utf8_lossy r.message;
  }

  front_entry-record :
      (r : LogRecord) (rest : Bytes)
      → IsRecord r
      → front_entry from_utf8_lossy (encode_record r ++ rest) ≡ ok (log_entry r)
  unfolding front_entry
  front_entry-record r rest v =
      let (n, size, pid, tid, sec, nsec) = record_fields r rest v in
      rw n (
        rw size (
          rw (record_payload r rest) (
            rw (parse_payload-text r.level r.tag r.message v.tag_text v.message_text)
              (rw pid (rw tid (rw sec (rw nsec)))))))

  parse_loop-record :
      (fuel : ℕ) (r : LogRecord) (rest : Bytes)
      → IsRecord r
      → parse_loop from_utf8_lossy (suc fuel) (encode_record r ++ rest)
        ≡ push_front
            (encode_record r ++ rest)
            (ok (log_entry r))
            (parse_loop from_utf8_lossy fuel rest)
  unfolding parse_loop
  parse_loop-record fuel r rest v =
      let whole = encode_record r ++ rest in
      let (n, size, pid, tid, sec, nsec) = record_fields r rest v in
      let k : length whole ≡ 20 + length r.extra + length (log_payload r) + length rest =
        omega (arith, length-append (encode_record r) rest, length-encode_record r) in
      let total = 20 + length r.extra + length (log_payload r) in
      rw n (
        rw size (
          rw (le→ltb (length whole) 4 (omega arith)) (
            rw (le→leb 20 (20 + length r.extra) (omega arith)) (
              rw (le→leb (20 + length r.extra) 64 (omega (arith, v.extra_fits))) (
                rw (le→ltb (length whole) total (omega arith)) (
                  rw (front_entry-record r rest v)
                    (rw (drop-append total (encode_record r) rest (length-encode_record r)))))))))

  parse_loop-Partial :
      (fuel : ℕ) (rs : List LogRecord) (buf rest : Bytes)
      → All IsRecord rs
      → buf ++ rest ≡ encode_log rs
      → Partial rs buf
      → parse_loop from_utf8_lossy fuel buf ≡ (ok [], buf)
  unfolding parse_loop
  parse_loop-Partial zero rs buf rest vs e p = refl
  parse_loop-Partial (suc fuel) [] buf rest vs e p = rw p
  parse_loop-Partial (suc fuel) (r ∷ rs) buf rest (v, vs) e p =
      elim (Bool-cases (ltb (length buf) 4)) [
        | inl short ↦ rw short
        | inr long ↦
            let (n, size, pid, tid, sec, nsec) = record_fields r (encode_log rs) v in
            let (at0, at2) = header_prefix buf rest (ltb→ge (length buf) 4 long) in
            let n' : u16_at buf 0 ≡ length (log_payload r) =
              sym at0 ∙ ap (λ (t : Bytes). u16_at t 0) e ∙ n in
            let size' : u16_at buf 2 ≡ 20 + length r.extra =
              sym at2 ∙ ap (λ (t : Bytes). u16_at t 2) e ∙ size in
            let total = 20 + length r.extra + length (log_payload r) in
            rw long (
              rw n' (
                rw size' (
                  rw (le→leb 20 (20 + length r.extra) (omega arith)) (
                    rw (le→leb (20 + length r.extra) 64 (omega (arith, v.extra_fits)))
                      (rw (lt→ltb (length buf) total (omega (arith, length-encode_record r))))))))
      ]

  -- What a run of the loop on a part of the log has parsed, and what it has left.
  record Parsed (rs : List LogRecord) (buf rest : Bytes) (fuel : ℕ) : Type 0 where
    done : List LogRecord
    left : List LogRecord
    tail : Bytes
    splits : rs ≡ done ++ left
    runs : parse_loop from_utf8_lossy fuel buf ≡ (ok (map log_entry done), tail)
    cut : tail ++ rest ≡ encode_log left
    is_partial : Partial left tail
    are_records : All IsRecord left

  Parsed-more :
      (r : LogRecord) (rs : List LogRecord) (buf rest : Bytes) (fuel : ℕ)
      → IsRecord r
      → encode_record r ++ drop (length (encode_record r)) buf ≡ buf
      → Parsed rs (drop (length (encode_record r)) buf) rest fuel
      → Parsed (r ∷ rs) buf rest (suc fuel)
  Parsed-more r rs buf rest fuel v e p = record {
    done = r ∷ p.done;
    left = p.left;
    tail = p.tail;
    splits = ap (◌∷◌ r) p.splits;
    runs =
        ap (parse_loop from_utf8_lossy (suc fuel)) (sym e)
        ∙ parse_loop-record fuel r (drop (length (encode_record r)) buf) v
        ∙ ap
            (push_front (encode_record r ++ drop (length (encode_record r)) buf) (ok (log_entry r)))
            p.runs;
    cut = p.cut;
    is_partial = p.is_partial;
    are_records = p.are_records;
  }

  parse_loop-Parsed :
      (rs : List LogRecord) (buf rest : Bytes) (fuel : ℕ)
      → All IsRecord rs
      → buf ++ rest ≡ encode_log rs
      → length buf ≤ fuel
      → Parsed rs buf rest fuel
  unfolding parse_loop
  parse_loop-Parsed [] buf rest fuel vs e h = record {
    done = [];
    left = [];
    tail = buf;
    splits = refl;
    runs = parse_loop-Partial fuel [] buf rest tt e (front_empty buf rest e);
    cut = e;
    is_partial = front_empty buf rest e;
    are_records = tt;
  }
  parse_loop-Parsed (r ∷ rs) buf rest zero (v, vs) e h = record {
    done = [];
    left = r ∷ rs;
    tail = buf;
    splits = refl;
    runs = refl;
    cut = e;
    is_partial = omega (arith, length-encode_record r);
    are_records = (v, vs);
  }
  parse_loop-Parsed (r ∷ rs) buf rest (suc fuel) (v, vs) e h =
      elim (Bool-cases (ltb (length buf) (length (encode_record r)))) [
        | inl less ↦ record {
          done = [];
          left = r ∷ rs;
          tail = buf;
          splits = refl;
          runs =
              parse_loop-Partial (suc fuel) (r ∷ rs) buf rest (v, vs) e
                (ltb→lt (length buf) (length (encode_record r)) less);
          cut = e;
          is_partial = ltb→lt (length buf) (length (encode_record r)) less;
          are_records = (v, vs);
        }
        | inr enough ↦
            let n = length (encode_record r) in
            let long : n ≤ length buf = ltb→ge (length buf) n enough in
            Parsed-more r rs buf rest fuel v
              (take_cut buf rest (encode_record r) (encode_log rs) e long)
              (parse_loop-Parsed rs (drop n buf) rest fuel vs
                (drop_cut buf rest (encode_record r) (encode_log rs) e long)
                (omega (arith, length-drop n buf, length-encode_record r)))
      ]

  joined-ok :
      (done left : List LogRecord) (tail : Bytes)
      → joined (ok (map log_entry done)) (ok (map log_entry left), tail)
        ≡ (ok (map log_entry (done ++ left)), tail)
  joined-ok done left tail =
      ap (λ (es : List LogcatEntry). (ok es, tail)) (sym (map-append log_entry done left))

  feed-fits :
      (buf piece : Bytes)
      → length (buf ++ piece) ≤ max_buf_size
      → feed from_utf8_lossy buf piece
        ≡ parse_loop from_utf8_lossy (length (buf ++ piece)) (buf ++ piece)
  unfolding feed
  feed-fits buf piece h = rw (le→ltb max_buf_size (length (buf ++ piece)) h)

  feed_all-left :
      (pieces : List Bytes) (rs : List LogRecord) (buf : Bytes)
      → All IsRecord rs
      → buf ++ concat pieces ≡ encode_log rs
      → Partial rs buf
      → length (encode_log rs) ≤ max_buf_size
      → feed_all from_utf8_lossy buf pieces ≡ (ok (map log_entry rs), [])
  unfolding feed_all
  feed_all-left [] [] buf vs e p b = rw p
  feed_all-left [] (r ∷ rs) buf vs e p b = absurd (
      omega
        (arith, ap length e, length-append buf [], length-append (encode_record r) (encode_log rs)))
  feed_all-left (c ∷ cs) rs buf vs e p b =
      let cut : (buf ++ c) ++ concat cs ≡ encode_log rs = append_assoc buf c (concat cs) ∙ e in
      let small : length (buf ++ c) ≤ max_buf_size =
        omega (arith, ap length cut, length-append (buf ++ c) (concat cs)) in
      let q =
        parse_loop-Parsed rs (buf ++ c) (concat cs) (length (buf ++ c)) vs cut (omega arith) in
      let later = feed_all-left cs q.left q.tail q.are_records q.cut q.is_partial (
        omega (
          arith,
          length-encode_log q.done q.left,
          ap (λ (t : List LogRecord). length (encode_log t)) q.splits,
        )) in
      rw (feed-fits buf c small) (rw q.runs (rw later (joined-ok q.done q.left [] ∙ rw q.splits)))

  empty-Partial : (rs : List LogRecord) → Partial rs []
  empty-Partial [] = refl
  empty-Partial (r ∷ rs) = omega (arith, length-encode_record r)

  -- A log of valid records of at most 1 MiB, cut into any pieces: the calls of `feed` on the pieces
  -- together return one entry for each record, in order, none of them aborts, and the buffer is empty
  -- at the end.
  pub feed_all-encode_log :
      (pieces : List Bytes) (rs : List LogRecord)
      → All IsRecord rs
      → concat pieces ≡ encode_log rs
      → length (encode_log rs) ≤ max_buf_size
      → feed_all from_utf8_lossy [] pieces ≡ (ok (map log_entry rs), [])
  feed_all-encode_log pieces rs vs e b = feed_all-left pieces rs [] vs e (empty-Partial rs) b
