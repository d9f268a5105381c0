-- ===== src/Adb/Logcat/Records.antt =====
-- Log records on the wire, and what the parser finds in one of them.
use rusty_cortex.Base.{
  ℕ, ◌+◌, ◌-◌, ◌≤◌, ◌<◌, true, List, [], ◌∷◌, ◌++◌, ◌≡◌, refl, ap, ◌∙◌, arith, ltb, length, slice,
  All, length-append, append_assoc, drop-append, take-append, slice-skip, lt→ltb,
}
use rusty_cortex.Base.Words.{Bytes, IsU16, IsU32, u16_at, u32_at, to_le_bytes, from_le_bytes}
use rusty_cortex.Failure.{ok}
use rusty_cortex.Adb.Logcat.{some, from_u8, or_verbose, position_zero, end_from, parse_payload}

-- A record on the wire: the bytes of its header behind the fixed fields are `extra`, four of them in
-- version 3 and none in version 1.
pub record LogRecord : Type 0 where
  pub pid : ℕ
  pub tid : ℕ
  pub sec : ℕ
  pub nsec : ℕ
  pub extra : Bytes
  pub level : ℕ
  pub tag : Bytes
  pub message : Bytes

abbrev pub log_payload : LogRecord → Bytes
log_payload r = r.level ∷ (r.tag ++ (0 ∷ (r.message ++ (0 ∷ []))))

abbrev IsNonZero : ℕ → Type 0
IsNonZero b = 0 < b

pub record IsRecord (r : LogRecord) : Type 0 where
  pub pid_fits : IsU32 r.pid
  pub tid_fits : IsU32 r.tid
  pub sec_fits : IsU32 r.sec
  pub nsec_fits : IsU32 r.nsec
  pub extra_fits : length r.extra ≤ 44
  pub payload_fits : IsU16 (length (log_payload r))
  pub tag_text : All IsNonZero r.tag
  pub message_text : All IsNonZero r.message

abbrev fixed_fields : LogRecord → Bytes
fixed_fields r =
    to_le_bytes 2 (length (log_payload r))
    ++ (to_le_bytes 2 (20 + length r.extra)
        ++ (to_le_bytes 4 r.pid
            ++ (to_le_bytes 4 r.tid ++ (to_le_bytes 4 r.sec ++ to_le_bytes 4 r.nsec))))

unfoldable pub encode_record : LogRecord → Bytes
encode_record r = fixed_fields r ++ (r.extra ++ log_payload r)

abbrev pub encode_log : List LogRecord → Bytes
encode_log [] = []
encode_log (r ∷ rs) = encode_record r ++ encode_log rs

position_zero-text :
    (text rest : Bytes)
    → All IsNonZero text
    → position_zero (text ++ (0 ∷ rest)) ≡ some (length text)
unfolding position_zero
position_zero-text [] rest h = refl
position_zero-text (b ∷ bs) rest (p, h) = ground (arith, position_zero-text bs rest h)

end_from-text :
    (front text rest : Bytes)
    → All IsNonZero text
    → end_from (front ++ (text ++ (0 ∷ rest))) (length front) ≡ length front + length text
unfolding end_from
end_from-text front text rest h =
    rw (drop-append (length front) front (text ++ (0 ∷ rest)) refl)
      (rw (position_zero-text text rest h))

-- A text between a front and its terminator.
slice-text :
    (front text rest : Bytes) → slice (front ++ (text ++ rest)) (length front) (length text) ≡ text
slice-text front text rest =
    rw (drop-append (length front) front (text ++ rest) refl)
      (take-append (length text) text rest refl)

pub parse_payload-text :
    (p : ℕ) (tag message : Bytes)
    → All IsNonZero tag
    → All IsNonZero message
    → parse_payload (p ∷ (tag ++ (0 ∷ (message ++ (0 ∷ [])))))
      ≡ ok (or_verbose (from_u8 p), tag, message)
unfolding parse_payload
parse_payload-text p tag message h k =
    let whole = p ∷ (tag ++ (0 ∷ (message ++ (0 ∷ [])))) in
    let front = p ∷ (tag ++ (0 ∷ [])) in
    let same : front ++ (message ++ (0 ∷ [])) ≡ whole =
      ap (◌∷◌ p) (append_assoc tag (0 ∷ []) (message ++ (0 ∷ []))) in
    let n : length front ≡ length tag + 2 = omega (arith, length-append tag (0 ∷ [])) in
    let tag_end : end_from whole 1 ≡ 1 + length tag =
      end_from-text (p ∷ []) tag (message ++ (0 ∷ [])) h in
    let size : length whole ≡ length tag + length message + 3 =
      omega
        (arith, length-append tag (0 ∷ (message ++ (0 ∷ []))), length-append message (0 ∷ [])) in
    let inside : ltb (1 + length tag) (length whole) ≡ true =
      lt→ltb (1 + length tag) (length whole) (omega arith) in
    let start : 1 + length tag + 1 ≡ length front = omega arith in
    let msg_end : end_from whole (length front) ≡ length front + length message =
      rw same at (end_from-text front message [] k) in
    let m : length front + length message - length front ≡ length message = omega arith in
    let t : 1 + length tag - 1 ≡ length tag = omega arith in
    let a : slice whole 1 (length tag) ≡ tag =
      slice-text (p ∷ []) tag (0 ∷ (message ++ (0 ∷ []))) in
    let b : slice whole (length front) (length message) ≡ message =
      rw same at (slice-text front message (0 ∷ [])) in
    rw tag_end (rw inside (rw start (rw msg_end (rw m (rw t (rw a (rw b)))))))

pub record_fields :
    (r : LogRecord) (rest : Bytes)
    → IsRecord r
    → (u16_at (encode_record r ++ rest) 0 ≡ length (log_payload r))
      × (u16_at (encode_record r ++ rest) 2 ≡ 20 + length r.extra)
      × (u32_at (encode_record r ++ rest) 4 ≡ r.pid)
      × (u32_at (encode_record r ++ rest) 8 ≡ r.tid)
      × (u32_at (encode_record r ++ rest) 12 ≡ r.sec)
      × (u32_at (encode_record r ++ rest) 16 ≡ r.nsec)
unfolding encode_record to_le_bytes from_le_bytes
record_fields r rest v = (
  omega (arith, v.payload_fits),
  omega (arith, v.extra_fits),
  omega (arith, v.pid_fits),
  omega (arith, v.tid_fits),
  omega (arith, v.sec_fits),
  omega (arith, v.nsec_fits),
)

pub length-encode_record :
    (r : LogRecord) → length (encode_record r) ≡ 20 + length r.extra + length (log_payload r)
unfolding encode_record to_le_bytes
length-encode_record r = omega (arith, length-append r.extra (log_payload r))

pub record_payload :
    (r : LogRecord) (rest : Bytes)
    → slice (encode_record r ++ rest) (20 + length r.extra) (length (log_payload r)) ≡ log_payload r
unfolding encode_record
record_payload r rest = rw (append_assoc (fixed_fields r) (r.extra ++ log_payload r) rest) (
    rw (append_assoc r.extra (log_payload r) rest) (
      slice-skip 20 (length r.extra) (length (log_payload r)) (fixed_fields r)
        (r.extra ++ (log_payload r ++ rest)) (unfold to_le_bytes in refl)
      ∙ slice-text r.extra (log_payload r) rest))
