-- ===== src/Adb/Message/Laws.antt =====
-- What is built is parsed back.
use rusty_cortex.Base.{
  length-take, ◌⊎◌, take-append, ℕ, ◌+◌, ◌-◌, ◌%◌, ◌^◌, ◌≤◌, min, [], ◌∷◌, ◌++◌, ◌≡◌, refl, arith,
  ◌==◌, length, drop, drop-append, le→ltb, length-append, ==_refl, Bool-cases, inl, inr,
}
use rusty_cortex.Base.Words.{Bytes, IsU32, u32_at, to_le_bytes, from_le_bytes}
use rusty_cortex.Failure.{ok}
use rusty_cortex.Adb.Message.{
  sum_from, AdbMessage, adb_checksum, magic_of, build_header, checked_message, parse_message,
  adb_header_size,
}

-- The fields are 32-bit numbers and the payload's length is one too.
pub record IsFrame (m : AdbMessage) : Type 0 where
  pub command_fits : IsU32 m.command
  pub arg0_fits : IsU32 m.arg0
  pub arg1_fits : IsU32 m.arg1
  pub length_fits : IsU32 (length m.payload)

abbrev pub header_of : AdbMessage → Bytes
header_of m = build_header m.command m.arg0 m.arg1 m.payload

sum_from-IsU32 : (acc : ℕ) (bs : Bytes) → IsU32 acc → IsU32 (sum_from acc bs)
sum_from-IsU32 acc [] h = h
sum_from-IsU32 acc (b ∷ bs) h = sum_from-IsU32 ((acc + b) % 2 ^ 32) bs (omega arith)

pub adb_checksum-IsU32 : (bs : Bytes) → IsU32 (adb_checksum bs)
unfolding adb_checksum
adb_checksum-IsU32 bs = sum_from-IsU32 0 bs (omega arith)

pub length-build_header : (c a b : ℕ) (p : Bytes) → length (build_header c a b p) ≡ 24
unfolding build_header to_le_bytes
length-build_header c a b p = refl

-- The fields of a header, with anything behind it.
pub header_fields :
    (m : AdbMessage) (rest : Bytes)
    → IsFrame m
    → (u32_at (header_of m ++ rest) 0 ≡ m.command)
      × (u32_at (header_of m ++ rest) 4 ≡ m.arg0)
      × (u32_at (header_of m ++ rest) 8 ≡ m.arg1)
      × (u32_at (header_of m ++ rest) 12 ≡ length m.payload)
      × (u32_at (header_of m ++ rest) 16 ≡ adb_checksum m.payload)
      × (u32_at (header_of m ++ rest) 20 ≡ magic_of m.command)
unfolding build_header to_le_bytes from_le_bytes magic_of
header_fields m rest f = (
  omega (arith, f.command_fits),
  omega (arith, f.arg0_fits),
  omega (arith, f.arg1_fits),
  omega (arith, f.length_fits),
  omega (arith, adb_checksum-IsU32 m.payload),
  omega (arith, f.command_fits),
)

pub checked_message_own : (m : AdbMessage) → checked_message (adb_checksum m.payload) m ≡ ok m
unfolding checked_message
checked_message_own m = elim (Bool-cases (adb_checksum m.payload == 0)) [
  | inl zeroed ↦ rw zeroed
  | inr other ↦ rw other (rw (==_refl (adb_checksum m.payload)))
]

-- `parse_message` reads back the header that `build_header` wrote together with the payload, and
-- ignores what stands behind it.
pub parse_message-build_header :
    (m : AdbMessage) (rest : Bytes)
    → IsFrame m
    → parse_message (header_of m ++ (m.payload ++ rest)) ≡ ok m
unfolding parse_message
parse_message-build_header m rest f =
    let (c, a, b, l, s, g) = header_fields m (m.payload ++ rest) f in
    let n : length (header_of m ++ (m.payload ++ rest)) ≡ 24 + (length m.payload + length rest) =
      omega (
        arith,
        length-append (header_of m) (m.payload ++ rest),
        length-append m.payload rest,
        length-build_header m.command m.arg0 m.arg1 m.payload,
      ) in
    let k : min (length m.payload) (24 + (length m.payload + length rest) - 24) ≡ length m.payload =
      omega arith in
    rw n (
      rw c (
        rw a (
          rw b (
            rw l (
              rw s (
                rw g (
                  rw (==_refl (magic_of m.command)) (
                    rw k (
                      rw
                        (drop-append 24 (header_of m) (m.payload ++ rest)
                          (length-build_header m.command m.arg0 m.arg1 m.payload))
                        (rw (take-append (length m.payload) m.payload rest refl) (
                          rw (le→ltb (24 + (length m.payload + length rest)) 24 (omega arith))
                            (checked_message_own m))))))))))))

-- A message that `parse_message` accepts has the magic number of its command, and its payload matches
-- the checksum field unless that is zero.
pub parse_message-checked :
    (raw : Bytes) {m : AdbMessage}
    → parse_message raw ≡ ok m
    → (adb_header_size ≤ length raw)
      × (u32_at raw 20 ≡ magic_of m.command)
      × ((u32_at raw 16 ≡ 0) ⊎ (adb_checksum m.payload ≡ u32_at raw 16))
      × (length m.payload ≤ u32_at raw 12)
unfolding parse_message checked_message
parse_message-checked raw e = ground (
  arith,
  length-take (min (u32_at raw 12) (length raw - adb_header_size)) (drop adb_header_size raw),
)
