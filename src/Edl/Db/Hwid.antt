-- ===== src/Edl/Db/Hwid.antt =====
-- `normalize_hwid_to_bkerler`.
use rusty_cortex.Base.{
  take-all, le→leb, length-append, ℕ, suc, ◌+◌, ◌*◌, ◌/◌, ◌%◌, ◌<◌, ◌≡◌, refl, sym, arith, [], ◌∷◌,
  ◌++◌, Option, none, some, leb, if◌then◌else◌, length, take, take-append, append_assoc, All,
}
use rusty_cortex.Base.Words.{Bytes, IsByte, from_le_bytes}
use rusty_cortex.Edl.Mbn.Metadata.{hex_lower}
use rusty_cortex.Edl.Db.{Text}

abbrev first16 : Text → Text
first16 s = if leb 16 (length s) then take 16 s else s

abbrev pub swapped : Text → Option Bytes → Text
swapped hex_str none = hex_str
swapped hex_str (some bytes) =
    if leb 8 (length bytes) then hex_lower 16 (from_le_bytes (take 8 bytes)) else hex_str

-- `hex::decode` of the crate hex is an argument; `none` stands for its error.
unfoldable pub normalize_hwid_to_bkerler : (Text → Text) → (Text → Option Bytes) → Text → Text
normalize_hwid_to_bkerler to_lowercase hex_decode raw_hex =
    swapped (to_lowercase raw_hex) (hex_decode (first16 (to_lowercase raw_hex)))

-- Two hexadecimal digits for each byte, in turn and from the last to the first.
abbrev pub hex_text : Bytes → Text
hex_text [] = []
hex_text (b ∷ bs) = hex_lower 2 b ++ hex_text bs

abbrev pub hex_text_back : Bytes → Text
hex_text_back [] = []
hex_text_back (b ∷ bs) = hex_text_back bs ++ hex_lower 2 b

abbrev twice : Bytes → ℕ
twice [] = 0
twice (b ∷ bs) = suc (suc (twice bs))

next_bytes : (b w : ℕ) → b < 256 → (b + 256 * w) / 16 / 16 ≡ w
next_bytes b w small = omega arith

high_digit : (b w : ℕ) → b < 256 → (b + 256 * w) / 16 % 16 ≡ b / 16 % 16
high_digit b w small = omega arith

low_digit : (b w : ℕ) → b < 256 → (b + 256 * w) % 16 ≡ b % 16
low_digit b w small = omega arith

hex_lower-from_le_bytes :
    (bs : Bytes) → All IsByte bs → hex_lower (twice bs) (from_le_bytes bs) ≡ hex_text_back bs
unfolding hex_lower from_le_bytes
hex_lower-from_le_bytes [] small = refl
hex_lower-from_le_bytes (b ∷ bs) (h, small) =
    rw
      (
        next_bytes b (from_le_bytes bs) h,
        high_digit b (from_le_bytes bs) h,
        low_digit b (from_le_bytes bs) h,
        hex_lower-from_le_bytes bs small,
      )
      (append_assoc (hex_text_back bs) _ _)

length-hex_text : (bs : Bytes) → length (hex_text bs) ≡ twice bs
unfolding hex_lower
length-hex_text [] = refl
length-hex_text (b ∷ bs) = omega (arith, length-hex_text bs)

twice-length : (bs : Bytes) → twice bs ≡ length bs + length bs
twice-length [] = refl
twice-length (b ∷ bs) = omega (arith, twice-length bs)

twice_eight : (bs : Bytes) → length bs ≡ 8 → twice bs ≡ 16
twice_eight bs eight = omega (arith, twice-length bs)

first16-bytes :
    (bs : Bytes) (more : Text) → length bs ≡ 8 → first16 (hex_text bs ++ more) ≡ hex_text bs
first16-bytes bs more eight =
    rw
      (le→leb 16 (length (hex_text bs ++ more))
        (omega (arith, length-append (hex_text bs) more, length-hex_text bs, twice_eight bs eight)))
      (take-append 16 (hex_text bs) more (omega (arith, length-hex_text bs, twice_eight bs eight)))

-- A raw HWID that is at least eight bytes in hexadecimal becomes those eight bytes from the last
-- to the first, whatever follows them.
pub normalize_hwid_to_bkerler-bytes :
    (to_lowercase : Text → Text) (hex_decode : Text → Option Bytes) (raw : Text) (bs : Bytes)
    (more : Text)
    → to_lowercase raw ≡ hex_text bs ++ more
    → length bs ≡ 8
    → All IsByte bs
    → hex_decode (hex_text bs) ≡ some bs
    → normalize_hwid_to_bkerler to_lowercase hex_decode raw ≡ hex_text_back bs
unfolding normalize_hwid_to_bkerler
normalize_hwid_to_bkerler-bytes to_lowercase hex_decode raw bs more lowered eight small decodes =
    rw
      (
        lowered,
        first16-bytes bs more eight,
        decodes,
        le→leb 8 (length bs) (omega arith),
        take-all 8 bs (omega arith),
        sym (twice_eight bs eight),
      )
      (hex_lower-from_le_bytes bs small)
