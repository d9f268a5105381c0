-- ===== src/Edl/Mbn/Filename/Names.antt =====
-- File names that are made from an identity, and what is read back from them.
use rusty_cortex.Base.{
  if_elim, ℕ, zero, suc, ◌+◌, ◌*◌, ◌/◌, ◌%◌, ◌^◌, ◌<◌, ◌≡◌, refl, ◌∙◌, arith, List, [], ◌∷◌, ◌++◌,
  true, false, ◌&&◌, ◌==◌, if◌then◌else◌, length, take, slice, codes, starts_with, map, All,
  All-append, append_assoc, append-nil,
}
use native.Mathlib.Nat.{pow-suc}
use rusty_cortex.Adb.Banner.{before_first, split, split_from}
use rusty_cortex.Edl.Identity.{ProgrammerIdentity}
use rusty_cortex.Edl.Chipsets.{resolve_chipset}
use rusty_cortex.Edl.Mbn.Metadata.{Metadata, hex_lower, hex_lower_digit}
use rusty_cortex.Edl.Mbn.Filename.{
  enrich_from_filename, with_hwid, resolved_id, is_hex_digit, all_hex, digit_value, radix16_from,
  radix16, lower, first_part,
}

-- A digit of a number in lower case.
abbrev IsDigit : ℕ → Type 0
IsDigit c = (d : ℕ) × (d < 16) × (c ≡ hex_lower_digit d)

hex_lower-IsDigit : (n v : ℕ) → All IsDigit (hex_lower n v)
unfolding hex_lower
hex_lower-IsDigit zero v = tt
hex_lower-IsDigit (suc n) v =
    All-append IsDigit (hex_lower n (v / 16)) _ (hex_lower-IsDigit n (v / 16))
      ((v % 16, omega arith, refl), tt)

digit_value-digit : (d : ℕ) → d < 16 → digit_value (hex_lower_digit d) ≡ d
unfolding digit_value hex_lower_digit
digit_value-digit d small = ground arith

is_hex-digit : (c : ℕ) → IsDigit c → is_hex_digit c ≡ true
unfolding is_hex_digit hex_lower_digit
is_hex-digit c (d, small, same) = ground arith

lower-digit : (c : ℕ) → IsDigit c → lower c ≡ c
unfolding lower hex_lower_digit
lower-digit c (d, small, same) = ground arith

ne-digit : (c : ℕ) → IsDigit c → ((c == b'.') ≡ false) × ((c == b'_') ≡ false)
unfolding hex_lower_digit
ne-digit c (d, small, same) = ground arith

all_hex-digits : (s : List ℕ) → All IsDigit s → all_hex s ≡ true
unfolding all_hex
all_hex-digits [] digits = refl
all_hex-digits (c ∷ s) (digit, digits) = rw (is_hex-digit c digit) (all_hex-digits s digits)

lower-digits : (s : List ℕ) → All IsDigit s → map lower s ≡ s
lower-digits [] digits = refl
lower-digits (c ∷ s) (digit, digits) = rw (lower-digit c digit, lower-digits s digits)

radix16_from-append :
    (n : ℕ) (s t : List ℕ) → radix16_from n (s ++ t) ≡ radix16_from (radix16_from n s) t
unfolding radix16_from
radix16_from-append n [] t = refl
radix16_from-append n (c ∷ s) t = radix16_from-append (n * 16 + digit_value c) s t

radix16_from-nil : (n : ℕ) → radix16_from n [] ≡ n
unfolding radix16_from
radix16_from-nil n = refl

radix16_from-one : (n c : ℕ) → radix16_from n (c ∷ []) ≡ n * 16 + digit_value c
unfolding radix16_from
radix16_from-one n c = refl

radix16-hex_lower : (n v : ℕ) → v < 16 ^ n → radix16 (hex_lower n v) ≡ v
unfolding hex_lower
radix16-hex_lower zero v small = radix16_from-nil 0 ∙ omega arith
radix16-hex_lower (suc n) v small =
    radix16_from-append 0 (hex_lower n (v / 16)) _
    ∙ radix16_from-one _ _
    ∙ rw
        (
          radix16-hex_lower n (v / 16) (omega (arith, pow-suc 16 n)),
          digit_value-digit (v % 16) (omega arith),
        )
        (omega arith)

before_first-digits :
    (s t : List ℕ)
    → All IsDigit s
    → before_first (codes ".") (s ++ t) ≡ s ++ before_first (codes ".") t
unfolding before_first starts_with
before_first-digits [] t digits = refl
before_first-digits (c ∷ s) t (digit, digits) =
    rw ((ne-digit c digit).0, before_first-digits s t digits)

split_from-digits :
    (piece s t : List ℕ)
    → All IsDigit s
    → split_from b'_' piece (s ++ (b'_' ∷ t)) ≡ (piece ++ s) ∷ split_from b'_' [] t
split_from-digits piece [] t digits = rw (append-nil piece)
split_from-digits piece (c ∷ s) t (digit, digits) = rw (
  (ne-digit c digit).1,
  split_from-digits (piece ++ (c ∷ [])) s t digits,
  append_assoc piece (c ∷ []) s,
)

-- The text of the three ids.
abbrev pub hwid_text : Metadata → List ℕ
hwid_text m = hex_lower 8 m.msm_id ++ (hex_lower 4 m.oem_id ++ hex_lower 4 m.model_id)

hwid_text-IsDigit : (m : Metadata) → All IsDigit (hwid_text m)
hwid_text-IsDigit m = All-append IsDigit (hex_lower 8 m.msm_id) _ (hex_lower-IsDigit 8 m.msm_id) (
    All-append IsDigit (hex_lower 4 m.oem_id) _ (hex_lower-IsDigit 4 m.oem_id)
      (hex_lower-IsDigit 4 m.model_id))

-- An id of three bytes and the ids of the maker and the model.
abbrev pub IsShort : Metadata → Type 0
IsShort m = (m.msm_id < 2 ^ 24) × (m.oem_id < 2 ^ 16) × (m.model_id < 2 ^ 16)

inner_text : (m : Metadata) → slice (hwid_text m) 2 6 ≡ hex_lower 6 m.msm_id
unfolding hex_lower
inner_text m = refl

full_text : (m : Metadata) → take 8 (hwid_text m) ≡ hex_lower 8 m.msm_id
unfolding hex_lower
full_text m = refl

oem_text : (m : Metadata) → slice (hwid_text m) 8 4 ≡ hex_lower 4 m.oem_id
unfolding hex_lower
oem_text m = refl

model_text : (m : Metadata) → slice (hwid_text m) 12 4 ≡ hex_lower 4 m.model_id
unfolding hex_lower
model_text m = refl

length-hwid_text : (m : Metadata) → (length (hwid_text m) == 16) ≡ true
unfolding hex_lower
length-hwid_text m = refl

resolved_id-same : (n : ℕ) → resolved_id n n ≡ n
unfolding resolved_id
resolved_id-same n = ground arith

-- The identity with the ids of a metadata block, marked as read from the name of the file.
abbrev pub renamed : Metadata → ProgrammerIdentity → ProgrammerIdentity
renamed m identity = record {
  hw_id = hwid_text m;
  pk_hash = identity.pk_hash;
  hash_algorithm = identity.hash_algorithm;
  msm_id = m.msm_id;
  oem_id = m.oem_id;
  model_id = m.model_id;
  chipset = resolve_chipset m.msm_id;
  hwid_from_filename = true;
}

with_hwid-text :
    (m : Metadata) (identity : ProgrammerIdentity)
    → IsShort m
    → with_hwid (hwid_text m) identity ≡ renamed m identity
unfolding with_hwid
with_hwid-text m identity (msm, oem, model) = rw (
  inner_text m,
  full_text m,
  oem_text m,
  model_text m,
  radix16-hex_lower 6 m.msm_id msm,
  radix16-hex_lower 8 m.msm_id (omega arith),
  radix16-hex_lower 4 m.oem_id oem,
  radix16-hex_lower 4 m.model_id model,
  resolved_id-same m.msm_id,
  lower-digits (hwid_text m) (hwid_text-IsDigit m),
)

before_first-rest :
    (s : List ℕ) → before_first (codes ".") (b'_' ∷ s) ≡ b'_' ∷ before_first (codes ".") s
unfolding before_first starts_with
before_first-rest s = refl

split_from-two :
    (hwid piece s : List ℕ) (identity : ProgrammerIdentity)
    → first_part (hwid ∷ split_from b'_' piece s) identity
      ≡ (if length hwid == 16 && all_hex hwid then with_hwid hwid identity else identity)
split_from-two hwid piece [] identity = refl
split_from-two hwid piece (c ∷ s) identity =
    if_elim
      (λ parts.
        first_part (hwid ∷ parts) identity
        ≡ (if length hwid == 16 && all_hex hwid then with_hwid hwid identity else identity))
      (c == b'_') (piece ∷ split_from b'_' [] s) (split_from b'_' (piece ++ (c ∷ [])) s) refl
      (split_from-two hwid (piece ++ (c ∷ [])) s identity)

-- A file name that begins with the text of the ids and an underscore, whatever follows it, gives
-- the ids back, with the name of the chip; the key hash stays. The chip id must be below 2 ^ 24.
pub enrich_from_filename-text :
    (m : Metadata) (identity : ProgrammerIdentity) (rest : List ℕ)
    → IsShort m
    → enrich_from_filename (hwid_text m ++ (b'_' ∷ rest)) identity ≡ renamed m identity
unfolding enrich_from_filename split
enrich_from_filename-text m identity rest short =
    rw
      (
        before_first-digits (hwid_text m) (b'_' ∷ rest) (hwid_text-IsDigit m),
        before_first-rest rest,
        split_from-digits [] (hwid_text m) (before_first (codes ".") rest) (hwid_text-IsDigit m),
        split_from-two (hwid_text m) [] (before_first (codes ".") rest) identity,
        length-hwid_text m,
        all_hex-digits (hwid_text m) (hwid_text-IsDigit m),
      )
      (with_hwid-text m identity short)
