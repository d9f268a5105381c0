-- ===== src/Edl/Mbn/Filename.antt =====
-- `enrich_from_filename` and `parse_programmer_identity`.
pub mod Names
use rusty_cortex.Base.{
  ℕ, ◌+◌, ◌-◌, ◌*◌, List, [], ◌∷◌, Option, none, some, Bool, true, false, not, ◌&&◌, ◌||◌, ◌==◌,
  ltb, leb, if◌then◌else◌, length, slice, take, codes, map,
}
use rusty_cortex.Base.Words.{Bytes}
use rusty_cortex.Adb.Banner.{before_first, split}
use rusty_cortex.Edl.Identity.{ProgrammerIdentity}
use rusty_cortex.Edl.Chipsets.{resolve_chipset}
use rusty_cortex.Edl.Mbn.Parsed.{Parsed, found, absent, panic, ◌>>=◌, of_option}
use rusty_cortex.Edl.Mbn.Certificates.{Hashes}
use rusty_cortex.Edl.Mbn.Elf.{parse_programmer_identity_from_bytes}

abbrev between : ℕ → ℕ → ℕ → Bool
between low high c = leb low c && leb c high

-- `char::is_ascii_hexdigit`.
unfoldable pub is_hex_digit : ℕ → Bool
is_hex_digit c = between b'0' b'9' c || (between b'a' b'f' c || between b'A' b'F' c)

unfoldable pub all_hex : List ℕ → Bool
unfolding is_hex_digit
all_hex [] = true
all_hex (c ∷ s) = is_hex_digit c && all_hex s

-- The value of a hexadecimal digit.
unfoldable pub digit_value : ℕ → ℕ
digit_value c = if leb c b'9' then c - b'0' else if leb c b'F' then c - b'A' + 10 else c - b'a' + 10

unfoldable pub radix16_from : ℕ → List ℕ → ℕ
unfolding digit_value
radix16_from n [] = n
radix16_from n (c ∷ s) = radix16_from (n * 16 + digit_value c) s

-- `u32::from_str_radix(s, 16)` on at most eight hexadecimal digits.
abbrev pub radix16 : List ℕ → ℕ
radix16 s = radix16_from 0 s

-- `to_lowercase` on ASCII.
unfoldable pub lower : ℕ → ℕ
lower c = if leb b'A' c && leb c b'Z' then c + 32 else c

abbrev pub is_some {ℓ} : {A : Type ℓ} → Option A → Bool
is_some none = false
is_some (some a) = true

-- Which of the two readings of the chip id is kept.
unfoldable pub resolved_id : ℕ → ℕ → ℕ
resolved_id inner full =
    if ltb 0 inner && is_some (resolve_chipset inner)
    then inner
    else if is_some (resolve_chipset full)
    then full
    else if ltb 0 inner
    then inner
    else full

unfoldable pub with_hwid : List ℕ → ProgrammerIdentity → ProgrammerIdentity
with_hwid hwid identity =
    let id = resolved_id (radix16 (slice hwid 2 6)) (radix16 (take 8 hwid)) in
    record {
      hw_id = map lower hwid;
      pk_hash = identity.pk_hash;
      hash_algorithm = identity.hash_algorithm;
      msm_id = id;
      oem_id = radix16 (slice hwid 8 4);
      model_id = radix16 (slice hwid 12 4);
      chipset = resolve_chipset id;
      hwid_from_filename = true;
    }

abbrev pub first_part : List (List ℕ) → ProgrammerIdentity → ProgrammerIdentity
first_part (hwid ∷ next ∷ more) identity =
    if length hwid == 16 && all_hex hwid then with_hwid hwid identity else identity
first_part _ identity = identity

-- `rsplit('.').next_back()` is the text before the first dot.
unfoldable pub enrich_from_filename : List ℕ → ProgrammerIdentity → ProgrammerIdentity
unfolding with_hwid all_hex before_first split
enrich_from_filename filename identity =
    first_part (split b'_' (before_first (codes ".") filename)) identity

abbrev named : Option (List ℕ) → ProgrammerIdentity → ProgrammerIdentity
named none identity = identity
named (some fname) identity = enrich_from_filename fname identity

abbrev is_empty : List ℕ → Bool
is_empty [] = true
is_empty (c ∷ s) = false

-- On what the file system says of the path: its size, its contents and the name of the file.
unfoldable pub parse_programmer_identity :
    Hashes → Option ℕ → Option Bytes → Option (List ℕ) → Parsed ProgrammerIdentity
unfolding parse_programmer_identity_from_bytes enrich_from_filename
parse_programmer_identity h size contents name = of_option size >>= λ len.
    (if ltb (50 * 1024 * 1024) len then absent else of_option contents) >>= λ bytes.
    parse_programmer_identity_from_bytes h bytes >>= λ identity.
    found (if is_empty identity.hw_id then named name identity else identity)
