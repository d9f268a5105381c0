-- ===== src/Edl/Mbn/Metadata.antt =====
-- `extract_metadata`, and the identity that is made of what was read.
pub mod Hex
use rusty_cortex.Base.{
  ◌-◌, ℕ, zero, suc, ◌+◌, ◌/◌, ◌%◌, List, [], ◌∷◌, ◌++◌, Option, none, some, false, not, ◌&&◌, ◌||◌,
  ◌==◌, ltb, leb, if◌then◌else◌, length,
}
use rusty_cortex.Base.Words.{Bytes, u32_at}
use rusty_cortex.Edl.Mbn.Parsed.{Parsed, found, absent, sliced, ◌>>=◌}
use rusty_cortex.Edl.Identity.{HashAlgorithm, ProgrammerIdentity}
use rusty_cortex.Edl.Chipsets.{resolve_chipset}

pub record Metadata : Type 0 where
  pub msm_id : ℕ
  pub oem_id : ℕ
  pub model_id : ℕ

abbrev min_metadata_version : ℕ
min_metadata_version = 6

abbrev pub nonzero : Metadata → Parsed Metadata
nonzero m = if m.msm_id == 0 then absent else found m

abbrev pub words_at : Bytes → ℕ → Metadata
words_at bytes offset = record {
  msm_id = u32_at bytes (offset + 12);
  oem_id = u32_at bytes (offset + 16) % 65536;
  model_id = u32_at bytes (offset + 20) % 65536;
}

abbrev pub of_version : Bytes → ℕ → ℕ → Parsed Metadata
of_version bytes offset major =
    let read = sliced bytes (offset + 24) (words_at bytes offset) >>= nonzero in
    if leb min_metadata_version major && leb major 100 then read else absent

unfoldable pub extract_metadata : Bytes → ℕ → Parsed Metadata
extract_metadata bytes offset =
    let read = sliced bytes (offset + 4) (u32_at bytes offset) >>= of_version bytes offset in
    if ltb (length bytes) (offset + 24) then absent else read

unfoldable pub hex_lower_digit : ℕ → ℕ
hex_lower_digit d = if ltb d 10 then b'0' + d else b'a' + d - 10

-- `{:0nx}` of a number below 16 ^ n.
unfoldable pub hex_lower : ℕ → ℕ → List ℕ
unfolding hex_lower_digit
hex_lower zero v = []
hex_lower (suc n) v = hex_lower n (v / 16) ++ (hex_lower_digit (v % 16) ∷ [])

unfoldable pub identity_of : Option Metadata → List ℕ × HashAlgorithm → ProgrammerIdentity
identity_of none (pk_hash, algorithm) = record {
  hw_id = [];
  pk_hash = pk_hash;
  hash_algorithm = algorithm;
  msm_id = 0;
  oem_id = 0;
  model_id = 0;
  chipset = none;
  hwid_from_filename = false;
}
identity_of (some m) (pk_hash, algorithm) = record {
  hw_id = hex_lower 8 m.msm_id ++ (hex_lower 4 m.oem_id ++ hex_lower 4 m.model_id);
  pk_hash = pk_hash;
  hash_algorithm = algorithm;
  msm_id = m.msm_id;
  oem_id = m.oem_id;
  model_id = m.model_id;
  chipset = resolve_chipset m.msm_id;
  hwid_from_filename = false;
}
