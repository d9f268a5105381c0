-- ===== src/Runs/Programmers.antt =====
-- A small hash segment, a file name and a database with one device.
use rusty_cortex.Base.{
  ℕ, ◌+◌, ◌-◌, ◌/◌, ◌%◌, ◌≤◌, ◌≡◌, ◌≢◌, refl, arith, [], ◌∷◌, ◌++◌, none, some, length, replicate,
  if◌then◌else◌, ◌==◌, slice,
}
use rusty_cortex.Base.Words.{Bytes, from_le_bytes}
use rusty_cortex.Edl.Identity.{sha384, ProgrammerIdentity}
use rusty_cortex.Edl.Chipsets.{resolve_chipset, chipset_name, sochw_name}
use rusty_cortex.Edl.Chipsets.Keys.{resolve_chipset_lem}
use rusty_cortex.Edl.Mbn.Parsed.{found, panic, sliced}
use rusty_cortex.Edl.Mbn.Certificates.{Hashes, walk, extract_pkhash_from_cert_chain}
use rusty_cortex.Edl.Mbn.Certificates.Der.{der_length}
use rusty_cortex.Edl.Mbn.Certificates.Chain.{
  certificate, chain, key_of, extract_pkhash_from_cert_chain-root,
}
use rusty_cortex.Edl.Mbn.Certificates.Fuel.{walk-enough}
use rusty_cortex.Edl.Mbn.Metadata.{Metadata, identity_of}
use rusty_cortex.Edl.Mbn.Segment.{extract_identity_from_hash_segment}
use rusty_cortex.Edl.Mbn.Segment.Layout.{
  identity, Segment, encode, IsWellFormed, extract_identity_from_hash_segment-encode,
}
use rusty_cortex.Edl.Mbn.Elf.{
  class64, parse_elf_class, parse_elf_identity, parse_programmer_identity_from_bytes,
}
use rusty_cortex.Edl.Mbn.Elf.Safety.{parse_elf_class-Safe, parse_elf_identity-panics}

abbrev hashes : Hashes
hashes = record { sha256_hex = λ cert. slice cert 0 2; sha384_hex = λ cert. slice cert 2 2 }

abbrev root_body : Bytes
root_body = replicate 120 7

abbrev signer_body : Bytes
signer_body = replicate 3 9

abbrev ids : Metadata
ids = record { msm_id = 0x0A50E1; oem_id = 0x72; model_id = 5 }

abbrev segment : Segment
segment = record {
  other = λ i. i;
  table = 1 ∷ 2 ∷ 3 ∷ [];
  version = 6;
  minor = 0;
  sw_id = 3;
  metadata = ids;
  more = [];
  signature = 4 ∷ 5 ∷ [];
  signers = signer_body ∷ [];
  root = root_body;
}

segment-IsWellFormed : IsWellFormed segment
unfolding der_length
segment-IsWellFormed = record {
  table_fits = omega arith;
  signature_fits = omega arith;
  chain_fits = omega arith;
  version_low = omega arith;
  version_high = omega arith;
  msm_fits = omega arith;
  msm_pos = omega arith;
  oem_fits = omega arith;
  model_fits = omega arith;
  bodies_fit = (omega arith, (omega arith, tt));
  root_size = (omega arith, omega arith);
}

extract_identity_from_hash_segment-encode_example :
    extract_identity_from_hash_segment hashes (encode segment) ≡ found (identity hashes segment)
extract_identity_from_hash_segment-encode_example =
    extract_identity_from_hash_segment-encode hashes segment segment-IsWellFormed

extract_pkhash_from_cert_chain-root_example :
    extract_pkhash_from_cert_chain hashes (chain (signer_body ∷ root_body ∷ []) ++ (0xFF ∷ []))
    ≡ some (key_of hashes (certificate root_body))
extract_pkhash_from_cert_chain-root_example =
    extract_pkhash_from_cert_chain-root hashes (signer_body ∷ []) root_body (0xFF ∷ [])
      segment-IsWellFormed.bodies_fit segment-IsWellFormed.root_size refl

chain_short : length (chain (signer_body ∷ root_body ∷ [])) - 0 ≤ 127
unfolding der_length
chain_short = omega arith

walk-enough_example :
    walk (127 + 5) (chain (signer_body ∷ root_body ∷ [])) 0 []
    ≡ walk 127 (chain (signer_body ∷ root_body ∷ [])) 0 []
walk-enough_example = walk-enough 127 5 (chain (signer_body ∷ root_body ∷ [])) 0 [] chain_short

resolve_chipset_lem_example : resolve_chipset 0x600C0000 ≡ (
    if 0x600C0000 % 256 == 0xE1 then chipset_name 0x600C0000 else sochw_name (0x600C0000 / 65536))
resolve_chipset_lem_example = resolve_chipset_lem 0x600C0000

-- A file of 64 bytes whose table of one entry of size `n` begins at `at`.
abbrev elf_file : ℕ → ℕ → Bytes
elf_file n at =
    (0x7F ∷ 0x45 ∷ 0x4C ∷ 0x46 ∷ 2 ∷ replicate 27 0)
    ++ ((at ∷ replicate 21 0) ++ (n ∷ 0 ∷ 1 ∷ replicate 7 0))

parse_elf_identity-panics_example : parse_elf_identity hashes (elf_file 0 64) ≡ panic
unfolding from_le_bytes
parse_elf_identity-panics_example =
    parse_elf_identity-panics hashes (elf_file 0 64) class64 (omega arith) refl refl refl
      (omega arith)

parse_elf_class-Safe_example : parse_elf_class hashes (elf_file 56 8) class64 ≢ panic
unfolding from_le_bytes
parse_elf_class-Safe_example = parse_elf_class-Safe hashes (elf_file 56 8) class64 (omega arith)

-- An MBN file: a prefix of zeros, the header with the sizes, and a chain.
abbrev mbn_file : Bytes
mbn_file = replicate 48 0 ++ ((122 ∷ 0 ∷ 0 ∷ 0 ∷ []) ++ (0x30 ∷ 120 ∷ replicate 120 7))

mbn_identity : ProgrammerIdentity
mbn_identity = identity_of none (7 ∷ 7 ∷ [], sha384)

mbn_file_read : parse_programmer_identity_from_bytes hashes mbn_file ≡ found mbn_identity
unfolding parse_programmer_identity_from_bytes mbn_identity sliced
mbn_file_read = refl
