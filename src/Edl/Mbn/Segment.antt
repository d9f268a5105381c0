-- ===== src/Edl/Mbn/Segment.antt =====
-- `extract_identity_from_hash_segment` and `parse_mbn_identity`.
pub mod Layout
use rusty_cortex.Base.{
  ℕ, ◌+◌, ◌-◌, Option, none, some, ◌&&◌, ltb, leb, if◌then◌else◌, length, drop, min, List,
}
use rusty_cortex.Base.Words.{Bytes, u32_at}
use rusty_cortex.Edl.Mbn.Parsed.{Parsed, found, absent, ◌>>=◌, of_option, sliced, attempt}
use rusty_cortex.Edl.Identity.{HashAlgorithm, ProgrammerIdentity}
use rusty_cortex.Edl.Mbn.Certificates.{
  Hashes, extract_pkhash_from_cert_chain, find_and_extract_pkhash,
}
use rusty_cortex.Edl.Mbn.Metadata.{Metadata, extract_metadata, identity_of}

abbrev pub hash_seg_header_size : ℕ
hash_seg_header_size = 40

-- The key hash: of the chain that ends the segment, or of the first chain behind the table.
unfoldable pub segment_pkhash : Hashes → Bytes → ℕ → ℕ → Option (List ℕ × HashAlgorithm)
unfolding extract_pkhash_from_cert_chain find_and_extract_pkhash
segment_pkhash h segment code_size cert_size =
    if ltb 0 cert_size && leb cert_size (length segment)
    then extract_pkhash_from_cert_chain h (drop (length segment - cert_size) segment)
    else find_and_extract_pkhash h segment (min (hash_seg_header_size + code_size) (length segment))

unfoldable pub segment_metadata : Bytes → ℕ → ℕ → ℕ → Parsed (Option Metadata)
unfolding extract_metadata
segment_metadata segment code_size sig_size cert_size =
    let metadata_size =
      length segment - (hash_seg_header_size + code_size + sig_size + cert_size) in
    if leb 24 metadata_size
    then attempt (extract_metadata segment (hash_seg_header_size + code_size))
    else found none

-- The three sizes of the segment's header; the last slice ends at 0x28.
abbrev pub Sizes : Type 0
Sizes = ℕ × ℕ × ℕ

unfoldable pub segment_sizes : Bytes → Parsed Sizes
segment_sizes segment =
    sliced segment 0x28 (u32_at segment 0x14, u32_at segment 0x1C, u32_at segment 0x24)

-- From the sizes on: without a key hash there is no identity, and the metadata is not looked for.
unfoldable pub identity_behind : Hashes → Bytes → Sizes → Parsed ProgrammerIdentity
unfolding segment_pkhash segment_metadata identity_of
identity_behind h segment (code_size, sig_size, cert_size) =
    of_option (segment_pkhash h segment code_size cert_size) >>= λ key.
    segment_metadata segment code_size sig_size cert_size >>= λ metadata.
    found (identity_of metadata key)

unfoldable pub extract_identity_from_hash_segment : Hashes → Bytes → Parsed ProgrammerIdentity
unfolding segment_sizes identity_behind
extract_identity_from_hash_segment h segment =
    let read = segment_sizes segment >>= identity_behind h segment in
    if ltb (length segment) hash_seg_header_size then absent else read

-- The header of an MBN file stands behind a prefix of 12 bytes.
abbrev pub header_start : ℕ
header_start = 0x0C

unfoldable pub mbn_pkhash : Hashes → Bytes → ℕ → ℕ → Option (List ℕ × HashAlgorithm)
unfolding extract_pkhash_from_cert_chain find_and_extract_pkhash
mbn_pkhash h bytes code_sz cert_sz =
    if ltb 0 cert_sz && ltb cert_sz (length bytes)
    then extract_pkhash_from_cert_chain h (drop (length bytes - cert_sz) bytes)
    else find_and_extract_pkhash h bytes (min (header_start + 40 + code_sz) (length bytes))

-- The two sizes that are used; the last slice ends at the end of the header.
unfoldable pub mbn_sizes : Bytes → Parsed (ℕ × ℕ)
mbn_sizes bytes =
    sliced bytes (header_start + 40)
      (u32_at bytes (header_start + 20), u32_at bytes (header_start + 36))

unfoldable pub mbn_behind : Hashes → Bytes → ℕ × ℕ → Parsed ProgrammerIdentity
unfolding mbn_pkhash extract_metadata identity_of
mbn_behind h bytes (code_sz, cert_sz) = of_option (mbn_pkhash h bytes code_sz cert_sz) >>= λ key.
    attempt (extract_metadata bytes (header_start + 40 + code_sz)) >>= λ metadata.
    found (identity_of metadata key)

unfoldable pub parse_mbn_identity : Hashes → Bytes → Parsed ProgrammerIdentity
unfolding mbn_sizes mbn_behind
parse_mbn_identity h bytes =
    let read = mbn_sizes bytes >>= mbn_behind h bytes in
    if ltb (length bytes) (header_start + 40) then absent else read
