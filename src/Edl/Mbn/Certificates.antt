-- ===== src/Edl/Mbn/Certificates.antt =====
-- `der_read_length`, `extract_pkhash_from_cert_chain` and `find_and_extract_pkhash`.
pub mod Der
pub mod Chain
pub mod Fuel
use rusty_cortex.Base.{
  ℕ, zero, suc, ◌+◌, ◌-◌, ◌*◌, ◌%◌, ◌^◌, List, [], ◌∷◌, ◌++◌, Option, none, some, Bool, not, ◌||◌,
  ◌==◌, ltb, leb, if◌then◌else◌, length, take, drop, slice, get_or, contains,
}
use rusty_cortex.Base.Words.{Bytes}
use rusty_cortex.Edl.Identity.{HashAlgorithm, sha256, sha384}

-- The hash functions, their digests in hexadecimal: `hex::encode` over the crate sha2.
pub record Hashes : Type 0 where
  pub sha256_hex : Bytes → List ℕ
  pub sha384_hex : Bytes → List ℕ

abbrev pub der_sequence_tag : ℕ
der_sequence_tag = 0x30

abbrev pub sha256_rsa_oid : Bytes
sha256_rsa_oid = 0x2A ∷ 0x86 ∷ 0x48 ∷ 0x86 ∷ 0xF7 ∷ 0x0D ∷ 0x01 ∷ 0x01 ∷ 0x0B ∷ []

-- `contains_bytes` is `contains` on bytes.
unfoldable pub detect_hash_algorithm : Bytes → HashAlgorithm
unfolding contains
detect_hash_algorithm cert = if contains cert sha256_rsa_oid then sha256 else sha384

-- The loop over the bytes of a long length. A shift by 8 never fails on a usize; the sum may.
unfoldable pub long_length : ℕ → Bytes → Option ℕ
long_length n [] = some n
long_length n (b ∷ bs) =
    let next = n * 256 % 2 ^ 64 + b in
    let rest = long_length next bs in if ltb next (2 ^ 64) then rest else none

abbrev pub with_header : ℕ → Option ℕ → Option (ℕ × ℕ)
with_header header none = none
with_header header (some n) = some (n, header)

-- The length that begins with the byte `first` at `offset`, and the size of tag and length.
unfoldable pub der_length_from : Bytes → ℕ → ℕ → Option (ℕ × ℕ)
unfolding long_length
der_length_from bytes offset first =
    let num_bytes = first % 128 in
    if ltb first 0x80
    then some (first, 2)
    else if first == 0x80
    then none
    else if ltb 4 num_bytes || ltb (length bytes) (offset + 1 + num_bytes)
    then none
    else with_header (2 + num_bytes) (long_length 0 (slice bytes (offset + 1) num_bytes))

unfoldable pub der_read_length : Bytes → ℕ → Option (ℕ × ℕ)
unfolding der_length_from
der_read_length bytes offset =
    if leb (length bytes) offset then none else der_length_from bytes offset (get_or bytes offset 0)

-- The `while` loop. Every turn moves `pos` on, so that as much fuel as there are bytes is enough.
unfoldable pub walk : ℕ → Bytes → ℕ → List Bytes → Option (List Bytes)
unfolding der_read_length
walk zero bytes pos certs = some certs
walk (suc fuel) bytes pos certs =
    if leb (length bytes) pos || not (get_or bytes pos 0 == der_sequence_tag)
    then some certs
    else elim (der_read_length bytes (pos + 1)) [
      | none ↦ none
      | some (total_len, header_len) ↦
          let cert_end = pos + header_len + total_len in
          let more = walk fuel bytes cert_end (certs ++ (slice bytes pos (cert_end - pos) ∷ [])) in
          if ltb (length bytes) cert_end then some certs else more
    ]

-- `certs.last()`.
abbrev pub last : List Bytes → Option Bytes
last [] = none
last (c ∷ []) = some c
last (c ∷ d ∷ cs) = last (d ∷ cs)

abbrev pub digest : Hashes → HashAlgorithm → Bytes → List ℕ
digest h sha256 cert = h.sha256_hex cert
digest h sha384 cert = h.sha384_hex cert

abbrev pub hash_root : Hashes → Option Bytes → Option (List ℕ × HashAlgorithm)
hash_root h none = none
hash_root h (some root) =
    let algorithm = detect_hash_algorithm root in
    if ltb (length root) 100 || ltb 10240 (length root)
    then none
    else some (digest h algorithm root, algorithm)

abbrev hash_last : Hashes → Option (List Bytes) → Option (List ℕ × HashAlgorithm)
hash_last h none = none
hash_last h (some certs) = hash_root h (last certs)

unfoldable pub extract_pkhash_from_cert_chain : Hashes → Bytes → Option (List ℕ × HashAlgorithm)
unfolding walk detect_hash_algorithm
extract_pkhash_from_cert_chain h bytes = hash_last h (walk (length bytes) bytes 0 [])

-- The `for` loop over `turns` start positions from `i` on.
unfoldable pub search_from : Hashes → Bytes → ℕ → ℕ → Option (List ℕ × HashAlgorithm)
unfolding extract_pkhash_from_cert_chain
search_from h bytes i zero = none
search_from h bytes i (suc turns) =
    let rest = search_from h bytes (suc i) turns in
    if get_or bytes i 0 == der_sequence_tag
    then elim (extract_pkhash_from_cert_chain h (drop i bytes)) [
      | none ↦ rest
      | some result ↦ some result
    ]
    else rest

unfoldable pub find_and_extract_pkhash : Hashes → Bytes → ℕ → Option (List ℕ × HashAlgorithm)
unfolding search_from
find_and_extract_pkhash h bytes search_start =
    search_from h bytes search_start (length bytes - 4 - search_start)
