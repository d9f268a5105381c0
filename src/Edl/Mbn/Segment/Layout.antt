-- ===== src/Edl/Mbn/Segment/Layout.antt =====
-- Hash segments as they are written, and what is read back from them.
use native.Mathlib.Nat.{add-zero}
use rusty_cortex.Base.{
  List, le→ltb, le→leb, lt→ltb, ◌==◌, ltb, append-nil, drop-append, false, ℕ, ◌+◌, ◌-◌, ◌%◌, ◌≤◌,
  ◌<◌, ◌≡◌, refl, sym, ap, ◌∙◌, arith, [], ◌∷◌, ◌++◌, some, length, drop, length-append, slice-skip,
  append_assoc, All,
}
use rusty_cortex.Base.Words.{Bytes, IsU32, IsU16, u32_at, to_le_bytes, from-to_u32, from_le_bytes}
use rusty_cortex.Edl.Mbn.Certificates.{Hashes, extract_pkhash_from_cert_chain}
use rusty_cortex.Edl.Mbn.Certificates.Chain.{
  certificate, chain, HasLength, IsRoot, key_of, extract_pkhash_from_cert_chain-root,
  length-chain-le,
}
use rusty_cortex.Edl.Mbn.Metadata.{
  Metadata, words_at, nonzero, of_version, extract_metadata, identity_of,
}
use rusty_cortex.Edl.Mbn.Metadata.Hex.{hex_text, hex_lower-hex_text}
use rusty_cortex.Edl.Mbn.Parsed.{found, attempt, sliced-inside}
use rusty_cortex.Edl.Identity.{ProgrammerIdentity, HashAlgorithm}
use rusty_cortex.Edl.Chipsets.{resolve_chipset}
use rusty_cortex.Edl.Mbn.Segment.{
  Sizes, segment_sizes, identity_behind, segment_pkhash, segment_metadata,
  extract_identity_from_hash_segment,
}

-- The parts of a hash segment. `other` are the header fields that nobody reads.
pub record Segment : Type 0 where
  pub other : ℕ → ℕ
  pub table : Bytes
  pub version : ℕ
  pub minor : ℕ
  pub sw_id : ℕ
  pub metadata : Metadata
  pub more : Bytes
  pub signature : Bytes
  pub signers : List Bytes
  pub root : Bytes

abbrev pub word : ℕ → Bytes
word v = to_le_bytes 4 v

abbrev pub certificates : Segment → Bytes
certificates s = chain (s.signers ++ (s.root ∷ []))

abbrev pub segment_header : Segment → Bytes
segment_header s =
    word (s.other 0)
    ++ (word (s.other 1)
        ++ (word (s.other 2)
            ++ (word (s.other 3)
                ++ (word (s.other 4)
                    ++ (word (length s.table)
                        ++ (word (s.other 6)
                            ++ (word (length s.signature)
                                ++ (word (s.other 8) ++ word (length (certificates s))))))))))

abbrev pub metadata_bytes : Segment → Bytes
metadata_bytes s =
    word s.version
    ++ (word s.minor
        ++ (word s.sw_id
            ++ (word s.metadata.msm_id ++ (word s.metadata.oem_id ++ word s.metadata.model_id))))

abbrev pub encode : Segment → Bytes
encode s =
    segment_header s
    ++ (s.table ++ (metadata_bytes s ++ (s.more ++ (s.signature ++ certificates s))))

pub record IsWellFormed (s : Segment) : Type 0 where
  pub table_fits : IsU32 (length s.table)
  pub signature_fits : IsU32 (length s.signature)
  pub chain_fits : IsU32 (length (certificates s))
  pub version_low : 6 ≤ s.version
  pub version_high : s.version ≤ 100
  pub msm_fits : IsU32 s.metadata.msm_id
  pub msm_pos : 0 < s.metadata.msm_id
  pub oem_fits : IsU16 s.metadata.oem_id
  pub model_fits : IsU16 s.metadata.model_id
  pub bodies_fit : All HasLength (s.signers ++ (s.root ∷ []))
  pub root_size : IsRoot (certificate s.root)

code_size_at :
    (s : Segment) (rest : Bytes)
    → IsU32 (length s.table)
    → u32_at (segment_header s ++ rest) 0x14 ≡ length s.table
unfolding to_le_bytes
code_size_at s rest fits = from-to_u32 (length s.table) fits

sig_size_at :
    (s : Segment) (rest : Bytes)
    → IsU32 (length s.signature)
    → u32_at (segment_header s ++ rest) 0x1C ≡ length s.signature
unfolding to_le_bytes
sig_size_at s rest fits = from-to_u32 (length s.signature) fits

cert_size_at :
    (s : Segment) (rest : Bytes)
    → IsU32 (length (certificates s))
    → u32_at (segment_header s ++ rest) 0x24 ≡ length (certificates s)
unfolding to_le_bytes
cert_size_at s rest fits = from-to_u32 (length (certificates s)) fits

length-segment_header : (s : Segment) → length (segment_header s) ≡ 40
unfolding to_le_bytes
length-segment_header s = refl

-- A word behind other bytes.
u32_at-behind :
    (before rest : Bytes) (i : ℕ) → u32_at (before ++ rest) (length before + i) ≡ u32_at rest i
u32_at-behind before rest i = ap from_le_bytes (slice-skip (length before) i 4 before rest refl)

u32_at-here : (before rest : Bytes) → u32_at (before ++ rest) (length before) ≡ u32_at rest 0
u32_at-here before rest =
    ap (u32_at (before ++ rest)) (sym (add-zero (length before))) ∙ u32_at-behind before rest 0

version_at :
    (s : Segment) (rest : Bytes) → s.version ≤ 100 → u32_at (metadata_bytes s ++ rest) 0 ≡ s.version
unfolding to_le_bytes
version_at s rest fits = from-to_u32 s.version (omega arith)

msm_at :
    (s : Segment) (rest : Bytes)
    → IsU32 s.metadata.msm_id
    → u32_at (metadata_bytes s ++ rest) 12 ≡ s.metadata.msm_id
unfolding to_le_bytes
msm_at s rest fits = from-to_u32 s.metadata.msm_id fits

oem_at :
    (s : Segment) (rest : Bytes)
    → IsU16 s.metadata.oem_id
    → u32_at (metadata_bytes s ++ rest) 16 ≡ s.metadata.oem_id
unfolding to_le_bytes
oem_at s rest fits = from-to_u32 s.metadata.oem_id (omega arith)

model_at :
    (s : Segment) (rest : Bytes)
    → IsU16 s.metadata.model_id
    → u32_at (metadata_bytes s ++ rest) 20 ≡ s.metadata.model_id
unfolding to_le_bytes
model_at s rest fits = from-to_u32 s.metadata.model_id (omega arith)

length-metadata_bytes : (s : Segment) → length (metadata_bytes s) ≡ 24
unfolding to_le_bytes
length-metadata_bytes s = refl

metadata_room :
    (s : Segment) (before rest : Bytes)
    → ltb (length (before ++ (metadata_bytes s ++ rest))) (length before + 24) ≡ false
metadata_room s before rest = le→ltb _ _ (
    omega (
      arith,
      length-append before (metadata_bytes s ++ rest),
      length-append (metadata_bytes s) rest,
      length-metadata_bytes s,
    ))

msm_nonzero : (s : Segment) → IsWellFormed s → (s.metadata.msm_id == 0) ≡ false
msm_nonzero s w = ground (arith, w.msm_pos)

oem_small : (s : Segment) → IsWellFormed s → s.metadata.oem_id % 65536 ≡ s.metadata.oem_id
oem_small s w = omega (arith, w.oem_fits)

model_small : (s : Segment) → IsWellFormed s → s.metadata.model_id % 65536 ≡ s.metadata.model_id
model_small s w = omega (arith, w.model_fits)

-- The last slice of the metadata lies inside.
metadata_inside :
    (s : Segment) (before rest : Bytes)
    → length before + 24 ≤ length (before ++ (metadata_bytes s ++ rest))
metadata_inside s before rest = omega (
  arith,
  length-append before (metadata_bytes s ++ rest),
  length-append (metadata_bytes s) rest,
  length-metadata_bytes s,
)

words_at-behind :
    (s : Segment) (before rest : Bytes) (w : IsWellFormed s)
    → words_at (before ++ (metadata_bytes s ++ rest)) (length before) ≡ s.metadata
words_at-behind s before rest w = rw (
  u32_at-behind before (metadata_bytes s ++ rest) 12,
  msm_at s rest w.msm_fits,
  u32_at-behind before (metadata_bytes s ++ rest) 16,
  oem_at s rest w.oem_fits,
  u32_at-behind before (metadata_bytes s ++ rest) 20,
  model_at s rest w.model_fits,
  oem_small s w,
  model_small s w,
)

nonzero-found : (s : Segment) → IsWellFormed s → nonzero s.metadata ≡ found s.metadata
nonzero-found s w = rw (msm_nonzero s w)

of_version-found :
    (s : Segment) (before rest : Bytes) (w : IsWellFormed s)
    → of_version (before ++ (metadata_bytes s ++ rest)) (length before) s.version ≡ found s.metadata
of_version-found s before rest w =
    rw
      (
        le→leb 6 s.version w.version_low,
        le→leb s.version 100 w.version_high,
        sliced-inside (before ++ (metadata_bytes s ++ rest)) (length before + 24)
            (words_at (before ++ (metadata_bytes s ++ rest)) (length before))
            (metadata_inside s before rest),
      )
      (ap nonzero (words_at-behind s before rest w) ∙ nonzero-found s w)

major_at :
    (s : Segment) (before rest : Bytes)
    → IsWellFormed s
    → u32_at (before ++ (metadata_bytes s ++ rest)) (length before) ≡ s.version
major_at s before rest w =
    u32_at-here before (metadata_bytes s ++ rest) ∙ version_at s rest w.version_high

-- The metadata behind any bytes.
extract_metadata-behind :
    (s : Segment) (before rest : Bytes) (w : IsWellFormed s)
    → extract_metadata (before ++ (metadata_bytes s ++ rest)) (length before) ≡ found s.metadata
unfolding extract_metadata
extract_metadata-behind s before rest w =
    rw
      (
        metadata_room s before rest,
        sliced-inside (before ++ (metadata_bytes s ++ rest)) (length before + 4)
            (u32_at (before ++ (metadata_bytes s ++ rest)) (length before))
            (omega (arith, metadata_inside s before rest)),
        major_at s before rest w,
      )
      (of_version-found s before rest w)

-- What stands before the certificates.
abbrev body : Segment → Bytes
body s = segment_header s ++ (s.table ++ (metadata_bytes s ++ (s.more ++ s.signature)))

encode-body : (s : Segment) → encode s ≡ body s ++ certificates s
encode-body s = simp append_assoc

length-body :
    (s : Segment) → length (body s) ≡ 64 + length s.table + length s.more + length s.signature
length-body s = omega (
  arith,
  length-segment_header s,
  length-metadata_bytes s,
  length-append (segment_header s) (s.table ++ (metadata_bytes s ++ (s.more ++ s.signature))),
  length-append s.table (metadata_bytes s ++ (s.more ++ s.signature)),
  length-append (metadata_bytes s) (s.more ++ s.signature),
  length-append s.more s.signature,
)

length-encode : (s : Segment) → length (encode s) ≡ length (body s) + length (certificates s)
length-encode s = ap length (encode-body s) ∙ length-append (body s) (certificates s)

drop-body :
    (s : Segment) → drop (length (encode s) - length (certificates s)) (encode s) ≡ certificates s
drop-body s =
    ap (drop (length (encode s) - length (certificates s))) (encode-body s)
    ∙ drop-append _ (body s) (certificates s) (omega (arith, length-encode s))

segment_pkhash-last :
    (h : Hashes) (segment : Bytes) (c n : ℕ)
    → 0 < n
    → n ≤ length segment
    → segment_pkhash h segment c n
      ≡ extract_pkhash_from_cert_chain h (drop (length segment - n) segment)
unfolding segment_pkhash
segment_pkhash-last h segment c n pos inside = rw (lt→ltb 0 n pos, le→leb n (length segment) inside)

segment_metadata-at :
    (segment : Bytes) (c g n : ℕ)
    → 64 + c + g + n ≤ length segment
    → segment_metadata segment c g n ≡ attempt (extract_metadata segment (40 + c))
unfolding segment_metadata
segment_metadata-at segment c g n room =
    rw (le→leb 24 (length segment - (40 + c + g + n)) (omega arith))

certificates-pos : (s : Segment) → 0 < length (certificates s)
certificates-pos s = omega (
  arith,
  length-chain-le (s.signers ++ (s.root ∷ [])) [],
  length-append s.signers (s.root ∷ []),
  ap length (append-nil (certificates s)),
)

segment_pkhash-encode :
    (h : Hashes) (s : Segment) (c : ℕ)
    → IsWellFormed s
    → segment_pkhash h (encode s) c (length (certificates s)) ≡ some (key_of h (certificate s.root))
segment_pkhash-encode h s c w =
    segment_pkhash-last h (encode s) c (length (certificates s)) (certificates-pos s)
      (omega (arith, length-encode s))
    ∙ ap (extract_pkhash_from_cert_chain h) (drop-body s ∙ sym (append-nil (certificates s)))
    ∙ extract_pkhash_from_cert_chain-root h s.signers s.root [] w.bodies_fit w.root_size refl

table_end : (s : Segment) → 40 + length s.table ≡ length (segment_header s ++ s.table)
table_end s = omega (arith, length-append (segment_header s) s.table, length-segment_header s)

same_metadata :
    {xs ys : Bytes} {i j : ℕ} → xs ≡ ys → i ≡ j → extract_metadata xs i ≡ extract_metadata ys j
same_metadata same at = cc

segment_metadata-encode :
    (s : Segment)
    → IsWellFormed s
    → segment_metadata (encode s) (length s.table) (length s.signature) (length (certificates s))
      ≡ found (some s.metadata)
segment_metadata-encode s w =
    segment_metadata-at (encode s) _ _ _ (omega (arith, length-encode s, length-body s))
    ∙ ap attempt (
        same_metadata (sym (append_assoc (segment_header s) s.table _)) (table_end s)
        ∙ extract_metadata-behind s (segment_header s ++ s.table)
            (s.more ++ (s.signature ++ certificates s)) w)

three_sizes : {a b c x y z : ℕ} → a ≡ x → b ≡ y → c ≡ z → ◌≡◌ {A = Sizes} (a, b, c) (x, y, z)
three_sizes p q r = λ i. (p i, q i, r i)

segment_sizes-encode :
    (s : Segment)
    → IsWellFormed s
    → segment_sizes (encode s) ≡ found (length s.table, length s.signature, length (certificates s))
unfolding segment_sizes
segment_sizes-encode s w =
    sliced-inside (encode s) 0x28 _ (omega (arith, length-encode s, length-body s))
    ∙ ap found (
        three_sizes (code_size_at s _ w.table_fits) (sig_size_at s _ w.signature_fits)
          (cert_size_at s _ w.chain_fits))

-- What is to be known of a written segment: the ids of its metadata, as numbers and in hexadecimal,
-- the name of the chip and the hash of the root certificate.
abbrev pub identity : Hashes → Segment → ProgrammerIdentity
identity h s = record {
  hw_id =
      hex_text 8 s.metadata.msm_id
      ++ (hex_text 4 s.metadata.oem_id ++ hex_text 4 s.metadata.model_id);
  pk_hash = (key_of h (certificate s.root)).0;
  hash_algorithm = (key_of h (certificate s.root)).1;
  msm_id = s.metadata.msm_id;
  oem_id = s.metadata.oem_id;
  model_id = s.metadata.model_id;
  chipset = resolve_chipset s.metadata.msm_id;
  hwid_from_filename = false;
}

-- The identity of a segment, from a key hash of any kind.
abbrev with_key : Segment → List ℕ × HashAlgorithm → ProgrammerIdentity
with_key s key = record {
  hw_id =
      hex_text 8 s.metadata.msm_id
      ++ (hex_text 4 s.metadata.oem_id ++ hex_text 4 s.metadata.model_id);
  pk_hash = key.0;
  hash_algorithm = key.1;
  msm_id = s.metadata.msm_id;
  oem_id = s.metadata.oem_id;
  model_id = s.metadata.model_id;
  chipset = resolve_chipset s.metadata.msm_id;
  hwid_from_filename = false;
}

identity_of-with_key :
    (s : Segment) (key : List ℕ × HashAlgorithm)
    → identity_of (some s.metadata) key ≡ with_key s key
unfolding identity_of
identity_of-with_key s (pk_hash, algorithm) =
    rw
      (
        hex_lower-hex_text 8 s.metadata.msm_id,
        hex_lower-hex_text 4 s.metadata.oem_id,
        hex_lower-hex_text 4 s.metadata.model_id,
      )
      refl

identity_of-identity :
    (h : Hashes) (s : Segment)
    → identity_of (some s.metadata) (key_of h (certificate s.root)) ≡ identity h s
identity_of-identity h s = identity_of-with_key s (key_of h (certificate s.root))

identity_behind-encode :
    (h : Hashes) (s : Segment)
    → IsWellFormed s
    → identity_behind h (encode s) (length s.table, length s.signature, length (certificates s))
      ≡ found (identity h s)
unfolding identity_behind
identity_behind-encode h s w =
    rw (segment_pkhash-encode h s (length s.table) w, segment_metadata-encode s w)
      (ap found (identity_of-identity h s))

-- A hash segment that is written with a chain of certificates and metadata gives back its
-- identity: the three ids, as numbers and as sixteen hexadecimal digits, the chip that
-- `resolve_chipset` names for the first id, and the hash of the root certificate (its SHA-256 where
-- the bytes of the identifier sha256WithRSAEncryption occur in it, and its SHA-384 otherwise). The
-- sizes must fit their fields, the version lie between 6 and 100, the chip id not be 0, and the root
-- certificate have between 100 and 10240 bytes.
pub extract_identity_from_hash_segment-encode :
    (h : Hashes) (s : Segment)
    → IsWellFormed s
    → extract_identity_from_hash_segment h (encode s) ≡ found (identity h s)
unfolding extract_identity_from_hash_segment
extract_identity_from_hash_segment-encode h s w =
    rw
      (
        le→ltb (length (encode s)) 40 (omega (arith, length-encode s, length-body s)),
        segment_sizes-encode s w,
      )
      (identity_behind-encode h s w)
