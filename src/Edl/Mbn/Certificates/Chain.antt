-- ===== src/Edl/Mbn/Certificates/Chain.antt =====
-- What the walk over a chain of DER certificates finds.
use rusty_cortex.Base.{
  append-nil, le→ltb, ◌*◌, ◌/◌, ◌%◌, contains, if◌then◌else◌, ℕ, zero, suc, ◌+◌, ◌-◌, ◌≤◌, ◌≡◌,
  refl, sym, ap, ◌∙◌, arith, List, [], ◌∷◌, ◌++◌, some, Bool, true, false, not, ◌||◌, ◌==◌, ltb,
  leb, length, slice, get_or, length-append, slice-skip, slice-first, append_assoc, map, All,
}
use rusty_cortex.Base.Words.{Bytes, IsU32}
use rusty_cortex.Edl.Mbn.Certificates.{
  last, HashAlgorithm, sha256, sha384, walk, der_read_length, extract_pkhash_from_cert_chain,
  Hashes, digest, detect_hash_algorithm,
}
use rusty_cortex.Edl.Mbn.Certificates.Der.{der_length, der_read_length-der_length, get_or-behind}

-- A certificate is a SEQUENCE: a tag, the length of the body and the body.
abbrev pub certificate : Bytes → Bytes
certificate body = 0x30 ∷ (der_length (length body) ++ body)

abbrev pub chain : List Bytes → Bytes
chain [] = []
chain (body ∷ bodies) = certificate body ++ chain bodies

abbrev pub HasLength : Bytes → Type 0
HasLength body = IsU32 (length body)

-- What may follow a chain: nothing, or bytes that begin no SEQUENCE.
abbrev pub ends_chain : Bytes → Bool
ends_chain [] = true
ends_chain (b ∷ bs) = not (b == 0x30)

abbrev pub stops : Bytes → ℕ → Bool
stops bytes pos = leb (length bytes) pos || not (get_or bytes pos 0 == 0x30)

pub walk-stop :
    (fuel : ℕ) (bytes : Bytes) (pos : ℕ) (certs : List Bytes)
    → stops bytes pos ≡ true
    → walk fuel bytes pos certs ≡ some certs
unfolding walk
walk-stop zero bytes pos certs stop = refl
walk-stop (suc fuel) bytes pos certs stop = rw stop

pub walk-go :
    (fuel : ℕ) (bytes : Bytes) (pos : ℕ) (certs : List Bytes) (n h end : ℕ)
    → stops bytes pos ≡ false
    → der_read_length bytes (pos + 1) ≡ some (n, h)
    → ltb (length bytes) end ≡ false
    → pos + h + n ≡ end
    → walk (suc fuel) bytes pos certs
      ≡ walk fuel bytes end (certs ++ (slice bytes pos (end - pos) ∷ []))
unfolding walk
walk-go fuel bytes pos certs n h end go reads inside at = rw (go, reads, at, inside)

end-stops :
    (before rest : Bytes) → ends_chain rest ≡ true → stops (before ++ rest) (length before) ≡ true
end-stops before [] ends = ground (arith, length-append before [])
end-stops before (b ∷ bs) ends =
    ground (arith, length-append before (b ∷ bs), get_or-behind before bs b)

regroup :
    (before body rest : Bytes)
    → (before ++ (0x30 ∷ [])) ++ (der_length (length body) ++ (body ++ rest))
      ≡ before ++ (certificate body ++ rest)
regroup before body rest = simp append_assoc

length-tagged : (before : Bytes) → length (before ++ (0x30 ∷ [])) ≡ length before + 1
length-tagged before = length-append before (0x30 ∷ [])

middle_count :
    (before middle : Bytes) → length before + length middle - length before ≡ length middle
middle_count before middle = omega arith

slice-middle :
    (before middle rest : Bytes)
    → slice
        (before ++ (middle ++ rest))
        (length before)
        (length before + length middle - length before)
      ≡ middle
slice-middle before middle rest = rw (middle_count before middle) (
    ap (λ i. slice (before ++ (middle ++ rest)) i (length middle)) (omega arith)
    ∙ slice-skip (length before) 0 (length middle) before (middle ++ rest) refl
    ∙ slice-first (length middle) middle rest refl)

behind_tag :
    (before body rest : Bytes)
    → HasLength body
    → der_read_length (before ++ (certificate body ++ rest)) (length before + 1)
      ≡ some (length body, 1 + length (der_length (length body)))
behind_tag before body rest fits = rw (length-tagged before) at (
    rw (regroup before body rest) at
      (der_read_length-der_length (before ++ (0x30 ∷ [])) (body ++ rest) (length body) fits))

certificate-goes :
    (before body rest : Bytes)
    → stops (before ++ (certificate body ++ rest)) (length before) ≡ false
certificate-goes before body rest = ground (
  arith,
  length-append before (certificate body ++ rest),
  get_or-behind before ((der_length (length body) ++ body) ++ rest) 0x30,
)

walk-certificate :
    (fuel : ℕ) (before body rest : Bytes) (certs : List Bytes)
    → HasLength body
    → walk (suc fuel) (before ++ (certificate body ++ rest)) (length before) certs
      ≡ walk fuel
          (before ++ (certificate body ++ rest))
          (length before + length (certificate body))
          (certs ++ (certificate body ∷ []))
walk-certificate fuel before body rest certs fits =
    walk-go fuel (before ++ (certificate body ++ rest)) (length before) certs (length body)
      (1 + length (der_length (length body))) (length before + length (certificate body))
      (certificate-goes before body rest) (behind_tag before body rest fits)
      (le→ltb _ _ (
        omega (
          arith,
          length-append before (certificate body ++ rest),
          length-append (certificate body) rest,
        )))
      (omega (arith, length-append (der_length (length body)) body))
    ∙ ap
        (λ c.
          walk fuel (before ++ (certificate body ++ rest))
            (length before + length (certificate body)) (certs ++ (c ∷ [])))
        (slice-middle before (certificate body) rest)

same_walk :
    (fuel p q : ℕ) {xs ys : Bytes} (certs : List Bytes)
    → xs ≡ ys
    → p ≡ q
    → walk fuel xs p certs ≡ walk fuel ys q certs
same_walk fuel p q certs same at = cc

pub walk-chain :
    (bodies : List Bytes) (fuel : ℕ) (before rest : Bytes) (certs : List Bytes)
    → length bodies ≤ fuel
    → All HasLength bodies
    → ends_chain rest ≡ true
    → walk fuel (before ++ (chain bodies ++ rest)) (length before) certs
      ≡ some (certs ++ map certificate bodies)
walk-chain [] fuel before rest certs enough fit ends =
    walk-stop fuel (before ++ rest) (length before) certs (end-stops before rest ends)
    ∙ ap some (sym (append-nil certs))
walk-chain (body ∷ bodies) zero before rest certs enough fit ends = absurd (omega arith)
walk-chain (body ∷ bodies) (suc fuel) before rest certs enough (fits, fit) ends =
    same_walk (suc fuel) (length before) (length before) certs
      (ap (◌++◌ before) (append_assoc (certificate body) (chain bodies) rest)) refl
    ∙ walk-certificate fuel before body (chain bodies ++ rest) certs fits
    ∙ same_walk fuel _ _ (certs ++ (certificate body ∷ []))
        (sym (append_assoc before (certificate body) (chain bodies ++ rest)))
        (sym (length-append before (certificate body)))
    ∙ walk-chain bodies fuel (before ++ certificate body) rest (certs ++ (certificate body ∷ []))
        (omega arith) fit ends
    ∙ ap some (append_assoc certs (certificate body ∷ []) (map certificate bodies))

last-map :
    (bodies : List Bytes) (root : Bytes)
    → last (map certificate (bodies ++ (root ∷ []))) ≡ some (certificate root)
last-map [] root = refl
last-map (a ∷ []) root = refl
last-map (a ∷ b ∷ bodies) root = last-map (b ∷ bodies) root

pub length-chain-le :
    (bodies : List Bytes) (rest : Bytes) → length bodies ≤ length (chain bodies ++ rest)
length-chain-le [] rest = omega arith
length-chain-le (body ∷ bodies) rest = omega (
  arith,
  length-chain-le bodies rest,
  length-append (certificate body) (chain bodies),
  length-append (certificate body ++ chain bodies) rest,
  length-append (chain bodies) rest,
)

-- A root certificate of a size that the code takes.
abbrev pub IsRoot : Bytes → Type 0
IsRoot cert = (100 ≤ length cert) × (length cert ≤ 10240)

-- sha256WithRSAEncryption, 1.2.840.113549.1.1.11: two arcs of a byte, 840 and 113549 in base 128, and
-- three more arcs of a byte.
abbrev pub sha256_with_rsa : Bytes
sha256_with_rsa =
    (1 * 40 + 2)
    ∷ ((128 + 840 / 128)
        ∷ ((840 % 128)
            ∷ ((128 + 113549 / 16384)
                ∷ ((128 + 113549 / 128 % 128) ∷ ((113549 % 128) ∷ (1 ∷ (1 ∷ (11 ∷ []))))))))

-- The hash that a certificate is to have: SHA-256 where the bytes of that identifier occur in it, and
-- SHA-384 otherwise.
abbrev pub key_of : Hashes → Bytes → List ℕ × HashAlgorithm
key_of h cert =
    if contains cert sha256_with_rsa
    then (h.sha256_hex cert, sha256)
    else (h.sha384_hex cert, sha384)

detected-key_of :
    (h : Hashes) (cert : Bytes)
    → (digest h (detect_hash_algorithm cert) cert, detect_hash_algorithm cert) ≡ key_of h cert
unfolding detect_hash_algorithm
detected-key_of h cert = choose (contains cert sha256_with_rsa)
  where
    choose :
        (b : Bool)
        → ◌≡◌ {A = List ℕ × HashAlgorithm}
            (digest h (if b then sha256 else sha384) cert, if b then sha256 else sha384)
            (if b then (h.sha256_hex cert, sha256) else (h.sha384_hex cert, sha384))
    choose true = refl
    choose false = refl

-- Over any chain of DER certificates whose bodies are shorter than 2 ^ 32 bytes, with nothing or
-- padding behind it, the key hash is that of the last certificate, if that certificate has between 100
-- and 10240 bytes: its SHA-256 where the bytes of the identifier sha256WithRSAEncryption occur
-- anywhere in it, and its SHA-384 otherwise.
pub extract_pkhash_from_cert_chain-root :
    (h : Hashes) (bodies : List Bytes) (root rest : Bytes)
    → All HasLength (bodies ++ (root ∷ []))
    → IsRoot (certificate root)
    → ends_chain rest ≡ true
    → extract_pkhash_from_cert_chain h (chain (bodies ++ (root ∷ [])) ++ rest)
      ≡ some (key_of h (certificate root))
unfolding extract_pkhash_from_cert_chain
extract_pkhash_from_cert_chain-root h bodies root rest fit (low, high) ends =
    rw
      (
        walk-chain (bodies ++ (root ∷ [])) (length (chain (bodies ++ (root ∷ [])) ++ rest)) [] rest
            [] (length-chain-le (bodies ++ (root ∷ [])) rest) fit ends,
        last-map bodies root,
        le→ltb _ _ low,
        le→ltb _ _ high,
      )
      (ap some (detected-key_of h (certificate root)))
