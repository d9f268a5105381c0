-- ===== src/Edl/Mbn/Certificates/Der.antt =====
-- The lengths that `der_read_length` reads are those that DER writes.
use rusty_cortex.Base.{
  ltb→lt, lt→ltb, le→ltb, ℕ, ◌+◌, ◌*◌, ◌/◌, ◌%◌, ◌^◌, ◌≤◌, ◌<◌, ◌≡◌, refl, ap, ◌∙◌, ◌⊎◌, inl, inr,
  arith, [], ◌∷◌, ◌++◌, some, Bool, true, false, ◌==◌, ltb, if◌then◌else◌, length, slice, get_or,
  length-append, slice-skip, slice-first,
}
use rusty_cortex.Base.Words.{Bytes, IsU32}
use rusty_cortex.Edl.Mbn.Certificates.{long_length, der_length_from, der_read_length}

-- A long length: the count of its bytes, then the bytes, highest first.
abbrev long_form : ℕ → Bytes → Bytes
long_form k digits = (0x80 + k) ∷ digits

-- The shortest encoding of a length below 2 ^ 32.
unfoldable pub der_length : ℕ → Bytes
der_length n =
    let d0 = n % 256 in
    let d1 = n / 256 % 256 in
    let d2 = n / 65536 % 256 in
    let d3 = n / 16777216 in
    if ltb n 128
    then n ∷ []
    else if ltb n 256
    then long_form 1 (d0 ∷ [])
    else if ltb n 65536
    then long_form 2 (d1 ∷ d0 ∷ [])
    else if ltb n 16777216
    then long_form 3 (d2 ∷ d1 ∷ d0 ∷ [])
    else long_form 4 (d3 ∷ d2 ∷ d1 ∷ d0 ∷ [])

pub get_or-behind :
    (before after : Bytes) (c : ℕ) → get_or (before ++ (c ∷ after)) (length before) 0 ≡ c
get_or-behind [] after c = refl
get_or-behind (b ∷ before) after c = get_or-behind before after c

long_length-step :
    (n b : ℕ) (bs : Bytes)
    → n < 2 ^ 48
    → b < 256
    → long_length n (b ∷ bs) ≡ long_length (n * 256 + b) bs
unfolding long_length
long_length-step n b bs small fits = ground arith

der_read_length-behind :
    (before more : Bytes) (c : ℕ)
    → der_read_length (before ++ (c ∷ more)) (length before)
      ≡ der_length_from (before ++ (c ∷ more)) (length before) c
unfolding der_read_length
der_read_length-behind before more c =
    rw (get_or-behind before more c) (ground (arith, length-append before (c ∷ more)))

-- The digits of a long length.
digits_slice :
    (before digits after : Bytes) (k c : ℕ)
    → length digits ≡ k
    → slice (before ++ (c ∷ (digits ++ after))) (length before + 1) k ≡ digits
digits_slice before digits after k c size =
    slice-skip (length before) 1 k before (c ∷ (digits ++ after)) refl
    ∙ slice-first k digits after size

long-fits :
    (before digits after : Bytes) (k c : ℕ)
    → length digits ≡ k
    → ltb (length (before ++ (c ∷ (digits ++ after)))) (length before + 1 + k) ≡ false
long-fits before digits after k c size =
    le→ltb _ _
      (omega (arith, length-append before (c ∷ (digits ++ after)), length-append digits after))

rem-tag : (c k : ℕ) → k ≤ 4 → c ≡ 0x80 + k → c % 128 ≡ k
rem-tag c k small tag = omega arith

lt-tag : (c k : ℕ) → c ≡ 0x80 + k → ltb c 0x80 ≡ false
lt-tag c k tag = le→ltb c 0x80 (omega arith)

ne-tag : (c k : ℕ) → 0 < k → c ≡ 0x80 + k → (c == 0x80) ≡ false
ne-tag c k pos tag = ground arith

der_length_from-long :
    (before digits after : Bytes) (k c n : ℕ)
    → length digits ≡ k
    → 0 < k
    → k ≤ 4
    → c ≡ 0x80 + k
    → long_length 0 digits ≡ some n
    → der_length_from (before ++ (c ∷ (digits ++ after))) (length before) c ≡ some (n, 2 + k)
unfolding der_length_from
der_length_from-long before digits after k c n size pos small tag value = rw (
  rem-tag c k small tag,
  lt-tag c k tag,
  ne-tag c k pos tag,
  le→ltb 4 k small,
  long-fits before digits after k c size,
  digits_slice before digits after k c size,
  value,
)

-- The two forms of a length.
abbrev Form : ℕ → Bytes → Type 0
Form n e =
    ((n < 128) × (e ≡ (n ∷ [])))
    ⊎ ((k : ℕ) × (digits : Bytes) × (e ≡ ((0x80 + k) ∷ digits))
        × (length digits ≡ k)
        × (0 < k)
        × (k ≤ 4)
        × (long_length 0 digits ≡ some n))

pub length-der_length-pos : (n : ℕ) → 0 < length (der_length n)
unfolding der_length
length-der_length-pos n = ground arith

of_cases {ℓ κ} :
    {A : Type ℓ} (P : A → Type κ) (b : Bool) (x y : A)
    → (b ≡ true → P x)
    → (b ≡ false → P y)
    → P (if b then x else y)
of_cases P true x y p q = p refl
of_cases P false x y p q = q refl

long_length-nil : (m n : ℕ) → m ≡ n → long_length m [] ≡ some n
unfolding long_length
long_length-nil m n same = ap some same

long_length-1 : (n : ℕ) → n < 256 → long_length 0 (n % 256 ∷ []) ≡ some n
unfolding long_length
long_length-1 n fits = ground arith

long_length-2 : (n : ℕ) → n < 65536 → long_length 0 (n / 256 % 256 ∷ n % 256 ∷ []) ≡ some n
long_length-2 n fits =
    long_length-step 0 (n / 256 % 256) _ (omega arith) (omega arith)
    ∙ long_length-step (0 * 256 + n / 256 % 256) (n % 256) [] (omega arith) (omega arith)
    ∙ long_length-nil _ n (omega arith)

long_length-3 :
    (n : ℕ) → n < 16777216 → long_length 0 (n / 65536 % 256 ∷ n / 256 % 256 ∷ n % 256 ∷ []) ≡ some n
long_length-3 n fits =
    long_length-step 0 (n / 65536 % 256) _ (omega arith) (omega arith)
    ∙ long_length-step (0 * 256 + n / 65536 % 256) (n / 256 % 256) _ (omega arith) (omega arith)
    ∙ long_length-step ((0 * 256 + n / 65536 % 256) * 256 + n / 256 % 256) (n % 256) []
        (omega arith) (omega arith)
    ∙ long_length-nil _ n (omega arith)

long_length-4 :
    (n : ℕ)
    → IsU32 n
    → long_length 0 (n / 16777216 ∷ n / 65536 % 256 ∷ n / 256 % 256 ∷ n % 256 ∷ []) ≡ some n
long_length-4 n fits =
    long_length-step 0 (n / 16777216) _ (omega arith) (omega arith)
    ∙ long_length-step (0 * 256 + n / 16777216) (n / 65536 % 256) _ (omega arith) (omega arith)
    ∙ long_length-step ((0 * 256 + n / 16777216) * 256 + n / 65536 % 256) (n / 256 % 256) _
        (omega arith) (omega arith)
    ∙ long_length-step (((0 * 256 + n / 16777216) * 256 + n / 65536 % 256) * 256 + n / 256 % 256)
        (n % 256) [] (omega arith) (omega arith)
    ∙ long_length-nil _ n (omega arith)

der_length-Form : (n : ℕ) → IsU32 n → Form n (der_length n)
unfolding der_length
der_length-Form n fits =
    of_cases (Form n) (ltb n 128) _ _ (λ p. inl (ltb→lt n 128 p, refl))
      λ _.
        of_cases (Form n) (ltb n 256) _ _
          (λ p. inr (1, _, refl, refl, omega arith, omega arith, long_length-1 n (ltb→lt n 256 p)))
          λ _.
            of_cases (Form n) (ltb n 65536) _ _
              (λ p.
                inr
                  (2, _, refl, refl, omega arith, omega arith, long_length-2 n (ltb→lt n 65536 p)))
              λ _.
                of_cases (Form n) (ltb n 16777216) _ _
                  (λ p. inr (
                    3,
                    _,
                    refl,
                    refl,
                    omega arith,
                    omega arith,
                    long_length-3 n (ltb→lt n 16777216 p),
                  ))
                  λ _. inr (4, _, refl, refl, omega arith, omega arith, long_length-4 n fits)

read-Form :
    (before after : Bytes) (n : ℕ) (e : Bytes)
    → Form n e
    → der_read_length (before ++ (e ++ after)) (length before) ≡ some (n, 1 + length e)
unfolding der_length_from
read-Form before after n e (inl (small, form)) =
    rw form (der_read_length-behind before after n ∙ rw (lt→ltb n 128 small))
read-Form before after n e (inr (k, digits, form, size, pos, small, value)) =
    rw (form, size)
      (der_read_length-behind before (digits ++ after) (0x80 + k)
        ∙ der_length_from-long before digits after k (0x80 + k) n size pos small refl value
        ∙ ap (λ m. some (n, m)) (omega arith))

-- Whatever stands before and behind the bytes of a length, and whichever form they have, reading
-- them gives the length and the size of tag and length.
pub der_read_length-der_length :
    (before after : Bytes) (n : ℕ)
    → IsU32 n
    → der_read_length (before ++ (der_length n ++ after)) (length before)
      ≡ some (n, 1 + length (der_length n))
der_read_length-der_length before after n fits =
    read-Form before after n (der_length n) (der_length-Form n fits)
