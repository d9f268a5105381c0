-- ===== src/Adb/Sideload/Blocks.antt =====
-- Requests as the device writes them, and the blocks that answer them.
use native.Mathlib.Nat.{mod-eq_of_lt}
use rusty_cortex.Base.{
  length-drop, append_assoc, append-nil, All-append, ℕ, zero, suc, ◌+◌, ◌-◌, ◌*◌, ◌/◌, ◌%◌, ◌^◌,
  ◌≤◌, ◌<◌, min, Bool, true, false, List, [], ◌∷◌, ◌++◌, some, ◌==◌, ◌≡◌, refl, ap, ◌∙◌, arith,
  length, slice, take, drop, codes, equal, All, map, Bool-cases, inl, inr, ne→==, ==_iff, le→leb,
}
use rusty_cortex.Base.Words.{Bytes}
use rusty_cortex.Failure.{ok}
use rusty_cortex.Adb.Sideload.{
  block, sideload_block_size, trim_zeros, digits_from, parse_u64, parse_trimmed,
  calculate_block_read, Request, asked, parse_block_request, sideload_loop, adb_sideload,
}

-- A number as `k` decimal digits.
abbrev pub decimal : ℕ → ℕ → Bytes
decimal zero n = []
decimal (suc k) n = decimal k (n / 10) ++ ((48 + n % 10) ∷ [])

abbrev IsDigit : ℕ → Type 0
IsDigit c = (48 ≤ c) × (c ≤ 57)

decimal-IsDigit : (k n : ℕ) → All IsDigit (decimal k n)
decimal-IsDigit zero n = tt
decimal-IsDigit (suc k) n =
    All-append IsDigit (decimal k (n / 10)) ((48 + n % 10) ∷ []) (decimal-IsDigit k (n / 10))
      ((omega arith, omega arith), tt)

abbrev value : ℕ → Bytes → ℕ
value acc [] = acc
value acc (c ∷ cs) = value (acc * 10 + (c - 48)) cs

digits_from-value :
    (acc : ℕ) (cs : Bytes) → All IsDigit cs → digits_from acc cs ≡ some (value acc cs)
unfolding digits_from
digits_from-value acc [] h = refl
digits_from-value acc (c ∷ cs) ((a, b), h) =
    rw (le→leb 48 c a) (rw (le→leb c 57 b) (digits_from-value (acc * 10 + (c - 48)) cs h))

value-append :
    (acc : ℕ) (cs : Bytes) (d : ℕ) → value acc (cs ++ (d ∷ [])) ≡ value acc cs * 10 + (d - 48)
value-append acc [] d = refl
value-append acc (c ∷ cs) d = value-append (acc * 10 + (c - 48)) cs d

value-decimal : (k n : ℕ) → n < 10 ^ k → value 0 (decimal k n) ≡ n
value-decimal zero n h = omega arith
value-decimal (suc k) n h =
    value-append 0 (decimal k (n / 10)) (48 + n % 10)
    ∙ rw (value-decimal k (n / 10) (grind arith)) (omega arith)

trim_zeros-value : (cs : Bytes) → value 0 (trim_zeros cs) ≡ value 0 cs
unfolding trim_zeros
trim_zeros-value [] = refl
trim_zeros-value (c ∷ cs) = elim (Bool-cases (c == 48)) [
  | inl nought ↦ rw nought (rw ((==_iff c 48).0 nought) (trim_zeros-value cs))
  | inr other ↦ rw other refl
]

trim_zeros-IsDigit : (cs : Bytes) → All IsDigit cs → All IsDigit (trim_zeros cs)
unfolding trim_zeros
trim_zeros-IsDigit [] h = tt
trim_zeros-IsDigit (c ∷ cs) (d, h) = elim (Bool-cases (c == 48)) [
  | inl nought ↦ rw nought (trim_zeros-IsDigit cs h)
  | inr other ↦ rw other (d, h)
]

parse_trimmed-value : (s cs : Bytes) → All IsDigit cs → parse_trimmed s cs ≡ ok (block (value 0 cs))
unfolding parse_u64
parse_trimmed-value s [] h = refl
parse_trimmed-value s (c ∷ cs) ((a, b), h) =
    rw (ne→== c 43 (λ e. omega arith)) (rw (digits_from-value 0 (c ∷ cs) ((a, b), h)))

-- A text of digits is none of the two words.
digits-ne :
    (cs : Bytes) (c : ℕ) (rest : Bytes) → All IsDigit cs → 57 < c → equal cs (c ∷ rest) ≡ false
unfolding equal
digits-ne [] c rest h big = refl
digits-ne (d ∷ cs) c rest ((a, b), h) big = rw (ne→== d c (λ e. omega arith))

module _ (is_utf8 : Bytes → Bool) where
  -- A block number below 100000000, written as eight decimal digits, is a request for that block.
  pub parse_block_request-decimal :
      (n : ℕ)
      → n < 10 ^ 8
      → is_utf8 (decimal 8 n) ≡ true
      → parse_block_request is_utf8 (decimal 8 n) ≡ ok (block n)
  unfolding parse_block_request
  parse_block_request-decimal n h u =
      let d = decimal-IsDigit 8 n in
      rw (digits-ne (decimal 8 n) 68 (codes "ONEDONE") d (omega arith)) (
        rw (digits-ne (decimal 8 n) 70 (codes "AILFAIL") d (omega arith)) (
          rw u (
            parse_trimmed-value (decimal 8 n) (trim_zeros (decimal 8 n))
              (trim_zeros-IsDigit (decimal 8 n) d)
            ∙ ap (λ v. ok (block v)) (trim_zeros-value (decimal 8 n) ∙ value-decimal 8 n h))))

-- The 64 KiB of a file from block `n` on, or what there is of them.
abbrev pub file_block : Bytes → ℕ → Bytes
file_block file n = take sideload_block_size (drop (n * sideload_block_size) file)

take-min : (n : ℕ) (xs : Bytes) → take (min n (length xs)) xs ≡ take n xs
take-min zero xs = rw (take_zero xs)
  where
    take_zero : (xs : Bytes) → min 0 (length xs) ≡ 0
    take_zero xs = omega arith
take-min (suc n) [] = let e : min (suc n) 0 ≡ 0 = omega arith in rw e
take-min (suc n) (x ∷ xs) =
    let e : min (suc n) (suc (length xs)) ≡ suc (min n (length xs)) = omega arith in
    rw e (ap (◌∷◌ x) (take-min n xs))

block_read :
    (file : Bytes) (n : ℕ)
    → n < 10 ^ 8
    → n * sideload_block_size < length file
    → (calculate_block_read n (length file) sideload_block_size ≡ (
      n * sideload_block_size,
      min sideload_block_size (length file - n * sideload_block_size),
    ))
      × (slice file
            (n * sideload_block_size)
            (min sideload_block_size (length file - n * sideload_block_size))
          ≡ file_block file n)
      × ((min sideload_block_size (length file - n * sideload_block_size) == 0) ≡ false)
unfolding calculate_block_read
block_read file n h inside =
    let e : n * sideload_block_size % 2 ^ 64 ≡ n * sideload_block_size =
      mod-eq_of_lt (omega arith) in
    (
      rw e,
      rw (length-drop (n * sideload_block_size) file) at
          (take-min sideload_block_size (drop (n * sideload_block_size) file)),
      ne→== (min sideload_block_size (length file - n * sideload_block_size)) 0 (λ z. omega arith),
    )

abbrev pub IsAskable : (Bytes → Bool) → Bytes → ℕ → Type 0
IsAskable is_utf8 file n =
    (n < 10 ^ 8) × (n * sideload_block_size < length file) × (is_utf8 (decimal 8 n) ≡ true)

abbrev pub ask : List ℕ → List Request → List Request
ask [] more = more
ask (n ∷ ns) more = asked (decimal 8 n) ∷ ask ns more

module _ (is_utf8 : Bytes → Bool) where
  sideload_loop-ask :
      (file : Bytes) (ns : List ℕ) (more : List Request) (sent : List Bytes)
      → All (IsAskable is_utf8 file) ns
      → sideload_loop is_utf8 file (ask ns more) sent
        ≡ sideload_loop is_utf8 file more (sent ++ map (file_block file) ns)
  unfolding sideload_loop
  sideload_loop-ask file [] more sent h = rw (append-nil sent)
  sideload_loop-ask file (n ∷ ns) more sent ((small, inside, text), h) =
      let (parts, content, some_left) = block_read file n small inside in
      rw (parse_block_request-decimal is_utf8 n small text) (
        rw parts (
          rw content (
            rw some_left (
              sideload_loop-ask file ns more (sent ++ (file_block file n ∷ [])) h
              ∙ ap (sideload_loop is_utf8 file more)
                  (append_assoc sent (file_block file n ∷ []) (map (file_block file) ns))))))

  -- A device that asks for blocks of the file, in any order and as often as it likes, and then says
  -- DONEDONE gets exactly the bytes of those blocks, in the order of its requests, and the transfer
  -- succeeds.
  pub adb_sideload-ask :
      (file : Bytes) (ns : List ℕ) (more : List Request)
      → 0 < length file
      → All (IsAskable is_utf8 file) ns
      → adb_sideload is_utf8 file (ask ns (asked (codes "DONEDONE") ∷ more))
        ≡ (ok tt, map (file_block file) ns)
  unfolding adb_sideload
  adb_sideload-ask file ns more some_bytes h = rw (ne→== (length file) 0 (λ z. omega arith)) (
      sideload_loop-ask file ns (asked (codes "DONEDONE") ∷ more) [] h
      ∙ (unfold sideload_loop parse_block_request equal in refl))
