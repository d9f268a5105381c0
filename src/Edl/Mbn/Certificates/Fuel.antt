-- ===== src/Edl/Mbn/Certificates/Fuel.antt =====
-- The walk over a chain ends on every input.
use native.Mathlib.Nat.{suc-add}
use rusty_cortex.Base.{
  sym, ◌∙◌, ◌%◌, ℕ, zero, suc, ◌+◌, ◌-◌, ◌≤◌, ◌≡◌, refl, ap, inl, inr, arith, List, Option, none,
  some, true, false, Bool-cases, Option-cases, ltb, length, slice, get_or,
}
use rusty_cortex.Base.Words.{Bytes}
use rusty_cortex.Edl.Mbn.Certificates.{
  walk, der_read_length, der_length_from, with_header, long_length,
}
use rusty_cortex.Edl.Mbn.Certificates.Chain.{stops, walk-stop, walk-go}

with_header-size : (k : ℕ) (o : Option ℕ) (n h : ℕ) → with_header k o ≡ some (n, h) → k ≡ h
with_header-size k none n h e = cc
with_header-size k (some m) n h e = cc

der_length_from-size :
    (bytes : Bytes) (offset first n h : ℕ)
    → der_length_from bytes offset first ≡ some (n, h)
    → 2 ≤ h
unfolding der_length_from
der_length_from-size bytes offset first n h e = ground (
  arith,
  with_header-size (2 + first % 128) (long_length 0 (slice bytes (offset + 1) (first % 128))) n h,
)

der_read_length-size :
    (bytes : Bytes) (offset n h : ℕ) → der_read_length bytes offset ≡ some (n, h) → 2 ≤ h
unfolding der_read_length
der_read_length-size bytes offset n h e =
    ground (arith, der_length_from-size bytes offset (get_or bytes offset 0) n h)

walk-none :
    (fuel : ℕ) (bytes : Bytes) (pos : ℕ) (certs : List Bytes)
    → stops bytes pos ≡ false
    → der_read_length bytes (pos + 1) ≡ none
    → walk (suc fuel) bytes pos certs ≡ none
unfolding walk
walk-none fuel bytes pos certs go reads = rw (go, reads)

walk-beyond :
    (fuel : ℕ) (bytes : Bytes) (pos : ℕ) (certs : List Bytes) (n h : ℕ)
    → stops bytes pos ≡ false
    → der_read_length bytes (pos + 1) ≡ some (n, h)
    → ltb (length bytes) (pos + h + n) ≡ true
    → walk (suc fuel) bytes pos certs ≡ some certs
unfolding walk
walk-beyond fuel bytes pos certs n h go reads beyond = rw (go, reads, beyond)

-- One turn, if the turns after it do not depend on the fuel.
walk-turn :
    (fuel more : ℕ) (bytes : Bytes) (pos : ℕ) (certs : List Bytes)
    → length bytes - pos ≤ suc fuel
    → ((end : ℕ) (cs : List Bytes)
        → length bytes - end ≤ fuel
        → walk (fuel + more) bytes end cs ≡ walk fuel bytes end cs)
    → walk (suc (fuel + more)) bytes pos certs ≡ walk (suc fuel) bytes pos certs
walk-turn fuel more bytes pos certs enough later = elim (Bool-cases (stops bytes pos)) [
  | inl stop ↦
      walk-stop (suc (fuel + more)) bytes pos certs stop
      ∙ sym (walk-stop (suc fuel) bytes pos certs stop)
  | inr go ↦ elim (Option-cases (der_read_length bytes (pos + 1))) [
    | inl reads ↦
        walk-none (fuel + more) bytes pos certs go reads
        ∙ sym (walk-none fuel bytes pos certs go reads)
    | inr ((n, h), reads) ↦ elim (Bool-cases (ltb (length bytes) (pos + h + n))) [
      | inl beyond ↦
          walk-beyond (fuel + more) bytes pos certs n h go reads beyond
          ∙ sym (walk-beyond fuel bytes pos certs n h go reads beyond)
      | inr inside ↦
          walk-go (fuel + more) bytes pos certs n h (pos + h + n) go reads inside refl
          ∙ later (pos + h + n) _ (omega (arith, der_read_length-size bytes (pos + 1) n h reads))
          ∙ sym (walk-go fuel bytes pos certs n h (pos + h + n) go reads inside refl)
    ]
  ]
]

-- Any fuel that reaches the end of the bytes gives the result of as much fuel as there are bytes
-- left.
pub walk-enough :
    (fuel more : ℕ) (bytes : Bytes) (pos : ℕ) (certs : List Bytes)
    → length bytes - pos ≤ fuel
    → walk (fuel + more) bytes pos certs ≡ walk fuel bytes pos certs
walk-enough zero more bytes pos certs enough =
    walk-stop (0 + more) bytes pos certs (ground arith)
    ∙ sym (walk-stop 0 bytes pos certs (ground arith))
walk-enough (suc fuel) more bytes pos certs enough =
    ap (λ k. walk k bytes pos certs) (suc-add fuel more)
    ∙ walk-turn fuel more bytes pos certs enough (walk-enough fuel more bytes)
