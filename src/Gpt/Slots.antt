-- ===== src/Gpt/Slots.antt =====
-- A/B slots do not change a partition's category.
use rusty_cortex.Base.{
  ℕ, ◌-◌, List, ◌++◌, ◌≡◌, refl, some, none, arith, le→leb, length, length-append, codes, equal,
  equal_iff, take-append, drop-append,
}
use rusty_cortex.Gpt.{strip_suffix, base_category, partition_category}

strip_suffix-append : (base suffix : List ℕ) → strip_suffix (base ++ suffix) suffix ≡ some base
unfolding strip_suffix
strip_suffix-append base suffix =
    let e : length (base ++ suffix) - length suffix ≡ length base =
      omega (arith, length-append base suffix) in
    rw (le→leb (length suffix) (length (base ++ suffix)) (omega (arith, length-append base suffix)))
      (rw e (
        rw (drop-append (length base) base suffix refl) (
          rw (take-append (length base) base suffix refl) (rw ((equal_iff suffix suffix).1 refl)))))

strip_suffix-other : (base : List ℕ) → strip_suffix (base ++ codes "_b") (codes "_a") ≡ none
unfolding strip_suffix equal
strip_suffix-other base =
    let e : length (base ++ codes "_b") - 2 ≡ length base =
      omega (arith, length-append base (codes "_b")) in
    rw e (rw (drop-append (length base) base (codes "_b") refl) (ground arith))

-- A name with the slot suffix `_a` or `_b` has the category of the name without it.
pub partition_category_slots :
    (base : List ℕ)
    → (partition_category (base ++ codes "_a") ≡ base_category base)
      × (partition_category (base ++ codes "_b") ≡ base_category base)
unfolding partition_category
partition_category_slots base = (
  rw (strip_suffix-append base (codes "_a")),
  rw (strip_suffix-other base) (rw (strip_suffix-append base (codes "_b"))),
)
