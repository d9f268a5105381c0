-- ===== src/Edl/Chipsets/Keys.antt =====
-- The numbers of the chip tables, and what `resolve_chipset` does on every id.
use Prim.Native.Nat.{digits, bit_or-bitwise}
use rusty_cortex.Base.{
  lt→leb, ==_iff, zero, suc, max, ◌+◌, ℕ, ◌%◌, ◌/◌, ◌≤◌, ◌<◌, ◌≡◌, refl, sym, ap, List, [], ◌∷◌,
  ◌++◌, Option, none, some, String, ◌==◌, leb, if◌then◌else◌, bit_or, Bool, true, false, ◌&&◌,
  arith, inl, inr, Bool-cases,
}
use rusty_cortex.Edl.Chipsets.{
  arm_of, chipset_name, sochw_name, resolve_chipset, by_sochw, by_shift, or_else,
}
use rusty_cortex.Edl.Chipsets.Older.{older_chipsets}
use rusty_cortex.Edl.Chipsets.Newer.{newer_chipsets}
use rusty_cortex.Edl.Chipsets.Sockets.{sochw_chipsets}

abbrev every : (ℕ → Bool) → List (ℕ × String) → Bool
every test [] = true
every test (arm ∷ arms) = test arm.0 && every test arms

-- A number that fails a test which all arms pass has no arm.
arm_of-none :
    (test : ℕ → Bool) (arms : List (ℕ × String)) (m : ℕ)
    → every test arms ≡ true
    → test m ≡ false
    → arm_of m arms ≡ none
unfolding arm_of
arm_of-none test [] m all fails = refl
arm_of-none test (arm ∷ arms) m all fails = elim (Bool-cases (arm.0 == m)) [
  | inl same ↦ absurd (ground (arith, ap test (sym ((==_iff arm.0 m).0 same))))
  | inr other ↦ rw other (arm_of-none test arms m (ground arith) fails)
]

abbrev is_msm_id : ℕ → Bool
is_msm_id m = (m % 256 == 0xE1) && leb 0x16000 m

abbrev is_sochw_id : ℕ → Bool
is_sochw_id m = leb 0x1000 m

msm_ids : every is_msm_id (older_chipsets ++ newer_chipsets) ≡ true
unfolding older_chipsets newer_chipsets
msm_ids = refl

sochw_ids : every is_sochw_id sochw_chipsets ≡ true
unfolding sochw_chipsets
sochw_ids = refl

-- Alternatives of two numbers add no digit beyond their sum.
digits-le : (n a b : ℕ) → a ≤ n → digits (λ d. d) max n a b ≤ a + b
digits-le zero a b small = omega arith
digits-le (suc n) zero b small = omega arith
digits-le (suc n) (suc a) b small = omega (arith, digits-le n (suc a / 2) (b / 2) (omega arith))

bit_or-le : (a b : ℕ) → bit_or a b ≤ a + b
bit_or-le a b = omega (arith, bit_or-bitwise a b, digits-le a a b (omega arith))

chipset_name-none : (m : ℕ) → is_msm_id m ≡ false → chipset_name m ≡ none
unfolding chipset_name
chipset_name-none m bad = arm_of-none is_msm_id (older_chipsets ++ newer_chipsets) m msm_ids bad

sochw_name-none : (m : ℕ) → m < 0x1000 → sochw_name m ≡ none
unfolding sochw_name
sochw_name-none m low = arm_of-none is_sochw_id sochw_chipsets m sochw_ids (lt→leb 0x1000 m low)

by_shift-none : (m : ℕ) → by_shift m ≡ none
unfolding by_shift
by_shift-none m = elim (Bool-cases ((m % 256 == 0) && leb m 0xFFFFFF)) [
  | inl small ↦
      rw small
        (chipset_name-none (bit_or (m / 256) 0xE1) (ground (arith, bit_or-le (m / 256) 0xE1)))
  | inr large ↦ rw large
]

or_else-none : (name : Option (List ℕ)) → or_else name none ≡ name
or_else-none none = refl
or_else-none (some name) = refl

by_sochw-other : (m : ℕ) → (m % 256 == 0xE1) ≡ false → by_sochw m ≡ sochw_name (m / 65536)
unfolding by_sochw
by_sochw-other m other = ground (arith, sochw_name-none (m / 65536))

by_sochw-msm : (m : ℕ) → (m % 256 == 0xE1) ≡ true → by_sochw m ≡ none
unfolding by_sochw
by_sochw-msm m msm = rw msm

resolve_chipset-msm : (m : ℕ) → (m % 256 == 0xE1) ≡ true → resolve_chipset m ≡ chipset_name m
unfolding resolve_chipset
resolve_chipset-msm m msm =
    ground (arith, by_shift-none m, by_sochw-msm m msm, or_else-none (chipset_name m))

resolve_chipset-other :
    (m : ℕ) → (m % 256 == 0xE1) ≡ false → resolve_chipset m ≡ sochw_name (m / 65536)
unfolding resolve_chipset
resolve_chipset-other m other = ground (
  arith,
  by_shift-none m,
  by_sochw-other m other,
  or_else-none (sochw_name (m / 65536)),
  chipset_name-none m,
  sochw_name-none 0,
)

-- On every id: one that ends in E1 is looked up in the MSM table, any other in the SOC_HW table by
-- its upper half. The third attempt never gives a name.
pub resolve_chipset_lem :
    (m : ℕ)
    → resolve_chipset m ≡ (if m % 256 == 0xE1 then chipset_name m else sochw_name (m / 65536))
resolve_chipset_lem m = elim (Bool-cases (m % 256 == 0xE1)) [
  | inl msm ↦ rw msm (resolve_chipset-msm m msm)
  | inr other ↦ rw other (resolve_chipset-other m other)
]
