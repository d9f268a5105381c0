-- ===== src/Edl/Mbn/Parsed.antt =====
-- How reading an identity can end: `Some`, `None`, or an abort (`panic = "abort"` in Cargo.toml).
use rusty_cortex.Base.{le→ltb, ◌≤◌, ◌≡◌, refl, ℕ, Option, none, some, length, ltb, if◌then◌else◌}
use rusty_cortex.Base.Words.{Bytes}

pub data Parsed {ℓ} (A : Type ℓ) : Type ℓ where
  found : A → Parsed A
  absent : Parsed A
  panic : Parsed A

-- The `?` operator.
infixl 5 ◌>>=◌
abbrev pub ◌>>=◌ {ℓ κ} : {A : Type ℓ} {B : Type κ} → Parsed A → (A → Parsed B) → Parsed B
found a >>= next = next a
absent >>= next = absent
panic >>= next = panic

-- An `Option`, where the code around it may abort.
abbrev pub of_option {ℓ} : {A : Type ℓ} → Option A → Parsed A
of_option none = absent
of_option (some a) = found a

-- What is read from slices that end at `end` at the latest: an abort where they do not lie inside.
unfoldable pub sliced {ℓ} : {A : Type ℓ} → Bytes → ℕ → A → Parsed A
sliced bytes end value = if ltb (length bytes) end then panic else found value

-- An optional result that is kept, not returned on.
abbrev pub attempt {ℓ} : {A : Type ℓ} → Parsed A → Parsed (Option A)
attempt (found a) = found (some a)
attempt absent = found none
attempt panic = panic

pub sliced-inside {ℓ} :
    {A : Type ℓ} (bytes : Bytes) (end : ℕ) (value : A)
    → end ≤ length bytes
    → sliced bytes end value ≡ found value
unfolding sliced
sliced-inside bytes end value inside = rw (le→ltb (length bytes) end inside) refl
