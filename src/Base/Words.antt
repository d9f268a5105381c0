-- ===== src/Base/Words.antt =====
-- Little-endian words: `u16`, `u32` and `u64` of Rust as numbers below 2 ^ 16, 2 ^ 32, 2 ^ 64, with
-- `from_le_bytes`, `to_le_bytes` and the wrapping arithmetic of a release build (usize has 64 bits).
use Prim.Native.Nat.{ℕ, zero, suc, ◌+◌, ◌-◌, ◌*◌, ◌/◌, ◌%◌, ◌^◌, ◌≤◌, ◌<◌}
use mathlib.Core.Path.{◌≡◌, refl, ap}
use mathlib.Core.List.{List, [], ◌∷◌}
use native.Mathlib.Omega.{arith}
use native.Mathlib.Nat.{pow-suc}
use rusty_cortex.Base.Lists.{length, slice, drop, All, All-take, All-drop, length-slice-le}

abbrev pub Bytes : Type 0
Bytes = List ℕ

abbrev pub IsByte : ℕ → Type 0
IsByte b = b < 256

abbrev pub IsU16 : ℕ → Type 0
IsU16 v = v < 2 ^ 16

abbrev pub IsU32 : ℕ → Type 0
IsU32 v = v < 2 ^ 32

abbrev pub IsU64 : ℕ → Type 0
IsU64 v = v < 2 ^ 64

-- The number that the bytes spell, lowest byte first.
unfoldable pub from_le_bytes : Bytes → ℕ
from_le_bytes [] = 0
from_le_bytes (b ∷ bs) = b + 256 * from_le_bytes bs

-- The lowest `n` bytes of a number.
unfoldable pub to_le_bytes : ℕ → ℕ → Bytes
to_le_bytes zero v = []
to_le_bytes (suc n) v = v % 256 ∷ to_le_bytes n (v / 256)

abbrev pub u16_at : Bytes → ℕ → ℕ
u16_at bs i = from_le_bytes (slice bs i 2)

abbrev pub u32_at : Bytes → ℕ → ℕ
u32_at bs i = from_le_bytes (slice bs i 4)

abbrev pub u64_at : Bytes → ℕ → ℕ
u64_at bs i = from_le_bytes (slice bs i 8)

abbrev pub wrapping_add : ℕ → ℕ → ℕ
wrapping_add a b = (a + b) % 2 ^ 64

abbrev pub wrapping_mul : ℕ → ℕ → ℕ
wrapping_mul a b = a * b % 2 ^ 64

-- `a - b`; the code calls it only where the difference is not negative, or wraps.
abbrev pub wrapping_sub : ℕ → ℕ → ℕ
wrapping_sub a b = (a + 2 ^ 64 - b) % 2 ^ 64

pub length-to_le_bytes : (n v : ℕ) → length (to_le_bytes n v) ≡ n
unfolding to_le_bytes
length-to_le_bytes zero v = refl
length-to_le_bytes (suc n) v = ap suc (length-to_le_bytes n (v / 256))

pub to_le_bytes-IsByte : (n v : ℕ) → All IsByte (to_le_bytes n v)
unfolding to_le_bytes
to_le_bytes-IsByte zero v = tt
to_le_bytes-IsByte (suc n) v = (omega arith, to_le_bytes-IsByte n (v / 256))

pub from-to_u16 : (v : ℕ) → IsU16 v → from_le_bytes (to_le_bytes 2 v) ≡ v
unfolding from_le_bytes to_le_bytes
from-to_u16 v h = omega arith

pub from-to_u32 : (v : ℕ) → IsU32 v → from_le_bytes (to_le_bytes 4 v) ≡ v
unfolding from_le_bytes to_le_bytes
from-to_u32 v h = omega arith

pub from-to_u64 : (v : ℕ) → IsU64 v → from_le_bytes (to_le_bytes 8 v) ≡ v
unfolding from_le_bytes to_le_bytes
from-to_u64 v h = omega arith

pub from_le_bytes-lt :
    (n : ℕ) (bs : Bytes) → length bs ≤ n → All IsByte bs → from_le_bytes bs < 256 ^ n
unfolding from_le_bytes
from_le_bytes-lt zero [] h k = omega arith
from_le_bytes-lt zero (b ∷ bs) h k = absurd (omega arith)
from_le_bytes-lt (suc n) [] h k =
    omega (arith, from_le_bytes-lt n [] (omega arith) tt, pow-suc 256 n)
from_le_bytes-lt (suc n) (b ∷ bs) h (p, k) =
    omega (arith, from_le_bytes-lt n bs (omega arith) k, pow-suc 256 n)

pub u64_at-IsU64 : (bs : Bytes) (i : ℕ) → All IsByte bs → IsU64 (u64_at bs i)
u64_at-IsU64 bs i h =
    from_le_bytes-lt 8 (slice bs i 8) (length-slice-le bs i 8)
      (All-take IsByte 8 (drop i bs) (All-drop IsByte i bs h))

pub u32_at-IsU32 : (bs : Bytes) (i : ℕ) → All IsByte bs → IsU32 (u32_at bs i)
u32_at-IsU32 bs i h =
    from_le_bytes-lt 4 (slice bs i 4) (length-slice-le bs i 4)
      (All-take IsByte 4 (drop i bs) (All-drop IsByte i bs h))

pub u16_at-IsU16 : (bs : Bytes) (i : ℕ) → All IsByte bs → IsU16 (u16_at bs i)
u16_at-IsU16 bs i h =
    from_le_bytes-lt 2 (slice bs i 2) (length-slice-le bs i 2)
      (All-take IsByte 2 (drop i bs) (All-drop IsByte i bs h))
