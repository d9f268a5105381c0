-- ===== src/Failure.antt =====
-- error.rs: `FlashError`, and how a call of the program can end.
use rusty_cortex.Base.{ℕ, String, List, ◌≡◌, refl}
use rusty_cortex.Base.Words.{Bytes}

-- What a `format!` call puts into a message.
pub data Arg : Type 0 where
  number : ℕ → Arg
  text : Bytes → Arg

-- `std::io::ErrorKind`, the kinds that the program tells apart or makes.
pub data IoErrorKind : Type 0 where
  unexpected_eof timed_out would_block broken_pipe connection_reset connection_aborted not_found :
      IoErrorKind
  other : IoErrorKind

-- A message is its format string and the arguments.
pub data FlashError : Type 0 where
  no_device : FlashError
  device_disconnected : FlashError
  usb : String → List Arg → FlashError
  protocol : String → List Arg → FlashError
  validation : String → List Arg → FlashError
  io : IoErrorKind → FlashError

-- `panic` is no Rust value: the call aborts (`panic = "abort"` in Cargo.toml).
pub data Result {ℓ} (A : Type ℓ) : Type ℓ where
  ok : A → Result A
  err : FlashError → Result A
  panic : Result A

-- The `?` operator; it computes wherever it stands.
infixl 5 ◌>>=◌ ◌>>◌
abbrev pub ◌>>=◌ {ℓ κ} :
    {Done : Type ℓ} {Next : Type κ} → Result Done → (Done → Result Next) → Result Next
panic >>= next = panic
err why >>= next = err why
ok done >>= next = next done

abbrev pub ◌>>◌ {ℓ} : {Next : Type ℓ} → Result (Unit {0}) → Result Next → Result Next
first >> second = first >>= λ done. second

-- Where a chain returns, its first call did, and so did the rest on what that returned.
pub >>=-eq-ok {ℓ κ} :
    {Done : Type ℓ} {Next : Type κ} (first : Result Done) (next : Done → Result Next) {value : Next}
    → (first >>= next) ≡ ok value
    → (done : Done) × (first ≡ ok done) × (next done ≡ ok value)
>>=-eq-ok panic next returns = cc
>>=-eq-ok (err why) next returns = cc
>>=-eq-ok (ok done) next returns = (done, refl, returns)
