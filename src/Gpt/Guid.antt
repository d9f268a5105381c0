-- ===== src/Gpt/Guid.antt =====
-- `format_guid`.
use rusty_cortex.Base.{
  ℕ, zero, suc, ◌+◌, ◌-◌, ◌/◌, ◌%◌, List, [], ◌∷◌, ◌++◌, ltb, if◌then◌else◌, length, slice, codes,
}
use rusty_cortex.Base.Words.{Bytes, u16_at, u32_at}

unfoldable pub hex_digit : ℕ → ℕ
hex_digit d = if ltb d 10 then b'0' + d else b'A' + (d - 10)

-- `{:0nX}` of a number below 16 ^ n.
unfoldable pub hex_upper : ℕ → ℕ → List ℕ
unfolding hex_digit
hex_upper zero v = []
hex_upper (suc n) v = hex_upper n (v / 16) ++ (hex_digit (v % 16) ∷ [])

-- Two hexadecimal digits for each byte in turn.
abbrev hex_bytes : Bytes → List ℕ
hex_bytes [] = []
hex_bytes (b ∷ bs) = hex_upper 2 b ++ hex_bytes bs

unfoldable pub format_guid : Bytes → List ℕ
unfolding hex_upper
format_guid bytes =
    if ltb (length bytes) 16
    then codes "00000000-0000-0000-0000-000000000000"
    else hex_upper 8 (u32_at bytes 0)
      ++ (b'-'
          ∷ (hex_upper 4 (u16_at bytes 4)
              ++ (b'-'
                  ∷ (hex_upper 4 (u16_at bytes 6)
                      ++ (b'-'
                          ∷ (hex_bytes (slice bytes 8 2)
                              ++ (b'-' ∷ hex_bytes (slice bytes 10 6))))))))
