-- ===== src/Edl/Mbn/Metadata/Hex.antt =====
-- The hexadecimal text of the ids, against a table of the digits.
use rusty_cortex.Base.{
  ℕ, zero, suc, ◌/◌, ◌%◌, ◌<◌, ◌≡◌, refl, arith, List, [], ◌∷◌, ◌++◌, get_or, codes,
}
use rusty_cortex.Edl.Mbn.Metadata.{hex_lower_digit, hex_lower}

-- A number in hexadecimal with `n` digits.
abbrev pub hex_text : ℕ → ℕ → List ℕ
hex_text zero v = []
hex_text (suc n) v = hex_text n (v / 16) ++ (get_or (codes "0123456789abcdef") (v % 16) 0 ∷ [])

hex_lower_digit-table : (d : ℕ) → d < 16 → hex_lower_digit d ≡ get_or (codes "0123456789abcdef") d 0
unfolding hex_lower_digit
hex_lower_digit-table zero small = refl
hex_lower_digit-table (suc zero) small = refl
hex_lower_digit-table (suc (suc zero)) small = refl
hex_lower_digit-table (suc (suc (suc zero))) small = refl
hex_lower_digit-table (suc (suc (suc (suc zero)))) small = refl
hex_lower_digit-table (suc (suc (suc (suc (suc zero))))) small = refl
hex_lower_digit-table (suc (suc (suc (suc (suc (suc zero)))))) small = refl
hex_lower_digit-table (suc (suc (suc (suc (suc (suc (suc zero))))))) small = refl
hex_lower_digit-table (suc (suc (suc (suc (suc (suc (suc (suc zero)))))))) small = refl
hex_lower_digit-table (suc (suc (suc (suc (suc (suc (suc (suc (suc zero))))))))) small = refl
hex_lower_digit-table (suc (suc (suc (suc (suc (suc (suc (suc (suc (suc zero)))))))))) small = refl
hex_lower_digit-table (suc (suc (suc (suc (suc (suc (suc (suc (suc (suc (suc zero))))))))))) small =
    refl
hex_lower_digit-table (suc (suc (suc (suc (suc (suc (suc (suc (suc (suc (suc (suc zero))))))))))))
      small =
    refl
hex_lower_digit-table
      (suc (suc (suc (suc (suc (suc (suc (suc (suc (suc (suc (suc (suc zero))))))))))))) small =
    refl
hex_lower_digit-table
      (suc (suc (suc (suc (suc (suc (suc (suc (suc (suc (suc (suc (suc (suc zero))))))))))))))
      small =
    refl
hex_lower_digit-table
      (suc (suc (suc (suc (suc (suc (suc (suc (suc (suc (suc (suc (suc (suc (suc zero)))))))))))))))
      small =
    refl
hex_lower_digit-table
      (suc
        (suc (suc (suc (suc (suc (suc (suc (suc (suc (suc (suc (suc (suc (suc (suc d))))))))))))))))
      small =
    absurd (omega arith)

pub hex_lower-hex_text : (n v : ℕ) → hex_lower n v ≡ hex_text n v
unfolding hex_lower
hex_lower-hex_text zero v = refl
hex_lower-hex_text (suc n) v =
    rw (hex_lower-hex_text n (v / 16), hex_lower_digit-table (v % 16) (omega arith)) refl
