-- ===== src/Adb/Logcat/Fuel.antt =====
-- As many rounds as the buffer has bytes are enough for the parser's loop.
use rusty_cortex.Base.{
  ℕ, zero, suc, ◌+◌, ◌≤◌, ◌&&◌, List, [], ◌∷◌, ◌≡◌, refl, ap, arith, ltb, leb, length, drop,
  Bool-cases, inl, inr, length-drop,
}
use rusty_cortex.Base.Words.{Bytes, u16_at}
use rusty_cortex.Adb.Logcat.{front_entry, push_front, parse_loop}

module _ (from_utf8_lossy : Bytes → List ℕ) where
  -- More rounds than bytes change nothing: the loop always ends by itself.
  pub parse_loop_enough :
      (fuel more : ℕ) (buf : Bytes)
      → length buf ≤ fuel
      → length buf ≤ more
      → parse_loop from_utf8_lossy fuel buf ≡ parse_loop from_utf8_lossy more buf
  unfolding parse_loop
  parse_loop_enough zero zero buf h k = refl
  parse_loop_enough zero (suc more) [] h k = refl
  parse_loop_enough zero (suc more) (b ∷ bs) h k = absurd (omega arith)
  parse_loop_enough (suc fuel) zero [] h k = refl
  parse_loop_enough (suc fuel) zero (b ∷ bs) h k = absurd (omega arith)
  parse_loop_enough (suc fuel) (suc more) buf h k = elim (Bool-cases (ltb (length buf) 4)) [
    | inl short ↦ rw short refl
    | inr long ↦ rw long (elim (Bool-cases (leb 20 (u16_at buf 2) && leb (u16_at buf 2) 64)) [
      | inr bad ↦ rw bad refl
      | inl good ↦ rw good (elim (Bool-cases (ltb (length buf) (u16_at buf 2 + u16_at buf 0))) [
        | inl partial ↦ rw partial refl
        | inr whole ↦ rw whole (
            ap (push_front buf (front_entry from_utf8_lossy buf)) (
              parse_loop_enough fuel more (drop (u16_at buf 2 + u16_at buf 0) buf)
                (ground (arith, length-drop (u16_at buf 2 + u16_at buf 0) buf))
                (ground (arith, length-drop (u16_at buf 2 + u16_at buf 0) buf))))
      ])
    ])
  ]
