-- ===== src/Adb/Device/Quoting.antt =====
-- How a POSIX shell reads the argument of `su -c`.
use rusty_cortex.Base.{
  ℕ, ◌≡◌, refl, sym, ap, inl, inr, Bool-cases, [], ◌∷◌, ◌++◌, Option, none, some, codes, ◌==◌,
  ==_iff, if◌then◌else◌,
}
use rusty_cortex.Adb.Device.{Text, su, escaped, wrap_for_root}

-- Outside of quotes, between single quotes, and behind a backslash outside of quotes.
pub data Mode : Type 0 where
  outside inside behind_backslash : Mode

abbrev with_first : ℕ → Option Text → Option Text
with_first c none = none
with_first c (some s) = some (c ∷ s)

-- The word that the text spells, if it is one word up to its end. A character outside of quotes that
-- is neither a quote nor a backslash may mean anything to the shell: then there is no word here.
unfoldable pub read_word : Mode → Text → Option Text
read_word outside [] = some []
read_word outside (c ∷ s) =
    let quoted = read_word inside s in
    let behind = read_word behind_backslash s in
    if c == 39 then quoted else if c == 92 then behind else none
read_word inside [] = none
read_word inside (c ∷ s) =
    let closed = read_word outside s in
    let rest = read_word inside s in if c == 39 then closed else with_first c rest
read_word behind_backslash [] = none
read_word behind_backslash (c ∷ s) = with_first c (read_word outside s)

inside-escaped : (cmd : Text) → read_word inside (escaped cmd ++ codes "'") ≡ some cmd
unfolding read_word
inside-escaped [] = refl
inside-escaped (c ∷ s) = elim (Bool-cases (c == 39)) [
  | inl quote ↦ rw (quote, inside-escaped s) (ap (λ d. some (d ∷ s)) (sym ((==_iff c 39).0 quote)))
  | inr other ↦ rw (other, other, inside-escaped s)
]

-- The command between quotes.
abbrev pub quoted : Text → Text
quoted cmd = 39 ∷ (escaped cmd ++ codes "'")

-- Whatever the command is, the text behind `su -c ` is one word of the shell, and the word is the
-- command: no character of it ends the quotes.
pub wrap_for_root-quoted :
    (cmd : Text)
    → (wrap_for_root cmd su ≡ codes "su -c " ++ quoted cmd)
      × (read_word outside (quoted cmd) ≡ some cmd)
unfolding wrap_for_root read_word
wrap_for_root-quoted cmd = (refl, inside-escaped cmd)
