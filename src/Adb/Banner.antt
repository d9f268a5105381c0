-- ===== src/Adb/Banner.antt =====
-- `BannerInfo` and `parse_cnxn_banner`.
use rusty_cortex.Base.{
  ℕ, Bool, false, List, [], ◌∷◌, ◌++◌, Option, none, some, ◌==◌, ◌||◌, if◌then◌else◌, codes, equal,
  starts_with, drop, length,
}

pub record BannerInfo : Type 0 where
  pub state : List ℕ
  pub features : List (List ℕ)
  pub has_shell_v2 : Bool

-- `s.trim_end_matches(c)`; `held` is the run of `c` read last.
abbrev trim_from : ℕ → List ℕ → List ℕ → List ℕ
trim_from c held [] = []
trim_from c held (x ∷ xs) =
    let more = trim_from c (held ++ (x ∷ [])) xs in
    let keep = held ++ (x ∷ trim_from c [] xs) in if x == c then more else keep

unfoldable pub trim_end_matches : ℕ → List ℕ → List ℕ
trim_end_matches c s = trim_from c [] s

-- `s.split(sep).next()`: the text before the first `sep`, or all of it.
unfoldable pub before_first : List ℕ → List ℕ → List ℕ
before_first sep [] = []
before_first sep (c ∷ s) =
    let rest = c ∷ before_first sep s in if starts_with (c ∷ s) sep then [] else rest

-- `s.find(needle)`, with the text behind the match.
unfoldable pub after_first : List ℕ → List ℕ → Option (List ℕ)
after_first needle [] = if starts_with [] needle then some [] else none
after_first needle (c ∷ s) =
    let rest = after_first needle s in
    if starts_with (c ∷ s) needle then some (drop (length needle) (c ∷ s)) else rest

-- `s.split(sep)`, with the piece read so far.
abbrev pub split_from : ℕ → List ℕ → List ℕ → List (List ℕ)
split_from sep piece [] = piece ∷ []
split_from sep piece (c ∷ s) =
    let cut = piece ∷ split_from sep [] s in
    let on = split_from sep (piece ++ (c ∷ [])) s in if c == sep then cut else on

unfoldable pub split : ℕ → List ℕ → List (List ℕ)
split sep s = split_from sep [] s

unfoldable pub any_equal : List ℕ → List (List ℕ) → Bool
any_equal s [] = false
any_equal s (t ∷ ts) = equal t s || any_equal s ts

abbrev state_or_unknown : List ℕ → List ℕ
state_or_unknown [] = codes "unknown"
state_or_unknown (c ∷ s) = c ∷ s

abbrev listed_features : List ℕ → List (List ℕ)
listed_features [] = []
listed_features (c ∷ s) = split b',' (c ∷ s)

abbrev features_after : Option (List ℕ) → List (List ℕ)
features_after none = []
features_after (some s) = listed_features (before_first (codes ";") s)

unfoldable pub parse_cnxn_banner : List ℕ → BannerInfo
parse_cnxn_banner s =
    let banner = trim_end_matches 0 s in
    let features = features_after (after_first (codes "features=") banner) in
    record {
      state = state_or_unknown (before_first (codes "::") banner);
      features = features;
      has_shell_v2 = any_equal (codes "shell_v2") features;
    }
