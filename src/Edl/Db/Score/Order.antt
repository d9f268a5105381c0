-- ===== src/Edl/Db/Score/Order.antt =====
-- The order in which `score_candidates` leaves the candidates.
use rusty_cortex.Base.{ℕ, Bool, ltb, ◌==◌, ◌||◌, ◌&&◌, List}
use rusty_cortex.Edl.Db.{Text, Entries, text_le}
use rusty_cortex.Edl.Db.Score.{
  MatchLevel, db_exact, binary_verified, filename_match, unknown, db_other_device, level_of, Texts,
  ProgrammerCandidate,
}

-- The order that is meant: what is recorded for this device first, then what the file itself says,
-- then what its name says, then what nothing is known of, and last what is recorded for other devices.
abbrev pub place : MatchLevel → ℕ
place db_exact = 1
place binary_verified = 2
place filename_match = 3
place unknown = 4
place db_other_device = 5

-- Earlier in that order, or at the same place with a name that is no later in lower case.
abbrev pub comes_before : Texts → ProgrammerCandidate → ProgrammerCandidate → Bool
comes_before x a b =
    ltb (place a.match_level) (place b.match_level)
    || (place a.match_level == place b.match_level
        && text_le (x.to_lowercase a.name) (x.to_lowercase b.name))

-- A candidate with its level, and otherwise as it was.
abbrev pub levelled : Texts → Entries → Text → Text → ProgrammerCandidate → ProgrammerCandidate
levelled x db hwid pkhash c = record c { match_level = level_of x db hwid pkhash c }
