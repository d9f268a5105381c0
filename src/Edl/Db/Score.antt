-- ===== src/Edl/Db/Score.antt =====
-- `score_candidates`: how well the programmers of a folder fit the device.
pub mod Order
pub mod Recorded
use rusty_cortex.Base.{
  ℕ, ◌*◌, Bool, true, false, not, ◌&&◌, ◌||◌, List, [], ◌∷◌, ◌++◌, Option, none, some, map, equal,
  contains, leb, ltb, ◌==◌, if◌then◌else◌, length, take,
}
use rusty_cortex.Base.Words.{Bytes}
use rusty_cortex.Base.Sort.{sort_by}
use rusty_cortex.Adb.Banner.{any_equal}
use rusty_cortex.Edl.Identity.{ProgrammerIdentity}
use rusty_cortex.Edl.Db.{Text, ProgrammerEntry, Entries, make_key, text_le}
use rusty_cortex.Edl.Db.Hwid.{normalize_hwid_to_bkerler}

pub data MatchLevel : Type 0 where
  db_exact binary_verified filename_match unknown db_other_device : MatchLevel

-- The derived order of the levels.
abbrev pub rank : MatchLevel → ℕ
rank db_exact = 0
rank binary_verified = 1
rank filename_match = 2
rank unknown = 3
rank db_other_device = 4

pub record ProgrammerCandidate : Type 0 where
  pub name : Text
  pub path : Text
  pub valid : Bool
  pub size_bytes : ℕ
  pub match_level : MatchLevel
  pub identity : Option ProgrammerIdentity

abbrev pub pkhash_prefix_len : ℕ
pkhash_prefix_len = 16

-- The first sixteen bytes of a hash in hexadecimal.
abbrev pub prefix : Text → Text
prefix s = if leb pkhash_prefix_len (length s) then take pkhash_prefix_len s else s

-- What the standard library and the crate hex do with texts.
pub record Texts : Type 0 where
  pub to_lowercase : Text → Text
  pub hex_decode : Text → Option Bytes

abbrev slash : ℕ → ℕ
slash c = if c == b'\\' then b'/' else c

abbrev pub normalize_path : Texts → Text → Text
normalize_path x p = map slash (x.to_lowercase p)

-- The paths of the entries that have the key, and of those that have another.
abbrev pub device_paths : Texts → Text → Entries → List Text
device_paths x key [] = []
device_paths x key (e ∷ es) =
    let rest = device_paths x key es in
    if equal e.0 key then normalize_path x e.1.programmer_path ∷ rest else rest

abbrev pub other_paths : Texts → Text → Entries → List Text
other_paths x key [] = []
other_paths x key (e ∷ es) =
    let rest = other_paths x key es in
    if equal e.0 key then rest else normalize_path x e.1.programmer_path ∷ rest

abbrev hwid_fits : Texts → Text → Text → Bool
hwid_fits x hwid [] = true
hwid_fits x hwid (c ∷ s) =
    let id_hw = x.to_lowercase (c ∷ s) in
    equal id_hw (x.to_lowercase hwid)
    || equal id_hw (normalize_hwid_to_bkerler x.to_lowercase x.hex_decode hwid)

-- The identity in the file is the device's.
abbrev pub is_verified : Texts → Text → Text → Option ProgrammerIdentity → Bool
is_verified x hwid pkhash none = false
is_verified x hwid pkhash (some identity) =
    hwid_fits x hwid identity.hw_id
    && equal (prefix (x.to_lowercase identity.pk_hash)) (prefix (x.to_lowercase pkhash))

-- The name of the file mentions the device.
abbrev pub is_named : Texts → Text → Text → Text → Bool
is_named x hwid pkhash name =
    let filename_lower = x.to_lowercase name in
    let hwid_lower = x.to_lowercase hwid in
    let pkhash_prefix = prefix (x.to_lowercase pkhash) in
    (leb 8 (length hwid_lower) && contains filename_lower hwid_lower)
    || (leb 8 (length pkhash_prefix) && contains filename_lower pkhash_prefix)

-- The level of a candidate that the database does not record for the device.
unfoldable pub unrecorded_level : Texts → Entries → Text → Text → ProgrammerCandidate → MatchLevel
unfolding normalize_hwid_to_bkerler equal contains any_equal make_key
unrecorded_level x db hwid pkhash c =
    if is_verified x hwid pkhash c.identity
    then binary_verified
    else if is_named x hwid pkhash c.name
    then filename_match
    else if any_equal (normalize_path x c.path)
        (other_paths x (make_key x.to_lowercase hwid pkhash) db)
    then db_other_device
    else c.match_level

unfoldable pub level_of : Texts → Entries → Text → Text → ProgrammerCandidate → MatchLevel
unfolding unrecorded_level any_equal make_key
level_of x db hwid pkhash c =
    if any_equal (normalize_path x c.path) (device_paths x (make_key x.to_lowercase hwid pkhash) db)
    then db_exact
    else unrecorded_level x db hwid pkhash c

abbrev pub with_level : MatchLevel → ProgrammerCandidate → ProgrammerCandidate
with_level level c = record {
  name = c.name;
  path = c.path;
  valid = c.valid;
  size_bytes = c.size_bytes;
  match_level = level;
  identity = c.identity;
}

-- The loop body.
abbrev pub scored : Texts → Entries → Text → Text → ProgrammerCandidate → ProgrammerCandidate
scored x db hwid pkhash c = with_level (level_of x db hwid pkhash c) c

-- By level, then by name without regard to case.
unfoldable pub candidate_le : Texts → ProgrammerCandidate → ProgrammerCandidate → Bool
unfolding text_le
candidate_le x a b =
    if ltb (rank a.match_level) (rank b.match_level)
    then true
    else if rank a.match_level == rank b.match_level
    then text_le (x.to_lowercase a.name) (x.to_lowercase b.name)
    else false

unfoldable pub score_candidates :
    Texts → List ProgrammerCandidate → Entries → Text → Text → List ProgrammerCandidate
unfolding sort_by candidate_le level_of
score_candidates x candidates db hwid pkhash =
    sort_by (candidate_le x) (map (scored x db hwid pkhash) candidates)
