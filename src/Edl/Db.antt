-- ===== src/Edl/Db.antt =====
-- edl_db.rs: the database of programmers that were used before.
pub mod Laws
pub mod History
pub mod Listing
pub mod Hwid
pub mod Score
pub mod Scan
use rusty_cortex.Base.{
  ℕ, ◌+◌, ◌%◌, ◌^◌, Bool, true, false, not, List, [], ◌∷◌, ◌++◌, Option, none, some, equal, ltb,
  ◌==◌, if◌then◌else◌, map,
}
use rusty_cortex.Base.Sort.{sort_by}

-- A text is the bytes of its UTF-8 form.
abbrev pub Text : Type 0
Text = List ℕ

pub record ProgrammerEntry : Type 0 where
  pub programmer_path : Text
  pub programmer_name : Text
  pub device_serial : Option Text
  pub storage_type : Option Text
  pub last_used : Text
  pub use_count : ℕ
  pub file_exists : Bool

-- The hash map, in the order of its iteration, which no function below depends on.
abbrev pub Entries : Type 0
Entries = List (Text × ProgrammerEntry)

-- `str::to_lowercase` is an argument: its tables belong to the standard library.
unfoldable pub make_key : (Text → Text) → Text → Text → Text
make_key to_lowercase hwid pkhash = to_lowercase hwid ++ (b':' ∷ to_lowercase pkhash)

unfoldable pub get : Entries → Text → Option ProgrammerEntry
unfolding equal
get [] key = none
get (e ∷ es) key = let rest = get es key in if equal e.0 key then some e.1 else rest

-- What `add` leaves of an entry with the same key. The count wraps in a release build.
abbrev pub used_again : ProgrammerEntry → ProgrammerEntry → ProgrammerEntry
used_again existing entry = record {
  programmer_path = entry.programmer_path;
  programmer_name = entry.programmer_name;
  device_serial = entry.device_serial;
  storage_type = entry.storage_type;
  last_used = entry.last_used;
  use_count = (existing.use_count + 1) % 2 ^ 32;
  file_exists = existing.file_exists;
}

-- `get_mut` with the changes, or `insert`.
unfoldable pub add_at : Text → ProgrammerEntry → Entries → Entries
unfolding equal
add_at key entry [] = (key, entry) ∷ []
add_at key entry (e ∷ es) =
    let rest = e ∷ add_at key entry es in
    if equal e.0 key then (e.0, used_again e.1 entry) ∷ es else rest

unfoldable pub add : (Text → Text) → Text → Text → ProgrammerEntry → Entries → Entries
unfolding make_key add_at
add to_lowercase hwid pkhash entry es = add_at (make_key to_lowercase hwid pkhash) entry es

abbrev pub without : Text → Entries → Entries
without key [] = []
without key (e ∷ es) = let rest = without key es in if equal e.0 key then rest else e ∷ rest

abbrev pub is_some {ℓ} : {A : Type ℓ} → Option A → Bool
is_some none = false
is_some (some a) = true

unfoldable pub remove : Text → Entries → Bool × Entries
unfolding equal get
remove key es = (is_some (get es key), without key es)

abbrev with_file : Bool → ProgrammerEntry → ProgrammerEntry
with_file exists e = record {
  programmer_path = e.programmer_path;
  programmer_name = e.programmer_name;
  device_serial = e.device_serial;
  storage_type = e.storage_type;
  last_used = e.last_used;
  use_count = e.use_count;
  file_exists = exists;
}

-- `exists` is what the file system says of a path.
unfoldable pub lookup_by_key : (Text → Bool) → Entries → Text → Option ProgrammerEntry
unfolding get
lookup_by_key exists es key = elim (get es key) [
  | none ↦ none
  | some e ↦ some (with_file (exists e.programmer_path) e)
]

-- `Ord` for strings: by bytes.
unfoldable pub text_le : Text → Text → Bool
text_le [] t = true
text_le (c ∷ s) [] = false
text_le (c ∷ s) (d ∷ t) =
    let rest = text_le s t in if ltb c d then true else if c == d then rest else false

unfoldable pub key_le : Text × ProgrammerEntry → Text × ProgrammerEntry → Bool
unfolding text_le
key_le a b = text_le a.0 b.0

unfoldable pub list : Entries → Entries
unfolding sort_by key_le
list es = sort_by key_le es
