-- ===== src/Edl/Db/Scan.antt =====
-- `scan_programmers` and `collect_programmer_files`.
pub mod Cache
pub mod Fresh
use rusty_cortex.Base.{
  ℕ, suc, ◌+◌, Bool, true, false, not, ◌&&◌, ◌||◌, List, [], ◌∷◌, ◌++◌, Option, none, some, equal,
  codes, ltb, ◌==◌, if◌then◌else◌, one_of,
}
use rusty_cortex.Base.Words.{Bytes}
use rusty_cortex.Base.Sort.{sort_by}
use rusty_cortex.Failure.{
  Arg, text, FlashError, IoErrorKind, validation, io, Result, ok, err, panic, ◌>>=◌,
}
use rusty_cortex.Edl.Identity.{ProgrammerIdentity}
use rusty_cortex.Edl.Mbn.Elf.{is_valid_programmer_magic}
use rusty_cortex.Edl.Db.{Text, text_le}
use rusty_cortex.Edl.Db.Score.{ProgrammerCandidate, MatchLevel, unknown}

-- What the file system says of a file. `header` is `none` if the file cannot be opened, and
-- `some none` if it has less than four bytes.
pub record FileFacts : Type 0 where
  pub name : Option Text
  pub path : Text
  pub size : Result ℕ
  pub header : Option (Option Bytes)

-- A folder and its entries, as `read_dir` reports them.
mutual
  pub data Item : Type 0 where
    directory : Folder → Item
    regular : FileFacts → Item
    neither : Item

  pub data Folder : Type 0 where
    unreadable : IoErrorKind → Folder
    readable : Listing → Folder

  pub data Listing : Type 0 where
    last : Listing
    entry : Item → Listing → Listing
    bad_entry : IoErrorKind → Listing → Listing

-- `name.rsplit('.').next()`: the text behind the last dot, or all of it.
abbrev after_last_dot : Text → Text → Text
after_last_dot piece [] = piece
after_last_dot piece (c ∷ s) =
    let cut = after_last_dot [] s in
    let on = after_last_dot (piece ++ (c ∷ [])) s in if c == b'.' then cut else on

abbrev pub extension : Text → Text
extension name = after_last_dot [] name

abbrev pub is_programmer_name : (Text → Text) → Text → Bool
is_programmer_name to_lowercase name =
    one_of (to_lowercase (extension name)) ("elf" ∷ "mbn" ∷ "bin" ∷ [])

abbrev pub header_valid : Option Bytes → Bool
header_valid none = false
header_valid (some bytes) = is_valid_programmer_magic bytes

abbrev pub candidate : Text → Text → ℕ → Bool → ProgrammerCandidate
candidate name path size valid = record {
  name = name;
  path = path;
  valid = valid;
  size_bytes = size;
  match_level = unknown;
  identity = none;
}

abbrev pub push :
    List ProgrammerCandidate → Text → Text → ℕ → Option (Option Bytes) → List ProgrammerCandidate
push out name path size none = out
push out name path size (some header) = out ++ (candidate name path size (header_valid header) ∷ [])

-- A file with a name.
abbrev pub named_file :
    (Text → Text)
    → FileFacts
    → List ProgrammerCandidate
    → Option Text
    → Result (List ProgrammerCandidate)
named_file to_lowercase f out none = ok out
named_file to_lowercase f out (some name) =
    if is_programmer_name to_lowercase name
    then f.size >>= (λ size. ok (push out name f.path size f.header))
    else ok out

unfoldable mutual
  unfolding is_valid_programmer_magic one_of

  pub collect_programmer_files :
      (Text → Text) → ℕ → ℕ → Folder → List ProgrammerCandidate → Result (List ProgrammerCandidate)
  collect_programmer_files low depth max (unreadable kind) out =
      if ltb max depth then ok out else err (io kind)
  collect_programmer_files low depth max (readable entries) out =
      let found = collect_entries low depth max entries out in
      if ltb max depth then ok out else found

  pub collect_entries :
      (Text → Text) → ℕ → ℕ → Listing → List ProgrammerCandidate → Result (List ProgrammerCandidate)
  collect_entries low depth max last out = ok out
  collect_entries low depth max (bad_entry kind rest) out = err (io kind)
  collect_entries low depth max (entry item rest) out =
      collect_item low depth max item out >>= λ found. collect_entries low depth max rest found

  pub collect_item :
      (Text → Text) → ℕ → ℕ → Item → List ProgrammerCandidate → Result (List ProgrammerCandidate)
  collect_item low depth max (directory folder) out =
      collect_programmer_files low (depth + 1) max folder out
  collect_item low depth max (regular f) out = named_file low f out f.name
  collect_item low depth max neither out = ok out

-- The identities parsed before, by path and size.
abbrev pub Cache : Type 0
Cache = List ((Text × ℕ) × ProgrammerIdentity)

unfoldable pub cached : Cache → Text → ℕ → Option ProgrammerIdentity
unfolding equal
cached [] path size = none
cached (e ∷ es) path size =
    let rest = cached es path size in if equal e.0.0 path && e.0.1 == size then some e.1 else rest

abbrev pub with_identity : Option ProgrammerIdentity → ProgrammerCandidate → ProgrammerCandidate
with_identity identity c = record {
  name = c.name;
  path = c.path;
  valid = c.valid;
  size_bytes = c.size_bytes;
  match_level = c.match_level;
  identity = identity;
}

abbrev pub remember : Text × ℕ → Option ProgrammerIdentity → Cache → Cache
remember key none cache = cache
remember key (some identity) cache = (key, identity) ∷ cache

-- The identity of one candidate, and the cache behind it. `parse` is `parse_programmer_identity`
-- on the file at a path, where it returns.
abbrev pub identify_with :
    (Text → Option ProgrammerIdentity)
    → ProgrammerCandidate
    → Option ProgrammerIdentity
    → Cache
    → Option ProgrammerIdentity × Cache
identify_with parse c (some identity) cache = (some identity, cache)
identify_with parse c none cache =
    (parse c.path, remember (c.path, c.size_bytes) (parse c.path) cache)

unfoldable pub identify :
    (Text → Option ProgrammerIdentity)
    → ProgrammerCandidate
    → Option Cache
    → Option ProgrammerIdentity × Option Cache
unfolding cached
identify parse c none = (parse c.path, none)
identify parse c (some cache) =
    let (identity, after) = identify_with parse c (cached cache c.path c.size_bytes) cache in
    (identity, some after)

unfoldable pub identify_all :
    (Text → Option ProgrammerIdentity)
    → List ProgrammerCandidate
    → Option Cache
    → List ProgrammerCandidate × Option Cache
unfolding identify
identify_all parse [] cache = ([], cache)
identify_all parse (c ∷ cs) cache =
    let one = identify parse c cache in
    let (others, after) = identify_all parse cs one.1 in (with_identity one.0 c ∷ others, after)

abbrev pub name_le : (Text → Text) → ProgrammerCandidate → ProgrammerCandidate → Bool
name_le low a b = text_le (low a.name) (low b.name)

-- `dir` is the displayed path and what the file system says of it, `none` if it is no directory.
unfoldable pub scan_programmers :
    (Text → Text)
    → (Text → Option ProgrammerIdentity)
    → Text
    → Option Folder
    → Option Cache
    → Result (List ProgrammerCandidate × Option Cache)
unfolding collect_programmer_files collect_entries collect_item identify_all sort_by text_le
scan_programmers low parse shown none cache =
    err (validation "Not a directory: {}" (text shown ∷ []))
scan_programmers low parse shown (some folder) cache =
    collect_programmer_files low 0 2 folder [] >>= λ candidates.
    let (with_ids, after) = identify_all parse candidates cache in
    ok (sort_by (name_le low) with_ids, after)
