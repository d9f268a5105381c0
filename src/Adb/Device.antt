-- ===== src/Adb/Device.antt =====
-- protocols/adb/mod.rs: what is asked of a device through its shell. Texts are ASCII here.
pub mod Quoting
use rusty_cortex.Base.{
  ℕ, ◌+◌, ◌-◌, Bool, true, false, not, ◌&&◌, ◌||◌, List, [], ◌∷◌, ◌++◌, Option, none, some, String,
  codes, equal, contains, starts_with, ltb, leb, ◌==◌, if◌then◌else◌, length, take, drop, map,
}
use rusty_cortex.Failure.{Arg, text, number, FlashError, validation, Result, ok, err}
use rusty_cortex.Adb.Sideload.{parse_u64}

abbrev pub Text : Type 0
Text = List ℕ

-- `char::is_whitespace` on ASCII.
abbrev pub is_space : ℕ → Bool
is_space c = (c == 32) || (leb 9 c && leb c 13)

abbrev pub trim_start : Text → Text
trim_start [] = []
trim_start (c ∷ s) = let rest = trim_start s in if is_space c then rest else c ∷ s

-- A character in front of a text whose end is trimmed.
abbrev keep : ℕ → Text → Text
keep c [] = if is_space c then [] else c ∷ []
keep c (d ∷ s) = c ∷ d ∷ s

abbrev pub trim_end : Text → Text
trim_end [] = []
trim_end (c ∷ s) = keep c (trim_end s)

unfoldable pub trim : Text → Text
trim s = trim_end (trim_start s)

-- `str::parse` of a number below `limit`.
unfoldable pub parse_below : ℕ → Text → Option ℕ
unfolding parse_u64
parse_below limit s = elim (parse_u64 s) [
  | none ↦ none
  | some n ↦ if ltb n limit then some n else none
]

pub data RootType : Type 0 where
  no_root adb su : RootType

-- `cmd.replace('\'', "'\\''")`
abbrev pub escaped : Text → Text
escaped [] = []
escaped (c ∷ s) = let rest = escaped s in if c == 39 then 39 ∷ 92 ∷ 39 ∷ 39 ∷ rest else c ∷ rest

unfoldable pub wrap_for_root : Text → RootType → Text
wrap_for_root cmd su = codes "su -c '" ++ (escaped cmd ++ codes "'")
wrap_for_root cmd other = cmd

abbrev forbidden : Text
forbidden = codes ";|&$`(){}" ++ (10 ∷ 13 ∷ 92 ∷ 39 ∷ 34 ∷ [])

abbrev pub member : ℕ → Text → Bool
member c [] = false
member c (d ∷ s) = c == d || member c s

abbrev pub find_forbidden : Text → Option ℕ
find_forbidden [] = none
find_forbidden (c ∷ s) = let rest = find_forbidden s in if member c forbidden then some c else rest

abbrev path_verdict : Text → Option ℕ → Result (Unit {0})
path_verdict path none = ok tt
path_verdict path (some bad) =
    err (
      validation "Path contains unsafe character '{bad}': {path}"
        (text (bad ∷ []) ∷ text path ∷ []))

unfoldable pub validate_shell_path : Text → Result (Unit {0})
validate_shell_path [] = err (validation "Path is empty" [])
validate_shell_path (c ∷ s) = path_verdict (c ∷ s) (find_forbidden (c ∷ s))

-- The names of the battery codes.
abbrev health_name : ℕ → String
health_name code =
    if code == 2
    then "Good"
    else if code == 3
    then "Overheat"
    else if code == 4
    then "Dead"
    else if code == 5
    then "Over voltage"
    else if code == 6
    then "Failure"
    else if code == 7
    then "Cold"
    else "Unknown"

abbrev health_text : Text → Option ℕ → Option Text
health_text s (some code) = some (codes (health_name code))
health_text s none = if contains s (codes "::") || contains s (codes "@") then none else some s

abbrev health_of : Text → Option Text
health_of [] = none
health_of (c ∷ s) = health_text (c ∷ s) (parse_below 4294967296 (c ∷ s))

unfoldable pub parse_battery_health : Text → Option Text
unfolding trim parse_below contains
parse_battery_health raw = health_of (trim raw)

-- What the device answers to a shell command: its output, or `none` for an error.
abbrev pub ShellAnswers : Type 0
ShellAnswers = Text → Option Text

abbrev is_root : Option Text → Bool
is_root none = false
is_root (some output) = contains output (codes "uid=0(root)")

unfoldable pub check_root_sync : ShellAnswers → RootType × String
unfolding contains
check_root_sync shell =
    if is_root (shell (codes "id"))
    then (adb, "ADB running as root")
    else if is_root (shell (codes "su -c id"))
    then (su, "Root available via su")
    else (no_root, "Root access not available")
