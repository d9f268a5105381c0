-- ===== src/Edl/Db/Scan/Cache.antt =====
-- A scan with the identity cache and without it, and what a scan returns.
use mathlib.Core.Path.{ap₂}
use rusty_cortex.Base.{
  ℕ, ◌≡◌, refl, sym, ap, ◌∙◌, inl, inr, Bool, true, false, ◌&&◌, ◌==◌, Bool-cases, Option-cases,
  List, [], ◌∷◌, Option, none, some, equal, equal_iff, All,
}
use rusty_cortex.Base.Sort.{sort_by}
use rusty_cortex.Failure.{Result, ok, err, panic, ◌>>=◌}
use rusty_cortex.Edl.Identity.{ProgrammerIdentity}
use rusty_cortex.Edl.Db.{Text}
use rusty_cortex.Edl.Db.Score.{ProgrammerCandidate}
use rusty_cortex.Edl.Db.Scan.{
  remember, Folder, Cache, cached, identify, identify_all, with_identity, scan_programmers, name_le,
  collect_programmer_files,
}

-- Every entry is what parsing the file at its path gives.
abbrev pub IsSound : (Text → Option ProgrammerIdentity) → Cache → Type 0
IsSound parse cache = All (λ e. parse e.0.0 ≡ some e.1) cache

and_left : (a b : Bool) → (a && b) ≡ true → a ≡ true
and_left true b h = refl
and_left false b h = h

cached-parse :
    (parse : Text → Option ProgrammerIdentity) (cache : Cache) (path : Text) (size : ℕ)
    (identity : ProgrammerIdentity)
    → IsSound parse cache
    → cached cache path size ≡ some identity
    → parse path ≡ some identity
unfolding cached
cached-parse parse [] path size identity sound hit = absurd (cc)
cached-parse parse (e ∷ es) path size identity (h, sound) hit =
    elim (Bool-cases (equal e.0.0 path && e.0.1 == size)) [
      | inl here ↦
          ap parse (sym ((equal_iff e.0.0 path).0 (and_left _ _ here))) ∙ h ∙ (rw here at hit)
      | inr other ↦ cached-parse parse es path size identity sound (rw other at hit)
    ]

abbrev IsSoundAfter : (Text → Option ProgrammerIdentity) → Option Cache → Type 0
IsSoundAfter parse none = Unit
IsSoundAfter parse (some cache) = IsSound parse cache

remember-IsSound :
    (parse : Text → Option ProgrammerIdentity) (key : Text × ℕ) (o : Option ProgrammerIdentity)
    (cache : Cache)
    → parse key.0 ≡ o
    → IsSound parse cache
    → IsSound parse (remember key o cache)
remember-IsSound parse key none cache same sound = sound
remember-IsSound parse key (some identity) cache same sound = (same, sound)

identify-parse :
    (parse : Text → Option ProgrammerIdentity) (c : ProgrammerCandidate) (cache : Option Cache)
    → IsSoundAfter parse cache
    → ((identify parse c cache).0 ≡ parse c.path) × IsSoundAfter parse ((identify parse c cache).1)
unfolding identify
identify-parse parse c none sound = (refl, tt)
identify-parse parse c (some cache) sound = elim (Option-cases (cached cache c.path c.size_bytes)) [
  | inl miss ↦
      rw miss (refl, remember-IsSound parse (c.path, c.size_bytes) (parse c.path) cache refl sound)
  | inr (identity, hit) ↦
      rw hit (sym (cached-parse parse cache c.path c.size_bytes identity sound hit), sound)
]

identify_all-parse :
    (parse : Text → Option ProgrammerIdentity) (cs : List ProgrammerCandidate)
    (cache : Option Cache)
    → IsSoundAfter parse cache
    → ((identify_all parse cs cache).0 ≡ (identify_all parse cs none).0)
      × IsSoundAfter parse ((identify_all parse cs cache).1)
unfolding identify_all
identify_all-parse parse [] cache sound = (refl, sound)
identify_all-parse parse (c ∷ cs) cache sound =
    let (here, after) = identify-parse parse c cache sound in
    let (rest, last) = identify_all-parse parse cs ((identify parse c cache).1) after in
    (ap₂ (λ i others. with_identity i c ∷ others) here rest, last)

-- The candidates that a scan returns.
abbrev pub candidates_of :
    Result (List ProgrammerCandidate × Option Cache) → Result (List ProgrammerCandidate)
candidates_of result = result >>= λ r. ok r.0

then_same :
    (r : Result (List ProgrammerCandidate))
    (f g : List ProgrammerCandidate → Result (List ProgrammerCandidate × Option Cache))
    → ((cs : List ProgrammerCandidate) → candidates_of (f cs) ≡ candidates_of (g cs))
    → candidates_of (r >>= f) ≡ candidates_of (r >>= g)
then_same (ok cs) f g same = same cs
then_same (err why) f g same = refl
then_same panic f g same = refl

-- If every identity in the cache is what parsing its file gives, a scan with the cache ends as the
-- scan without one: the same candidates with the same identities, or the same error.
pub scan_programmers-cached :
    (to_lowercase : Text → Text) (parse : Text → Option ProgrammerIdentity) (shown : Text)
    (dir : Option Folder) (cache : Cache)
    → IsSound parse cache
    → candidates_of (scan_programmers to_lowercase parse shown dir (some cache))
      ≡ candidates_of (scan_programmers to_lowercase parse shown dir none)
unfolding scan_programmers
scan_programmers-cached to_lowercase parse shown none cache sound = refl
scan_programmers-cached to_lowercase parse shown (some folder) cache sound =
    then_same (collect_programmer_files to_lowercase 0 2 folder []) _ _ λ cs.
      ap (λ found. ok (sort_by (name_le to_lowercase) found))
        ((identify_all-parse parse cs (some cache) sound).0)
