-- ===== src/Edl/Db/Score/Recorded.antt =====
-- What the database says of a candidate.
use rusty_cortex.Base.{
  equal_iff, if_elim, subst, ◌≡◌, ◌≢◌, refl, sym, ap, ◌∙◌, ◌↔◌, inl, inr, Bool, true, false, ◌||◌,
  Bool-cases, List, All, [], ◌∷◌, Option, none, some, equal,
}
use rusty_cortex.Adb.Banner.{any_equal}
use rusty_cortex.Edl.Db.{Text, ProgrammerEntry, Entries, get, add, make_key}
use rusty_cortex.Edl.Db.Laws.{Apart, Distinct, equal_self, get-add, added, add-remove-Distinct}
use rusty_cortex.Edl.Db.Score.{
  Texts, ProgrammerCandidate, db_exact, unknown, level_of, unrecorded_level, normalize_path,
  device_paths, is_verified, is_named, other_paths,
}

-- The path that a key is recorded with.
abbrev pub recorded : Texts → Text → Option ProgrammerEntry → Bool
recorded x p none = false
recorded x p (some e) = equal (normalize_path x e.programmer_path) p

or_false : (b : Bool) → (b || false) ≡ b
or_false true = refl
or_false false = refl

device_paths-Apart :
    (x : Texts) (key : Text) (es : Entries) (p : Text)
    → Apart key es
    → any_equal p (device_paths x key es) ≡ false
unfolding any_equal
device_paths-Apart x key [] p apart = refl
device_paths-Apart x key (e ∷ es) p (ne, apart) = rw ne (device_paths-Apart x key es p apart)

device_paths-recorded :
    (x : Texts) (key : Text) (es : Entries) (p : Text)
    → Distinct es
    → any_equal p (device_paths x key es) ≡ recorded x p (get es key)
unfolding any_equal get
device_paths-recorded x key [] p d = refl
device_paths-recorded x key (e ∷ es) p (apart, d) = elim (Bool-cases (equal e.0 key)) [
  | inl here ↦
      rw
        (
          here,
          device_paths-Apart x key es p
              (subst (λ k. Apart k es) ((equal_iff e.0 key).0 here) apart),
        )
        (or_false (equal (normalize_path x e.1.programmer_path) p))
  | inr other ↦ rw other (device_paths-recorded x key es p d)
]

get-add_self :
    (to_lowercase : Text → Text) (hwid pkhash : Text) (entry : ProgrammerEntry) (db : Entries)
    → get (add to_lowercase hwid pkhash entry db) (make_key to_lowercase hwid pkhash)
      ≡ some (added (get db (make_key to_lowercase hwid pkhash)) entry)
get-add_self to_lowercase hwid pkhash entry db =
    get-add to_lowercase hwid pkhash entry db (make_key to_lowercase hwid pkhash)
    ∙ rw (equal_self (make_key to_lowercase hwid pkhash))

recorded-added :
    (x : Texts) (p : Text) (before : Option ProgrammerEntry) (entry : ProgrammerEntry)
    → p ≡ normalize_path x entry.programmer_path
    → recorded x p (some (added before entry)) ≡ true
recorded-added x p none entry same = (equal_iff _ _).1 (sym same)
recorded-added x p (some e) entry same = (equal_iff _ _).1 (sym same)

unrecorded_level-ne :
    (x : Texts) (db : Entries) (hwid pkhash : Text) (c : ProgrammerCandidate)
    → c.match_level ≡ unknown
    → unrecorded_level x db hwid pkhash c ≢ db_exact
unfolding unrecorded_level
unrecorded_level-ne x db hwid pkhash c fresh =
    if_elim (λ l. l ≢ db_exact) (is_verified x hwid pkhash c.identity) _ _ (λ e. cc)
      (if_elim (λ l. l ≢ db_exact) (is_named x hwid pkhash c.name) _ _ (λ e. cc)
        (if_elim (λ l. l ≢ db_exact)
          (any_equal (normalize_path x c.path)
            (other_paths x (make_key x.to_lowercase hwid pkhash) db))
          _ _ (λ e. cc) (λ e. cc)))

-- A candidate that comes without a level is at the first one exactly if the database records its
-- path for the device.
pub level_of-db_exact_iff :
    (x : Texts) (db : Entries) (hwid pkhash : Text) (c : ProgrammerCandidate)
    → Distinct db
    → c.match_level ≡ unknown
    → (level_of x db hwid pkhash c ≡ db_exact)
      ↔ (recorded x (normalize_path x c.path) (get db (make_key x.to_lowercase hwid pkhash)) ≡ true)
unfolding level_of
level_of-db_exact_iff x db hwid pkhash c d fresh =
    let key = make_key x.to_lowercase hwid pkhash in
    let norm_path = normalize_path x c.path in
    let same = device_paths-recorded x key db norm_path d in
    (
      (λ exact. elim (Bool-cases (any_equal norm_path (device_paths x key db))) [
        | inl yes_recorded ↦ sym same ∙ yes_recorded
        | inr not_recorded ↦
            absurd (unrecorded_level-ne x db hwid pkhash c fresh (rw not_recorded at exact))
      ]),
      (λ yes_recorded. rw (same ∙ yes_recorded)),
    )

-- A call of `add`.
pub record Addition : Type 0 where
  pub hwid : Text
  pub pkhash : Text
  pub entry : ProgrammerEntry

abbrev pub add_all : (Text → Text) → List Addition → Entries → Entries
add_all to_lowercase [] db = db
add_all to_lowercase (a ∷ more) db =
    add_all to_lowercase more (add to_lowercase a.hwid a.pkhash a.entry db)

-- An addition for another device than the one with this key.
abbrev pub IsOther : (Text → Text) → Text → Addition → Type 0
IsOther to_lowercase key a = equal (make_key to_lowercase a.hwid a.pkhash) key ≡ false

get-add_other :
    (to_lowercase : Text → Text) (a : Addition) (key : Text) (db : Entries)
    → IsOther to_lowercase key a
    → get (add to_lowercase a.hwid a.pkhash a.entry db) key ≡ get db key
get-add_other to_lowercase a key db other =
    get-add to_lowercase a.hwid a.pkhash a.entry db key ∙ rw other refl

get-add_all :
    (to_lowercase : Text → Text) (key : Text) (more : List Addition) (db : Entries)
    → All (IsOther to_lowercase key) more
    → get (add_all to_lowercase more db) key ≡ get db key
get-add_all to_lowercase key [] db others = refl
get-add_all to_lowercase key (a ∷ more) db (other, others) =
    get-add_all to_lowercase key more (add to_lowercase a.hwid a.pkhash a.entry db) others
    ∙ get-add_other to_lowercase a key db other

add_all-Distinct :
    (to_lowercase : Text → Text) (more : List Addition) (db : Entries)
    → Distinct db
    → Distinct (add_all to_lowercase more db)
add_all-Distinct to_lowercase [] db d = d
add_all-Distinct to_lowercase (a ∷ more) db d =
    add_all-Distinct to_lowercase more (add to_lowercase a.hwid a.pkhash a.entry db)
      ((add-remove-Distinct to_lowercase a.hwid a.pkhash [] a.entry db d).0)

-- The programmer that was added for a device is at the first level for that device, whatever the
-- database held before and whatever is added for other devices afterwards, as long as nothing more is
-- added for the device itself. The database holds every key at most once.
pub level_of-add :
    (x : Texts) (db : Entries) (hwid pkhash : Text) (entry : ProgrammerEntry)
    (later : List Addition) (c : ProgrammerCandidate)
    → Distinct db
    → All (IsOther x.to_lowercase (make_key x.to_lowercase hwid pkhash)) later
    → normalize_path x c.path ≡ normalize_path x entry.programmer_path
    → level_of x
        (add_all x.to_lowercase later (add x.to_lowercase hwid pkhash entry db))
        hwid
        pkhash
        c
      ≡ db_exact
unfolding level_of
level_of-add x db hwid pkhash entry later c d others same =
    let key = make_key x.to_lowercase hwid pkhash in
    let added_db = add x.to_lowercase hwid pkhash entry db in
    let now = add_all x.to_lowercase later added_db in
    rw (
      device_paths-recorded x key now (normalize_path x c.path) (
        add_all-Distinct x.to_lowercase later added_db
          ((add-remove-Distinct x.to_lowercase hwid pkhash key entry db d).0))
      ∙ ap (recorded x (normalize_path x c.path)) (
          get-add_all x.to_lowercase key later added_db others
          ∙ get-add_self x.to_lowercase hwid pkhash entry db)
      ∙ recorded-added x (normalize_path x c.path) (get db key) entry same)
