-- ===== src/Edl/Db/Laws.antt =====
-- The database as a function from keys to entries.
use rusty_cortex.Base.{
  if_elim, ◌+◌, ◌%◌, ◌≡◌, ◌≢◌, refl, sym, ap, ◌∙◌, inl, inr, arith, true, false, Bool-cases, [],
  ◌∷◌, Option, none, some, equal, equal_iff, if◌then◌else◌, All,
}
use rusty_cortex.Edl.Db.{
  Text, ProgrammerEntry, Entries, get, add_at, add, make_key, without, remove, is_some,
}

-- What a key is to hold after an entry was added under it: the new details, with one use more than
-- before, and the old word on whether the file exists.
abbrev pub added : Option ProgrammerEntry → ProgrammerEntry → ProgrammerEntry
added none entry = entry
added (some existing) entry = record {
  programmer_path = entry.programmer_path;
  programmer_name = entry.programmer_name;
  device_serial = entry.device_serial;
  storage_type = entry.storage_type;
  last_used = entry.last_used;
  use_count = (1 + existing.use_count) % 4294967296;
  file_exists = existing.file_exists;
}

pub equal_self : (s : Text) → equal s s ≡ true
equal_self s = (equal_iff s s).1 refl

pub equal_congr : (s t q : Text) → equal s t ≡ true → equal s q ≡ equal t q
equal_congr s t q same = ap (λ u. equal u q) ((equal_iff s t).0 same)

pub equal_other : (s t q : Text) → equal s t ≡ false → equal t q ≡ true → equal s q ≡ false
equal_other s t q apart same = ap (equal s) (sym ((equal_iff t q).0 same)) ∙ apart

get-add_at :
    (key : Text) (entry : ProgrammerEntry) (es : Entries) (q : Text)
    → get (add_at key entry es) q
      ≡ (if equal key q then some (added (get es key) entry) else get es q)
unfolding get add_at
get-add_at key entry [] q = refl
get-add_at key entry (e ∷ es) q =
    ground (arith, get-add_at key entry es q, equal_congr e.0 key q, equal_other e.0 key q)

get-without :
    (key : Text) (es : Entries) (q : Text)
    → get (without key es) q ≡ (if equal key q then none else get es q)
unfolding get
get-without key [] q = elim (Bool-cases (equal key q)) [ inl same ↦ rw same | inr other ↦ rw other ]
get-without key (e ∷ es) q =
    ground (arith, get-without key es q, equal_congr e.0 key q, equal_other e.0 key q)

-- Adding an entry changes what one key holds, the key of the device: it then holds the new entry,
-- or the old one with the new details and its count of uses one higher, modulo 2 ^ 32. Every other
-- key holds what it held.
pub get-add :
    (to_lowercase : Text → Text) (hwid pkhash : Text) (entry : ProgrammerEntry) (es : Entries)
    (q : Text)
    → get (add to_lowercase hwid pkhash entry es) q ≡ (
        if equal (make_key to_lowercase hwid pkhash) q
        then some (added (get es (make_key to_lowercase hwid pkhash)) entry)
        else get es q)
unfolding add
get-add to_lowercase hwid pkhash entry es q =
    get-add_at (make_key to_lowercase hwid pkhash) entry es q

-- Removing a key says whether it was there, and afterwards that key, and no other, holds nothing.
pub get-remove :
    (key : Text) (es : Entries) (q : Text)
    → ((remove key es).0 ≡ is_some (get es key))
      × (get ((remove key es).1) q ≡ (if equal key q then none else get es q))
unfolding remove
get-remove key es q = (refl, get-without key es q)

-- No two entries with the same key.
abbrev pub Apart : Text → Entries → Type 0
Apart key es = All (λ e. equal e.0 key ≡ false) es

abbrev pub Distinct : Entries → Type 0
Distinct [] = Unit
Distinct (e ∷ es) = Apart e.0 es × Distinct es

add_at-Apart :
    (k key : Text) (entry : ProgrammerEntry) (es : Entries)
    → equal key k ≡ false
    → Apart k es
    → Apart k (add_at key entry es)
unfolding add_at
add_at-Apart k key entry [] ne apart = (ne, tt)
add_at-Apart k key entry (e ∷ es) ne (h, apart) =
    if_elim (Apart k) (equal e.0 key) _ _ (h, apart) (h, add_at-Apart k key entry es ne apart)

without-Apart : (k key : Text) (es : Entries) → Apart k es → Apart k (without key es)
without-Apart k key [] apart = tt
without-Apart k key (e ∷ es) (h, apart) =
    if_elim (Apart k) (equal e.0 key) _ _ (without-Apart k key es apart)
      (h, without-Apart k key es apart)

equal_flip_true : (s t : Text) → equal s t ≡ true → equal t s ≡ true
equal_flip_true s t same = (equal_iff t s).1 (sym ((equal_iff s t).0 same))

true≢false : true ≢ false
true≢false e = cc

equal_flip : (s t : Text) → equal s t ≡ false → equal t s ≡ false
equal_flip s t apart = elim (Bool-cases (equal t s)) [
  | inl same ↦ absurd (true≢false (sym (equal_flip_true t s same) ∙ apart))
  | inr other ↦ other
]

add_at-Distinct :
    (key : Text) (entry : ProgrammerEntry) (es : Entries)
    → Distinct es
    → Distinct (add_at key entry es)
unfolding add_at
add_at-Distinct key entry [] d = (tt, tt)
add_at-Distinct key entry (e ∷ es) (apart, d) = elim (Bool-cases (equal e.0 key)) [
  | inl here ↦ rw here (apart, d)
  | inr other ↦ rw other (
    add_at-Apart e.0 key entry es (equal_flip e.0 key other) apart,
    add_at-Distinct key entry es d,
  )
]

without-Distinct : (key : Text) (es : Entries) → Distinct es → Distinct (without key es)
without-Distinct key [] d = tt
without-Distinct key (e ∷ es) (apart, d) =
    if_elim Distinct (equal e.0 key) _ _ (without-Distinct key es d)
      (without-Apart e.0 key es apart, without-Distinct key es d)

-- Adding and removing keep every key at most once in the database.
pub add-remove-Distinct :
    (to_lowercase : Text → Text) (hwid pkhash key : Text) (entry : ProgrammerEntry) (es : Entries)
    → Distinct es
    → Distinct (add to_lowercase hwid pkhash entry es) × Distinct ((remove key es).1)
unfolding add remove
add-remove-Distinct to_lowercase hwid pkhash key entry es d =
    (add_at-Distinct (make_key to_lowercase hwid pkhash) entry es d, without-Distinct key es d)
