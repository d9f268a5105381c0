-- ===== src/Edl/Db/Scan/Fresh.antt =====
-- What every candidate of a scan is.
use rusty_cortex.Base.{
  ap, subst, ℕ, ◌+◌, ◌≡◌, refl, inl, inr, Bool, true, Bool-cases, List, [], ◌∷◌, Option, none, some,
  ltb, All, All-append,
}
use rusty_cortex.Base.Sort.{sort_by, All-insert_by}
use rusty_cortex.Failure.{FlashError, ok, err, >>=-eq-ok}
use rusty_cortex.Edl.Identity.{ProgrammerIdentity}
use rusty_cortex.Edl.Db.{Text}
use rusty_cortex.Edl.Db.Score.{ProgrammerCandidate, unknown}
use rusty_cortex.Edl.Db.Scan.{
  FileFacts, Item, Folder, Listing, directory, regular, neither, unreadable, readable, last, entry,
  bad_entry, Cache, identify_all, identify, scan_programmers, name_le, collect_programmer_files,
  collect_entries, collect_item, is_programmer_name, push, named_file,
}

-- A file name with one of the three extensions, and no level yet.
abbrev pub IsFresh : (Text → Text) → ProgrammerCandidate → Type 0
IsFresh low c = (is_programmer_name low c.name ≡ true) × (c.match_level ≡ unknown)

push-Fresh :
    (low : Text → Text) (out : List ProgrammerCandidate) (name path : Text) (size : ℕ)
    (header : Option (Option (List ℕ)))
    → is_programmer_name low name ≡ true
    → All (IsFresh low) out
    → All (IsFresh low) (push out name path size header)
push-Fresh low out name path size none good fresh = fresh
push-Fresh low out name path size (some header) good fresh =
    All-append (IsFresh low) out _ fresh ((good, refl), tt)

ok_inj {ℓ} : {A : Type ℓ} {x y : A} → ok x ≡ ok y → x ≡ y
ok_inj e = cc

err_not_ok {ℓ} : {A : Type ℓ} {why : FlashError} {x : A} → err why ≡ ok x → ⊥
err_not_ok e = cc

named_file-Fresh :
    (low : Text → Text) (f : FileFacts) (out found : List ProgrammerCandidate) (name : Option Text)
    → All (IsFresh low) out
    → named_file low f out name ≡ ok found
    → All (IsFresh low) found
named_file-Fresh low f out found none fresh returns =
    subst (All (IsFresh low)) (ok_inj returns) fresh
named_file-Fresh low f out found (some name) fresh returns =
    elim (Bool-cases (is_programmer_name low name)) [
      | inl good ↦
          let (size, read, pushed) = >>=-eq-ok f.size _ (rw good at returns) in
          subst (All (IsFresh low)) (ok_inj pushed)
            (push-Fresh low out name f.path size f.header good fresh)
      | inr other ↦ subst (All (IsFresh low)) (ok_inj (rw other at returns)) fresh
    ]

mutual
  unfolding collect_programmer_files collect_entries collect_item

  folder-Fresh :
      (low : Text → Text) (depth max : ℕ) (folder : Folder) (out found : List ProgrammerCandidate)
      → All (IsFresh low) out
      → collect_programmer_files low depth max folder out ≡ ok found
      → All (IsFresh low) found
  folder-Fresh low depth max (unreadable kind) out found fresh returns =
      elim (Bool-cases (ltb max depth)) [
        | inl deep ↦ subst (All (IsFresh low)) (ok_inj (rw deep at returns)) fresh
        | inr fits ↦ absurd (err_not_ok (rw fits at returns))
      ]
  folder-Fresh low depth max (readable entries) out found fresh returns =
      elim (Bool-cases (ltb max depth)) [
        | inl deep ↦ subst (All (IsFresh low)) (ok_inj (rw deep at returns)) fresh
        | inr fits ↦ entries-Fresh low depth max entries out found fresh (rw fits at returns)
      ]

  entries-Fresh :
      (low : Text → Text) (depth max : ℕ) (entries : Listing) (out found : List ProgrammerCandidate)
      → All (IsFresh low) out
      → collect_entries low depth max entries out ≡ ok found
      → All (IsFresh low) found
  entries-Fresh low depth max last out found fresh returns =
      subst (All (IsFresh low)) (ok_inj returns) fresh
  entries-Fresh low depth max (bad_entry kind rest) out found fresh returns =
      absurd (err_not_ok returns)
  entries-Fresh low depth max (entry item rest) out found fresh returns =
      let (more, here, later) = >>=-eq-ok (collect_item low depth max item out) _ returns in
      entries-Fresh low depth max rest more found
        (item-Fresh low depth max item out more fresh here) later

  item-Fresh :
      (low : Text → Text) (depth max : ℕ) (item : Item) (out found : List ProgrammerCandidate)
      → All (IsFresh low) out
      → collect_item low depth max item out ≡ ok found
      → All (IsFresh low) found
  item-Fresh low depth max (directory folder) out found fresh returns =
      folder-Fresh low (depth + 1) max folder out found fresh returns
  item-Fresh low depth max (regular f) out found fresh returns =
      named_file-Fresh low f out found f.name fresh returns
  item-Fresh low depth max neither out found fresh returns =
      subst (All (IsFresh low)) (ok_inj returns) fresh

identify_all-Fresh :
    (low : Text → Text) (parse : Text → Option ProgrammerIdentity) (cs : List ProgrammerCandidate)
    (cache : Option Cache)
    → All (IsFresh low) cs
    → All (IsFresh low) ((identify_all parse cs cache).0)
unfolding identify_all
identify_all-Fresh low parse [] cache fresh = tt
identify_all-Fresh low parse (c ∷ cs) cache (h, fresh) =
    (h, identify_all-Fresh low parse cs ((identify parse c cache).1) fresh)

All-sort_by :
    (P : ProgrammerCandidate → Type 0) (le : ProgrammerCandidate → ProgrammerCandidate → Bool)
    (cs : List ProgrammerCandidate)
    → All P cs
    → All P (sort_by le cs)
unfolding sort_by
All-sort_by P le [] all = tt
All-sort_by P le (c ∷ cs) (h, all) =
    All-insert_by P le c (sort_by le cs) h (All-sort_by P le cs all)

-- Every candidate that a scan returns has a file name that ends in elf, mbn or bin, without regard
-- to case, and no level yet.
pub scan_programmers-Fresh :
    (to_lowercase : Text → Text) (parse : Text → Option ProgrammerIdentity) (shown : Text)
    (dir : Option Folder) (cache : Option Cache) (found : List ProgrammerCandidate)
    (after : Option Cache)
    → scan_programmers to_lowercase parse shown dir cache ≡ ok (found, after)
    → All (IsFresh to_lowercase) found
unfolding scan_programmers
scan_programmers-Fresh to_lowercase parse shown none cache found after returns =
    absurd (err_not_ok returns)
scan_programmers-Fresh to_lowercase parse shown (some folder) cache found after returns =
    let (cs, collected, rest) =
      >>=-eq-ok (collect_programmer_files to_lowercase 0 2 folder []) _ returns in
    subst (All (IsFresh to_lowercase)) (ap (λ r. r.0) (ok_inj rest)) (
      All-sort_by (IsFresh to_lowercase) (name_le to_lowercase) ((identify_all parse cs cache).0) (
        identify_all-Fresh to_lowercase parse cs cache
          (folder-Fresh to_lowercase 0 2 folder [] cs tt collected)))
