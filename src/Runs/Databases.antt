-- ===== src/Runs/Databases.antt =====
-- A database with one device, and a folder with two programmers.
use rusty_cortex.Base.{◌≡◌, refl, true, false, List, [], ◌∷◌, none, some, codes, equal, map}
use rusty_cortex.Base.Words.{Bytes}
use rusty_cortex.Failure.{ok}
use rusty_cortex.Edl.Identity.{sha256, ProgrammerIdentity}
use rusty_cortex.Edl.Db.{Text, ProgrammerEntry, Entries, get, add, make_key, list}
use rusty_cortex.Edl.Db.Listing.{list-canonical}
use rusty_cortex.Edl.Db.Score.{
  Texts, ProgrammerCandidate, unknown, db_exact, level_of, score_candidates,
}
use rusty_cortex.Edl.Db.History.{Call, adds, removes, run, meant, seen, run-meant}
use rusty_cortex.Edl.Db.Score.Recorded.{add_all, level_of-add}
use rusty_cortex.Edl.Db.Scan.{Folder, FileFacts, regular, readable, last, entry, scan_programmers}
use rusty_cortex.Edl.Db.Scan.Cache.{candidates_of, scan_programmers-cached}

abbrev used : ProgrammerEntry
used = record {
  programmer_path = codes "/p/a.elf";
  programmer_name = codes "a.elf";
  device_serial = none;
  storage_type = none;
  last_used = codes "now";
  use_count = 1;
  file_exists = true;
}

abbrev unchanged : Text → Text
unchanged s = s

abbrev texts : Texts
texts = record { to_lowercase = unchanged; hex_decode = λ s. none }

abbrev one_entry : Entries
one_entry = (codes "aa:bb", used) ∷ []

abbrev history : List Call
history = adds (codes "aa") (codes "bb") used ∷ removes (codes "x") ∷ removes (codes "aa:bb") ∷ []

run-meant_example : seen (run unchanged history one_entry) ≡ meant unchanged history (get one_entry)
run-meant_example = run-meant unchanged history one_entry

list-canonical_example :
    (list one_entry ≡ list one_entry) × ((q : Text) → get (list one_entry) q ≡ get one_entry q)
list-canonical_example = list-canonical one_entry one_entry (tt, tt) (tt, tt) (λ q. refl)

abbrev raw_id : Bytes
raw_id = 0 ∷ 0 ∷ 0x72 ∷ 0 ∷ 0xE1 ∷ 0x50 ∷ 0x0A ∷ 0 ∷ []

abbrev candidate_at : Text → Text → ProgrammerCandidate
candidate_at name path = record {
  name = name;
  path = path;
  valid = true;
  size_bytes = 100;
  match_level = unknown;
  identity = none;
}

abbrev two_candidates : List ProgrammerCandidate
two_candidates =
    candidate_at (codes "b.elf") (codes "/p/b.elf")
    ∷ candidate_at (codes "a.elf") (codes "/p/a.elf")
    ∷ []

level_of-add_example :
    level_of texts
      (add_all unchanged
        (record { hwid = codes "ee"; pkhash = codes "ff"; entry = used } ∷ [])
        (add unchanged (codes "cc") (codes "dd") used one_entry))
      (codes "cc")
      (codes "dd")
      (candidate_at (codes "a.elf") (codes "/p/a.elf"))
    ≡ db_exact
unfolding equal make_key
level_of-add_example =
    level_of-add texts one_entry (codes "cc") (codes "dd") used
      (record { hwid = codes "ee"; pkhash = codes "ff"; entry = used } ∷ [])
      (candidate_at (codes "a.elf") (codes "/p/a.elf")) (tt, tt) (refl, tt) refl

abbrev file_a : FileFacts
file_a = record {
  name = some (codes "a.elf");
  path = codes "/p/a.elf";
  size = ok 100;
  header = some (some (0x7F ∷ 0x45 ∷ 0x4C ∷ 0x46 ∷ []));
}

abbrev folder : Folder
folder = readable (entry (regular file_a) last)

abbrev identity_a : ProgrammerIdentity
identity_a = record {
  hw_id = [];
  pk_hash = codes "99";
  hash_algorithm = sha256;
  msm_id = 0;
  oem_id = 0;
  model_id = 0;
  chipset = none;
  hwid_from_filename = false;
}

scan_programmers-cached_example :
    candidates_of (
      scan_programmers unchanged
        (λ path. some identity_a)
        (codes "/p")
        (some folder)
        (some (((codes "/p/a.elf", 100), identity_a) ∷ [])))
    ≡ candidates_of
        (scan_programmers unchanged (λ path. some identity_a) (codes "/p") (some folder) none)
scan_programmers-cached_example =
    scan_programmers-cached unchanged (λ path. some identity_a) (codes "/p") (some folder)
      (((codes "/p/a.elf", 100), identity_a) ∷ []) (refl, tt)

-- The programmer that the database records for the device comes first.
recorded_first :
    map (λ c. c.name) (score_candidates texts two_candidates one_entry (codes "aa") (codes "bb"))
    ≡ (codes "a.elf" ∷ codes "b.elf" ∷ [])
unfolding score_candidates
recorded_first = refl
