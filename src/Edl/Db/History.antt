-- ===== src/Edl/Db/History.antt =====
-- The database over any history of additions and removals.
use rusty_cortex.Base.{
  List, [], ◌∷◌, Option, none, some, Bool, ◌≡◌, refl, ap, ◌∙◌, equal, if◌then◌else◌,
}
use rusty_cortex.Edl.Db.{Text, ProgrammerEntry, Entries, get, add, make_key, remove, is_some}
use rusty_cortex.Edl.Db.Laws.{added, get-add, get-remove}

-- A call of `add` or of `remove`.
pub data Call : Type 0 where
  adds : Text → Text → ProgrammerEntry → Call
  removes : Text → Call

-- The calls of a history, one after the other: what the removals say, and the database at the end.
abbrev pub run : (Text → Text) → List Call → Entries → List Bool × Entries
run to_lowercase [] es = ([], es)
run to_lowercase (adds hwid pkhash entry ∷ calls) es =
    run to_lowercase calls (add to_lowercase hwid pkhash entry es)
run to_lowercase (removes key ∷ calls) es =
    let (found, rest) = remove key es in
    let (later, last) = run to_lowercase calls rest in (found ∷ later, last)

-- The database as it is meant: for each key an entry or none, without any order.
abbrev pub Map : Type 0
Map = Text → Option ProgrammerEntry

abbrev pub put : Text → ProgrammerEntry → Map → Map
put key entry m q = if equal key q then some (added (m key) entry) else m q

abbrev pub cleared : Text → Map → Map
cleared key m q = if equal key q then none else m q

abbrev pub meant : (Text → Text) → List Call → Map → List Bool × Map
meant to_lowercase [] m = ([], m)
meant to_lowercase (adds hwid pkhash entry ∷ calls) m =
    meant to_lowercase calls (put (make_key to_lowercase hwid pkhash) entry m)
meant to_lowercase (removes key ∷ calls) m =
    let (later, last) = meant to_lowercase calls (cleared key m) in (is_some (m key) ∷ later, last)

-- What can be seen of a run: the answers of the removals, and what each key holds at the end.
abbrev pub seen : List Bool × Entries → List Bool × Map
seen r = (r.0, get r.1)

get-put :
    (to_lowercase : Text → Text) (hwid pkhash : Text) (entry : ProgrammerEntry) (es : Entries)
    → get (add to_lowercase hwid pkhash entry es)
      ≡ put (make_key to_lowercase hwid pkhash) entry (get es)
get-put to_lowercase hwid pkhash entry es = λ i q. get-add to_lowercase hwid pkhash entry es q i

get-cleared : (key : Text) (es : Entries) → get ((remove key es).1) ≡ cleared key (get es)
get-cleared key es = λ i q. (get-remove key es q).1 i

abbrev answered : Bool → List Bool × Map → List Bool × Map
answered found r = (found ∷ r.0, r.1)

-- Over any history of additions and removals, from any database: what the removals answer and what
-- every key holds at the end are those of a map in which an addition sets the key of its device, with
-- one use more than before modulo 2 ^ 32 if the key was there, and a removal clears a key and says
-- whether it was there.
pub run-meant :
    (to_lowercase : Text → Text) (calls : List Call) (es : Entries)
    → seen (run to_lowercase calls es) ≡ meant to_lowercase calls (get es)
run-meant to_lowercase [] es = refl
run-meant to_lowercase (adds hwid pkhash entry ∷ calls) es =
    run-meant to_lowercase calls (add to_lowercase hwid pkhash entry es)
    ∙ ap (meant to_lowercase calls) (get-put to_lowercase hwid pkhash entry es)
run-meant to_lowercase (removes key ∷ calls) es =
    ap (answered (remove key es).0) (
      run-meant to_lowercase calls (remove key es).1
      ∙ ap (meant to_lowercase calls) (get-cleared key es))
    ∙ ap (λ found. answered found (meant to_lowercase calls (cleared key (get es))))
        ((get-remove key es []).0)
