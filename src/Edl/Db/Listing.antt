-- ===== src/Edl/Db/Listing.antt =====
-- The listing of the database depends on what the keys hold only.
use mathlib.Core.Path.{ap₂}
use rusty_cortex.Base.{
  ◌≡◌, refl, sym, ap, ◌∙◌, subst, inl, inr, arith, true, false, Bool-cases, [], ◌∷◌, none, some,
  equal, equal_iff, All,
}
use rusty_cortex.Base.Sort.{sort_by, insert_by, IsOrder, IsSorted, sort_by-IsSorted, All-insert_by}
use rusty_cortex.Edl.Db.{Text, ProgrammerEntry, Entries, get, text_le, key_le, list}
use rusty_cortex.Edl.Db.Laws.{Apart, Distinct, equal_self, equal_other, equal_congr}

pub text_le_total : (s t : Text) → text_le s t ≡ false → text_le t s ≡ true
unfolding text_le
text_le_total [] t h = absurd (cc)
text_le_total (c ∷ s) [] h = refl
text_le_total (c ∷ s) (d ∷ t) h = ground (arith, text_le_total s t)

pub text_le_trans : (s t u : Text) → text_le s t ≡ true → text_le t u ≡ true → text_le s u ≡ true
unfolding text_le
text_le_trans [] t u h k = refl
text_le_trans (c ∷ s) [] u h k = absurd (cc)
text_le_trans (c ∷ s) (d ∷ t) [] h k = absurd (cc)
text_le_trans (c ∷ s) (d ∷ t) (e ∷ u) h k = ground (arith, text_le_trans s t u)

text_le_antisym : (s t : Text) → text_le s t ≡ true → text_le t s ≡ true → equal s t ≡ true
unfolding text_le equal
text_le_antisym [] [] h k = refl
text_le_antisym [] (d ∷ t) h k = absurd (cc)
text_le_antisym (c ∷ s) [] h k = absurd (cc)
text_le_antisym (c ∷ s) (d ∷ t) h k = ground (arith, text_le_antisym s t)

key_le-IsOrder : IsOrder key_le
unfolding key_le
key_le-IsOrder = record {
  total = λ a b h. text_le_total a.0 b.0 h;
  trans = λ a b c h k. text_le_trans a.0 b.0 c.0 h k;
}

equal_comm : (s t : Text) → equal s t ≡ equal t s
unfolding equal
equal_comm [] [] = refl
equal_comm [] (d ∷ t) = refl
equal_comm (c ∷ s) [] = refl
equal_comm (c ∷ s) (d ∷ t) = ground (arith, equal_comm s t)

-- Sorting keeps what the keys hold, and the keys apart.
get-insert_by :
    (e : Text × ProgrammerEntry) (es : Entries) (q : Text)
    → Apart e.0 es
    → get (insert_by key_le e es) q ≡ get (e ∷ es) q
unfolding get
get-insert_by e [] q apart = refl
get-insert_by e (f ∷ es) q (ne, apart) =
    ground (arith, get-insert_by e es q apart, equal_other f.0 e.0 q)

insert_by-Distinct :
    (e : Text × ProgrammerEntry) (es : Entries)
    → Apart e.0 es
    → Distinct es
    → Distinct (insert_by key_le e es)
insert_by-Distinct e [] apart d = (tt, tt)
insert_by-Distinct e (f ∷ es) (ne, apart) (h, d) = elim (Bool-cases (key_le e f)) [
  | inl first ↦ rw first ((ne, apart), (h, d))
  | inr later ↦ rw later (
    All-insert_by (λ g. equal g.0 f.0 ≡ false) key_le e es (equal_comm e.0 f.0 ∙ ne) h,
    insert_by-Distinct e es apart d,
  )
]

get-cons :
    (e : Text × ProgrammerEntry) (es fs : Entries) (q : Text)
    → get es q ≡ get fs q
    → get (e ∷ es) q ≡ get (e ∷ fs) q
unfolding get
get-cons e es fs q same = rw same

list-keeps :
    (es : Entries)
    → Distinct es
    → Distinct (list es)
      × ((q : Text) → get (list es) q ≡ get es q)
      × ((key : Text) → Apart key es → Apart key (list es))
unfolding list sort_by
list-keeps [] d = (tt, (λ q. refl), λ key apart. tt)
list-keeps (e ∷ es) (apart, d) =
    let (distinct, same, far) = list-keeps es d in
    (
      insert_by-Distinct e (list es) (far e.0 apart) distinct,
      (λ q. get-insert_by e (list es) q (far e.0 apart) ∙ get-cons e (list es) es q (same q)),
      λ key (ne, rest).
          All-insert_by (λ g. equal g.0 key ≡ false) key_le e (list es) ne (far key rest),
    )

-- What holds of all keys holds of one that holds something.
some_inj : {x y : ProgrammerEntry} → some x ≡ some y → x ≡ y
some_inj e = cc

get-All :
    (P : Text → Type 0) (es : Entries) (q : Text) (v : ProgrammerEntry)
    → All (λ e. P e.0) es
    → get es q ≡ some v
    → P q
unfolding get
get-All P [] q v all holds = absurd (cc)
get-All P (e ∷ es) q v (p, all) holds = elim (Bool-cases (equal e.0 q)) [
  | inl same ↦ subst P ((equal_iff e.0 q).0 same) p
  | inr other ↦ get-All P es q v all (rw other at holds)
]

get-Apart : (es : Entries) (key q : Text) → Apart key es → equal key q ≡ true → get es q ≡ none
unfolding get
get-Apart [] key q apart same = refl
get-Apart (e ∷ es) key q (ne, apart) same = ground (
  arith,
  get-Apart es key q apart same,
  equal_other e.0 key q,
  equal_congr key q e.0,
  equal_comm key e.0,
)

get-head : (e : Text × ProgrammerEntry) (es : Entries) → get (e ∷ es) e.0 ≡ some e.1
unfolding get
get-head e es = rw (equal_self e.0)

same_value :
    (a b : Text × ProgrammerEntry) (l r : Entries)
    → equal a.0 b.0 ≡ true
    → get (a ∷ l) a.0 ≡ get (b ∷ r) a.0
    → a.1 ≡ b.1
unfolding get
same_value a b l r keys same = some_inj (rw (equal_self a.0, equal_comm b.0 a.0, keys) at same)

-- The head of a sorted list stands below the other keys that hold something.
head_below :
    (b a : Text × ProgrammerEntry) (r l : Entries)
    → All (λ y. key_le b y ≡ true) r
    → ((q : Text) → get (a ∷ l) q ≡ get (b ∷ r) q)
    → equal b.0 a.0 ≡ false
    → text_le b.0 a.0 ≡ true
unfolding key_le get
head_below b a r l below same other =
    get-All (λ k. text_le b.0 k ≡ true) r a.0 a.1 below
      (rw (other, equal_self a.0) at (sym (same a.0)))

-- Two sorted lists that hold the same have the same first entry.
same_head :
    (a b : Text × ProgrammerEntry) (l r : Entries)
    → IsSorted key_le (a ∷ l)
    → IsSorted key_le (b ∷ r)
    → ((q : Text) → get (a ∷ l) q ≡ get (b ∷ r) q)
    → a ≡ b
same_head a b l r (below, s) (below', s') same = elim (Bool-cases (equal a.0 b.0)) [
  | inl equal_keys ↦
      ap₂ (λ k v. (k, v)) ((equal_iff a.0 b.0).0 equal_keys)
        (same_value a b l r equal_keys (same a.0))
  | inr other ↦
      let both =
        text_le_antisym a.0 b.0 (head_below a b l r below (λ q. sym (same q)) other)
          (head_below b a r l below' same (equal_comm b.0 a.0 ∙ other)) in
      absurd (cc)
]

same_tail :
    (a : Text × ProgrammerEntry) (l r : Entries) (q : Text)
    → Apart a.0 l
    → Apart a.0 r
    → get (a ∷ l) q ≡ get (a ∷ r) q
    → get l q ≡ get r q
unfolding get
same_tail a l r q apart apart' same = elim (Bool-cases (equal a.0 q)) [
  | inl here ↦ get-Apart l a.0 q apart here ∙ sym (get-Apart r a.0 q apart' here)
  | inr other ↦ rw other at same
]

list-IsSorted : (es : Entries) → IsSorted key_le (list es)
unfolding list
list-IsSorted es = sort_by-IsSorted key_le key_le-IsOrder es

some_not_none : {x : ProgrammerEntry} → some x ≡ none → ⊥
some_not_none e = cc

get-nil : (q : Text) → get [] q ≡ none
unfolding get
get-nil q = refl

same_list :
    (xs ys : Entries)
    → IsSorted key_le xs
    → IsSorted key_le ys
    → Distinct xs
    → Distinct ys
    → ((q : Text) → get xs q ≡ get ys q)
    → xs ≡ ys
same_list [] [] s s' d d' same = refl
same_list [] (b ∷ r) s s' d d' same =
    absurd (some_not_none (sym (get-head b r) ∙ sym (same b.0) ∙ get-nil b.0))
same_list (a ∷ l) [] s s' d d' same =
    absurd (some_not_none (sym (get-head a l) ∙ same a.0 ∙ get-nil a.0))
same_list (a ∷ l) (b ∷ r) (below, s) (below', s') (apart, d) (apart', d') same =
    let heads = same_head a b l r (below, s) (below', s') same in
    ap₂ ◌∷◌ heads (
      same_list l r s s' d d' λ q.
        same_tail a l r q apart (subst (λ k. Apart k.0 r) (sym heads) apart')
          (same q ∙ ap (λ k. get (k ∷ r) q) (sym heads)))

-- Two states of the database in which every key holds the same, with no key twice, are listed
-- alike, whatever the order of their iteration; and the listing holds the same as they do.
pub list-canonical :
    (es fs : Entries)
    → Distinct es
    → Distinct fs
    → ((q : Text) → get es q ≡ get fs q)
    → (list es ≡ list fs) × ((q : Text) → get (list es) q ≡ get es q)
list-canonical es fs d d' same =
    let (distinct, keeps, far) = list-keeps es d in
    let (distinct', keeps', far') = list-keeps fs d' in
    (
      same_list (list es) (list fs) (list-IsSorted es) (list-IsSorted fs) distinct distinct'
          (λ q. keeps q ∙ same q ∙ sym (keeps' q)),
      keeps,
    )
