-- ===== src/Base/Sort.antt =====
-- `sort_by` of slices: stable, by a test that says whether the first may stand before the second.
use mathlib.Core.Path.{◌≡◌}
use mathlib.Core.Logic.{inl, inr}
use mathlib.Core.Bool.{Bool, true, false}
use mathlib.Core.List.{List, [], ◌∷◌, Perm}
use mathlib.Core.List.Perm
use rusty_cortex.Base.Tests.{if◌then◌else◌, Bool-cases}
use rusty_cortex.Base.Lists.{All}

module _ {ℓ} {A : Type ℓ} where
  abbrev pub insert_by : (A → A → Bool) → A → List A → List A
  insert_by le x [] = x ∷ []
  insert_by le x (y ∷ ys) =
      let later = y ∷ insert_by le x ys in if le x y then x ∷ y ∷ ys else later

  unfoldable pub sort_by : (A → A → Bool) → List A → List A
  sort_by le [] = []
  sort_by le (x ∷ xs) = insert_by le x (sort_by le xs)

module _ {ℓ} {A : Type ℓ} where
  -- Every element may stand before all that follow it.
  abbrev pub IsSorted : (A → A → Bool) → List A → Type 0
  IsSorted le [] = Unit
  IsSorted le (x ∷ xs) = All (λ y. le x y ≡ true) xs × IsSorted le xs

  -- What `sort_by` asks of an order.
  pub record IsOrder (le : A → A → Bool) : Type ℓ where
    pub total : (x y : A) → le x y ≡ false → le y x ≡ true
    pub trans : (x y z : A) → le x y ≡ true → le y z ≡ true → le x z ≡ true

  insert_by-perm : (le : A → A → Bool) (x : A) (ys : List A) → Perm (insert_by le x ys) (x ∷ ys)
  insert_by-perm le x [] = Perm.rfl
  insert_by-perm le x (y ∷ ys) = elim (Bool-cases (le x y)) [
    | inl first ↦ rw first Perm.rfl
    | inr later ↦ rw later (Perm.trans (Perm.cons y (insert_by-perm le x ys)) (Perm.swap x y ys))
  ]

  pub sort_by-perm : (le : A → A → Bool) (xs : List A) → Perm (sort_by le xs) xs
  unfolding sort_by
  sort_by-perm le [] = Perm.rfl
  sort_by-perm le (x ∷ xs) =
      Perm.trans (insert_by-perm le x (sort_by le xs)) (Perm.cons x (sort_by-perm le xs))

  pub All-insert_by {κ} :
      (P : A → Type κ) (le : A → A → Bool) (x : A) (ys : List A)
      → P x
      → All P ys
      → All P (insert_by le x ys)
  All-insert_by P le x [] p ps = (p, tt)
  All-insert_by P le x (y ∷ ys) p (q, ps) = elim (Bool-cases (le x y)) [
    | inl first ↦ rw first (p, (q, ps))
    | inr later ↦ rw later (q, All-insert_by P le x ys p ps)
  ]

  below-All :
      (le : A → A → Bool)
      → IsOrder le
      → (x y : A) (zs : List A) → le x y ≡ true
      → All (λ z. le y z ≡ true) zs
      → All (λ z. le x z ≡ true) zs
  below-All le o x y [] h hs = tt
  below-All le o x y (z ∷ zs) h (k, hs) = (o.trans x y z h k, below-All le o x y zs h hs)

  insert_by-IsSorted :
      (le : A → A → Bool)
      → IsOrder le
      → (x : A) (ys : List A) → IsSorted le ys
      → IsSorted le (insert_by le x ys)
  insert_by-IsSorted le o x [] s = (tt, tt)
  insert_by-IsSorted le o x (y ∷ ys) (h, s) = elim (Bool-cases (le x y)) [
    | inl first ↦ rw first ((first, below-All le o x y ys first h), (h, s))
    | inr later ↦ rw later (
      All-insert_by (λ z. le y z ≡ true) le x ys (o.total x y later) h,
      insert_by-IsSorted le o x ys s,
    )
  ]

  pub sort_by-IsSorted :
      (le : A → A → Bool) → IsOrder le → (xs : List A) → IsSorted le (sort_by le xs)
  unfolding sort_by
  sort_by-IsSorted le o [] = tt
  sort_by-IsSorted le o (x ∷ xs) =
      insert_by-IsSorted le o x (sort_by le xs) (sort_by-IsSorted le o xs)
