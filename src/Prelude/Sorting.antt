-- ===== src/Prelude/Sorting.antt =====
-- Sorting by an order test, as `sort.Ints` and `sort.Slice` do it. (`sort.Slice` need not be
-- stable: where two items are of one rank it may return another order.)
use mathlib.Core.Path.{◌≡◌, refl}
use mathlib.Core.Bool.{Bool, ◌||◌}
use mathlib.Core.List.{List, [], ◌∷◌}
use native.Mathlib.Omega.{arith}
use cdtalive.Prelude.Tests.{if◌then◌else◌}
use cdtalive.Prelude.Lists.{any, All}

module _ {A : Type 0} (le : A → A → Bool) where
  unfoldable pub insert_by : A → List A → List A
  insert_by d [] = d ∷ []
  insert_by d (x ∷ xs) = if le d x then d ∷ x ∷ xs else x ∷ insert_by d xs

  unfoldable pub sort_by : List A → List A
  unfolding insert_by
  sort_by [] = []
  sort_by (x ∷ xs) = insert_by x (sort_by xs)

  pub insert_by-All :
      (P : A → Type 0) (d : A) (xs : List A) → P d → All P xs → All P (insert_by d xs)
  unfolding insert_by
  insert_by-All P d [] pd h = (pd, tt)
  insert_by-All P d (x ∷ xs) pd h = ground (arith, insert_by-All P d xs pd h.1)

  pub sort_by-All : (P : A → Type 0) (xs : List A) → All P xs → All P (sort_by xs)
  unfolding sort_by
  sort_by-All P [] h = tt
  sort_by-All P (x ∷ xs) h = insert_by-All P x (sort_by xs) h.0 (sort_by-All P xs h.1)

  pub any-insert_by :
      (p : A → Bool) (d : A) (xs : List A) → any p (insert_by d xs) ≡ (p d || any p xs)
  unfolding insert_by
  any-insert_by p d [] = refl
  any-insert_by p d (x ∷ xs) = ground (arith, any-insert_by p d xs)

  pub any-sort_by : (p : A → Bool) (xs : List A) → any p (sort_by xs) ≡ any p xs
  unfolding sort_by
  any-sort_by p [] = refl
  any-sort_by p (x ∷ xs) = ground (arith, any-insert_by p x (sort_by xs), any-sort_by p xs)
