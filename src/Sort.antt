-- ===== src/Sort.antt =====
-- `std::partial_sort` and the ordered containers, as insertion into a sorted list.
pub mod Order
use vector_db.Prelude.{List, [], ◌∷◌, Bool, true, false, if◌then◌else◌}

module _ {ℓ} {A : Type ℓ} (less : A → A → Bool) where
  -- Before the first item that is greater.
  unfoldable pub insert : A → List A → List A
  insert x [] = x ∷ []
  insert x (y ∷ ys) = if less x y then x ∷ y ∷ ys else y ∷ insert x ys

  unfoldable pub sort : List A → List A
  unfolding insert
  sort [] = []
  sort (x ∷ xs) = insert x (sort xs)
