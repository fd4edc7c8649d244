-- ===== src/IvfFlat/Removals.antt =====
-- What `on_vectors_removed` leaves in the clusters.
use vector_db.Prelude.{ℕ, ◌+◌, ◌-◌, ◌≡◌, List, [], ◌∷◌, nat_key, nat_eq, if◌then◌else◌}
use vector_db.Vectors.{Vectors}
use vector_db.FloatVector.{FloatVector}

-- How often an id stands in a list.
abbrev pub count : ℕ → List ℕ → ℕ
count x [] = 0
count x (y ∷ ys) = (if nat_eq y x then 1 else 0) + count x ys

-- The list has one `id` less, or had none.
abbrev Dropped : ℕ → ℕ → List ℕ → List ℕ → Type 0
Dropped x id before after = count x after ≡ count x before - (if nat_eq x id then 1 else 0)
