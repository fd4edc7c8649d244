-- ===== src/Vectors.antt =====
-- The part of a collection that its indices read: `vectors_`, by id (src/impl/core/collection.cpp).
pub mod Found
use vector_db.Prelude.{ℕ, List, Option, none, some, Outcome, done, ◌>>=◌, nat_key}
use vector_db.Assoc.{find, keys}
use vector_db.FloatVector.{FloatVector, copy}

abbrev pub Vectors : Type 0
Vectors = List (ℕ × FloatVector)

-- The vector is copied into the result.
unfoldable pub get_vector_by_id : ℕ → Vectors → Outcome (Option FloatVector)
get_vector_by_id id vectors = elim (find id vectors) [
  | none ↦ done none
  | some v ↦ copy v >>= λ c. done (some c)
]

abbrev pub get_all_vector_ids : Vectors → List ℕ
get_all_vector_ids vectors = keys vectors
