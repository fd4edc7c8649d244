-- ===== src/Index/Interface.antt =====
-- src/include/core/indices/index.h: what a collection asks of `index_t`, and the laws that its own theorems
-- rest on. The weak pointer to the collection is the collection's vectors, passed to each call.
use vector_db.Prelude.{ℕ, List, Bool, Outcome, done, ◌≡◌}
use vector_db.FloatVector.{FloatVector}
use vector_db.Index.{Params}
use vector_db.Vectors.{Vectors}

-- A `score_pair`: the distance, the id, and the vector.
abbrev pub Score : Type 0 → Type 0
Score D = D × ℕ × FloatVector

-- A search returns its `bool` and the results, or throws.
pub data Answer (D : Type 0) : Type 0 where
  answered : Bool → List (Score D) → Answer D
  threw : Answer D

pub record IndexClass (D : Type 0) : Type 1 where
  pub Index : Type 0
  -- The constructor. The node levels that the index is to draw come as a sequence.
  pub make : (ℕ → ℕ) → Params → Index
  pub init : Vectors → Index → Outcome Index
  pub on_vectors_added : List ℕ → Vectors → Index → Outcome Index
  pub on_vectors_removed : List ℕ → Vectors → Index → Outcome Index
  pub search_for_top_k :
      FloatVector → ℕ → List (Score D) → Vectors → Index → Outcome (Index × Answer D)
  -- `get_params`, and with it `get_index_type`.
  pub get_params : Index → Params

-- The parameters of an index never change.
pub record KeepsParams {D : Type 0} (C : IndexClass D) : Type 0 where
  pub make_params : (draws : ℕ → ℕ) (p : Params) → C.get_params (C.make draws p) ≡ p
  pub init_params :
      (vs : Vectors) (i j : C.Index) → C.init vs i ≡ done j → C.get_params j ≡ C.get_params i
  pub added_params :
      (ids : List ℕ) (vs : Vectors) (i j : C.Index)
      → C.on_vectors_added ids vs i ≡ done j
      → C.get_params j ≡ C.get_params i
  pub removed_params :
      (ids : List ℕ) (vs : Vectors) (i j : C.Index)
      → C.on_vectors_removed ids vs i ≡ done j
      → C.get_params j ≡ C.get_params i
  pub searched_params :
      (q : FloatVector) (k : ℕ) (r : List (Score D)) (vs : Vectors) (i j : C.Index) (a : Answer D)
      → C.search_for_top_k q k r vs i ≡ done (j, a)
      → C.get_params j ≡ C.get_params i
