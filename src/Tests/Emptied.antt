-- ===== src/Tests/Emptied.antt =====
-- Runs of the HNSW index that end badly.
use vector_db.Prelude.{ℕ, ◌≡◌, refl, [], ◌∷◌, true, done, undefined, nat_key}
use vector_db.FloatVector.{copy}
use vector_db.Vectors.{Vectors, get_vector_by_id}
use vector_db.Assoc.{find}
use vector_db.Index.Interface.{answered}
use vector_db.Distance.{compute, euclidean_distance}
use vector_db.Distance.Whole.{whole}
use vector_db.Hnsw.{HnswIndex, new_index}
use vector_db.Hnsw.Pending.{build, init, on_vectors_removed}
use vector_db.Hnsw.Knn.{search_for_top_k}
use vector_db.Tests.Fixtures.{pair, tagged}
use vector_db.Tests.Graph.{sparse, alternate, fresh, two_nodes}

-- A node that is put into an emptied graph is linked to itself, and cannot be removed again.
abbrev emptied : HnswIndex
emptied = record two_nodes {
  inserted = [];
  node_levels = [];
  neighbours = [] ∷ [] ∷ [];
  entry_point = 0;
  to_be_inserted = 9 ∷ [];
  drawn = 3;
}

abbrev looped : HnswIndex
looped = record emptied {
  inserted = 9 ∷ [];
  to_be_inserted = [];
  node_levels = (9, 0) ∷ [];
  neighbours = ((9, 9 ∷ []) ∷ []) ∷ [] ∷ [];
  entry_point = 9;
  drawn = 4;
}

emptied_run : build ℕ ((9, tagged) ∷ []) emptied ≡ done looped
unfolding build find get_vector_by_id copy compute euclidean_distance
emptied_run = refl

looped_run : build ℕ [] (on_vectors_removed (9 ∷ []) looped) ≡ undefined
unfolding build on_vectors_removed
looped_run = refl

-- The id 0 is taken for no entry point: the second vector is not connected to it, and a search for both
-- finds one.
abbrev from_zero : Vectors
from_zero = (0, pair 1 2) ∷ (7, pair 1 2) ∷ []

abbrev parted : HnswIndex
parted = record {
  params = sparse;
  inserted = 0 ∷ 7 ∷ [];
  to_be_inserted = [];
  to_be_removed = [];
  node_levels = (0, 1) ∷ (7, 0) ∷ [];
  neighbours = ((7, 7 ∷ []) ∷ []) ∷ [] ∷ [];
  entry_point = 7;
  top = 2;
  draws = alternate;
  drawn = 2;
}

parted_init : init ℕ from_zero fresh ≡ done parted
unfolding init new_index find get_vector_by_id copy compute euclidean_distance
parted_init = refl

parted_search :
    search_for_top_k ℕ (pair 1 2) 2 [] from_zero parted
    ≡ done (parted, answered true ((0, 7, pair 1 2) ∷ []))
unfolding search_for_top_k find get_vector_by_id copy compute euclidean_distance
parted_search = refl
