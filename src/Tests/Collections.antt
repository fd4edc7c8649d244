-- ===== src/Tests/Collections.antt =====
-- The exhaustive search, collections and the database.
use mathlib.Core.List.{Perm}
use vector_db.Prelude.{
  nat_key, bytes_key, ℕ, ◌+◌, ◌≡◌, refl, List, [], ◌∷◌, map, none, done, true, take, All, arith,
  if◌then◌else◌,
}
use vector_db.Assoc.{find, assign, emplace, erase, keys}
use vector_db.Distance.{euclidean_distance}
use vector_db.Sort.{sort}
use vector_db.Assoc.Laws.{DistinctKeys}
use vector_db.FloatVector.{copy, move_assign}
use vector_db.Vectors.{get_vector_by_id}
use vector_db.Index.Interface.{Score, answered}
use vector_db.Distance.Whole.{whole, whole-IsOrdered}
use vector_db.Distance.Order.{pair_lt}
use vector_db.Sort.Order.{IsSorted, by}
use vector_db.Scan.{search_for_top_k}
use vector_db.Scan.Nearest.{entry, rank, IsScored, search-nearest}
use vector_db.Collection.{Collection, add_vectors, remove_vectors}
use vector_db.Ids.{mem_id}
use vector_db.Collection.Changes.{last_given, add_vectors_lem, remove_vectors_lem}
use vector_db.Status.{success}
use vector_db.Database.{Database}
use vector_db.Database
use vector_db.Name.{is_collection_name_valid}
use vector_db.Database.Store.{adds_vectors, step, act, view}
use vector_db.Database.Store.Refines.{step-act}
use vector_db.Tests.Fixtures.{pair, tagged, docs, Idle, library, one_library}

search_runs :
    search_for_top_k {D = ℕ} (pair 3 3) 1 library.vectors
    ≡ done (answered true ((1, 9, tagged) ∷ []))
unfolding search_for_top_k find get_vector_by_id copy euclidean_distance sort
search_runs = refl

search-nearest_example :
    (ranked : List (Score ℕ)) × Perm (map entry ranked) library.vectors
    × All (IsScored (pair 3 3)) ranked
    × IsSorted (by rank pair_lt) ranked
    × (search_for_top_k {D = ℕ} (pair 3 3) 1 library.vectors ≡ done (answered true (take 1 ranked)))
unfolding find
search-nearest_example =
    search-nearest whole-IsOrdered (pair 3 3) 1 library.vectors (ground arith) (ground arith)
      (ground arith) (ground arith)

abbrev moved : Collection Idle
moved = record library { vectors = (7, pair 1 2) ∷ (9, pair 5 5) ∷ (1, pair 8 8) ∷ [] }

add_vectors_runs :
    add_vectors Idle ((9, pair 6 6) ∷ (1, pair 8 8) ∷ (9, pair 5 5) ∷ []) library
    ≡ done (moved, (1, 2))
unfolding add_vectors move_assign find assign emplace
add_vectors_runs = refl

add_vectors_lem_example :
    ((id : ℕ)
      → find id moved.vectors
        ≡ last_given id
            ((9, pair 6 6) ∷ (1, pair 8 8) ∷ (9, pair 5 5) ∷ [])
            (find id library.vectors))
    × (1 + 2 ≡ 3)
    × (3 ≡ 2 + 1)
    × DistinctKeys moved.vectors
    × (moved.dimension ≡ library.dimension)
    × (moved.name ≡ library.name)
    × (keys moved.indices ≡ keys library.indices)
unfolding find
add_vectors_lem_example =
    add_vectors_lem Idle ((9, pair 6 6) ∷ (1, pair 8 8) ∷ (9, pair 5 5) ∷ []) library moved 1 2
      (ground arith) add_vectors_runs

abbrev shrunk : Collection Idle
shrunk = record library { vectors = (7, pair 1 2) ∷ [] }

remove_vectors_runs : remove_vectors Idle (9 ∷ 4 ∷ 9 ∷ []) library ≡ done (shrunk, 1)
unfolding remove_vectors find erase
remove_vectors_runs = refl

remove_vectors_lem_example :
    ((id : ℕ)
      → find id shrunk.vectors
        ≡ (if mem_id id (9 ∷ 4 ∷ 9 ∷ []) then none else find id library.vectors))
    × (1 + 1 ≡ 2)
    × DistinctKeys shrunk.vectors
    × (shrunk.dimension ≡ library.dimension)
    × (shrunk.name ≡ library.name)
    × (keys shrunk.indices ≡ keys library.indices)
unfolding find
remove_vectors_lem_example =
    remove_vectors_lem Idle (9 ∷ 4 ∷ 9 ∷ []) library shrunk 1 (ground arith) remove_vectors_runs

abbrev grown : Collection Idle
grown = record library { vectors = (7, pair 1 2) ∷ (9, tagged) ∷ (1, pair 8 8) ∷ [] }

grown-step :
    step Idle (adds_vectors docs ((1, pair 8 8) ∷ [])) one_library
    ≡ done (record one_library { collections = (docs, grown) ∷ [] }, success)
unfolding step Database.add_vectors is_collection_name_valid add_vectors find assign emplace
    move_assign
grown-step = refl

step-act_example :
    act (adds_vectors docs ((1, pair 8 8) ∷ [])) (view Idle one_library)
    ≡ (view Idle (record one_library { collections = (docs, grown) ∷ [] }), success)
step-act_example =
    step-act Idle (adds_vectors docs ((1, pair 8 8) ∷ [])) one_library
      (record one_library { collections = (docs, grown) ∷ [] }) success grown-step
