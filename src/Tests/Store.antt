-- ===== src/Tests/Store.antt =====
-- The database of one collection.
use mathlib.Core.List.{Perm}
use vector_db.Prelude.{
  ℕ, ◌≡◌, ◌≢◌, ap, ◌∙◌, refl, List, [], ◌∷◌, map, some, done, false, nat_key, bytes_key, take, All,
  arith,
}
use vector_db.Status.{success, with_payload}
use vector_db.Name.{is_collection_name_valid}
use vector_db.Assoc
use vector_db.Assoc.{find, assign, emplace}
use vector_db.FloatVector.{move_assign}
use mathlib.Core.Option.{some_inj}
use vector_db.Index.{hnsw, ivf_flat, of_ivf, Params, type_of}
use vector_db.Index.Interface.{Score}
use vector_db.Distance.Whole.{whole, whole-IsOrdered}
use vector_db.Distance.Order.{pair_lt}
use vector_db.Sort.Order.{IsSorted, by}
use vector_db.Scan.Nearest.{entry, rank, IsScored}
use vector_db.Collection.{Collection, add_vectors}
use vector_db.Collection
use vector_db.Database.{Database, put, add_index, get_nearest_k}
use vector_db.Database
use vector_db.Database.Answers.{get_nearest_k_lem, add_index-refused}
use vector_db.Database.Store.{Call, adds_vectors, deletes_collection, step, run, view}
use vector_db.Database.Store.Valid.{acts, IsValid, run-acts}
use vector_db.Tests.Fixtures.{pair, docs, coarse, Idle, library, one_library}

abbrev two_calls : List Call
two_calls = adds_vectors docs ((1, pair 8 8) ∷ []) ∷ deletes_collection docs ∷ []

two_calls-run : run Idle two_calls one_library ≡ done (record one_library { collections = [] })
unfolding run step Database.add_vectors Database.delete_collection is_collection_name_valid
    add_vectors find assign emplace Assoc.erase move_assign
two_calls-run = refl

run-acts_example :
    (acts Idle two_calls (view Idle one_library)
      ≡ view Idle (record one_library { collections = [] }))
    × (IsValid (view Idle one_library)
        → IsValid (view Idle (record one_library { collections = [] })))
run-acts_example =
    run-acts Idle two_calls one_library (record one_library { collections = [] }) two_calls-run

get_nearest_k_lem_example :
    (ranked : List (Score ℕ)) × Perm (map entry ranked) library.vectors
    × All (IsScored (pair 3 3)) ranked
    × IsSorted (by rank pair_lt) ranked
    × (get_nearest_k Idle docs (pair 3 3) 1 one_library
        ≡ done (put Idle docs library one_library, some (with_payload success (take 1 ranked))))
unfolding find is_collection_name_valid
get_nearest_k_lem_example =
    get_nearest_k_lem Idle whole-IsOrdered docs (pair 3 3) 1 one_library library refl refl refl
      (ground arith) (ground arith) (ground arith) (ground arith)

wrong_type : (p : Params) → of_ivf coarse ≡ p → type_of p ≢ hnsw
wrong_type p e h = let same : ivf_flat ≡ hnsw = ap type_of e ∙ h in cc

add_index-refused_example :
    (Collection.add_index Idle (λ n. 0) [] hnsw (some (of_ivf coarse)) library
      ≡ done (library, false))
    × (add_index Idle (λ n. 0) docs [] hnsw (some (of_ivf coarse)) one_library
        ≡ done (put Idle docs library one_library, success))
unfolding find is_collection_name_valid
add_index-refused_example =
    add_index-refused Idle (λ n. 0) docs [] hnsw (some (of_ivf coarse)) one_library library refl
      refl (λ p e h. wrong_type p (some_inj.0 e) h)
