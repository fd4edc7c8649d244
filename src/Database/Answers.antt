-- ===== src/Database/Answers.antt =====
-- What two calls of the database make of the answer of the collection.
use mathlib.Core.List.{Perm}
use vector_db.Prelude.{
  ℕ, ◌≤◌, List, [], map, Option, none, some, done, ◌>>=◌, true, false, Bytes, bytes_key, nat_key,
  ◌≡◌, ◌≢◌, refl, length, take, All,
}
use vector_db.Status.{success, with_payload, succeeded}
use vector_db.Name.{is_collection_name_valid}
use vector_db.Assoc.{find}
use vector_db.Assoc.Laws.{DistinctKeys}
use vector_db.FloatVector.{FloatVector}
use vector_db.Index.{IndexType, hnsw, ivf_flat, unknown_index, Params, of_hnsw, of_ivf, type_of}
use vector_db.Index.Interface.{IndexClass, Score}
use vector_db.Distance.{Double}
use vector_db.Distance.Order.{pair_lt, IsOrdered}
use vector_db.Sort.Order.{IsSorted, by}
use vector_db.Scan.Nearest.{entry, rank, IsComparable, IsScored, HasNumber, search-nearest}
use vector_db.Collection.{Collection, cast_to}
use vector_db.Collection
use vector_db.Database.{Database, put, add_index, get_nearest_k}

module _ {D : Type 0} ⦃d : Double D⦄ (C : IndexClass D) where
  -- A search in a collection of which no index has the empty name scans all its vectors: whatever its
  -- indices and their types of distance, the answer is success with the `k` nearest by the Euclidean
  -- distance, listed by distance and id, and the state is as before but for the write of the collection.
  pub get_nearest_k_lem :
      (order : IsOrdered d) (name : Bytes) (query : FloatVector) (k : ℕ) (db : Database C)
      (c : Collection C)
      → succeeded (is_collection_name_valid name) ≡ true
      → find name db.collections ≡ some c
      → find [] c.indices ≡ none
      → DistinctKeys c.vectors
      → query.dimension ≤ length query.elements
      → All (IsComparable query) c.vectors
      → All (HasNumber order query) c.vectors
      → (ranked : List (Score D)) × Perm (map entry ranked) c.vectors
        × All (IsScored query) ranked
        × IsSorted (by rank pair_lt) ranked
        × (get_nearest_k C name query k db
            ≡ done (put C name c db, some (with_payload success (take k ranked))))
  unfolding get_nearest_k Collection.search_for_top_k
  get_nearest_k_lem order name query k db c valid at unnamed distinct long cs ns =
      let (ranked, p, sc, s, e) = search-nearest order query k c.vectors distinct long cs ns in
      (ranked, p, sc, s, rw (valid, at, unnamed, Collection.search_for_top_k, e, ◌>>=◌) refl)

module _ {D : Type 0} (C : IndexClass D) where
  cast_to-none :
      (t : IndexType) (params : Option Params)
      → ((p : Params) → params ≡ some p → type_of p ≢ t)
      → cast_to C t params ≡ none
  cast_to-none hnsw none wrong = refl
  cast_to-none ivf_flat none wrong = refl
  cast_to-none unknown_index none wrong = refl
  cast_to-none hnsw (some (of_hnsw p)) wrong = absurd (wrong (of_hnsw p) refl refl)
  cast_to-none hnsw (some (of_ivf p)) wrong = refl
  cast_to-none ivf_flat (some (of_hnsw p)) wrong = refl
  cast_to-none ivf_flat (some (of_ivf p)) wrong = absurd (wrong (of_ivf p) refl refl)
  cast_to-none unknown_index (some p) wrong = refl

  -- A call to add an index without parameters of the index type that it names, as there are none for an
  -- unknown type, returns success, although the collection adds no index and reports so: what its
  -- `add_index` returns is dropped.
  pub add_index-refused :
      (draws : ℕ → ℕ) (name index_name : Bytes) (t : IndexType) (params : Option Params)
      (db : Database C) (c : Collection C)
      → succeeded (is_collection_name_valid name) ≡ true
      → find name db.collections ≡ some c
      → ((p : Params) → params ≡ some p → type_of p ≢ t)
      → (Collection.add_index C draws index_name t params c ≡ done (c, false))
        × (add_index C draws name index_name t params db ≡ done (put C name c db, success))
  unfolding add_index Collection.add_index
  add_index-refused draws name index_name t params db c valid at wrong =
      let refused = cast_to-none t params wrong in
      (
        rw (refused, Collection.add_index) refl,
        rw (valid, at, refused, Collection.add_index, ◌>>=◌) refl,
      )
