-- ===== src/Tests/Saved.antt =====
-- A collection with an index of either type, saved and loaded.
use vector_db.Prelude.{
  nat_key, bytes_key, ℕ, ◌≡◌, refl, List, [], ◌∷◌, ◌++◌, map, some, done, true, Bytes, All, arith,
  inl, inr, ◌>>=◌,
}
use vector_db.Assoc.{find}
use vector_db.FloatVector.{copy, equals}
use vector_db.Vectors.{get_vector_by_id}
use vector_db.Distance.{compute, euclidean_distance}
use vector_db.Distance.Whole.{whole, whole-IsOrdered}
use vector_db.KMeans.{k_means, closest, push_id}
use vector_db.IvfFlat.{build}
use vector_db.Hnsw.{new_index}
use vector_db.Hnsw.Pending.Built.{init_lem}
use vector_db.Indices.{AnyIndex, indices}
use vector_db.Indices.Keeping.{indices-KeepsParams}
use vector_db.Collection.{Collection}
use vector_db.Collection.Persist.{serialize, deserialize}
use vector_db.Collection.Persist.RoundTrip.{
  described, IsRebuildable, deserialize-serialize_collection,
}
use vector_db.Status.{success}
use vector_db.Name.{is_collection_name_valid}
use vector_db.Database.{Database}
use vector_db.Database.Files.{Files, save, load}
use vector_db.Database.Files.Steps.{IsSavable, summary}
use vector_db.Database.Files.RoundTrip.{opened, load-save}
use vector_db.Tests.Fixtures.{docs, library}
use vector_db.Tests.Graph.{sparse, two_nodes, seen_7, seen_9}
use vector_db.Tests.Ivf.{clustered}

abbrev pub indexed : Collection (indices ℕ)
indexed = record {
  dimension = 2;
  name = docs;
  vectors = library.vectors;
  indices = (b'i' ∷ [], inl clustered) ∷ (b'h' ∷ [], inr two_nodes) ∷ [];
}

abbrev pub indexed_store : Database (indices ℕ)
indexed_store = record { collections = (docs, indexed) ∷ [] }

-- Both indices can be built again.
indexed-IsRebuildable : All (IsRebuildable (indices ℕ) library.vectors) indexed.indices
unfolding build find get_vector_by_id copy k_means compute euclidean_distance equals closest push_id
    new_index
indexed-IsRebuildable = (
  λ draws. (inl clustered, refl),
  (
    (λ draws.
        let (j, e, g, idle, same, has) =
          init_lem whole-IsOrdered library.vectors (new_index draws sparse) (omega arith)
            (seen_7, (seen_9, tt)) in
        (inr j, rw (e, ◌>>=◌) refl)),
    tt,
  ),
)

abbrev no_draws : ℕ → ℕ → ℕ
no_draws n i = 0

deserialize-serialize_collection_example :
    (bs : Bytes) × (js : List (Bytes × AnyIndex)) × (serialize (indices ℕ) indexed ≡ done bs)
    × (described (indices ℕ) js ≡ described (indices ℕ) indexed.indices)
    × ((rest : Bytes)
        → deserialize (indices ℕ) no_draws (bs ++ rest)
          ≡ done (record indexed { indices = js }, rest))
unfolding find
deserialize-serialize_collection_example =
    deserialize-serialize_collection (indices ℕ) (indices-KeepsParams ℕ) no_draws indexed
      (ground arith) indexed-IsRebuildable

pub indexed_store-IsSavable : All (IsSavable (indices ℕ)) indexed_store.collections
unfolding find is_collection_name_valid
indexed_store-IsSavable = ((refl, refl, ground arith, indexed-IsRebuildable), tt)

load-save_example :
    (files : Files) × (db' : Database (indices ℕ)) × (save
        (indices ℕ)
        (λ path. true)
        indexed_store
        []
      ≡ done (some files, success))
    × (load (indices ℕ) (λ path. true) (λ path. no_draws) files (record { collections = [] })
        ≡ done (db', success))
    × (map (summary (indices ℕ)) db'.collections
        ≡ map (summary (indices ℕ)) (opened (indices ℕ) (λ path. true) indexed_store.collections))
unfolding find
load-save_example =
    load-save (indices ℕ) (indices-KeepsParams ℕ) (λ path. true) (λ path. no_draws) indexed_store
      (ground arith) indexed_store-IsSavable
