-- ===== src/Tests/Ivf.antt =====
-- The inverted-file index on the two vectors of the library.
use mathlib.Core.List.{Perm}
use vector_db.Prelude.{
  ℕ, ◌≡◌, refl, List, [], ◌∷◌, ◌++◌, done, >>=-eq-done, done-injective, true, arith, nat_key,
  if◌then◌else◌, ◌||◌, ltb, subst, ◌%◌, ◌^◌,
}
use vector_db.Assoc.{find}
use vector_db.FloatVector.{FloatVector, copy, equals}
use vector_db.Vectors.{get_vector_by_id}
use vector_db.Index.Interface.{KeepsParams}
use vector_db.Indices.{indices}
use vector_db.Indices.Keeping.{indices-KeepsParams}
use vector_db.Distance.{compute, euclidean, euclidean_distance}
use vector_db.Distance.Whole.{whole}
use vector_db.KMeans.{k_means, closest, push_id}
use vector_db.KMeans.Clusters.{ids_of, Centroids}
use vector_db.KMeans.Means.{KeepsFinite, Fits}
use vector_db.IvfFlat.{IvfIndex, is_empty_list, is_due, count_changes, build, on_vectors_added}
use vector_db.IvfFlat.Build.{build_lem}
use vector_db.IvfFlat.Updates.{present, on_vectors_added_lem}
use vector_db.Tests.Fixtures.{pair, tagged, coarse, library}

abbrev IsAny : FloatVector → Type 0
IsAny v = Unit

root-near : (x : ℕ) → ltb (x % 2 ^ 32) (2 ^ 64) ≡ true
root-near x = ground arith

whole-KeepsFinite : KeepsFinite ℕ 2 euclidean IsAny
unfolding compute euclidean_distance
whole-KeepsFinite = record {
  near = λ v c x f g h.
      let (s, _, e) = >>=-eq-done _ (λ s. done (s % 2 ^ 32)) h in
      subst (λ y. ltb y (2 ^ 64) ≡ true) (done-injective e) (root-near s);
  mean = λ dim vectors ids c f some few h. tt;
}

abbrev hollow : IvfIndex
hollow = record { params = coarse; clusters = []; vectors_since_rebuild = 3 }

abbrev pub clustered : IvfIndex
clustered = record {
  params = coarse;
  clusters =
      record { centroid = pair 1 2; vector_ids = 7 ∷ [] }
      ∷ record { centroid = tagged; vector_ids = 9 ∷ [] }
      ∷ [];
  vectors_since_rebuild = 0;
}

build_runs : build ℕ library.vectors hollow ≡ done clustered
unfolding build find get_vector_by_id copy k_means compute euclidean_distance equals closest push_id
build_runs = refl

build_lem_example :
    (j : IvfIndex) × (build ℕ library.vectors hollow ≡ done j)
    × Perm (ids_of j.clusters) (7 ∷ 9 ∷ [])
    × Centroids (Fits 2 IsAny) j.clusters
    × (j.params ≡ coarse)
    × (j.vectors_since_rebuild ≡ 0)
unfolding find
build_lem_example =
    build_lem ℕ 2 2 IsAny hollow whole-KeepsFinite (λ e. cc) (omega arith) library.vectors
      (ground arith) (ground arith) (omega arith)

on_vectors_added_lem_example :
    (j : IvfIndex) × (on_vectors_added ℕ (9 ∷ 8 ∷ []) library.vectors clustered ≡ done j)
    × Centroids (Fits 2 IsAny) j.clusters
    × Perm (ids_of j.clusters) (
        if is_empty_list clustered.clusters || is_due (count_changes 2 clustered)
        then 7 ∷ 9 ∷ []
        else present library.vectors (9 ∷ 8 ∷ []) ++ ids_of clustered.clusters)
unfolding find
on_vectors_added_lem_example =
    on_vectors_added_lem ℕ 2 2 IsAny clustered whole-KeepsFinite (λ e. cc) (omega arith)
      (9 ∷ 8 ∷ []) library.vectors (ground arith) (ground arith) (omega arith) (ground arith)

indices-KeepsParams_example : KeepsParams (indices ℕ)
indices-KeepsParams_example = indices-KeepsParams ℕ
