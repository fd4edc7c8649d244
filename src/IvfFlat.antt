-- ===== src/IvfFlat.antt =====
-- src/include/core/indices/ivfflat.h and src/impl/core/indices/ivfflat.cpp: the inverted-file index, as an
-- implementation of the index interface. Its own lock is taken once in each call and is not part of
-- this model.
pub mod Build
pub mod Updates
pub mod Removals
pub mod Queue
pub mod Held
pub mod Search
use vector_db.Prelude.{
  ℕ, suc, ◌+◌, ◌%◌, ◌^◌, List, [], ◌∷◌, map, Option, none, some, Outcome, done, thrown, undefined,
  ◌>>=◌, or_undefined, Bool, true, false, not, if◌then◌else◌, length, take, get_elem?, ltb, leb,
  nat_eq, nat_key,
}
use vector_db.FloatVector.{FloatVector}
use vector_db.Vectors.{Vectors, get_vector_by_id, get_all_vector_ids}
use vector_db.Index.{IvfParams, Params, of_ivf, of_hnsw}
use vector_db.Index.Interface.{IndexClass, Score, Answer, answered}
use vector_db.Distance.{Double, DistType, compute}
use vector_db.Distance.Order.{pair_lt}
use vector_db.Sort.{insert, sort}
use vector_db.Sort.Order.{by}
use vector_db.KMeans.{Cluster, push_id, closest, k_means}

-- `class index`
pub record IvfIndex : Type 0 where
  pub params : IvfParams
  pub clusters : List Cluster
  pub vectors_since_rebuild : ℕ

abbrev pub is_empty_list {ℓ} : {A : Type ℓ} → List A → Bool
is_empty_list [] = true
is_empty_list (x ∷ xs) = false

-- The loop of `build` that collects the vectors of the collection, with their ids.
unfoldable pub collect : List ℕ → Vectors → Outcome (List (ℕ × FloatVector))
unfolding get_vector_by_id
collect [] vectors = done []
collect (id ∷ ids) vectors =
    let rest = collect ids vectors in
    get_vector_by_id id vectors >>= λ found.
    rest >>= λ more. done (elim found [ none ↦ more | some v ↦ (id, v) ∷ more ])

-- `ids[ idx ]` for the indices that the clustering gives.
unfoldable pub ids_at : List ℕ → List ℕ → Outcome (List ℕ)
ids_at ids [] = done []
ids_at ids (idx ∷ rest) = do
  id ← or_undefined (get_elem? ids idx)
  more ← ids_at ids rest
  done (id ∷ more)

unfoldable pub with_ids : List ℕ → List Cluster → Outcome (List Cluster)
unfolding ids_at
with_ids ids [] = done []
with_ids ids (c ∷ cs) = do
  own ← ids_at ids c.vector_ids
  more ← with_ids ids cs
  done (record c { vector_ids = own } ∷ more)

-- The first cluster that has the id loses its first occurrence there.
unfoldable pub drop_id : ℕ → List ℕ → Option (List ℕ)
drop_id id [] = none
drop_id id (x ∷ xs) =
    let rest = drop_id id xs in
    if nat_eq x id then some xs else elim rest [ none ↦ none | some ys ↦ some (x ∷ ys) ]

unfoldable pub drop_from : ℕ → List Cluster → List Cluster
unfolding drop_id
drop_from id [] = []
drop_from id (c ∷ cs) =
    let rest = drop_from id cs in
    elim (drop_id id c.vector_ids) [
      | none ↦ c ∷ rest
      | some left ↦ record c { vector_ids = left } ∷ cs
    ]

unfoldable pub remove_vectors_incremental : List ℕ → List Cluster → List Cluster
unfolding drop_from
remove_vectors_incremental [] cs = cs
remove_vectors_incremental (id ∷ ids) cs = remove_vectors_incremental ids (drop_from id cs)

-- `vectors_since_rebuild_ += n`, a `size_t`.
abbrev pub count_changes : ℕ → IvfIndex → IvfIndex
count_changes n i = record i { vectors_since_rebuild = (i.vectors_since_rebuild + n) % 2 ^ 64 }

abbrev pub is_due : IvfIndex → Bool
is_due i = leb i.params.rebuild_threshold i.vectors_since_rebuild

module _ (D : Type 0) ⦃d : Double D⦄ where
  unfoldable pub build : Vectors → IvfIndex → Outcome IvfIndex
  unfolding collect with_ids k_means
  build vectors i = collect (get_all_vector_ids vectors) vectors >>= λ found.
      k_means D (map (λ p. p.1) found) i.params.k i.params.dist_type 100 >>= λ cs.
      with_ids (map (λ p. p.0) found) cs >>= λ clusters.
      done (record i { clusters = clusters; vectors_since_rebuild = 0 })

  -- Without a nearer one the first cluster is the nearest.
  unfoldable pub find_nearest_cluster : FloatVector → IvfParams → List Cluster → Outcome ℕ
  unfolding closest
  find_nearest_cluster v params clusters =
      closest params.dist_type v 0 d.largest none clusters >>= λ best.
      done (elim best [ none ↦ 0 | some j ↦ j ])

  -- The clusters after the ids are put into them; an index past their end is undefined.
  unfoldable pub add_vectors_incremental :
      List ℕ → Vectors → IvfParams → List Cluster → Outcome (List Cluster)
  unfolding get_vector_by_id find_nearest_cluster push_id
  add_vectors_incremental [] vectors params clusters = done clusters
  add_vectors_incremental (id ∷ ids) vectors params clusters =
      let rest = add_vectors_incremental ids vectors params in
      get_vector_by_id id vectors >>= λ found. elim found [
        | none ↦ rest clusters
        | some v ↦ find_nearest_cluster v params clusters >>= λ j.
            or_undefined (get_elem? clusters j) >>= λ c. rest (push_id j id clusters)
      ]

  unfoldable pub on_vectors_added : List ℕ → Vectors → IvfIndex → Outcome IvfIndex
  unfolding build add_vectors_incremental
  on_vectors_added new_ids vectors i =
      let counted = count_changes (length new_ids) i in
      if is_empty_list i.clusters
      then build vectors i
      else if is_due counted
      then build vectors counted
      else (add_vectors_incremental new_ids vectors i.params i.clusters >>= λ clusters.
          done (record counted { clusters = clusters }))

  unfoldable pub on_vectors_removed : List ℕ → Vectors → IvfIndex → Outcome IvfIndex
  unfolding build remove_vectors_incremental
  on_vectors_removed removed_ids vectors i =
      let counted = count_changes (length removed_ids) i in
      if is_empty_list i.clusters
      then done i
      else if is_due counted
      then build vectors counted
      else done (record counted { clusters = remove_vectors_incremental removed_ids i.clusters })

module _ {D : Type 0} ⦃d : Double D⦄ where
  -- The distances to the centroids, from cluster `j` on.
  unfoldable pub cluster_distances :
      DistType → FloatVector → ℕ → List Cluster → Outcome (List (D × ℕ))
  unfolding compute
  cluster_distances t query j [] = done []
  cluster_distances t query j (c ∷ cs) = do
    x ← compute t query c.centroid
    more ← cluster_distances t query (suc j) cs
    done ((x, j) ∷ more)

  -- A `score_pair` is ranked by distance, then by id; the pointers that follow are to equal vectors.
  abbrev pub score_key : Score D → D × ℕ
  score_key (dist, id, v) = (dist, id)

  abbrev pub score_lt : Score D → Score D → Bool
  score_lt = by score_key pair_lt

  abbrev pub drop_last : List (Score D) → List (Score D)
  drop_last [] = []
  drop_last (x ∷ []) = []
  drop_last (x ∷ (y ∷ ys)) = x ∷ drop_last (y ∷ ys)

  -- The queue `pq_results` is the list of its items in order, its top the last of them.
  unfoldable pub push_result : ℕ → Score D → List (Score D) → List (Score D)
  unfolding insert
  push_result k s queue =
      let pushed = insert score_lt s queue in
      if ltb k (length pushed) then drop_last pushed else pushed

  -- The inner loop, over the ids of a probed cluster.
  unfoldable pub search_ids :
      DistType → FloatVector → ℕ → Vectors → List ℕ → List (Score D) → Outcome (List (Score D))
  unfolding get_vector_by_id compute push_result
  search_ids t query k vectors [] queue = done queue
  search_ids t query k vectors (id ∷ ids) queue =
      let rest = search_ids t query k vectors ids in
      get_vector_by_id id vectors >>= λ found. elim found [
        | none ↦ rest queue
        | some v ↦ compute t query v >>= λ x. rest (push_result k (x, id, v) queue)
      ]

  -- The outer loop, over the clusters that are probed.
  unfoldable pub search_clusters :
      DistType
      → FloatVector
      → ℕ
      → Vectors
      → List Cluster
      → List (D × ℕ)
      → List (Score D)
      → Outcome (List (Score D))
  unfolding search_ids
  search_clusters t query k vectors clusters [] queue = done queue
  search_clusters t query k vectors clusters ((x, j) ∷ probed) queue =
      let rest = search_clusters t query k vectors clusters probed in
      or_undefined (get_elem? clusters j) >>= λ c.
      search_ids t query k vectors c.vector_ids queue >>= λ more. rest more

  -- The queue of clusters gives the nearest first; popping `pq_results` and turning it over lists it
  -- in order.
  unfoldable pub search_for_top_k :
      FloatVector → ℕ → List (Score D) → Vectors → IvfIndex → Outcome (Answer D)
  unfolding cluster_distances search_clusters sort
  search_for_top_k query k results vectors i =
      let t = i.params.dist_type in
      if is_empty_list i.clusters
      then done (answered false results)
      else (cluster_distances t query 0 i.clusters >>= λ ranked.
          search_clusters t query k vectors i.clusters (take i.params.n_probe (sort pair_lt ranked))
            []
          >>= λ found. done (answered (not (is_empty_list found)) found))
