-- ===== src/KMeans.antt =====
-- src/include/core/utils/k_means.h: the clustering that the inverted-file index is built from.
pub mod Clusters
pub mod Means
pub mod Assigned
use vector_db.Prelude.{
  ℕ, zero, suc, ◌++◌, List, [], ◌∷◌, map, Option, none, some, Outcome, done, undefined, ◌>>=◌,
  or_undefined, Bool, true, false, not, ◌||◌, if◌then◌else◌, length, take, get_elem?, ltb, nat_eq,
}
use vector_db.FloatVector.{FloatVector, copy, equals}
use vector_db.Distance.{Double, DistType, compute}

-- `k_means_result::centroid_result`; a cluster of the index has the same two members.
pub record Cluster : Type 0 where
  pub centroid : FloatVector
  pub vector_ids : List ℕ

-- `centroids[ j ].vector_ids.push_back( id )`
unfoldable pub push_id : ℕ → ℕ → List Cluster → List Cluster
push_id j id [] = []
push_id zero id (c ∷ cs) = record c { vector_ids = c.vector_ids ++ (id ∷ []) } ∷ cs
push_id (suc j) id (c ∷ cs) = c ∷ push_id j id cs

abbrev pub push_best : Option ℕ → ℕ → List Cluster → List Cluster
push_best none i cs = cs
push_best (some j) i cs = push_id j i cs

abbrev pub clear : List Cluster → List Cluster
clear [] = []
clear (c ∷ cs) = record c { vector_ids = [] } ∷ clear cs

-- The first vectors, copied, are the first centroids.
unfoldable pub initial : List FloatVector → Outcome (List Cluster)
unfolding copy
initial [] = done []
initial (v ∷ vs) = do
  c ← copy v
  more ← initial vs
  done (record { centroid = c; vector_ids = [] } ∷ more)

module _ {D : Type 0} ⦃d : Double D⦄ where
  -- The loop over the clusters for the nearest centroid, from `j` on: the least distance so far and its
  -- index, `none` being -1.
  unfoldable pub closest :
      DistType → FloatVector → ℕ → D → Option ℕ → List Cluster → Outcome (Option ℕ)
  unfolding compute
  closest t v j min_dist best [] = done best
  closest t v j min_dist best (c ∷ cs) = compute t v c.centroid >>= λ x.
      let smaller = d.lt x min_dist in
      closest t v (suc j) (if smaller then x else min_dist) (if smaller then some j else best) cs

  -- `sum[ d ] += vectors[ idx ].data_[ d ]` for every `d`.
  unfoldable pub add_to : List D → List ℕ → Outcome (List D)
  add_to [] xs = done []
  add_to (s ∷ ss) [] = undefined
  add_to (s ∷ ss) (x ∷ xs) = add_to ss xs >>= λ more. done (d.add s (d.widen x) ∷ more)

  unfoldable pub sum_of : List FloatVector → List ℕ → List D → Outcome (List D)
  unfolding add_to
  sum_of vectors [] sum = done sum
  sum_of vectors (idx ∷ ids) sum = do
    v ← or_undefined (get_elem? vectors idx)
    added ← add_to sum v.elements
    sum_of vectors ids added

  abbrev pub noughts : ℕ → List D
  noughts zero = []
  noughts (suc n) = d.nought ∷ noughts n

module _ (D : Type 0) ⦃d : Double D⦄ where
  -- The assignment step, from the vector of index `i` on.
  unfoldable pub assign_step :
      DistType → ℕ → List FloatVector → List Cluster → Outcome (List Cluster)
  unfolding closest push_id
  assign_step t i [] cs = done cs
  assign_step t i (v ∷ vs) cs =
      closest t v 0 d.largest none cs >>= λ best. assign_step t (suc i) vs (push_best best i cs)

  -- The mean of the vectors with the given indices, `dim` floats long.
  unfoldable pub new_centroid : ℕ → List FloatVector → List ℕ → Outcome FloatVector
  unfolding sum_of
  new_centroid dim vectors ids = do
    sum ← sum_of vectors ids (noughts dim)
    done (record {
      elements = map (λ s. d.narrow (d.div s (d.of_nat (length ids)))) sum;
      metadata = none;
      dimension = dim;
    })

  -- The update of one centroid, and whether it changed.
  unfoldable pub update_one : ℕ → List FloatVector → Cluster → Outcome (Cluster × Bool)
  unfolding new_centroid equals
  update_one dim vectors c = elim c.vector_ids [
    | [] ↦ done (c, false)
    | id ∷ ids ↦ new_centroid dim vectors (id ∷ ids) >>= λ fresh.
        equals fresh c.centroid >>= λ same.
        done (if same then (c, false) else (record c { centroid = fresh }, true))
  ]

  unfoldable pub update_step : ℕ → List FloatVector → List Cluster → Outcome (List Cluster × Bool)
  unfolding update_one
  update_step dim vectors [] = done ([], false)
  update_step dim vectors (c ∷ cs) = do
    one ← update_one dim vectors c
    more ← update_step dim vectors cs
    done (one.0 ∷ more.0, one.1 || more.1)

  abbrev pub next_round :
      (List Cluster → Outcome (List Cluster)) → List Cluster × Bool → Outcome (List Cluster)
  next_round rest (cs, changed) = if changed then rest cs else done cs

  -- The `while` loop, of at most `n` rounds.
  unfoldable pub rounds :
      DistType → ℕ → List FloatVector → ℕ → List Cluster → Outcome (List Cluster)
  unfolding assign_step update_step
  rounds t dim vectors zero cs = done cs
  rounds t dim vectors (suc n) cs =
      let rest = rounds t dim vectors n in
      assign_step t 0 vectors (clear cs) >>= λ assigned.
      update_step dim vectors assigned >>= λ updated. next_round rest updated

  unfoldable pub k_means : List FloatVector → ℕ → DistType → ℕ → Outcome (List Cluster)
  unfolding initial rounds
  k_means [] k t max_iterations = done []
  k_means (v ∷ vs) k t max_iterations =
      if nat_eq k 0
      then done []
      else (initial (take (if ltb (length (v ∷ vs)) k then length (v ∷ vs) else k) (v ∷ vs))
          >>= λ cs. rounds t v.dimension (v ∷ vs) max_iterations cs)
