-- ===== src/IvfFlat/Updates.antt =====
-- What `on_vectors_added` leaves in the clusters.
use mathlib.Core.List.{Perm, perm_middle}
use mathlib.Core.List.Perm
use vector_db.Prelude.{
  ℕ, ◌≤◌, ◌<◌, ◌≡◌, ◌≢◌, inl, inr, refl, sym, subst, List, [], ◌∷◌, ◌++◌, none, some, done, ◌>>=◌,
  or_undefined, length, get_elem?-below, All, arith, nat_key, false, if◌then◌else◌, ◌||◌,
  Bool-cases, Option-cases,
}
use vector_db.Assoc.{find, keys}
use vector_db.Assoc.Laws.{DistinctKeys}
use vector_db.FloatVector.{FloatVector}
use vector_db.Vectors.{Vectors, get_vector_by_id}
use vector_db.Vectors.Found.{found_lem, find-All}
use vector_db.Index.{IvfParams}
use vector_db.Distance.{Double, unknown}
use vector_db.KMeans.{Cluster, push_id}
use vector_db.KMeans.Clusters.{ids_of, Centroids, push_id-perm, push_id-Centroids, length-push_id}
use vector_db.KMeans.Means.{KeepsFinite, Fits}
use vector_db.KMeans.Assigned.{first_lem}
use vector_db.IvfFlat.{
  IvfIndex, is_empty_list, is_due, count_changes, find_nearest_cluster, add_vectors_incremental,
  on_vectors_added,
}
use vector_db.IvfFlat.Build.{FitsEntry, build_lem}

-- Those of the ids that the collection has.
abbrev pub present : Vectors → List ℕ → List ℕ
present vectors [] = []
present vectors (id ∷ ids) = elim (find id vectors) [
  | none ↦ present vectors ids
  | some v ↦ id ∷ present vectors ids
]

present-gone :
    (vectors : Vectors) (id : ℕ) (ids : List ℕ)
    → find id vectors ≡ none
    → present vectors (id ∷ ids) ≡ present vectors ids
present-gone vectors id ids h = rw (h, present) refl

present-found :
    (vectors : Vectors) (id : ℕ) (v : FloatVector) (ids : List ℕ)
    → find id vectors ≡ some v
    → present vectors (id ∷ ids) ≡ id ∷ present vectors ids
present-found vectors id v ids h = rw (h, present) refl

is_empty_list-length : {A : Type 0} (xs : List A) → is_empty_list xs ≡ false → 0 < length xs
is_empty_list-length [] h = cc
is_empty_list-length (x ∷ xs) h = omega arith

module _ (D : Type 0) ⦃d : Double D⦄ (n dim : ℕ) (F : FloatVector → Type 0) (params : IvfParams)
    (keeps : KeepsFinite D n params.dist_type F) (known : params.dist_type ≢ unknown) where
  add_vectors_incremental_lem :
      (ids : List ℕ) (vectors : Vectors) (cs : List Cluster)
      → All (FitsEntry dim F) vectors
      → Centroids (Fits dim F) cs
      → 0 < length cs
      → (r : List Cluster) × (add_vectors_incremental D ids vectors params cs ≡ done r)
        × Perm (ids_of r) (present vectors ids ++ ids_of cs)
        × Centroids (Fits dim F) r
  unfolding add_vectors_incremental find_nearest_cluster get_vector_by_id
  add_vectors_incremental_lem [] vectors cs fs gs h = (cs, refl, Perm.refl (ids_of cs), gs)
  add_vectors_incremental_lem (id ∷ ids) vectors cs fs gs h =
      elim (Option-cases (find id vectors)) [
        | inl gone ↦
            let (r, e, p, qs) = add_vectors_incremental_lem ids vectors cs fs gs h in
            (
              r,
              rw (gone, get_vector_by_id, ◌>>=◌) e,
              subst (λ l. Perm (ids_of r) (l ++ ids_of cs)) (sym (present-gone vectors id ids gone))
                  p,
              qs,
            )
        | inr (v, found) ↦
            let f = find-All (FitsEntry dim F) vectors id v fs found in
            let (j, near, k) = first_lem D n dim F params.dist_type keeps known v cs f gs h in
            let (c, at_j) = get_elem?-below cs j k in
            let (r, e, p, qs) =
              add_vectors_incremental_lem ids vectors (push_id j id cs) fs
                (push_id-Centroids (Fits dim F) j id cs gs)
                (omega (arith, length-push_id j id cs)) in
            (
              r,
              rw (found_lem vectors id v (found, f.0), ◌>>=◌, near, ◌>>=◌, at_j, or_undefined) e,
              subst (λ l. Perm (ids_of r) (l ++ ids_of cs))
                  (sym (present-found vectors id v ids found))
                  (Perm.trans p (
                    Perm.trans (Perm.append_left (present vectors ids) (push_id-perm j id cs k))
                      (perm_middle (present vectors ids) (ids_of cs)))),
              qs,
            )
      ]

module _ (D : Type 0) ⦃d : Double D⦄ (n dim : ℕ) (F : FloatVector → Type 0) where
  -- Over at most `n` vectors of one dimension with distinct ids, whose distances and means are finite, for a
  -- known type of distance and a positive number of clusters, the hook returns. If the index was empty, or
  -- the changes reach the threshold, each id of the collection then stands exactly once in the
  -- clusters; otherwise the given ids that the collection has are put beside those that stood there
  -- before.
  pub on_vectors_added_lem :
      (i : IvfIndex)
      → KeepsFinite D n i.params.dist_type F
      → i.params.dist_type ≢ unknown
      → 0 < i.params.k
      → (ids : List ℕ) (vectors : Vectors) → DistinctKeys vectors
      → All (FitsEntry dim F) vectors
      → length vectors ≤ n
      → Centroids (Fits dim F) i.clusters
      → (j : IvfIndex) × (on_vectors_added D ids vectors i ≡ done j)
        × Centroids (Fits dim F) j.clusters
        × Perm (ids_of j.clusters) (
            if is_empty_list i.clusters || is_due (count_changes (length ids) i)
            then keys vectors
            else present vectors ids ++ ids_of i.clusters)
  unfolding on_vectors_added
  on_vectors_added_lem i keeps known positive ids vectors distinct fs few gs =
      let counted = count_changes (length ids) i in
      elim (Bool-cases (is_empty_list i.clusters)) [
        | inl none_left ↦
            let (j, built, p, qs, _, _) =
              build_lem D n dim F i keeps known positive vectors distinct fs few in
            (j, rw none_left built, qs, rw none_left p)
        | inr some_left ↦ elim (Bool-cases (is_due counted)) [
          | inl due ↦
              let (j, built, p, qs, _, _) =
                build_lem D n dim F counted keeps known positive vectors distinct fs few in
              (j, rw (some_left, due) built, qs, rw (some_left, due) p)
          | inr early ↦
              let (r, e, p, qs) =
                add_vectors_incremental_lem D n dim F i.params keeps known ids vectors i.clusters fs
                  gs (is_empty_list-length i.clusters some_left) in
              (
                record counted { clusters = r },
                rw (some_left, early, e, ◌>>=◌) refl,
                qs,
                rw (some_left, early) p,
              )
        ]
      ]
