-- ===== src/IvfFlat/Build.antt =====
-- Building the index returns, and puts each id of the collection into one cluster.
use mathlib.Core.List.{Perm, map-append, map-map}
use mathlib.Core.List.Perm
use vector_db.Prelude.{
  ℕ, zero, suc, ◌<◌, ◌≡◌, ◌≢◌, refl, sym, subst, ap, ◌∙◌, List, [], ◌∷◌, ◌++◌, map, none, some,
  done, ◌>>=◌, or_undefined, length, length-map, ◌≤◌, get_elem?, All, All-map, arith, nat_key,
}
use vector_db.Assoc.{keys, values}
use vector_db.Assoc.Laws.{DistinctKeys}
use vector_db.FloatVector.{FloatVector}
use vector_db.Vectors.{Vectors}
use vector_db.Vectors.Found.{IsFound, found_lem, All-IsFound}
use vector_db.Distance.{Double, unknown}
use vector_db.KMeans.{Cluster, k_means}
use vector_db.KMeans.Clusters.{ids_of, Centroids, Below}
use vector_db.KMeans.Means.{KeepsFinite, Fits, indices}
use vector_db.KMeans.Assigned.{k_means_lem}
use vector_db.IvfFlat.{IvfIndex, collect, ids_at, with_ids, build}

-- The vector of the entry has `dim` floats, all finite.
abbrev pub FitsEntry : ℕ → (FloatVector → Type 0) → ℕ × FloatVector → Type 0
FitsEntry dim F (id, v) = Fits dim F v

collect_lem :
    (es vectors : Vectors) → All (IsFound vectors) es → collect (keys es) vectors ≡ done es
unfolding collect
collect_lem [] vectors fs = refl
collect_lem ((id, v) ∷ es) vectors (f, fs) =
    rw (found_lem vectors id v f, collect_lem es vectors fs, ◌>>=◌) refl

-- The id at an index, for an index in range.
abbrev id_at : List ℕ → ℕ → ℕ
id_at ids i = elim (get_elem? ids i) [ none ↦ 0 | some id ↦ id ]

get_elem?-some : (ids : List ℕ) (i : ℕ) → i < length ids → get_elem? ids i ≡ some (id_at ids i)
get_elem?-some [] i h = absurd (omega arith)
get_elem?-some (x ∷ ids) zero h = refl
get_elem?-some (x ∷ ids) (suc i) h = get_elem?-some ids i (omega arith)

ids_at_lem :
    (ids xs : List ℕ) → All (λ i. i < length ids) xs → ids_at ids xs ≡ done (map (id_at ids) xs)
unfolding ids_at
ids_at_lem ids [] b = refl
ids_at_lem ids (x ∷ xs) (b, bs) =
    rw (get_elem?-some ids x b, or_undefined, ◌>>=◌, ids_at_lem ids xs bs) refl

with_ids_lem :
    (P : FloatVector → Type 0) (ids : List ℕ) (cs : List Cluster)
    → Below (length ids) cs
    → Centroids P cs
    → (r : List Cluster) × (with_ids ids cs ≡ done r)
      × (ids_of r ≡ map (id_at ids) (ids_of cs))
      × Centroids P r
unfolding with_ids
with_ids_lem P ids [] b ps = ([], refl, refl, tt)
with_ids_lem P ids (c ∷ cs) (b, bs) (p, ps) =
    let (r, e, same, qs) = with_ids_lem P ids cs bs ps in
    (
      record c { vector_ids = map (id_at ids) c.vector_ids } ∷ r,
      rw (ids_at_lem ids c.vector_ids b, ◌>>=◌, e) refl,
      ap (λ l. map (id_at ids) c.vector_ids ++ l) same
          ∙ sym (map-append (id_at ids) c.vector_ids (ids_of cs)),
      (p, qs),
    )

indices-suc : (i : ℕ) (vs : List FloatVector) → indices (suc i) vs ≡ map suc (indices i vs)
indices-suc i [] = refl
indices-suc i (v ∷ vs) = ap (◌∷◌ (suc i)) (indices-suc (suc i) vs)

-- The ids at all the indices are the ids.
ids_at_indices : (es : Vectors) → map (id_at (keys es)) (indices 0 (values es)) ≡ keys es
ids_at_indices [] = refl
ids_at_indices ((id, v) ∷ es) = ap (◌∷◌ id) (
    ap (map (id_at (id ∷ keys es))) (indices-suc 0 (values es))
    ∙ (map-map (id_at (id ∷ keys es)) (λ n. suc n) (indices 0 (values es)) ∙ ids_at_indices es))

length-both : (es : Vectors) → length (values es) ≡ length (keys es)
length-both [] = refl
length-both (e ∷ es) = ap suc (length-both es)

All-values : (P : FloatVector → Type 0) (es : Vectors) → All (λ e. P e.1) es → All P (values es)
All-values P [] ps = tt
All-values P (e ∷ es) (p, ps) = (p, All-values P es ps)

module _ (D : Type 0) ⦃d : Double D⦄ (n dim : ℕ) (F : FloatVector → Type 0) (i : IvfIndex)
    (keeps : KeepsFinite D n i.params.dist_type F) (known : i.params.dist_type ≢ unknown)
    (positive : 0 < i.params.k) where
  -- Over at most `n` vectors of one dimension with distinct ids, whose distances and means are finite, for a
  -- known type of distance and a positive number of clusters, `build` returns an index of the same
  -- parameters with no change counted, in whose clusters each id of the collection stands exactly once.
  pub build_lem :
      (vectors : Vectors)
      → DistinctKeys vectors
      → All (FitsEntry dim F) vectors
      → length vectors ≤ n
      → (j : IvfIndex) × (build D vectors i ≡ done j)
        × Perm (ids_of j.clusters) (keys vectors)
        × Centroids (Fits dim F) j.clusters
        × (j.params ≡ i.params)
        × (j.vectors_since_rebuild ≡ 0)
  unfolding build k_means with_ids
  build_lem [] distinct fs few =
      (record i { clusters = []; vectors_since_rebuild = 0 }, refl, Perm.nil, tt, refl, refl)
  build_lem ((id, v) ∷ es) distinct (f, fs) few =
      let all : Vectors = (id, v) ∷ es in
      let found : collect (keys all) all ≡ done all =
        collect_lem all all (All-IsFound all distinct (All-map (λ e g. g.0) all (f, fs))) in
      let (cs, clustered, p, ps, b) =
        k_means_lem D n dim F i.params.dist_type keeps known v (values es) i.params.k 99
          (f, All-values (Fits dim F) es fs) (omega (arith, few, length-map (λ e. e.1) es))
          positive in
      let (r, named, same, qs) =
        with_ids_lem (Fits dim F) (keys all) cs (subst (λ n. Below n cs) (length-both all) b) ps in
      (
        record i { clusters = r; vectors_since_rebuild = 0 },
        rw (found, ◌>>=◌, clustered, ◌>>=◌, named, ◌>>=◌) refl,
        subst (λ l. Perm l (keys all)) (sym same)
            (subst (Perm (map (id_at (keys all)) (ids_of cs))) (ids_at_indices all)
              (Perm.map (id_at (keys all)) p)),
        qs,
        refl,
        refl,
      )
