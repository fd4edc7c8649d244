-- ===== src/KMeans/Means.antt =====
-- The means of the vectors that fit together, and the clusters that the clustering starts from.

use vector_db.Prelude.{
  ℕ, ◌≤◌, zero, suc, ◌<◌, ◌^◌, ◌≡◌, refl, sym, ap, ◌∙◌, List, [], ◌∷◌, map, Option, none, some,
  done, ◌>>=◌, or_undefined, Bool, true, false, length, get_elem?, All, arith, inl, inr, Bool-cases,
  length-map,
}
use vector_db.FloatVector.{FloatVector}
use vector_db.FloatVector.Values.{IsSized, copy_lem, equals_iff}
use vector_db.Distance.{Double, DistType, compute}
use vector_db.KMeans.{Cluster, add_to, sum_of, noughts, new_centroid, update_one, initial}
use vector_db.KMeans.Clusters.{Centroids}

-- What the clustering of at most `n` vectors needs of them: between two of them the distance is a number
-- below the largest `double`, and the mean of at least one and at most `n` of them is again such a vector.
pub record KeepsFinite (D : Type 0) ⦃d : Double D⦄ (n : ℕ) (t : DistType)
    (IsFinite : FloatVector → Type 0) : Type 0 where
  pub near :
      (v c : FloatVector) (x : D)
      → IsFinite v
      → IsFinite c
      → compute t v c ≡ done x
      → d.lt x d.largest ≡ true
  pub mean :
      (dim : ℕ) (vectors : List FloatVector) (ids : List ℕ) (c : FloatVector)
      → All IsFinite vectors
      → 0 < length ids
      → length ids ≤ n
      → new_centroid D dim vectors ids ≡ done c
      → IsFinite c

-- The indices of the vectors of a list, the first being `i`.
abbrev pub indices : ℕ → List FloatVector → List ℕ
indices i [] = []
indices i (v ∷ vs) = i ∷ indices (suc i) vs

-- The vector has `dim` floats, all finite.
abbrev pub Fits : ℕ → (FloatVector → Type 0) → FloatVector → Type 0
Fits dim IsFinite v = IsSized v × (v.dimension ≡ dim) × IsFinite v

-- The index of a cluster is found, and it is below `n`.
abbrev pub Chosen : ℕ → Option ℕ → Type 0
Chosen n best = (b : ℕ) × (best ≡ some b) × (b < n)

module _ {D : Type 0} ⦃d : Double D⦄ where
  add_to_lem :
      (ss : List D) (xs : List ℕ)
      → length ss ≡ length xs
      → (r : List D) × (add_to ss xs ≡ done r) × (length r ≡ length ss)
  unfolding add_to
  add_to_lem [] xs h = ([], refl, refl)
  add_to_lem (s ∷ ss) [] h = absurd (omega arith)
  add_to_lem (s ∷ ss) (x ∷ xs) h =
      let (r, e, l) = add_to_lem ss xs (omega arith) in
      (d.add s (d.widen x) ∷ r, rw (e, ◌>>=◌) refl, ap suc l)

length-noughts : (D : Type 0) ⦃d : Double D⦄ (n : ℕ) → length (noughts {D = D} n) ≡ n
length-noughts D zero = refl
length-noughts D (suc n) = ap suc (length-noughts D n)

get_elem?-Fits :
    (dim : ℕ) (F : FloatVector → Type 0) (vectors : List FloatVector) (i : ℕ)
    → All (Fits dim F) vectors
    → i < length vectors
    → (v : FloatVector) × (get_elem? vectors i ≡ some v) × Fits dim F v
get_elem?-Fits dim F [] i fs h = absurd (omega arith)
get_elem?-Fits dim F (v ∷ vs) zero (f, fs) h = (v, refl, f)
get_elem?-Fits dim F (v ∷ vs) (suc i) (f, fs) h = get_elem?-Fits dim F vs i fs (omega arith)

pub initial_lem :
    (dim : ℕ) (F : FloatVector → Type 0) (vs : List FloatVector)
    → All (Fits dim F) vs
    → (cs : List Cluster) × (initial vs ≡ done cs)
      × Centroids (Fits dim F) cs
      × (length cs ≡ length vs)
unfolding initial
initial_lem dim F [] fs = ([], refl, tt, refl)
initial_lem dim F (v ∷ vs) (f, fs) =
    let (cs, e, ps, l) = initial_lem dim F vs fs in
    (
      record { centroid = v; vector_ids = [] } ∷ cs,
      rw (copy_lem v f.0, ◌>>=◌, e, ◌>>=◌) refl,
      (f, ps),
      ap suc l,
    )

module _ {D : Type 0} ⦃d : Double D⦄ (dim : ℕ) (F : FloatVector → Type 0)
    (vectors : List FloatVector) (fits : All (Fits dim F) vectors) where
  sum_of_lem :
      (ids : List ℕ) (sum : List D)
      → All (λ i. i < length vectors) ids
      → length sum ≡ dim
      → (r : List D) × (sum_of vectors ids sum ≡ done r) × (length r ≡ dim)
  unfolding sum_of
  sum_of_lem [] sum b l = (sum, refl, l)
  sum_of_lem (i ∷ ids) sum (b, bs) l =
      let (v, found, (sized, same, f)) = get_elem?-Fits dim F vectors i fits b in
      let (added, e, k) = add_to_lem sum v.elements (l ∙ sym same ∙ sym sized.sized) in
      let (r, rest, m) = sum_of_lem ids added bs (k ∙ l) in
      (r, rw (found, ◌>>=◌, or_undefined, e, ◌>>=◌, rest) refl, m)

module _ (D : Type 0) ⦃d : Double D⦄ (n dim : ℕ) (F : FloatVector → Type 0) (t : DistType)
    (keeps : KeepsFinite D n t F) (vectors : List FloatVector) (fits : All (Fits dim F) vectors)
    (small : dim < 2 ^ 31) where
  finite : (vs : List FloatVector) → All (Fits dim F) vs → All F vs
  finite [] fs = tt
  finite (v ∷ vs) ((s, e, f), fs) = (f, finite vs fs)

  pub new_centroid_lem :
      (ids : List ℕ)
      → All (λ i. i < length vectors) ids
      → 0 < length ids
      → length ids ≤ n
      → (c : FloatVector) × (new_centroid D dim vectors ids ≡ done c) × Fits dim F c
  unfolding new_centroid
  new_centroid_lem ids b nonempty few =
      let (sum, e, l) = sum_of_lem dim F vectors fits ids (noughts dim) b (length-noughts D dim) in
      let c : FloatVector = record {
        elements = map (λ s. d.narrow (d.div s (d.of_nat (length ids)))) sum;
        metadata = none;
        dimension = dim;
      } in
      let made : new_centroid D dim vectors ids ≡ done c = rw (e, ◌>>=◌) refl in
      (
        c,
        made,
        (
          record { in_range = small; sized = length-map _ sum ∙ l },
          refl,
          keeps.mean dim vectors ids c (finite vectors fits) nonempty few made,
        ),
      )

  abbrev pub Updated : Cluster → Cluster × Bool → Type 0
  Updated c (c', changed) =
      (update_one D dim vectors c ≡ done (c', changed))
      × Fits dim F c'.centroid
      × (c'.vector_ids ≡ c.vector_ids)

  pub update_one_lem :
      (m : FloatVector) (ids : List ℕ)
      → Fits dim F m
      → All (λ i. i < length vectors) ids
      → length ids ≤ n
      → (r : Cluster × Bool) × Updated (record { centroid = m; vector_ids = ids }) r
  unfolding update_one
  update_one_lem m [] f b few = ((record { centroid = m; vector_ids = [] }, false), (refl, f, refl))
  update_one_lem m (id ∷ ids) f b few =
      let (fresh, e, g) = new_centroid_lem (id ∷ ids) b (omega arith) few in
      let (same, eq, _) = equals_iff fresh m g.0 f.0 in
      elim (Bool-cases same) [
        | inl kept ↦ (
          (record { centroid = m; vector_ids = id ∷ ids }, false),
          rw (e, ◌>>=◌, eq, ◌>>=◌, kept) (refl, f, refl),
        )
        | inr moved ↦ (
          (record { centroid = fresh; vector_ids = id ∷ ids }, true),
          rw (e, ◌>>=◌, eq, ◌>>=◌, moved) (refl, g, refl),
        )
      ]
