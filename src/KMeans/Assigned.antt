-- ===== src/KMeans/Assigned.antt =====
-- The clustering returns, and puts each vector into one cluster.
use mathlib.Core.List.{length as lists_length, Perm, perm_middle, append-nil}
use mathlib.Core.List.Perm
use vector_db.Prelude.{
  ℕ, zero, suc, ◌+◌, ◌<◌, ◌≤◌, ◌^◌, ◌≡◌, ◌≢◌, refl, sym, subst, ap, ◌∙◌, List, [], ◌∷◌, ◌++◌,
  Option, none, some, done, ◌>>=◌, Bool, true, false, ◌||◌, if◌then◌else◌, length, length-append,
  take, ltb, nat_eq, All, All-take, length-take, arith, inl, inr, Bool-cases,
}
use vector_db.FloatVector.{FloatVector}
use vector_db.Distance.{Double, DistType, unknown, compute}
use vector_db.Distance.Laws.{compute_defined}
use vector_db.KMeans.{Cluster, push_id, clear, closest, assign_step, update_step, rounds, k_means}
use vector_db.KMeans.Clusters.{
  ids_of, Centroids, Below, push_id-perm, length-push_id, push_id-Centroids, push_id-Below,
  ids_of-clear, clear-Centroids, clear-Below, length-clear,
}
use vector_db.KMeans.Means.{KeepsFinite, Fits, Chosen, indices, initial_lem, update_one_lem}

length-lists :
    {A : Type 0} (xs ys : List A) → lists_length xs ≡ lists_length ys → length xs ≡ length ys
length-lists [] [] h = refl
length-lists [] (y ∷ ys) h = cc
length-lists (x ∷ xs) [] h = cc
length-lists (x ∷ xs) (y ∷ ys) h = ap suc (length-lists xs ys cc)

length-perm : {A : Type 0} (xs ys : List A) → Perm xs ys → length xs ≡ length ys
length-perm xs ys p = length-lists xs ys (Perm.length-eq p)

length-indices : (i : ℕ) (vs : List FloatVector) → length (indices i vs) ≡ length vs
length-indices i [] = refl
length-indices i (v ∷ vs) = ap suc (length-indices (suc i) vs)

module _ (D : Type 0) ⦃d : Double D⦄ (n dim : ℕ) (F : FloatVector → Type 0) (t : DistType)
    (keeps : KeepsFinite D n t F) (known : t ≢ unknown) where
  near_lem :
      (v c : FloatVector)
      → Fits dim F v
      → Fits dim F c
      → (x : D) × (compute t v c ≡ done x) × (d.lt x d.largest ≡ true)
  near_lem v c (vs, ve, vf) (cs, ce, cf) =
      let (x, e) =
        (compute_defined t v c known).0 (omega (arith, vs.sized)) (omega (arith, cs.sized)) in
      (x, e, keeps.near v c x vf cf e)

  -- Once a cluster is chosen, one is chosen in the end.
  closest_lem :
      (v : FloatVector) (j : ℕ) (m : D) (best : Option ℕ) (cs : List Cluster)
      → Fits dim F v
      → Centroids (Fits dim F) cs
      → Chosen j best
      → (r : Option ℕ) × (closest t v j m best cs ≡ done r) × Chosen (j + length cs) r
  unfolding closest
  closest_lem v j m best [] f fs (b, e, h) = (best, refl, (b, e, omega arith))
  closest_lem v j m best (c ∷ cs) f (g, gs) (b, e, h) =
      let (x, near, _) = near_lem v c.centroid f g in
      let smaller = d.lt x m in
      let next : Chosen (suc j) (if smaller then some j else best) = elim (Bool-cases smaller) [
        | inl s ↦ rw s (j, refl, omega arith)
        | inr s ↦ rw s (b, e, omega arith)
      ] in
      let (r, rest, (b', e', h')) =
        closest_lem v (suc j) (if smaller then x else m) (if smaller then some j else best) cs f gs
          next in
      (r, rw (near, ◌>>=◌) rest, (b', e', omega arith))

  pub first_lem :
      (v : FloatVector) (cs : List Cluster)
      → Fits dim F v
      → Centroids (Fits dim F) cs
      → 0 < length cs
      → (b : ℕ) × (closest t v 0 d.largest none cs ≡ done (some b)) × (b < length cs)
  unfolding closest
  first_lem v [] f fs h = absurd (omega arith)
  first_lem v (c ∷ cs) f (g, gs) h =
      let (x, near, less) = near_lem v c.centroid f g in
      let (r, rest, (b, e, h)) = closest_lem v 1 x (some 0) cs f gs (0, refl, omega arith) in
      (b, rw (near, ◌>>=◌, less) (rest ∙ ap done e), omega arith)

  assign_step_lem :
      (m i : ℕ) (vs : List FloatVector) (cs : List Cluster)
      → All (Fits dim F) vs
      → i + length vs ≤ m
      → Centroids (Fits dim F) cs
      → 0 < length cs
      → Below m cs
      → (r : List Cluster) × (assign_step D t i vs cs ≡ done r)
        × Perm (ids_of r) (indices i vs ++ ids_of cs)
        × Centroids (Fits dim F) r
        × (length r ≡ length cs)
        × Below m r
  unfolding assign_step
  assign_step_lem m i [] cs fs le gs h b = (cs, refl, Perm.refl (ids_of cs), gs, refl, b)
  assign_step_lem m i (v ∷ vs) cs (f, fs) le gs h b =
      let (j, chosen, k) = first_lem v cs f gs h in
      let cs' = push_id j i cs in
      let same = length-push_id j i cs in
      let (r, e, p, rs, l, q) =
        assign_step_lem m (suc i) vs cs' fs (omega arith) (push_id-Centroids (Fits dim F) j i cs gs)
          (omega (arith, same)) (push_id-Below m j i cs (omega arith) b) in
      (
        r,
        rw (chosen, ◌>>=◌) e,
        Perm.trans p (
            Perm.trans (Perm.append_left (indices (suc i) vs) (push_id-perm j i cs k))
              (perm_middle (indices (suc i) vs) (ids_of cs))),
        rs,
        l ∙ same,
        q,
      )

  module _ (vectors : List FloatVector) (fits : All (Fits dim F) vectors) (small : dim < 2 ^ 31)
      (few : length vectors ≤ n) where
    update_step_lem :
        (cs : List Cluster)
        → Centroids (Fits dim F) cs
        → Below (length vectors) cs
        → length (ids_of cs) ≤ n
        → (r : List Cluster) × (changed : Bool) × (update_step D dim vectors cs ≡ done (r, changed))
          × Centroids (Fits dim F) r
          × (ids_of r ≡ ids_of cs)
          × (length r ≡ length cs)
          × Below (length vectors) r
    unfolding update_step
    update_step_lem [] gs b le = ([], false, refl, tt, refl, refl, tt)
    update_step_lem (c ∷ cs) (g, gs) (b, bs) le =
        let sizes = length-append c.vector_ids (ids_of cs) in
        let ((c', changed), (one, f, ids)) =
          update_one_lem D n dim F t keeps vectors fits small c.centroid c.vector_ids g b
            (omega (arith, le, sizes)) in
        let (r, more, e, fs, same, l, q) = update_step_lem cs gs bs (omega (arith, le, sizes)) in
        (
          c' ∷ r,
          changed || more,
          rw (one, ◌>>=◌, e, ◌>>=◌) refl,
          (f, fs),
          ap (λ x. x ++ ids_of r) ids ∙ ap (λ x. c.vector_ids ++ x) same,
          ap suc l,
          (subst (All (λ i. i < length vectors)) (sym ids) b, q),
        )

    -- The clusters that a round leaves.
    abbrev Partition : List Cluster → Type 0
    Partition r =
        Perm (ids_of r) (indices 0 vectors) × Centroids (Fits dim F) r × Below (length vectors) r

    round_lem :
        (cs : List Cluster)
        → Centroids (Fits dim F) cs
        → 0 < length cs
        → (u : List Cluster) × (changed : Bool) × ((m : ℕ)
            → rounds D t dim vectors (suc m) cs
              ≡ (if changed then rounds D t dim vectors m u else done u))
          × Partition u
          × (0 < length u)
    unfolding rounds
    round_lem cs gs h =
        let (a, assigned, p, fs, l, b) =
          assign_step_lem (length vectors) 0 vectors (clear cs) fits (omega arith)
            (clear-Centroids (Fits dim F) cs gs) (omega (arith, length-clear cs))
            (clear-Below (length vectors) cs) in
        let all : indices 0 vectors ++ ids_of (clear cs) ≡ indices 0 vectors =
          ap (λ x. indices 0 vectors ++ x) (ids_of-clear cs) ∙ append-nil (indices 0 vectors) in
        let whole : Perm (ids_of a) (indices 0 vectors) = subst (λ x. Perm (ids_of a) x) all p in
        let size : length (ids_of a) ≡ length vectors =
          length-perm (ids_of a) (indices 0 vectors) whole ∙ length-indices 0 vectors in
        let (u, changed, updated, us, same, k, q) =
          update_step_lem a fs b (omega (arith, size, few)) in
        (
          u,
          changed,
          (λ m. rw (assigned, ◌>>=◌, updated, ◌>>=◌) refl),
          (subst (λ x. Perm x (indices 0 vectors)) (sym same) whole, us, q),
          omega (arith, l, k, length-clear cs),
        )

    rounds_lem :
        (m : ℕ) (cs : List Cluster)
        → Centroids (Fits dim F) cs
        → 0 < length cs
        → (r : List Cluster) × (rounds D t dim vectors (suc m) cs ≡ done r) × Partition r
    unfolding rounds
    rounds_lem zero cs gs h =
        let (u, changed, e, p, k) = round_lem cs gs h in
        (u, e zero ∙ elim (Bool-cases changed) [ inl c ↦ rw c refl | inr c ↦ rw c refl ], p)
    rounds_lem (suc m) cs gs h =
        let (u, changed, e, p, k) = round_lem cs gs h in
        elim (Bool-cases changed) [
          | inr c ↦ (u, e (suc m) ∙ rw c refl, p)
          | inl c ↦ let (r, rest, q) = rounds_lem m u p.1 k in (r, e (suc m) ∙ rw c rest, q)
        ]

  -- Given at least one round and one cluster, the clustering of vectors of one dimension returns, and
  -- the indices in its clusters are those of the vectors, each once.
  pub k_means_lem :
      (v : FloatVector) (vs : List FloatVector) (k max : ℕ)
      → All (Fits dim F) (v ∷ vs)
      → length (v ∷ vs) ≤ n
      → 0 < k
      → (r : List Cluster) × (k_means D (v ∷ vs) k t (suc max) ≡ done r)
        × Perm (ids_of r) (indices 0 (v ∷ vs))
        × Centroids (Fits dim F) r
        × Below (length (v ∷ vs)) r
  unfolding k_means
  k_means_lem v vs k max (f, fs) few h =
      let m : ℕ = if ltb (length (v ∷ vs)) k then length (v ∷ vs) else k in
      let (cs, e, gs, l) =
        initial_lem dim F (take m (v ∷ vs)) (All-take (Fits dim F) m (v ∷ vs) (f, fs)) in
      let some_left : 0 < m = ground arith in
      let (r, done_all, p) =
        rounds_lem (v ∷ vs) (f, fs) (subst (λ x. x < 2 ^ 31) f.1 f.0.in_range) few max cs gs
          (omega (arith, l, length-take m (v ∷ vs))) in
      let positive : nat_eq k 0 ≡ false = ground arith in
      (
        r,
        rw (positive, e, ◌>>=◌) (ap (λ x. rounds D t x (v ∷ vs) (suc max) cs) f.1 ∙ done_all),
        p.0,
        p.1,
        p.2,
      )
