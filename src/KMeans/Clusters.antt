-- ===== src/KMeans/Clusters.antt =====
-- The ids in a list of clusters, and what adding one does to them.
use mathlib.Core.List.{Perm, perm_middle}
use mathlib.Core.List.Perm
use vector_db.Prelude.{
  ℕ, zero, suc, ◌<◌, ◌≡◌, refl, ap, List, [], ◌∷◌, ◌++◌, append_assoc, All, All-append, length,
  arith, subst, sym,
}
use vector_db.FloatVector.{FloatVector}
use vector_db.KMeans.{Cluster, push_id, clear}

-- The ids of all clusters, one after the other.
abbrev pub ids_of : List Cluster → List ℕ
ids_of [] = []
ids_of (c ∷ cs) = c.vector_ids ++ ids_of cs

abbrev pub Centroids {κ} : (FloatVector → Type κ) → List Cluster → Type κ
Centroids P cs = All (λ c. P c.centroid) cs

-- The ids of every cluster are below a bound.
abbrev pub Below : ℕ → List Cluster → Type 0
Below n cs = All (λ c. All (λ i. i < n) c.vector_ids) cs

-- An id that is pushed into a cluster that is there is one more of the ids.
pub push_id-perm :
    (j id : ℕ) (cs : List Cluster)
    → j < length cs
    → Perm (ids_of (push_id j id cs)) (id ∷ ids_of cs)
unfolding push_id
push_id-perm j id [] h = absurd (omega arith)
push_id-perm zero id (c ∷ cs) h =
    subst (λ l. Perm l (id ∷ (c.vector_ids ++ ids_of cs)))
      (sym (append_assoc c.vector_ids (id ∷ []) (ids_of cs))) (perm_middle c.vector_ids (ids_of cs))
push_id-perm (suc j) id (c ∷ cs) h =
    Perm.trans (Perm.append_left c.vector_ids (push_id-perm j id cs (omega arith)))
      (perm_middle c.vector_ids (ids_of cs))

pub length-push_id : (j id : ℕ) (cs : List Cluster) → length (push_id j id cs) ≡ length cs
unfolding push_id
length-push_id j id [] = refl
length-push_id zero id (c ∷ cs) = refl
length-push_id (suc j) id (c ∷ cs) = ap suc (length-push_id j id cs)

pub push_id-Centroids {κ} :
    (P : FloatVector → Type κ) (j id : ℕ) (cs : List Cluster)
    → Centroids P cs
    → Centroids P (push_id j id cs)
unfolding push_id
push_id-Centroids P j id [] ps = tt
push_id-Centroids P zero id (c ∷ cs) ps = ps
push_id-Centroids P (suc j) id (c ∷ cs) (p, ps) = (p, push_id-Centroids P j id cs ps)

pub push_id-Below :
    (n j id : ℕ) (cs : List Cluster) → id < n → Below n cs → Below n (push_id j id cs)
unfolding push_id
push_id-Below n j id [] h b = tt
push_id-Below n zero id (c ∷ cs) h (b, bs) =
    (All-append (λ i. i < n) c.vector_ids (id ∷ []) b (h, tt), bs)
push_id-Below n (suc j) id (c ∷ cs) h (b, bs) = (b, push_id-Below n j id cs h bs)

pub ids_of-clear : (cs : List Cluster) → ids_of (clear cs) ≡ []
ids_of-clear [] = refl
ids_of-clear (c ∷ cs) = ids_of-clear cs

pub clear-Centroids {κ} :
    (P : FloatVector → Type κ) (cs : List Cluster) → Centroids P cs → Centroids P (clear cs)
clear-Centroids P [] ps = tt
clear-Centroids P (c ∷ cs) (p, ps) = (p, clear-Centroids P cs ps)

pub clear-Below : (n : ℕ) (cs : List Cluster) → Below n (clear cs)
clear-Below n [] = tt
clear-Below n (c ∷ cs) = (tt, clear-Below n cs)

pub length-clear : (cs : List Cluster) → length (clear cs) ≡ length cs
length-clear [] = refl
length-clear (c ∷ cs) = ap suc (length-clear cs)
