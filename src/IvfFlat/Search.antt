-- ===== src/IvfFlat/Search.antt =====
-- What a search of the index finds.
use mathlib.Core.List.{Perm}
use mathlib.Core.List.Perm
use vector_db.Prelude.{ℕ, zero, suc, some, get_elem?, ◌≡◌, List, [], ◌∷◌, done, nat_key, false}
use vector_db.FloatVector.{FloatVector}
use vector_db.Vectors.{Vectors}
use vector_db.Index.Interface.{Score}
use vector_db.Distance.{Double, DistType, compute}
use vector_db.Distance.Order.{IsOrdered}
use vector_db.KMeans.{Cluster}

module _ {D : Type 0} ⦃d : Double D⦄ (t : DistType) (query : FloatVector) where
  -- The score carries the distance of the index between the query and its vector.
  abbrev pub IsScoredBy : Score D → Type 0
  IsScoredBy (dist, id, v) = compute t query v ≡ done dist

  -- The distance of the query to the centroid of the cluster.
  abbrev pub IsDistanceOf : List Cluster → D × ℕ → Type 0
  IsDistanceOf clusters (x, j) =
      (c : Cluster) × (get_elem? clusters j ≡ some c) × (compute t query c.centroid ≡ done x)

-- The first `n` numbers, from `j` on.
abbrev pub count_up : ℕ → ℕ → List ℕ
count_up j zero = []
count_up j (suc n) = j ∷ count_up (suc j) n

-- The distance of the index between the query and the vector, if there is one, is not NaN.
abbrev pub HasNumberBy :
    {D : Type 0} ⦃d : Double D⦄ → IsOrdered d → DistType → FloatVector → ℕ × FloatVector → Type 0
HasNumberBy {D} order t query (id, v) =
    (x : D) → compute t query v ≡ done x → order.is_nan x ≡ false
