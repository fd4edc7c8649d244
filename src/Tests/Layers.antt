-- ===== src/Tests/Layers.antt =====
-- The layers of the HNSW index, and their ordered candidates.
use vector_db.Prelude.{
  ℕ, ◌≤◌, ◌<◌, ◌≡◌, refl, [], ◌∷◌, true, false, not, ◌&&◌, All, arith, done, undefined, some,
  nat_key, nat_eq, nat_eq_iff, length, max,
}
use vector_db.FloatVector.{copy}
use vector_db.Vectors.{get_vector_by_id}
use vector_db.Assoc.{find}
use vector_db.Distance.{compute, euclidean, euclidean_distance}
use vector_db.Distance.Order.{IsNumber}
use vector_db.Distance.Whole.{whole, whole-IsOrdered}
use vector_db.Ids.{mem_id}
use vector_db.Hnsw.Candidates.{CandSet, select_neighbors_heuristic}
use vector_db.Hnsw.Candidates.Select.{IsIncreasing, select_neighbors_heuristic_lem}
use vector_db.Hnsw.Graph.{Layer, links, unlink_node}
use vector_db.Hnsw.Graph.Links.{Joins}
use vector_db.Hnsw.Graph.Unlinking.{unlink_node_lem}
use vector_db.Hnsw.LayerSearch.{search_layer, distance_between}
use vector_db.Hnsw.LayerSearch.Kept.{Fine}
use vector_db.Hnsw.LayerSearch.Returns.{Reaches, search_layer_lem}
use vector_db.Hnsw.Insert.{shrink_all}
use vector_db.Hnsw.Insert.Linked.{Sizes}
use vector_db.Hnsw.Insert.Shrunk.{shrink_all-lem}
use vector_db.Hnsw.Insert.Connected.{between}
use vector_db.Tests.Fixtures.{tagged, library}
use vector_db.Tests.Graph.{sparse, two_nodes, whole-Measurable}

search_layer_lem_example :
    (r : CandSet ℕ) × (search_layer euclidean tagged
        (7 ∷ [])
        1
        0
        library.vectors
        two_nodes.neighbours
      ≡ done r)
    × All
        (Fine whole-IsOrdered euclidean tagged library.vectors
          (Reaches ((9, 7 ∷ []) ∷ (7, 9 ∷ []) ∷ []) (7 ∷ [])))
        r
    × IsIncreasing r
    × (0 < length r)
    × (length r ≤ max 1 1)
search_layer_lem_example =
    search_layer_lem whole-IsOrdered euclidean tagged library.vectors
      (whole-Measurable tagged (omega arith) (omega arith) (omega arith)) 0 1 two_nodes.neighbours
      ((9, 7 ∷ []) ∷ (7, 9 ∷ []) ∷ []) 7 [] (omega arith) refl

select_neighbors_heuristic_lem_example :
    select_neighbors_heuristic {D = ℕ} ((1, 7) ∷ (3, 9) ∷ (3, 11) ∷ []) 2 ≡ (1, 7) ∷ (3, 9) ∷ []
select_neighbors_heuristic_lem_example =
    select_neighbors_heuristic_lem {D = ℕ} 2 ((1, 7) ∷ (3, 9) ∷ (3, 11) ∷ [])
      (((refl, refl), ((refl, refl), tt)), (((refl, refl), tt), (tt, tt)))

unlink_node_lem_example :
    (mem_id 7 (links 7 ((7, 9 ∷ []) ∷ (9, 7 ∷ []) ∷ (4, 7 ∷ []) ∷ [])) ≡ true
      → unlink_node 7 ((7, 9 ∷ []) ∷ (9, 7 ∷ []) ∷ (4, 7 ∷ []) ∷ []) ≡ undefined)
    × (mem_id 7 (links 7 ((7, 9 ∷ []) ∷ (9, 7 ∷ []) ∷ (4, 7 ∷ []) ∷ [])) ≡ false
        → (l : Layer) × (unlink_node 7 ((7, 9 ∷ []) ∷ (9, 7 ∷ []) ∷ (4, 7 ∷ []) ∷ []) ≡ done l)
          × ((x y : ℕ)
              → mem_id y (links x l) ≡ (
                  mem_id y (links x ((7, 9 ∷ []) ∷ (9, 7 ∷ []) ∷ (4, 7 ∷ []) ∷ []))
                  && not (nat_eq 7 x)
                  && not (
                      mem_id x (links 7 ((7, 9 ∷ []) ∷ (9, 7 ∷ []) ∷ (4, 7 ∷ []) ∷ []))
                      && nat_eq 7 y))))
unlink_node_lem_example = unlink_node_lem 7 ((7, 9 ∷ []) ∷ (9, 7 ∷ []) ∷ (4, 7 ∷ []) ∷ [])

-- Node 4 has three links, where two are allowed.
abbrev crowded : Layer
crowded = (7, 4 ∷ []) ∷ (4, 9 ∷ 7 ∷ 11 ∷ []) ∷ []

crowded-Sizes : Sizes 2 (4 ∷ []) crowded
unfolding links find
crowded-Sizes x = ground (arith, nat_eq_iff 7 x, nat_eq_iff 4 x)

crowded-Joins : Joins (4 ∷ 7 ∷ 9 ∷ 11 ∷ []) crowded
unfolding links find
crowded-Joins x y h = ground (
  arith,
  nat_eq_iff 7 x,
  nat_eq_iff 4 x,
  nat_eq_iff 4 y,
  nat_eq_iff 7 y,
  nat_eq_iff 9 y,
  nat_eq_iff 11 y,
  nat_eq_iff x y,
)

found_9 : get_vector_by_id 9 library.vectors ≡ done (some tagged)
unfolding get_vector_by_id find copy
found_9 = refl

between_9 :
    (nb : ℕ)
    → (x : ℕ) × (distance_between euclidean 9 nb library.vectors ≡ done x)
      × IsNumber whole-IsOrdered (x, 9)
between_9 =
    between whole-IsOrdered sparse (omega arith) library.vectors 9 tagged found_9
      (whole-Measurable tagged (omega arith) (omega arith) (omega arith)) [] refl

shrink_all-lem_example :
    (l : Layer) × (shrink_all ℕ euclidean 2 9 library.vectors (4 ∷ []) crowded ≡ done l)
    × Joins (4 ∷ 7 ∷ 9 ∷ 11 ∷ []) l
    × Sizes 2 [] l
shrink_all-lem_example =
    shrink_all-lem whole-IsOrdered euclidean 9 library.vectors between_9 2 (4 ∷ 7 ∷ 9 ∷ 11 ∷ [])
      (4 ∷ []) crowded (refl, tt) crowded-Sizes crowded-Joins

-- It keeps the two smallest ids, whatever their distances.
shrink_runs :
    shrink_all ℕ euclidean 2 9 library.vectors (4 ∷ []) crowded
    ≡ done ((7, 4 ∷ []) ∷ (4, 7 ∷ 9 ∷ []) ∷ [])
unfolding shrink_all find get_vector_by_id copy compute euclidean_distance
shrink_runs = refl
