-- ===== src/Tests/Graph.antt =====
-- The HNSW index on small collections.
use vector_db.Prelude.{
  ℕ, ◌<◌, suc, ◌%◌, ◌≤◌, ◌≡◌, ◌⊎◌, refl, sym, ◌∙◌, subst, List, [], ◌∷◌, true, false, not, ◌&&◌,
  ◌||◌, All, arith, done, done-injective, nat_key, length, inr,
}
use vector_db.FloatVector.{FloatVector, copy}
use vector_db.Vectors.{get_vector_by_id}
use vector_db.Assoc.{find}
use vector_db.Index.{HnswParams}
use vector_db.Index.Interface.{Score, answered, threw}
use vector_db.Distance.{compute, euclidean, euclidean_distance}
use vector_db.Distance.Whole.{whole, whole-IsOrdered}
use vector_db.Ids.{mem_id}
use vector_db.Hnsw.{HnswIndex, new_index}
use vector_db.Hnsw.Candidates.{CandSet}
use vector_db.Hnsw.LayerSearch.Kept.{Measurable}
use vector_db.Hnsw.LayerSearch.Returns.{measure_all}
use vector_db.Hnsw.Insert.Grown.{IsGraph, IsLayered-resize}
use vector_db.Hnsw.Pending.{build, init, on_vectors_added, on_vectors_removed, repair_entry}
use vector_db.Hnsw.Pending.Built.{IsPlaceable, IsSettled, build-adds, init_lem}
use vector_db.Hnsw.Pending.Entry.{is_top, repair_entry_lem}
use vector_db.Hnsw.Pending.View.{sees, IsReady, on_vectors_added-sees, on_vectors_removed-sees}
use vector_db.Hnsw.Knn.{search_for_top_k}
use vector_db.Hnsw.Knn.Answers.{Found, search_for_top_k-answers}
use vector_db.Tests.Fixtures.{pair, tagged, library}

abbrev pub sparse : HnswParams
sparse = record { dist_type = euclidean; m = 2; m0 = 4; ef_construction = 4; ef_search = 4 }

-- The levels 1, 0, 1, 0, ...
abbrev pub alternate : ℕ → ℕ
alternate n = suc n % 2

abbrev pub fresh : HnswIndex
fresh = new_index alternate sparse

abbrev pub two_nodes : HnswIndex
two_nodes = record {
  params = sparse;
  inserted = 7 ∷ 9 ∷ [];
  to_be_inserted = [];
  to_be_removed = [];
  node_levels = (7, 1) ∷ (9, 0) ∷ [];
  neighbours = ((9, 7 ∷ []) ∷ (7, 9 ∷ []) ∷ []) ∷ [] ∷ [];
  entry_point = 7;
  top = 2;
  draws = alternate;
  drawn = 2;
}

init_runs : init ℕ library.vectors fresh ≡ done two_nodes
unfolding init new_index find get_vector_by_id copy compute euclidean_distance
init_runs = refl

pub whole-Measurable :
    (v : FloatVector)
    → 2 ≤ v.dimension
    → v.dimension ≤ 2
    → 2 ≤ length v.elements
    → Measurable whole-IsOrdered euclidean v library.vectors
whole-Measurable v low high long =
    measure_all whole-IsOrdered euclidean v library.vectors (λ e. cc) (omega arith) refl
      (ground arith) (λ x h. refl, (λ x h. refl, tt))

abbrev pub IsPlaced : ℕ → Type 0
IsPlaced = IsPlaceable whole-IsOrdered euclidean library.vectors

pub seen_7 : IsPlaced 7
unfolding get_vector_by_id find copy
seen_7 =
    (refl, pair 1 2, refl, whole-Measurable (pair 1 2) (omega arith) (omega arith) (omega arith))

pub seen_9 : IsPlaced 9
unfolding get_vector_by_id find copy
seen_9 = (refl, tagged, refl, whole-Measurable tagged (omega arith) (omega arith) (omega arith))

init_lem_example :
    (j : HnswIndex) × (init ℕ library.vectors fresh ≡ done j)
    × IsGraph j
    × IsSettled j
    × (j.params ≡ fresh.params)
    × ((x : ℕ) → mem_id x j.inserted ≡ mem_id x (7 ∷ 9 ∷ []))
unfolding new_index
init_lem_example =
    init_lem whole-IsOrdered library.vectors fresh (omega arith) (seen_7, (seen_9, tt))

two_nodes-IsGraph : IsGraph two_nodes
two_nodes-IsGraph =
    let (j, e, g, settled, same, has) = init_lem_example in
    subst IsGraph (done-injective (sym e ∙ init_runs)) g

-- One node, and another that waits.
abbrev one_waits : HnswIndex
one_waits = record {
  params = sparse;
  inserted = 7 ∷ [];
  to_be_inserted = 9 ∷ [];
  to_be_removed = [];
  node_levels = (7, 1) ∷ [];
  neighbours = [] ∷ [] ∷ [];
  entry_point = 7;
  top = 2;
  draws = alternate;
  drawn = 1;
}

one_waits-IsGraph : IsGraph one_waits
unfolding find
one_waits-IsGraph = record {
  layered = IsLayered-resize sparse (7 ∷ []) 2 [] (λ lc l e. cc);
  sized = refl;
  entry = inr (refl, refl);
  nonzero = refl;
}

build-adds_example :
    (j : HnswIndex) × (build ℕ library.vectors one_waits ≡ done j)
    × IsGraph j
    × IsSettled j
    × (j.params ≡ sparse)
    × ((x : ℕ) → mem_id x j.inserted ≡ (mem_id x (9 ∷ []) || mem_id x (7 ∷ [])))
build-adds_example =
    build-adds whole-IsOrdered library.vectors one_waits (omega arith) refl (refl, tt) (seen_9, tt)
      (refl, tt) one_waits-IsGraph

search_for_top_k-answers_example :
    (found : CandSet ℕ) × (r : List (Score ℕ)) × (search_for_top_k ℕ tagged 1 [] library.vectors
        two_nodes
      ≡ done (two_nodes, answered true r))
    × Found whole-IsOrdered tagged library.vectors two_nodes 1 found r
unfolding get_vector_by_id find copy
search_for_top_k-answers_example =
    search_for_top_k-answers whole-IsOrdered tagged library.vectors two_nodes 1 []
      (whole-Measurable tagged (omega arith) (omega arith) (omega arith)) two_nodes-IsGraph
      (refl, refl) ((pair 1 2, refl), ((tagged, refl), tt))

search_runs :
    search_for_top_k ℕ tagged 1 [] library.vectors two_nodes
    ≡ done (two_nodes, answered true ((0, 9, tagged) ∷ []))
unfolding search_for_top_k find get_vector_by_id copy compute euclidean_distance
search_runs = refl

-- 9 was updated, and waits to be removed and put back.
abbrev updated : HnswIndex
updated = record two_nodes { to_be_inserted = 9 ∷ []; to_be_removed = 9 ∷ [] }

updated-IsReady : IsReady updated
updated-IsReady x p q = p

on_vectors_added-sees_example :
    IsReady (on_vectors_added (7 ∷ 8 ∷ []) updated)
    × ((x : ℕ)
        → sees x (on_vectors_added (7 ∷ 8 ∷ []) updated)
          ≡ (mem_id x (7 ∷ 8 ∷ []) || sees x updated))
on_vectors_added-sees_example = on_vectors_added-sees (7 ∷ 8 ∷ []) updated updated-IsReady

on_vectors_removed-sees_example :
    IsReady (on_vectors_removed (7 ∷ 9 ∷ []) updated)
    × ((x : ℕ)
        → sees x (on_vectors_removed (7 ∷ 9 ∷ []) updated)
          ≡ (not (mem_id x (7 ∷ 9 ∷ [])) && sees x updated))
on_vectors_removed-sees_example = on_vectors_removed-sees (7 ∷ 9 ∷ []) updated updated-IsReady

-- Once the only node on the top layer is removed, its id stays the entry point, and a search throws.
abbrev headless : HnswIndex
headless = record two_nodes {
  inserted = 9 ∷ [];
  node_levels = (9, 0) ∷ [];
  neighbours = ((9, []) ∷ []) ∷ [] ∷ [];
}

repair_entry_lem_example :
    (((headless.entry_point ≡ 0) ⊎ (mem_id 7 (9 ∷ []) ≡ true))
      × ((repair_entry headless).entry_point ≡ headless.entry_point))
    ⊎ ((0 < 7)
        × (mem_id 7 (9 ∷ []) ≡ false)
        × ((((repair_entry headless).entry_point ≡ 0) × (headless.inserted ≡ []))
            ⊎ ((mem_id (repair_entry headless).entry_point (9 ∷ []) ≡ true)
                × (is_top headless (repair_entry headless).entry_point ≡ true))
            ⊎ (((repair_entry headless).entry_point ≡ headless.entry_point)
                × All (λ id. is_top headless id ≡ false) (9 ∷ []))))
repair_entry_lem_example = repair_entry_lem headless

headless_search :
    search_for_top_k ℕ tagged 1 [] ((9, tagged) ∷ []) (on_vectors_removed (7 ∷ []) two_nodes)
    ≡ done (headless, threw)
unfolding search_for_top_k on_vectors_removed find get_vector_by_id copy compute euclidean_distance
headless_search = refl
