-- ===== src/Hnsw/Knn.antt =====
-- `search_knn` of src/impl/core/indices/hnsw.cpp, and the index as an implementation of the interface.
pub mod Answers
pub mod Keeping
use vector_db.Prelude.{
  ℕ, zero, suc, min, max, List, [], ◌∷◌, ◌++◌, Option, none, some, Outcome, done, thrown, undefined,
  ◌>>=◌, Bool, true, false, not, ◌&&◌, ◌||◌, if◌then◌else◌, leb, length, nat_eq,
}
use vector_db.FloatVector.{FloatVector}
use vector_db.Vectors.{Vectors, get_vector_by_id}
use vector_db.Index.{Params, of_hnsw, of_ivf, HnswParams}
use vector_db.Index.Interface.{IndexClass, Score, Answer, answered, threw}
use vector_db.Distance.{Double, cosine}
use vector_db.IvfFlat.{is_empty_list}
use vector_db.Hnsw.{HnswIndex, new_index}
use vector_db.Hnsw.Candidates.{CandSet}
use vector_db.Hnsw.LayerSearch.{search_layer}
use vector_db.Hnsw.Insert.{descend}
use vector_db.Hnsw.Pending.{on_vectors_added, on_vectors_removed, build, init}

module _ (D : Type 0) ⦃d : Double D⦄ where
  -- The pending changes are made first.
  unfoldable pub settle : Vectors → HnswIndex → Outcome HnswIndex
  unfolding build
  settle vectors i =
      let built = build D vectors i in
      if not (is_empty_list i.to_be_inserted) || not (is_empty_list i.to_be_removed)
      then built
      else done i

  -- The loop that fills the result, which throws at an id that the collection has no vector of.
  unfoldable pub fill : ℕ → Vectors → CandSet D → List (Score D) → Outcome (Answer D)
  unfolding get_vector_by_id
  fill k vectors [] result = done (answered true result)
  fill k vectors ((x, id) ∷ cs) result =
      let value : Option FloatVector → Outcome (Answer D) = λ found. elim found [
        | none ↦ done threw
        | some v ↦ fill k vectors cs (result ++ ((x, id, v) ∷ []))
      ] in
      let next = get_vector_by_id id vectors >>= value in
      if leb k (length result) then done (answered true result) else next

  -- The search of a graph without pending changes.
  unfoldable pub search_graph : FloatVector → ℕ → Vectors → HnswIndex → Outcome (Answer D)
  unfolding descend search_layer fill
  search_graph query k vectors i =
      let k' = min k (length i.inserted) in
      let t = i.params.dist_type in
      let found = descend D t query vectors i.neighbours 0 i.top (i.entry_point ∷ []) >>= λ ep.
      search_layer {D = D} t query ep (max k' i.params.ef_search) 0 vectors i.neighbours
      >>= λ candidates. fill k' vectors candidates [] in
      if is_empty_list i.inserted || nat_eq k 0 then done (answered true []) else found

  -- The index after the search, and what it returns.
  unfoldable pub search_for_top_k :
      FloatVector → ℕ → List (Score D) → Vectors → HnswIndex → Outcome (HnswIndex × Answer D)
  unfolding settle search_graph
  search_for_top_k query k results vectors i = do
    settled ← settle vectors i
    answer ← search_graph query k vectors settled
    done (settled, answer)
