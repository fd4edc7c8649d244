-- ===== src/Hnsw/LayerSearch/Returns.antt =====
-- The search of a layer returns, and what it returns.
use vector_db.Prelude.{
  ℕ, zero, suc, ◌+◌, ◌≤◌, ◌<◌, ◌≡◌, ◌≢◌, max, refl, ap, ◌∙◌, List, [], ◌∷◌, true, false, length,
  All, All-map, arith, inl, inr, Bool-cases, done, ◌>>=◌, Option-cases, nat_key,
}
use vector_db.FloatVector.{FloatVector}
use vector_db.FloatVector.Values.{copy_lem}
use vector_db.Vectors.{Vectors, get_vector_by_id}
use vector_db.Vectors.Found.{find-All}
use vector_db.Distance.{Double, DistType, unknown}
use vector_db.Distance.Laws.{compute_defined}
use vector_db.Distance.Order.{IsOrdered}
use vector_db.Scan.Nearest.{IsComparable}
use vector_db.IvfFlat.Search.{HasNumberBy}
use vector_db.Assoc.{find}
use vector_db.Ids.{mem_id}
use vector_db.Ids.Laws.{unseen-length}
use vector_db.Hnsw.Candidates.{CandSet}
use vector_db.Hnsw.Candidates.Select.{IsIncreasing}
use vector_db.Hnsw.Candidates.Order.{last-some}
use vector_db.Hnsw.Graph.{Layer, links, layer_at}
use vector_db.Hnsw.LayerSearch.{Frontier, distance_to, all_links, search_loop, enough, search_layer}
use vector_db.Hnsw.LayerSearch.Kept.{
  Measurable, Fine, Kept, Kept-within, links-all_links, All-mem_id, enter-Kept, work, expand-Kept,
}

module _ {D : Type 0} ⦃d : Double D⦄ (order : IsOrdered d) (t : DistType) (query : FloatVector)
    (vectors : Vectors) where
  -- The vectors of a collection are measurable.
  pub measure_all :
      t ≢ unknown
      → query.dimension ≤ length query.elements
      → order.is_nan d.largest ≡ false
      → All (IsComparable query) vectors
      → All (HasNumberBy order t query) vectors
      → Measurable order t query vectors
  unfolding distance_to
  measure_all known long finite cs ns id = elim (Option-cases (find id vectors)) [
    | inl none_e ↦ rw (none_e, get_vector_by_id) (d.largest, refl, finite)
    | inr (v, e) ↦
        let (sized, wide) = find-All (IsComparable query) vectors id v cs e in
        let (x, dist) = (compute_defined {D = D} t query v known).0 long wide in
        rw (e, get_vector_by_id, copy_lem v sized, ◌>>=◌)
          (x, dist, find-All (HasNumberBy order t query) vectors id v ns e x dist)
  ]

-- What the links of a layer lead to from the ids of a list.
pub data Reaches (layer : Layer) (from : List ℕ) : ℕ → Type 0 where
  start : (id : ℕ) → mem_id id from ≡ true → Reaches layer from id
  follow :
      (id next : ℕ)
      → Reaches layer from id
      → mem_id next (links id layer) ≡ true
      → Reaches layer from next

module _ {D : Type 0} ⦃d : Double D⦄ (order : IsOrdered d) (t : DistType) (query : FloatVector)
    (vectors : Vectors) where
  -- The search stays within what the links lead to, and the fuel is enough.
  search_loop-Kept :
      (P : ℕ → Type 0)
      → Measurable order t query vectors
      → (layer : Layer) → ((id : ℕ) → P id → All P (links id layer))
      → (bound ef : ℕ) → 0 < ef
      → ef ≤ bound
      → (fuel : ℕ) (result candidates : CandSet D) (visited : List ℕ)
      → (let f : Frontier D = record {
        result = result;
        candidates = candidates;
        visited = visited;
      } in
          Kept order t query vectors P bound f
          → 0 < length result
          → work order t query vectors (all_links layer) f ≤ fuel
          → (r : CandSet D) × (search_loop t query ef layer vectors fuel f ≡ done r)
            × All (Fine order t query vectors P) r
            × IsIncreasing r
            × (0 < length r)
            × (length r ≤ bound))
  unfolding search_loop
  search_loop-Kept P m layer closed bound ef some_ef le zero result [] visited k found within =
      (result, refl, k.results, k.increasing, found, k.bounded)
  search_loop-Kept P m layer closed bound ef some_ef le (suc fuel) result [] visited k found
        within =
      (result, refl, k.results, k.increasing, found, k.bounded)
  search_loop-Kept P m layer closed bound ef some_ef le zero result (c ∷ cs) visited k found
        within =
      absurd (omega arith)
  search_loop-Kept P m layer closed bound ef some_ef le (suc fuel) result ((x, id) ∷ cs) visited k
        found within =
      let ((farthest, far_id), at_end) = last-some result found in
      elim (Bool-cases (d.lt farthest x)) [
        | inl past ↦
            rw (at_end, ◌>>=◌, past) (result, refl, k.results, k.increasing, found, k.bounded)
        | inr near ↦
            let popped : Frontier D = record {
              result = result;
              candidates = cs;
              visited = visited;
            } in
            let kept : Kept order t query vectors P bound popped = record {
              results = k.results;
              pending = k.pending.1;
              increasing = k.increasing;
              bounded = k.bounded;
            } in
            let (g, e, kept', found', less) =
              expand-Kept order t query vectors P m (all_links layer) bound ef some_ef le
                (links id layer) popped (closed id k.pending.0.2)
                (All-map (links-all_links id layer) (links id layer) (All-mem_id (links id layer)))
                kept found in
            let (r, e', fine, sorted, more, short) =
              search_loop-Kept P m layer closed bound ef some_ef le fuel g.result g.candidates
                g.visited kept' found' (omega (arith, less, within)) in
            rw (at_end, ◌>>=◌, near, e, ◌>>=◌) (r, e', fine, sorted, more, short)
      ]

  -- The search of a layer, from entry points of a kind that links do not leave.
  pub search_layer-Kept :
      (P : ℕ → Type 0)
      → Measurable order t query vectors
      → (level ef : ℕ) (neighbours : List Layer) (layer : Layer) (ep : ℕ) (eps : List ℕ)
      → ((id : ℕ) → P id → All P (links id layer))
      → All P (ep ∷ eps)
      → 0 < ef
      → layer_at level neighbours ≡ done layer
      → (r : CandSet D) × (search_layer t query (ep ∷ eps) ef level vectors neighbours ≡ done r)
        × All (Fine order t query vectors P) r
        × IsIncreasing r
        × (0 < length r)
        × (length r ≤ max ef (length (ep ∷ eps)))
  unfolding search_layer
  search_layer-Kept P m level ef neighbours layer ep eps closed at_start some_ef there =
      let from = ep ∷ eps in
      let bound = max ef (length from) in
      let empty : Kept order t query vectors P 0
          (record { result = []; candidates = []; visited = [] }) =
        record { results = tt; pending = tt; increasing = tt; bounded = omega arith } in
      let (f, e, k, few, some_found) =
        enter-Kept order t query vectors P m from
          (record { result = []; candidates = []; visited = [] }) 0 at_start empty in
      let (r, e', fine, sorted, more, short) =
        search_loop-Kept P m layer closed bound ef some_ef (omega arith) (enough from layer)
          f.result f.candidates f.visited
          (Kept-within order t query vectors P (0 + length from) bound f (omega arith) k)
          (some_found (omega arith))
          (omega (arith, few, unseen-length (all_links layer) f.visited)) in
      (
        r,
        ap
              (λ o. o >>= λ f. layer_at level neighbours >>= λ l.
                search_loop t query ef l vectors (enough from l) f)
              e
            ∙ ap (λ o. o >>= λ l. search_loop t query ef l vectors (enough from l) f) there
            ∙ e',
        fine,
        sorted,
        more,
        short,
      )

  -- The search of a layer returns, and every distance that it reports is the distance of that id to the
  -- query; the ids are reached from the entry points by links; they stand in increasing order of
  -- distance and id; there is at least one, and there are at most `ef`, or as many as entry points.
  -- The layer is there, `ef` is not 0, there is an entry point, and every id has a distance that is a
  -- number.
  pub search_layer_lem :
      Measurable order t query vectors
      → (level ef : ℕ) (neighbours : List Layer) (layer : Layer) (ep : ℕ) (eps : List ℕ) → 0 < ef
      → layer_at level neighbours ≡ done layer
      → (r : CandSet D) × (search_layer t query (ep ∷ eps) ef level vectors neighbours ≡ done r)
        × All (Fine order t query vectors (Reaches layer (ep ∷ eps))) r
        × IsIncreasing r
        × (0 < length r)
        × (length r ≤ max ef (length (ep ∷ eps)))
  search_layer_lem m level ef neighbours layer ep eps some_ef there =
      search_layer-Kept (Reaches layer (ep ∷ eps)) m level ef neighbours layer ep eps
        (λ id reached.
          All-map (λ next h. follow id next reached h) (links id layer)
            (All-mem_id (links id layer)))
        (All-map start (ep ∷ eps) (All-mem_id (ep ∷ eps))) some_ef there
