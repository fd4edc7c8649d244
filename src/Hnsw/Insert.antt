-- ===== src/Hnsw/Insert.antt =====
-- `insert` of src/impl/core/indices/hnsw.cpp: a node is linked into the layers up to its level.
pub mod Connected
pub mod Grown
pub mod Linked
pub mod Shrunk
use vector_db.Prelude.{
  ℕ, zero, suc, min, List, [], ◌∷◌, map, Option, none, some, Outcome, done, undefined, ◌>>=◌, Bool,
  true, false, ◌||◌, if◌then◌else◌, length, ltb, leb, nat_eq, nat_key,
}
use vector_db.Assoc.{assign}
use vector_db.FloatVector.{FloatVector}
use vector_db.Vectors.{Vectors, get_vector_by_id}
use vector_db.Index.{HnswParams}
use vector_db.Distance.{Double, DistType}
use vector_db.Ids.{put_id, put_ids}
use vector_db.Hnsw.{HnswIndex}
use vector_db.Hnsw.Candidates.{CandSet, insert_cand, select_neighbors_heuristic}
use vector_db.Hnsw.Graph.{Layer, links, link, layer_at, set_layer, resize}
use vector_db.Hnsw.LayerSearch.{first, distance_between, search_layer}

-- The ids of a set of candidates, put into an empty set.
abbrev pub cand_ids : {D : Type 0} → CandSet D → List ℕ
cand_ids cs = map (λ c. c.1) cs

-- "add bidirectional links"
unfoldable pub link_both : ℕ → List ℕ → Layer → Layer
unfolding link
link_both id [] layer = layer
link_both id (nb ∷ nbs) layer = link_both id nbs (link nb id (link id nb layer))

abbrev pub layer_m : HnswParams → ℕ → ℕ
layer_m params zero = params.m0
layer_m params (suc lc) = params.m

-- The end of `insert`: a level above the top makes the node the entry point.
abbrev pub finish_insert : ℕ → ℕ → HnswIndex → HnswIndex
finish_insert id level i =
    let raised =
      if leb i.top level
      then record i {
        entry_point = id;
        top = suc level;
        neighbours = resize (suc level) i.neighbours;
      }
      else i in
    record raised { inserted = put_id id raised.inserted }

-- The draw of a level and the choice of the entry point, which come first.
abbrev pub start_insert : ℕ → HnswIndex → HnswIndex
start_insert id i = record i {
  drawn = suc i.drawn;
  node_levels = assign id (i.draws i.drawn) i.node_levels;
  entry_point = if nat_eq i.entry_point 0 then id else i.entry_point;
}

module _ (D : Type 0) ⦃d : Double D⦄ where
  -- `create_cand_set( node_id )`, over the links of that node: the distance is that from the node to
  -- the one being inserted, whatever the neighbour.
  unfoldable pub create_cand_set :
      DistType → ℕ → ℕ → Vectors → List ℕ → CandSet D → Outcome (CandSet D)
  unfolding distance_between insert_cand
  create_cand_set t inserting_id node_id vectors [] candidates = done candidates
  create_cand_set t inserting_id node_id vectors (nb ∷ nbs) candidates =
      distance_between t inserting_id node_id vectors >>= λ x.
      create_cand_set t inserting_id node_id vectors nbs (insert_cand (x, nb) candidates)

  unfoldable pub create_neighbour_set : CandSet D → List ℕ
  unfolding put_ids
  create_neighbour_set candidates = put_ids (cand_ids candidates) []

  -- The body of "shrink connections" for a neighbour. To assign to the set that the loop runs over,
  -- where the node is its own neighbour, is undefined.
  unfoldable pub shrink : DistType → ℕ → ℕ → Vectors → ℕ → Layer → Outcome Layer
  unfolding links create_cand_set select_neighbors_heuristic create_neighbour_set assign
  shrink t m id vectors nb layer =
      let set = create_cand_set t id nb vectors (links nb layer) [] >>= λ cands.
      if nat_eq nb id
      then undefined
      else done (assign nb (create_neighbour_set (select_neighbors_heuristic cands m)) layer) in
      if ltb m (length (links nb layer)) then set else done layer

  unfoldable pub shrink_all : DistType → ℕ → ℕ → Vectors → List ℕ → Layer → Outcome Layer
  unfolding shrink
  shrink_all t m id vectors [] layer = done layer
  shrink_all t m id vectors (nb ∷ nbs) layer =
      shrink t m id vectors nb layer >>= λ l. shrink_all t m id vectors nbs l

  -- The loop from the top layer down to the one above the node's level; `n` is `lc + 1`.
  unfoldable pub descend :
      DistType → FloatVector → Vectors → List Layer → ℕ → ℕ → List ℕ → Outcome (List ℕ)
  unfolding search_layer
  descend t query vectors neighbours level zero ep = done ep
  descend t query vectors neighbours level (suc lc) ep =
      let next = search_layer {D = D} t query ep 1 lc vectors neighbours >>= λ candidates.
      first candidates >>= λ c. descend t query vectors neighbours level lc (c.1 ∷ []) in
      if leb lc level then done ep else next

  -- What `insert` does in layer `lc`: the layers, and the entry points for the layer below.
  unfoldable pub connect_layer :
      HnswParams
      → ℕ
      → FloatVector
      → Vectors
      → ℕ
      → List ℕ
      → List Layer
      → Outcome (List ℕ × List Layer)
  unfolding search_layer select_neighbors_heuristic link_both links shrink_all put_ids
  connect_layer params id v vectors lc ep neighbours = do
    candidates ←
        search_layer {D = D} params.dist_type v ep params.ef_construction lc vectors neighbours
    layer ← layer_at lc neighbours
    let linked =
        link_both id (cand_ids (select_neighbors_heuristic candidates (layer_m params lc))) layer
    shrunk ← shrink_all params.dist_type (layer_m params lc) id vectors (links id linked) linked
    done (put_ids (cand_ids candidates) [], set_layer lc shrunk neighbours)

  -- The loop from the node's level, or the top layer, down to layer 0; `n` is `lc + 1`.
  unfoldable pub connect :
      HnswParams → ℕ → FloatVector → Vectors → ℕ → List ℕ → List Layer → Outcome (List Layer)
  unfolding connect_layer
  connect params id v vectors zero ep neighbours = done neighbours
  connect params id v vectors (suc lc) ep neighbours =
      connect_layer params id v vectors lc ep neighbours >>= λ (ep', ls).
      connect params id v vectors lc ep' ls

  -- A node whose vector is gone leaves `insert` early.
  unfoldable pub insert : ℕ → Vectors → HnswIndex → Outcome HnswIndex
  unfolding get_vector_by_id descend connect put_id assign
  insert id vectors i =
      let level = i.draws i.drawn in
      let s = start_insert id i in
      get_vector_by_id id vectors >>= λ found. elim found [
        | none ↦ done s
        | some v ↦
            descend s.params.dist_type v vectors s.neighbours level s.top (s.entry_point ∷ [])
            >>= λ ep.
                connect s.params id v vectors (min (suc level) s.top) ep s.neighbours >>= λ ls.
                done (finish_insert id level (record s { neighbours = ls }))
      ]
