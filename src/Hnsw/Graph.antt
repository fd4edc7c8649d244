-- ===== src/Hnsw/Graph.antt =====
-- `neighbours_`: for each layer the links of each node. What `operator[]` puts in for a node that has
-- no entry is an empty set, which is the same as none.
pub mod Layers
pub mod Links
pub mod Unlinking
use vector_db.Prelude.{
  ℕ, zero, suc, List, [], ◌∷◌, Option, none, some, Outcome, done, undefined, ◌>>=◌, or_undefined,
  get_elem?, if◌then◌else◌, nat_key, nat_eq,
}
use vector_db.Assoc.{find, assign, erase}
use vector_db.Ids.{put_id, remove_id, mem_id}

abbrev pub Layer : Type 0
Layer = List (ℕ × List ℕ)

-- `neighbours_[ lc ][ id ]`
unfoldable pub links : ℕ → Layer → List ℕ
unfolding find
links id layer = elim (find id layer) [ none ↦ [] | some ids ↦ ids ]

-- `neighbours_[ lc ][ id ].insert( other )`
unfoldable pub link : ℕ → ℕ → Layer → Layer
unfolding links assign put_id
link id other layer = assign id (put_id other (links id layer)) layer

-- `neighbours_[ lc ][ id ].erase( other )`
unfoldable pub unlink : ℕ → ℕ → Layer → Layer
unfolding links assign remove_id
unlink id other layer = assign id (remove_id other (links id layer)) layer

-- `neighbours_[ lc ]`; an index past the end is undefined.
abbrev pub layer_at : ℕ → List Layer → Outcome Layer
layer_at lc neighbours = or_undefined (get_elem? neighbours lc)

abbrev pub set_layer : ℕ → Layer → List Layer → List Layer
set_layer lc layer [] = []
set_layer zero layer (l ∷ ls) = layer ∷ ls
set_layer (suc lc) layer (l ∷ ls) = l ∷ set_layer lc layer ls

-- `neighbours_.resize( n )`, which only ever grows it.
abbrev pub resize : ℕ → List Layer → List Layer
resize zero ls = []
resize (suc n) [] = [] ∷ resize n []
resize (suc n) (l ∷ ls) = l ∷ resize n ls

-- The loop of `build` over the links of a removed node. To erase from the set that the loop runs over,
-- where a node is linked to itself, is undefined.
unfoldable pub unlink_all : ℕ → List ℕ → Layer → Outcome Layer
unfolding unlink
unlink_all id [] layer = done layer
unlink_all id (nb ∷ nbs) layer =
    let rest = unlink_all id nbs (unlink nb id layer) in if nat_eq nb id then undefined else rest

-- What `build` does to a layer for a removed node.
unfoldable pub unlink_node : ℕ → Layer → Outcome Layer
unfolding unlink_all links erase
unlink_node id layer = unlink_all id (links id layer) layer >>= λ l. done (erase id l)

-- The loop of `build` over the layers, `count` of them from `lc` on.
unfoldable pub unlink_layers : ℕ → ℕ → ℕ → List Layer → Outcome (List Layer)
unfolding unlink_node
unlink_layers id lc zero neighbours = done neighbours
unlink_layers id lc (suc count) neighbours = do
  layer ← layer_at lc neighbours
  left ← unlink_node id layer
  unlink_layers id (suc lc) count (set_layer lc left neighbours)
