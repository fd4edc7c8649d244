-- ===== src/Hnsw.antt =====
-- src/include/core/indices/hnsw.h and src/impl/core/indices/hnsw.cpp: the layered graph index, as an
-- implementation of the index interface. Its lock is taken once in each call and is not part of
-- this model.
pub mod Candidates
pub mod Graph
pub mod LayerSearch
pub mod Insert
pub mod Pending
pub mod Knn
use vector_db.Prelude.{ℕ, zero, suc, List, []}
use vector_db.Index.{HnswParams}
use vector_db.Hnsw.Graph.{Layer}

-- `class index`. `top` is `max_layer_ + 1`, which is 0 in an empty graph. `draws` gives the node
-- levels that `generate_random_level` draws in turn, and `drawn` says how many it has drawn.
pub record HnswIndex : Type 0 where
  pub params : HnswParams
  pub inserted : List ℕ
  pub to_be_inserted : List ℕ
  pub to_be_removed : List ℕ
  pub node_levels : List (ℕ × ℕ)
  pub neighbours : List Layer
  pub entry_point : ℕ
  pub top : ℕ
  pub draws : ℕ → ℕ
  pub drawn : ℕ

-- The constructor.
unfoldable pub new_index : (ℕ → ℕ) → HnswParams → HnswIndex
new_index draws params = record {
  params = params;
  inserted = [];
  to_be_inserted = [];
  to_be_removed = [];
  node_levels = [];
  neighbours = [];
  entry_point = 0;
  top = 0;
  draws = draws;
  drawn = 0;
}

unfoldable pub no_lock_clear : HnswIndex → HnswIndex
no_lock_clear i = record i {
  to_be_inserted = [];
  to_be_removed = [];
  inserted = [];
  node_levels = [];
  neighbours = [];
  entry_point = 0;
  top = 0;
}
