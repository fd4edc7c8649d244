-- ===== src/Hnsw/Pending.antt =====
-- The changes that wait for the next search, and `build` and `init`, which make them
-- (src/impl/core/indices/hnsw.cpp).
pub mod Built
pub mod Entry
pub mod View
use vector_db.Prelude.{
  ℕ, zero, suc, List, [], ◌∷◌, Option, none, some, Outcome, done, undefined, ◌>>=◌, Bool, true,
  false, not, ◌&&◌, ◌||◌, if◌then◌else◌, ltb, nat_eq, nat_key,
}
use vector_db.Assoc.{find, erase}
use vector_db.Vectors.{Vectors, get_all_vector_ids}
use vector_db.Distance.{Double}
use vector_db.Ids.{mem_id, put_id, put_ids, remove_id}
use vector_db.IvfFlat.{is_empty_list}
use vector_db.Hnsw.{HnswIndex, no_lock_clear}
use vector_db.Hnsw.Graph.{unlink_layers}
use vector_db.Hnsw.Insert.{insert}

abbrev pub note_added : ℕ → HnswIndex → HnswIndex
note_added id i = record i {
  to_be_removed = if mem_id id i.inserted then put_id id i.to_be_removed else i.to_be_removed;
  to_be_inserted = put_id id i.to_be_inserted;
}

unfoldable pub on_vectors_added : List ℕ → HnswIndex → HnswIndex
unfolding put_id
on_vectors_added [] i = i
on_vectors_added (id ∷ ids) i = on_vectors_added ids (note_added id i)

abbrev pub note_removed : ℕ → HnswIndex → HnswIndex
note_removed id i =
    if mem_id id i.to_be_inserted
    then record i { to_be_inserted = remove_id id i.to_be_inserted }
    else record i { to_be_removed = put_id id i.to_be_removed }

unfoldable pub on_vectors_removed : List ℕ → HnswIndex → HnswIndex
unfolding put_id remove_id
on_vectors_removed [] i = i
on_vectors_removed (id ∷ ids) i = on_vectors_removed ids (note_removed id i)

-- A node leaves every layer.
unfoldable pub remove_node : ℕ → HnswIndex → Outcome HnswIndex
unfolding unlink_layers erase remove_id
remove_node id i = unlink_layers id 0 i.top i.neighbours >>= λ ls. done (record i {
  neighbours = ls;
  node_levels = erase id i.node_levels;
  inserted = remove_id id i.inserted;
})

unfoldable pub remove_nodes : List ℕ → HnswIndex → Outcome HnswIndex
unfolding remove_node
remove_nodes [] i = done i
remove_nodes (id ∷ ids) i = remove_node id i >>= λ j. remove_nodes ids j

-- `node_levels_[ id ]`, which is 0 for an id without a level.
abbrev pub level_of : ℕ → HnswIndex → ℕ
level_of id i = elim (find id i.node_levels) [ none ↦ 0 | some l ↦ l ]

-- The first of the ids whose level is the top layer.
unfoldable pub find_top : HnswIndex → List ℕ → Option ℕ
unfolding find
find_top i [] = none
find_top i (id ∷ ids) =
    let rest = find_top i ids in if nat_eq (suc (level_of id i)) i.top then some id else rest

abbrev pub replace_entry : HnswIndex → ℕ
replace_entry i =
    if is_empty_list i.inserted
    then 0
    else elim (find_top i i.inserted) [ none ↦ i.entry_point | some id ↦ id ]

-- The choice of a new entry point once the old one is removed.
unfoldable pub repair_entry : HnswIndex → HnswIndex
unfolding find_top
repair_entry i =
    if ltb 0 i.entry_point && not (mem_id i.entry_point i.inserted)
    then record i { entry_point = replace_entry i }
    else i

module _ (D : Type 0) ⦃d : Double D⦄ where
  unfoldable pub insert_nodes : List ℕ → Vectors → HnswIndex → Outcome HnswIndex
  unfolding insert
  insert_nodes [] vectors i = done i
  insert_nodes (id ∷ ids) vectors i = insert D id vectors i >>= λ j. insert_nodes ids vectors j

  unfoldable pub build : Vectors → HnswIndex → Outcome HnswIndex
  unfolding remove_nodes repair_entry insert_nodes
  build vectors i = do
    removed ← remove_nodes i.to_be_removed i
    let repaired = repair_entry (record removed { to_be_removed = [] })
    built ← insert_nodes repaired.to_be_inserted vectors repaired
    done (record built { to_be_removed = []; to_be_inserted = [] })

  unfoldable pub init : Vectors → HnswIndex → Outcome HnswIndex
  unfolding no_lock_clear put_ids build
  init vectors i =
      let ids = get_all_vector_ids vectors in
      let cleared = no_lock_clear i in
      let built = build vectors (record cleared { to_be_inserted = put_ids ids [] }) in
      if is_empty_list ids then done cleared else built
