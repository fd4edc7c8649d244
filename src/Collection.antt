-- ===== src/Collection.antt =====
-- src/include/core/collection.h and src/impl/core/collection.cpp, over any implementation of `index_t`. The
-- locks are not part of this model: each call runs alone.
pub mod Changes
pub mod Persist
use vector_db.Prelude.{
  ℕ, suc, ◌+◌, List, [], ◌∷◌, ◌++◌, Option, none, some, Outcome, done, thrown, undefined, ◌>>=◌,
  Bool, true, false, if◌then◌else◌, Bytes, nat_key, bytes_key, length,
}
use vector_db.Assoc.{find, emplace, assign, erase, keys}
use vector_db.FloatVector.{FloatVector, move_assign}
use vector_db.Vectors.{Vectors}
use vector_db.Index.{IndexType, ivf_flat, hnsw, unknown_index, Params, of_hnsw, of_ivf, type_of}
use vector_db.Index.Interface.{IndexClass, Score, Answer, answered, threw}
use vector_db.Distance.{Double}
use vector_db.Scan

module _ {D : Type 0} (C : IndexClass D) where
  open C use {Index}

  pub record Collection : Type 0 where
    pub dimension : ℕ
    pub name : Bytes
    pub vectors : Vectors
    pub indices : List (Bytes × Index)

  -- The constructor.
  abbrev pub new_collection : ℕ → Bytes → Collection
  new_collection dimension name = record {
    dimension = dimension;
    name = name;
    vectors = [];
    indices = [];
  }

-- The loop of `add_vectors` over its arguments: the map, and how many were added and updated.
pub record Stored : Type 0 where
  pub vectors : Vectors
  pub added : ℕ
  pub updated : ℕ

pub store : ℕ × FloatVector → Stored → Stored
store (id, v) s = elim (find id s.vectors) [
  | some old ↦ record s {
    vectors = assign id (move_assign old v).0 s.vectors;
    updated = s.updated + 1;
  }
  | none ↦ record s { vectors = emplace id v s.vectors; added = s.added + 1 }
]

pub store_all : List (ℕ × FloatVector) → Stored → Stored
unfolding store
store_all [] s = s
store_all (p ∷ ps) s = store_all ps (store p s)

-- The loop of `remove_vectors`: the map, and the ids that were in it, in order.
pub erase_all : List ℕ → Vectors → Vectors × List ℕ
erase_all [] vectors = (vectors, [])
erase_all (id ∷ ids) vectors = elim (find id vectors) [
  | some v ↦ let (left, removed) = erase_all ids (erase id vectors) in (left, id ∷ removed)
  | none ↦ erase_all ids vectors
]

-- A call of a hook on every index.
pub each {ℓ} : {I : Type ℓ} → (I → Outcome I) → List (Bytes × I) → Outcome (List (Bytes × I))
each hook [] = done []
each hook ((name, i) ∷ rest) = do j ← hook i; more ← each hook rest; done ((name, j) ∷ more)

module _ {D : Type 0} (C : IndexClass D) where
  open C use {Index, make, init, on_vectors_added, on_vectors_removed, get_params}

  abbrev pub stored_in : Collection C → List (ℕ × FloatVector) → Stored
  stored_in c vs = store_all vs (record { vectors = c.vectors; added = 0; updated = 0 })

  -- The collection, and the pair of counts.
  unfoldable pub add_vectors :
      List (ℕ × FloatVector) → Collection C → Outcome (Collection C × (ℕ × ℕ))
  unfolding store_all each
  add_vectors vs c =
      let s = stored_in c vs in
      each (on_vectors_added (keys vs) s.vectors) c.indices >>= λ indices.
      done (record c { vectors = s.vectors; indices = indices }, (s.added, s.updated))

  -- The hooks are called only if something was removed.
  abbrev pub notify_removed : Vectors → List ℕ → Collection C → Outcome (Collection C × ℕ)
  notify_removed left [] c = done (record c { vectors = left }, 0)
  notify_removed left (id ∷ ids) c =
      each (on_vectors_removed (id ∷ ids) left) c.indices >>= λ indices.
      done (record c { vectors = left; indices = indices }, length (id ∷ ids))

  unfoldable pub remove_vectors : List ℕ → Collection C → Outcome (Collection C × ℕ)
  unfolding erase_all each
  remove_vectors ids c =
      let (left, removed) = erase_all ids c.vectors in notify_removed left removed c

  -- The `dynamic_cast` of a parameter pointer, which may be null, to the record of an index type.
  abbrev pub cast_to : IndexType → Option Params → Option Params
  cast_to hnsw (some (of_hnsw p)) = some (of_hnsw p)
  cast_to ivf_flat (some (of_ivf p)) = some (of_ivf p)
  cast_to _ _ = none

  -- An exception leaves the collection as it was, and is a `false`. An index of the same name stays.
  abbrev pub put_index : Bytes → Collection C → Outcome Index → Outcome (Collection C × Bool)
  put_index name c (done i) = done (record c { indices = emplace name i c.indices }, true)
  put_index name c thrown = done (c, false)
  put_index name c undefined = undefined

  unfoldable pub add_index :
      (ℕ → ℕ) → Bytes → IndexType → Option Params → Collection C → Outcome (Collection C × Bool)
  add_index draws name index_type params c = elim (cast_to index_type params) [
    | none ↦ done (c, false)
    | some p ↦ put_index name c (init c.vectors (make draws p))
  ]

  unfoldable pub get_index_params : Bytes → Collection C → Option (IndexType × Params)
  get_index_params name c = elim (find name c.indices) [
    | none ↦ none
    | some i ↦ some (type_of (get_params i), get_params i)
  ]

module _ {D : Type 0} ⦃d : Double D⦄ (C : IndexClass D) where
  -- With an index of the name, that index answers; with none, the exhaustive search does.
  unfoldable pub search_for_top_k :
      FloatVector → ℕ → List (Score D) → Bytes → Collection C → Outcome (Collection C × Answer D)
  search_for_top_k query k results index_name c = elim (find index_name c.indices) [
    | none ↦ Scan.search_for_top_k query k c.vectors >>= λ a. done (c, a)
    | some i ↦ C.search_for_top_k query k results c.vectors i >>= λ (j, a).
        done (record c { indices = assign index_name j c.indices }, a)
  ]
