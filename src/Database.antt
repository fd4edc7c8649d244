-- ===== src/Database.antt =====
-- src/include/core/database.h and src/impl/core/database.cpp; `save` and `load` are in Database/Files. The mutex is not part
-- of this model: each call runs alone.
pub mod Store
pub mod Answers
pub mod Files
use vector_db.Prelude.{
  ℕ, List, [], ◌∷◌, Option, none, some, Outcome, done, thrown, undefined, ◌>>=◌, Bool, true, false,
  not, ◌&&◌, if◌then◌else◌, Bytes, bytes_key, nat_eq, map,
}
use vector_db.Status.{
  Status, success, collection_already_exists, collection_does_not_exist, vector_dimension_mismatch,
  index_does_not_exist, internal_error, Result, failure, with_payload, succeeded,
}
use vector_db.Name.{is_collection_name_valid}
use vector_db.Assoc.{find, emplace, assign, erase}
use vector_db.FloatVector.{FloatVector}
use vector_db.Index.{IndexType, Params}
use vector_db.Index.Interface.{IndexClass, Score, Answer, answered, threw}
use vector_db.Distance.{Double}
use vector_db.Collection.{Collection, new_collection}
use vector_db.Collection

-- `collection_properties`
pub record Properties : Type 0 where
  pub dimension : ℕ
  pub name : Bytes

-- The check of `add_vectors` before anything is stored.
abbrev pub all_have_dimension : ℕ → List (ℕ × FloatVector) → Bool
all_have_dimension dimension [] = true
all_have_dimension dimension ((id, v) ∷ vs) =
    nat_eq v.dimension dimension && all_have_dimension dimension vs

module _ {D : Type 0} (C : IndexClass D) where
  pub record Database : Type 0 where
    pub collections : List (Bytes × Collection C)

  -- The object behind the shared pointer, changed in place.
  abbrev pub put : Bytes → Collection C → Database → Database
  put name c db = record db { collections = assign name c db.collections }

  -- The common head of the methods: the name is checked, then looked up.
  abbrev pub with_collection {κ} :
      {A : Type κ} → Bytes → Database → (Status → A) → (Collection C → A) → A
  with_collection name db refuse act =
      let s = is_collection_name_valid name in
      if not (succeeded s) then refuse s else elim (find name db.collections) [
        | none ↦ refuse collection_does_not_exist
        | some c ↦ act c
      ]

  unfoldable pub add_vectors :
      Bytes → List (ℕ × FloatVector) → Database → Outcome (Database × Status)
  add_vectors name vectors db =
      with_collection name db (λ s. done (db, s))
        λ c.
          if all_have_dimension c.dimension vectors
          then (Collection.add_vectors C vectors c >>= λ (c', counts).
              done (put name c' db, success))
          else done (db, vector_dimension_mismatch)

  abbrev pub properties : Collection C → Properties
  properties c = record { dimension = c.dimension; name = c.name }

  unfoldable pub get_all_collections : Database → Result (List (Bytes × Properties))
  get_all_collections db = with_payload success (map (λ (id, c). (id, properties c)) db.collections)

  unfoldable pub get_collection_info : Bytes → Database → Result Properties
  get_collection_info name db =
      with_collection name db (λ s. failure s) λ c. with_payload success (properties c)

  unfoldable pub add_collection : Bytes → ℕ → Database → Database × Status
  add_collection name dimension db =
      let s = is_collection_name_valid name in
      if not (succeeded s) then (db, s) else elim (find name db.collections) [
        | some c ↦ (db, collection_already_exists)
        | none ↦ (
          record db { collections = emplace name (new_collection C dimension name) db.collections },
          success,
        )
      ]

  unfoldable pub delete_collection : Bytes → Database → Database × Status
  delete_collection name db =
      with_collection name db (λ s. (db, s))
        λ c. (record db { collections = erase name db.collections }, success)

  unfoldable pub delete_vectors : Bytes → List ℕ → Database → Outcome (Database × Status)
  delete_vectors name ids db =
      with_collection name db (λ s. done (db, s))
        λ c. Collection.remove_vectors C ids c >>= λ (c', count). done (put name c' db, success)

  -- What the collection's `add_index` returns is not looked at.
  unfoldable pub add_index :
      (ℕ → ℕ) → Bytes → Bytes → IndexType → Option Params → Database → Outcome (Database × Status)
  add_index draws name index_name index_type params db =
      with_collection name db (λ s. done (db, s))
        λ c. Collection.add_index C draws index_name index_type params c >>= λ (c', added).
          done (put name c' db, success)

  unfoldable pub get_index_params : Bytes → Bytes → Database → Result (IndexType × Params)
  get_index_params name index_name db =
      with_collection name db (λ s. failure s)
        λ c. elim (Collection.get_index_params C index_name c) [
          | none ↦ failure index_does_not_exist
          | some p ↦ with_payload success p
        ]

module _ {D : Type 0} ⦃d : Double D⦄ (C : IndexClass D) where
  -- `none` is an exception, which the method lets through.
  abbrev pub reply : Answer D → Option (Result (List (Score D)))
  reply (answered returned results) = some (with_payload success results)
  reply threw = none

  -- The index name is left at its default, "", and the returned `bool` is not looked at.
  abbrev pub nearest_in :
      Bytes
      → FloatVector
      → ℕ
      → Database C
      → Collection C
      → Outcome (Database C × Option (Result (List (Score D))))
  nearest_in name query k db c =
      Collection.search_for_top_k C query k [] [] c >>= λ (c', a). done (put C name c' db, reply a)

  unfoldable pub get_nearest_k :
      Bytes → FloatVector → ℕ → Database C → Outcome (Database C × Option (Result (List (Score D))))
  get_nearest_k name query k db =
      with_collection C name db (λ s. done (db, some (failure s))) (nearest_in name query k db)
