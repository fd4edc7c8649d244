-- ===== src/Database/Store.antt =====
-- The database as a store of tables: what its calls do to the vectors, whatever the indices are.
pub mod Views
pub mod Refines
pub mod Valid
use vector_db.Prelude.{
  ℕ, List, [], ◌∷◌, Option, none, some, Outcome, done, thrown, undefined, ◌>>=◌, Bool, true, false,
  not, if◌then◌else◌, Bytes, bytes_key, nat_key, ◌==◌, ◌≡◌,
}
use mathlib.Core.Option
use vector_db.Status.{
  Status, success, collection_already_exists, collection_does_not_exist, vector_dimension_mismatch,
  Result, succeeded,
}
use vector_db.Name.{is_collection_name_valid}
use vector_db.Assoc.{find}
use vector_db.FloatVector.{FloatVector}
use vector_db.Index.{IndexType, Params}
use vector_db.Index.Interface.{IndexClass, Score}
use vector_db.Distance.{Double}
use vector_db.Collection.{Collection}
use vector_db.Ids.{mem_id}
use vector_db.Collection.Changes.{last_given}
use vector_db.Database.{
  Database, all_have_dimension, add_vectors, add_collection, delete_collection, delete_vectors,
  add_index, get_nearest_k,
}

-- The calls that may change the state. `draws` are the levels of a new index.
pub data Call : Type 0 where
  adds_collection : Bytes → ℕ → Call
  deletes_collection : Bytes → Call
  adds_vectors : Bytes → List (ℕ × FloatVector) → Call
  deletes_vectors : Bytes → List ℕ → Call
  adds_index : (ℕ → ℕ) → Bytes → Bytes → IndexType → Option Params → Call
  searches : Bytes → FloatVector → ℕ → Call

module _ {D : Type 0} ⦃d : Double D⦄ (C : IndexClass D) where
  -- The status of a search, or its exception.
  abbrev pub search_status :
      Database C × Option (Result (List (Score D))) → Outcome (Database C × Status)
  search_status (db, none) = thrown
  search_status (db, some r) = done (db, r.status)

  unfoldable pub step : Call → Database C → Outcome (Database C × Status)
  step (adds_collection name dimension) db = done (add_collection C name dimension db)
  step (deletes_collection name) db = done (delete_collection C name db)
  step (adds_vectors name vectors) db = add_vectors C name vectors db
  step (deletes_vectors name ids) db = delete_vectors C name ids db
  step (adds_index draws name index_name t params) db =
      add_index C draws name index_name t params db
  step (searches name query k) db = get_nearest_k C name query k db >>= search_status

  unfoldable pub run : List Call → Database C → Outcome (Database C)
  run [] db = done db
  run (call ∷ calls) db = step call db >>= λ (db', s). run calls db'

-- The abstract view: a table under each name, and in a table a vector under each id.
pub record Table : Type 0 where
  pub dimension : ℕ
  pub entries : ℕ → Option FloatVector

abbrev pub Tables : Type 0
Tables = Bytes → Option Table

abbrev pub update : Bytes → Option Table → Tables → Tables
update name t s n = if name == n then t else s n

-- A call on a table: the name must be a valid one, and the table must be there.
abbrev pub with_table : Bytes → Tables → (Table → Tables × Status) → Tables × Status
with_table name s f =
    let st = is_collection_name_valid name in
    if not (succeeded st)
    then (s, st)
    else elim (s name) [ none ↦ (s, collection_does_not_exist) | some t ↦ f t ]

abbrev pub empty_table : ℕ → Table
empty_table dimension = record { dimension = dimension; entries = λ id. none }

-- What each call does to the tables, and the status that it returns. Indices and searches change
-- nothing.
abbrev pub act : Call → Tables → Tables × Status
act (adds_collection name dimension) s =
    let st = is_collection_name_valid name in
    if not (succeeded st) then (s, st) else elim (s name) [
      | some t ↦ (s, collection_already_exists)
      | none ↦ (update name (some (empty_table dimension)) s, success)
    ]
act (deletes_collection name) s = with_table name s λ t. (update name none s, success)
act (adds_vectors name vectors) s = with_table name s λ t.
    if all_have_dimension t.dimension vectors
    then (
      update name (some (record t { entries = λ id. last_given id vectors (t.entries id) })) s,
      success,
    )
    else (s, vector_dimension_mismatch)
act (deletes_vectors name ids) s = with_table name s λ t. (
  update name (some (record t { entries = λ id. if mem_id id ids then none else t.entries id })) s,
  success,
)
act (adds_index draws name index_name t params) s = with_table name s λ _. (s, success)
act (searches name query k) s = with_table name s λ _. (s, success)

module _ {D : Type 0} (C : IndexClass D) where
  abbrev pub table : Collection C → Table
  table c = record { dimension = c.dimension; entries = λ id. find id c.vectors }

  abbrev pub view : Database C → Tables
  view db name = Option.map table (find name db.collections)
