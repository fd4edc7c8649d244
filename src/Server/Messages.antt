-- ===== src/Server/Messages.antt =====
-- The messages of src/protos/db.proto. An `int32`, a `float` and an enumeration are given by their bits.
use vector_db.Prelude.{ℕ, List, Option, Bytes}
use vector_db.FloatVector.{Metadata}

pub record VectorMessage : Type 0 where
  pub id : ℕ
  pub values : List ℕ
  pub metadata : Option Metadata

-- The `oneof` of the parameters of an index.
pub data ParamsMessage : Type 0 where
  hnsw_params_message : (distance_type m ef_construction ef_search : ℕ) → ParamsMessage
  ivf_params_message : (distance_type k n_probe rebuild_threshold : ℕ) → ParamsMessage

pub data Request : Type 0 where
  create_collection : (name : Bytes) (dimension : ℕ) → Request
  delete_collection : (name : Bytes) → Request
  upsert : (name : Bytes) (vectors : List VectorMessage) → Request
  search : (name : Bytes) (query : List ℕ) (top_k : ℕ) → Request
  stream_upsert : (name : Bytes) (vectors : List VectorMessage) → Request
  delete_vector : (name : Bytes) (ids : List ℕ) → Request
  add_index : (name index_name : Bytes) (index : ℕ) (params : Option ParamsMessage) → Request
  get_index : (name index_name : Bytes) → Request

pub record ScoredMessage : Type 0 where
  pub score : ℕ
  pub id : ℕ
  pub values : List ℕ

pub data Response : Type 0 where
  empty_response : Response
  search_response : List ScoredMessage → Response
  params_response : Option ParamsMessage → Response
