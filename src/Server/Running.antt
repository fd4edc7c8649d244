-- ===== src/Server/Running.antt =====
-- The constructor, `start` and `shutdown` of src/impl/grpc_server/server.cpp. The listening address and what
-- gRPC does at start and end are not modelled; that the server starts is assumed.
pub mod Restart
use vector_db.Prelude.{
  ℕ, ◌+◌, ◌^◌, ◌%◌, ◌++◌, List, [], ◌∷◌, Option, none, some, Outcome, done, ◌>>=◌, Bool, true,
  false, if◌then◌else◌, Bytes, map,
}
use vector_db.Configuration.{Toml, Provider, get_value}
use vector_db.Index.Interface.{IndexClass}
use vector_db.Database.{Database}
use vector_db.Database.Files.{Files, save, load}
use vector_db.WorkerPool.{Pool, init as new_pool, shutdown as stop_pool}
use vector_db.Server.Messages.{
  Request, create_collection, delete_collection, upsert, search, stream_upsert, delete_vector,
  add_index, get_index,
}
use vector_db.Server.{Rpc, new_rpc}

abbrev server_table : Bytes
server_table = b's' ∷ b'e' ∷ b'r' ∷ b'v' ∷ b'e' ∷ b'r' ∷ []

abbrev threads_key : Bytes
threads_key = b't' ∷ b'h' ∷ b'r' ∷ b'e' ∷ b'a' ∷ b'd' ∷ b's' ∷ []

abbrev pool_size_key : Bytes
pool_size_key =
    b'd' ∷ b'b' ∷ b'_' ∷ b'w' ∷ b'o' ∷ b'r' ∷ b'k' ∷ b'e' ∷ b'r' ∷ b'_' ∷ b'p' ∷ b'o' ∷ b'o' ∷ b'l'
    ∷ b'_' ∷ b's' ∷ b'i' ∷ b'z' ∷ b'e' ∷ []

abbrev pub storage_table : Bytes
storage_table = b's' ∷ b't' ∷ b'o' ∷ b'r' ∷ b'a' ∷ b'g' ∷ b'e' ∷ []

abbrev pub enabled_key : Bytes
enabled_key = b'e' ∷ b'n' ∷ b'a' ∷ b'b' ∷ b'l' ∷ b'e' ∷ b'd' ∷ []

-- `optional::value_or`
abbrev pub value_or {ℓ} : {A : Type ℓ} → A → Option A → A
value_or fallback none = fallback
value_or fallback (some a) = a

-- A request before it is received, of each class in the order of `start`.
abbrev unread_requests : List Request
unread_requests =
    create_collection [] 0
    ∷ delete_collection []
    ∷ upsert [] []
    ∷ search [] [] 0
    ∷ stream_upsert [] []
    ∷ delete_vector [] []
    ∷ add_index [] [] 0 none
    ∷ get_index [] []
    ∷ []

-- The configuration's values that are integers, as the 64 bits of an `int64_t`, or Booleans.
pub record Values (T : Toml) : Type 0 where
  pub as_int : T.Value → Option ℕ
  pub as_bool : T.Value → Option Bool

module _ (T : Toml) (values : Values T) where
  abbrev pub storage_enabled : Provider T → Bool
  storage_enabled config =
      value_or true (get_value T values.as_bool (storage_table ∷ enabled_key ∷ []) config)

  -- The integer is cut to the `uint8_t`.
  abbrev pub configured_threads : Provider T → ℕ
  configured_threads config =
      value_or 4 (get_value T values.as_int (server_table ∷ threads_key ∷ []) config) % 2 ^ 8

  abbrev pub configured_pool_size : Provider T → ℕ
  configured_pool_size config =
      value_or 4 (get_value T values.as_int (server_table ∷ pool_size_key ∷ []) config)

  module _ {D : Type 0} (C : IndexClass D) where
    -- `cq_threads` is the size of `cq_threads_`, which keeps the threads that were joined.
    pub record Server : Type 0 where
      pub num_of_thread : ℕ
      pub db : Database C
      pub db_worker_pool : Pool Rpc
      pub running : Bool
      pub cq_threads : ℕ
      pub calls : List Rpc

    -- The status of `load` is dropped.
    unfoldable pub new_server :
        (Bytes → Bool) → (Bytes → ℕ → ℕ → ℕ) → Provider T → Files → Outcome Server
    new_server can_open draws config files =
        let empty : Database C = record { collections = [] } in
        let stored = load C can_open draws files empty >>= λ (db, status). done db in
        (if storage_enabled config then stored else done empty) >>= λ db. done (record {
          num_of_thread = configured_threads config;
          db = db;
          db_worker_pool = new_pool (configured_pool_size config);
          running = false;
          cq_threads = 0;
          calls = [];
        })

    -- Handlers wait for a call of each kind; then the threads that poll the completion queue start.
    unfoldable pub start : Server → Server
    unfolding new_rpc
    start s = if s.running then s else record s {
      running = true;
      cq_threads = s.cq_threads + s.num_of_thread;
      calls = s.calls ++ map new_rpc unread_requests;
    }

    -- The database is saved before the pool and the completion queue stop, and before the threads are
    -- joined; the status of `save` is dropped. `none` stands for files that are not known.
    unfoldable pub shutdown :
        (Bytes → Bool) → Provider T → Server → Files → Outcome (Server × Option Files)
    unfolding save stop_pool
    shutdown can_open config s files =
        let stopped : Server = record s {
          running = false;
          db_worker_pool = stop_pool s.db_worker_pool;
        } in
        let stored = save C can_open s.db files >>= λ (files', status). done (stopped, files') in
        if s.running
        then (if storage_enabled config then stored else done (stopped, some files))
        else done (s, some files)
