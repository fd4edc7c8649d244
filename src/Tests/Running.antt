-- ===== src/Tests/Running.antt =====
-- A server that is made, started and shut down.
use vector_db.Prelude.{
  ℕ, ◌≡◌, refl, [], Option, none, some, done, Bool, true, false, if◌then◌else◌, Bytes, bytes_key,
  ◌==◌, map, arith,
}
use vector_db.Assoc.{find}
use vector_db.Configuration.{Toml, Provider, navigate}
use vector_db.Name.{is_collection_name_valid}
use vector_db.WorkerPool.{init as new_pool}
use vector_db.Database.Files.{Files}
use vector_db.Database.Files.Steps.{summary}
use vector_db.Database.Files.RoundTrip.{opened}
use vector_db.Server.Running.{
  Values, Server, storage_enabled, new_server, start, shutdown, storage_table, enabled_key,
}
use vector_db.Server.Running.Restart.{new_server-shutdown}
use vector_db.Distance.Whole.{whole}
use vector_db.Indices.{indices}
use vector_db.Indices.Keeping.{indices-KeepsParams}
use vector_db.Tests.Saved.{indexed_store, indexed_store-IsSavable}

-- Flags, numbers, and tables of one key.
data Item : Type 0 where
  flag : Bool → Item
  count : ℕ → Item
  entry : Bytes → Item → Item

abbrev table_of : Item → Option (Bytes × Item)
table_of (entry key item) = some (key, item)
table_of _ = none

abbrev flags_toml : Toml
flags_toml = record {
  Value = Item;
  Table = Bytes × Item;
  as_table = table_of;
  find = λ key (k, item). if k == key then some item else none;
  as_array = λ item. none;
}

abbrev flag_of : Item → Option Bool
flag_of (flag b) = some b
flag_of _ = none

abbrev count_of : Item → Option ℕ
count_of (count n) = some n
count_of _ = none

abbrev flag_values : Values flags_toml
flag_values = record { as_int = count_of; as_bool = flag_of }

abbrev stored_config : Provider flags_toml
stored_config = record {
  data_value = entry storage_table (entry enabled_key (flag true));
  config_path = [];
  loaded = true;
}

config_runs : storage_enabled flags_toml flag_values stored_config ≡ true
unfolding navigate
config_runs = refl

abbrev filled : Server flags_toml flag_values (indices ℕ)
filled = record {
  num_of_thread = 4;
  db = indexed_store;
  db_worker_pool = new_pool 4;
  running = false;
  cq_threads = 0;
  calls = [];
}

abbrev no_draws : Bytes → ℕ → ℕ → ℕ
no_draws path n i = 0

new_server-shutdown_example :
    (stopped : Server flags_toml flag_values (indices ℕ)) × (files : Files) × (next : Server
      flags_toml flag_values
      (indices ℕ))
    × (shutdown flags_toml flag_values
          (indices ℕ)
          (λ path. true)
          stored_config
          (start flags_toml flag_values (indices ℕ) filled)
          []
        ≡ done (stopped, some files))
    × (stopped.running ≡ false)
    × (stopped.db_worker_pool.stopped ≡ true)
    × (new_server flags_toml flag_values (indices ℕ) (λ path. true) no_draws stored_config files
        ≡ done next)
    × (map (summary (indices ℕ)) next.db.collections ≡ (
        if storage_enabled flags_toml flag_values stored_config
        then map (summary (indices ℕ)) (opened (indices ℕ) (λ path. true) indexed_store.collections)
        else []))
unfolding find is_collection_name_valid
new_server-shutdown_example =
    new_server-shutdown flags_toml flag_values (indices ℕ) (indices-KeepsParams ℕ) (λ path. true)
      no_draws stored_config filled (ground arith) indexed_store-IsSavable refl
