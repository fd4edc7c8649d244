-- ===== src/Tests/Services.antt =====
-- The configuration and the worker pool.
use mathlib.Core.List.{Perm}
use vector_db.Prelude.{
  ℕ, ◌≤◌, ◌≡◌, ◌≢◌, ◌↔◌, refl, List, [], ◌∷◌, ◌++◌, map, Option, none, some, true, false,
  if◌then◌else◌, Bytes, bytes_key, ◌==◌, length, All,
}
use vector_db.Status.{success, index_does_not_exist, status_to_string}
use vector_db.Wire.{status_to_grpc_status, ok, status_to_grpc_status_lem}
use vector_db.Configuration.{Toml, Provider, get_value, get_array, has_key}
use vector_db.Configuration.Paths.{Leads, Read, lookup_iff}
use vector_db.WorkerPool.{
  Pool, waiting, busy, max_queue_size, Event, accepted, took, init, submit, shutdown, wake, Run,
  start, then_step, submits, takes,
}
use vector_db.WorkerPool.Order.{all_accepted, all_taken, all_run, running, run_lem}
use vector_db.WorkerPool.Stopping.{IsGone, shutdown_lem}

-- Values with tables of one key, and arrays of numbers.
data Item : Type 0 where
  number : ℕ → Item
  numbers : List ℕ → Item
  entry : Bytes → Item → Item

abbrev table_of : Item → Option (Bytes × Item)
table_of (entry key item) = some (key, item)
table_of _ = none

abbrev array_of : Item → Option (List Item)
array_of (numbers ns) = some (map number ns)
array_of _ = none

abbrev small_toml : Toml
small_toml = record {
  Value = Item;
  Table = Bytes × Item;
  as_table = table_of;
  find = λ key (k, item). if k == key then some item else none;
  as_array = array_of;
}

abbrev as_number : Item → Option ℕ
as_number (number n) = some n
as_number _ = none

abbrev server : Bytes
server = b's' ∷ b'e' ∷ b'r' ∷ b'v' ∷ b'e' ∷ b'r' ∷ []

abbrev port : Bytes
port = b'p' ∷ b'o' ∷ b'r' ∷ b't' ∷ []

abbrev config : Provider small_toml
config = record {
  data_value = entry server (entry port (number 8080));
  config_path = port;
  loaded = true;
}

lookup_iff_example :
    ((has_key small_toml (server ∷ port ∷ []) config ≡ true)
      ↔ ((x : Item) × Leads small_toml config.data_value (server ∷ port ∷ []) x))
    × ((a : ℕ)
        → (get_value small_toml as_number (server ∷ port ∷ []) config ≡ some a) ↔ (
            (x : Item) × Leads small_toml config.data_value (server ∷ port ∷ []) x
            × (as_number x ≡ some a)))
    × ((items : List ℕ)
        → (get_array small_toml as_number (server ∷ port ∷ []) config ≡ some items) ↔ (
            (x : Item) × (vs : List Item) × Leads small_toml config.data_value
              (server ∷ port ∷ [])
              x
            × (array_of x ≡ some vs)
            × Read small_toml as_number vs items))
lookup_iff_example = lookup_iff small_toml as_number server (port ∷ []) config refl

abbrev one_waits : Pool ℕ
one_waits = record { tasks = 5 ∷ []; stopped = false; threads = waiting ∷ [] }

abbrev one_runs : Pool ℕ
one_runs = record { tasks = []; stopped = false; threads = busy 5 ∷ [] }

one-Run : Run (init 1) (took 5 ∷ accepted 5 ∷ []) one_runs
unfolding submit wake
one-Run =
    then_step (then_step start (submits {p = init 1} {q = one_waits} 5 refl))
      (takes {p = one_waits} {q = record one_waits { tasks = [] }} [] [] refl refl)

run_lem_example :
    (all_accepted (took 5 ∷ accepted 5 ∷ [])
      ≡ all_taken (took 5 ∷ accepted 5 ∷ []) ++ one_runs.tasks)
    × (length one_runs.tasks ≤ max_queue_size)
    × Perm
        (all_taken (took 5 ∷ accepted 5 ∷ []))
        (all_run (took 5 ∷ accepted 5 ∷ []) ++ running one_runs.threads)
run_lem_example = run_lem 1 (took 5 ∷ accepted 5 ∷ []) one_runs one-Run

shutdown_lem_example :
    ((events : List (Event ℕ)) (q : Pool ℕ)
      → Run (shutdown one_waits) events q
      → (q.stopped ≡ true) × (all_taken events ≡ []))
    × ((events : List (Event ℕ)) × (q : Pool ℕ) × Run (shutdown one_waits) events q
        × All IsGone q.threads
        × (q.tasks ≡ one_waits.tasks))
shutdown_lem_example = shutdown_lem one_waits

status_to_grpc_status_lem_example :
    (((status_to_grpc_status index_does_not_exist).code ≡ ok) ↔ (index_does_not_exist ≡ success))
    × (index_does_not_exist ≢ success
        → (status_to_grpc_status index_does_not_exist).message
          ≡ status_to_string index_does_not_exist)
status_to_grpc_status_lem_example = status_to_grpc_status_lem index_does_not_exist
