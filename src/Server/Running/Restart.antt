-- ===== src/Server/Running/Restart.antt =====
-- What a server that is shut down keeps for the next one.
use vector_db.Prelude.{
  ℕ, ◌≡◌, refl, [], some, done, Bool, true, false, if◌then◌else◌, Bytes, bytes_key, All, map,
  Bool-cases, inl, inr,
}
use vector_db.Configuration.{Toml, Provider}
use vector_db.Assoc.Laws.{DistinctKeys}
use vector_db.Index.Interface.{IndexClass, KeepsParams}
use vector_db.Database.{Database}
use vector_db.Database.Files.{Files, save, load}
use vector_db.Database.Files.Steps.{IsSavable, summary}
use vector_db.Database.Files.RoundTrip.{opened, load-save}
use vector_db.Server.Running.{
  Values, Server, storage_enabled, new_server, start, shutdown, configured_threads,
  configured_pool_size,
}
use vector_db.WorkerPool.{init as new_pool, shutdown as stop_pool}
use vector_db.Status.{success}

module _ (T : Toml) (values : Values T) {D : Type 0} (C : IndexClass D) where
  abbrev stopped_from : Server T values C → Server T values C
  stopped_from s = record (start T values C s) {
    running = false;
    db_worker_pool = stop_pool s.db_worker_pool;
  }

  abbrev server_of : Provider T → Database C → Server T values C
  server_of config db = record {
    num_of_thread = configured_threads T values config;
    db = db;
    db_worker_pool = new_pool (configured_pool_size T values config);
    running = false;
    cq_threads = 0;
    calls = [];
  }

  shutdown_stores :
      (can_open : Bytes → Bool) (config : Provider T) (s : Server T values C) (files : Files)
      → s.running ≡ false
      → storage_enabled T values config ≡ true
      → save C can_open s.db [] ≡ done (some files, success)
      → shutdown T values C can_open config (start T values C s) []
        ≡ done (stopped_from s, some files)
  unfolding shutdown start
  shutdown_stores can_open config s files off stores saves = rw (off, stores, saves) refl

  shutdown_idle :
      (can_open : Bytes → Bool) (config : Provider T) (s : Server T values C)
      → s.running ≡ false
      → storage_enabled T values config ≡ false
      → shutdown T values C can_open config (start T values C s) [] ≡ done (stopped_from s, some [])
  unfolding shutdown start
  shutdown_idle can_open config s off idle = rw (off, idle) refl

  new_server_stores :
      (draws : Bytes → ℕ → ℕ → ℕ) (config : Provider T) (files : Files) (db : Database C)
      → storage_enabled T values config ≡ true
      → load C (λ path. true) draws files (record { collections = [] }) ≡ done (db, success)
      → new_server T values C (λ path. true) draws config files ≡ done (server_of config db)
  unfolding new_server
  new_server_stores draws config files db stores loads = rw (stores, loads) refl

  new_server_idle :
      (draws : Bytes → ℕ → ℕ → ℕ) (config : Provider T)
      → storage_enabled T values config ≡ false
      → new_server T values C (λ path. true) draws config []
        ≡ done (server_of config (record { collections = [] }))
  unfolding new_server
  new_server_idle draws config idle = rw idle refl

  -- A server is made from no files, its database becomes what it is, and it is started and shut down.
  -- If its collections are savable, under distinct names, the shutdown returns, and so does the making of a
  -- server from the files that it leaves, where all open. With storage enabled that server has the
  -- collections whose files opened at the shutdown, with the same names, dimensions, vectors and parameters of
  -- indices; without, it has none.
  pub new_server-shutdown :
      KeepsParams C
      → (can_open : Bytes → Bool) (draws : Bytes → ℕ → ℕ → ℕ) (config : Provider T)
        (s : Server T values C)
      → DistinctKeys s.db.collections
      → All (IsSavable C) s.db.collections
      → s.running ≡ false
      → (stopped : Server T values C) × (files : Files) × (next : Server T values C) × (shutdown T
            values C can_open config
            (start T values C s)
            []
          ≡ done (stopped, some files))
        × (stopped.running ≡ false)
        × (stopped.db_worker_pool.stopped ≡ true)
        × (new_server T values C (λ path. true) draws config files ≡ done next)
        × (map (summary C) next.db.collections ≡ (
            if storage_enabled T values config
            then map (summary C) (opened C can_open s.db.collections)
            else []))
  unfolding stop_pool
  new_server-shutdown laws can_open draws config s d savable off =
      elim (Bool-cases (storage_enabled T values config)) [
        | inl stores ↦
            let (files, db, saves, loads, same) = load-save C laws can_open draws s.db d savable in
            (
              stopped_from s,
              files,
              server_of config db,
              shutdown_stores can_open config s files off stores saves,
              refl,
              refl,
              new_server_stores draws config files db stores loads,
              rw stores same,
            )
        | inr idle ↦ (
          stopped_from s,
          [],
          server_of config (record { collections = [] }),
          shutdown_idle can_open config s off idle,
          refl,
          refl,
          new_server_idle draws config idle,
          rw idle refl,
        )
      ]
