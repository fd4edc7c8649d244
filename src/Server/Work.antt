-- ===== src/Server/Work.antt =====
-- The callbacks that the calls of src/impl/grpc_server/server.cpp give to the worker pool.
pub mod Asked
pub mod Steps
use vector_db.Prelude.{
  ℕ, zero, suc, ◌%◌, ◌^◌, List, [], ◌∷◌, map, Option, none, some, Outcome, done, thrown, undefined,
  ◌>>=◌, Bool, true, false, ◌&&◌, ◌||◌, if◌then◌else◌, Bytes, length,
}
use vector_db.Status.{Status, success, Result, succeeded, is_success}
use vector_db.FloatVector.{FloatVector, Metadata, from_array, add_metadata}
use vector_db.Index.{
  IndexType, ivf_flat, hnsw, unknown_index, Params, of_hnsw, of_ivf, HnswParams, IvfParams,
  hnsw_params,
}
use vector_db.Index.Interface.{IndexClass, Score}
use vector_db.Distance.{Double, cosine, euclidean}
use vector_db.IvfFlat.{is_empty_list}
use vector_db.Database.{Database}
use vector_db.Database
use vector_db.Wire.{
  GrpcStatus, grpc_status, ok, invalid_argument, proto_to_db_dist, db_dist_to_proto,
  status_to_grpc_status,
}
use vector_db.Server.Messages.{
  VectorMessage, ParamsMessage, hnsw_params_message, ivf_params_message, Request, ScoredMessage,
  Response, search_response, params_response, create_collection, delete_collection, upsert, search,
  stream_upsert, delete_vector, add_index, get_index,
}
use vector_db.Server.{
  Rpc, Action, internal_error_status, answer, refuse, handle_unknown_error, do_read,
}

abbrev pub add_all_metadata : Metadata → FloatVector → FloatVector
add_all_metadata [] v = v
add_all_metadata ((key, value) ∷ m) v = add_all_metadata m (add_metadata key value v)

-- The vector of a message.
unfoldable pub to_vector : VectorMessage → Outcome FloatVector
unfolding from_array add_metadata
to_vector message = from_array (length message.values) message.values >>= λ v.
    done (elim message.metadata [ none ↦ v | some m ↦ add_all_metadata m v ])

unfoldable pub to_vectors : List VectorMessage → Outcome (List (ℕ × FloatVector))
unfolding to_vector
to_vectors [] = done []
to_vectors (message ∷ messages) = do
  v ← to_vector message
  more ← to_vectors messages
  done ((message.id, v) ∷ more)

-- The parameters of a new index: those of the message if it has some for this type, or the defaults.
unfoldable pub hnsw_request : Option ParamsMessage → Outcome Params
unfolding hnsw_params proto_to_db_dist
hnsw_request (some (hnsw_params_message distance_type m ef_construction ef_search)) =
    hnsw_params (proto_to_db_dist distance_type) m ef_construction ef_search >>= λ p.
    done (of_hnsw p)
hnsw_request _ = hnsw_params cosine 16 64 32 >>= λ p. done (of_hnsw p)

unfoldable pub ivf_request : Option ParamsMessage → Params
unfolding proto_to_db_dist
ivf_request (some (ivf_params_message distance_type k n_probe rebuild_threshold)) = of_ivf (record {
  dist_type = proto_to_db_dist distance_type;
  k = k;
  n_probe = n_probe;
  rebuild_threshold = rebuild_threshold;
})
ivf_request _ =
    of_ivf (record { dist_type = euclidean; k = 100; n_probe = 10; rebuild_threshold = 1000 })

-- The message for the parameters of an index; a cast to the wrong record gives a null pointer, which the
-- code reads.
unfoldable pub to_params_message : IndexType → Params → Outcome (Option ParamsMessage)
unfolding db_dist_to_proto
to_params_message hnsw (of_hnsw p) =
    done
      (some (hnsw_params_message (db_dist_to_proto p.dist_type) p.m p.ef_construction p.ef_search))
to_params_message ivf_flat (of_ivf p) = done (
    some (
      ivf_params_message (db_dist_to_proto p.dist_type) p.k p.n_probe
        (p.rebuild_threshold % 2 ^ 32)))
to_params_message unknown_index p = done none
to_params_message _ _ = undefined

module _ {D : Type 0} ⦃d : Double D⦄ where
  -- `score` is narrowed, and as many floats as the dimension says are read.
  unfoldable pub to_scored : Score D → Outcome ScoredMessage
  unfolding from_array
  to_scored (score, id, v) = from_array v.dimension v.elements >>= λ c.
      done (record { score = d.narrow score; id = id; values = c.elements })

  unfoldable pub to_all_scored : List (Score D) → Outcome (List ScoredMessage)
  unfolding to_scored
  to_all_scored [] = done []
  to_all_scored (s ∷ ss) = do one ← to_scored s; more ← to_all_scored ss; done (one ∷ more)

module _ {D : Type 0} ⦃d : Double D⦄ (C : IndexClass D) where
  -- After a callback: the database, which the model does not know after an exception, the object, and
  -- what it started.
  abbrev pub Worked : Type 0
  Worked = Option (Database C) × Rpc × List Action

  abbrev pub worked : Database C → Rpc × List Action → Worked
  worked db (rpc, actions) = (some db, rpc, actions)

  abbrev pub lost : Rpc × List Action → Worked
  lost (rpc, actions) = (none, rpc, actions)

  -- The `catch` that follows the body of a callback.
  abbrev pub catching : Rpc × List Action → Outcome Worked → Outcome Worked
  catching caught (done w) = done w
  catching caught thrown = done (lost caught)
  catching caught undefined = undefined

  abbrev pub respond : Rpc → Outcome (Database C × Status) → Outcome Worked
  respond rpc o = o >>= λ (db', s). done (worked db' (answer (status_to_grpc_status s) rpc))

  -- The end of the callback of a stream: the next message is read after a success.
  abbrev pub respond_stream : Rpc → Database C × Status → Worked
  respond_stream rpc (db, s) =
      let (has_request, again, started) = do_read (record rpc { status = grpc_status ok "" }) in
      if succeeded s
      then worked db (again, started)
      else worked db (answer (status_to_grpc_status s) rpc)

  -- `get_nearest_k` copies the results into the response.
  abbrev pub respond_search : Rpc → Database C × Option (Result (List (Score D))) → Outcome Worked
  respond_search rpc (db, none) = thrown
  respond_search rpc (db, some r) = elim r.payload [
    | none ↦ done (worked db (answer (status_to_grpc_status r.status) rpc))
    | some scores ↦
        let filled = to_all_scored scores >>= λ messages. done (
          worked db (
            answer (status_to_grpc_status r.status)
              (record rpc { response = search_response messages }))) in
        if is_success r
        then filled
        else done (worked db (answer (status_to_grpc_status r.status) rpc))
  ]

  abbrev pub respond_params : Rpc → Database C → Result (IndexType × Params) → Outcome Worked
  respond_params rpc db r =
      let plain : Worked = worked db (answer (status_to_grpc_status r.status) rpc) in
      elim r.payload [
        | none ↦ done plain
        | some (t, p) ↦
            let filled = to_params_message t p >>= λ message. done (elim message [
              | none ↦ worked db (answer (grpc_status invalid_argument "Unknown index type") rpc)
              | some m ↦ worked db (
                  answer (status_to_grpc_status r.status)
                    (record rpc { response = params_response (some m) }))
            ]) in
            if is_success r then filled else done plain
      ]

  -- The `switch` of the index type of the request.
  abbrev pub add_index_of :
      (ℕ → ℕ) → Rpc → Database C → Bytes → Bytes → ℕ → Option ParamsMessage → Outcome Worked
  add_index_of draws rpc db name index_name (suc zero) params = hnsw_request params >>= λ p.
      respond rpc (Database.add_index C draws name index_name hnsw (some p) db)
  add_index_of draws rpc db name index_name zero params =
      respond rpc
        (Database.add_index C draws name index_name ivf_flat (some (ivf_request params)) db)
  add_index_of draws rpc db name index_name _ params =
      done (worked db (refuse "Unknown index type" rpc))

  -- The callback of each class.
  abbrev pub work_create_collection : Rpc → Bytes → ℕ → Database C → Outcome Worked
  work_create_collection rpc name dimension db =
      respond rpc (done (Database.add_collection C name dimension db))

  abbrev pub work_delete_collection : Rpc → Bytes → Database C → Outcome Worked
  work_delete_collection rpc name db = respond rpc (done (Database.delete_collection C name db))

  abbrev pub work_upsert : Rpc → Bytes → List VectorMessage → Database C → Outcome Worked
  work_upsert rpc name messages db =
      catching (answer internal_error_status rpc)
        (to_vectors messages >>= λ vectors. respond rpc (Database.add_vectors C name vectors db))

  abbrev pub work_search : Rpc → Bytes → List ℕ → ℕ → Database C → Outcome Worked
  work_search rpc name values top_k db = catching (answer internal_error_status rpc) (
      from_array (length values) values >>= λ query.
      Database.get_nearest_k C name query top_k db >>= respond_search rpc)

  -- After an exception nothing is started any more.
  abbrev pub work_stream_upsert : Rpc → Bytes → List VectorMessage → Database C → Outcome Worked
  work_stream_upsert rpc name messages db =
      catching (rpc, [])
        (to_vectors messages >>= λ vectors.
          Database.add_vectors C name vectors db >>= λ r. done (respond_stream rpc r))

  abbrev pub work_delete_vector : Rpc → Bytes → List ℕ → Database C → Outcome Worked
  work_delete_vector rpc name ids db =
      catching (handle_unknown_error rpc) (respond rpc (Database.delete_vectors C name ids db))

  abbrev pub work_add_index :
      (ℕ → ℕ) → Rpc → Bytes → Bytes → ℕ → Option ParamsMessage → Database C → Outcome Worked
  work_add_index draws rpc name index_name index params db =
      let added =
        catching (handle_unknown_error rpc)
          (add_index_of draws rpc db name index_name index params) in
      if is_empty_list name || is_empty_list index_name
      then done (worked db (refuse "Collection name and index name cannot be empty." rpc))
      else added

  abbrev pub work_get_index : Rpc → Bytes → Bytes → Database C → Outcome Worked
  work_get_index rpc name index_name db =
      catching (handle_unknown_error rpc)
        (respond_params rpc db (Database.get_index_params C name index_name db))

  unfoldable pub work : (ℕ → ℕ) → Rpc → Request → Database C → Outcome Worked
  unfolding to_vectors to_all_scored hnsw_request ivf_request to_params_message do_read
      handle_unknown_error
  work draws rpc (create_collection name dimension) db =
      work_create_collection rpc name dimension db
  work draws rpc (delete_collection name) db = work_delete_collection rpc name db
  work draws rpc (upsert name messages) db = work_upsert rpc name messages db
  work draws rpc (search name values top_k) db = work_search rpc name values top_k db
  work draws rpc (stream_upsert name messages) db = work_stream_upsert rpc name messages db
  work draws rpc (delete_vector name ids) db = work_delete_vector rpc name ids db
  work draws rpc (add_index name index_name index params) db =
      work_add_index draws rpc name index_name index params db
  work draws rpc (get_index name index_name) db = work_get_index rpc name index_name db
