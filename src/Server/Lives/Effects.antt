-- ===== src/Server/Lives/Effects.antt =====
-- What the methods and the callbacks of a call start, whatever the request.
use vector_db.Prelude.{
  ℕ, zero, suc, ◌≡◌, inl, inr, refl, ap, ◌∙◌, subst, List, [], ◌∷◌, Option, none, some, Outcome,
  done, thrown, undefined, >>=-eq-done, done-injective, Bool, true, false, not, ◌||◌, if◌then◌else◌,
  Bool-cases, Option-cases, Bytes, length, arith,
}
use vector_db.Status.{Status, Result, succeeded, is_success}
use vector_db.FloatVector.{from_array}
use vector_db.Distance.{Double}
use vector_db.Index.{Params, IndexType, hnsw}
use vector_db.Index.Interface.{IndexClass, Score}
use vector_db.IvfFlat.{is_empty_list}
use vector_db.Database.{Database}
use vector_db.Database
use vector_db.Wire.{status_to_grpc_status, GrpcStatus, grpc_status, invalid_argument}
use vector_db.Server.Messages.{
  ParamsMessage, Request, Response, search_response, params_response, create_collection,
  delete_collection, upsert, search, stream_upsert, delete_vector, add_index, get_index,
}
use vector_db.Server.{
  internal_error_status, Rpc, read, processed, Action, start_read, submit, finish, answer,
  handle_unknown_error, do_read, is_processed, process, process_request, is_stream, non_positive,
}
use vector_db.Server.Work.{
  work, worked, Worked, catching, respond, respond_stream, respond_search, respond_params,
  add_index_of, to_vectors, hnsw_request, to_all_scored, to_params_message,
}

-- An effect on an object with the request.
pub data Does (request : Request) : Rpc × List Action → Type 0 where
  sends :
      (rpc : Rpc) (response : Response) (status : GrpcStatus)
      → rpc.request ≡ request
      → rpc.state ≡ processed
      → Does request (rpc, finish response status ∷ [])
  reads :
      (rpc : Rpc) → rpc.request ≡ request → rpc.state ≡ read → Does request (rpc, start_read ∷ [])
  submits :
      (rpc : Rpc)
      → rpc.request ≡ request
      → is_processed rpc.state ≡ false
      → Does request (rpc, submit ∷ [])
  stops :
      (rpc : Rpc) → rpc.request ≡ request → is_processed rpc.state ≡ false → Does request (rpc, [])

-- The request does not ask for the deletion of no vectors.
abbrev pub deletes_some : Request → Bool
deletes_some (delete_vector name ids) = is_empty_list name || not (is_empty_list ids)
deletes_some _ = true

pub answer-Does :
    {request : Request} (status : GrpcStatus) (rpc : Rpc)
    → rpc.request ≡ request
    → Does request (answer status rpc)
answer-Does status rpc e = let sent = answer status rpc in sends sent.0 rpc.response status e refl

pub handle_unknown_error-Does :
    {request : Request} (rpc : Rpc)
    → rpc.request ≡ request
    → Does request (handle_unknown_error rpc)
unfolding handle_unknown_error
handle_unknown_error-Does rpc e = sends _ _ _ e refl

abbrev no_name : GrpcStatus
no_name = grpc_status invalid_argument "Collection name cannot be empty."

refuse-Does :
    {request : Request} (b : Bool) (status : GrpcStatus) (rpc : Rpc) (other : Rpc × List Action)
    → rpc.request ≡ request
    → Does request other
    → Does request (if b then answer status rpc else other)
refuse-Does true status rpc other e x = answer-Does status rpc e
refuse-Does false status rpc other e x = x

process_request-Does :
    (rpc : Rpc) (r : Request)
    → rpc.request ≡ r
    → is_processed rpc.state ≡ false
    → deletes_some r ≡ true
    → Does r (process_request rpc r)
process_request-Does rpc (create_collection name dimension) e o f =
    refuse-Does (is_empty_list name) no_name rpc _ e (
      refuse-Does (non_positive dimension)
        (grpc_status invalid_argument "Vector dimension must be greater than 0.") rpc _ e
        (submits rpc e o))
process_request-Does rpc (delete_collection name) e o f =
    refuse-Does (is_empty_list name) no_name rpc _ e (submits rpc e o)
process_request-Does rpc (upsert name vectors) e o f =
    refuse-Does (is_empty_list name) no_name rpc _ e (
      refuse-Does (is_empty_list vectors)
        (grpc_status invalid_argument "At least one vector is required for upsert.") rpc _ e
        (submits rpc e o))
process_request-Does rpc (search name query top_k) e o f =
    refuse-Does (is_empty_list name) no_name rpc _ e (
      refuse-Does (non_positive top_k)
        (grpc_status invalid_argument "top_k must be greater than 0.") rpc _ e (submits rpc e o))
process_request-Does rpc (stream_upsert name vectors) e o f = submits rpc e o
process_request-Does rpc (delete_vector name ids) e o f = elim (Bool-cases (is_empty_list name)) [
  | inl unnamed ↦ rw unnamed (answer-Does _ rpc e)
  | inr named ↦
      let some_ids : is_empty_list ids ≡ false = ground arith in
      rw (named, some_ids) (submits rpc e o)
]
process_request-Does rpc (add_index name index_name index params) e o f = submits rpc e o
process_request-Does rpc (get_index name index_name) e o f =
    refuse-Does (is_empty_list name || is_empty_list index_name)
      (grpc_status invalid_argument "Collection/Index name cannot be empty.") rpc _ e
      (submits rpc e o)

pub process-Does :
    (rpc : Rpc)
    → is_processed rpc.state ≡ false
    → deletes_some rpc.request ≡ true
    → Does rpc.request (process rpc)
unfolding process
process-Does rpc o f = process_request-Does rpc rpc.request refl o f

module _ {D : Type 0} ⦃d : Double D⦄ (C : IndexClass D) where
  -- What a callback did.
  abbrev WorkDoes : Request → Worked C → Type 0
  WorkDoes r w = Does r (w.1, w.2)

  catching-Does :
      {r : Request} (caught : Rpc × List Action) (o : Outcome (Worked C)) (w : Worked C)
      → Does r caught
      → (o ≡ done w → WorkDoes r w)
      → catching C caught o ≡ done w
      → WorkDoes r w
  catching-Does caught (done v) w x y h = y h
  catching-Does {r} caught thrown w x y h = subst (WorkDoes r) (done-injective h) x
  catching-Does caught undefined w x y h = cc

  respond-Does :
      {r : Request} (rpc : Rpc) (o : Outcome (Database C × Status)) (w : Worked C)
      → rpc.request ≡ r
      → respond C rpc o ≡ done w
      → WorkDoes r w
  respond-Does {r} rpc o w e h =
      let ((db, s), _, h') = >>=-eq-done o _ h in
      subst (WorkDoes r) (done-injective h') (answer-Does _ rpc e)

  sent-Does :
      {r : Request} (db : Database C) (status : GrpcStatus) (rpc : Rpc) (w : Worked C)
      → rpc.request ≡ r
      → done (worked C db (answer status rpc)) ≡ done w
      → WorkDoes r w
  sent-Does {r} db status rpc w e h =
      subst (WorkDoes r) (done-injective h) (answer-Does status rpc e)

  respond_search-Does :
      {r : Request} (rpc : Rpc) (found : Database C × Option (Result (List (Score D))))
      (w : Worked C)
      → rpc.request ≡ r
      → respond_search C rpc found ≡ done w
      → WorkDoes r w
  respond_search-Does rpc (db, none) w e h = cc
  respond_search-Does rpc (db, some res) w e h = elim (Option-cases res.payload) [
    | inl p ↦ sent-Does db (status_to_grpc_status res.status) rpc w e (rw p at h)
    | inr (scores, p) ↦ elim (Bool-cases (is_success res)) [
      | inl y ↦
          let (messages, _, h') = >>=-eq-done (to_all_scored scores) _ (rw (p, y) at h) in
          sent-Does db (status_to_grpc_status res.status)
            (record rpc { response = search_response messages }) w e h'
      | inr n ↦ sent-Does db (status_to_grpc_status res.status) rpc w e (rw (p, n) at h)
    ]
  ]

  respond_params-Does :
      {r : Request} (rpc : Rpc) (db : Database C) (found : Result (IndexType × Params))
      (w : Worked C)
      → rpc.request ≡ r
      → respond_params C rpc db found ≡ done w
      → WorkDoes r w
  respond_params-Does rpc db found w e h = elim (Option-cases found.payload) [
    | inl p ↦ sent-Does db (status_to_grpc_status found.status) rpc w e (rw p at h)
    | inr ((t, params), p) ↦ elim (Bool-cases (is_success found)) [
      | inr n ↦ sent-Does db (status_to_grpc_status found.status) rpc w e (rw (p, n) at h)
      | inl y ↦
          let (message, _, h') = >>=-eq-done (to_params_message t params) _ (rw (p, y) at h) in
          elim (Option-cases message) [
            | inl gone ↦
                sent-Does db (grpc_status invalid_argument "Unknown index type") rpc w e
                  (rw gone at h')
            | inr (m, known) ↦
                sent-Does db (status_to_grpc_status found.status)
                  (record rpc { response = params_response (some m) }) w e (rw known at h')
          ]
    ]
  ]

  respond_stream-Does :
      {r : Request} (rpc : Rpc) (x : Database C × Status)
      → rpc.request ≡ r
      → is_stream r ≡ true
      → WorkDoes r (respond_stream C rpc x)
  unfolding do_read
  respond_stream-Does {r} rpc (db, s) e stream =
      let streams : is_stream rpc.request ≡ true = ap is_stream e ∙ stream in
      elim (Bool-cases (succeeded s)) [
        | inl y ↦ rw (y, streams) (reads _ e refl)
        | inr n ↦ rw n (answer-Does (status_to_grpc_status s) rpc e)
      ]

  add_index_of-Does :
      {r : Request} (draws : ℕ → ℕ) (rpc : Rpc) (db : Database C) (name index_name : Bytes)
      (index : ℕ) (params : Option ParamsMessage) (w : Worked C)
      → rpc.request ≡ r
      → add_index_of C draws rpc db name index_name index params ≡ done w
      → WorkDoes r w
  add_index_of-Does draws rpc db name index_name zero params w e h = respond-Does rpc _ w e h
  add_index_of-Does draws rpc db name index_name (suc zero) params w e h =
      let (p, _, h') = >>=-eq-done (hnsw_request params) _ h in
      respond-Does rpc (Database.add_index C draws name index_name hnsw (some p) db) w e h'
  add_index_of-Does {r} draws rpc db name index_name (suc (suc n)) params w e h =
      subst (WorkDoes r) (done-injective h) (answer-Does _ rpc e)

  pub work-Does :
      (draws : ℕ → ℕ) (rpc : Rpc) (r : Request) (db : Database C) (w : Worked C)
      → rpc.request ≡ r
      → is_processed rpc.state ≡ false
      → work C draws rpc r db ≡ done w
      → WorkDoes r w
  unfolding work
  work-Does draws rpc (create_collection name dimension) db w e o h =
      respond-Does rpc (done (Database.add_collection C name dimension db)) w e h
  work-Does draws rpc (delete_collection name) db w e o h =
      respond-Does rpc (done (Database.delete_collection C name db)) w e h
  work-Does draws rpc (upsert name messages) db w e o h =
      catching-Does (answer internal_error_status rpc) _ w (answer-Does _ rpc e)
        (λ h.
          let (vectors, _, h') = >>=-eq-done (to_vectors messages) _ h in
          respond-Does rpc (Database.add_vectors C name vectors db) w e h')
        h
  work-Does draws rpc (search name values top_k) db w e o h =
      catching-Does (answer internal_error_status rpc) _ w (answer-Does _ rpc e)
        (λ h.
          let (query, _, h') = >>=-eq-done (from_array (length values) values) _ h in
          let (r, _, h'') = >>=-eq-done (Database.get_nearest_k C name query top_k db) _ h' in
          respond_search-Does rpc r w e h'')
        h
  work-Does draws rpc (stream_upsert name messages) db w e o h =
      catching-Does (rpc, []) _ w (stops rpc e o)
        (λ h.
          let (vectors, _, h') = >>=-eq-done (to_vectors messages) _ h in
          let (r, _, h'') = >>=-eq-done (Database.add_vectors C name vectors db) _ h' in
          subst (WorkDoes _) (done-injective h'') (respond_stream-Does rpc r e refl))
        h
  work-Does draws rpc (delete_vector name ids) db w e o h =
      catching-Does (handle_unknown_error rpc) _ w (handle_unknown_error-Does rpc e)
        (respond-Does rpc (Database.delete_vectors C name ids db) w e) h
  work-Does draws rpc (add_index name index_name index params) db w e o h =
      elim (Bool-cases (is_empty_list name || is_empty_list index_name)) [
        | inl unnamed ↦
            sent-Does db
              (grpc_status invalid_argument "Collection name and index name cannot be empty.") rpc w
              e (rw unnamed at h)
        | inr named ↦
            catching-Does (handle_unknown_error rpc) _ w (handle_unknown_error-Does rpc e)
              (add_index_of-Does draws rpc db name index_name index params w e) (rw named at h)
      ]
  work-Does draws rpc (get_index name index_name) db w e o h =
      catching-Does (handle_unknown_error rpc) _ w (handle_unknown_error-Does rpc e)
        (respond_params-Does rpc db (Database.get_index_params C name index_name db) w e) h
