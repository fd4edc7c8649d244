-- ===== src/Server.antt =====
-- The calls of src/impl/grpc_server/server.cpp, each an object with a state machine: what the completion
-- queue makes it do. gRPC itself, the completion queue and the writing of logs are not modelled; an object
-- yields the operations that it starts.
pub mod Messages
pub mod Work
pub mod Lives
pub mod Running
use Prim.Native.String.{String}
use vector_db.Prelude.{
  ℕ, ◌^◌, List, [], ◌∷◌, ◌++◌, Option, none, Outcome, done, thrown, Bool, true, false, not, ◌&&◌,
  ◌||◌, if◌then◌else◌, Bytes, leb, nat_eq,
}
use vector_db.IvfFlat.{is_empty_list}
use vector_db.Wire.{GrpcStatus, grpc_status, ok, invalid_argument, internal}
use vector_db.Server.Messages.{
  VectorMessage, Request, Response, empty_response, search_response, params_response,
  create_collection, delete_collection, upsert, search, stream_upsert, delete_vector, add_index,
  get_index,
}

pub data State : Type 0 where
  created : State
  read : State
  written : State
  processed : State

-- An object of a class derived from `rpc_base`; the class goes with the request.
pub record Rpc : Type 0 where
  pub request : Request
  pub state : State
  pub status : GrpcStatus
  pub response : Response

-- `new derived_t`, `reader_.Read`, `db_worker_pool_->submit`, `Finish` and `delete this`.
pub data Action : Type 0 where
  create_new : Action
  start_read : Action
  submit : Action
  finish : Response → GrpcStatus → Action
  deleted : Action

abbrev pub internal_error_status : GrpcStatus
internal_error_status = grpc_status internal "Internal error"

abbrev pub empty_answer : Request → Response
empty_answer (search name query k) = search_response []
empty_answer (get_index name index) = params_response none
empty_answer _ = empty_response

abbrev pub first_status : Request → GrpcStatus
first_status (stream_upsert name vectors) = internal_error_status
first_status _ = grpc_status ok ""

-- The constructors.
unfoldable pub new_rpc : Request → Rpc
new_rpc request = record {
  request = request;
  state = created;
  status = first_status request;
  response = empty_answer request;
}

abbrev pub is_stream : Request → Bool
is_stream (stream_upsert name vectors) = true
is_stream _ = false

unfoldable pub handle_unknown_error : Rpc → Rpc × List Action
handle_unknown_error rpc =
    let sent = if is_stream rpc.request then rpc.status else internal_error_status in
    (record rpc { state = processed }, finish rpc.response sent ∷ [])

-- `do_read`, which returns whether the request has been read already.
unfoldable pub do_read : Rpc → Bool × Rpc × List Action
do_read rpc =
    if is_stream rpc.request
    then (false, record rpc { state = read }, start_read ∷ [])
    else (true, rpc, [])

-- The assignments to `status_` and `state_` before a `Finish`.
abbrev pub answer : GrpcStatus → Rpc → Rpc × List Action
answer status rpc =
    (record rpc { status = status; state = processed }, finish rpc.response status ∷ [])

abbrev pub refuse : String → Rpc → Rpc × List Action
refuse message rpc = answer (grpc_status invalid_argument message) rpc

-- Not above zero, for an `int32` given by its bits.
abbrev pub non_positive : ℕ → Bool
non_positive n = nat_eq n 0 || leb (2 ^ 31) n

-- `process`, of each class. Where `submit` throws, nothing after it runs; `perform` has that.
abbrev pub process_create_collection : Bytes → ℕ → Rpc → Rpc × List Action
process_create_collection name dimension rpc =
    if is_empty_list name
    then refuse "Collection name cannot be empty." rpc
    else if non_positive dimension
    then refuse "Vector dimension must be greater than 0." rpc
    else (rpc, submit ∷ [])

abbrev pub process_delete_collection : Bytes → Rpc → Rpc × List Action
process_delete_collection name rpc =
    if is_empty_list name then refuse "Collection name cannot be empty." rpc else (rpc, submit ∷ [])

abbrev pub process_upsert : Bytes → List VectorMessage → Rpc → Rpc × List Action
process_upsert name vectors rpc =
    if is_empty_list name
    then refuse "Collection name cannot be empty." rpc
    else if is_empty_list vectors
    then refuse "At least one vector is required for upsert." rpc
    else (rpc, submit ∷ [])

abbrev pub process_search : Bytes → ℕ → Rpc → Rpc × List Action
process_search name top_k rpc =
    if is_empty_list name
    then refuse "Collection name cannot be empty." rpc
    else if non_positive top_k
    then refuse "top_k must be greater than 0." rpc
    else (rpc, submit ∷ [])

-- `Finish` is called twice if there are no ids.
abbrev pub process_delete_vector : Bytes → List ℕ → Rpc → Rpc × List Action
process_delete_vector name ids rpc =
    let (refused, finished) = refuse "At least one vector ID is required for deletion." rpc in
    if is_empty_list name
    then refuse "Collection name cannot be empty." rpc
    else if is_empty_list ids
    then (refused, finished ++ finished)
    else (rpc, submit ∷ [])

abbrev pub process_get_index : Bytes → Bytes → Rpc → Rpc × List Action
process_get_index name index_name rpc =
    if is_empty_list name || is_empty_list index_name
    then refuse "Collection/Index name cannot be empty." rpc
    else (rpc, submit ∷ [])

abbrev pub process_request : Rpc → Request → Rpc × List Action
process_request rpc (create_collection name dimension) =
    process_create_collection name dimension rpc
process_request rpc (delete_collection name) = process_delete_collection name rpc
process_request rpc (upsert name vectors) = process_upsert name vectors rpc
process_request rpc (search name query top_k) = process_search name top_k rpc
process_request rpc (stream_upsert name vectors) = (rpc, submit ∷ [])
process_request rpc (delete_vector name ids) = process_delete_vector name ids rpc
process_request rpc (add_index name index_name index params) = (rpc, submit ∷ [])
process_request rpc (get_index name index_name) = process_get_index name index_name rpc

unfoldable pub process : Rpc → Rpc × List Action
process rpc = process_request rpc rpc.request

abbrev pub is_processed : State → Bool
is_processed processed = true
is_processed _ = false

-- The `switch` of `run_flow`.
unfoldable pub dispatch : Rpc → Rpc × List Action
unfolding process handle_unknown_error do_read
dispatch rpc = elim rpc.state [
  | created ↦
      let (has_request, after, started) = do_read rpc in
      let (done_now, more) = process after in
      if has_request
      then (done_now, create_new ∷ (started ++ more))
      else (after, create_new ∷ started)
  | read ↦ process rpc
  | processed ↦ (rpc, deleted ∷ [])
  | written ↦ handle_unknown_error rpc
]

abbrev pub submits_some : List Action → Bool
submits_some [] = false
submits_some (submit ∷ actions) = true
submits_some (_ ∷ actions) = submits_some actions

unfoldable pub run_flow : Bool → Bool → Rpc → Rpc × List Action
unfolding dispatch handle_unknown_error
run_flow ok_ shutdown rpc =
    let failed = handle_unknown_error rpc in
    let next = dispatch rpc in
    if shutdown
    then (rpc, deleted ∷ [])
    else if not ok_ && not (is_processed rpc.state)
    then failed
    else next

-- `worker_pool::submit` throws where the queue is full, out of `run_flow` and of the thread that polls
-- the completion queue, which ends the process.
unfoldable pub perform : Bool → Rpc × List Action → Outcome (Rpc × List Action)
perform full (rpc, actions) = if full && submits_some actions then thrown else done (rpc, actions)
