-- ===== src/Tests/Calls.antt =====
-- The calls of the server.
use vector_db.Prelude.{ℕ, ◌≡◌, refl, [], ◌∷◌, some, done, true, false, Bytes, bytes_key, nat_key}
use vector_db.Status.{success}
use vector_db.Name.{is_collection_name_valid}
use vector_db.Assoc.{emplace, find}
use vector_db.Wire.{grpc_status, ok, invalid_argument, status_to_grpc_status}
use vector_db.Distance.Whole.{whole}
use vector_db.Database.{add_collection}
use vector_db.Database.Store.{adds_collection, step}
use vector_db.Server.Messages.{Request, create_collection, delete_vector, empty_response}
use vector_db.Server.{Rpc, create_new, finish, new_rpc, processed, dispatch, run_flow, perform}
use vector_db.Server.Work.{work}
use vector_db.Server.Work.Steps.{followed_by, work-step}
use vector_db.Server.Work.Asked.{creates}
use vector_db.Server.Lives.{Life, same, newborn, reported, worked, Reaches, stay, after}
use vector_db.Server.Lives.Once.{IsSound, Reaches-IsSound}
use vector_db.Tests.Fixtures.{docs, Idle, one_library}

abbrev no_draws : ℕ → ℕ
no_draws n = 0

abbrev news : Bytes
news = b'n' ∷ b'e' ∷ b'w' ∷ b's' ∷ []

abbrev wanted : Request
wanted = create_collection news 3

work-step_example :
    work Idle no_draws (new_rpc wanted) wanted one_library
    ≡ done (followed_by Idle (new_rpc wanted) (add_collection Idle news 3 one_library).0 success)
unfolding step add_collection is_collection_name_valid find new_rpc
work-step_example =
    work-step Idle no_draws (new_rpc wanted) wanted (adds_collection news 3) one_library
      (add_collection Idle news 3 one_library).0 success refl (creates news 3) refl

-- The call arrives, its callback runs, and the end of `Finish` is reported.
abbrev arrived : Life
arrived = record { rpc = new_rpc wanted; outstanding = 0; jobs = 1; sent = 0; alive = true }

abbrev sent : Rpc
sent = record {
  request = wanted;
  state = processed;
  status = grpc_status ok "";
  response = empty_response;
}

abbrev answered_once : Life
answered_once = record { rpc = sent; outstanding = 1; jobs = 0; sent = 1; alive = true }

abbrev over : Life
over = record { rpc = sent; outstanding = 0; jobs = 0; sent = 1; alive = false }

served : Reaches Idle (newborn wanted) over
unfolding run_flow perform new_rpc work is_collection_name_valid find emplace status_to_grpc_status
    add_collection
served =
    after (newborn wanted) answered_once over
      (after (newborn wanted) arrived answered_once
        (after (newborn wanted) (newborn wanted) arrived (stay (newborn wanted)) (
          reported true false false wanted (run_flow true false (new_rpc wanted)) 0 (newborn wanted)
            refl (same wanted) refl))
        (worked no_draws one_library (some (add_collection Idle news 3 one_library).0) sent
          (finish empty_response (grpc_status ok "") ∷ []) 0 arrived refl refl))
      (reported true false true wanted (run_flow true false sent) 0 answered_once refl (same wanted)
        refl)

Reaches-IsSound_example : IsSound over
Reaches-IsSound_example = Reaches-IsSound Idle wanted over refl served

-- A request to delete no vectors is answered twice.
twice :
    (dispatch (new_rpc (delete_vector docs []))).1
    ≡ create_new
      ∷ finish empty_response
          (grpc_status invalid_argument "At least one vector ID is required for deletion.")
      ∷ finish empty_response
          (grpc_status invalid_argument "At least one vector ID is required for deletion.")
      ∷ []
unfolding dispatch new_rpc
twice = refl
