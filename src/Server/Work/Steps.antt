-- ===== src/Server/Work/Steps.antt =====
-- The callbacks make the calls of the database that their requests stand for.
use vector_db.Prelude.{
  ℕ, ◌≡◌, refl, ap, ◌∙◌, [], ◌∷◌, some, done, ◌>>=◌, ◌&&◌, if◌then◌else◌, Bool-cases, inl, inr,
  true, false,
}
use vector_db.Status.{Status, succeeded}
use vector_db.Index.Interface.{IndexClass}
use vector_db.Distance.{Double}
use vector_db.Database.{Database}
use vector_db.Database.Store.{Call, step}
use vector_db.Wire.{status_to_grpc_status, grpc_status, ok}
use vector_db.Server.Messages.{Request}
use vector_db.Server.{Rpc, processed, read, finish, start_read, is_stream, do_read}
use vector_db.Server.Work.{work, Worked, respond, respond_stream}
use vector_db.Server.Work.Asked.{
  AsksFor, creates, deletes, upserts, streams, removes, indexes_hnsw, indexes_hnsw_by_default,
  indexes_ivf, indexes_ivf_by_default, to_vectors_lem, hnsw_request-given, hnsw_request-default,
  ivf_request-given, ivf_request-default,
}

module _ {D : Type 0} ⦃d : Double D⦄ (C : IndexClass D) where
  -- The object is answered with the status.
  abbrev answered_by : Rpc → Database C → Status → Worked C
  answered_by rpc db s = (
    some db,
    record rpc { status = status_to_grpc_status s; state = processed },
    finish rpc.response (status_to_grpc_status s) ∷ [],
  )

  -- What a callback leaves after a call that returned the status: a stream reads on after a success.
  abbrev pub followed_by : Rpc → Database C → Status → Worked C
  followed_by rpc db s =
      if is_stream rpc.request && succeeded s
      then (some db, record rpc { status = grpc_status ok ""; state = read }, start_read ∷ [])
      else answered_by rpc db s

  respond_stream-follows :
      (rpc : Rpc) (db : Database C) (s : Status)
      → is_stream rpc.request ≡ true
      → respond_stream C rpc (db, s) ≡ followed_by rpc db s
  unfolding do_read
  respond_stream-follows rpc db s stream = elim (Bool-cases (succeeded s)) [
    | inl fine ↦ rw (stream, fine) refl
    | inr failed ↦ rw (stream, failed) refl
  ]

  unary-follows :
      (rpc : Rpc) (r : Request) (db : Database C) (s : Status)
      → rpc.request ≡ r
      → is_stream r ≡ false
      → answered_by rpc db s ≡ followed_by rpc db s
  unary-follows rpc r db s e unary = rw (e, unary) refl

  -- If the request of an object asks for a change of the database, and that call returns a status, then the
  -- callback leaves the database as the call does, and answers with that status; a stream does so only if it
  -- is not `success`, and otherwise reads its next message.
  pub work-step :
      (draws : ℕ → ℕ) (rpc : Rpc) (r : Request) (call : Call) (db db' : Database C) (s : Status)
      → rpc.request ≡ r
      → AsksFor draws r call
      → step C call db ≡ done (db', s)
      → work C draws rpc r db ≡ done (followed_by rpc db' s)
  unfolding work step
  work-step draws rpc r _ db db' s q (creates name dimension) h =
      ap (respond C rpc) h ∙ ap done (unary-follows rpc r db' s q refl)
  work-step draws rpc r _ db db' s q (deletes name) h =
      ap (respond C rpc) h ∙ ap done (unary-follows rpc r db' s q refl)
  work-step draws rpc r _ db db' s q (upserts name messages short) h =
      rw (to_vectors_lem messages short, ◌>>=◌, h) (ap done (unary-follows rpc r db' s q refl))
  work-step draws rpc r _ db db' s q (streams name messages short) h =
      rw (to_vectors_lem messages short, ◌>>=◌, h)
        (ap done (respond_stream-follows rpc db' s (ap is_stream q)))
  work-step draws rpc r _ db db' s q (removes name ids) h =
      rw (h, ◌>>=◌) (ap done (unary-follows rpc r db' s q refl))
  work-step draws rpc r _ db db' s q (indexes_hnsw name index_name t m c f named known) h =
      rw (named, hnsw_request-given t m c f known, ◌>>=◌, h)
        (ap done (unary-follows rpc r db' s q refl))
  work-step draws rpc r _ db db' s q (indexes_hnsw_by_default name index_name params named other)
        h =
      rw (named, hnsw_request-default params other, ◌>>=◌, h)
        (ap done (unary-follows rpc r db' s q refl))
  work-step draws rpc r _ db db' s q (indexes_ivf name index_name t k p b named) h =
      rw (named, ivf_request-given t k p b, ◌>>=◌, h) (ap done (unary-follows rpc r db' s q refl))
  work-step draws rpc r _ db db' s q (indexes_ivf_by_default name index_name params named other) h =
      rw (named, ivf_request-default params other, ◌>>=◌, h)
        (ap done (unary-follows rpc r db' s q refl))
