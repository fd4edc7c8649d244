-- ===== src/Server/Lives.antt =====
-- The life of a call of src/impl/grpc_server/server.cpp: the events of the completion queue and the runs of its
-- callbacks, in any order, but one at a time.
pub mod Effects
pub mod Once
use vector_db.Prelude.{
  Bytes, Option, ℕ, suc, ◌+◌, ◌≡◌, List, [], ◌∷◌, Bool, true, false, Outcome, done,
}
use vector_db.Distance.{Double}
use vector_db.Index.Interface.{IndexClass}
use vector_db.Database.{Database}
use vector_db.Server.Messages.{VectorMessage, Request, stream_upsert}
use vector_db.Server.{
  Rpc, Action, create_new, start_read, submit, finish, deleted, new_rpc, run_flow, perform,
}
use vector_db.Server.Work.{work}

-- The object, the operations whose end the completion queue has still to report, the callbacks that the
-- pool has still to run, how often `Finish` was called, and whether the object is still there.
pub record Life : Type 0 where
  pub rpc : Rpc
  pub outstanding : ℕ
  pub jobs : ℕ
  pub sent : ℕ
  pub alive : Bool

-- What an operation that the object starts leaves to come. A new object has a life of its own.
abbrev pub start : Action → Life → Life
start create_new l = l
start start_read l = record l { outstanding = suc l.outstanding }
start submit l = record l { jobs = suc l.jobs }
start (finish response status) l = record l { outstanding = suc l.outstanding; sent = suc l.sent }
start deleted l = record l { alive = false }

abbrev pub start_all : List Action → Life → Life
start_all [] l = l
start_all (action ∷ actions) l = start_all actions (start action l)

abbrev pub proceed : Rpc × List Action → Life → Life
proceed (rpc, actions) l = start_all actions (record l { rpc = rpc })

-- A read puts another message into the request of a stream.
pub data Refill : Request → Request → Type 0 where
  same : (request : Request) → Refill request request
  next :
      (name name' : Bytes) (vectors vectors' : List VectorMessage)
      → Refill (stream_upsert name vectors) (stream_upsert name' vectors')

abbrev pub refill : Request → Rpc → Rpc
refill request rpc = record rpc { request = request }

-- An object waits for its call to arrive.
abbrev pub newborn : Request → Life
newborn request = record {
  rpc = new_rpc request;
  outstanding = 1;
  jobs = 0;
  sent = 0;
  alive = true;
}

module _ {D : Type 0} ⦃d : Double D⦄ (C : IndexClass D) where
  -- `cq_poll_loop` reports the end of an operation, while the queue of the pool is full or not, or a
  -- thread of the pool runs a callback. Each runs to its end before the next step of the same object.
  pub data Step : Life → Life → Type 0 where
    reported :
        (ok_ shutdown full : Bool) (request : Request) (effect : Rpc × List Action)
        (outstanding : ℕ) (l : Life)
        → l.outstanding ≡ suc outstanding
        → Refill l.rpc.request request
        → perform full (run_flow ok_ shutdown (refill request l.rpc)) ≡ done effect
        → Step l (proceed effect (record l { outstanding = outstanding }))
    worked :
        (draws : ℕ → ℕ) (db : Database C) (left : Option (Database C)) (rpc : Rpc)
        (actions : List Action) (jobs : ℕ) (l : Life)
        → l.jobs ≡ suc jobs
        → work C draws l.rpc l.rpc.request db ≡ done (left, rpc, actions)
        → Step l (proceed (rpc, actions) (record l { jobs = jobs }))

  -- What a life may become.
  pub data Reaches : Life → Life → Type 0 where
    stay : (l : Life) → Reaches l l
    after : (l m n : Life) → Reaches l m → Step m n → Reaches l n
