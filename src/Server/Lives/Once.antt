-- ===== src/Server/Lives/Once.antt =====
-- A call is answered at most once, and its object is deleted only when nothing is to come.
use vector_db.Prelude.{
  ℕ, ◌+◌, ◌≤◌, ◌≡◌, inl, inr, refl, sym, done, done-injective, ap, ◌∙◌, List, Bool, true, false,
  not, ◌&&◌, if◌then◌else◌, Bool-cases, arith,
}
use vector_db.Distance.{Double}
use vector_db.Index.Interface.{IndexClass}
use vector_db.Server.Messages.{Request}
use vector_db.Server.{
  Rpc, State, created, read, written, processed, Action, new_rpc, run_flow, dispatch, process,
  do_read, handle_unknown_error, is_processed, is_stream, perform, submits_some,
}
use vector_db.Server.Lives.{
  Life, proceed, Refill, same, next, refill, newborn, Step, reported, worked, Reaches, stay, after,
}
use vector_db.Server.Lives.Effects.{
  Does, sends, reads, submits, stops, deletes_some, process-Does, handle_unknown_error-Does,
  work-Does,
}

-- At most one operation or callback is to come, and none for a deleted object; an answer was sent
-- exactly if the state says so, and then no callback is to come.
pub record IsSound (l : Life) : Type 0 where
  pub one_to_come : l.outstanding + l.jobs ≤ 1
  pub none_after : l.alive ≡ false → l.outstanding + l.jobs ≡ 0
  pub sent_once : l.sent ≡ (if is_processed l.rpc.state then 1 else 0)
  pub no_job_after : is_processed l.rpc.state ≡ true → l.jobs ≡ 0
  pub deletes_something : deletes_some l.rpc.request ≡ true

-- A life in which nothing is to come and nothing was sent.
abbrev idle : Rpc → Life
idle rpc = record { rpc = rpc; outstanding = 0; jobs = 0; sent = 0; alive = true }

Does-IsSound :
    (request : Request) (effect : Rpc × List Action) (rpc : Rpc)
    → deletes_some request ≡ true
    → Does request effect
    → IsSound (proceed effect (idle rpc))
Does-IsSound request effect rpc some (sends later response status e p) = record {
  one_to_come = omega arith;
  none_after = λ h. cc;
  sent_once = rw p refl;
  no_job_after = λ h. refl;
  deletes_something = ap deletes_some e ∙ some;
}
Does-IsSound request effect rpc some (reads later e p) = record {
  one_to_come = omega arith;
  none_after = λ h. cc;
  sent_once = rw p refl;
  no_job_after = λ h. refl;
  deletes_something = ap deletes_some e ∙ some;
}
Does-IsSound request effect rpc some (submits later e p) = record {
  one_to_come = omega arith;
  none_after = λ h. cc;
  sent_once = rw p refl;
  no_job_after = λ h. cc;
  deletes_something = ap deletes_some e ∙ some;
}
Does-IsSound request effect rpc some (stops later e p) = record {
  one_to_come = omega arith;
  none_after = λ h. cc;
  sent_once = rw p refl;
  no_job_after = λ h. refl;
  deletes_something = ap deletes_some e ∙ some;
}

lives :
    (alive : Bool) (outstanding jobs : ℕ)
    → (alive ≡ false → outstanding + jobs ≡ 0)
    → 1 ≤ outstanding + jobs
    → alive ≡ true
lives true outstanding jobs h some = refl
lives false outstanding jobs h some = absurd (omega (arith, h refl))

-- An object is deleted.
deleted-IsSound :
    (rpc : Rpc) (sent : ℕ)
    → sent ≡ (if is_processed rpc.state then 1 else 0)
    → deletes_some rpc.request ≡ true
    → IsSound (record { rpc = rpc; outstanding = 0; jobs = 0; sent = sent; alive = false })
deleted-IsSound rpc sent e some = record {
  one_to_come = omega arith;
  none_after = λ h. omega arith;
  sent_once = e;
  no_job_after = λ h. refl;
  deletes_something = some;
}

-- A switch on the state, of an object that is reported to.
dispatch-IsSound :
    (st : State) (rpc : Rpc)
    → rpc.state ≡ st
    → (sent : ℕ) → sent ≡ (if is_processed st then 1 else 0)
    → deletes_some rpc.request ≡ true
    → IsSound (
        proceed
          (dispatch rpc)
          (record { rpc = rpc; outstanding = 0; jobs = 0; sent = sent; alive = true }))
unfolding dispatch
dispatch-IsSound created rpc p sent e some = elim (Bool-cases (is_stream rpc.request)) [
  | inl stream ↦
      rw (p, do_read, stream, e)
        (Does-IsSound rpc.request _ rpc some (reads (record rpc { state = read }) refl refl))
  | inr unary ↦
      let waiting : Rpc = record rpc { state = created } in
      rw (p, do_read, unary, e)
        (Does-IsSound rpc.request (process waiting) rpc some (process-Does waiting refl some))
]
dispatch-IsSound read rpc p sent e some =
    let waiting : Rpc = record rpc { state = read } in
    rw (p, e) (Does-IsSound rpc.request (process waiting) rpc some (process-Does waiting refl some))
dispatch-IsSound written rpc p sent e some =
    let waiting : Rpc = record rpc { state = written } in
    rw (p, e)
      (Does-IsSound rpc.request (handle_unknown_error waiting) rpc some
        (handle_unknown_error-Does waiting refl))
dispatch-IsSound processed rpc p sent e some =
    let over : Rpc = record rpc { state = processed } in rw p (deleted-IsSound over sent e some)

run_flow-IsSound :
    (ok_ shutdown : Bool) (rpc : Rpc) (sent : ℕ)
    → sent ≡ (if is_processed rpc.state then 1 else 0)
    → deletes_some rpc.request ≡ true
    → IsSound (
        proceed
          (run_flow ok_ shutdown rpc)
          (record { rpc = rpc; outstanding = 0; jobs = 0; sent = sent; alive = true }))
unfolding run_flow
run_flow-IsSound ok_ true rpc sent e some = deleted-IsSound rpc sent e some
run_flow-IsSound ok_ false rpc sent e some =
    elim (Bool-cases (not ok_ && not (is_processed rpc.state))) [
      | inl failed ↦
          let open_yet : is_processed rpc.state ≡ false = ground arith in
          rw (failed, e, open_yet)
            (Does-IsSound rpc.request (handle_unknown_error rpc) rpc some
              (handle_unknown_error-Does rpc refl))
      | inr fine ↦ rw fine (dispatch-IsSound rpc.state rpc refl sent e some)
    ]

-- Where nothing is thrown, what `run_flow` yields is done.
perform-same :
    (full : Bool) (found effect : Rpc × List Action)
    → perform full found ≡ done effect
    → effect ≡ found
unfolding perform
perform-same full (rpc, actions) effect h = elim (Bool-cases (full && submits_some actions)) [
  | inl over ↦ cc (rw over at h)
  | inr fits ↦ sym (done-injective (rw fits at h))
]

-- Nothing else is to come.
abbrev alone : Rpc → ℕ → ℕ → ℕ → Bool → Life
alone rpc outstanding jobs sent alive = record {
  rpc = rpc;
  outstanding = outstanding;
  jobs = jobs;
  sent = sent;
  alive = alive;
}

Refill-deletes_some :
    (r request : Request) → Refill r request → deletes_some r ≡ true → deletes_some request ≡ true
Refill-deletes_some r request (same _) h = h
Refill-deletes_some r request (next n n' v v') h = refl

module _ {D : Type 0} ⦃d : Double D⦄ (C : IndexClass D) where
  pub Step-IsSound : (l m : Life) → IsSound l → Step C l m → IsSound m
  Step-IsSound l m s (reported ok_ shutdown full request effect outstanding _ e r went) =
      let same_effect =
        perform-same full (run_flow ok_ shutdown (refill request l.rpc)) effect went in
      let none_left : outstanding ≡ 0 = omega (arith, s.one_to_come, e) in
      let no_jobs : l.jobs ≡ 0 = omega (arith, s.one_to_come, e) in
      let here : l.alive ≡ true =
        lives l.alive l.outstanding l.jobs s.none_after (omega (arith, e)) in
      rw (none_left, no_jobs, here, same_effect)
        (run_flow-IsSound ok_ shutdown (refill request l.rpc) l.sent s.sent_once
          (Refill-deletes_some l.rpc.request request r s.deletes_something))
  Step-IsSound l m s (worked draws db left rpc actions jobs _ e w) =
      let none_left : l.outstanding ≡ 0 = omega (arith, s.one_to_come, e) in
      let no_jobs : jobs ≡ 0 = omega (arith, s.one_to_come, e) in
      let here : l.alive ≡ true =
        lives l.alive l.outstanding l.jobs s.none_after (omega (arith, e)) in
      let open_yet : is_processed l.rpc.state ≡ false = ground (arith, s.no_job_after) in
      let unsent : l.sent ≡ 0 = s.sent_once ∙ rw open_yet refl in
      rw (none_left, no_jobs, here, unsent)
        (Does-IsSound l.rpc.request (rpc, actions) rpc s.deletes_something
          (work-Does C draws l.rpc l.rpc.request db (left, rpc, actions) refl open_yet w))

  newborn-IsSound : (request : Request) → deletes_some request ≡ true → IsSound (newborn request)
  unfolding new_rpc
  newborn-IsSound request some = record {
    one_to_come = omega arith;
    none_after = λ h. cc;
    sent_once = refl;
    no_job_after = λ h. refl;
    deletes_something = some;
  }

  -- Of a call, unless its request is one to delete no vectors: as long as `run_flow` and the callbacks of
  -- its object run one at a time, each to its end, but in whatever order and whatever the completion
  -- queue reports, there is at most one operation or callback to come, and none once the object is
  -- deleted; the call is answered at most once, exactly if its state says so, and no callback runs after
  -- that.
  pub Reaches-IsSound :
      (request : Request) (l : Life)
      → deletes_some request ≡ true
      → Reaches C (newborn request) l
      → IsSound l
  Reaches-IsSound request l some run = go (newborn request) l (newborn-IsSound request some) run
    where
      go : (k l : Life) → IsSound k → Reaches C k l → IsSound l
      go k l s (stay _) = s
      go k l s (after _ m _ run step) = Step-IsSound m l (go k m s run) step
