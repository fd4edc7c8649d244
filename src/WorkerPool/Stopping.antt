-- ===== src/WorkerPool/Stopping.antt =====
-- What `shutdown` comes to.
use mathlib.Core.List.{append-nil}
use vector_db.Prelude.{
  ◌≡◌, refl, sym, ap, ◌∙◌, subst, List, [], ◌∷◌, ◌++◌, append_assoc, true, All, All-append, some,
  arith,
}
use vector_db.WorkerPool.{
  Worker, waiting, busy, gone, Pool, Event, ran, left, submit, shutdown, wake, with_thread, Step,
  submits, refuses, takes, leaves, ends, stops, Run, start, then_step,
}
use vector_db.WorkerPool.Order.{all_taken, wake-busy, wake-gone}

module _ {T : Type 0} where
  abbrev pub IsGone : Worker T → Type 0
  IsGone w = w ≡ gone

  Run-append :
      {p q r : Pool T} (es fs : List (Event T)) → Run p es q → Run q fs r → Run p (fs ++ es) r
  Run-append es [] a start = a
  Run-append {p = p} {q = q} {r = r} es (f ∷ fs) a (then_step {q = m} b s) =
      then_step (Run-append {p = p} {q = q} {r = m} es fs a b) s

  Step-stopped :
      {p q : Pool T} {e : Event T} (es : List (Event T))
      → Step p e q
      → p.stopped ≡ true
      → (q.stopped ≡ true) × (all_taken (e ∷ es) ≡ all_taken es)
  unfolding shutdown submit
  Step-stopped es (submits {p = p} {q = q} task s) h = (ground arith, refl)
  Step-stopped es (refuses task s) h = (h, refl)
  Step-stopped es (takes {p = p} {q = q} {task = task} before after at_front w) h =
      let (running_on, _, _) = wake-busy p q task w in cc
  Step-stopped es (leaves {p = p} {q = q} before after at_front w) h =
      let (_, same) = wake-gone p q w in (ap (λ x. x.stopped) same ∙ h, refl)
  Step-stopped es (ends task before after at_front) h = (h, refl)
  Step-stopped es stops h = (refl, refl)

  stopped-Run :
      {p q : Pool T} (events : List (Event T))
      → Run p events q
      → p.stopped ≡ true
      → (q.stopped ≡ true) × (all_taken events ≡ [])
  stopped-Run [] start h = (h, refl)
  stopped-Run {p = p} {q = q} (e ∷ events) (then_step {q = m} r s) h =
      let (still, none_taken) = stopped-Run {p = p} {q = m} events r h in
      let (after, same) = Step-stopped events s still in (after, same ∙ none_taken)

  -- The threads from some point on leave, those before having left.
  drain :
      (after before : List (Worker T)) (p : Pool T)
      → p.threads ≡ before ++ after
      → p.stopped ≡ true
      → All IsGone before
      → (events : List (Event T)) × (q : Pool T) × Run p events q
        × All IsGone q.threads
        × (q.tasks ≡ p.tasks)
  unfolding wake
  drain [] before p e h gs =
      ([], p, start, subst (All IsGone) (sym (e ∙ append-nil before)) gs, refl)
  drain (gone ∷ after) before p e h gs =
      drain after (before ++ (gone ∷ [])) p (e ∙ sym (append_assoc before (gone ∷ []) after)) h
        (All-append IsGone before (gone ∷ []) gs (refl, tt))
  drain (waiting ∷ after) before p e h gs =
      let one = with_thread before gone after p in
      let (events, q, r, all_gone, same) =
        drain after (before ++ (gone ∷ [])) one (sym (append_assoc before (gone ∷ []) after)) h
          (All-append IsGone before (gone ∷ []) gs (refl, tt)) in
      (
        events ++ (left ∷ []),
        q,
        Run-append (left ∷ []) events
            (then_step start (leaves {p = p} {q = p} before after e (rw (h, wake) refl))) r,
        all_gone,
        same,
      )
  drain (busy t ∷ after) before p e h gs =
      let free = with_thread before waiting after p in
      let one = with_thread before gone after p in
      let (events, q, r, all_gone, same) =
        drain after (before ++ (gone ∷ [])) one (sym (append_assoc before (gone ∷ []) after)) h
          (All-append IsGone before (gone ∷ []) gs (refl, tt)) in
      let wakes : wake free ≡ some (gone, free) = rw (h, wake) refl in
      let two : Run p (left ∷ (ran t ∷ [])) one =
        then_step (then_step start (ends t before after e))
          (leaves {p = free} {q = free} before after refl wakes) in
      (
        events ++ (left ∷ (ran t ∷ [])),
        q,
        Run-append (left ∷ (ran t ∷ [])) events two r,
        all_gone,
        same,
      )

  -- Once a pool has stopped it stays so, no thread takes a callback any more, whatever is submitted, and
  -- there are steps after which every thread is gone, so that `shutdown` can return; the callbacks that
  -- wait are left in the queue.
  pub shutdown_lem :
      (p : Pool T)
      → ((events : List (Event T)) (q : Pool T)
          → Run (shutdown p) events q
          → (q.stopped ≡ true) × (all_taken events ≡ []))
        × ((events : List (Event T)) × (q : Pool T) × Run (shutdown p) events q
            × All IsGone q.threads
            × (q.tasks ≡ p.tasks))
  unfolding shutdown
  shutdown_lem p =
      (λ events q r. stopped-Run events r refl, drain p.threads [] (shutdown p) refl refl tt)
