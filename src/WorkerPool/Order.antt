-- ===== src/WorkerPool/Order.antt =====
-- No callback is lost, repeated or overtaken.
use mathlib.Core.List.{Perm, perm_middle, perm_append_singleton}
use mathlib.Core.List.Perm
use vector_db.Prelude.{
  ℕ, zero, suc, ◌≤◌, ◌≡◌, refl, sym, ap, ◌∙◌, subst, List, [], ◌∷◌, ◌++◌, append_assoc, some, done,
  done-injective, true, false, length, length-append, leb, arith, inl, inr, Bool-cases,
}
use vector_db.WorkerPool.{
  Worker, waiting, busy, gone, Pool, max_queue_size, Event, accepted, took, ran, waiting_threads,
  init, submit, shutdown, wake, Step, submits, refuses, takes, leaves, ends, stops, Run, start,
  then_step,
}

module _ {T : Type 0} where
  -- The callbacks that were accepted, taken or run in a history that lists the last event first.
  abbrev pub all_accepted : List (Event T) → List T
  all_accepted [] = []
  all_accepted (accepted t ∷ es) = all_accepted es ++ (t ∷ [])
  all_accepted (_ ∷ es) = all_accepted es

  abbrev pub all_taken : List (Event T) → List T
  all_taken [] = []
  all_taken (took t ∷ es) = all_taken es ++ (t ∷ [])
  all_taken (_ ∷ es) = all_taken es

  abbrev pub all_run : List (Event T) → List T
  all_run [] = []
  all_run (ran t ∷ es) = t ∷ all_run es
  all_run (_ ∷ es) = all_run es

  abbrev pub running : List (Worker T) → List T
  running [] = []
  running (busy t ∷ ws) = t ∷ running ws
  running (_ ∷ ws) = running ws

  running-append : (xs ys : List (Worker T)) → running (xs ++ ys) ≡ running xs ++ running ys
  running-append [] ys = refl
  running-append (waiting ∷ xs) ys = running-append xs ys
  running-append (busy t ∷ xs) ys = ap (◌∷◌ t) (running-append xs ys)
  running-append (gone ∷ xs) ys = running-append xs ys

  running-waiting : (n : ℕ) → running (waiting_threads n) ≡ []
  running-waiting zero = refl
  running-waiting (suc n) = running-waiting n

  pub submit_lem :
      (t : T) (p q : Pool T)
      → submit t p ≡ done q
      → (q.tasks ≡ p.tasks ++ (t ∷ []))
        × (q.threads ≡ p.threads)
        × (length q.tasks ≤ max_queue_size)
  unfolding submit
  submit_lem t p q h = elim (Bool-cases (leb max_queue_size (length p.tasks))) [
    | inl e ↦ absurd (ground arith)
    | inr e ↦
        let same : record p { tasks = p.tasks ++ (t ∷ []) } ≡ q = done-injective (rw e at h) in
        subst
          (λ q.
            (q.tasks ≡ p.tasks ++ (t ∷ []))
            × (q.threads ≡ p.threads)
            × (length q.tasks ≤ max_queue_size))
          same (refl, refl, ground (arith, length-append p.tasks (t ∷ [])))
  ]

  pub wake-busy :
      (p q : Pool T) (t : T)
      → wake p ≡ some (busy t, q)
      → (p.stopped ≡ false) × (p.tasks ≡ t ∷ q.tasks) × (q.threads ≡ p.threads)
  unfolding wake
  wake-busy p q t h = ground arith

  pub wake-gone : (p q : Pool T) → wake p ≡ some (gone, q) → (p.stopped ≡ true) × (q ≡ p)
  unfolding wake
  wake-gone p q h = ground arith

  -- What holds of a history and of the pool that it leads to.
  abbrev Ordered : List (Event T) → Pool T → Type 0
  Ordered events p =
      (all_accepted events ≡ all_taken events ++ p.tasks)
      × (length p.tasks ≤ max_queue_size)
      × Perm (all_taken events) (all_run events ++ running p.threads)

  -- One more thread that runs the task, and one less.
  running-busy :
      (t : T) (before after : List (Worker T))
      → Perm (running (before ++ (busy t ∷ after))) (t ∷ running (before ++ (waiting ∷ after)))
  running-busy t before after =
      subst (λ l. Perm l (t ∷ running (before ++ (waiting ∷ after))))
        (sym (running-append before (busy t ∷ after)))
        (subst (λ l. Perm (running before ++ (t ∷ running after)) (t ∷ l))
          (sym (running-append before (waiting ∷ after)))
          (perm_middle (running before) (running after)))

  running-gone :
      (before after : List (Worker T))
      → running (before ++ (gone ∷ after)) ≡ running (before ++ (waiting ∷ after))
  running-gone before after =
      running-append before (gone ∷ after) ∙ sym (running-append before (waiting ∷ after))

  step_lem :
      {p q : Pool T} {e : Event T} (events : List (Event T))
      → Step p e q
      → Ordered events p
      → Ordered (e ∷ events) q
  unfolding shutdown
  step_lem events (submits {p = p} {q = q} task s) (o, b, r) =
      let (tasks, threads, small) = submit_lem task p q s in
      (
        ap (λ l. l ++ (task ∷ [])) o
            ∙ append_assoc (all_taken events) p.tasks (task ∷ [])
            ∙ ap (λ l. all_taken events ++ l) (sym tasks),
        small,
        subst (λ w. Perm (all_taken events) (all_run events ++ running w)) (sym threads) r,
      )
  step_lem events (refuses task s) inv = inv
  step_lem events (takes {p = p} {q = q} {task = task} before after at_front w) (o, b, r) =
      let (_, front, _) = wake-busy p q task w in
      (
        o
            ∙ ap (λ l. all_taken events ++ l) front
            ∙ sym (append_assoc (all_taken events) (task ∷ []) q.tasks),
        ground (arith, front, b),
        Perm.trans (perm_append_singleton task (all_taken events)) (
            Perm.trans
              (Perm.cons task
                (subst (λ w. Perm (all_taken events) (all_run events ++ running w)) at_front r))
              (Perm.trans
                (Perm.symm (perm_middle (all_run events) (running (before ++ (waiting ∷ after)))))
                (Perm.append_left (all_run events) (Perm.symm (running-busy task before after))))),
      )
  step_lem events (leaves {p = p} {q = q} before after at_front w) (o, b, r) =
      let (_, same) = wake-gone p q w in
      (
        o ∙ ap (λ x. all_taken events ++ x.tasks) (sym same),
        subst (λ x. length x.tasks ≤ max_queue_size) (sym same) b,
        subst (λ l. Perm (all_taken events) (all_run events ++ l))
            (ap running at_front ∙ sym (running-gone before after)) r,
      )
  step_lem events (ends {p = p} task before after at_front) (o, b, r) = (
    o,
    b,
    Perm.trans (subst (λ w. Perm (all_taken events) (all_run events ++ running w)) at_front r) (
        Perm.trans (Perm.append_left (all_run events) (running-busy task before after))
          (perm_middle (all_run events) (running (before ++ (waiting ∷ after))))),
  )
  step_lem events stops inv = inv

  ordered_lem :
      {p : Pool T} (n : ℕ) (events : List (Event T)) → Run (init n) events p → Ordered events p
  ordered_lem n [] start =
      (refl, omega arith, subst (λ l. Perm [] l) (sym (running-waiting n)) Perm.nil)
  ordered_lem {p = p} n (e ∷ events) (then_step {q = q} r s) =
      step_lem events s (ordered_lem {p = q} n events r)

  -- However the steps of a pool of `n` threads interleave, from its start on: the callbacks that were
  -- accepted are those that were taken, in the same order, and then those that still wait; at most
  -- MAX_QUEUE_SIZE wait; and those that were taken are those that have run and those that are running.
  pub run_lem :
      (n : ℕ) (events : List (Event T)) (p : Pool T)
      → Run (init n) events p
      → (all_accepted events ≡ all_taken events ++ p.tasks)
        × (length p.tasks ≤ max_queue_size)
        × Perm (all_taken events) (all_run events ++ running p.threads)
  run_lem n events p r = ordered_lem n events r
