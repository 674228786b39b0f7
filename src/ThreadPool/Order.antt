-- ===== src/ThreadPool/Order.antt =====
-- src/threadpool.rs: the jobs that are accepted are run in their order, each of them once.
use ironbind.Prelude.{
  ℕ, ◌≡◌, refl, sym, ap, ◌∙◌, Option, none, some, List, [], ◌∷◌, ◌++◌, arith, if◌then◌else◌,
  get_elem?, append_assoc, append-nil, Bool-cases, inl, inr,
}
use ironbind.ThreadPool.{
  ThreadPool, submit, first_job, recv, idle, after_recv, Event, submits, receives, ends, step, run,
}

module _ {J : Type 0} where
  -- The job that an event adds to the queue, and the one that it gives to a worker.
  unfoldable accepted_by : Event J → ThreadPool J → List J
  unfolding submit
  accepted_by (submits f) p = if (submit f p).1 then f ∷ [] else []
  accepted_by (receives id) p = []
  accepted_by (ends id panicked) p = []

  abbrev taken : Option (J × ThreadPool J) → List J
  taken none = []
  taken (some (j, p)) = j ∷ []

  unfoldable pub started_by : Event J → ThreadPool J → List J
  unfolding recv
  started_by (submits f) p = []
  started_by (receives id) p = taken (recv id p)
  started_by (ends id panicked) p = []

  -- The jobs that `submit` accepts, and those that are started, in the order of the events.
  unfoldable pub accepted : List (Event J) → ThreadPool J → List J
  unfolding accepted_by
  accepted [] p = []
  accepted (e ∷ es) p = accepted_by e p ++ accepted es (step e p)

  unfoldable pub started : List (Event J) → ThreadPool J → List J
  unfolding started_by
  started [] p = []
  started (e ∷ es) p = started_by e p ++ started es (step e p)

  recv-order :
      (id : ℕ) (p : ThreadPool J)
      → p.queue ++ [] ≡ taken (recv id p) ++ (step (receives id) p).queue
  unfolding step recv
  recv-order id p = elim (Bool-cases (idle (get_elem? p.workers id))) [
    | inl free ↦ rw (free, append-nil p.queue) (first p.queue refl)
    | inr busy ↦ rw (busy, append-nil p.queue) refl
  ]
    where
      first :
          (js : List J)
          → p.queue ≡ js
          → js ≡ taken (first_job js id p) ++ (after_recv p (first_job js id p)).queue
      first [] e = sym e
      first (j ∷ js) e = refl

  step-order :
      (e : Event J) (p : ThreadPool J)
      → p.queue ++ accepted_by e p ≡ started_by e p ++ (step e p).queue
  unfolding step accepted_by started_by submit
  step-order (submits f) p = ground (arith, append-nil p.queue)
  step-order (receives id) p = recv-order id p
  step-order (ends id panicked) p = append-nil p.queue

  -- Whatever happens, the jobs that the queue held and those that were accepted since are the jobs
  -- that were started and those that still wait, in the same order: none is lost, none is run twice,
  -- and none overtakes another, also where jobs panic.
  pub run-order :
      (es : List (Event J)) (p : ThreadPool J)
      → p.queue ++ accepted es p ≡ started es p ++ (run es p).queue
  unfolding run accepted started
  run-order [] p = append-nil p.queue
  run-order (e ∷ es) p =
      sym (append_assoc p.queue (accepted_by e p) (accepted es (step e p)))
      ∙ ap (λ js. js ++ accepted es (step e p)) (step-order e p)
      ∙ append_assoc (started_by e p) (step e p).queue (accepted es (step e p))
      ∙ ap (λ js. started_by e p ++ js) (run-order es (step e p))
      ∙ sym (append_assoc (started_by e p) (started es (step e p)) (run es (step e p)).queue)
