-- ===== src/ThreadPool/Progress.antt =====
-- src/threadpool.rs: one worker empties the queue.
use ironbind.Prelude.{ℕ, ◌≡◌, refl, ap, Bool, List, [], ◌∷◌, arith, length}
use ironbind.ThreadPool.{
  ThreadPool, Worker, running, recv, job_ends, Event, receives, ends, step, run,
}
use ironbind.ThreadPool.Order.{started, started_by}

-- The first worker ends its job, with a panic or without one, and takes the next one, so many times.
abbrev pub turns : {J : Type 0} → List Bool → List (Event J)
turns [] = []
turns (panicked ∷ more) = ends 0 panicked ∷ receives 0 ∷ turns more

abbrev pub pool_of : {J : Type 0} → List J → ℕ → List (Worker J) → ThreadPool J
pool_of js queue_capacity workers = record {
  queue = js;
  queue_capacity = queue_capacity;
  workers = workers;
}

-- If the first worker ends its job as often as there are jobs in the queue, it has taken all of them,
-- in their order, and the queue is empty, whichever of the jobs panic.
pub started-turns :
    {J : Type 0} (panics : List Bool) (js : List J) (queue_capacity : ℕ) (w : Worker J)
    (ws : List (Worker J))
    → length panics ≡ length js
    → (started (turns panics) (pool_of js queue_capacity (w ∷ ws)) ≡ js)
      × ((run (turns panics) (pool_of js queue_capacity (w ∷ ws))).queue ≡ [])
unfolding started started_by run step recv job_ends
started-turns [] [] queue_capacity w ws enough = (refl, refl)
started-turns [] (j ∷ js) queue_capacity w ws enough = absurd (omega arith)
started-turns (panicked ∷ more) [] queue_capacity w ws enough = absurd (omega arith)
started-turns (panicked ∷ more) (j ∷ js) queue_capacity w ws enough =
    let (in_order, emptied) = started-turns more js queue_capacity (running j) ws (omega arith) in
    (ap (λ ks. j ∷ ks) in_order, emptied)
