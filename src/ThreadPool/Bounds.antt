-- ===== src/ThreadPool/Bounds.antt =====
-- src/threadpool.rs: how many jobs a pool holds.
use ironbind.Prelude.{
  ℕ, zero, suc, ◌+◌, ◌≤◌, ◌≡◌, refl, ap, ◌∙◌, List, [], ◌∷◌, arith, ltb, length, get_elem?,
  length-append, Bool-cases, inl, inr,
}
use ironbind.ThreadPool.{
  ThreadPool, Worker, waiting, running, new, spawn, submit, first_job, recv, job_ends, set_worker,
  idle, after_recv, Event, submits, receives, ends, step, run,
}

-- The workers that run a job.
abbrev busy : {J : Type 0} → List (Worker J) → ℕ
busy [] = 0
busy (waiting ∷ ws) = busy ws
busy (running j ∷ ws) = suc (busy ws)

-- The jobs that a pool holds: those that wait, and those that run.
abbrev held : {J : Type 0} → ThreadPool J → ℕ
held p = length p.queue + busy p.workers

pub record IsBounded {J : Type 0} (workers queue_capacity : ℕ) (p : ThreadPool J) : Type 0 where
  pub capacity : p.queue_capacity ≡ queue_capacity
  pub count : length p.workers ≡ workers
  pub fits : length p.queue ≤ queue_capacity

length-spawn : (J : Type 0) (n : ℕ) → length (spawn {J = J} n) ≡ n
unfolding spawn
length-spawn J zero = refl
length-spawn J (suc n) = omega (arith, length-spawn J n)

module _ {J : Type 0} where
  length-set_worker :
      (id : ℕ) (w : Worker J) (ws : List (Worker J)) → length (set_worker id w ws) ≡ length ws
  length-set_worker id w [] = refl
  length-set_worker zero w (v ∷ vs) = refl
  length-set_worker (suc id) w (v ∷ vs) = omega (arith, length-set_worker id w vs)

  busy-le : (ws : List (Worker J)) → busy ws ≤ length ws
  busy-le [] = omega arith
  busy-le (waiting ∷ ws) = omega (arith, busy-le ws)
  busy-le (running j ∷ ws) = omega (arith, busy-le ws)

module _ {J : Type 0} (workers queue_capacity : ℕ) where
  pub new-IsBounded : IsBounded workers queue_capacity (new {J = J} workers queue_capacity)
  unfolding new
  new-IsBounded = record { capacity = refl; count = length-spawn _ workers; fits = omega arith }

  pub submit-IsBounded :
      (f : J) (p : ThreadPool J)
      → IsBounded workers queue_capacity p
      → IsBounded workers queue_capacity (submit f p).0
  unfolding submit
  submit-IsBounded f p h = elim (Bool-cases (ltb (length p.queue) p.queue_capacity)) [
    | inl room ↦ rw room (record {
      capacity = h.capacity;
      count = h.count;
      fits = ground (arith, length-append p.queue (f ∷ []), h.capacity);
    })
    | inr full ↦ rw full h
  ]

  first_job-IsBounded :
      (js : List J) (id : ℕ) (p : ThreadPool J)
      → p.queue ≡ js
      → IsBounded workers queue_capacity p
      → IsBounded workers queue_capacity (after_recv p (first_job js id p))
  first_job-IsBounded [] id p e h = h
  first_job-IsBounded (j ∷ js) id p e h = record {
    capacity = h.capacity;
    count = length-set_worker id (running j) p.workers ∙ h.count;
    fits = let size = ap length e in omega (arith, h.fits);
  }

  pub recv-IsBounded :
      (id : ℕ) (p : ThreadPool J)
      → IsBounded workers queue_capacity p
      → IsBounded workers queue_capacity (after_recv p (recv id p))
  unfolding recv
  recv-IsBounded id p h = elim (Bool-cases (idle (get_elem? p.workers id))) [
    | inl free ↦ rw free (first_job-IsBounded p.queue id p refl h)
    | inr taken ↦ rw taken h
  ]

  pub job_ends-IsBounded :
      (id : ℕ) (p : ThreadPool J)
      → IsBounded workers queue_capacity p
      → IsBounded workers queue_capacity (job_ends id p)
  unfolding job_ends
  job_ends-IsBounded id p h = record {
    capacity = h.capacity;
    count = length-set_worker id waiting p.workers ∙ h.count;
    fits = h.fits;
  }

  step-IsBounded :
      (e : Event J) (p : ThreadPool J)
      → IsBounded workers queue_capacity p
      → IsBounded workers queue_capacity (step e p)
  unfolding step
  step-IsBounded (submits f) p h = submit-IsBounded f p h
  step-IsBounded (receives id) p h = recv-IsBounded id p h
  step-IsBounded (ends id panicked) p h = job_ends-IsBounded id p h

  run-IsBounded :
      (es : List (Event J)) (p : ThreadPool J)
      → IsBounded workers queue_capacity p
      → IsBounded workers queue_capacity (run es p)
  unfolding run
  run-IsBounded [] p h = h
  run-IsBounded (e ∷ es) p h = run-IsBounded es (step e p) (step-IsBounded e p h)

  -- Whatever is submitted, received and ended, a pool holds at most as many jobs as it has workers and
  -- places in its queue together.
  run-new-held :
      (es : List (Event J)) → held (run es (new workers queue_capacity)) ≤ workers + queue_capacity
  run-new-held es =
      let p = run es (new {J = J} workers queue_capacity) in
      let h = run-IsBounded es (new workers queue_capacity) new-IsBounded in
      omega (arith, h.fits, h.count, busy-le p.workers)
