-- ===== src/ThreadPool.antt =====
-- src/threadpool.rs: the bounded channel and its workers. A worker holds the lock of the receiver
-- while it waits, so that a job goes to one worker; which one is a part of the event. A channel of
-- capacity 0 hands over without a buffer and is not modelled: src/server.rs makes none.
pub mod Order
pub mod Bounds
pub mod Progress
use ironbind.Prelude.{
  ℕ, zero, suc, Bool, true, false, Option, none, some, List, [], ◌∷◌, ◌++◌, ltb, if◌then◌else◌,
  length, get_elem?,
}
use mathlib.Core.Option

-- A worker waits in `recv`, or runs a job.
pub data Worker (J : Type 0) : Type 0 where
  waiting : Worker J
  running : J → Worker J

pub record ThreadPool (J : Type 0) : Type 0 where
  pub queue : List J
  pub queue_capacity : ℕ
  pub workers : List (Worker J)

unfoldable pub spawn : {J : Type 0} → ℕ → List (Worker J)
spawn zero = []
spawn (suc n) = waiting ∷ spawn n

abbrev pub set_worker : {J : Type 0} → ℕ → Worker J → List (Worker J) → List (Worker J)
set_worker id w [] = []
set_worker zero w (v ∷ vs) = w ∷ vs
set_worker (suc id) w (v ∷ vs) = v ∷ set_worker id w vs

abbrev pub idle : {J : Type 0} → Option (Worker J) → Bool
idle none = false
idle (some waiting) = true
idle (some (running j)) = false

-- What happens to a pool. A job ends with a panic or without one.
pub data Event (J : Type 0) : Type 0 where
  submits : J → Event J
  receives : ℕ → Event J
  ends : ℕ → Bool → Event J

module _ {J : Type 0} where
  unfoldable pub new : ℕ → ℕ → ThreadPool J
  unfolding spawn
  new workers queue_capacity = record {
    queue = [];
    queue_capacity = queue_capacity;
    workers = spawn workers;
  }

  -- `try_send`: the pool, and whether the job was queued.
  unfoldable pub submit : J → ThreadPool J → ThreadPool J × Bool
  submit f p =
      if ltb (length p.queue) p.queue_capacity
      then (record p { queue = p.queue ++ (f ∷ []) }, true)
      else (p, false)

  abbrev pub first_job : List J → ℕ → ThreadPool J → Option (J × ThreadPool J)
  first_job [] id p = none
  first_job (j ∷ js) id p =
      some (j, record p { queue = js; workers = set_worker id (running j) p.workers })

  -- `recv` of the worker `id`, where it waits and there is a job.
  unfoldable pub recv : ℕ → ThreadPool J → Option (J × ThreadPool J)
  recv id p = if idle (get_elem? p.workers id) then first_job p.queue id p else none

  -- The end of a job. A panic is caught, so that it ends as one that returns does.
  unfoldable pub job_ends : ℕ → ThreadPool J → ThreadPool J
  job_ends id p = record p { workers = set_worker id waiting p.workers }

  abbrev pub after_recv : ThreadPool J → Option (J × ThreadPool J) → ThreadPool J
  after_recv p none = p
  after_recv p (some (j, p')) = p'

  unfoldable pub step : Event J → ThreadPool J → ThreadPool J
  unfolding submit recv job_ends
  step (submits f) p = (submit f p).0
  step (receives id) p = after_recv p (recv id p)
  step (ends id panicked) p = job_ends id p

  unfoldable pub run : List (Event J) → ThreadPool J → ThreadPool J
  unfolding step
  run [] p = p
  run (e ∷ es) p = run es (step e p)
