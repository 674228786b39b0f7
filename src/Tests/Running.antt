-- ===== src/Tests/Running.antt =====
-- The program over a few events, a pool with a job that panics, and a supervisor.
use ironbind.Prelude.{ℕ, ◌*◌, ◌≡◌, refl, true, false, none, List, [], ◌∷◌, ◌++◌, err}
use ironbind.Proto.Reader.{out_of_fuel}
use ironbind.Config.Network.{v4}
use ironbind.Config.Load.{default_config}
use ironbind.ThreadPool
use ironbind.ThreadPool.{ThreadPool, waiting, submit, recv, job_ends, submits, receives, ends}
use ironbind.ThreadPool.Order.{accepted, started, run-order}
use ironbind.ThreadPool.Progress.{pool_of, turns, started-turns}
use ironbind.Server.Startup.{main_state}
use ironbind.Server.Supervisor.{run_supervised, backoffs, second, run_supervised-backoffs}
use ironbind.Server.System.{
  Event, datagram, connects, resolves, serves, sweeps, hangs_up, watches, tcp, tls, start, run,
}
use ironbind.Server.System.Bounded.{IsBounded}
use ironbind.Server.System.Started.{run-start-IsBounded}
use ironbind.Tests.Queries.{whole}
use ironbind.Tests.Serving.{outside, times}
use ironbind.Tests.Streams.{query, at, url_safe}

-- One worker and one place: the second job is dropped where the first one waits.
abbrev history : List (ThreadPool.Event ℕ)
history = submits 1 ∷ submits 2 ∷ receives 0 ∷ submits 3 ∷ ends 0 true ∷ receives 0 ∷ submits 4 ∷ []

dropped_second : accepted history (ThreadPool.new 1 1) ≡ 1 ∷ 3 ∷ 4 ∷ []
unfolding accepted ThreadPool.new ThreadPool.step submit recv job_ends
dropped_second = refl

run-order_example :
    [] ++ accepted history (ThreadPool.new 1 1)
    ≡ started history (ThreadPool.new 1 1) ++ (ThreadPool.run history (ThreadPool.new 1 1)).queue
unfolding ThreadPool.new
run-order_example = run-order history (ThreadPool.new 1 1)

abbrev waiting_jobs : List ℕ
waiting_jobs = 5 ∷ 6 ∷ []

started-turns_example :
    (started (turns (true ∷ false ∷ [])) (pool_of waiting_jobs 2 (waiting ∷ [])) ≡ waiting_jobs)
    × ((ThreadPool.run (turns (true ∷ false ∷ [])) (pool_of waiting_jobs 2 (waiting ∷ []))).queue
        ≡ [])
started-turns_example = started-turns (true ∷ false ∷ []) waiting_jobs 2 waiting [] refl

-- Two quick ends, an hour of service, and a quick end.
run_supervised-backoffs_example :
    run_supervised (0 ∷ second ∷ 3600 * second ∷ 0 ∷ [])
    ≡ backoffs 0 (0 ∷ second ∷ 3600 * second ∷ 0 ∷ [])
run_supervised-backoffs_example = run_supervised-backoffs (0 ∷ second ∷ 3600 * second ∷ 0 ∷ [])

abbrev events : List Event
events =
    datagram (at 0) (v4 1) query
    ∷ connects (tcp (v4 2) query)
    ∷ connects (tls (v4 2) query)
    ∷ serves 0 at
    ∷ resolves 0 times
    ∷ hangs_up
    ∷ watches 5 (λ origin path. err out_of_fuel)
    ∷ sweeps 9
    ∷ []

run-start-IsBounded_example : IsBounded default_config.worker_threads (
    run whole
      (λ ip. 0)
      outside
      url_safe
      events
      (start default_config.worker_threads 0
        (main_state whole (λ origin path. err out_of_fuel) (λ key. none) none 0 0 default_config)))
run-start-IsBounded_example =
    run-start-IsBounded whole (λ ip. 0) outside url_safe (λ origin path. err out_of_fuel)
      (λ key. none) none 0 0 default_config events
