-- ===== src/Server/Pools.antt =====
-- src/server.rs: the pools that `run` makes.
use ironbind.Prelude.{ℕ, ◌*◌, ◌%◌, ◌^◌, max}
use ironbind.ThreadPool
use ironbind.ThreadPool.{ThreadPool}

abbrev recursion_queue_per_worker : ℕ
recursion_queue_per_worker = 16

abbrev pub workers_of : ℕ → ℕ
workers_of worker_threads = max worker_threads 1

-- The product is a `usize`.
abbrev pub recursion_places : ℕ → ℕ
recursion_places worker_threads = workers_of worker_threads * recursion_queue_per_worker % 2 ^ 64

unfoldable pub recursion_pool_of : {J : Type 0} → ℕ → ThreadPool J
recursion_pool_of worker_threads =
    ThreadPool.new (workers_of worker_threads) (recursion_places worker_threads)

unfoldable pub connection_pool_of : {J : Type 0} → ℕ → ThreadPool J
connection_pool_of worker_threads =
    ThreadPool.new (workers_of worker_threads) (workers_of worker_threads)
