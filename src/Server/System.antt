-- ===== src/Server/System.antt =====
-- src/server.rs: the running program, as the events that reach it. One event is one turn of a loop, or
-- one job of a pool; the state that they share is locked for each call.
pub mod Bounded
pub mod Started
use ironbind.Prelude.{
  ℕ, Bool, true, false, Option, none, some, List, [], ◌∷◌, Result, if◌then◌else◌,
}
use ironbind.Prelude.Text.{Bytes}
use ironbind.Prelude.Chars.{Chars}
use ironbind.Proto.Reader.{IoError}
use ironbind.Config.Network.{IpAddr}
use ironbind.Metrics.{record_dropped_connection}
use ironbind.RateLimit.{Float}
use ironbind.ThreadPool.{ThreadPool, submit, recv, job_ends}
use ironbind.Zone.{Zone}
use ironbind.Server.State.{Outside, Times, note}
use ironbind.Server.Pools.{connection_pool_of}
use ironbind.Server.Serve.{Serving, Moment, note_core, udp_receiver, run_job, handle_tcp}
use ironbind.Server.Dot.{handle_tls_stream}
use ironbind.Server.Doh.{Input, handle_http}
use ironbind.Server.Background.{Watcher, handle_sighup, reload_watcher, cache_eviction}

-- A connection, with what its peer sends.
pub data Connection : Type 0 where
  tcp tls : IpAddr → Bytes → Connection
  https : IpAddr → Input → Connection

pub record System (F W : Type 0) : Type 0 where
  pub serving : Serving F W
  pub connection_pool : ThreadPool Connection
  pub watcher : Watcher

-- A datagram comes, or a connection; a worker takes a job of its pool and runs it; the cache is swept;
-- SIGHUP comes; the watcher wakes up, with what reading the zone files gives.
pub data Event : Type 0 where
  datagram : Moment → IpAddr → Bytes → Event
  connects : Connection → Event
  resolves : ℕ → Times → Event
  serves : ℕ → (ℕ → Moment) → Event
  sweeps : ℕ → Event
  hangs_up : Event
  watches : ℕ → (Bytes → Bytes → Result Zone IoError) → Event

-- The system that `run` starts from: `main` has made the state.
unfoldable pub start : {F W : Type 0} → ℕ → ℕ → Serving F W → System F W
unfolding connection_pool_of
start worker_threads now s = record {
  serving = s;
  connection_pool = connection_pool_of worker_threads;
  watcher = record { reload_signal = false; last_signed = now };
}

module _ {F W : Type 0} (float : Float F) (hash : Bytes → ℕ) (out : Outside W)
    (url_safe : Chars → Option Bytes) where
  -- The job of a connection.
  unfoldable pub handle_connection : (ℕ → Moment) → Connection → Serving F W → Bytes × Serving F W
  unfolding handle_tcp handle_tls_stream handle_http
  handle_connection at (tcp ip input) s = handle_tcp float hash out at ip input s
  handle_connection at (tls ip input) s = handle_tls_stream float hash out at ip input s
  handle_connection at (https ip input) s = handle_http float hash out url_safe (at 0) ip input s

  -- A connection that finds no place in the pool is closed.
  unfoldable pub accept : Connection → System F W → System F W
  unfolding submit
  accept c sys =
      let (pool, accepted) = submit c sys.connection_pool in
      let sys1 = record sys { connection_pool = pool } in
      if accepted
      then sys1
      else record sys1 { serving = note_core (note record_dropped_connection) sys.serving }

  abbrev pub serve_taken :
      ℕ → (ℕ → Moment) → System F W → Option (Connection × ThreadPool Connection) → System F W
  serve_taken id at sys none = sys
  serve_taken id at sys (some (c, pool)) = record sys {
    serving = (handle_connection at c sys.serving).1;
    connection_pool = job_ends id pool;
  }

  unfoldable pub step : Event → System F W → System F W
  unfolding udp_receiver accept run_job recv job_ends handle_connection cache_eviction handle_sighup
      reload_watcher
  step (datagram at ip bytes) sys = record sys {
    serving = (udp_receiver float hash out at ip bytes sys.serving).1;
  }
  step (connects c) sys = accept c sys
  step (resolves id t) sys = record sys { serving = (run_job float hash out id t sys.serving).1 }
  step (serves id at) sys = serve_taken id at sys (recv id sys.connection_pool)
  step (sweeps now) sys = record sys { serving = cache_eviction now sys.serving }
  step hangs_up sys = record sys { watcher = handle_sighup sys.watcher }
  step (watches now read) sys =
      let (w, s) = reload_watcher read now sys.watcher sys.serving in
      record sys { serving = s; watcher = w }

  unfoldable pub run : List Event → System F W → System F W
  unfolding step
  run [] sys = sys
  run (e ∷ es) sys = run es (step e sys)
