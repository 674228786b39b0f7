-- ===== src/Server/System/Bounded.antt =====
-- src/server.rs: what the running program keeps within a bound.
use ironbind.Prelude.{
  ◌-◌, ◌||◌, leb, ℕ, zero, suc, ◌+◌, ◌*◌, false, Option, none, some, List, [], ◌∷◌, Result, ltb,
  ◌==◌, length, take, drop, Bool-cases, inl, inr,
}
use ironbind.Prelude.Text.{Bytes}
use ironbind.Prelude.Chars.{Chars}
use ironbind.Proto.Reader.{IoError}
use ironbind.Config.Network.{IpAddr}
use ironbind.Metrics.{record_tcp_query, record_dropped_connection}
use ironbind.RateLimit.{Float}
use ironbind.ThreadPool.{ThreadPool, submit, recv, after_recv}
use ironbind.ThreadPool.Bounds
use ironbind.ThreadPool.Bounds.{new-IsBounded, submit-IsBounded, recv-IsBounded, job_ends-IsBounded}
use ironbind.Zone.{Zone}
use ironbind.ZoneManager.Kept.{reload_all-IsKept}
use ironbind.Server.State.{Outside, note}
use ironbind.Server.Pools.{workers_of, recursion_places}
use ironbind.Server.Serve.{Serving, Moment, handle_tcp}
use ironbind.Server.Dot.{tls_loop, handle_tls_stream}
use ironbind.Server.Doh.{
  Request, dropped, panicked, status, message, http_request, answer_http, handle_http,
}
use ironbind.Server.Background.{
  resign_interval, Watcher, cache_eviction, reload_zones, reload_watcher,
}
use ironbind.Server.Held.{
  IsHeld, core-Held, if-Held, handle_query_public-Held, udp_receiver-Held, run_job-Held,
  tcp_loop-Held,
}
use ironbind.Server.System.{
  Connection, tcp, tls, https, System, Event, datagram, connects, resolves, serves, sweeps,
  hangs_up, watches, handle_connection, accept, serve_taken, step, run,
}

-- The pools with `worker_threads` from the configuration, and what a message can make grow.
pub record IsBounded {F W : Type 0} (worker_threads : ℕ) (sys : System F W) : Type 0 where
  pub held : IsHeld (workers_of worker_threads) (recursion_places worker_threads) sys.serving
  pub connections :
      Bounds.IsBounded (workers_of worker_threads) (workers_of worker_threads) sys.connection_pool

module _ {F W : Type 0} (float : Float F) (hash : Bytes → ℕ) (out : Outside W)
    (url_safe : Chars → Option Bytes) (worker_threads : ℕ) where
  abbrev workers : ℕ
  workers = workers_of worker_threads

  abbrev places : ℕ
  places = recursion_places worker_threads

  abbrev Held : Serving F W → Type 0
  Held = IsHeld workers places

  tls_loop-Held :
      (fuel : ℕ) (at : ℕ → Moment) (n : ℕ) (ip : IpAddr) (input : Bytes) (s : Serving F W)
      → Held s
      → Held (tls_loop float hash out fuel at n ip input s).1
  unfolding tls_loop
  tls_loop-Held zero at n ip input s h = h
  tls_loop-Held (suc fuel) at n ip [] s h = h
  tls_loop-Held (suc fuel) at n ip (hi ∷ []) s h = h
  tls_loop-Held (suc fuel) at n ip (hi ∷ lo ∷ rest) s h =
      let qlen = hi * 256 + lo in
      let counted = core-Held float hash out workers places (note record_tcp_query s.core) s h in
      let served =
        handle_query_public-Held float hash out workers places (at n) ip (take qlen rest) _
          counted in
      if-Held float hash out workers places (qlen == 0) ([], s) _ h
        (if-Held float hash out workers places (ltb (length rest) qlen) ([], s) _ h
          (tls_loop-Held fuel at (n + 1) ip (drop qlen rest) _ served))

  answer_http-Held :
      (r : Request) (at : Moment) (ip : IpAddr) (s : Serving F W)
      → Held s
      → Held (answer_http float hash out url_safe r at ip s).1
  answer_http-Held dropped at ip s h = h
  answer_http-Held panicked at ip s h = h
  answer_http-Held (status code reason) at ip s h = h
  answer_http-Held (message m) at ip s h =
      let counted = core-Held float hash out workers places (note record_tcp_query s.core) s h in
      handle_query_public-Held float hash out workers places at ip m _ counted

  handle_connection-Held :
      (at : ℕ → Moment) (c : Connection) (s : Serving F W)
      → Held s
      → Held (handle_connection float hash out url_safe at c s).1
  unfolding handle_connection handle_tcp handle_tls_stream handle_http
  handle_connection-Held at (tcp ip input) s h =
      tcp_loop-Held float hash out workers places (length input) at 0 ip input s h
  handle_connection-Held at (tls ip input) s h = tls_loop-Held (length input) at 0 ip input s h
  handle_connection-Held at (https ip input) s h =
      answer_http-Held (http_request url_safe input) (at 0) ip s h

  reload_watcher-Held :
      (read : Bytes → Bytes → Result Zone IoError) (now : ℕ) (w : Watcher) (s : Serving F W)
      → Held s
      → Held (reload_watcher read now w s).1
  unfolding reload_watcher reload_zones
  reload_watcher-Held read now w s h =
      let due = w.reload_signal || leb resign_interval (now - w.last_signed) in
      let reloaded : Held (reload_zones read s) = record {
        pool = h.pool;
        sources = h.sources;
        history = reload_all-IsKept read s.zone_manager h.history;
      } in
      if-Held float hash out workers places due
        (record { reload_signal = false; last_signed = now }, reload_zones read s)
        (record w { reload_signal = false }, s) reloaded h

  abbrev Bounded : System F W → Type 0
  Bounded = IsBounded worker_threads

  accept-Bounded :
      (c : Connection) (sys : System F W)
      → Bounded sys
      → Bounded (accept float hash out url_safe c sys)
  unfolding accept
  accept-Bounded c sys h =
      let kept = submit-IsBounded workers workers c sys.connection_pool h.connections in
      let counted =
        core-Held float hash out workers places (note record_dropped_connection sys.serving.core)
          sys.serving h.held in
      elim (Bool-cases (submit c sys.connection_pool).1) [
        | inl e ↦ rw (e, accept) (record { held = h.held; connections = kept })
        | inr e ↦ rw (e, accept) (record { held = counted; connections = kept })
      ]

  serve_taken-Bounded :
      (id : ℕ) (at : ℕ → Moment) (sys : System F W)
      (o : Option (Connection × ThreadPool Connection))
      → Bounded sys
      → Bounds.IsBounded workers workers (after_recv sys.connection_pool o)
      → Bounded (serve_taken float hash out url_safe id at sys o)
  serve_taken-Bounded id at sys none h k = h
  serve_taken-Bounded id at sys (some (c, pool)) h k = record {
    held = handle_connection-Held at c sys.serving h.held;
    connections = job_ends-IsBounded workers workers id pool k;
  }

  step-Bounded :
      (e : Event) (sys : System F W) → Bounded sys → Bounded (step float hash out url_safe e sys)
  unfolding step cache_eviction
  step-Bounded (datagram at ip bytes) sys h = record {
    held = udp_receiver-Held float hash out workers places at ip bytes sys.serving h.held;
    connections = h.connections;
  }
  step-Bounded (connects c) sys h = accept-Bounded c sys h
  step-Bounded (resolves id t) sys h = record {
    held = run_job-Held float hash out workers places id t sys.serving h.held;
    connections = h.connections;
  }
  step-Bounded (serves id at) sys h =
      serve_taken-Bounded id at sys (recv id sys.connection_pool) h
        (recv-IsBounded workers workers id sys.connection_pool h.connections)
  step-Bounded (sweeps now) sys h = record {
    held = core-Held float hash out workers places _ sys.serving h.held;
    connections = h.connections;
  }
  step-Bounded hangs_up sys h = record { held = h.held; connections = h.connections }
  step-Bounded (watches now read) sys h = record {
    held = reload_watcher-Held read now sys.watcher sys.serving h.held;
    connections = h.connections;
  }

  -- Whatever events follow one another, what was within its bounds stays there.
  pub run-IsBounded :
      (es : List Event) (sys : System F W)
      → IsBounded worker_threads sys
      → IsBounded worker_threads (run float hash out url_safe es sys)
  unfolding run
  run-IsBounded [] sys h = h
  run-IsBounded (e ∷ es) sys h =
      run-IsBounded es (step float hash out url_safe e sys) (step-Bounded e sys h)
