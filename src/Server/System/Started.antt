-- ===== src/Server/System/Started.antt =====
-- src/main.rs, src/server.rs: the program from its start on.
use ironbind.Prelude.{ℕ, zero, suc, Option, none, some, List, [], ◌∷◌, Result, All, arith}
use mathlib.Core.Option
use ironbind.Prelude.Text.{Bytes}
use ironbind.Prelude.Chars.{Chars, as_bytes}
use ironbind.Proto.Reader.{IoError}
use ironbind.Config.Load.{ServerConfig, TsigSecretSource, RateLimitConfig}
use ironbind.RateLimit
use ironbind.RateLimit.{Float, RateLimiter, fresh_shards, shard_count}
use ironbind.RateLimit.Table
use ironbind.RateLimit.Table.{IsSmall}
use ironbind.ThreadPool.Bounds.{new-IsBounded}
use ironbind.Zone.{Zone}
use ironbind.ZoneManager.{ZoneManager, load_zone}
use ironbind.ZoneManager
use ironbind.ZoneManager.Kept.{IsKept, new-IsKept, load_zone-IsKept}
use ironbind.Server.State.{Outside}
use ironbind.Server.Pools.{workers_of, recursion_places, recursion_pool_of, connection_pool_of}
use ironbind.Server.Startup.{origin_of, load_all, limiter_of, main_state}
use ironbind.Server.Held.{LimiterIsBounded, IsHeld}
use ironbind.Server.System.{Event, start, run}
use ironbind.Server.System.Bounded.{IsBounded, run-IsBounded}

load_all-IsKept :
    (read : Bytes → Bytes → Result Zone IoError) (paths : List Chars) (m : ZoneManager)
    → IsKept m
    → IsKept (load_all read paths m)
unfolding load_all
load_all-IsKept read [] m h = h
load_all-IsKept read (path ∷ paths) m h =
    let origin = origin_of path in
    let file = as_bytes path in
    load_all-IsKept read paths (load_zone origin file (read origin file) m).0
      (load_zone-IsKept origin file (read origin file) m h)

fresh_shards-IsSmall :
    (F : Type 0) (most now n : ℕ) → All (IsSmall {F = F} most) (fresh_shards now n)
unfolding fresh_shards
fresh_shards-IsSmall F most now zero = tt
fresh_shards-IsSmall F most now (suc n) = (omega arith, fresh_shards-IsSmall F most now n)

limiter_of-IsBounded :
    {F : Type 0} (float : Float F) (instant : ℕ) (rl : Option RateLimitConfig)
    → LimiterIsBounded (Option.map (limiter_of float instant) rl)
unfolding RateLimit.new Table.IsBounded
limiter_of-IsBounded float instant none = tt
limiter_of-IsBounded {F} float instant (some rl) = fresh_shards-IsSmall F _ instant shard_count

module _ {F W : Type 0} (float : Float F) where
  main_state-IsHeld :
      (read : Bytes → Bytes → Result Zone IoError) (resolve : TsigSecretSource → Option Bytes)
      (conf : Option Chars) (instant : ℕ) (world : W) (cfg : ServerConfig)
      → IsHeld
          (workers_of cfg.worker_threads)
          (recursion_places cfg.worker_threads)
          (main_state float read resolve conf instant world cfg)
  unfolding main_state recursion_pool_of
  main_state-IsHeld read resolve conf instant world cfg = record {
    pool = new-IsBounded (workers_of cfg.worker_threads) (recursion_places cfg.worker_threads);
    sources = limiter_of-IsBounded float instant cfg.rate_limit;
    history = load_all-IsKept read cfg.zone_files ZoneManager.new new-IsKept;
  }

  -- From the state that `main` makes of a configuration, whatever datagrams, connections, jobs, sweeps,
  -- signals and reloads follow one another: the recursion pool holds at most 16 jobs per worker in its
  -- queue and the connection pool one, no worker is added, no table of the rate limiter has more
  -- sources than the limiter allows for it, and no zone has a history of more than 32 deltas.
  pub run-start-IsBounded :
      (hash : Bytes → ℕ) (out : Outside W) (url_safe : Chars → Option Bytes)
      (read : Bytes → Bytes → Result Zone IoError) (resolve : TsigSecretSource → Option Bytes)
      (conf : Option Chars) (instant : ℕ) (world : W) (cfg : ServerConfig) (es : List Event)
      → IsBounded cfg.worker_threads (
          run float hash out url_safe es (
            start cfg.worker_threads instant
              (main_state float read resolve conf instant world cfg)))
  unfolding start connection_pool_of
  run-start-IsBounded hash out url_safe read resolve conf instant world cfg es =
      run-IsBounded float hash out url_safe cfg.worker_threads es _ (record {
        held = main_state-IsHeld read resolve conf instant world cfg;
        connections = new-IsBounded (workers_of cfg.worker_threads) (workers_of cfg.worker_threads);
      })
