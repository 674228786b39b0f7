-- ===== src/Server/Held.antt =====
-- src/server.rs: the bounds that a message keeps.
use ironbind.Prelude.{
  ltb, ◌==◌, zero, ℕ, suc, ◌+◌, ◌*◌, Bool, true, false, Option, none, some, [], ◌∷◌, if◌then◌else◌,
  length, take, drop, Option-cases, Bool-cases, inl, inr,
}
use ironbind.Prelude.Text.{Bytes}
use ironbind.Config.Network.{IpAddr}
use ironbind.RateLimit.{Float, RateLimiter, check}
use ironbind.RateLimit.Table
use ironbind.RateLimit.Table.{check-IsBounded}
use ironbind.ThreadPool.Bounds
use ironbind.ThreadPool.Bounds.{submit-IsBounded, recv-IsBounded, job_ends-IsBounded}
use ironbind.ThreadPool.{ThreadPool, submit, recv, after_recv}
use ironbind.Server.Transfer.{maybe_zone_transfer}
use ironbind.Metrics.{record_udp_query, record_tcp_query}
use ironbind.ZoneManager.Kept.{IsKept}
use ironbind.Server.State.{
  Recursion, inline, defer, resume, Answer, ready, recursive, note, State, Outside, Times,
}
use ironbind.Server.Serve.{
  Job, note_core, admit_by, on_udp_answer, run_taken, Serving, Moment, admit, respond_to,
  handle_query_public, hand_off, udp_receiver, run_job, serve_message, tcp_loop, octets,
}

abbrev pub LimiterIsBounded : {F : Type 0} → Option (RateLimiter F) → Type 0
LimiterIsBounded none = Unit
LimiterIsBounded (some l) = Table.IsBounded l

-- The recursion pool, the tables of the rate limiter and the history of every zone.
pub record IsHeld {F W : Type 0} (workers places : ℕ) (s : Serving F W) : Type 0 where
  pub pool : Bounds.IsBounded workers places s.recursion_pool
  pub sources : LimiterIsBounded s.rate_limiter
  pub history : IsKept s.zone_manager

module _ {F W : Type 0} (float : Float F) (hash : Bytes → ℕ) (out : Outside W)
    (workers places : ℕ) where
  abbrev Held : Serving F W → Type 0
  Held = IsHeld workers places

  pub core-Held : (core : State W) (s : Serving F W) → Held s → Held (record s { core = core })
  core-Held core s h = record { pool = h.pool; sources = h.sources; history = h.history }

  pub if-Held :
      {A : Type 0} (b : Bool) (x y : A × Serving F W)
      → Held x.1
      → Held y.1
      → Held (if b then x else y).1
  if-Held true x y h k = h
  if-Held false x y h k = k

  admit_by-Held :
      (instant : ℕ) (ip : IpAddr) (s : Serving F W) (l : Option (RateLimiter F))
      → Held s
      → LimiterIsBounded l
      → Held (admit_by float hash out instant ip s l).0
  admit_by-Held instant ip s none h k = h
  admit_by-Held instant ip s (some l) h k =
      let (l', allowed) = check float hash instant (octets ip) l in
      elim (Bool-cases allowed) [
        | inl e ↦ rw e (checked-Held l' (check-IsBounded float hash instant (octets ip) l k))
        | inr e ↦
            rw e
              (core-Held _ _ (checked-Held l' (check-IsBounded float hash instant (octets ip) l k)))
      ]
    where
      checked-Held :
          (l' : RateLimiter F) → Table.IsBounded l' → Held (record s { rate_limiter = some l' })
      checked-Held l' b = record { pool = h.pool; sources = b; history = h.history }

  admit-Held :
      (instant : ℕ) (ip : IpAddr) (s : Serving F W)
      → Held s
      → Held (admit float hash out instant ip s).0
  unfolding admit
  admit-Held instant ip s h = admit_by-Held instant ip s s.rate_limiter h h.sources

  respond_to-Held :
      (t : Times) (how : Recursion) (ip : IpAddr) (data_bytes : Bytes) (s : Serving F W)
      → Held s
      → Held (respond_to float hash out t how ip data_bytes s).1
  unfolding respond_to
  respond_to-Held t how ip data_bytes s h = core-Held _ s h

  pub handle_query_public-Held :
      (at : Moment) (ip : IpAddr) (data_bytes : Bytes) (s : Serving F W)
      → Held s
      → Held (handle_query_public float hash out at ip data_bytes s).1
  unfolding handle_query_public
  handle_query_public-Held at ip data_bytes s h =
      let s1 = (admit float hash out at.instant ip s).0 in
      let k = admit-Held at.instant ip s h in
      if-Held (admit float hash out at.instant ip s).1 _ (none, s1)
        (respond_to-Held at.times inline ip data_bytes s1 k) k

  hand_off-Held :
      (data_bytes : Bytes) (ip : IpAddr) (s : Serving F W)
      → Held s
      → Held (hand_off float hash out data_bytes ip s)
  unfolding hand_off
  hand_off-Held data_bytes ip s h =
      let (pool, queued) = submit (data_bytes, ip) s.recursion_pool in
      let s1 = record s { recursion_pool = pool } in
      let k : Held s1 = record {
        pool = submit-IsBounded workers places (data_bytes, ip) s.recursion_pool h.pool;
        sources = h.sources;
        history = h.history;
      } in
      elim (Bool-cases queued) [ inl e ↦ rw e k | inr e ↦ rw e (core-Held _ s1 k) ]

  on_udp_answer-Held :
      (data_bytes : Bytes) (ip : IpAddr) (a : Answer) (s : Serving F W)
      → Held s
      → Held (on_udp_answer float hash out data_bytes ip a s).1
  on_udp_answer-Held data_bytes ip (ready none) s h = h
  on_udp_answer-Held data_bytes ip (ready (some resp)) s h = h
  on_udp_answer-Held data_bytes ip recursive s h = hand_off-Held data_bytes ip s h

  pub udp_receiver-Held :
      (at : Moment) (ip : IpAddr) (datagram : Bytes) (s : Serving F W)
      → Held s
      → Held (udp_receiver float hash out at ip datagram s).1
  unfolding udp_receiver
  udp_receiver-Held at ip datagram s h =
      let s1 = (admit float hash out at.instant ip s).0 in
      let k = admit-Held at.instant ip s h in
      let counted = core-Held (note record_udp_query s1.core) s1 k in
      let answered = respond_to-Held at.times defer ip (take 4096 datagram) _ counted in
      if-Held (admit float hash out at.instant ip s).1 _ (none, s1)
        (on_udp_answer-Held (take 4096 datagram) ip _ _ answered) k

  pub run_job-Held :
      (id : ℕ) (t : Times) (s : Serving F W) → Held s → Held (run_job float hash out id t s).1
  unfolding run_job
  run_job-Held id t s h =
      taken-Held (recv id s.recursion_pool)
        (recv-IsBounded workers places id s.recursion_pool h.pool)
    where
      taken-Held :
          (o : Option (Job × ThreadPool Job))
          → Bounds.IsBounded workers places (after_recv s.recursion_pool o)
          → Held (run_taken float hash out id t s o).1
      taken-Held none k = h
      taken-Held (some ((data_bytes, ip), pool)) k =
          let s1 =
            respond_to-Held t resume ip data_bytes (record s { recursion_pool = pool })
              (record { pool = k; sources = h.sources; history = h.history }) in
          record {
            pool = job_ends-IsBounded workers places id _ s1.pool;
            sources = s1.sources;
            history = s1.history;
          }

  serve_message-Held :
      (at : Moment) (ip : IpAddr) (data_bytes : Bytes) (s : Serving F W)
      → Held s
      → Held (serve_message float hash out at ip data_bytes s).1
  unfolding serve_message
  serve_message-Held at ip data_bytes s h =
      let s1 = note_core (note record_tcp_query) s in
      let k = core-Held (note record_tcp_query s.core) s h in
      let transfer =
        maybe_zone_transfer out.hmac at.times.clock data_bytes s.core.zones s.zone_manager
          s.core.tsig_keys in
      elim (Option-cases transfer) [
        | inl e ↦ rw (e, serve_message) (handle_query_public-Held at ip data_bytes s1 k)
        | inr (packets, e) ↦ rw (e, serve_message) k
      ]

  pub tcp_loop-Held :
      (fuel : ℕ) (at : ℕ → Moment) (n : ℕ) (ip : IpAddr) (input : Bytes) (s : Serving F W)
      → Held s
      → Held (tcp_loop float hash out fuel at n ip input s).1
  unfolding tcp_loop
  tcp_loop-Held zero at n ip input s h = h
  tcp_loop-Held (suc fuel) at n ip [] s h = h
  tcp_loop-Held (suc fuel) at n ip (hi ∷ []) s h = h
  tcp_loop-Held (suc fuel) at n ip (hi ∷ lo ∷ rest) s h =
      let qlen = hi * 256 + lo in
      let served = serve_message-Held (at n) ip (take qlen rest) s h in
      if-Held (qlen == 0) ([], s) _ h
        (if-Held (ltb (length rest) qlen) ([], s) _ h
          (tcp_loop-Held fuel at (n + 1) ip (drop qlen rest) _ served))
