-- ===== src/Server/Serve.antt =====
-- src/server.rs: how messages reach `handle_query`: `admit`, `respond`, the datagrams of
-- `udp_receiver` with the jobs of the recursion pool, and the connections of `handle_tcp`. A peer is
-- taken to read what is written to it.
use ironbind.Prelude.{
  ℕ, suc, ◌+◌, ◌*◌, ◌/◌, ◌%◌, ◌^◌, Bool, true, false, Option, none, some, List, [], ◌∷◌, ◌++◌, ltb,
  ◌==◌, if◌then◌else◌, length, take, drop,
}
use ironbind.Prelude.Text.{Bytes}
use ironbind.Proto.Builder.{be16, be32}
use ironbind.Config.Network.{IpAddr, v4, v6}
use ironbind.RateLimit.{Float, RateLimiter, check}
use ironbind.ThreadPool.{ThreadPool, submit, recv, job_ends}
use ironbind.ZoneManager.{ZoneManager}
use ironbind.Server.Responses.{udp_payload}
use ironbind.Metrics.{
  record_udp_query, record_tcp_query, record_dropped_rate_limited, record_dropped_recursion_limit,
}
use ironbind.Server.State.{
  Recursion, inline, defer, resume, Answer, ready, recursive, State, Outside, Times, note,
}
use ironbind.Server.Query.{handle_query}
use ironbind.Server.Transfer.{maybe_zone_transfer, maybe_sign_response}

-- A query that was handed off: the datagram and who sent it.
abbrev pub Job : Type 0
Job = Bytes × IpAddr

-- The shared state with what only the receivers use.
pub record Serving (F W : Type 0) : Type 0 where
  pub core : State W
  pub rate_limiter : Option (RateLimiter F)
  pub zone_manager : ZoneManager
  pub recursion_pool : ThreadPool Job

-- When a message is handled: the times of the query, and the instant of the rate limiter.
pub record Moment : Type 0 where
  pub times : Times
  pub instant : ℕ

abbrev pub octets : IpAddr → Bytes
octets (v4 a) = be32 a
octets (v6 a) = be32 (a / 2 ^ 96) ++ (be32 (a / 2 ^ 64) ++ (be32 (a / 2 ^ 32) ++ be32 a))

-- A message on a stream: its length in two bytes, and the message.
unfoldable pub frame : Bytes → Bytes
frame m = be16 (length m % 2 ^ 16) ++ m

unfoldable pub frames : List Bytes → Bytes
unfolding frame
frames [] = []
frames (m ∷ ms) = frame m ++ frames ms

abbrev pub framed : Option Bytes → Bytes
framed none = []
framed (some m) = frame m

abbrev pub note_core : {F W : Type 0} → (State W → State W) → Serving F W → Serving F W
note_core f s = record s { core = f s.core }

module _ {F W : Type 0} (float : Float F) (hash : Bytes → ℕ) (out : Outside W) where
  abbrev pub admit_by : ℕ → IpAddr → Serving F W → Option (RateLimiter F) → Serving F W × Bool
  admit_by instant ip s none = (s, true)
  admit_by instant ip s (some l) =
      let (l', allowed) = check float hash instant (octets ip) l in
      let s' = record s { rate_limiter = some l' } in
      if allowed then (s', true) else (note_core (note record_dropped_rate_limited) s', false)

  unfoldable pub admit : ℕ → IpAddr → Serving F W → Serving F W × Bool
  admit instant ip s = admit_by instant ip s s.rate_limiter

  abbrev sign_answer : ℕ → Bytes → State W → Answer → Answer
  sign_answer clock data_bytes st (ready (some resp)) =
      ready (some (maybe_sign_response out.hmac clock data_bytes resp st.tsig_keys))
  sign_answer clock data_bytes st (ready none) = ready none
  sign_answer clock data_bytes st recursive = recursive

  -- `respond`, and `answer_catching_panics` around it.
  unfoldable pub respond_to :
      Times → Recursion → IpAddr → Bytes → Serving F W → Answer × Serving F W
  respond_to t how ip data_bytes s =
      let (answer, st) = handle_query out t how ip data_bytes s.core in
      (sign_answer t.clock data_bytes st answer, record s { core = st })

  abbrev sent_inline : Answer → Option Bytes
  sent_inline (ready r) = r
  sent_inline recursive = none

  unfoldable pub handle_query_public :
      Moment → IpAddr → Bytes → Serving F W → Option Bytes × Serving F W
  unfolding admit respond_to
  handle_query_public at ip data_bytes s =
      let (s1, admitted) = admit at.instant ip s in
      let (answer, s2) = respond_to at.times inline ip data_bytes s1 in
      if admitted then (sent_inline answer, s2) else (none, s1)

  -- The hand-off to the recursion pool, which drops the query where the queue is full.
  unfoldable pub hand_off : Bytes → IpAddr → Serving F W → Serving F W
  unfolding submit
  hand_off data_bytes ip s =
      let (pool, queued) = submit (data_bytes, ip) s.recursion_pool in
      let s1 = record s { recursion_pool = pool } in
      if queued then s1 else note_core (note record_dropped_recursion_limit) s1

  abbrev pub on_udp_answer : Bytes → IpAddr → Answer → Serving F W → Option Bytes × Serving F W
  on_udp_answer data_bytes ip (ready none) s = (none, s)
  on_udp_answer data_bytes ip (ready (some resp)) s = (some (udp_payload data_bytes resp), s)
  on_udp_answer data_bytes ip recursive s = (none, hand_off data_bytes ip s)

  -- One turn of `udp_receiver`: the buffer holds 4096 bytes of a datagram. What is sent goes to `ip`.
  unfoldable pub udp_receiver : Moment → IpAddr → Bytes → Serving F W → Option Bytes × Serving F W
  unfolding admit respond_to hand_off udp_payload
  udp_receiver at ip datagram s =
      let data_bytes = take 4096 datagram in
      let (s1, admitted) = admit at.instant ip s in
      let (answer, s2) =
        respond_to at.times defer ip data_bytes (note_core (note record_udp_query) s1) in
      if admitted then on_udp_answer data_bytes ip answer s2 else (none, s1)

  abbrev on_resumed : Bytes → IpAddr → Answer → Option Job
  on_resumed data_bytes ip (ready (some resp)) = some (udp_payload data_bytes resp, ip)
  on_resumed data_bytes ip (ready none) = none
  on_resumed data_bytes ip recursive = none

  abbrev pub run_taken :
      ℕ → Times → Serving F W → Option (Job × ThreadPool Job) → Option Job × Serving F W
  run_taken id t s none = (none, s)
  run_taken id t s (some ((data_bytes, ip), pool)) =
      let (answer, s1) = respond_to t resume ip data_bytes (record s { recursion_pool = pool }) in
      (
        on_resumed data_bytes ip answer,
        record s1 { recursion_pool = job_ends id s1.recursion_pool },
      )

  -- The worker `id` of the recursion pool takes the next job and runs it. What is sent, and to whom.
  unfoldable pub run_job : ℕ → Times → Serving F W → Option Job × Serving F W
  unfolding respond_to recv job_ends
  run_job id t s = run_taken id t s (recv id s.recursion_pool)

  -- One message of a connection: a transfer, or the answer to a query.
  unfoldable pub serve_message : Moment → IpAddr → Bytes → Serving F W → Bytes × Serving F W
  unfolding handle_query_public frames
  serve_message at ip data_bytes s =
      let s1 = note_core (note record_tcp_query) s in
      let (answer, s2) = handle_query_public at ip data_bytes s1 in
      elim (maybe_zone_transfer out.hmac at.times.clock data_bytes s.core.zones s.zone_manager
        s.core.tsig_keys) [ some packets ↦ (frames packets, s1) | none ↦ (framed answer, s2) ]

  -- The loop of `handle_tcp` from message `n` on: it ends where the next message is not there in full,
  -- or has no bytes. What the peer is sent, and the state.
  unfoldable pub tcp_loop :
      ℕ → (ℕ → Moment) → ℕ → IpAddr → Bytes → Serving F W → Bytes × Serving F W
  unfolding serve_message
  tcp_loop (suc fuel) at n ip (hi ∷ lo ∷ rest) s =
      let qlen = hi * 256 + lo in
      let (sent, s1) = serve_message (at n) ip (take qlen rest) s in
      let (more, s2) = tcp_loop fuel at (n + 1) ip (drop qlen rest) s1 in
      if qlen == 0 then ([], s) else if ltb (length rest) qlen then ([], s) else (sent ++ more, s2)
  tcp_loop fuel at n ip input s = ([], s)

  -- A message takes two bytes or more, so that there are fewer of them than bytes.
  unfoldable pub handle_tcp : (ℕ → Moment) → IpAddr → Bytes → Serving F W → Bytes × Serving F W
  unfolding tcp_loop
  handle_tcp at ip input s = tcp_loop (length input) at 0 ip input s
