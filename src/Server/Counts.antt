-- ===== src/Server/Counts.antt =====
-- src/server.rs, src/metrics.rs: what a query adds to the counters of queries and of cache lookups.
use ironbind.Prelude.{
  ◌≡◌, refl, true, not, ◌&&◌, Option, none, some, [], ◌==◌, if◌then◌else◌, any, first?, Bool-cases,
  Option-cases, Result-cases, inl, inr,
}
use ironbind.Prelude.Text.{Bytes}
use ironbind.Proto.Packet.{Question, Packet, set_aa, is_response, opcode, rd, set_ra}
use ironbind.Proto.Reader.{run}
use ironbind.Proto.Message.{parse}
use ironbind.Cache.{nx_domain, no_data, CacheValue, records, negative, get}
use ironbind.Config.Network.{IpAddr, contains}
use ironbind.Resolver.{resolve}
use ironbind.Tsig.{is_empty_ring, verify_message}
use ironbind.Metrics.{
  fetch_add, record_query, record_success, record_nxdomain, record_cache_hit, record_cache_miss,
  record_query_time,
}
use ironbind.Zone.{Zone, name_exists}
use ironbind.Server.Authority.{cname_walk, max_cname_chain, best_zone, answer_from}
use ironbind.Server.State.{
  Recursion, inline, defer, resume, State, Outside, Times, Outcome, is_error, is_defer, is_resume,
  looks_like_response, base_response, note,
}
use ironbind.Server.Query.{
  uncached, after_cache, answer_question, handle_packet, handle, handle_query,
}
use ironbind.Server.Counted.{
  Same, unchanged, Looked, Counted, Counted-Same, of_Same, after_upstream-Same,
}

module _ {W : Type 0} (out : Outside W) (t : Times) (how : Recursion) where
  abbrev Counts : State W → Outcome × State W → Type 0
  Counts st done = Counted (is_resume how) st.metrics done.1.metrics

  missed :
      (st : State W)
      → Counted
          (is_resume how)
          st.metrics
          (if is_resume how then st else note record_cache_miss st).metrics
  unfolding record_cache_miss
  missed st = elim (Bool-cases (is_resume how)) [
    | inl e ↦ rw e (of_Same true (unchanged st.metrics))
    | inr e ↦ rw e (record { queries = refl; lookups = inr (inr (refl, refl, refl)) })
  ]

  uncached-Counts :
      (pkt : Packet) (q : Question) (r : Packet) (st : State W)
      → Counts st (uncached out t how pkt q r st)
  unfolding uncached
  uncached-Counts pkt q r st =
      let st1 = if is_resume how then st else note record_cache_miss st in
      let looked =
        resolve out.network st.settings.forwarders st.settings.use_forwarders q.qtype q.name
          st.world in
      elim (Bool-cases (rd pkt)) [
        | inr e ↦ rw (e, uncached) (missed st)
        | inl e ↦ elim (Bool-cases (is_defer how)) [
          | inl d ↦ rw (e, d, uncached) (missed st)
          | inr d ↦
              rw (e, d, uncached)
                (Counted-Same (is_resume how) st.metrics st1.metrics _ (missed st)
                  (after_upstream-Same t out pkt q (set_ra r) st1 looked))
        ]
      ]

  after_cache-Counts :
      (pkt : Packet) (q : Question) (r : Packet) (st : State W) (v : Option CacheValue)
      → Counts st (after_cache out t how pkt q r st v)
  unfolding record_cache_hit record_success record_nxdomain record_query_time
  after_cache-Counts pkt q r st (some (records rs)) = record {
    queries = refl;
    lookups = inr (inl (refl, refl));
  }
  after_cache-Counts pkt q r st (some (negative nx_domain)) = record {
    queries = refl;
    lookups = inr (inl (refl, refl));
  }
  after_cache-Counts pkt q r st (some (negative no_data)) = record {
    queries = refl;
    lookups = inr (inl (refl, refl));
  }
  after_cache-Counts pkt q r st none = uncached-Counts pkt q r st

  answer_from-Same :
      (pkt : Packet) (q : Question) (z : Zone) (r : Packet) (st : State W)
      → Same st.metrics
          (note (record_query_time t.elapsed) (note (answer_from out.sha1 pkt q z r).1 st)).metrics
  unfolding answer_from record_success record_nxdomain record_query_time
  answer_from-Same pkt q z r st =
      let walk = cname_walk max_cname_chain pkt z q.qtype q.name [] in
      elim (Bool-cases walk.answered) [
        | inl e ↦ rw (e, answer_from) (record { queries = refl; hits = refl; misses = refl })
        | inr e ↦ elim (Bool-cases (name_exists z walk.current_name)) [
          | inl n ↦ rw (e, n, answer_from) (record { queries = refl; hits = refl; misses = refl })
          | inr n ↦ rw (e, n, answer_from) (record { queries = refl; hits = refl; misses = refl })
        ]
      ]

  answer_question-Counts :
      (ip : IpAddr) (pkt : Packet) (q : Question) (st : State W)
      → Counts st (answer_question out t how ip pkt q st)
  unfolding answer_question
  answer_question-Counts ip pkt q st = elim (Option-cases (best_zone q.name st.zones)) [
    | inr (zone, e) ↦
        rw (e, answer_question)
          (of_Same (is_resume how) (answer_from-Same pkt q zone (set_aa (base_response pkt)) st))
    | inl e ↦ elim (Bool-cases (any (λ n. contains n ip) st.settings.allow_recursion)) [
      | inr a ↦ rw (e, a, answer_question) (of_Same (is_resume how) (unchanged st.metrics))
      | inl a ↦
          rw (e, a, answer_question)
            (after_cache-Counts pkt q (base_response pkt) st (get t.now q.name q.qtype st.cache))
    ]
  ]

  handle_packet-Counts :
      (ip : IpAddr) (pkt : Packet) (st : State W) → Counts st (handle_packet out t how ip pkt st)
  unfolding handle_packet
  handle_packet-Counts ip pkt st =
      let none_counted = of_Same (is_resume how) (unchanged st.metrics) in
      elim (Bool-cases (is_response pkt)) [
        | inl e ↦ rw (e, handle_packet) none_counted
        | inr e ↦ elim (Bool-cases (opcode pkt == 0)) [
          | inr o ↦ rw (e, o, handle_packet) none_counted
          | inl o ↦ elim (Option-cases (first? pkt.questions)) [
            | inl n ↦ rw (e, o, n, handle_packet) none_counted
            | inr (q, n) ↦ rw (e, o, n, handle_packet) (answer_question-Counts ip pkt q st)
          ]
        ]
      ]

  handle-Counts :
      (ip : IpAddr) (data_bytes : Bytes) (st : State W)
      → Counts
          (if is_resume how then st else note record_query st)
          (handle out t how ip data_bytes st)
  unfolding handle
  handle-Counts ip data_bytes st =
      let st1 = if is_resume how then st else note record_query st in
      let none_counted = of_Same (is_resume how) (unchanged st1.metrics) in
      elim (Bool-cases (looks_like_response data_bytes)) [
        | inl e ↦ rw (e, handle) none_counted
        | inr e ↦
            elim (Bool-cases (
              (st.settings.tsig_require_all && not (is_empty_ring st.tsig_keys))
              && is_error (verify_message out.hmac t.clock data_bytes st.tsig_keys))) [
                | inl s ↦ rw (e, s, handle) none_counted
                | inr s ↦ elim (Result-cases (run parse data_bytes)) [
                  | inr (x, p) ↦ rw (e, s, p, handle) none_counted
                  | inl (pkt, p) ↦ rw (e, s, p, handle) (handle_packet-Counts ip pkt st1)
                ]
              ]
      ]

-- A message adds one to the counter of queries, or nothing where it is a query resumed on the pool,
-- and at most one lookup to those of the cache: a hit, or, of a query that is not resumed, a miss.
pub handle_query-counts :
    {W : Type 0} (out : Outside W) (t : Times) (how : Recursion) (ip : IpAddr) (data_bytes : Bytes)
    (st : State W)
    → let done = (handle_query out t how ip data_bytes st).1 in
      (done.metrics.total_queries ≡ (
        if is_resume how then st.metrics.total_queries else fetch_add st.metrics.total_queries 1))
      × Looked (is_resume how) st.metrics done.metrics
unfolding handle_query record_query
handle_query-counts out t inline ip data_bytes st =
    let counted = handle-Counts out t inline ip data_bytes st in (counted.queries, counted.lookups)
handle_query-counts out t defer ip data_bytes st =
    let counted = handle-Counts out t defer ip data_bytes st in (counted.queries, counted.lookups)
handle_query-counts out t resume ip data_bytes st =
    let counted = handle-Counts out t resume ip data_bytes st in (counted.queries, counted.lookups)
