-- ===== src/Server/Deferred.antt =====
-- src/server.rs: a query that a UDP receiver hands to the recursion pool.
use ironbind.Prelude.{
  ◌≡◌, refl, not, ◌&&◌, Option, none, some, arith, ◌==◌, any, first?, Bool-cases, Option-cases,
  Result-cases, inl, inr,
}
use ironbind.Prelude.Text.{Bytes}
use ironbind.Proto.Packet.{Question, Packet, is_response, opcode, rd}
use ironbind.Proto.Reader.{run}
use ironbind.Proto.Message.{parse}
use ironbind.Cache.{nx_domain, no_data, CacheValue, records, negative, get}
use ironbind.Config.Network.{IpAddr, contains}
use ironbind.Tsig.{is_empty_ring, verify_message}
use ironbind.Server.Authority.{best_zone}
use ironbind.Metrics.{record_query, record_cache_miss}
use ironbind.Server.State.{
  inline, defer, resume, recursive, State, Outside, Times, Outcome, silent, handed_off, respond,
  is_error, looks_like_response, base_response, answer_of, note,
}
use ironbind.Server.Query.{
  uncached, after_cache, answer_question, handle_packet, handle, handle_query,
}

-- If the first result hands the query off, it has counted `m` and `resumed` is the second result.
abbrev HandsOver :
    {W : Type 0} → State W → Outcome × State W → Outcome × State W → Outcome × State W → Type 0
HandsOver st1 deferred resumed now = deferred.0 ≡ handed_off → (deferred.1 ≡ st1) × (resumed ≡ now)

module _ {W : Type 0} (out : Outside W) (t : Times) (ip : IpAddr) (pkt : Packet)
    (st : State W) where
  uncached-HandsOver :
      (q : Question) (r : Packet)
      → HandsOver
          (note record_cache_miss st)
          (uncached out t defer pkt q r st)
          (uncached out t resume pkt q r (note record_cache_miss st))
          (uncached out t inline pkt q r st)
  unfolding uncached
  uncached-HandsOver q r h = elim (Bool-cases (rd pkt)) [
    | inl e ↦ (rw (e, uncached) refl, refl)
    | inr e ↦ let k = rw (e, uncached) at h in absurd (ground arith)
  ]

  after_cache-HandsOver :
      (q : Question) (r : Packet) (v : Option CacheValue)
      → HandsOver
          (note record_cache_miss st)
          (after_cache out t defer pkt q r st v)
          (after_cache out t resume pkt q r (note record_cache_miss st) v)
          (after_cache out t inline pkt q r st v)
  after_cache-HandsOver q r (some (records rs)) h = absurd (ground arith)
  after_cache-HandsOver q r (some (negative nx_domain)) h = absurd (ground arith)
  after_cache-HandsOver q r (some (negative no_data)) h = absurd (ground arith)
  after_cache-HandsOver q r none h = uncached-HandsOver q r h

  answer_question-HandsOver :
      (q : Question)
      → HandsOver
          (note record_cache_miss st)
          (answer_question out t defer ip pkt q st)
          (answer_question out t resume ip pkt q (note record_cache_miss st))
          (answer_question out t inline ip pkt q st)
  unfolding answer_question
  answer_question-HandsOver q h = elim (Option-cases (best_zone q.name st.zones)) [
    | inr (zone, e) ↦ let k = rw (e, answer_question) at h in absurd (ground arith)
    | inl e ↦ elim (Bool-cases (any (λ n. contains n ip) st.settings.allow_recursion)) [
      | inr a ↦ let k = rw (e, a, answer_question) at h in absurd (ground arith)
      | inl a ↦
          let k = rw (e, a, answer_question) at h in
          rw (e, a, answer_question)
            (after_cache-HandsOver q (base_response pkt) (get t.now q.name q.qtype st.cache) k)
    ]
  ]

  handle_packet-HandsOver :
      HandsOver
        (note record_cache_miss st)
        (handle_packet out t defer ip pkt st)
        (handle_packet out t resume ip pkt (note record_cache_miss st))
        (handle_packet out t inline ip pkt st)
  unfolding handle_packet
  handle_packet-HandsOver h = elim (Bool-cases (is_response pkt)) [
    | inl e ↦ let k = rw (e, handle_packet) at h in absurd (ground arith)
    | inr e ↦ elim (Bool-cases (opcode pkt == 0)) [
      | inr o ↦ let k = rw (e, o, handle_packet) at h in absurd (ground arith)
      | inl o ↦ elim (Option-cases (first? pkt.questions)) [
        | inl n ↦ let k = rw (e, o, n, handle_packet) at h in absurd (ground arith)
        | inr (q, n) ↦
            let k = rw (e, o, n, handle_packet) at h in
            rw (e, o, n, handle_packet) (answer_question-HandsOver q k)
      ]
    ]
  ]

module _ {W : Type 0} (out : Outside W) (t : Times) (ip : IpAddr) (data_bytes : Bytes)
    (st : State W) where
  handle-HandsOver :
      HandsOver
        (note record_cache_miss (note record_query st))
        (handle out t defer ip data_bytes st)
        (handle out t resume ip data_bytes (note record_cache_miss (note record_query st)))
        (handle out t inline ip data_bytes st)
  unfolding handle
  handle-HandsOver h = elim (Bool-cases (looks_like_response data_bytes)) [
    | inl e ↦ let k = rw (e, handle) at h in absurd (ground arith)
    | inr e ↦
        elim (Bool-cases (
          (st.settings.tsig_require_all && not (is_empty_ring st.tsig_keys))
          && is_error (verify_message out.hmac t.clock data_bytes st.tsig_keys))) [
            | inl s ↦ let k = rw (e, s, handle) at h in absurd (ground arith)
            | inr s ↦ elim (Result-cases (run parse data_bytes)) [
              | inr (x, p) ↦ let k = rw (e, s, p, handle) at h in absurd (ground arith)
              | inl (pkt, p) ↦
                  let k = rw (e, s, p, handle) at h in
                  rw (e, s, p, handle)
                    (handle_packet-HandsOver out t ip pkt (note record_query st) k)
            ]
          ]
  ]

  handed_off_of : (o : Outcome) → answer_of o ≡ recursive → o ≡ handed_off
  handed_off_of silent h = absurd (ground arith)
  handed_off_of handed_off h = refl
  handed_off_of (respond r e) h = absurd (ground arith)

  -- A query that a UDP receiver hands off, and the pool then handles from the state that the receiver
  -- left, ends with the answer and the state, counters included, that it has when it is handled in
  -- one go, provided that the clock and the state did not change in between.
  pub handle_query-resume :
      (handle_query out t defer ip data_bytes st).0 ≡ recursive
      → handle_query out t resume ip data_bytes (handle_query out t defer ip data_bytes st).1
        ≡ handle_query out t inline ip data_bytes st
  unfolding handle_query
  handle_query-resume h =
      let (same_state, same) =
        handle-HandsOver (handed_off_of (handle out t defer ip data_bytes st).0 h) in
      rw (same_state, same, handle_query) refl
