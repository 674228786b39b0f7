-- ===== src/Server/Settled.antt =====
-- src/server.rs: a query that is not deferred.
use ironbind.Prelude.{
  ◌≡◌, ◌≢◌, false, not, ◌&&◌, Option, none, some, arith, ◌==◌, if◌then◌else◌, any, first?,
  Bool-cases, Option-cases, Result-cases, inl, inr,
}
use ironbind.Prelude.Text.{Bytes}
use ironbind.Proto.Packet.{Question, Packet, is_response, opcode, rd, set_ra}
use ironbind.Proto.Reader.{run}
use ironbind.Proto.Message.{parse}
use ironbind.Cache.{nx_domain, no_data, CacheValue, records, negative, get}
use ironbind.Config.Network.{IpAddr, contains}
use ironbind.Resolver.{ResolveResult, resolve}
use ironbind.Tsig.{is_empty_ring, verify_message}
use ironbind.Dnssec.{ValidationResult, secure, insecure, indeterminate, bogus}
use ironbind.Server.Authority.{best_zone}
use ironbind.Metrics.{record_cache_miss, record_query}
use ironbind.Server.State.{
  Recursion, recursive, State, Outside, Times, Outcome, silent, handed_off, respond, is_error,
  is_defer, is_resume, looks_like_response, base_response, answer_of, note,
}
use ironbind.Server.Query.{
  conclude, take_answer, after_validation, validation, after_upstream, uncached, after_cache,
  answer_question, handle_packet, handle, handle_query,
}

abbrev IsSettled : Outcome → Type 0
IsSettled silent = Unit
IsSettled handed_off = ⊥
IsSettled (respond r e) = Unit

module _ {W : Type 0} (out : Outside W) (t : Times) (how : Recursion) (ip : IpAddr)
    (settles : is_defer how ≡ false) where
  after_validation-IsSettled :
      (q : Question) (r up : Packet) (st : State W) (v : Option ValidationResult × W)
      → IsSettled (after_validation t q r up st v).0
  unfolding take_answer conclude
  after_validation-IsSettled q r up st (some (bogus x), w) = tt
  after_validation-IsSettled q r up st (some secure, w) = tt
  after_validation-IsSettled q r up st (some insecure, w) = tt
  after_validation-IsSettled q r up st (some indeterminate, w) = tt
  after_validation-IsSettled q r up st (none, w) = tt

  after_upstream-IsSettled :
      (pkt : Packet) (q : Question) (r : Packet) (st : State W) (u : ResolveResult × W)
      → IsSettled (after_upstream out t pkt q r st u).0
  unfolding conclude
  after_upstream-IsSettled pkt q r st (ResolveResult.answer up, w) =
      after_validation-IsSettled q r up st (validation out t.clock pkt q up st.settings w)
  after_upstream-IsSettled pkt q r st (ResolveResult.nx_domain up, w) = tt
  after_upstream-IsSettled pkt q r st (ResolveResult.serv_fail e, w) = tt

  uncached-IsSettled :
      (pkt : Packet) (q : Question) (r : Packet) (st : State W)
      → IsSettled (uncached out t how pkt q r st).0
  unfolding uncached
  uncached-IsSettled pkt q r st =
      let st1 = if is_resume how then st else note record_cache_miss st in
      let looked =
        resolve out.network st.settings.forwarders st.settings.use_forwarders q.qtype q.name
          st.world in
      elim (Bool-cases (rd pkt)) [
        | inr e ↦ rw (e, uncached) tt
        | inl e ↦ rw (e, settles, uncached) (after_upstream-IsSettled pkt q (set_ra r) st1 looked)
      ]

  after_cache-IsSettled :
      (pkt : Packet) (q : Question) (r : Packet) (st : State W) (v : Option CacheValue)
      → IsSettled (after_cache out t how pkt q r st v).0
  after_cache-IsSettled pkt q r st (some (records rs)) = tt
  after_cache-IsSettled pkt q r st (some (negative nx_domain)) = tt
  after_cache-IsSettled pkt q r st (some (negative no_data)) = tt
  after_cache-IsSettled pkt q r st none = uncached-IsSettled pkt q r st

  answer_question-IsSettled :
      (pkt : Packet) (q : Question) (st : State W)
      → IsSettled (answer_question out t how ip pkt q st).0
  unfolding answer_question
  answer_question-IsSettled pkt q st = elim (Option-cases (best_zone q.name st.zones)) [
    | inr (zone, e) ↦ rw (e, answer_question) tt
    | inl e ↦ elim (Bool-cases (any (λ n. contains n ip) st.settings.allow_recursion)) [
      | inr a ↦ rw (e, a, answer_question) tt
      | inl a ↦
          rw (e, a, answer_question)
            (after_cache-IsSettled pkt q (base_response pkt) st (get t.now q.name q.qtype st.cache))
    ]
  ]

  handle_packet-IsSettled :
      (pkt : Packet) (st : State W) → IsSettled (handle_packet out t how ip pkt st).0
  unfolding handle_packet
  handle_packet-IsSettled pkt st = elim (Bool-cases (is_response pkt)) [
    | inl e ↦ rw (e, handle_packet) tt
    | inr e ↦ elim (Bool-cases (opcode pkt == 0)) [
      | inr o ↦ rw (e, o, handle_packet) tt
      | inl o ↦ elim (Option-cases (first? pkt.questions)) [
        | inl n ↦ rw (e, o, n, handle_packet) tt
        | inr (q, n) ↦ rw (e, o, n, handle_packet) (answer_question-IsSettled pkt q st)
      ]
    ]
  ]

  handle-IsSettled :
      (data_bytes : Bytes) (st : State W) → IsSettled (handle out t how ip data_bytes st).0
  unfolding handle
  handle-IsSettled data_bytes st = elim (Bool-cases (looks_like_response data_bytes)) [
    | inl e ↦ rw (e, handle) tt
    | inr e ↦
        elim (Bool-cases (
          (st.settings.tsig_require_all && not (is_empty_ring st.tsig_keys))
          && is_error (verify_message out.hmac t.clock data_bytes st.tsig_keys))) [
            | inl s ↦ rw (e, s, handle) tt
            | inr s ↦ elim (Result-cases (run parse data_bytes)) [
              | inr (x, p) ↦ rw (e, s, p, handle) tt
              | inl (pkt, p) ↦
                  rw (e, s, p, handle)
                    (handle_packet-IsSettled pkt
                      (if is_resume how then st else note record_query st))
            ]
          ]
  ]

  settled-ne-recursive : (o : Outcome) → IsSettled o → answer_of o ≢ recursive
  settled-ne-recursive silent h k = absurd (ground arith)
  settled-ne-recursive handed_off h k = absurd h
  settled-ne-recursive (respond r e) h k = absurd (ground arith)

  -- Only a deferred query is handed off: on a connection, and on the recursion pool, the handling
  -- ends with bytes to send or with nothing, whatever the state and the network.
  pub handle_query-ne-recursive :
      (data_bytes : Bytes) (st : State W) → (handle_query out t how ip data_bytes st).0 ≢ recursive
  unfolding handle_query
  handle_query-ne-recursive data_bytes st =
      settled-ne-recursive (handle out t how ip data_bytes st).0 (handle-IsSettled data_bytes st)
