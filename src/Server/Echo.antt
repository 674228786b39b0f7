-- ===== src/Server/Echo.antt =====
-- src/server.rs: the packets that are sent for a query.
use ironbind.Prelude.{
  ℕ, ◌≡◌, Bool, true, false, not, Option, none, some, [], arith, ◌==◌, if◌then◌else◌, any, first?,
  Bool-cases, Option-cases, inl, inr,
}
use ironbind.Proto.Packet.{
  Question, Packet, new_response, is_response, rd, set_aa, set_ra, set_rcode, rcode, opcode,
  rcode_noerror, rcode_servfail, rcode_nxdomain, rcode_notimp, rcode_refused,
}
use ironbind.Cache.{nx_domain, no_data, CacheValue, records, negative, get}
use ironbind.Config.Network.{IpAddr, contains}
use ironbind.Resolver.{ResolveResult, resolve}
use ironbind.Dnssec.{ValidationResult, secure, insecure, indeterminate, bogus}
use ironbind.Server.Responses.{error_packet}
use ironbind.Server.Authority.{best_zone}
use ironbind.Metrics.{record_cache_miss}
use ironbind.Server.State.{
  Recursion, State, Outside, Times, Outcome, silent, handed_off, respond, reply, is_resume,
  is_defer, base_response, note,
}
use ironbind.Server.Query.{
  conclude, take_answer, after_validation, after_upstream, validation, uncached, after_cache,
  answer_question, handle_packet,
}
use ironbind.Server.Echoes.{
  Echoes, Echoes-new, Echoes-set_rcode, Echoes-set_aa, Echoes-set_ra, Echoes-sections,
  Echoes-authority, Echoes-answers, answer_from-Echoes,
}

-- A packet that is sent echoes the query.
abbrev OutcomeOf : Packet → Outcome → Type 0
OutcomeOf pkt silent = Unit
OutcomeOf pkt handed_off = Unit
OutcomeOf pkt (respond r e) = Echoes pkt r

module _ {W : Type 0} (out : Outside W) (t : Times) (pkt : Packet) where
  take_answer-OutcomeOf :
      (q : Question) (r up : Packet) (st : State W)
      → Echoes pkt r
      → OutcomeOf pkt (take_answer t q r up st).0
  unfolding take_answer
  take_answer-OutcomeOf q r up st h =
      Echoes-set_rcode pkt _ (rcode up)
        (Echoes-sections pkt r up.answers up.authority up.additional r.edns_udp_size r.dnssec_ok h)

  after_validation-OutcomeOf :
      (q : Question) (r up : Packet) (st : State W) (v : Option ValidationResult × W)
      → Echoes pkt r
      → OutcomeOf pkt (after_validation t q r up st v).0
  after_validation-OutcomeOf q r up st (some (bogus x), w) h =
      Echoes-set_rcode pkt r rcode_servfail h
  after_validation-OutcomeOf q r up st (some secure, w) h = take_answer-OutcomeOf q r up _ h
  after_validation-OutcomeOf q r up st (some insecure, w) h = take_answer-OutcomeOf q r up _ h
  after_validation-OutcomeOf q r up st (some indeterminate, w) h = take_answer-OutcomeOf q r up _ h
  after_validation-OutcomeOf q r up st (none, w) h = take_answer-OutcomeOf q r up _ h

  after_upstream-OutcomeOf :
      (q : Question) (r : Packet) (st : State W) (u : ResolveResult × W)
      → Echoes pkt r
      → OutcomeOf pkt (after_upstream out t pkt q r st u).0
  unfolding conclude
  after_upstream-OutcomeOf q r st (ResolveResult.answer up, w) h =
      after_validation-OutcomeOf q r up st (validation out t.clock pkt q up st.settings w) h
  after_upstream-OutcomeOf q r st (ResolveResult.nx_domain up, w) h =
      Echoes-set_rcode pkt _ rcode_nxdomain (Echoes-authority pkt r up.authority h)
  after_upstream-OutcomeOf q r st (ResolveResult.serv_fail e, w) h =
      Echoes-set_rcode pkt r rcode_servfail h

  OutcomeOf-if :
      (b : Bool) (x y : Outcome × State W)
      → OutcomeOf pkt x.0
      → OutcomeOf pkt y.0
      → OutcomeOf pkt (if b then x else y).0
  OutcomeOf-if true x y h k = h
  OutcomeOf-if false x y h k = k

  uncached-OutcomeOf :
      (how : Recursion) (q : Question) (r : Packet) (st : State W)
      → Echoes pkt r
      → OutcomeOf pkt (uncached out t how pkt q r st).0
  unfolding uncached
  uncached-OutcomeOf how q r st h =
      let st1 = if is_resume how then st else note record_cache_miss st in
      let looked =
        resolve out.network st.settings.forwarders st.settings.use_forwarders q.qtype q.name
          st.world in
      let done = after_upstream out t pkt q (set_ra r) st1 looked in
      OutcomeOf-if (not (rd pkt)) (reply (set_rcode rcode_refused r), st1)
        (if is_defer how then (handed_off, st1) else done) (Echoes-set_rcode pkt r rcode_refused h)
        (OutcomeOf-if (is_defer how) (handed_off, st1) done tt
          (after_upstream-OutcomeOf q (set_ra r) st1 looked (Echoes-set_ra pkt r h)))

  after_cache-OutcomeOf :
      (how : Recursion) (q : Question) (r : Packet) (st : State W) (v : Option CacheValue)
      → Echoes pkt r
      → OutcomeOf pkt (after_cache out t how pkt q r st v).0
  after_cache-OutcomeOf how q r st (some (records rs)) h = Echoes-answers pkt r rs h
  after_cache-OutcomeOf how q r st (some (negative nx_domain)) h =
      Echoes-set_rcode pkt r rcode_nxdomain h
  after_cache-OutcomeOf how q r st (some (negative no_data)) h = h
  after_cache-OutcomeOf how q r st none h = uncached-OutcomeOf how q r st h

  answer_question-OutcomeOf :
      (how : Recursion) (ip : IpAddr) (q : Question) (st : State W)
      → OutcomeOf pkt (answer_question out t how ip pkt q st).0
  unfolding answer_question new_response
  answer_question-OutcomeOf how ip q st =
      let base = Echoes-sections pkt _ [] [] [] pkt.edns_udp_size pkt.dnssec_ok (Echoes-new pkt) in
      elim (Option-cases (best_zone q.name st.zones)) [
        | inr (zone, e) ↦
            rw (e, answer_question)
              (answer_from-Echoes out.sha1 pkt q zone (set_aa (base_response pkt))
                (Echoes-set_aa pkt _ base))
        | inl e ↦
            rw (e, answer_question)
              (OutcomeOf-if (not (any (λ n. contains n ip) st.settings.allow_recursion)) _ _
                (Echoes-set_rcode pkt _ rcode_refused base)
                (after_cache-OutcomeOf how q (base_response pkt) st
                  (get t.now q.name q.qtype st.cache) base))
      ]

  OutcomeOf-respond :
      (o : Outcome) (r : Packet) (e : Bool) → OutcomeOf pkt o → o ≡ respond r e → Echoes pkt r
  OutcomeOf-respond silent r e h k = absurd (ground arith)
  OutcomeOf-respond handed_off r e h k = absurd (ground arith)
  OutcomeOf-respond (respond x f) r e h k = let same : x ≡ r = ground arith in rw (← same) h

  error_packet-Echoes : (c : ℕ) → Echoes pkt (error_packet pkt c)
  unfolding error_packet
  error_packet-Echoes c = Echoes-set_rcode pkt _ c (Echoes-new pkt)

  handle_packet-OutcomeOf :
      (how : Recursion) (ip : IpAddr) (st : State W)
      → OutcomeOf pkt (handle_packet out t how ip pkt st).0
  unfolding handle_packet
  handle_packet-OutcomeOf how ip st = elim (Bool-cases (is_response pkt)) [
    | inl e ↦ rw (e, handle_packet) tt
    | inr e ↦ elim (Bool-cases (opcode pkt == 0)) [
      | inr o ↦ rw (e, o, handle_packet) (error_packet-Echoes rcode_notimp)
      | inl o ↦ elim (Option-cases (first? pkt.questions)) [
        | inl n ↦ rw (e, o, n, handle_packet) (error_packet-Echoes rcode_noerror)
        | inr (q, n) ↦ rw (e, o, n, handle_packet) (answer_question-OutcomeOf how ip q st)
      ]
    ]
  ]

  -- Whatever the state, the network and the client: what a packet is answered with, on every branch of
  -- `handle_packet`, is a response with its identifier and its questions; a packet that is itself a
  -- response is not answered.
  pub handle_packet-Echoes :
      (how : Recursion) (ip : IpAddr) (st : State W) (r : Packet) (e : Bool)
      → (handle_packet out t how ip pkt st).0 ≡ respond r e
      → Echoes pkt r × (is_response pkt ≡ false)
  unfolding handle_packet
  handle_packet-Echoes how ip st r e h = (
    OutcomeOf-respond (handle_packet out t how ip pkt st).0 r e (handle_packet-OutcomeOf how ip st)
        h,
    elim (Bool-cases (is_response pkt)) [
      | inr n ↦ n
      | inl y ↦ let k : silent ≡ respond r e = rw (y, handle_packet) at h in absurd (ground arith)
    ],
  )
