-- ===== src/Server/Query.antt =====
-- src/server.rs: `handle_query`. The network and the cryptography of other crates are the parameter
-- `Outside`; the times that the query reads are the argument `Times`.
use ironbind.Prelude.{
  ℕ, false, not, ◌&&◌, Option, none, some, ◌++◌, ok, err, ltb, ◌==◌, if◌then◌else◌, filter, find?,
  any, first?, is_empty,
}
use ironbind.Prelude.Text.{Bytes}
use ironbind.Proto.RType.{RType, rtype_eq}
use ironbind.Proto.Packet.{
  Question, Packet, new_response, is_response, rd, set_aa, set_ra, set_rcode, rcode, opcode,
  rcode_noerror, rcode_servfail, rcode_nxdomain, rcode_notimp, rcode_refused,
}
use ironbind.Proto.Reader.{run}
use ironbind.Proto.Message.{parse}
use ironbind.Cache.{
  nx_domain, no_data, CacheValue, records, negative, get, insert_positive, insert_negative,
  soa_minimum_ttl,
}
use ironbind.Config.Network.{IpAddr, contains}
use ironbind.Resolver.{ResolveResult, resolve, fetch_with_rrsig}
use ironbind.Tsig.{is_empty_ring, verify_message}
use ironbind.Dnssec.{ValidationResult, secure, insecure, indeterminate, bogus}
use ironbind.Dnssec.Validator.{validate_rrset}
use ironbind.Dnssec.Chain.{chain_validate}
use ironbind.Server.Responses.{error_packet, best_id}
use ironbind.Server.Authority.{answer_from, best_zone}
use ironbind.Metrics.{
  record_query, record_success, record_nxdomain, record_servfail, record_cache_hit,
  record_cache_miss, record_dnssec_bogus, record_dnssec_valid, record_query_time,
}
use ironbind.Server.State.{
  Recursion, Answer, Settings, State, Outside, Times, Outcome, silent, handed_off, respond, reply,
  is_resume, is_defer, is_error, of_type, not_of_types, min_ttl, looks_like_response, base_response,
  answer_of, note,
}

module _ {W : Type 0} where
  abbrev some_result : ValidationResult × W → Option ValidationResult × W
  some_result (v, w) = (some v, w)

  -- The end of `handle_query`.
  unfoldable pub conclude : Times → Packet → State W → Outcome × State W
  conclude t r st = (
    reply r,
    note (record_query_time t.elapsed)
        (if rcode r == rcode_noerror then note record_success st else st),
  )

  unfoldable pub cache_answer : ℕ → Question → Packet → State W → State W
  cache_answer later q upstream st =
      elim (min_ttl (not_of_types RType.rrsig RType.opt upstream.answers)) [
        | none ↦ st
        | some ttl ↦
            if ltb 0 ttl
            then record st {
              cache =
                  insert_positive later q.name q.qtype
                    (filter (λ r. not (rtype_eq r.rtype RType.rrsig)) upstream.answers) ttl
                    st.cache;
            }
            else st
      ]

  unfoldable pub cache_nx_domain : ℕ → Question → Packet → State W → State W
  cache_nx_domain later q upstream st =
      let ttl : ℕ = elim (find? (λ r. rtype_eq r.rtype RType.soa) upstream.authority) [
        | none ↦ st.settings.neg_cache_ttl
        | some r ↦ soa_minimum_ttl r.rdata
      ] in
      record st { cache = insert_negative later q.name q.qtype nx_domain ttl st.cache }

  unfoldable pub validation :
      Outside W → ℕ → Packet → Question → Packet → Settings → W → Option ValidationResult × W
  validation out clock pkt q upstream s w =
      let rrsigs = of_type RType.rrsig upstream.answers in
      let rrset = not_of_types RType.rrsig RType.dnskey upstream.answers in
      let dnskeys = of_type RType.dnskey (upstream.additional ++ upstream.answers) in
      let wanted = s.dnssec_validate && (pkt.dnssec_ok && not (is_empty upstream.answers)) in
      if wanted && (not (is_empty rrsigs) && not (is_empty dnskeys))
      then (if s.dnssec_strict
          then some_result (
              chain_validate out.crypto clock (fetch_with_rrsig out.network s.forwarders) q.name
                rrset rrsigs w)
          else (some (validate_rrset out.crypto clock rrset rrsigs dnskeys), w))
      else (none, w)

  unfoldable pub take_answer : Times → Question → Packet → Packet → State W → Outcome × State W
  unfolding conclude cache_answer
  take_answer t q resp upstream st =
      conclude t
        (set_rcode (rcode upstream) (record resp {
          answers = upstream.answers;
          authority = upstream.authority;
          additional = upstream.additional;
        }))
        (cache_answer t.later q upstream st)

  abbrev pub after_validation :
      Times → Question → Packet → Packet → State W → Option ValidationResult × W → Outcome × State W
  after_validation t q resp upstream st (some (bogus x), w) = (
    reply (set_rcode rcode_servfail resp),
    note (record_query_time t.elapsed)
        (note record_servfail (note record_dnssec_bogus (record st { world = w }))),
  )
  after_validation t q resp upstream st (some secure, w) =
      take_answer t q resp upstream (note record_dnssec_valid (record st { world = w }))
  after_validation t q resp upstream st (some insecure, w) =
      take_answer t q resp upstream (record st { world = w })
  after_validation t q resp upstream st (some indeterminate, w) =
      take_answer t q resp upstream (record st { world = w })
  after_validation t q resp upstream st (none, w) =
      take_answer t q resp upstream (record st { world = w })

  abbrev pub after_upstream :
      Outside W
      → Times
      → Packet
      → Question
      → Packet
      → State W
      → ResolveResult × W
      → Outcome × State W
  after_upstream out t pkt q resp st (ResolveResult.answer upstream, w) =
      after_validation t q resp upstream st (validation out t.clock pkt q upstream st.settings w)
  after_upstream out t pkt q resp st (ResolveResult.nx_domain upstream, w) =
      conclude t (set_rcode rcode_nxdomain (record resp { authority = upstream.authority }))
        (note record_nxdomain (cache_nx_domain t.later q upstream (record st { world = w })))
  after_upstream out t pkt q resp st (ResolveResult.serv_fail e, w) =
      conclude t (set_rcode rcode_servfail resp) (note record_servfail (record st { world = w }))

  unfoldable pub uncached :
      Outside W → Times → Recursion → Packet → Question → Packet → State W → Outcome × State W
  uncached out t how pkt q resp st =
      let st1 = if is_resume how then st else note record_cache_miss st in
      let looked =
        resolve out.network st.settings.forwarders st.settings.use_forwarders q.qtype q.name
          st.world in
      let done = after_upstream out t pkt q (set_ra resp) st1 looked in
      if not (rd pkt)
      then (reply (set_rcode rcode_refused resp), st1)
      else if is_defer how
      then (handed_off, st1)
      else done

  abbrev pub after_cache :
      Outside W
      → Times
      → Recursion
      → Packet
      → Question
      → Packet
      → State W
      → Option CacheValue
      → Outcome × State W
  after_cache out t how pkt q resp st (some (records rs)) = (
    reply (record resp { answers = rs }),
    note (record_query_time t.elapsed) (note record_success (note record_cache_hit st)),
  )
  after_cache out t how pkt q resp st (some (negative nx_domain)) = (
    reply (set_rcode rcode_nxdomain resp),
    note (record_query_time t.elapsed) (note record_nxdomain (note record_cache_hit st)),
  )
  after_cache out t how pkt q resp st (some (negative no_data)) = (
    reply resp,
    note (record_query_time t.elapsed) (note record_success (note record_cache_hit st)),
  )
  after_cache out t how pkt q resp st none = uncached out t how pkt q resp st

  unfoldable pub answer_question :
      Outside W → Times → Recursion → IpAddr → Packet → Question → State W → Outcome × State W
  answer_question out t how ip pkt q st = elim (best_zone q.name st.zones) [
    | some zone ↦
        let (r, m) = answer_from out.sha1 pkt q zone (set_aa (base_response pkt)) in
        (reply r, note (record_query_time t.elapsed) (note m st))
    | none ↦
        if not (any (λ n. contains n ip) st.settings.allow_recursion)
        then (reply (set_rcode rcode_refused (base_response pkt)), st)
        else after_cache out t how pkt q (base_response pkt) st (get t.now q.name q.qtype st.cache)
  ]

  unfoldable pub handle_packet :
      Outside W → Times → Recursion → IpAddr → Packet → State W → Outcome × State W
  handle_packet out t how ip pkt st =
      let outcome : Outcome × State W = elim (first? pkt.questions) [
        | none ↦ (respond (error_packet pkt rcode_noerror) false, st)
        | some q ↦ answer_question out t how ip pkt q st
      ] in
      if is_response pkt
      then (silent, st)
      else if not (opcode pkt == 0)
      then (respond (error_packet pkt rcode_notimp) false, st)
      else outcome

  unfoldable pub handle :
      Outside W → Times → Recursion → IpAddr → Bytes → State W → Outcome × State W
  handle out t how ip data_bytes st =
      let st1 = if is_resume how then st else note record_query st in
      let refused = set_rcode rcode_refused (new_response (best_id data_bytes) 0) in
      let parsed : Outcome × State W = elim (run parse data_bytes) [
        | err e ↦ (respond (set_rcode 1 (new_response (best_id data_bytes) 0)) false, st1)
        | ok pkt ↦ handle_packet out t how ip pkt st1
      ] in
      if looks_like_response data_bytes
      then (silent, st1)
      else if (st.settings.tsig_require_all && not (is_empty_ring st.tsig_keys))
          && is_error (verify_message out.hmac t.clock data_bytes st.tsig_keys)
      then (respond refused false, st1)
      else parsed

  unfoldable pub handle_query :
      Outside W → Times → Recursion → IpAddr → Bytes → State W → Answer × State W
  handle_query out t how ip data_bytes st =
      let (outcome, st') = handle out t how ip data_bytes st in (answer_of outcome, st')
