-- ===== src/Server/Counted.antt =====
-- src/server.rs, src/metrics.rs: two states of the counters compared, and the branches of a query
-- behind its lookup in the cache.
use ironbind.Prelude.{
  ℕ, ◌≡◌, refl, ◌∙◌, Bool, false, ◌⊎◌, Option, none, some, ◌==◌, ltb, Bool-cases, Option-cases, inl,
  inr,
}
use ironbind.Proto.RType
use ironbind.Proto.Packet.{
  Question, Packet, rcode, rcode_noerror, set_rcode, rcode_nxdomain, rcode_servfail,
}
use ironbind.Resolver.{ResolveResult}
use ironbind.Dnssec.{ValidationResult, secure, insecure, indeterminate, bogus}
use ironbind.Metrics.{
  Metrics, fetch_add, record_success, record_nxdomain, record_servfail, record_dnssec_bogus,
  record_dnssec_valid, record_query_time,
}
use ironbind.Server.State.{State, Outside, Times, not_of_types, min_ttl, note}
use ironbind.Server.Query.{
  conclude, cache_answer, cache_nx_domain, take_answer, after_validation, validation,
  after_upstream,
}

-- The three counters are as they were.
pub record Same (m m' : Metrics) : Type 0 where
  pub queries : m'.total_queries ≡ m.total_queries
  pub hits : m'.cache_hits ≡ m.cache_hits
  pub misses : m'.cache_misses ≡ m.cache_misses

abbrev pub unchanged : (m : Metrics) → Same m m
unchanged m = record { queries = refl; hits = refl; misses = refl }

Same-path : (a b c : Metrics) → b ≡ a → Same b c → Same a c
Same-path a b c e h = rw (← e) h

-- At most one lookup in the cache is counted: a hit, or a miss of a query that is not resumed.
abbrev pub Looked : Bool → Metrics → Metrics → Type 0
Looked resumed m m' =
    ((m'.cache_hits ≡ m.cache_hits) × (m'.cache_misses ≡ m.cache_misses))
    ⊎ (((m'.cache_hits ≡ fetch_add m.cache_hits 1) × (m'.cache_misses ≡ m.cache_misses))
        ⊎ ((resumed ≡ false)
            × (m'.cache_hits ≡ m.cache_hits)
            × (m'.cache_misses ≡ fetch_add m.cache_misses 1)))

pub record Counted (resumed : Bool) (m m' : Metrics) : Type 0 where
  pub queries : m'.total_queries ≡ m.total_queries
  pub lookups : Looked resumed m m'

Looked-Same :
    (resumed : Bool) (a b c : Metrics) → Looked resumed a b → Same b c → Looked resumed a c
Looked-Same resumed a b c (inl (h, m)) k = inl (k.hits ∙ h, k.misses ∙ m)
Looked-Same resumed a b c (inr (inl (h, m))) k = inr (inl (k.hits ∙ h, k.misses ∙ m))
Looked-Same resumed a b c (inr (inr (r, h, m))) k = inr (inr (r, k.hits ∙ h, k.misses ∙ m))

pub Counted-Same :
    (resumed : Bool) (a b c : Metrics) → Counted resumed a b → Same b c → Counted resumed a c
Counted-Same resumed a b c h k = record {
  queries = k.queries ∙ h.queries;
  lookups = Looked-Same resumed a b c h.lookups k;
}

pub of_Same : (resumed : Bool) {a b : Metrics} → Same a b → Counted resumed a b
of_Same resumed h = record { queries = h.queries; lookups = inl (h.hits, h.misses) }

module _ {W : Type 0} (t : Times) where
  conclude-Same : (r : Packet) (st : State W) → Same st.metrics (conclude t r st).1.metrics
  unfolding conclude record_success record_query_time
  conclude-Same r st = elim (Bool-cases (rcode r == rcode_noerror)) [
    | inl e ↦ rw (e, conclude) (record { queries = refl; hits = refl; misses = refl })
    | inr e ↦ rw (e, conclude) (record { queries = refl; hits = refl; misses = refl })
  ]

  cache_answer-metrics :
      (later : ℕ) (q : Question) (up : Packet) (st : State W)
      → (cache_answer later q up st).metrics ≡ st.metrics
  unfolding cache_answer
  cache_answer-metrics later q up st =
      elim (Option-cases (min_ttl (not_of_types RType.rrsig RType.opt up.answers))) [
        | inl e ↦ rw (e, cache_answer) refl
        | inr (ttl, e) ↦ elim (Bool-cases (ltb 0 ttl)) [
          | inl f ↦ rw (e, f, cache_answer) refl
          | inr f ↦ rw (e, f, cache_answer) refl
        ]
      ]

  take_answer-Same :
      (q : Question) (r up : Packet) (st : State W)
      → Same st.metrics (take_answer t q r up st).1.metrics
  unfolding take_answer
  take_answer-Same q r up st =
      let cached = cache_answer t.later q up st in
      Same-path st.metrics cached.metrics _ (cache_answer-metrics t.later q up st)
        (conclude-Same _ cached)

  after_validation-Same :
      (q : Question) (r up : Packet) (st : State W) (v : Option ValidationResult × W)
      → Same st.metrics (after_validation t q r up st v).1.metrics
  unfolding record_query_time record_servfail record_dnssec_bogus record_dnssec_valid
  after_validation-Same q r up st (some (bogus x), w) = record {
    queries = refl;
    hits = refl;
    misses = refl;
  }
  after_validation-Same q r up st (some secure, w) =
      let took = take_answer-Same q r up (note record_dnssec_valid (record st { world = w })) in
      record { queries = took.queries; hits = took.hits; misses = took.misses }
  after_validation-Same q r up st (some insecure, w) =
      take_answer-Same q r up (record st { world = w })
  after_validation-Same q r up st (some indeterminate, w) =
      take_answer-Same q r up (record st { world = w })
  after_validation-Same q r up st (none, w) = take_answer-Same q r up (record st { world = w })

  pub after_upstream-Same :
      (out : Outside W) (pkt : Packet) (q : Question) (r : Packet) (st : State W)
      (u : ResolveResult × W)
      → Same st.metrics (after_upstream out t pkt q r st u).1.metrics
  unfolding record_servfail record_nxdomain cache_nx_domain
  after_upstream-Same out pkt q r st (ResolveResult.answer up, w) =
      after_validation-Same q r up st (validation out t.clock pkt q up st.settings w)
  after_upstream-Same out pkt q r st (ResolveResult.nx_domain up, w) =
      let cached = cache_nx_domain t.later q up (record st { world = w }) in
      let done =
        conclude-Same (set_rcode rcode_nxdomain (record r { authority = up.authority }))
          (note record_nxdomain cached) in
      record { queries = done.queries; hits = done.hits; misses = done.misses }
  after_upstream-Same out pkt q r st (ResolveResult.serv_fail e, w) =
      let done =
        conclude-Same (set_rcode rcode_servfail r)
          (note record_servfail (record st { world = w })) in
      record { queries = done.queries; hits = done.hits; misses = done.misses }
