-- ===== src/Server/Remembers.antt =====
-- src/server.rs, src/cache.rs: what a resolved query leaves in the cache, and who is answered from it.
use ironbind.Prelude.{
  ℕ, ◌+◌, ◌≡◌, ◌≢◌, refl, ◌∙◌, true, false, not, Option, none, some, List, ◌==◌, ltb, filter, any,
  Bool-cases, inl, inr,
}
use ironbind.Proto.RType
use ironbind.Proto.RType.{rtype_eq}
use ironbind.Proto.Packet.{Record, Question, Packet, rd, rcode, rcode_noerror, set_ra}
use ironbind.Cache.{records, get, insert_positive, clamp_positive, from_secs}
use ironbind.Cache.Laws.{same_key, get-insert_positive}
use ironbind.Config.Network.{IpAddr, contains}
use ironbind.Resolver.{ResolveResult, resolve}
use ironbind.Dnssec.{Reason, ValidationResult, secure, insecure, indeterminate, bogus}
use ironbind.Metrics.{record_cache_miss}
use ironbind.Server.Authority.{best_zone}
use ironbind.Server.State.{
  Recursion, State, Outside, Times, reply, is_resume, is_defer, base_response, not_of_types,
  min_ttl, note,
}
use ironbind.Server.Query.{
  conclude, cache_answer, take_answer, validation, after_validation, uncached, after_cache,
  answer_question,
}

-- The records of an answer that the cache keeps.
abbrev pub kept : Packet → List Record
kept upstream = filter (λ r. not (rtype_eq r.rtype RType.rrsig)) upstream.answers

module _ {W : Type 0} (t : Times) (q : Question) (up : Packet) (ttl : ℕ)
    (lasts : min_ttl (not_of_types RType.rrsig RType.opt up.answers) ≡ some ttl)
    (positive : ltb 0 ttl ≡ true) where
  conclude-cache : (r : Packet) (st : State W) → (conclude t r st).1.cache ≡ st.cache
  unfolding conclude
  conclude-cache r st = elim (Bool-cases (rcode r == rcode_noerror)) [
    | inl e ↦ rw (e, conclude) refl
    | inr e ↦ rw (e, conclude) refl
  ]

  cache_answer-cache :
      (st : State W)
      → (cache_answer t.later q up st).cache
        ≡ insert_positive t.later q.name q.qtype (kept up) ttl st.cache
  unfolding cache_answer
  cache_answer-cache st = rw (lasts, positive, cache_answer) refl

  take_answer-cache :
      (r : Packet) (st : State W)
      → (take_answer t q r up st).1.cache
        ≡ insert_positive t.later q.name q.qtype (kept up) ttl st.cache
  unfolding take_answer
  take_answer-cache r st = conclude-cache _ (cache_answer t.later q up st) ∙ cache_answer-cache st

  after_validation-cache :
      (r : Packet) (st : State W) (v : Option ValidationResult × W)
      → ((x : _) → v.0 ≢ some (bogus x))
      → (after_validation t q r up st v).1.cache
        ≡ insert_positive t.later q.name q.qtype (kept up) ttl st.cache
  after_validation-cache r st (some (bogus x), w) h = absurd (h x refl)
  after_validation-cache r st (some secure, w) h = take_answer-cache r _
  after_validation-cache r st (some insecure, w) h = take_answer-cache r _
  after_validation-cache r st (some indeterminate, w) h = take_answer-cache r _
  after_validation-cache r st (none, w) h = take_answer-cache r _

-- A state in which a client is answered from the cache if it has the question.
abbrev pub Asks : {W : Type 0} → IpAddr → Question → State W → Type 0
Asks ip q st =
    (best_zone q.name st.zones ≡ none)
    × (any (λ n. contains n ip) st.settings.allow_recursion ≡ true)

answer_question-Asks :
    {W : Type 0} (out : Outside W) (t : Times) (how : Recursion) (ip : IpAddr) (pkt : Packet)
    (q : Question) (st : State W)
    → Asks ip q st
    → answer_question out t how ip pkt q st
      ≡ after_cache out t how pkt q (base_response pkt) st (get t.now q.name q.qtype st.cache)
unfolding answer_question
answer_question-Asks out t how ip pkt q st (none_best, allowed) =
    rw (none_best, allowed, answer_question) refl

uncached-cache :
    {W : Type 0} (out : Outside W) (t : Times) (how : Recursion) (pkt : Packet) (q : Question)
    (r : Packet) (st : State W) (up : Packet) (w : W) (ttl : ℕ)
    → (rd pkt ≡ true)
    → (is_defer how ≡ false)
    → (resolve out.network st.settings.forwarders st.settings.use_forwarders q.qtype q.name st.world
        ≡ (ResolveResult.answer up, w))
    → ((x : _) → (validation out t.clock pkt q up st.settings w).0 ≢ some (bogus x))
    → (min_ttl (not_of_types RType.rrsig RType.opt up.answers) ≡ some ttl)
    → (ltb 0 ttl ≡ true)
    → (uncached out t how pkt q r st).1.cache
      ≡ insert_positive t.later q.name q.qtype (kept up) ttl st.cache
unfolding uncached
uncached-cache out t how pkt q r st up w ttl wants now found good lasts positive =
    elim (Bool-cases (is_resume how)) [
      | inl e ↦
          rw (wants, now, found, e, uncached)
            (after_validation-cache t q up ttl lasts positive (set_ra r) st _ good)
      | inr e ↦
          rw (wants, now, found, e, uncached)
            (after_validation-cache t q up ttl lasts positive (set_ra r) (note record_cache_miss st)
              _ good)
    ]

-- A question that is in no zone and not in the cache, from a client that may recurse and wants to,
-- is resolved and not handed off, and the answer is not found bogus and has a TTL above 0. While that
-- TTL, at least a second and at most a day, has not passed since the answer was stored, whoever may
-- recurse and asks for the same type and the same name in any letter case, in whatever state that has
-- this cache and no zone for the name, is answered with the records of that answer, less its
-- signatures, and nobody is asked.
pub answer_question-asked_again :
    {W : Type 0} (out : Outside W) (t : Times) (how : Recursion) (ip : IpAddr) (pkt : Packet)
    (q : Question) (st : State W) (up : Packet) (w : W) (ttl : ℕ) (out2 : Outside W) (t2 : Times)
    (how2 : Recursion) (ip2 : IpAddr) (pkt2 : Packet) (q2 : Question) (st2 : State W)
    → Asks ip q st
    → get t.now q.name q.qtype st.cache ≡ none
    → rd pkt ≡ true
    → is_defer how ≡ false
    → resolve out.network st.settings.forwarders st.settings.use_forwarders q.qtype q.name st.world
      ≡ (ResolveResult.answer up, w)
    → ((x : Reason) → (validation out t.clock pkt q up st.settings w).0 ≢ some (bogus x))
    → min_ttl (not_of_types RType.rrsig RType.opt up.answers) ≡ some ttl
    → ltb 0 ttl ≡ true
    → Asks ip2 q2 st2
    → same_key q2.name q2.qtype q.name q.qtype ≡ true
    → st2.cache ≡ (answer_question out t how ip pkt q st).1.cache
    → ltb t2.now (t.later + from_secs (clamp_positive ttl)) ≡ true
    → let again = answer_question out2 t2 how2 ip2 pkt2 q2 st2 in
      (again.0 ≡ reply (record (base_response pkt2) { answers = kept up }))
      × (again.1.world ≡ st2.world)
answer_question-asked_again out t how ip pkt q st up w ttl out2 t2 how2 ip2 pkt2 q2 st2 asks miss
      wants now found good lasts positive asks2 matches same fresh =
    let stored : st2.cache ≡ insert_positive t.later q.name q.qtype (kept up) ttl st.cache =
      same
      ∙ (rw (answer_question-Asks out t how ip pkt q st asks, miss)
          (uncached-cache out t how pkt q (base_response pkt) st up w ttl wants now found good lasts
            positive)) in
    let hit : get t2.now q2.name q2.qtype st2.cache ≡ some (records (kept up)) =
      rw
        (
          stored,
          get-insert_positive t.later t2.now ttl q.name q2.name q.qtype q2.qtype (kept up) st.cache,
          matches,
          fresh,
        )
        refl in
    rw (answer_question-Asks out2 t2 how2 ip2 pkt2 q2 st2 asks2, hit) (refl, refl)
