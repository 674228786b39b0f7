-- ===== src/Resolver/Replies.antt =====
-- src/resolver.rs: the packets that an exchange accepts.
use ironbind.Prelude.{
  ◌≡◌, refl, true, some, List, [], ◌∷◌, Result, ok, err, arith, first?, take, Bool-cases,
  Option-cases, Result-cases, inl, inr,
}
use ironbind.Prelude.Text.{Bytes, to_ascii_lowercase, bytes_eq_iff}
use ironbind.Proto.RType.{rtype_eq_iff}
use ironbind.Proto.Packet.{Question, Packet, is_response, truncated}
use ironbind.Proto.Reader.{run}
use ironbind.Proto.Message.{parse}
use ironbind.Resolver.Exchange.{
  NetError, Arrival, datagram, failed, Exchange, answers_query, parsed, checked, then_net,
  tcp_exchange, await, udp_exchange,
}

-- A response with the identifier and the first question of the query, the name in any letter case.
pub record IsReply (query reply : Packet) : Type 0 where
  pub response : is_response reply ≡ true
  pub same_id : reply.id ≡ query.id
  pub asked : Question
  pub answered : Question
  pub first_asked : first? query.questions ≡ some asked
  pub first_answered : first? reply.questions ≡ some answered
  pub same_name : to_ascii_lowercase answered.name ≡ to_ascii_lowercase asked.name
  pub same_type : answered.qtype ≡ asked.qtype
  pub same_class : answered.qclass ≡ asked.qclass

answers_query-IsReply : (q r : Packet) → answers_query q r ≡ true → IsReply q r
unfolding answers_query
answers_query-IsReply q r h = elim (Option-cases (first? q.questions)) [
  | inl e ↦ absurd (ground arith)
  | inr (asked, e) ↦ elim (Option-cases (first? r.questions)) [
    | inl n ↦ absurd (ground arith)
    | inr (answered, n) ↦ record {
      response = ground arith;
      same_id = ground arith;
      asked = asked;
      answered = answered;
      first_asked = e;
      first_answered = n;
      same_name =
          ground (
            arith,
            bytes_eq_iff (to_ascii_lowercase answered.name) (to_ascii_lowercase asked.name),
          );
      same_type = ground (arith, rtype_eq_iff answered.qtype asked.qtype);
      same_class = ground arith;
    }
  ]
]

then_net-ok {ℓ κ} :
    {A : Type ℓ} {B : Type κ} (r : Result A NetError) (f : A → Result B NetError) (b : B)
    → then_net r f ≡ ok b
    → (a : A) × (r ≡ ok a) × (f a ≡ ok b)
then_net-ok (ok a) f b h = (a, refl, h)
then_net-ok (err e) f b h = cc

checked-ok : (q r p : Packet) → checked q r ≡ ok p → (r ≡ p) × (answers_query q r ≡ true)
checked-ok q r p h = elim (Bool-cases (answers_query q r)) [
  | inl e ↦ (ground arith, e)
  | inr e ↦ absurd (ground arith)
]

parsed-ok : (b : Bytes) (p : Packet) → parsed b ≡ ok p → run parse b ≡ ok p
parsed-ok b p h = elim (Result-cases (run parse b)) [
  | inl (q, e) ↦ ground arith
  | inr (x, e) ↦ absurd (ground arith)
]

-- What was expected, and that the packet replies to it.
abbrev Replies : Bytes → Packet → Type 0
Replies query p = (expected : Packet) × (run parse query ≡ ok expected) × IsReply expected p

tcp_exchange-Replies :
    (query : Bytes) (stream : Result Bytes NetError) (p : Packet)
    → tcp_exchange query stream ≡ ok p
    → Replies query p
unfolding tcp_exchange
tcp_exchange-Replies query stream p h =
    let (buf, e1, h1) = then_net-ok stream _ p h in
    let (q, e2, h2) = then_net-ok (parsed buf) _ p h1 in
    let (expected, e3, h3) = then_net-ok (parsed query) _ p h2 in
    let (e, a) = checked-ok expected q p h3 in
    (expected, parsed-ok query expected e3, answers_query-IsReply expected p (rw (← e) a))

await-Replies :
    (query : Bytes) (expected : Packet) (stream : Result Bytes NetError) (rest : List Arrival)
    (p : Packet)
    → run parse query ≡ ok expected
    → await query expected stream rest ≡ ok p
    → Replies query p
unfolding await
await-Replies query expected stream [] p e h = absurd (ground arith)
await-Replies query expected stream (failed x ∷ rest) p e h = absurd (ground arith)
await-Replies query expected stream (datagram b ∷ rest) p e h =
    elim (Result-cases (run parse (take 4096 b))) [
      | inr (x, n) ↦ await-Replies query expected stream rest p e (ground arith)
      | inl (q, n) ↦ elim (Bool-cases (answers_query expected q)) [
        | inr a ↦ await-Replies query expected stream rest p e (ground arith)
        | inl a ↦ elim (Bool-cases (truncated q)) [
          | inl t ↦ tcp_exchange-Replies query stream p (ground arith)
          | inr t ↦
              let same : q ≡ p = ground arith in
              (expected, e, answers_query-IsReply expected p (rw (← same) a))
        ]
      ]
    ]

-- Whatever arrives, the packet that an exchange returns, over UDP or over TCP after truncation, is a
-- response with the identifier, the type, the class and the name (in any letter case) of the query.
pub udp_exchange-Replies :
    (query : Bytes) (x : Exchange) (p : Packet)
    → udp_exchange query x ≡ ok p
    → (expected : Packet) × (run parse query ≡ ok expected) × IsReply expected p
unfolding udp_exchange
udp_exchange-Replies query x p h = elim (Option-cases x.refused) [
  | inr (r, e) ↦ absurd (ground arith)
  | inl e ↦
      let (expected, e1, h1) =
        then_net-ok (parsed query) (λ q. await query q x.stream x.arrivals) p (ground arith) in
      await-Replies query expected x.stream x.arrivals p (parsed-ok query expected e1) h1
]
