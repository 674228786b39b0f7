-- ===== src/Resolver/Exchange.antt =====
-- src/resolver.rs: `answers_query`, `udp_exchange` and `tcp_exchange`, over what the sockets deliver.
use ironbind.Prelude.{
  ℕ, Bool, false, ◌&&◌, Option, none, some, List, [], ◌∷◌, Result, ok, err, ◌==◌, if◌then◌else◌,
  first?, take,
}
use ironbind.Prelude.Text.{Bytes, to_ascii_lowercase, bytes_eq}
use ironbind.Proto.RType.{rtype_eq}
use ironbind.Proto.Packet.{Question, Packet, is_response, truncated}
use ironbind.Proto.Reader.{IoError, run}
use ironbind.Proto.Message.{parse}

-- `io::Error`; `system` is an error of the operating system, by its number.
pub data NetError : Type 0 where
  timed_out mismatch : NetError
  malformed : IoError → NetError
  system : ℕ → NetError

abbrev eq_ignore_ascii_case : Bytes → Bytes → Bool
eq_ignore_ascii_case m n = bytes_eq (to_ascii_lowercase m) (to_ascii_lowercase n)

abbrev pub both : Option Question → Option Question → (Question → Question → Bool) → Bool
both none r f = false
both (some q) none f = false
both (some q) (some r) f = f q r

unfoldable pub answers_query : Packet → Packet → Bool
unfolding is_response rtype_eq
answers_query query reply = both (first? query.questions) (first? reply.questions) λ asked answered.
    is_response reply
    && ((reply.id == query.id)
        && (eq_ignore_ascii_case answered.name asked.name
            && (rtype_eq answered.qtype asked.qtype && (answered.qclass == asked.qclass))))

-- What a socket hands over before the deadline.
pub data Arrival : Type 0 where
  datagram : Bytes → Arrival
  failed : NetError → Arrival

-- The error of opening and sending, if any; what arrives; and the body read over TCP.
pub record Exchange : Type 0 where
  pub refused : Option NetError
  pub arrivals : List Arrival
  pub stream : Result Bytes NetError

abbrev pub parsed : Bytes → Result Packet NetError
parsed buf = elim (run parse buf) [ ok p ↦ ok p | err e ↦ err (malformed e) ]

abbrev pub checked : Packet → Packet → Result Packet NetError
checked expected p = if answers_query expected p then ok p else err mismatch

abbrev pub then_net {ℓ κ} :
    {A : Type ℓ} {B : Type κ} → Result A NetError → (A → Result B NetError) → Result B NetError
then_net (ok x) f = f x
then_net (err e) f = err e

unfoldable pub tcp_exchange : Bytes → Result Bytes NetError → Result Packet NetError
unfolding answers_query
tcp_exchange query stream =
    then_net stream
      λ buf. then_net (parsed buf) λ p. then_net (parsed query) λ expected. checked expected p

-- The loop over the datagrams, each cut to the buffer. The deadline passes after the last.
unfoldable pub await :
    Bytes → Packet → Result Bytes NetError → List Arrival → Result Packet NetError
unfolding tcp_exchange
await query expected stream [] = err timed_out
await query expected stream (failed e ∷ later) = err e
await query expected stream (datagram b ∷ later) =
    let more = await query expected stream later in
    elim (run parse (take 4096 b)) [
      | err e ↦ more
      | ok p ↦
          if answers_query expected p
          then (if truncated p then tcp_exchange query stream else ok p)
          else more
    ]

unfoldable pub udp_exchange : Bytes → Exchange → Result Packet NetError
unfolding await
udp_exchange query x = elim x.refused [
  | some e ↦ err e
  | none ↦ then_net (parsed query) λ expected. await query expected x.stream x.arrivals
]
