-- ===== src/Tests/Queries.antt =====
-- The resolver's exchanges and walk, and the rate limiter, at concrete inputs.
use ironbind.Prelude.{
  ℕ, ◌+◌, ◌-◌, ◌/◌, ◌^◌, ◌≡◌, ◌≢◌, ◌<◌, refl, min, true, false, none, some, List, [], ◌∷◌, ok, err,
  arith, length, inl, inr,
}
use ironbind.Prelude.Text.{Bytes, dot, codes, lower, split_dots, trim_end_dots, join_dots, is_utf8}
use ironbind.Proto.RType
use ironbind.Proto.RType.{RType}
use ironbind.Proto.Packet.{Packet, class_in, truncated, rcode}
use ironbind.Proto.Builder
use ironbind.Proto.Reader
use ironbind.Proto.Reader.{run, u8, u16, u32, label_text}
use ironbind.Proto.Message.{parse, serialize, read_question, read_record}
use ironbind.Resolver.{
  Network, start, serv_fail, all_failed, keep_bailiwick, on_reply, build_query, iterative_resolve,
}
use ironbind.Resolver.Exchange.{Exchange, datagram, system, udp_exchange}
use ironbind.Resolver.Replies.{IsReply, udp_exchange-Replies}
use ironbind.Resolver.Below.{IsPlain, IsZoneName}
use ironbind.Resolver.Referrals.{Moves, on_reply-Moves}
use ironbind.Resolver.Bailiwick.{packet_of, IsFiltered, nested_lookup, iterative_resolve-IsFiltered}
use ironbind.RateLimit.{Float, RateLimiter, new}
use ironbind.RateLimit.Window.{Call, counted, passed, within_source, passed-in_window}

abbrev host : Bytes
host = codes "ex"

abbrev reply : Packet
reply = record {
  id = 7;
  flags = 0x8180;
  questions = record { name = host; qtype = RType.a; qclass = class_in } ∷ [];
  answers = [];
  authority = [];
  additional = [];
  edns_udp_size = 0;
  dnssec_ok = false;
}

abbrev question : Bytes
question = build_query 7 host RType.a false

-- Noise, and then the reply.
abbrev arrived : Exchange
arrived = record {
  refused = none;
  arrivals = datagram (1 ∷ 2 ∷ []) ∷ datagram (serialize reply false) ∷ [];
  stream = err (system 1);
}

udp_exchange-reply : udp_exchange question arrived ≡ ok reply
unfolding udp_exchange parse u16 u8 build_query serialize Builder.question split_dots trim_end_dots
    read_question Reader.name read_record u32 Reader.bytes join_dots label_text is_utf8 lower
    RType.from_u16 truncated
udp_exchange-reply = refl

udp_exchange-Replies_example :
    (expected : Packet) × (run parse question ≡ ok expected) × IsReply expected reply
udp_exchange-Replies_example = udp_exchange-Replies question arrived reply udp_exchange-reply

-- The root refers to the servers of "ex".
abbrev referral : Packet
referral = record reply {
  answers = [];
  authority =
      record {
        name = host;
        rtype = RType.ns;
        class = class_in;
        ttl = 60;
        rdata = 2 ∷ 110 ∷ 115 ∷ 0 ∷ [];
      }
      ∷ [];
  additional =
      record {
        name = codes "ns";
        rtype = RType.a;
        class = class_in;
        ttl = 60;
        rdata = 10 ∷ 0 ∷ 0 ∷ 1 ∷ [];
      }
      ∷ [];
}

-- A network in which the root says that no name exists.
abbrev absent : Packet
absent = record reply { flags = 0x8183 }

abbrev network : Network ℕ
network = record { random_id = λ w. (w, w + 1); exchange = λ q ip w. (ok absent, w) }

iterative_resolve-absent : packet_of (iterative_resolve network RType.a host 0).0 ≡ some absent
unfolding iterative_resolve rcode
iterative_resolve-absent = refl

iterative_resolve-IsFiltered_example :
    IsFiltered network (nested_lookup network) RType.a host absent
iterative_resolve-IsFiltered_example =
    iterative_resolve-IsFiltered network RType.a host 0 absent iterative_resolve-absent

root_zone : IsZoneName (dot ∷ [])
unfolding lower
root_zone = record { plain = inl refl; lower = refl }

host_plain : IsPlain host
unfolding trim_end_dots
host_plain = inr (ground arith, refl)

on_reply-Moves_example :
    Moves
      (start host)
      (on_reply network
        (λ ns w. (serv_fail all_failed, w))
        RType.a
        (start host)
        (keep_bailiwick (dot ∷ []) referral)
        0).0
on_reply-Moves_example =
    on_reply-Moves network (λ ns w. (serv_fail all_failed, w)) RType.a (start host) referral 0
      root_zone (host_plain, tt)

-- Whole numbers in the place of `f64`.
abbrev pub whole : Float ℕ
whole = record {
  of_nat = λ n. n;
  of_nanos = λ n. n / 10 ^ 9;
  add = λ a b. a + b;
  sub = λ a b. a - b;
  mul = λ a b. a;
  least = min;
  is_le = λ a b. true;
  is_less = λ a b. false;
}

abbrev limiter : RateLimiter ℕ
limiter = new whole 0 5 7 100

limiter_limit : limiter.global_limit ≢ 0
unfolding new
limiter_limit = ground arith

abbrev calls : List Call
calls = (1, codes "a") ∷ (2, codes "b") ∷ (3, codes "a") ∷ []

limiter_count : counted 0 limiter + length calls < 2 ^ 64
unfolding new
limiter_count = omega arith

passed-in_window_example :
    passed whole (λ ip. 0) calls limiter
    ≡ min (within_source whole (λ ip. 0) calls limiter) (limiter.global_limit - counted 0 limiter)
passed-in_window_example =
    passed-in_window whole (λ ip. 0) 0 calls limiter limiter_limit (refl, (refl, (refl, tt)))
      limiter_count
