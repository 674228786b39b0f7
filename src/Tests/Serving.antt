-- ===== src/Tests/Serving.antt =====
-- A query from a client that may not recurse, and a transfer without a signature.
use ironbind.Prelude.{ℕ, ◌⊎◌, ◌+◌, ◌≡◌, ◌≢◌, refl, false, some, [], ◌∷◌, ok, err}
use ironbind.Prelude.Text.{
  Bytes, codes, lower, split_dots, trim_end_dots, join_dots, is_utf8, bytes_eq, ends_with,
}
use ironbind.Prelude.Assoc.{bytes_key, insert, lookup}
use ironbind.Proto.RType
use ironbind.Proto.RType.{RType}
use ironbind.Proto.Packet.{
  Packet, class_in, set_rcode, rcode_refused, is_response, opcode, new_response,
}
use ironbind.Proto.Builder
use ironbind.Proto.Reader
use ironbind.Proto.Reader.{run, u8, u16, u32, label_text}
use ironbind.Proto.Message.{parse, serialize, read_question, read_record}
use ironbind.Resolver.{Network}
use ironbind.Tests.Validating.{trusting}
use ironbind.Cache.{empty}
use ironbind.Config.Network.{v4}
use ironbind.Server.Responses.{error_response}
use ironbind.Server.State.{State, Outside, Times, inline, respond, base_response}
use ironbind.Server.Query.{handle_packet, answer_question}
use ironbind.Server.Authority.{best_zone}
use ironbind.Server.Transfer.{maybe_zone_transfer, maybe_zone_transfer-IsAuthentic}
use ironbind.Resolver.Exchange.{timed_out}
use ironbind.Metrics
use ironbind.Tsig
use ironbind.Tsig.{TsigKeyring, insert_key, is_empty_ring, canonical, verify_message}
use ironbind.Tsig.Authentic.{IsAuthentic}
use ironbind.Tsig.Extract.{extract_tsig}
use ironbind.ZoneManager
use ironbind.Zone
use ironbind.Zone.{Zone, is_authoritative_for}
use ironbind.Cache.{get}
use ironbind.Config.Network.{contains, mask}
use ironbind.Proto.Packet.{rd}
use ironbind.Server.State.{defer, resume, recursive}
use ironbind.Server.Query.{handle, handle_query, uncached}
use ironbind.Server.Closed.{SameAndClosed, handle_packet-SameAndClosed}
use ironbind.Server.Counted.{Looked}
use ironbind.Server.Counts.{handle_query-counts}
use ironbind.Server.Deferred.{handle_query-resume}
use ironbind.Server.Settled.{handle_query-ne-recursive}
use ironbind.Server.Zones.{BestOf, best_zone-BestOf}

abbrev pub asked : Packet
asked = record {
  id = 7;
  flags = 0x0100;
  questions = record { name = codes "ex"; qtype = RType.a; qclass = class_in } ∷ [];
  answers = [];
  authority = [];
  additional = [];
  edns_udp_size = 0;
  dnssec_ok = false;
}

abbrev silence : Network ℕ
silence = record { random_id = λ w. (w, w + 1); exchange = λ q ip w. (err timed_out, w) }

abbrev pub outside : Outside ℕ
outside = record { network = silence; hmac = λ s m. []; sha1 = λ m. []; crypto = trusting }

abbrev keys : TsigKeyring
keys =
    insert_key
      (record { name = codes "transfer-key."; algorithm = codes "hmac-sha256."; secret = 1 ∷ [] })
      Tsig.new

abbrev pub state : State ℕ
state = record {
  zones = [];
  cache = empty;
  settings = record {
    tsig_require_all = false;
    dnssec_validate = false;
    dnssec_strict = false;
    neg_cache_ttl = 300;
    allow_recursion = [];
    forwarders = [];
    use_forwarders = false;
  };
  tsig_keys = keys;
  metrics = Metrics.new;
  world = 0;
}

abbrev pub times : Times
times = record { clock = 0; now = 0; later = 0; elapsed = 0 }

abbrev refusal : Packet
refusal = set_rcode rcode_refused (base_response asked)

refused : (handle_packet outside times inline (v4 1) asked state).0 ≡ respond refusal false
unfolding handle_packet is_response opcode new_response set_rcode answer_question best_zone
refused = refl

abbrev transfer_query : Packet
transfer_query = record asked {
  questions = record { name = codes "ex"; qtype = RType.axfr; qclass = class_in } ∷ [];
}

abbrev message : Bytes
message = serialize transfer_query false

have_keys : is_empty_ring keys ≡ false
unfolding is_empty_ring insert_key insert Tsig.new
have_keys = refl

refused_transfer :
    maybe_zone_transfer (λ s m. []) 0 message [] ZoneManager.new keys
    ≡ some (error_response transfer_query rcode_refused ∷ [])
unfolding maybe_zone_transfer parse u16 u8 serialize Builder.question split_dots trim_end_dots
    read_question Reader.name RType.rtype_eq RType.from_u16 is_empty_ring insert_key insert Tsig.new
    verify_message extract_tsig u32 read_record label_text is_utf8 lower join_dots
refused_transfer = refl

maybe_zone_transfer-IsAuthentic_example :
    ((pkt : Packet) × (run parse message ≡ ok pkt)
      × ((error_response transfer_query rcode_refused ∷ [])
          ≡ error_response pkt rcode_refused ∷ []))
    ⊎ IsAuthentic (λ s m. []) 0 message keys
maybe_zone_transfer-IsAuthentic_example =
    maybe_zone_transfer-IsAuthentic (λ s m. []) 0 message [] ZoneManager.new keys
      (error_response transfer_query rcode_refused ∷ []) have_keys refused_transfer

-- The cache and the network may be any others.
handle_packet-SameAndClosed_example :
    SameAndClosed state
      (handle_packet outside times inline (v4 1) asked (record state { cache = empty; world = 5 }))
      (handle_packet outside times inline (v4 1) asked state)
handle_packet-SameAndClosed_example =
    handle_packet-SameAndClosed outside times asked inline (v4 1) state empty 5 refl

abbrev pub open_state : State ℕ
open_state = record state {
  settings = record state.settings { allow_recursion = record { address = v4 0; prefix = 0 } ∷ [] };
}

abbrev question_bytes : Bytes
question_bytes = serialize asked false

deferred : (handle_query outside times defer (v4 1) question_bytes open_state).0 ≡ recursive
unfolding handle_query handle handle_packet answer_question best_zone contains mask uncached get
    parse u16 u8 serialize Builder.question split_dots trim_end_dots read_question Reader.name
    RType.rtype_eq RType.from_u16 u32 read_record label_text is_utf8 lower join_dots is_response
    opcode rd lookup empty
deferred = refl

handle_query-resume_example :
    handle_query outside times resume
      (v4 1)
      question_bytes
      (handle_query outside times defer (v4 1) question_bytes open_state).1
    ≡ handle_query outside times inline (v4 1) question_bytes open_state
handle_query-resume_example =
    handle_query-resume outside times (v4 1) question_bytes open_state deferred

abbrev parent_zone : Zone
parent_zone = Zone.new (codes "ex")

abbrev child_zone : Zone
child_zone = Zone.new (codes "a.ex")

best_zone-BestOf_example : BestOf (codes "b.a.ex") (child_zone ∷ parent_zone ∷ []) (some child_zone)
unfolding best_zone is_authoritative_for Zone.new bytes_eq trim_end_dots lower ends_with
best_zone-BestOf_example = best_zone-BestOf (codes "b.a.ex") (child_zone ∷ parent_zone ∷ [])

handle_query-ne-recursive_example :
    (handle_query outside times resume (v4 1) question_bytes open_state).0 ≢ recursive
handle_query-ne-recursive_example =
    handle_query-ne-recursive outside times resume (v4 1) refl question_bytes open_state

handle_query-counts_example :
    let done = (handle_query outside times inline (v4 1) question_bytes open_state).1 in
    (done.metrics.total_queries ≡ 1) × Looked false open_state.metrics done.metrics
handle_query-counts_example =
    handle_query-counts outside times inline (v4 1) question_bytes open_state
