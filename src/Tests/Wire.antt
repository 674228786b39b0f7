-- ===== src/Tests/Wire.antt =====
-- A message, a name and the flag bits at concrete inputs.
use ironbind.Prelude.{◌≡◌, ◌≢◌, refl, true, [], ◌∷◌, ok, err, All, arith}
use ironbind.Prelude.Text.{Bytes, codes, lower, is_utf8, join_dots, dot}
use ironbind.Proto.RType.{RType, to_u16, from_u16, rtype_eq}
use ironbind.Proto.Packet.{Question, Record, Packet, class_in}
use ironbind.Proto.Reader.{out_of_fuel, name, run, bytes, u8, u16, u32}
use ironbind.Proto.Reader.Total.{name-ne-out_of_fuel}
use ironbind.Proto.Message.{parse, serialize, decompress_rdata, read_question, read_record}
use ironbind.Proto.Names.{IsLabel}
use ironbind.Proto.Returns.{IsByte}
use ironbind.Proto.Typed.{FitsPacket, parse-FitsPacket}
use ironbind.Proto.RoundTrip.{IsName, IsQuestion, IsRecord}
use ironbind.Proto.RoundTrip.Message.{IsWire, as_read, parse-serialize}

abbrev host : Bytes
host = codes "www.example"

IsLabel-www : IsLabel (codes "www")
unfolding lower is_utf8
IsLabel-www = record {
  nonempty = omega arith;
  short = omega arith;
  no_dot = ground arith;
  is_lower = refl;
  is_text = refl;
}

IsLabel-example : IsLabel (codes "example")
unfolding lower is_utf8
IsLabel-example = record {
  nonempty = omega arith;
  short = omega arith;
  no_dot = ground arith;
  is_lower = refl;
  is_text = refl;
}

host-IsName : IsName host
unfolding join_dots
host-IsName = record {
  labels = codes "www" ∷ codes "example" ∷ [];
  all = (IsLabel-www, (IsLabel-example, tt));
  is_joined = refl;
}

abbrev question : Question
question = record { name = host; qtype = RType.a; qclass = class_in }

abbrev address : Record
address = record {
  name = host;
  rtype = RType.a;
  class = class_in;
  ttl = 300;
  rdata = 192 ∷ 0 ∷ 2 ∷ 1 ∷ [];
}

abbrev pub answer : Packet
answer = record {
  id = 4660;
  flags = 0x8180;
  questions = question ∷ [];
  answers = address ∷ [];
  authority = [];
  additional = [];
  edns_udp_size = 1232;
  dnssec_ok = true;
}

question-IsQuestion : IsQuestion question
unfolding from_u16 to_u16
question-IsQuestion = record {
  name = host-IsName;
  qtype = refl;
  qtype_fits = omega arith;
  qclass_fits = omega arith;
}

address-IsRecord : IsRecord address
unfolding from_u16 to_u16
address-IsRecord = record {
  name = host-IsName;
  rtype = refl;
  rtype_fits = omega arith;
  class_fits = omega arith;
  ttl_fits = omega arith;
  rdata_fits = omega arith;
  settled = λ pre post. unfold decompress_rdata in refl;
}

pub answer-IsWire : IsWire answer
answer-IsWire = record {
  id_fits = omega arith;
  flags_fit = omega arith;
  edns_fits = omega arith;
  questions_fit = omega arith;
  answers_fit = omega arith;
  authority_fits = omega arith;
  additional_fits = omega arith;
  questions = (question-IsQuestion, tt);
  answers = (address-IsRecord, tt);
  authority = tt;
  additional = tt;
  no_opt = tt;
}

parse-serialize_example : run parse (serialize answer true) ≡ ok (as_read answer true)
parse-serialize_example = parse-serialize answer true answer-IsWire

-- A pointer to itself.
name-ne-out_of_fuel_example : (name (0xc0 ∷ 0x00 ∷ []) 0).0 ≢ err out_of_fuel
name-ne-out_of_fuel_example = name-ne-out_of_fuel (0xc0 ∷ 0x00 ∷ []) 0

-- A query for the addresses of the root, with an OPT record that asks for signatures.
abbrev root_query : Bytes
root_query =
    0 ∷ 7 ∷ 1 ∷ 0 ∷ 0 ∷ 1 ∷ 0 ∷ 0 ∷ 0 ∷ 0 ∷ 0 ∷ 1 ∷ 0 ∷ 0 ∷ 1 ∷ 0 ∷ 1 ∷ 0 ∷ 0 ∷ 41 ∷ 4 ∷ 208 ∷ 0 ∷ 0
    ∷ 128 ∷ 0 ∷ 0 ∷ 0 ∷ []

abbrev root_packet : Packet
root_packet = record {
  id = 7;
  flags = 0x0100;
  questions = record { name = dot ∷ []; qtype = RType.a; qclass = class_in } ∷ [];
  answers = [];
  authority = [];
  additional = [];
  edns_udp_size = 1232;
  dnssec_ok = true;
}

root_query_parsed : run parse root_query ≡ ok root_packet
unfolding parse u16 u8 read_question name from_u16 read_record u32 bytes rtype_eq
root_query_parsed = refl

root_query_bytes : All IsByte root_query
root_query_bytes = ground arith

parse-FitsPacket_example : FitsPacket root_packet
parse-FitsPacket_example =
    parse-FitsPacket root_query root_packet root_query_bytes root_query_parsed
