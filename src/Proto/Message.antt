-- ===== src/Proto/Message.antt =====
-- src/proto.rs: `decompress_rdata`, `Parser::record`, `Parser::parse`, the parsers of DNSSEC data,
-- `Dnskey::key_tag` and `serialize`.
use ironbind.Prelude.{
  ℕ, zero, suc, ◌+◌, ◌*◌, ◌%◌, ◌^◌, Bool, false, not, ◌&&◌, none, some, List, [], ◌∷◌, ◌++◌, Result,
  ok, err, ltb, ◌==◌, if◌then◌else◌, length, get_elem?, bit_and,
}
use ironbind.Prelude.Text.{Bytes}
use ironbind.Proto.RType.{RType, from_u16, rtype_eq}
use ironbind.Proto.Packet.{Question, Record, Packet}
use ironbind.Proto.Reader
use ironbind.Proto.Reader.{IoError, Reader, ◌>>=◌, pure}
use ironbind.Proto.Builder
use ironbind.Proto.Builder.{◌▷◌, canonical_name}

-- `match p.name() { Ok(n) => .., Err(_) => rdata.to_vec() }`
abbrev or_raw {ℓ} : {A : Type ℓ} → Bytes → (A → Bytes) → Result A IoError → Bytes
or_raw rdata f (ok x) = f x
or_raw rdata f (err e) = rdata

-- `u16::from_be_bytes([rdata[i], rdata[i + 1]])`, where the caller has tested the length.
abbrev pub be16_at : Bytes → ℕ → ℕ
be16_at b i = byte_at b i * 2 ^ 8 + byte_at b (i + 1)
  where
    byte_at : Bytes → ℕ → ℕ
    byte_at b i = elim (get_elem? b i) [ none ↦ 0 | some v ↦ v ]

unfoldable pub soa_bytes : Reader Bytes
soa_bytes = do
  mname ← Reader.name
  rname ← Reader.name
  serial ← Reader.u32
  refresh ← Reader.u32
  retry ← Reader.u32
  expire ← Reader.u32
  minimum ← Reader.u32
  pure (
      []
      ▷ Builder.name mname
      ▷ Builder.name rname
      ▷ Builder.u32 serial
      ▷ Builder.u32 refresh
      ▷ Builder.u32 retry
      ▷ Builder.u32 expire
      ▷ Builder.u32 minimum)

unfoldable pub decompress_rdata : Bytes → RType → Bytes → ℕ → Bytes
unfolding soa_bytes
decompress_rdata pkt RType.ns rdata offset = or_raw rdata canonical_name (Reader.name pkt offset).0
decompress_rdata pkt RType.cname rdata offset =
    or_raw rdata canonical_name (Reader.name pkt offset).0
decompress_rdata pkt RType.ptr rdata offset = or_raw rdata canonical_name (Reader.name pkt offset).0
decompress_rdata pkt RType.mx rdata offset =
    if ltb (length rdata) 2
    then rdata
    else or_raw rdata (λ n. [] ▷ Builder.u16 (be16_at rdata 0) ▷ Builder.name n)
        (Reader.name pkt (offset + 2)).0
decompress_rdata pkt RType.soa rdata offset = or_raw rdata (λ b. b) (soa_bytes pkt offset).0
decompress_rdata pkt RType.srv rdata offset =
    if ltb (length rdata) 6
    then rdata
    else or_raw rdata
        (λ n.
          []
          ▷ Builder.u16 (be16_at rdata 0)
          ▷ Builder.u16 (be16_at rdata 2)
          ▷ Builder.u16 (be16_at rdata 4)
          ▷ Builder.name n)
        (Reader.name pkt (offset + 6)).0
decompress_rdata pkt t rdata offset = rdata

-- The cursor and the buffer, as `self.pos` and `self.buf`.
unfoldable pub tell : Reader ℕ
tell buf pos = (ok pos, pos)

unfoldable pub ask : Reader Bytes
ask buf pos = (ok buf, pos)

-- `Parser::record`
unfoldable pub read_record : Reader Record
unfolding tell ask
read_record = do
  name ← Reader.name
  rtype ← Reader.u16
  class ← Reader.u16
  ttl ← Reader.u32
  rdlen ← Reader.u16
  rdata_offset ← tell
  rdata_raw ← Reader.bytes rdlen
  buf ← ask
  pure (record {
    name = name;
    rtype = from_u16 rtype;
    class = class;
    ttl = ttl;
    rdata = decompress_rdata buf (from_u16 rtype) rdata_raw rdata_offset;
  })

unfoldable pub read_question : Reader Question
read_question = do
  name ← Reader.name
  qtype ← Reader.u16
  qclass ← Reader.u16
  pure (record { name = name; qtype = from_u16 qtype; qclass = qclass })

-- `(0..n).map(|_| m).collect()`, which stops at the first error.
unfoldable pub times {ℓ} : {A : Type ℓ} → ℕ → Reader A → Reader (List A)
times zero m = pure []
times (suc n) m = do x ← m; xs ← times n m; pure (x ∷ xs)

-- The loop over the additional section: OPT records set the two fields, the last one last.
pub record Edns : Type 0 where
  pub udp_size : ℕ
  pub dnssec_ok : Bool
  pub additional : List Record

unfoldable pub extract_opt : Edns → List Record → Edns
extract_opt e [] = e
extract_opt e (r ∷ rs) =
    extract_opt
      (if rtype_eq r.rtype RType.opt
        then record e { udp_size = r.class; dnssec_ok = not (bit_and r.ttl 0x8000 == 0) }
        else record e { additional = e.additional ++ (r ∷ []) })
      rs

abbrev pub no_edns : Edns
no_edns = record { udp_size = 0; dnssec_ok = false; additional = [] }

-- `Parser::parse`
unfoldable pub parse : Reader Packet
unfolding times extract_opt
parse = do
  id ← Reader.u16
  flags ← Reader.u16
  qdcount ← Reader.u16
  ancount ← Reader.u16
  nscount ← Reader.u16
  arcount ← Reader.u16
  questions ← times qdcount read_question
  answers ← times ancount read_record
  authority ← times nscount read_record
  additional_raw ← times arcount read_record
  let e = extract_opt no_edns additional_raw
  pure (record {
    id = id;
    flags = flags;
    questions = questions;
    answers = answers;
    authority = authority;
    additional = e.additional;
    edns_udp_size = e.udp_size;
    dnssec_ok = e.dnssec_ok;
  })

-- `serialize`; each count is cut to 16 bits.
unfoldable pub serialize : Packet → Bool → Bytes
unfolding Builder.u16 Builder.opt
serialize pkt include_edns =
    let with_opt = include_edns && ltb 0 pkt.edns_udp_size in
    let b =
      []
      ▷ Builder.u16 pkt.id
      ▷ Builder.u16 pkt.flags
      ▷ Builder.u16 (length pkt.questions % 2 ^ 16)
      ▷ Builder.u16 (length pkt.answers % 2 ^ 16)
      ▷ Builder.u16 (length pkt.authority % 2 ^ 16)
      ▷ Builder.u16 ((length pkt.additional + (if with_opt then 1 else 0)) % 2 ^ 16)
      ▷ Builder.each Builder.question pkt.questions
      ▷ Builder.each Builder.put_record pkt.answers
      ▷ Builder.each Builder.put_record pkt.authority
      ▷ Builder.each Builder.put_record pkt.additional in
    if with_opt then b ▷ Builder.opt pkt.edns_udp_size pkt.dnssec_ok else b
