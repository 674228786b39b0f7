-- ===== src/Proto/RoundTrip.antt =====
-- src/proto.rs: `Parser::parse` on the bytes of `serialize`, question by question and record by record.
pub mod Data
pub mod Message
use ironbind.Prelude.{
  ℕ, ◌+◌, ◌%◌, ◌^◌, ◌<◌, ◌≡◌, refl, sym, ap, ◌∙◌, List, [], ◌∷◌, ◌++◌, append-nil, append_assoc, ok,
  arith, length, All,
}
use ironbind.Prelude.Text.{Bytes}
use ironbind.Proto.RType.{to_u16, from_u16, IsCanonical}
use ironbind.Proto.Packet.{Question, Record}
use ironbind.Proto.Reader
use ironbind.Proto.Reader.{Reader, ◌>>=◌, pure, joined}
use ironbind.Proto.Message.{decompress_rdata, read_record, read_question, tell, ask}
use ironbind.Proto.Builder.{be16, be32}
use ironbind.Proto.Builder.Append.{name_bytes, question_bytes, record_bytes}
use ironbind.Proto.Reads.{
  Reads, Reads-pure, Reads-bind, Reads-eq, Reads-u16, Reads-u32, Reads-bytes,
}
use ironbind.Proto.Names.{IsLabel}
use ironbind.Proto.Names.Read.{Reads-name}

-- The names that the wire format carries unchanged: "." and labels joined by dots.
pub record IsName (n : Bytes) : Type 0 where
  pub labels : List Bytes
  pub all : All IsLabel labels
  pub is_joined : n ≡ joined labels

pub record IsQuestion (q : Question) : Type 0 where
  pub name : IsName q.name
  pub qtype : IsCanonical q.qtype
  pub qtype_fits : to_u16 q.qtype < 2 ^ 16
  pub qclass_fits : q.qclass < 2 ^ 16

-- The fields fit the wire, and the names inside the data are not compressed.
pub record IsRecord (r : Record) : Type 0 where
  pub name : IsName r.name
  pub rtype : IsCanonical r.rtype
  pub rtype_fits : to_u16 r.rtype < 2 ^ 16
  pub class_fits : r.class < 2 ^ 16
  pub ttl_fits : r.ttl < 2 ^ 32
  pub rdata_fits : length r.rdata < 2 ^ 16
  pub settled :
      (pre post : Bytes)
      → decompress_rdata (pre ++ (r.rdata ++ post)) r.rtype r.rdata (length pre) ≡ r.rdata

pub Reads-IsName : (n : Bytes) → IsName n → Reads Reader.name (name_bytes n) n
Reads-IsName n h = rw h.is_joined (Reads-name h.labels h.all)

pub Reads-question : (q : Question) → IsQuestion q → Reads read_question (question_bytes q) q
unfolding read_question question_bytes
Reads-question q h =
    Reads-eq _
      (Reads-bind Reader.name _ (Reads-IsName q.name h.name) (
        Reads-bind Reader.u16 _ (Reads-u16 (to_u16 q.qtype) h.qtype_fits)
          (Reads-bind Reader.u16 _ (Reads-u16 q.qclass h.qclass_fits) (Reads-pure _))))
      refl (ap (λ t. record q { qtype = t }) h.qtype)

-- The data of a record: its place in the buffer matters to `decompress_rdata`.
Reads-rdata :
    (r : Record)
    → IsRecord r
    → Reads
        (tell >>= λ offset. Reader.bytes (length r.rdata) >>= λ raw. ask >>= λ buf. pure (record {
          name = r.name;
          rtype = from_u16 (to_u16 r.rtype);
          class = r.class;
          ttl = r.ttl;
          rdata = decompress_rdata buf (from_u16 (to_u16 r.rtype)) raw offset;
        }))
        r.rdata
        r
unfolding tell ask
Reads-rdata r h = record {
  at = λ pre post. rw ((Reads-bytes r.rdata).at pre post, h.rtype, h.settled pre post) refl;
}

pub Reads-record : (r : Record) → IsRecord r → Reads read_record (record_bytes r) r
unfolding read_record record_bytes
Reads-record r h =
    let size : length r.rdata % 2 ^ 16 ≡ length r.rdata = omega (arith, h.rdata_fits) in
    Reads-bind Reader.name _ (Reads-IsName r.name h.name) (
      Reads-bind Reader.u16 _ (Reads-u16 (to_u16 r.rtype) h.rtype_fits) (
        Reads-bind Reader.u16 _ (Reads-u16 r.class h.class_fits) (
          Reads-bind Reader.u32 _ (Reads-u32 r.ttl h.ttl_fits) (
            rw size (
              Reads-bind Reader.u16 _ (Reads-u16 (length r.rdata) h.rdata_fits)
                (Reads-rdata r h))))))
