-- ===== src/Proto/Typed.antt =====
-- src/proto.rs: the numbers of what `Parser::parse` returns have the widths of the Rust types.
use ironbind.Prelude.{
  ℕ, suc, ◌+◌, ◌^◌, ◌<◌, ◌≤◌, ◌≡◌, ap, false, List, [], ◌∷◌, ok, length, length-append, All,
  All-append, arith, Bool-cases, inl, inr,
}
use ironbind.Prelude.Text.{Bytes}
use ironbind.Proto.RType
use ironbind.Proto.RType.{to_u16, from_u16, IsCanonical, to_u16-from_u16, rtype_eq}
use ironbind.Proto.Packet.{Question, Record, Packet}
use ironbind.Proto.Reader
use ironbind.Proto.Reader.{
  IoError, Reader, then_read, ◌>>=◌, pure, run, peek, advance, u8, u16, u32,
}
use ironbind.Proto.Message.{
  decompress_rdata, read_record, read_question, times, Edns, extract_opt, no_edns, parse, tell, ask,
}
use ironbind.Proto.Returns.{
  IsByte, Returns, Returns-bind, Returns-pure, Returns-any, u16-Returns, u32-Returns, Section,
  times-Returns, Fits16,
}

-- The numbers of a question fit their types, and its type is the variant for its number.
pub record FitsQuestion (q : Question) : Type 0 where
  pub qtype : IsCanonical q.qtype
  pub qtype_fits : to_u16 q.qtype < 2 ^ 16
  pub qclass_fits : q.qclass < 2 ^ 16

pub record FitsRecord (r : Record) : Type 0 where
  pub rtype : IsCanonical r.rtype
  pub rtype_fits : to_u16 r.rtype < 2 ^ 16
  pub class_fits : r.class < 2 ^ 16
  pub ttl_fits : r.ttl < 2 ^ 32

-- The numbers of a packet fit, its sections have fewer than 2 ^ 16 entries, and no OPT is left.
pub record FitsPacket (p : Packet) : Type 0 where
  pub id_fits : p.id < 2 ^ 16
  pub flags_fit : p.flags < 2 ^ 16
  pub edns_fits : p.edns_udp_size < 2 ^ 16
  pub questions_fit : length p.questions < 2 ^ 16
  pub answers_fit : length p.answers < 2 ^ 16
  pub authority_fits : length p.authority < 2 ^ 16
  pub additional_fits : length p.additional < 2 ^ 16
  pub questions : All FitsQuestion p.questions
  pub answers : All FitsRecord p.answers
  pub authority : All FitsRecord p.authority
  pub additional : All FitsRecord p.additional
  pub no_opt : All (λ r. rtype_eq r.rtype RType.opt ≡ false) p.additional

from_u16-IsCanonical : (n : ℕ) → IsCanonical (from_u16 n)
from_u16-IsCanonical n = ap from_u16 (to_u16-from_u16 n)

from_u16_fits : (n : ℕ) → Fits16 n → to_u16 (from_u16 n) < 2 ^ 16
from_u16_fits n h = rw (to_u16-from_u16 n) h

read_question-Returns : Returns FitsQuestion read_question
unfolding read_question
read_question-Returns =
    Returns-bind _ FitsQuestion Reader.name _ (Returns-any Reader.name) (λ name n.
      Returns-bind Fits16 FitsQuestion u16 _ u16-Returns (λ t h.
        Returns-bind Fits16 FitsQuestion u16 _ u16-Returns (λ c k.
          Returns-pure FitsQuestion _ (record {
            qtype = from_u16-IsCanonical t;
            qtype_fits = from_u16_fits t h;
            qclass_fits = k;
          }))))

abbrev record_of : Bytes → ℕ → ℕ → ℕ → ℕ → Bytes → Bytes → Record
record_of name t class ttl offset raw buf = record {
  name = name;
  rtype = from_u16 t;
  class = class;
  ttl = ttl;
  rdata = decompress_rdata buf (from_u16 t) raw offset;
}

read_record-Returns : Returns FitsRecord read_record
unfolding read_record
read_record-Returns = Returns-bind _ FitsRecord Reader.name _ (Returns-any Reader.name) (λ name n.
    Returns-bind Fits16 FitsRecord u16 _ u16-Returns (λ t h.
      Returns-bind Fits16 FitsRecord u16 _ u16-Returns (λ c k.
        Returns-bind (λ v. v < 2 ^ 32) FitsRecord u32 _ u32-Returns
          (λ ttl l. Returns-bind _ FitsRecord u16 _ (Returns-any u16) (λ len x1.
            Returns-bind _ FitsRecord tell
              (λ offset.
                Reader.bytes len
                >>= (λ raw. ask >>= (λ buf. pure (record_of name t c ttl offset raw buf))))
              (Returns-any tell)
              (λ offset x2.
                Returns-bind _ FitsRecord (Reader.bytes len)
                  (λ raw. ask >>= (λ buf. pure (record_of name t c ttl offset raw buf)))
                  (Returns-any (Reader.bytes len))
                  (λ raw x3.
                    Returns-bind _ FitsRecord ask
                      (λ buf. pure (record_of name t c ttl offset raw buf)) (Returns-any ask)
                      (λ buf x4.
                        Returns-pure FitsRecord (record_of name t c ttl offset raw buf) (record {
                          rtype = from_u16-IsCanonical t;
                          rtype_fits = from_u16_fits t h;
                          class_fits = k;
                          ttl_fits = l;
                        })))))))))

-- What the loop over the additional records has so far, with room for the records ahead of it.
record FitsEdns (e : Edns) (room : ℕ) : Type 0 where
  size_fits : e.udp_size < 2 ^ 16
  fit : All FitsRecord e.additional
  no_opt : All (λ r. rtype_eq r.rtype RType.opt ≡ false) e.additional
  few : length e.additional ≤ room

extract_opt-FitsEdns :
    (rs : List Record) (e : Edns) (n : ℕ)
    → FitsEdns e n
    → All FitsRecord rs
    → FitsEdns (extract_opt e rs) (n + length rs)
unfolding extract_opt
extract_opt-FitsEdns [] e n h k = record {
  size_fits = h.size_fits;
  fit = h.fit;
  no_opt = h.no_opt;
  few = omega (arith, h.few);
}
extract_opt-FitsEdns (r ∷ rs) e n h (k, ks) =
    let shift : (n + 1) + length rs ≡ n + suc (length rs) = omega arith in
    elim (Bool-cases (rtype_eq r.rtype RType.opt)) [
      | inl o ↦
          rw (o, ← shift)
            (extract_opt-FitsEdns rs _ (n + 1)
              (record {
                size_fits = k.class_fits;
                fit = h.fit;
                no_opt = h.no_opt;
                few = omega (arith, h.few);
              })
              ks)
      | inr o ↦
          rw (o, ← shift)
            (extract_opt-FitsEdns rs _ (n + 1)
              (record {
                size_fits = h.size_fits;
                fit = All-append FitsRecord e.additional (r ∷ []) h.fit (k, tt);
                no_opt = All-append _ e.additional (r ∷ []) h.no_opt (o, tt);
                few = omega (arith, h.few, length-append e.additional (r ∷ []));
              })
              ks)
    ]

no_edns-FitsEdns : FitsEdns no_edns 0
no_edns-FitsEdns = record { size_fits = omega arith; fit = tt; no_opt = tt; few = omega arith }

parse-Returns : Returns FitsPacket parse
unfolding parse
parse-Returns = Returns-bind Fits16 FitsPacket u16 _ u16-Returns (λ id i.
    Returns-bind Fits16 FitsPacket u16 _ u16-Returns (λ flags f.
      Returns-bind Fits16 FitsPacket u16 _ u16-Returns (λ qd d.
        Returns-bind Fits16 FitsPacket u16 _ u16-Returns (λ an a.
          Returns-bind Fits16 FitsPacket u16 _ u16-Returns (λ ns n.
            Returns-bind Fits16 FitsPacket u16 _ u16-Returns (λ ar r.
              Returns-bind (Section FitsQuestion qd) FitsPacket (times qd read_question) _
                (times-Returns FitsQuestion qd read_question read_question-Returns)
                (λ qs q.
                  Returns-bind (Section FitsRecord an) FitsPacket (times an read_record) _
                    (times-Returns FitsRecord an read_record read_record-Returns)
                    (λ answers b.
                      Returns-bind (Section FitsRecord ns) FitsPacket (times ns read_record) _
                        (times-Returns FitsRecord ns read_record read_record-Returns)
                        (λ authority c.
                          Returns-bind (Section FitsRecord ar) FitsPacket (times ar read_record) _
                            (times-Returns FitsRecord ar read_record read_record-Returns)
                            (λ more e.
                              let edns = extract_opt-FitsEdns more no_edns 0 no_edns-FitsEdns e.0 in
                              Returns-pure FitsPacket _ (record {
                                id_fits = i;
                                flags_fit = f;
                                edns_fits = edns.size_fits;
                                questions_fit = omega (arith, q.1, d);
                                answers_fit = omega (arith, b.1, a);
                                authority_fits = omega (arith, c.1, n);
                                additional_fits = omega (arith, edns.few, e.1, r);
                                questions = q.0;
                                answers = b.0;
                                authority = c.0;
                                additional = edns.fit;
                                no_opt = edns.no_opt;
                              })))))))))))

-- A packet that parses from bytes has in each field a number of its Rust type: 16 bits for the
-- identifier, the flags, the types, the classes and the EDNS size, 32 bits for the TTLs. Each type is
-- the variant for its number, each section has fewer than 2 ^ 16 entries, and no OPT record is left.
pub parse-FitsPacket :
    (data_bytes : Bytes) (p : Packet)
    → All IsByte data_bytes
    → run parse data_bytes ≡ ok p
    → FitsPacket p
parse-FitsPacket data_bytes p bytes e = parse-Returns.holds data_bytes 0 p bytes e
