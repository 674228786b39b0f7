-- ===== src/Proto/RoundTrip/Message.antt =====
-- src/proto.rs: `Parser::parse` on the bytes of `serialize`.
use ironbind.Prelude.{
  ℕ, ◌+◌, ◌%◌, ◌^◌, ◌<◌, ◌≤◌, ◌≡◌, refl, ap, ◌∙◌, Bool, true, false, ◌&&◌, not, List, [], ◌∷◌, ◌++◌,
  append-nil, append_assoc, Result, ok, arith, ltb, ◌==◌, if◌then◌else◌, length, length-append, All,
  All-append, bit_and, Bool-cases, inl, inr,
}
use ironbind.Prelude.Text.{Bytes, dot, bytes_eq}
use ironbind.Proto.RType.{RType, to_u16, from_u16, rtype_eq}
use ironbind.Proto.Packet.{Question, Record, Packet}
use ironbind.Proto.Reader.{IoError, Reader, run, u16}
use ironbind.Proto.Message.{
  read_record, read_question, times, Edns, extract_opt, no_edns, parse, serialize, decompress_rdata,
}
use ironbind.Proto.Builder
use ironbind.Proto.Builder.{be16, be32, ◌▷◌}
use ironbind.Proto.Builder.Append.{
  name_bytes, question_bytes, record_bytes, each_bytes, question-append, put_record-append,
  each-append,
}
use ironbind.Proto.Reads.{Reads, Reads-pure, Reads-bind, Reads-eq, Reads-u16, Reads-times}
use ironbind.Proto.RoundTrip.{IsQuestion, IsRecord, Reads-question, Reads-record}

-- Additional records do not include OPT, which the parser takes out.
pub record IsWire (p : Packet) : Type 0 where
  pub id_fits : p.id < 2 ^ 16
  pub flags_fit : p.flags < 2 ^ 16
  pub edns_fits : p.edns_udp_size < 2 ^ 16
  pub questions_fit : length p.questions < 2 ^ 16
  pub answers_fit : length p.answers < 2 ^ 16
  pub authority_fits : length p.authority < 2 ^ 16
  pub additional_fits : length p.additional + 1 < 2 ^ 16
  pub questions : All IsQuestion p.questions
  pub answers : All IsRecord p.answers
  pub authority : All IsRecord p.authority
  pub additional : All IsRecord p.additional
  pub no_opt : All (λ r. rtype_eq r.rtype RType.opt ≡ false) p.additional

-- The OPT record as a record like any other.
abbrev opt_record : Packet → Record
opt_record p = record {
  name = dot ∷ [];
  rtype = RType.opt;
  class = p.edns_udp_size;
  ttl = if p.dnssec_ok then 0x8000 else 0;
  rdata = [];
}

abbrev has_opt : Packet → Bool → Bool
has_opt p e = e && ltb 0 p.edns_udp_size

abbrev pub opt_records : Packet → Bool → List Record
opt_records p e = if has_opt p e then opt_record p ∷ [] else []

pub each_bytes-append :
    (w : Record → Bytes) (xs ys : List Record)
    → each_bytes w (xs ++ ys) ≡ each_bytes w xs ++ each_bytes w ys
unfolding each_bytes
each_bytes-append w [] ys = refl
each_bytes-append w (x ∷ xs) ys = simp (each_bytes-append w xs ys, append_assoc)

-- What `serialize` writes, section by section.
abbrev message_bytes : Packet → List Record → Bytes
message_bytes p extra =
    be16 p.id
    ++ (be16 p.flags
        ++ (be16 (length p.questions % 2 ^ 16)
            ++ (be16 (length p.answers % 2 ^ 16)
                ++ (be16 (length p.authority % 2 ^ 16)
                    ++ (be16 (length (p.additional ++ extra) % 2 ^ 16)
                        ++ (each_bytes question_bytes p.questions
                            ++ (each_bytes record_bytes p.answers
                                ++ (each_bytes record_bytes p.authority
                                    ++ (each_bytes record_bytes (p.additional ++ extra)
                                        ++ [])))))))))

each_questions :
    (qs : List Question) (b : Bytes)
    → Builder.each Builder.question qs b ≡ b ++ each_bytes question_bytes qs
each_questions = each-append Builder.question question_bytes question-append

each_records :
    (rs : List Record) (b : Bytes)
    → Builder.each Builder.put_record rs b ≡ b ++ each_bytes record_bytes rs
each_records = each-append Builder.put_record record_bytes put_record-append

plus_zero : (n : ℕ) → n + 0 ≡ n
plus_zero n = omega arith

pub serialize-message_bytes :
    (p : Packet) (e : Bool) → serialize p e ≡ message_bytes p (opt_records p e)
unfolding serialize Builder.u16 each_bytes record_bytes name_bytes bytes_eq to_u16
serialize-message_bytes p e = elim (Bool-cases (has_opt p e)) [
  | inl w ↦
      rw (w, serialize)
        (simp (
          each_questions, each_records, each_bytes-append, append_assoc, append-nil, length-append,
          each_bytes,
        ))
  | inr w ↦
      rw (w, serialize) (simp (each_questions, each_records, append_assoc, append-nil, plus_zero))
]

extract_opt_plain :
    (rs more : List Record) (e : Edns)
    → All (λ r. rtype_eq r.rtype RType.opt ≡ false) rs
    → extract_opt e (rs ++ more) ≡ extract_opt (record e { additional = e.additional ++ rs }) more
unfolding extract_opt
extract_opt_plain [] more e h = rw append-nil refl
extract_opt_plain (r ∷ rs) more e h =
    rw (h.0, extract_opt)
      (extract_opt_plain rs more (record e { additional = e.additional ++ (r ∷ []) }) h.1
        ∙ rw (append_assoc e.additional (r ∷ []) rs))

-- What comes back: the EDNS fields only if an OPT record was written.
unfoldable pub as_read : Packet → Bool → Packet
as_read p e = if has_opt p e then p else record p { edns_udp_size = 0; dnssec_ok = false }

opt_record-IsRecord : (p : Packet) → IsWire p → IsRecord (opt_record p)
unfolding decompress_rdata to_u16 from_u16
opt_record-IsRecord p h = record {
  name = record { labels = []; all = tt; is_joined = refl };
  rtype = refl;
  rtype_fits = omega arith;
  class_fits = h.edns_fits;
  ttl_fits = ground arith;
  rdata_fits = omega arith;
  settled = λ pre post. refl;
}

pub opt_records-IsRecord : (p : Packet) (e : Bool) → IsWire p → All IsRecord (opt_records p e)
opt_records-IsRecord p e h = elim (Bool-cases (has_opt p e)) [
  | inl w ↦ rw w (opt_record-IsRecord p h, tt)
  | inr w ↦ rw w tt
]

pub length-opt_records : (p : Packet) (e : Bool) → length (opt_records p e) ≤ 1
length-opt_records p e = ground arith

do_bit : (d : Bool) → not (bit_and (if d then 0x8000 else 0) 0x8000 == 0) ≡ d
do_bit true = refl
do_bit false = refl

extract_opt_records :
    (p : Packet) (e : Bool)
    → IsWire p
    → extract_opt no_edns (p.additional ++ opt_records p e) ≡ record {
      udp_size = (as_read p e).edns_udp_size;
      dnssec_ok = (as_read p e).dnssec_ok;
      additional = p.additional;
    }
unfolding as_read extract_opt rtype_eq
extract_opt_records p e h =
    extract_opt_plain p.additional (opt_records p e) no_edns h.no_opt
    ∙ (elim (Bool-cases (has_opt p e)) [ inl w ↦ rw w (rw do_bit refl) | inr w ↦ rw w refl ])

Reads-count {ℓ} :
    {A : Type ℓ} (m : Reader A) (w : A → Bytes) (xs : List A)
    → length xs < 2 ^ 16
    → All (λ x. Reads m (w x) x) xs
    → Reads (times (length xs % 2 ^ 16) m) (each_bytes w xs) xs
Reads-count m w xs h a =
    let e : length xs % 2 ^ 16 ≡ length xs = omega arith in rw e (Reads-times m w xs a)

All-map {ℓ κ ι} :
    {A : Type ℓ} (P : A → Type κ) (Q : A → Type ι)
    → ((x : A) → P x → Q x)
    → (xs : List A) → All P xs
    → All Q xs
All-map P Q f [] h = tt
All-map P Q f (x ∷ xs) h = (f x h.0, All-map P Q f xs h.1)

Reads-records :
    (rs : List Record)
    → length rs < 2 ^ 16
    → All IsRecord rs
    → Reads (times (length rs % 2 ^ 16) read_record) (each_bytes record_bytes rs) rs
Reads-records rs h a = Reads-count read_record record_bytes rs h (All-map _ _ Reads-record rs a)

Reads-u16_mod : (n : ℕ) → Reads u16 (be16 (n % 2 ^ 16)) (n % 2 ^ 16)
Reads-u16_mod n = Reads-u16 (n % 2 ^ 16) (omega arith)

same_edns :
    (p : Packet) (e : Bool)
    → record p { edns_udp_size = (as_read p e).edns_udp_size; dnssec_ok = (as_read p e).dnssec_ok }
      ≡ as_read p e
unfolding as_read
same_edns p e = elim (Bool-cases (has_opt p e)) [ inl w ↦ rw w refl | inr w ↦ rw w refl ]

-- The header, and behind it the sections that it counts.
Reads-parse :
    (p : Packet) (e : Bool)
    → IsWire p
    → Reads parse (message_bytes p (opt_records p e)) (as_read p e)
unfolding parse
Reads-parse p e h =
    let extra = opt_records p e in
    let more : All IsRecord (p.additional ++ extra) =
      All-append IsRecord p.additional extra h.additional (opt_records-IsRecord p e h) in
    let fits : length (p.additional ++ extra) < 2 ^ 16 =
      omega
        (arith, length-append {0} p.additional extra, length-opt_records p e, h.additional_fits) in
    let questions =
      Reads-count read_question question_bytes p.questions h.questions_fit
        (All-map _ _ Reads-question p.questions h.questions) in
    Reads-eq parse
      (Reads-bind u16 _ (Reads-u16 p.id h.id_fits) (
        Reads-bind u16 _ (Reads-u16 p.flags h.flags_fit) (
          Reads-bind u16 _ (Reads-u16_mod (length p.questions)) (
            Reads-bind u16 _ (Reads-u16_mod (length p.answers)) (
              Reads-bind u16 _ (Reads-u16_mod (length p.authority)) (
                Reads-bind u16 _ (Reads-u16_mod (length (p.additional ++ extra))) (
                  Reads-bind _ _ questions (
                    Reads-bind _ _ (Reads-records p.answers h.answers_fit h.answers) (
                      Reads-bind _ _ (Reads-records p.authority h.authority_fits h.authority) (
                        Reads-bind _ _ (Reads-records (p.additional ++ extra) fits more)
                          (Reads-pure _)))))))))))
      refl (rw (extract_opt_records p e h) (same_edns p e))

-- A packet whose names and numbers fit the wire is parsed back from its serialized bytes, section
-- by section and bit by bit; the EDNS fields come back if `serialize` was asked for them and the
-- UDP size is not 0, and else as 0 and false.
pub parse-serialize :
    (p : Packet) (e : Bool) → IsWire p → run parse (serialize p e) ≡ ok (as_read p e)
parse-serialize p e h =
    rw (serialize-message_bytes p e, ← append-nil (message_bytes p (opt_records p e)))
      (ap (λ (r : Result Packet IoError × ℕ). r.0) ((Reads-parse p e h).at [] []))
