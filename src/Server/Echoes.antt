-- ===== src/Server/Echoes.antt =====
-- src/server.rs: the packets that echo a query.
use ironbind.Prelude.{
  ℕ, ◌≡◌, refl, ◌∙◌, Bool, true, false, ◌&&◌, List, [], if◌then◌else◌, Bool-cases, Option-cases,
  inl, inr,
}
use ironbind.Prelude.Text.{Bytes}
use ironbind.Proto.Packet.{
  Question, Record, Packet, new_response, is_response, set_aa, set_ra, set_rcode, rcode_nxdomain,
}
use ironbind.Proto.Packet.Flags.{
  rcode-set_rcode, new_response_flags, is_response-set_aa, is_response-set_ra,
}
use ironbind.Zone.{Zone, soa, is_signed, name_exists}
use ironbind.Server.Authority.{
  cname_walk, max_cname_chain, with_soa, no_data_answer, nx_domain_answer, answer_from,
}

-- A response with the identifier and the questions of the query.
pub record Echoes (pkt r : Packet) : Type 0 where
  pub same_id : r.id ≡ pkt.id
  pub same_questions : r.questions ≡ pkt.questions
  pub response : is_response r ≡ true

pub Echoes-new :
    (pkt : Packet)
    → Echoes pkt (record (new_response pkt.id pkt.flags) { questions = pkt.questions })
unfolding is_response new_response
Echoes-new pkt = record {
  same_id = refl;
  same_questions = refl;
  response = (new_response_flags pkt.id pkt.flags).0;
}

pub Echoes-set_rcode : (pkt r : Packet) (c : ℕ) → Echoes pkt r → Echoes pkt (set_rcode c r)
unfolding set_rcode
Echoes-set_rcode pkt r c h = record {
  same_id = h.same_id;
  same_questions = h.same_questions;
  response = (rcode-set_rcode r c).1 ∙ h.response;
}

pub Echoes-set_aa : (pkt r : Packet) → Echoes pkt r → Echoes pkt (set_aa r)
unfolding set_aa
Echoes-set_aa pkt r h = record {
  same_id = h.same_id;
  same_questions = h.same_questions;
  response = is_response-set_aa r ∙ h.response;
}

pub Echoes-set_ra : (pkt r : Packet) → Echoes pkt r → Echoes pkt (set_ra r)
unfolding set_ra
Echoes-set_ra pkt r h = record {
  same_id = h.same_id;
  same_questions = h.same_questions;
  response = is_response-set_ra r ∙ h.response;
}

-- The sections may be anything.
pub Echoes-sections :
    (pkt r : Packet) (an ns ar : List Record) (size : ℕ) (ok : Bool)
    → Echoes pkt r
    → Echoes pkt (record r {
      answers = an;
      authority = ns;
      additional = ar;
      edns_udp_size = size;
      dnssec_ok = ok;
    })
unfolding is_response
Echoes-sections pkt r an ns ar size ok h = record {
  same_id = h.same_id;
  same_questions = h.same_questions;
  response = h.response;
}

Echoes-if :
    (pkt : Packet) (b : Bool) (x y : Packet)
    → Echoes pkt x
    → Echoes pkt y
    → Echoes pkt (if b then x else y)
Echoes-if pkt true x y h k = h
Echoes-if pkt false x y h k = k

pub Echoes-authority :
    (pkt r : Packet) (ns : List Record) → Echoes pkt r → Echoes pkt (record r { authority = ns })
Echoes-authority pkt r ns h =
    Echoes-sections pkt r r.answers ns r.additional r.edns_udp_size r.dnssec_ok h

pub Echoes-answers :
    (pkt r : Packet) (an : List Record) → Echoes pkt r → Echoes pkt (record r { answers = an })
Echoes-answers pkt r an h =
    Echoes-sections pkt r an r.authority r.additional r.edns_udp_size r.dnssec_ok h

with_soa-Echoes :
    (pkt : Packet) (zone : Zone) (r : Packet) → Echoes pkt r → Echoes pkt (with_soa pkt zone r)
unfolding with_soa
with_soa-Echoes pkt zone r h = elim (Option-cases (soa zone)) [
  | inl e ↦ rw (e, with_soa) h
  | inr (rs, e) ↦ rw (e, with_soa) (Echoes-authority pkt r _ h)
]

no_data_answer-Echoes :
    (pkt : Packet) (zone : Zone) (n : Bytes) (r : Packet)
    → Echoes pkt r
    → Echoes pkt (no_data_answer pkt zone n r)
unfolding no_data_answer
no_data_answer-Echoes pkt zone n r h =
    Echoes-if pkt (pkt.dnssec_ok && is_signed zone) (record r { authority = _ }) r
      (Echoes-authority pkt r _ h) h

nx_domain_answer-Echoes :
    (sha1 : Bytes → Bytes) (pkt : Packet) (zone : Zone) (n : Bytes) (r : Packet)
    → Echoes pkt r
    → Echoes pkt (nx_domain_answer sha1 pkt zone n r)
unfolding nx_domain_answer
nx_domain_answer-Echoes sha1 pkt zone n r h =
    Echoes-set_rcode pkt _ rcode_nxdomain
      (Echoes-if pkt pkt.dnssec_ok (record r { authority = _ }) r (Echoes-authority pkt r _ h) h)

pub answer_from-Echoes :
    (sha1 : Bytes → Bytes) (pkt : Packet) (q : Question) (zone : Zone) (r : Packet)
    → Echoes pkt r
    → Echoes pkt (answer_from sha1 pkt q zone r).0
unfolding answer_from
answer_from-Echoes sha1 pkt q zone r h =
    let walk = cname_walk max_cname_chain pkt zone q.qtype q.name [] in
    let answered = Echoes-answers pkt r walk.answers h in
    let negative = with_soa-Echoes pkt zone _ answered in
    elim (Bool-cases walk.answered) [
      | inl e ↦ rw (e, answer_from) answered
      | inr e ↦ elim (Bool-cases (name_exists zone walk.current_name)) [
        | inl n ↦
            rw (e, n, answer_from) (no_data_answer-Echoes pkt zone walk.current_name _ negative)
        | inr n ↦
            rw (e, n, answer_from)
              (nx_domain_answer-Echoes sha1 pkt zone walk.current_name _ negative)
      ]
    ]
