-- ===== src/Server/Authority.antt =====
-- src/server.rs: the branch of `handle_query` for a zone of this server. SHA-1 is a parameter.
use ironbind.Prelude.{
  ℕ, zero, suc, Bool, true, false, ◌&&◌, Option, none, some, List, [], ◌∷◌, ◌++◌, ok, err, ltb,
  ◌==◌, if◌then◌else◌, length, filter, first?,
}
use ironbind.Prelude.Text.{Bytes, codes, bytes_eq}
use ironbind.Prelude.Assoc.{is_some}
use ironbind.Proto.RType.{RType, to_u16, rtype_eq}
use ironbind.Proto.Packet.{Question, Record, Packet, set_rcode, rcode_nxdomain}
use ironbind.Proto.Reader
use ironbind.Proto.Reader.{run}
use ironbind.Proto.Dnssec.{parse_rrsig}
use ironbind.Metrics.{Metrics, record_success, record_nxdomain}
use ironbind.Zone.Nsec3.{nsec3_covering}
use ironbind.Zone.{
  Zone, find_rrset, name_exists, is_authoritative_for, soa, is_signed, nsec_covering_owner,
  closest_encloser, or_default,
}

abbrev covers : ℕ → Record → Bool
covers code r = elim (parse_rrsig r.rdata) [ err e ↦ false | ok sig ↦ sig.type_covered == code ]

unfoldable pub covering_rrsigs : Zone → Bytes → RType → List Record
covering_rrsigs zone name covered =
    filter (covers (to_u16 covered)) (or_default (find_rrset zone name RType.rrsig))

-- The signatures go along if the query has the DO bit.
abbrev signed_with : Packet → Zone → Bytes → RType → List Record
signed_with pkt zone name t = if pkt.dnssec_ok then covering_rrsigs zone name t else []

unfoldable pub push_signed_nsec : Zone → Bytes → List Record → List Record
push_signed_nsec zone owner section = elim (find_rrset zone owner RType.nsec) [
  | none ↦ section
  | some nsec ↦ section ++ (nsec ++ covering_rrsigs zone owner RType.nsec)
]

abbrev pub max_cname_chain : ℕ
max_cname_chain = 8

-- The locals of the loop over the CNAMEs.
pub record Walk : Type 0 where
  pub answered : Bool
  pub current_name : Bytes
  pub answers : List Record

abbrev first_of : Option (List Record) → Option Record
first_of none = none
first_of (some rs) = first? rs

unfoldable pub cname_walk : ℕ → Packet → Zone → RType → Bytes → List Record → Walk
cname_walk zero pkt zone qtype name answers = record {
  answered = false;
  current_name = name;
  answers = answers;
}
cname_walk (suc left) pkt zone qtype name answers = elim (find_rrset zone name qtype) [
  | some rs ↦ record {
    answered = true;
    current_name = name;
    answers = answers ++ (rs ++ signed_with pkt zone name qtype);
  }
  | none ↦ elim (first_of (find_rrset zone name RType.cname)) [
    | none ↦ record { answered = false; current_name = name; answers = answers }
    | some cname ↦
        let more = answers ++ (cname ∷ signed_with pkt zone name RType.cname) in
        let next : Walk = elim (run Reader.name cname.rdata) [
          | err e ↦ record { answered = false; current_name = name; answers = more }
          | ok target ↦
              let rest = cname_walk left pkt zone qtype target more in
              if is_authoritative_for zone target
              then rest
              else record { answered = true; current_name = name; answers = more }
        ] in
        if rtype_eq qtype RType.cname
        then record { answered = false; current_name = name; answers = answers }
        else next
  ]
]

-- The SOA in the authority section of a negative answer.
unfoldable pub with_soa : Packet → Zone → Packet → Packet
with_soa pkt zone resp = elim (soa zone) [
  | none ↦ resp
  | some rs ↦ record resp { authority = rs ++ signed_with pkt zone zone.origin RType.soa }
]

abbrev push_owner : Zone → Option Bytes → List Record → List Record
push_owner zone none section = section
push_owner zone (some owner) section = push_signed_nsec zone owner section

-- The name exists and the type does not.
unfoldable pub no_data_answer : Packet → Zone → Bytes → Packet → Packet
no_data_answer pkt zone name resp =
    let owner =
      if is_some (find_rrset zone name RType.nsec)
      then some name
      else nsec_covering_owner zone name in
    if pkt.dnssec_ok && is_signed zone
    then record resp { authority = push_owner zone owner resp.authority }
    else resp

abbrev same_owner : Option Bytes → Option Bytes → Bool
same_owner none none = true
same_owner none (some n) = false
same_owner (some m) none = false
same_owner (some m) (some n) = bytes_eq m n

abbrev or_root : Option Bytes → Bytes
or_root none = []
or_root (some n) = n

-- The proof that neither the name nor a wildcard for it exists.
unfoldable pub denial : Zone → Bytes → List Record → List Record
unfolding push_signed_nsec
denial zone name section =
    let wildcard = codes "*." ++ or_root (closest_encloser zone name) in
    let name_owner = nsec_covering_owner zone name in
    let wildcard_owner = nsec_covering_owner zone wildcard in
    let first = push_owner zone name_owner section in
    if same_owner wildcard_owner name_owner then first else push_owner zone wildcard_owner first

unfoldable pub nx_domain_answer : (Bytes → Bytes) → Packet → Zone → Bytes → Packet → Packet
unfolding denial
nx_domain_answer sha1 pkt zone name resp =
    let section : List Record = elim (nsec3_covering sha1 zone name) [
      | some r ↦ resp.authority ++ (r ∷ [])
      | none ↦ if is_signed zone then denial zone name resp.authority else resp.authority
    ] in
    set_rcode rcode_nxdomain (if pkt.dnssec_ok then record resp { authority = section } else resp)

-- The response of a zone, and the counter that it adds to. AA is set already.
unfoldable pub answer_from :
    (Bytes → Bytes) → Packet → Question → Zone → Packet → Packet × (Metrics → Metrics)
unfolding cname_walk with_soa no_data_answer nx_domain_answer
answer_from sha1 pkt q zone resp =
    let walk = cname_walk max_cname_chain pkt zone q.qtype q.name [] in
    let r = record resp { answers = walk.answers } in
    let negative = with_soa pkt zone r in
    if walk.answered
    then (r, record_success)
    else if name_exists zone walk.current_name
    then (no_data_answer pkt zone walk.current_name negative, record_success)
    else (nx_domain_answer sha1 pkt zone walk.current_name negative, record_nxdomain)

-- `max_by_key` over the zones with the name: the longest origin, the last among equals.
unfoldable pub best_zone : Bytes → List Zone → Option Zone
best_zone name [] = none
best_zone name (z ∷ zs) =
    let best = best_zone name zs in
    if is_authoritative_for z name
    then (elim best [
      | none ↦ some z
      | some b ↦ if ltb (length b.origin) (length z.origin) then some z else some b
    ])
    else best
