-- ===== src/Server/Truncation.antt =====
-- src/server.rs: the size of what `send_udp` sends.
use ironbind.Prelude.{
  ℕ, suc, ◌+◌, ◌%◌, ◌^◌, ◌≤◌, ◌≡◌, ◌||◌, false, ok, List, [], ◌∷◌, ◌++◌, ltb, ◌==◌, arith, length,
  length-append, is_empty, Bool-cases, Result-cases, inl, inr,
}
use ironbind.Prelude.Text.{Bytes, dot, bytes_eq, cons_head, split_dots, trim_end_dots}
use ironbind.Proto.Packet.{Question, Packet, new_response, set_rcode, set_tc, set_ra}
use ironbind.Proto.RType.{to_u16}
use ironbind.Proto.Reader.{run}
use ironbind.Proto.Message.{parse, serialize}
use ironbind.Proto.Builder
use ironbind.Proto.Builder.{each, be16, question}
use ironbind.Proto.Builder.Append.{
  label_bytes, name_bytes, question_bytes, each_bytes, question-append, each-append,
}
use ironbind.Server.Responses.{best_id, formerr_response, build_truncated, udp_limit, udp_payload}

-- Where the first label is empty, its length byte is saved.
abbrev slack : List Bytes → ℕ
slack [] = 0
slack ([] ∷ ls) = 0
slack ((c ∷ l) ∷ ls) = 1

slack-le : (ls : List Bytes) → slack ls ≤ 1
slack-le [] = omega arith
slack-le ([] ∷ ls) = omega arith
slack-le ((c ∷ l) ∷ ls) = omega arith

label_bytes-cons_head :
    (c n : ℕ) (ls : List Bytes)
    → length (label_bytes ls) ≤ n + slack ls
    → length (label_bytes (cons_head c ls)) ≤ suc n + slack (cons_head c ls)
unfolding label_bytes
label_bytes-cons_head c n [] h = omega (arith, h)
label_bytes-cons_head c n ([] ∷ ls) h = omega (arith, h)
label_bytes-cons_head c n ((d ∷ l) ∷ ls) h = omega (arith, h)

label_bytes-split_dots :
    (t : Bytes) → length (label_bytes (split_dots t)) ≤ length t + slack (split_dots t)
unfolding split_dots label_bytes
label_bytes-split_dots [] = omega arith
label_bytes-split_dots (c ∷ t) = elim (Bool-cases (c == dot)) [
  | inl e ↦ rw (e, label_bytes) (omega (arith, label_bytes-split_dots t, slack-le (split_dots t)))
  | inr e ↦ rw e (label_bytes-cons_head c (length t) (split_dots t) (label_bytes-split_dots t))
]

length-trim_end_dots : (t : Bytes) → length (trim_end_dots t) ≤ length t
unfolding trim_end_dots
length-trim_end_dots [] = omega arith
length-trim_end_dots (c ∷ t) = ground (arith, length-trim_end_dots t)

length-name_bytes : (n : Bytes) → length (name_bytes n) ≤ length n + 2
unfolding name_bytes
length-name_bytes n =
    let ls = split_dots (trim_end_dots n) in
    elim (Bool-cases (bytes_eq n (dot ∷ []) || is_empty n)) [
      | inl e ↦ rw e (omega arith)
      | inr e ↦ rw e (
          omega (
            arith,
            length-append (label_bytes ls) (0 ∷ []),
            label_bytes-split_dots (trim_end_dots n),
            slack-le ls,
            length-trim_end_dots n,
          ))
    ]

-- What the questions take on the wire, at most.
abbrev room_for : List Question → ℕ
room_for [] = 0
room_for (q ∷ qs) = length q.name + 6 + room_for qs

length-questions : (qs : List Question) → length (each_bytes question_bytes qs) ≤ room_for qs
unfolding each_bytes question_bytes
length-questions [] = omega arith
length-questions (q ∷ qs) = omega (
  arith,
  length-append (question_bytes q) (each_bytes question_bytes qs),
  length-append (name_bytes q.name) (be16 (to_u16 q.qtype) ++ be16 q.qclass),
  length-name_bytes q.name,
  length-questions qs,
)

abbrev only_questions : ℕ → ℕ → List Question → Packet
only_questions id flags qs = record {
  id = id;
  flags = flags;
  questions = qs;
  answers = [];
  authority = [];
  additional = [];
  edns_udp_size = 0;
  dnssec_ok = false;
}

-- A packet that has only questions, without EDNS.
length-serialize :
    (id flags : ℕ) (qs : List Question)
    → length (serialize (only_questions id flags qs) false) ≤ 12 + room_for qs
unfolding serialize Builder.u16
length-serialize id flags qs =
    let head =
      be16 id ++ (be16 flags ++ (be16 (length qs % 2 ^ 16) ++ (be16 0 ++ (be16 0 ++ be16 0)))) in
    let whole : serialize (only_questions id flags qs) false
        ≡ head ++ each_bytes question_bytes qs =
      each-append question question_bytes question-append qs head in
    rw whole (omega (arith, length-append head (each_bytes question_bytes qs), length-questions qs))

length-formerr_response : (query : Bytes) → length (formerr_response query) ≤ 512
unfolding formerr_response set_rcode new_response
length-formerr_response query =
    let size : length (formerr_response query) ≤ 12 = length-serialize (best_id query) _ [] in
    omega (arith, size)

-- Of a query whose questions fit 500 bytes, or that does not parse, `send_udp` sends at most the
-- payload size that the query allows, between 512 and 4096 bytes, whatever the response is.
pub length-udp_payload :
    (query resp : Bytes)
    → ((p : Packet) → run parse query ≡ ok p → room_for p.questions ≤ 500)
    → length (udp_payload query resp) ≤ udp_limit query
unfolding udp_payload udp_limit build_truncated new_response set_tc set_ra
length-udp_payload query resp short = elim (Bool-cases (ltb (udp_limit query) (length resp))) [
  | inr e ↦ rw (e, udp_payload) (ground (arith, e))
  | inl e ↦
      rw (e, udp_payload)
        (elim (Result-cases (run parse query)) [
          | inr (x, f) ↦ rw (f, build_truncated, udp_limit) (length-formerr_response query)
          | inl (p, f) ↦
              let size =
                length-serialize p.id (set_ra (set_tc (new_response p.id p.flags))).flags
                  p.questions in
              rw (f, build_truncated, udp_limit) (omega (arith, size, short p f))
        ])
]
