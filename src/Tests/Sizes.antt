-- ===== src/Tests/Sizes.antt =====
-- The size of what is sent over UDP.
use ironbind.Prelude.{
  ℕ, zero, suc, ◌≤◌, ◌≡◌, refl, sym, ◌∙◌, false, ok, [], ◌∷◌, ◌++◌, arith, length,
}
use ironbind.Prelude.Text.{Bytes, codes, join_dots, split_dots, trim_end_dots, is_utf8, lower}
use ironbind.Proto.RType
use ironbind.Proto.Packet.{Packet, class_in, new_response, set_tc, set_ra}
use ironbind.Proto.Builder
use ironbind.Proto.Reader
use ironbind.Proto.Reader.{run, u16, u8, label_text}
use ironbind.Proto.Message.{parse, serialize, read_question}
use ironbind.Server.Responses.{udp_limit, udp_payload}
use ironbind.Server.Truncation.{length-udp_payload}
use ironbind.Tests.Streams.{query}

abbrev fill : ℕ → ℕ → Bytes
fill zero c = []
fill (suc n) c = c ∷ fill n c

abbrev asked : Packet
asked = record {
  id = 7;
  flags = 0x0100;
  questions = record { name = codes "ex"; qtype = RType.a; qclass = class_in } ∷ [];
  answers = [];
  authority = [];
  additional = [];
  edns_udp_size = 0;
  dnssec_ok = false;
}

query-asked : run parse query ≡ ok asked
unfolding parse u16 u8 read_question Reader.name join_dots RType.from_u16 label_text is_utf8 lower
query-asked = refl

length-udp_payload_example : length (udp_payload query (fill 600 0)) ≤ udp_limit query
length-udp_payload_example =
    length-udp_payload query (fill 600 0) (λ p e.
      let same : asked ≡ p = ground (arith, sym query-asked ∙ e) in rw (← same) (omega arith))

-- Five questions, of which four point at the name of the first one: 163 bytes are answered with 647.
abbrev long_name : Bytes
long_name = (60 ∷ fill 60 97) ++ ((60 ∷ fill 60 98) ++ (0 ∷ []))

abbrev pointer : Bytes
pointer = 192 ∷ 12 ∷ 0 ∷ 1 ∷ 0 ∷ 1 ∷ []

abbrev five_questions : Bytes
five_questions =
    (0 ∷ 7 ∷ 1 ∷ 0 ∷ 0 ∷ 5 ∷ 0 ∷ 0 ∷ 0 ∷ 0 ∷ 0 ∷ 0 ∷ [])
    ++ (long_name ++ ((0 ∷ 1 ∷ 0 ∷ 1 ∷ []) ++ (pointer ++ (pointer ++ (pointer ++ pointer)))))

too_long : length (udp_payload five_questions (fill 600 0)) ≡ 647
unfolding udp_payload parse u16 u8 read_question Reader.name serialize set_ra set_tc new_response
    Builder.question join_dots label_text is_utf8 lower split_dots trim_end_dots
too_long = refl
