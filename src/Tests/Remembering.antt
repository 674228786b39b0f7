-- ===== src/Tests/Remembering.antt =====
-- A question that is resolved, and asked again a minute later in capital letters.
use ironbind.Prelude.{ℕ, ◌+◌, ◌*◌, ◌^◌, ◌≡◌, ◌≢◌, refl, false, none, some, [], ◌∷◌, ok, arith}
use ironbind.Prelude.Text.{codes, lower, bytes_eq, split_dots, trim_end_dots, ends_with}
use ironbind.Prelude.Assoc.{lookup}
use ironbind.Proto.RType
use ironbind.Proto.RType.{RType}
use ironbind.Proto.Packet.{Packet, Question, class_in, rd, rcode}
use ironbind.Cache.{empty, get}
use ironbind.Config.Network.{v4, contains, mask}
use ironbind.Dnssec.{Reason, bogus}
use ironbind.Resolver.{ResolveResult, resolve}
use ironbind.Server.Authority.{best_zone}
use ironbind.Server.State.{State, Outside, Times, inline, resume, reply, base_response}
use ironbind.Server.Query.{answer_question, validation}
use ironbind.Server.Remembers.{Asks, kept, answer_question-asked_again}
use ironbind.Tests.Serving.{asked, outside, open_state, times}

abbrev question : Question
question = record { name = codes "ex"; qtype = RType.a; qclass = class_in }

abbrev capitals : Question
capitals = record { name = codes "EX"; qtype = RType.a; qclass = class_in }

abbrev found : Packet
found = record asked {
  flags = 0x8180;
  answers =
      record {
        name = codes "ex";
        rtype = RType.a;
        class = class_in;
        ttl = 120;
        rdata = 192 ∷ 0 ∷ 2 ∷ 1 ∷ [];
      }
      ∷ [];
}

abbrev answering : Outside ℕ
answering = record outside {
  network = record { random_id = λ w. (w, w + 1); exchange = λ q ip w. (ok found, w) };
}

abbrev a_minute_later : Times
a_minute_later = record times { now = 60 * 10 ^ 9 }

abbrev later_state : State ℕ
later_state = record open_state {
  cache = (answer_question answering times inline (v4 1) asked question open_state).1.cache;
  world = 99;
}

open_state-Asks : Asks (v4 1) question open_state
unfolding best_zone contains mask
open_state-Asks = (refl, refl)

later_state-Asks : Asks (v4 2) capitals later_state
unfolding best_zone contains mask
later_state-Asks = (refl, refl)

miss : get 0 (codes "ex") RType.a open_state.cache ≡ none
unfolding get lookup empty
miss = refl

resolved :
    resolve answering.network [] false RType.a (codes "ex") 0 ≡ (ResolveResult.answer found, 1)
unfolding resolve rcode RType.rtype_eq bytes_eq lower trim_end_dots split_dots ends_with
resolved = refl

unvalidated :
    (x : Reason)
    → (validation answering 0 asked question found open_state.settings 1).0 ≢ some (bogus x)
unfolding validation
unvalidated x = ground arith

answer_question-asked_again_example :
    let again = answer_question outside a_minute_later resume (v4 2) asked capitals later_state in
    (again.0 ≡ reply (record (base_response asked) { answers = kept found })) × (again.1.world ≡ 99)
unfolding rd RType.rtype_eq lower bytes_eq
answer_question-asked_again_example =
    answer_question-asked_again answering times inline (v4 1) asked question open_state found 1 120
      outside a_minute_later resume (v4 2) asked capitals later_state open_state-Asks miss refl refl
      resolved unvalidated refl refl later_state-Asks refl refl refl
