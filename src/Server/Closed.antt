-- ===== src/Server/Closed.antt =====
-- src/server.rs: a client outside the networks of `allow_recursion`.
use ironbind.Prelude.{◌≡◌, refl, false, ◌==◌, any, first?, Bool-cases, Option-cases, inl, inr}
use ironbind.Proto.Packet.{Question, Packet, is_response, opcode}
use ironbind.Cache.{Cache}
use ironbind.Config.Network.{IpAddr, contains}
use ironbind.Server.Authority.{best_zone}
use ironbind.Server.State.{Recursion, State, Outside, Times, Outcome}
use ironbind.Server.Query.{answer_question, handle_packet}

-- Two results that send the same, of which the second leaves the cache and the network of `st`.
pub record SameAndClosed {W : Type 0} (st : State W) (x y : Outcome × State W) : Type 0 where
  pub same_outcome : x.0 ≡ y.0
  pub cache_kept : y.1.cache ≡ st.cache
  pub world_kept : y.1.world ≡ st.world

module _ {W : Type 0} (out : Outside W) (t : Times) (pkt : Packet) (how : Recursion) (ip : IpAddr)
    (st : State W) (c : Cache) (w : W)
    (closed : any (λ n. contains n ip) st.settings.allow_recursion ≡ false) where
  answer_question-SameAndClosed :
      (q : Question)
      → SameAndClosed st
          (answer_question out t how ip pkt q (record st { cache = c; world = w }))
          (answer_question out t how ip pkt q st)
  unfolding answer_question
  answer_question-SameAndClosed q = elim (Option-cases (best_zone q.name st.zones)) [
    | inr (zone, e) ↦
        rw (e, answer_question)
          (record { same_outcome = refl; cache_kept = refl; world_kept = refl })
    | inl e ↦
        rw (e, closed, answer_question)
          (record { same_outcome = refl; cache_kept = refl; world_kept = refl })
  ]

  -- A client in no network of `allow_recursion` learns nothing of the cache and makes the server ask
  -- nobody: what it is sent is the same whatever the cache and the network hold, and its message
  -- changes neither.
  pub handle_packet-SameAndClosed :
      SameAndClosed st
        (handle_packet out t how ip pkt (record st { cache = c; world = w }))
        (handle_packet out t how ip pkt st)
  unfolding handle_packet
  handle_packet-SameAndClosed = elim (Bool-cases (is_response pkt)) [
    | inl e ↦
        rw (e, handle_packet) (record { same_outcome = refl; cache_kept = refl; world_kept = refl })
    | inr e ↦ elim (Bool-cases (opcode pkt == 0)) [
      | inr o ↦
          rw (e, o, handle_packet)
            (record { same_outcome = refl; cache_kept = refl; world_kept = refl })
      | inl o ↦ elim (Option-cases (first? pkt.questions)) [
        | inl n ↦
            rw (e, o, n, handle_packet)
              (record { same_outcome = refl; cache_kept = refl; world_kept = refl })
        | inr (q, n) ↦ rw (e, o, n, handle_packet) (answer_question-SameAndClosed q)
      ]
    ]
  ]
