-- ===== src/Tests/Streams.antt =====
-- Two messages on one connection and a byte of a third, and a request in pieces.
use ironbind.Prelude.{
  ℕ, refl, Option, some, false, concat, ◌≡◌, none, List, [], ◌∷◌, ◌++◌, All, arith,
}
use ironbind.Prelude.Text.{Bytes, codes}
use ironbind.Prelude.Chars.{Chars}
use ironbind.Config.Network.{v4}
use ironbind.ThreadPool
use ironbind.ZoneManager
use ironbind.Server.Serve.{Serving, Moment, frames, handle_tcp}
use ironbind.Server.Streams.{IsMessage, serve_each, handle_tcp-frames}
use ironbind.Server.Doh.{put_back, handle_http}
use ironbind.Server.Pieces.{handle_http_in_pieces}
use ironbind.Tests.Queries.{whole}
use ironbind.Tests.Serving.{outside, state, times}

abbrev pub query : Bytes
query = 0 ∷ 7 ∷ 1 ∷ 0 ∷ 0 ∷ 1 ∷ 0 ∷ 0 ∷ 0 ∷ 0 ∷ 0 ∷ 0 ∷ 2 ∷ 101 ∷ 120 ∷ 0 ∷ 0 ∷ 1 ∷ 0 ∷ 1 ∷ []

-- The second is no packet.
abbrev messages : List Bytes
messages = query ∷ (1 ∷ 2 ∷ 3 ∷ []) ∷ []

messages-IsMessage : All IsMessage messages
messages-IsMessage = ((omega arith, omega arith), ((omega arith, omega arith), _))

abbrev serving : Serving ℕ ℕ
serving = record {
  core = state;
  rate_limiter = none;
  zone_manager = ZoneManager.new;
  recursion_pool = ThreadPool.new 1 1;
}

abbrev pub at : ℕ → Moment
at n = record { times = times; instant = n }

handle_tcp-frames_example :
    handle_tcp whole (λ ip. 0) outside at (v4 1) (frames messages ++ (0 ∷ [])) serving
    ≡ serve_each whole (λ ip. 0) outside at (v4 1) 0 messages serving
handle_tcp-frames_example =
    handle_tcp-frames whole (λ ip. 0) outside at (v4 1) messages (0 ∷ []) serving messages-IsMessage
      (omega arith)

-- A request in three pieces, of which the first ends within the blank line.
abbrev pieces : List Bytes
pieces =
    (codes "GET /dns-query?dns=AAAB HTTP/1.1" ++ (13 ∷ 10 ∷ 13 ∷ [])) ∷ (10 ∷ []) ∷ (1 ∷ []) ∷ []

abbrev pub url_safe : Chars → Option Bytes
url_safe s = some (0 ∷ 0 ∷ 1 ∷ [])

handle_http_in_pieces_example :
    handle_http whole
      (λ ip. 0)
      outside
      url_safe
      (at 0)
      (v4 1)
      (record { pieces = pieces; fails = false })
      serving
    ≡ handle_http whole
        (λ ip. 0)
        outside
        url_safe
        (at 0)
        (v4 1)
        (record { pieces = put_back (concat pieces) []; fails = false })
        serving
handle_http_in_pieces_example =
    handle_http_in_pieces whole (λ ip. 0) outside url_safe (at 0) (v4 1) false pieces serving
      (refl, (refl, (refl, _)))
