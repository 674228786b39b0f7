-- ===== src/Server/Pieces.antt =====
-- src/doh.rs: a request does not depend on the pieces in which it arrives.
use ironbind.Prelude.{
  ℕ, zero, suc, ◌+◌, ◌-◌, ◌≤◌, ◌<◌, ◌≡◌, refl, sym, ap, ◌∙◌, Bool, true, false, Option, none, some,
  List, [], ◌∷◌, ◌++◌, arith, ltb, ◌==◌, if◌then◌else◌, length, take, drop, concat, length-append,
  length-take, append-nil, take_within, drop_within, take_beyond, take_all, Bool-cases,
  Option-cases, inl, inr,
}
use ironbind.Prelude.Text.{Bytes}
use ironbind.Prelude.Chars.{Chars}
use ironbind.Config.Network.{IpAddr}
use ironbind.RateLimit.{Float}
use ironbind.Server.State.{Outside}
use ironbind.Server.Serve.{Serving, Moment}
use ironbind.Server.Doh.{
  read, put_back, find_double_crlf, split_crlf, buffer_size, complete, read_headers, Request,
  dropped, http_request, headers_too_large, after_head, answer_http, handle_http,
}
use ironbind.Server.Bodies.{
  NonEmpty, find_double_crlf-bound, find_double_crlf-append, concat-put_back, put_back-NonEmpty,
  moved, grows, read_request-gathered,
}

-- The request that the bytes stand for when all of them are there.
abbrev gathered : (Chars → Option Bytes) → Bool → Bytes → Request
gathered url_safe fails all = elim (find_double_crlf (take buffer_size all)) [
  | none ↦ if ltb (length all) buffer_size then dropped else headers_too_large
  | some idx ↦ after_head url_safe (complete all idx (record { pieces = []; fails = fails }))
]

complete-gathered :
    (url_safe : Chars → Option Bytes) (fails : Bool) (buf : Bytes) (idx : ℕ) (ps : List Bytes)
    → NonEmpty ps
    → find_double_crlf buf ≡ some idx
    → after_head url_safe (complete buf idx (record { pieces = ps; fails = fails }))
      ≡ after_head url_safe
          (complete (buf ++ concat ps) idx (record { pieces = []; fails = fails }))
complete-gathered url_safe fails buf idx ps k found =
    let room = find_double_crlf-bound buf idx found in
    rw
      (
        take_within idx buf (concat ps) (omega (arith, room)),
        drop_within (idx + 4) buf (concat ps) room,
        read_request-gathered url_safe (split_crlf (take idx buf)) fails (drop (idx + 4) buf) ps k,
      )
      refl

-- The blank line is in the part of the bytes that fits the buffer.
found_in_buffer :
    (buf more : Bytes) (idx : ℕ)
    → length buf ≤ buffer_size
    → find_double_crlf buf ≡ some idx
    → find_double_crlf (take buffer_size (buf ++ more)) ≡ some idx
found_in_buffer buf more idx h found =
    let m = buffer_size - length buf in
    let size : buffer_size ≡ length buf + m = omega arith in
    ap (λ n. find_double_crlf (take n (buf ++ more))) size
    ∙ ap find_double_crlf (take_beyond m buf more)
    ∙ find_double_crlf-append buf (take m more) idx found

fits_buffer :
    (buf p : Bytes)
    → length buf < buffer_size
    → length (buf ++ take (buffer_size - length buf) p) ≤ buffer_size
fits_buffer buf p h = omega (
  arith,
  length-append buf (take (buffer_size - length buf) p),
  length-take (buffer_size - length buf) p,
)

headers_end :
    (url_safe : Chars → Option Bytes) (fuel : ℕ) (fails : Bool) (buf : Bytes)
    → length buf < buffer_size
    → find_double_crlf buf ≡ none
    → after_head url_safe (read_headers (suc fuel) buf (record { pieces = []; fails = fails }))
      ≡ gathered url_safe fails (buf ++ [])
unfolding read_headers read
headers_end url_safe fuel true buf h absent =
    let short : ltb (length buf) buffer_size ≡ true = ground arith in
    rw (append-nil buf, take_all buffer_size buf (omega arith), absent, short) refl
headers_end url_safe fuel false buf h absent =
    let short : ltb (length buf) buffer_size ≡ true = ground arith in
    rw (append-nil buf, take_all buffer_size buf (omega arith), absent, short) refl

not_less : (a b : ℕ) → b ≤ a → ltb a b ≡ false
not_less a b h = ground arith

full_buffer :
    (url_safe : Chars → Option Bytes) (fails : Bool) (buf more : Bytes)
    → length buf ≡ buffer_size
    → find_double_crlf buf ≡ none
    → headers_too_large ≡ gathered url_safe fails (buf ++ more)
full_buffer url_safe fails buf more h absent =
    let first : take buffer_size (buf ++ more) ≡ buf =
      take_within buffer_size buf more (omega arith) ∙ take_all buffer_size buf (omega arith) in
    let long : ltb (length (buf ++ more)) buffer_size ≡ false =
      not_less (length (buf ++ more)) buffer_size (omega (arith, length-append buf more)) in
    rw (gathered, first, absent, long) refl

read_headers-gathered :
    (url_safe : Chars → Option Bytes) (fuel : ℕ) (fails : Bool) (buf : Bytes) (ps : List Bytes)
    → NonEmpty ps
    → length buf < buffer_size
    → buffer_size ≤ length buf + fuel
    → find_double_crlf buf ≡ none
    → after_head url_safe (read_headers fuel buf (record { pieces = ps; fails = fails }))
      ≡ gathered url_safe fails (buf ++ concat ps)
unfolding read_headers read
read_headers-gathered url_safe zero fails buf ps k h enough absent = absurd (omega arith)
read_headers-gathered url_safe (suc fuel) fails buf [] k h enough absent =
    headers_end url_safe fuel fails buf h absent
read_headers-gathered url_safe (suc fuel) fails buf ([] ∷ ps) (e, k) h enough absent =
    absurd (ground arith)
read_headers-gathered url_safe (suc fuel) fails buf ((c ∷ cs) ∷ ps) (e, k) h enough absent =
    let room = buffer_size - length buf in
    let buf' = buf ++ take room (c ∷ cs) in
    let qs = put_back (drop room (c ∷ cs)) ps in
    let left = put_back-NonEmpty (drop room (c ∷ cs)) ps k in
    let all = ap (gathered url_safe fails) (moved room buf (c ∷ cs) ps) in
    let fits = fits_buffer buf (c ∷ cs) h in
    let grown = grows buffer_size buf c cs h in
    elim (Option-cases (find_double_crlf buf')) [
      | inr (idx, found) ↦
          rw (read_headers, found)
            (complete-gathered url_safe fails buf' idx qs left found
              ∙ rw (gathered, found_in_buffer buf' (concat qs) idx fits found) refl
              ∙ all)
      | inl none_yet ↦ elim (Bool-cases (length buf' == buffer_size)) [
        | inl full ↦
            rw (read_headers, none_yet, full)
              (full_buffer url_safe fails buf' (concat qs) (ground arith) none_yet ∙ all)
        | inr open_room ↦
            rw (read_headers, none_yet, open_room)
              (read_headers-gathered url_safe fuel fails buf' qs left (ground arith)
                  (omega (arith, grown)) none_yet
                ∙ all)
      ]
    ]

http_request_in_pieces :
    (url_safe : Chars → Option Bytes) (fails : Bool) (ps : List Bytes)
    → NonEmpty ps
    → http_request url_safe (record { pieces = ps; fails = fails })
      ≡ http_request url_safe (record { pieces = put_back (concat ps) []; fails = fails })
unfolding http_request find_double_crlf
http_request_in_pieces url_safe fails ps h =
    let one : concat (put_back (concat ps) []) ≡ concat ps =
      concat-put_back (concat ps) [] ∙ append-nil (concat ps) in
    read_headers-gathered url_safe buffer_size fails [] ps h (omega arith) (omega arith) refl
    ∙ ap (gathered url_safe fails) (sym one)
    ∙ sym (
        read_headers-gathered url_safe buffer_size fails [] (put_back (concat ps) [])
          (put_back-NonEmpty (concat ps) [] _) (omega arith) (omega arith) refl)

-- What a DNS-over-HTTPS connection is answered, and the state that it leaves, do not depend on the
-- pieces in which the bytes of the request arrive: they are those of the same bytes in one piece,
-- whether the connection then is closed or fails, and whatever the request is.
pub handle_http_in_pieces :
    {F W : Type 0} (float : Float F) (hash : Bytes → ℕ) (out : Outside W)
    (url_safe : Chars → Option Bytes) (at : Moment) (ip : IpAddr) (fails : Bool) (ps : List Bytes)
    (s : Serving F W)
    → NonEmpty ps
    → handle_http float hash out url_safe at ip (record { pieces = ps; fails = fails }) s
      ≡ handle_http float hash out url_safe at ip
          (record { pieces = put_back (concat ps) []; fails = fails })
          s
unfolding handle_http
handle_http_in_pieces float hash out url_safe at ip fails ps s h =
    ap (λ r. answer_http float hash out url_safe r at ip s)
      (http_request_in_pieces url_safe fails ps h)
