-- ===== src/Server/Doh.antt =====
-- src/doh.rs: `handle_http`, DNS over HTTPS. TLS is the bytes that it carries, in the pieces in which
-- they arrive; the URL-safe base64 of the `base64` crate is a parameter. A peer is taken to read what
-- is written to it.
use ironbind.Prelude.{
  ℕ, zero, suc, ◌+◌, ◌-◌, ◌^◌, Bool, ◌&&◌, Option, none, some, List, [], ◌∷◌, ◌++◌, ltb, ◌==◌,
  if◌then◌else◌, length, take, drop, find?, not,
}
use mathlib.Core.Option
use ironbind.Prelude.Text.{
  Bytes, codes, bytes_eq, is_utf8, starts_inside, starts_with, to_ascii_lowercase, cons_head,
}
use ironbind.Prelude.Chars.{Chars, decode_utf8, split, split_whitespace, trim, parse_unsigned}
use ironbind.Prelude.Decimal.{decimal_from}
use ironbind.Config.Network.{IpAddr}
use ironbind.RateLimit.{Float}
use ironbind.Metrics.{record_tcp_query}
use ironbind.Server.State.{Outside, note}
use ironbind.Server.Serve.{Serving, Moment, note_core, handle_query_public}

-- What the peer sends, piece by piece, and whether the connection then fails or is closed. An empty
-- piece is the end.
pub record Input : Type 0 where
  pub pieces : List Bytes
  pub fails : Bool

pub data Got : Type 0 where
  closed failed : Got
  bytes : Bytes → Input → Got

abbrev pub put_back : Bytes → List Bytes → List Bytes
put_back [] ps = ps
put_back (b ∷ bs) ps = (b ∷ bs) ∷ ps

-- `read` into a buffer of `room` bytes.
unfoldable pub read : ℕ → Input → Got
read room i = elim i.pieces [
  | [] ↦ if i.fails then failed else closed
  | p ∷ ps ↦ elim p [
    | [] ↦ closed
    | b ∷ bs ↦ bytes (take room (b ∷ bs)) (record i { pieces = put_back (drop room (b ∷ bs)) ps })
  ]
]

abbrev pub crlf : Bytes
crlf = 13 ∷ 10 ∷ []

unfoldable pub find_double_crlf : Bytes → Option ℕ
find_double_crlf [] = none
find_double_crlf (c ∷ cs) =
    let later = Option.map (λ i. suc i) (find_double_crlf cs) in
    if starts_with (c ∷ cs) (crlf ++ crlf) then some 0 else later

-- The line feed that the rest begins with.
abbrev drop_first : List Bytes → List Bytes
drop_first [] = []
drop_first ([] ∷ ws) = [] ∷ ws
drop_first ((x ∷ w) ∷ ws) = w ∷ ws

-- `split("\r\n")`
unfoldable pub split_crlf : Bytes → List Bytes
split_crlf [] = [] ∷ []
split_crlf (c ∷ cs) =
    let rest = split_crlf cs in
    if starts_with (c ∷ cs) crlf then [] ∷ drop_first rest else cons_head c rest

pub data Stripped : Type 0 where
  other slice_panics : Stripped
  field : Bytes → Stripped

-- The slice panics where it would cut a character.
unfoldable strip_header : Bytes → Bytes → Stripped
strip_header line prefix =
    let rest = drop (length prefix) line in
    if ltb (length line) (length prefix)
    then other
    else if starts_inside rest
    then slice_panics
    else if bytes_eq (to_ascii_lowercase (take (length prefix) line)) (to_ascii_lowercase prefix)
    then field rest
    else other

pub record Headers : Type 0 where
  pub content_length : ℕ
  pub content_type : Chars

abbrev or_zero_length : Option ℕ → ℕ
or_zero_length none = 0
or_zero_length (some n) = n

-- One header line; `none` is a panic.
unfoldable read_header : Bytes → Headers → Option Headers
unfolding strip_header
read_header line h = elim (strip_header line (codes "content-length:")) [
  | slice_panics ↦ none
  | field v ↦
      let n = or_zero_length (parse_unsigned (2 ^ 64) (trim (decode_utf8 v))) in
      some (record h { content_length = n })
  | other ↦ elim (strip_header line (codes "content-type:")) [
    | slice_panics ↦ none
    | field v ↦ some (record h { content_type = to_ascii_lowercase (trim (decode_utf8 v)) })
    | other ↦ some h
  ]
]

unfoldable pub read_header_lines : List Bytes → Headers → Option Headers
unfolding read_header
read_header_lines [] h = some h
read_header_lines (l ∷ ls) h = elim (read_header l h) [
  | none ↦ none
  | some h' ↦ read_header_lines ls h'
]

abbrev pub buffer_size : ℕ
buffer_size = 8192

pub data Head : Type 0 where
  no_head too_large : Head
  complete : Bytes → ℕ → Input → Head

-- The loop up to the full headers; each turn reads a byte or more into the buffer, so that there are
-- no more turns than it has bytes.
unfoldable pub read_headers : ℕ → Bytes → Input → Head
unfolding read find_double_crlf
read_headers zero buf i = too_large
read_headers (suc fuel) buf i = elim (read (buffer_size - length buf) i) [
  | closed ↦ no_head
  | failed ↦ no_head
  | bytes b rest ↦
      let buf' = buf ++ b in
      let more = read_headers fuel buf' rest in
      elim (find_double_crlf buf') [
        | some idx ↦ complete buf' idx rest
        | none ↦ if length buf' == buffer_size then too_large else more
      ]
]

-- The loop over the body; `none` is an error of the connection.
unfoldable pub read_body : ℕ → ℕ → Bytes → Input → Option Bytes
unfolding read
read_body zero content_length body i = some body
read_body (suc fuel) content_length body i =
    let filled : Option Bytes = elim (read (content_length - length body) i) [
      | closed ↦ some body
      | failed ↦ none
      | bytes b rest ↦ read_body fuel content_length (body ++ b) rest
    ] in
    if ltb (length body) content_length then filled else some body

-- What becomes of a request: nothing is written, a panic ends the connection, a status, or a message.
pub data Request : Type 0 where
  dropped panicked : Request
  status : ℕ → Bytes → Request
  message : Bytes → Request

abbrev bad_request : Request
bad_request = status 400 (codes "Bad Request")

abbrev first_word : List Chars → Chars
first_word [] = []
first_word (w ∷ ws) = w

abbrev second_word : List Chars → Chars
second_word [] = []
second_word (w ∷ ws) = first_word ws

abbrev read_message : Option Bytes → Request
read_message none = dropped
read_message (some b) = message b

unfoldable pub post_message : Headers → Bytes → Input → Request
unfolding read_body
post_message h body i =
    let truncated =
      Option.map (take h.content_length) (read_body h.content_length h.content_length body i) in
    if not (bytes_eq h.content_type (codes "application/dns-message"))
    then status 415 (codes "Unsupported Media Type")
    else if ltb 0xffff h.content_length
    then status 413 (codes "Payload Too Large")
    else read_message truncated

unfoldable get_message : (Chars → Option Bytes) → Chars → Request
get_message url_safe query = elim (find? (λ kv. starts_with kv (codes "dns=")) (split 38 query)) [
  | none ↦ bad_request
  | some kv ↦ elim (url_safe (drop 4 kv)) [ none ↦ bad_request | some b ↦ message b ]
]

-- The request line and the headers, with the bytes behind them.
unfoldable pub read_request : (Chars → Option Bytes) → List Bytes → Bytes → Input → Request
unfolding read_header_lines post_message get_message
read_request url_safe [] body i = status 404 (codes "Not Found")
read_request url_safe (request_line ∷ lines) body i =
    let parts = split_whitespace (decode_utf8 request_line) in
    let method = first_word parts in
    let target = second_word parts in
    elim (read_header_lines lines (record { content_length = 0; content_type = [] })) [
      | none ↦ panicked
      | some h ↦
          if bytes_eq method (codes "POST") && starts_with target (codes "/dns-query")
          then post_message h body i
          else if bytes_eq method (codes "GET") && starts_with target (codes "/dns-query?")
          then get_message url_safe (drop 11 target)
          else status 404 (codes "Not Found")
    ]

abbrev pub headers_too_large : Request
headers_too_large = status 431 (codes "Request Header Fields Too Large")

abbrev pub after_head : (Chars → Option Bytes) → Head → Request
after_head url_safe no_head = dropped
after_head url_safe too_large = headers_too_large
after_head url_safe (complete buf header_end rest) =
    if is_utf8 (take header_end buf)
    then read_request url_safe (split_crlf (take header_end buf)) (drop (header_end + 4) buf) rest
    else bad_request

unfoldable pub http_request : (Chars → Option Bytes) → Input → Request
unfolding read_headers read_request
http_request url_safe i = after_head url_safe (read_headers buffer_size [] i)

abbrev line : Bytes → Bytes → Bytes
line text rest = text ++ (crlf ++ rest)

unfoldable pub write_status : ℕ → Bytes → Bytes
unfolding decimal_from
write_status code reason =
    line (codes "HTTP/1.1 " ++ (decimal_from 2 code ++ (32 ∷ reason)))
      (line (codes "Content-Length: 0") (line (codes "Connection: close") (line [] [])))

-- The length of a body of less than 10 ^ 20 bytes.
unfoldable pub write_message : Bytes → Bytes
unfolding decimal_from
write_message body = line (codes "HTTP/1.1 200 OK") (
    line (codes "Content-Type: application/dns-message") (
      line (codes "Content-Length: " ++ decimal_from 19 (length body))
        (line (codes "Connection: close") (line [] body))))

abbrev or_default_body : Option Bytes → Bytes
or_default_body none = []
or_default_body (some b) = b

module _ {F W : Type 0} (float : Float F) (hash : Bytes → ℕ) (out : Outside W)
    (url_safe : Chars → Option Bytes) where
  abbrev pub answer_http : Request → Moment → IpAddr → Serving F W → Bytes × Serving F W
  answer_http dropped at ip s = ([], s)
  answer_http panicked at ip s = ([], s)
  answer_http (status code reason) at ip s = (write_status code reason, s)
  answer_http (message m) at ip s =
      let (answer, s1) =
        handle_query_public float hash out at ip m (note_core (note record_tcp_query) s) in
      (write_message (or_default_body answer), s1)

  -- What is written to the connection, and the state.
  unfoldable pub handle_http : Moment → IpAddr → Input → Serving F W → Bytes × Serving F W
  unfolding http_request write_status write_message handle_query_public
  handle_http at ip i s = answer_http (http_request url_safe i) at ip s
