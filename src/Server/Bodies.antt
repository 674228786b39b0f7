-- ===== src/Server/Bodies.antt =====
-- src/doh.rs: a message does not depend on how much of it the headers came with.
use ironbind.Prelude.{
  ℕ, zero, suc, ◌+◌, ◌-◌, ◌≤◌, ◌<◌, ◌≡◌, refl, sym, ap, ◌∙◌, Bool, true, false, Option, none, some,
  List, [], ◌∷◌, ◌++◌, arith, ltb, if◌then◌else◌, length, is_empty, take, drop, concat, All,
  length-append, length-take, append_assoc, append-nil, take_within, take-drop, Bool-cases,
  Option-cases, inl, inr,
}
use mathlib.Core.Option
use ironbind.Prelude.Text.{Bytes, starts_with}
use ironbind.Prelude.Chars.{Chars}
use ironbind.Server.Doh.{
  read, put_back, crlf, find_double_crlf, Headers, read_header_lines, read_body, post_message,
  read_request,
}

abbrev blank_line : Bytes
blank_line = crlf ++ crlf

-- Where the blank line is in a text, it stays when more follows.
starts_with-blank_line :
    (a b : Bytes) → 4 ≤ length a → starts_with (a ++ b) blank_line ≡ starts_with a blank_line
unfolding starts_with
starts_with-blank_line [] b h = absurd (omega arith)
starts_with-blank_line (x ∷ []) b h = absurd (omega arith)
starts_with-blank_line (x ∷ y ∷ []) b h = absurd (omega arith)
starts_with-blank_line (x ∷ y ∷ z ∷ []) b h = absurd (omega arith)
starts_with-blank_line (x ∷ y ∷ z ∷ w ∷ a) b h = refl

starts_with-length : (a : Bytes) → starts_with a blank_line ≡ true → 4 ≤ length a
unfolding starts_with
starts_with-length [] h = absurd (ground arith)
starts_with-length (x ∷ []) h = absurd (ground arith)
starts_with-length (x ∷ y ∷ []) h = absurd (ground arith)
starts_with-length (x ∷ y ∷ z ∷ []) h = absurd (ground arith)
starts_with-length (x ∷ y ∷ z ∷ w ∷ a) h = omega arith

-- The place of the blank line leaves room for it.
pub find_double_crlf-bound : (a : Bytes) (i : ℕ) → find_double_crlf a ≡ some i → i + 4 ≤ length a
unfolding find_double_crlf
find_double_crlf-bound [] i h = absurd (ground arith)
find_double_crlf-bound (c ∷ cs) i h = elim (Bool-cases (starts_with (c ∷ cs) blank_line)) [
  | inl here ↦
      let zero_place : i ≡ 0 = ground arith in
      omega (arith, starts_with-length (c ∷ cs) here, zero_place)
  | inr later ↦ elim (Option-cases (find_double_crlf cs)) [
    | inl absent ↦ absurd (ground arith)
    | inr (j, found) ↦
        let next : i ≡ suc j = ground arith in
        omega (arith, find_double_crlf-bound cs j found, next)
  ]
]

pub find_double_crlf-append :
    (a b : Bytes) (i : ℕ) → find_double_crlf a ≡ some i → find_double_crlf (a ++ b) ≡ some i
unfolding find_double_crlf
find_double_crlf-append [] b i h = absurd (ground arith)
find_double_crlf-append (c ∷ cs) b i h =
    let room = find_double_crlf-bound (c ∷ cs) i h in
    let same = starts_with-blank_line (c ∷ cs) b (omega (arith, room)) in
    elim (Bool-cases (starts_with (c ∷ cs) blank_line)) [
      | inl here ↦ rw (find_double_crlf, same, here) (ground arith)
      | inr later ↦ elim (Option-cases (find_double_crlf cs)) [
        | inl absent ↦ absurd (ground arith)
        | inr (j, found) ↦
            rw (find_double_crlf, same, later, find_double_crlf-append cs b j found) (ground arith)
      ]
    ]

abbrev pub NonEmpty : List Bytes → Type 0
NonEmpty = All (λ p. is_empty p ≡ false)

pub concat-put_back : (q : Bytes) (ps : List Bytes) → concat (put_back q ps) ≡ q ++ concat ps
concat-put_back [] ps = refl
concat-put_back (c ∷ cs) ps = refl

pub put_back-NonEmpty : (q : Bytes) (ps : List Bytes) → NonEmpty ps → NonEmpty (put_back q ps)
put_back-NonEmpty [] ps h = h
put_back-NonEmpty (c ∷ cs) ps h = (refl, h)

-- A read moves a part of the first piece to the buffer, and the bytes stay the same.
pub moved :
    (room : ℕ) (buf p : Bytes) (ps : List Bytes)
    → (buf ++ take room p) ++ concat (put_back (drop room p) ps) ≡ buf ++ (p ++ concat ps)
moved room buf p ps =
    ap (λ t. (buf ++ take room p) ++ t) (concat-put_back (drop room p) ps)
    ∙ append_assoc buf (take room p) (drop room p ++ concat ps)
    ∙ ap (λ t. buf ++ t)
        (sym (append_assoc (take room p) (drop room p) (concat ps))
          ∙ ap (λ t. t ++ concat ps) (take-drop room p))

-- A body that does not come in full is taken as it is, unless the connection failed.
abbrev whole_body : ℕ → Bool → Bytes → Option Bytes
whole_body n fails all = if ltb (length all) n then (if fails then none else some all) else some all

body_enough :
    (n : ℕ) (fails : Bool) (body rest : Bytes)
    → ltb (length body) n ≡ false
    → some (take n body) ≡ Option.map (take n) (whole_body n fails (body ++ rest))
body_enough n fails body rest h =
    let long : ltb (length (body ++ rest)) n ≡ false = ground (arith, length-append body rest) in
    rw (long, take_within n body rest (ground arith)) refl

body_ends :
    (fuel n : ℕ) (fails : Bool) (body : Bytes)
    → ltb (length body) n ≡ true
    → Option.map (take n) (read_body (suc fuel) n body (record { pieces = []; fails = fails }))
      ≡ Option.map (take n) (whole_body n fails (body ++ []))
unfolding read_body read
body_ends fuel n true body short = rw (read_body, append-nil body, short) refl
body_ends fuel n false body short = rw (read_body, append-nil body, short) refl

pub grows :
    (n : ℕ) (body : Bytes) (c : ℕ) (cs : Bytes)
    → length body < n
    → length body + 1 ≤ length (body ++ take (n - length body) (c ∷ cs))
grows n body c cs h = omega (
  arith,
  length-append body (take (n - length body) (c ∷ cs)),
  length-take (n - length body) (c ∷ cs),
)

read_body_lem :
    (fuel n : ℕ) (fails : Bool) (body : Bytes) (ps : List Bytes)
    → NonEmpty ps
    → n ≤ length body + fuel
    → Option.map (take n) (read_body fuel n body (record { pieces = ps; fails = fails }))
      ≡ Option.map (take n) (whole_body n fails (body ++ concat ps))
unfolding read_body read
read_body_lem zero n fails body ps h enough = body_enough n fails body (concat ps) (ground arith)
read_body_lem (suc fuel) n fails body [] h enough = elim (Bool-cases (ltb (length body) n)) [
  | inr full ↦ rw (read_body, full) (body_enough n fails body [] full)
  | inl short ↦ body_ends fuel n fails body short
]
read_body_lem (suc fuel) n fails body ([] ∷ ps) (e, h) enough = absurd (ground arith)
read_body_lem (suc fuel) n fails body ((c ∷ cs) ∷ ps) (e, h) enough =
    elim (Bool-cases (ltb (length body) n)) [
      | inr full ↦ rw (read_body, full) (body_enough n fails body (concat ((c ∷ cs) ∷ ps)) full)
      | inl short ↦
          let room = n - length body in
          let grown = grows n body c cs (ground arith) in
          let ih =
            read_body_lem fuel n fails (body ++ take room (c ∷ cs))
              (put_back (drop room (c ∷ cs)) ps) (put_back-NonEmpty (drop room (c ∷ cs)) ps h)
              (omega (arith, grown)) in
          rw (read_body, short)
            (ih
              ∙ ap (λ t. Option.map (take n) (whole_body n fails t)) (moved room body (c ∷ cs) ps))
    ]

-- What a message is made of does not depend on how much of it came with the headers.
post_message-gathered :
    (h : Headers) (fails : Bool) (body : Bytes) (ps : List Bytes)
    → NonEmpty ps
    → post_message h body (record { pieces = ps; fails = fails })
      ≡ post_message h (body ++ concat ps) (record { pieces = []; fails = fails })
unfolding post_message
post_message-gathered h fails body ps k =
    let n = h.content_length in
    let all = body ++ concat ps in
    let same : Option.map (take n) (read_body n n body (record { pieces = ps; fails = fails }))
        ≡ Option.map (take n) (read_body n n all (record { pieces = []; fails = fails })) =
      read_body_lem n n fails body ps k (omega arith)
      ∙ ap (λ t. Option.map (take n) (whole_body n fails t)) (sym (append-nil all))
      ∙ sym (read_body_lem n n fails all [] _ (omega arith)) in
    rw (post_message, same) refl

pub read_request-gathered :
    (url_safe : Chars → Option Bytes) (lines : List Bytes) (fails : Bool) (body : Bytes)
    (ps : List Bytes)
    → NonEmpty ps
    → read_request url_safe lines body (record { pieces = ps; fails = fails })
      ≡ read_request url_safe lines (body ++ concat ps) (record { pieces = []; fails = fails })
unfolding read_request
read_request-gathered url_safe [] fails body ps k = refl
read_request-gathered url_safe (l ∷ lines) fails body ps k =
    elim (Option-cases
      (read_header_lines lines (record { content_length = 0; content_type = [] }))) [
        | inl bad ↦ rw (read_request, bad) refl
        | inr (h, good) ↦ rw (read_request, good, post_message-gathered h fails body ps k) refl
      ]
