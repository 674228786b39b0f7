-- ===== src/Proto/Names/Read.antt =====
-- src/proto.rs: `Parser::name` on the bytes of `Builder::name`.
use ironbind.Prelude.{
  ℕ, zero, suc, ◌+◌, ◌<◌, ◌≤◌, ◌≡◌, refl, ap, ◌∙◌, Bool, true, false, ◌&&◌, List, [], ◌∷◌, ◌++◌,
  append_assoc, append-nil, Result, ok, arith, ◌==◌, length, length-append, All, get_elem?-append,
  bit_and, not,
}
use ironbind.Prelude.Text.{Bytes, bytes_eq}
use ironbind.Proto.Reader.{
  IoError, NameState, done, next, turn, turn_label, name_loop, name_start, name, slice, label_text,
  joined,
}
use ironbind.Proto.Builder.Append.{label_bytes, name_bytes}
use ironbind.Proto.Reads.{Reads, slice-append}
use ironbind.Proto.Names.{IsLabel, not_root, split_dots-join_dots, trim_end_dots-join_dots}

-- A length byte below 192 has not both top bits set.
no_pointer_table : ℕ → Bool
no_pointer_table zero = true
no_pointer_table (suc n) = not (bit_and n 0xc0 == 0xc0) && no_pointer_table n

no_pointer_below : (n b : ℕ) → no_pointer_table n ≡ true → b < n → (bit_and b 0xc0 == 0xc0) ≡ false
unfolding no_pointer_table
no_pointer_below zero b e h = elim h [ ]
no_pointer_below (suc n) b e h = ground (arith, no_pointer_below n b)

no_pointer : (b : ℕ) → b < 192 → (bit_and b 0xc0 == 0xc0) ≡ false
unfolding no_pointer_table
no_pointer b h = no_pointer_below 192 b refl h

label_text_lem : (l : Bytes) → IsLabel l → label_text l ≡ l
unfolding label_text
label_text_lem l h = rw h.is_text h.is_lower

slice_label :
    (pre l rest : Bytes)
    → slice (pre ++ (length l ∷ l ++ rest)) (length pre + 1) (length pre + 1 + length l) ≡ l
slice_label pre l rest =
    rw (append_assoc, length-append) at (slice-append (pre ++ (length l ∷ [])) l rest)

-- One turn at a label.
turn-label :
    (pre l rest : Bytes) (s : NameState)
    → IsLabel l
    → s.here ≡ length pre
    → turn (pre ++ (length l ∷ l ++ rest)) s
      ≡ next (record s { parts = s.parts ++ (l ∷ []); here = length pre + 1 + length l })
unfolding turn turn_label
turn-label pre l rest s h e = ground (
  arith,
  h.nonempty,
  get_elem?-append pre (l ++ rest) (length l),
  no_pointer (length l) h.short,
  label_text_lem l h,
  slice_label pre l rest,
  length-append pre (length l ∷ l ++ rest),
  length-append l rest,
)

turn-end :
    (pre rest : Bytes) (s : NameState)
    → s.here ≡ length pre
    → s.jumped ≡ false
    → turn (pre ++ (0 ∷ rest)) s ≡ done (ok (joined s.parts)) (length pre + 1)
unfolding turn
turn-end pre rest s e j = ground (arith, get_elem?-append pre rest 0)

name_loop-done :
    (fuel : ℕ) (buf : Bytes) (s : NameState) {r : Result Bytes IoError} {pos : ℕ}
    → turn buf s ≡ done r pos
    → name_loop (suc fuel) buf s ≡ (r, pos)
unfolding name_loop
name_loop-done fuel buf s e = rw (e, name_loop)

name_loop-next :
    (fuel : ℕ) (buf : Bytes) (s : NameState) {t : NameState}
    → turn buf s ≡ next t
    → name_loop (suc fuel) buf s ≡ name_loop fuel buf t
unfolding name_loop
name_loop-next fuel buf s e = rw (e, name_loop)

label_bytes_nil : label_bytes [] ≡ []
unfolding label_bytes
label_bytes_nil = refl

pub label_bytes_cons :
    (l : Bytes) (ls : List Bytes)
    → IsLabel l
    → label_bytes (l ∷ ls) ≡ length l ∷ l ++ label_bytes ls
unfolding label_bytes
label_bytes_cons [] ls h = absurd (omega (arith, h.nonempty))
label_bytes_cons (x ∷ xs) ls h = ground (arith, h.short)

-- The loop over labels that end with the root.
name_loop-labels :
    (fuel : ℕ) (ls : List Bytes) (pre rest : Bytes) (s : NameState)
    → All IsLabel ls
    → length ls < fuel
    → s.here ≡ length pre
    → s.jumped ≡ false
    → name_loop fuel (pre ++ (label_bytes ls ++ (0 ∷ rest))) s
      ≡ (ok (joined (s.parts ++ ls)), length pre + length (label_bytes ls) + 1)
name_loop-labels zero ls pre rest s h f e j = elim f [ ]
name_loop-labels (suc fuel) [] pre rest s h f e j =
    rw (label_bytes_nil, append-nil s.parts)
      (name_loop-done fuel (pre ++ (0 ∷ rest)) s (turn-end pre rest s e j)
        ∙ ap (λ n. (ok (joined s.parts), n)) (omega arith))
name_loop-labels (suc fuel) (l ∷ ls) pre rest s h f e j =
    let tail : Bytes = label_bytes ls ++ (0 ∷ rest) in
    let s' : NameState = record s {
      parts = s.parts ++ (l ∷ []);
      here = length pre + 1 + length l;
    } in
    let there : length pre + 1 + length l ≡ length (pre ++ (length l ∷ l)) =
      omega (arith, length-append {0} pre (length l ∷ l)) in
    let rec = name_loop-labels fuel ls (pre ++ (length l ∷ l)) rest s' h.1 (omega arith) there j in
    let bytes : label_bytes (l ∷ ls) ++ (0 ∷ rest) ≡ length l ∷ l ++ tail =
      rw (label_bytes_cons l ls h.0) (append_assoc (length l ∷ l) (label_bytes ls) (0 ∷ rest)) in
    let size : length (label_bytes (l ∷ ls)) ≡ 1 + length l + length (label_bytes ls) =
      rw (label_bytes_cons l ls h.0) (omega (arith, length-append {0} l (label_bytes ls))) in
    rw (bytes, size)
      (name_loop-next fuel (pre ++ (length l ∷ l ++ tail)) s (turn-label pre l tail s h.0 e)
        ∙ rw (append_assoc pre (length l ∷ l) tail, append_assoc s.parts (l ∷ []) ls) at rec
        ∙ ap (λ n. (ok (joined (s.parts ++ (l ∷ ls))), n)) (omega (arith, there)))

length-label_bytes : (ls : List Bytes) → All IsLabel ls → length ls ≤ length (label_bytes ls)
length-label_bytes [] h = omega arith
length-label_bytes (l ∷ ls) h =
    rw (label_bytes_cons l ls h.0)
      (omega (arith, length-append {0} l (label_bytes ls), length-label_bytes ls h.1))

pub name_bytes-joined :
    (ls : List Bytes) → All IsLabel ls → name_bytes (joined ls) ≡ label_bytes ls ++ (0 ∷ [])
unfolding name_bytes
name_bytes-joined [] h = unfold label_bytes bytes_eq in refl
name_bytes-joined (l ∷ ls) h =
    rw (not_root l ls h, trim_end_dots-join_dots (l ∷ ls) h, split_dots-join_dots l ls h) refl

-- A name written by `Builder::name` is read back, whatever stands around it.
pub Reads-name :
    (ls : List Bytes) → All IsLabel ls → Reads name (name_bytes (joined ls)) (joined ls)
unfolding name
Reads-name ls h = record {
  at = λ pre post.
      rw (name_bytes-joined ls h, append_assoc (label_bytes ls) (0 ∷ []) post)
        (name_loop-labels _ ls pre post (name_start (length pre)) h
            (omega (
              arith,
              length-label_bytes ls h,
              length-append {0} pre (label_bytes ls ++ (0 ∷ post)),
              length-append {0} (label_bytes ls) (0 ∷ post),
            ))
            refl refl
          ∙ ap (λ n. (ok (joined ls), n))
              (omega (arith, length-append {0} (label_bytes ls) (0 ∷ []))));
}
