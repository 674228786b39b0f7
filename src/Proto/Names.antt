-- ===== src/Proto/Names.antt =====
-- Domain names as text: labels joined by dots, and how `split` and `trim_end_matches` see them.
pub mod Read
use ironbind.Prelude.{
  ℕ, zero, suc, ◌+◌, ◌<◌, ◌≡◌, ◌≢◌, refl, sym, ap, ◌∙◌, Bool, true, false, ◌&&◌, ◌||◌, List, [],
  ◌∷◌, ◌++◌, arith, ◌==◌, ==_iff, if◌then◌else◌, length, is_empty, All, Bool-cases, inl, inr,
}
use ironbind.Prelude.Text.{
  Bytes, dot, to_ascii_lowercase, is_utf8, trim_end_dots, split_dots, cons_head, join_dots,
  bytes_eq, bytes_eq_iff,
}
use ironbind.Proto.Reader.{joined}

-- A label that the wire format carries unchanged: lower case, and short enough not to be taken for
-- a pointer.
pub record IsLabel (l : Bytes) : Type 0 where
  pub nonempty : 0 < length l
  pub short : length l < 192
  pub no_dot : All (λ c. c ≢ 46) l
  pub is_lower : to_ascii_lowercase l ≡ l
  pub is_text : is_utf8 l ≡ true

join_dots_more :
    (l m : Bytes) (ls : List Bytes) → join_dots (l ∷ m ∷ ls) ≡ l ++ (dot ∷ join_dots (m ∷ ls))
unfolding join_dots
join_dots_more l m ls = refl

trim_end_dots-append :
    (xs ys : Bytes)
    → is_empty ys ≡ false
    → trim_end_dots ys ≡ ys
    → trim_end_dots (xs ++ ys) ≡ xs ++ ys
unfolding trim_end_dots
trim_end_dots-append [] ys h e = e
trim_end_dots-append (x ∷ []) ys h e = ground arith
trim_end_dots-append (x ∷ y ∷ xs) ys h e = ground (arith, trim_end_dots-append (y ∷ xs) ys h e)

trim_end_dots_plain : (l : Bytes) → All (λ c. c ≢ 46) l → trim_end_dots l ≡ l
unfolding trim_end_dots
trim_end_dots_plain [] h = refl
trim_end_dots_plain (x ∷ xs) h = ground (arith, h.0, trim_end_dots_plain xs h.1)

pub join_dots-nonempty :
    (l : Bytes) (ls : List Bytes) → All IsLabel (l ∷ ls) → is_empty (join_dots (l ∷ ls)) ≡ false
unfolding join_dots
join_dots-nonempty [] ls h = absurd (omega (arith, h.0.nonempty))
join_dots-nonempty (x ∷ xs) [] h = refl
join_dots-nonempty (x ∷ xs) (m ∷ ls) h = refl

pub trim_end_dots-join_dots :
    (ls : List Bytes) → All IsLabel ls → trim_end_dots (join_dots ls) ≡ join_dots ls
trim_end_dots-join_dots [] h = unfold trim_end_dots join_dots in refl
trim_end_dots-join_dots (l ∷ []) h = unfold join_dots in trim_end_dots_plain l h.0.no_dot
trim_end_dots-join_dots (l ∷ m ∷ ls) h =
    let tail : trim_end_dots (dot ∷ join_dots (m ∷ ls)) ≡ dot ∷ join_dots (m ∷ ls) =
      trim_end_dots-append (dot ∷ []) (join_dots (m ∷ ls)) (join_dots-nonempty m ls h.1)
        (trim_end_dots-join_dots (m ∷ ls) h.1) in
    rw join_dots_more (trim_end_dots-append l (dot ∷ join_dots (m ∷ ls)) refl tail)

split_dots_plain : (l : Bytes) → All (λ c. c ≢ 46) l → split_dots l ≡ l ∷ []
unfolding split_dots
split_dots_plain [] h = refl
split_dots_plain (x ∷ xs) h = ground (arith, h.0, split_dots_plain xs h.1)

split_dots-append :
    (l rest : Bytes) → All (λ c. c ≢ 46) l → split_dots (l ++ (dot ∷ rest)) ≡ l ∷ split_dots rest
unfolding split_dots
split_dots-append [] rest h = refl
split_dots-append (x ∷ xs) rest h = ground (arith, h.0, split_dots-append xs rest h.1)

pub split_dots-join_dots :
    (l : Bytes) (ls : List Bytes) → All IsLabel (l ∷ ls) → split_dots (join_dots (l ∷ ls)) ≡ l ∷ ls
split_dots-join_dots l [] h = unfold join_dots in split_dots_plain l h.0.no_dot
split_dots-join_dots l (m ∷ ls) h =
    ap split_dots (join_dots_more l m ls)
    ∙ split_dots-append l (join_dots (m ∷ ls)) h.0.no_dot
    ∙ ap (λ r. l ∷ r) (split_dots-join_dots m ls h.1)

-- A name is not the root, as the builder tests it.
pub not_root :
    (l : Bytes) (ls : List Bytes)
    → All IsLabel (l ∷ ls)
    → (bytes_eq (join_dots (l ∷ ls)) (dot ∷ []) || is_empty (join_dots (l ∷ ls))) ≡ false
unfolding join_dots bytes_eq
not_root [] ls h = absurd (omega (arith, h.0.nonempty))
not_root (x ∷ xs) [] h = ground (arith, h.0.no_dot)
not_root (x ∷ xs) (m ∷ ls) h = ground (arith, h.0.no_dot)
