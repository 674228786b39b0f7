-- ===== src/Prelude/Text.antt =====
-- Text as its bytes: what the program uses of Rust's `str` and `[u8]`. A `String` is the list of
-- its UTF-8 bytes.
use Prim.Native.Char.{code}
use Prim.Native.String.{String}
use Prim.Native.Nat.{ℕ, zero, suc, ◌+◌, ◌-◌, ◌<◌, compare, Ordering}
use mathlib.Core.Path.{◌≡◌, refl}
use mathlib.Core.Logic.{◌↔◌}
use mathlib.Core.Bool.{Bool, true, false, ◌&&◌}
use mathlib.Core.Option.{Option, none, some}
use mathlib.Core.List.{List, [], ◌∷◌, ◌++◌, map}
use native.Mathlib.Omega.{arith}
use ironbind.Prelude.Tests.{ltb, leb, ◌==◌, if◌then◌else◌}
use ironbind.Prelude.Lists.{length, is_empty, drop, All}

abbrev pub Bytes : Type 0
Bytes = List ℕ

-- The bytes of a literal, all of them ASCII in the program.
abbrev pub codes : String → Bytes
codes String.[] = []
codes (String.◌∷◌ c s) = code c ∷ codes s

abbrev pub dot : ℕ
dot = 46

-- `u8::to_ascii_lowercase` and `str::to_ascii_lowercase`.
unfoldable pub lower : ℕ → ℕ
lower c = if leb 65 c && leb c 90 then c + 32 else c

abbrev pub to_ascii_lowercase : Bytes → Bytes
to_ascii_lowercase = map lower

-- `==` on `str` and `[u8]`.
unfoldable pub bytes_eq : Bytes → Bytes → Bool
bytes_eq [] [] = true
bytes_eq [] (y ∷ ys) = false
bytes_eq (x ∷ xs) [] = false
bytes_eq (x ∷ xs) (y ∷ ys) = x == y && bytes_eq xs ys

-- `cmp` on `str` and `[u8]`: lexicographic.
unfoldable pub bytes_cmp : Bytes → Bytes → Ordering
bytes_cmp [] [] = Ordering.eq
bytes_cmp [] (y ∷ ys) = Ordering.lt
bytes_cmp (x ∷ xs) [] = Ordering.gt
bytes_cmp (x ∷ xs) (y ∷ ys) = elim (compare x y) [
  | Ordering.lt ↦ Ordering.lt
  | Ordering.eq ↦ bytes_cmp xs ys
  | Ordering.gt ↦ Ordering.gt
]

unfoldable pub starts_with : Bytes → Bytes → Bool
starts_with s [] = true
starts_with [] (y ∷ ys) = false
starts_with (x ∷ xs) (y ∷ ys) = x == y && starts_with xs ys

unfoldable pub ends_with : Bytes → Bytes → Bool
unfolding bytes_eq
ends_with s t = leb (length t) (length s) && bytes_eq (drop (length s - length t) s) t

-- `trim_end_matches('.')`.
unfoldable pub trim_end_dots : Bytes → Bytes
trim_end_dots [] = []
trim_end_dots (x ∷ xs) =
    let rest = trim_end_dots xs in if x == dot && is_empty rest then [] else x ∷ rest

abbrev pub cons_head : ℕ → List Bytes → List Bytes
cons_head x [] = (x ∷ []) ∷ []
cons_head x (w ∷ ws) = (x ∷ w) ∷ ws

-- `split('.')`.
unfoldable pub split_dots : Bytes → List Bytes
split_dots [] = [] ∷ []
split_dots (x ∷ xs) = let rest = split_dots xs in if x == dot then [] ∷ rest else cons_head x rest

-- `join(".")`.
unfoldable pub join_dots : List Bytes → Bytes
join_dots [] = []
join_dots (w ∷ []) = w
join_dots (w ∷ v ∷ vs) = w ++ (dot ∷ join_dots (v ∷ vs))

-- What may follow the first byte of a UTF-8 character: how many bytes, and the range of the next.
abbrev utf8_lead : ℕ → Option (ℕ × ℕ × ℕ)
utf8_lead b =
    if ltb b 0x80
    then some (0, 0, 0)
    else if ltb b 0xc2
    then none
    else if ltb b 0xe0
    then some (1, 0x80, 0xbf)
    else if b == 0xe0
    then some (2, 0xa0, 0xbf)
    else if b == 0xed
    then some (2, 0x80, 0x9f)
    else if ltb b 0xf0
    then some (2, 0x80, 0xbf)
    else if b == 0xf0
    then some (3, 0x90, 0xbf)
    else if ltb b 0xf4
    then some (3, 0x80, 0xbf)
    else if b == 0xf4
    then some (3, 0x80, 0x8f)
    else none

utf8_from : ℕ → ℕ → ℕ → Bytes → Bool
utf8_from zero lo hi [] = true
utf8_from (suc n) lo hi [] = false
utf8_from zero lo hi (b ∷ bs) = elim (utf8_lead b) [
  | none ↦ false
  | some next ↦ utf8_from next.0 next.1 next.2 bs
]
utf8_from (suc n) lo hi (b ∷ bs) =
    let rest = utf8_from n 0x80 0xbf bs in leb lo b && leb b hi && rest

-- `str::from_utf8(bytes).is_ok()`.
unfoldable pub is_utf8 : Bytes → Bool
unfolding utf8_from
is_utf8 = utf8_from 0 0 0

-- The byte is the second or a later one of its character, so that a slice cannot start there.
abbrev pub is_inner : ℕ → Bool
is_inner b = leb 0x80 b && ltb b 0xc0

abbrev pub starts_inside : Bytes → Bool
starts_inside [] = false
starts_inside (b ∷ bs) = is_inner b

pub lower_idem : (c : ℕ) → lower (lower c) ≡ lower c
unfolding lower
lower_idem c = ground arith

pub to_ascii_lowercase_idem :
    (s : Bytes) → to_ascii_lowercase (to_ascii_lowercase s) ≡ to_ascii_lowercase s
to_ascii_lowercase_idem [] = refl
to_ascii_lowercase_idem (c ∷ s) = ground (arith, lower_idem c, to_ascii_lowercase_idem s)

pub bytes_eq_iff : (xs ys : Bytes) → (bytes_eq xs ys ≡ true) ↔ (xs ≡ ys)
unfolding bytes_eq
bytes_eq_iff [] [] = (λ _. refl, λ _. refl)
bytes_eq_iff [] (y ∷ ys) = (λ h. cc, λ h. cc)
bytes_eq_iff (x ∷ xs) [] = (λ h. cc, λ h. cc)
bytes_eq_iff (x ∷ xs) (y ∷ ys) =
    let ih = bytes_eq_iff xs ys in (λ h. ground (arith, ih), λ h. ground (arith, ih))

pub bytes_eq_self : (xs : Bytes) → bytes_eq xs xs ≡ true
bytes_eq_self xs = (bytes_eq_iff xs xs).1 refl

-- ASCII text is UTF-8.
pub ascii-is_utf8 : (s : Bytes) → All (λ b. b < 128) s → is_utf8 s ≡ true
unfolding is_utf8
ascii-is_utf8 [] h = refl
ascii-is_utf8 (b ∷ bs) h = ground (arith, ascii-is_utf8 bs h.1)
