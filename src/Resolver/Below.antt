-- ===== src/Resolver/Below.antt =====
-- src/resolver.rs: `in_bailiwick` on the names of zones.
use ironbind.Prelude.{
  ℕ, ◌<◌, ◌≡◌, ◌≢◌, refl, sym, ap, ◌∙◌, true, false, ◌&&◌, ◌⊎◌, [], ◌∷◌, arith, ◌==◌, length,
  is_empty, Bool-cases, inl, inr,
}
use ironbind.Prelude.Text.{
  Bytes, dot, lower, to_ascii_lowercase, to_ascii_lowercase_idem, bytes_eq, bytes_eq_iff, ends_with,
  trim_end_dots,
}
use ironbind.Resolver.{in_bailiwick}

lower-dot : (c : ℕ) → (lower c == dot) ≡ (c == dot)
unfolding lower
lower-dot c = ground arith

is_empty-lowercase : (n : Bytes) → is_empty (to_ascii_lowercase n) ≡ is_empty n
is_empty-lowercase [] = refl
is_empty-lowercase (c ∷ n) = refl

trim_end_dots-lowercase :
    (n : Bytes) → trim_end_dots (to_ascii_lowercase n) ≡ to_ascii_lowercase (trim_end_dots n)
unfolding trim_end_dots
trim_end_dots-lowercase [] = refl
trim_end_dots-lowercase (c ∷ n) = elim (Bool-cases (c == dot && is_empty (trim_end_dots n))) [
  | inl e ↦
      rw (trim_end_dots-lowercase n, lower-dot c, is_empty-lowercase (trim_end_dots n), e) refl
  | inr e ↦
      rw (trim_end_dots-lowercase n, lower-dot c, is_empty-lowercase (trim_end_dots n), e) refl
]

-- The case of a name makes no difference to the zones that it is in.
pub in_bailiwick-lowercase :
    (n zone : Bytes) → in_bailiwick (to_ascii_lowercase n) zone ≡ in_bailiwick n zone
unfolding in_bailiwick
in_bailiwick-lowercase n zone =
    rw (trim_end_dots-lowercase n, to_ascii_lowercase_idem (trim_end_dots n)) refl

-- A name as the parser joins it from labels without dots.
abbrev pub IsPlain : Bytes → Type 0
IsPlain n = (n ≡ dot ∷ []) ⊎ ((n ≢ []) × (trim_end_dots n ≡ n))

-- The name of a zone of the walk.
pub record IsZoneName (n : Bytes) : Type 0 where
  pub plain : IsPlain n
  pub lower : to_ascii_lowercase n ≡ n

lowercase-ne-nil : (n : Bytes) → n ≢ [] → to_ascii_lowercase n ≢ []
lowercase-ne-nil [] h = λ e. h refl
lowercase-ne-nil (c ∷ n) h = λ e. ground arith

-- The zone that a plain name names.
pub IsZoneName-lowercase : (n : Bytes) → IsPlain n → IsZoneName (to_ascii_lowercase n)
unfolding lower
IsZoneName-lowercase n (inl e) = record {
  plain = inl (rw e refl);
  lower = to_ascii_lowercase_idem n;
}
IsZoneName-lowercase n (inr (h, e)) = record {
  plain = inr (lowercase-ne-nil n h, trim_end_dots-lowercase n ∙ ap to_ascii_lowercase e);
  lower = to_ascii_lowercase_idem n;
}

-- The name less its dots at the end, in lower case, as `in_bailiwick` compares it.
abbrev pub bare : Bytes → Bytes
bare n = to_ascii_lowercase (trim_end_dots n)

-- A zone name is the root, or it is compared as it is written.
bare-cases :
    (n : Bytes) → IsZoneName n → ((n ≡ dot ∷ []) × (bare n ≡ [])) ⊎ ((n ≢ []) × (bare n ≡ n))
unfolding trim_end_dots
bare-cases n h = elim h.plain [
  | inl e ↦ inl (e, rw e refl)
  | inr (k, e) ↦ inr (k, ap to_ascii_lowercase e ∙ h.lower)
]

empty-nil : (n : Bytes) → is_empty n ≡ true → n ≡ []
empty-nil [] h = refl
empty-nil (c ∷ n) h = absurd (ground arith)

nonempty-length : (n : Bytes) → n ≢ [] → 0 < length n
nonempty-length [] h = absurd (h refl)
nonempty-length (c ∷ n) h = omega arith

ends_with-longer : (n zone : Bytes) → ends_with n (dot ∷ zone) ≡ true → length zone < length n
unfolding ends_with
ends_with-longer n zone h = ground arith

in_bailiwick-cases :
    (n zone : Bytes)
    → in_bailiwick n zone ≡ true
    → (bare zone ≡ []) ⊎ ((bare n ≡ bare zone) ⊎ (length (bare zone) < length (bare n)))
unfolding in_bailiwick
in_bailiwick-cases n zone h = elim (Bool-cases (is_empty (bare zone))) [
  | inl e ↦ inl (empty-nil (bare zone) e)
  | inr e ↦ elim (Bool-cases (bytes_eq (bare n) (bare zone))) [
    | inl f ↦ inr (inl ((bytes_eq_iff (bare n) (bare zone)).0 f))
    | inr f ↦ inr (inr (ends_with-longer (bare n) (bare zone) (rw (e, f) at h)))
  ]
]

-- A zone that is in another one, and is written differently, is below it: its name is longer.
pub in_bailiwick-below :
    (n zone : Bytes)
    → IsZoneName n
    → IsZoneName zone
    → in_bailiwick n zone ≡ true
    → bytes_eq n zone ≡ false
    → length (bare zone) < length (bare n)
in_bailiwick-below n zone h k within other =
    let differ : n ≢ zone = λ e. let same = (bytes_eq_iff n zone).1 e in ground arith in
    elim (bare-cases zone k) [
      | inl (z, f) ↦ elim (bare-cases n h) [
        | inl (m, g) ↦ absurd (differ (m ∙ sym z))
        | inr (m, g) ↦ rw (f, g) (nonempty-length n m)
      ]
      | inr (z, f) ↦ elim (in_bailiwick-cases n zone within) [
        | inl e ↦ absurd (z (sym f ∙ e))
        | inr (inr l) ↦ l
        | inr (inl e) ↦ elim (bare-cases n h) [
          | inl (m, g) ↦ absurd (z (sym f ∙ (sym e ∙ g)))
          | inr (m, g) ↦ absurd (differ (sym g ∙ (e ∙ f)))
        ]
      ]
    ]
