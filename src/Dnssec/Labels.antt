-- ===== src/Dnssec/Labels.antt =====
-- src/dnssec.rs: the names on the way from the root to the owner in `Validator::chain_validate`.
use mathlib.Core.List.{reverse, reverse-cons}
use ironbind.Prelude.{
  ℕ, ◌≡◌, refl, sym, ap, ◌∙◌, true, false, ◌&&◌, List, [], ◌∷◌, ◌++◌, arith, ◌==◌, is_empty,
  Bool-cases, inl, inr,
}
use ironbind.Prelude.Text.{Bytes, dot, bytes_eq, trim_end_dots, split_dots, cons_head}
use ironbind.Dnssec.Chain.{child_of}

-- The name at the end of a walk.
abbrev pub after : Bytes → List Bytes → Bytes
after current [] = current
after current (label ∷ labels) = after (child_of label current) labels

after-append :
    (ls : List Bytes) (l current : Bytes)
    → after current (ls ++ (l ∷ [])) ≡ child_of l (after current ls)
after-append [] l current = refl
after-append (m ∷ ls) l current = after-append ls l (child_of m current)

-- The name that labels in their usual order stand for.
abbrev named : List Bytes → Bytes
named [] = dot ∷ []
named (l ∷ ls) = child_of l (named ls)

after-reverse : (ls : List Bytes) → after (dot ∷ []) (reverse ls) ≡ named ls
after-reverse [] = refl
after-reverse (l ∷ ls) =
    ap (after (dot ∷ [])) (reverse-cons l ls)
    ∙ after-append (reverse ls) l (dot ∷ [])
    ∙ ap (child_of l) (after-reverse ls)

child_of_cons : (x : ℕ) (l current : Bytes) → child_of (x ∷ l) current ≡ x ∷ child_of l current
child_of_cons x l current = elim (Bool-cases (bytes_eq current (dot ∷ []))) [
  | inl e ↦ rw e refl
  | inr e ↦ rw e refl
]

trim-append : (s : Bytes) → trim_end_dots (s ++ (dot ∷ [])) ≡ trim_end_dots s
unfolding trim_end_dots
trim-append [] = refl
trim-append (x ∷ s) = ground (arith, trim-append s)

trim_idem : (s : Bytes) → trim_end_dots (trim_end_dots s) ≡ trim_end_dots s
unfolding trim_end_dots
trim_idem [] = refl
trim_idem (x ∷ s) = elim (Bool-cases (x == dot && is_empty (trim_end_dots s))) [
  | inl e ↦ rw e refl
  | inr e ↦ rw e (rw (trim_idem s, e) refl)
]

split_dots-cases : (s : Bytes) → (w : Bytes) × (ws : List Bytes) × (split_dots s ≡ w ∷ ws)
unfolding split_dots
split_dots-cases [] = ([], [], refl)
split_dots-cases (x ∷ s) = elim (Bool-cases (x == dot)) [
  | inl e ↦ ([], split_dots s, rw e refl)
  | inr e ↦ let (w, ws, h) = split_dots-cases s in (x ∷ w, ws, rw (e, h) refl)
]

split_at_dot : (x : ℕ) (s : Bytes) → (x == dot) ≡ true → split_dots (x ∷ s) ≡ [] ∷ split_dots s
unfolding split_dots
split_at_dot x s e = rw e refl

split_at_other :
    (x : ℕ) (s : Bytes) → (x == dot) ≡ false → split_dots (x ∷ s) ≡ cons_head x (split_dots s)
unfolding split_dots
split_at_other x s e = rw e refl

longer-ne-dot : (y : ℕ) (s : Bytes) → bytes_eq (y ∷ s ++ (dot ∷ [])) (dot ∷ []) ≡ false
unfolding bytes_eq
longer-ne-dot y [] = ground arith
longer-ne-dot y (z ∷ s) = ground arith

trimmed_tail :
    (x y : ℕ) (s : Bytes) → trim_end_dots (x ∷ y ∷ s) ≡ x ∷ y ∷ s → trim_end_dots (y ∷ s) ≡ y ∷ s
trimmed_tail x y s h = unfold trim_end_dots in ground arith

-- A name that does not end in a dot.
named_trimmed :
    (s : Bytes) (x : ℕ)
    → trim_end_dots (x ∷ s) ≡ x ∷ s
    → named (split_dots (x ∷ s)) ≡ x ∷ s ++ (dot ∷ [])
named_trimmed [] x h = elim (Bool-cases (x == dot)) [
  | inl e ↦ absurd (unfold trim_end_dots in ground arith)
  | inr e ↦ unfold split_dots bytes_eq in rw e refl
]
named_trimmed (y ∷ s) x h =
    let ih = named_trimmed s y (trimmed_tail x y s h) in
    elim (Bool-cases (x == dot)) [
      | inl e ↦
          let is_dot : dot ≡ x = ground arith in
          let start : named (split_dots (x ∷ y ∷ s)) ≡ child_of [] (named (split_dots (y ∷ s))) =
            ap named (split_at_dot x (y ∷ s) e) in
          start
          ∙ ap (child_of []) ih
          ∙ rw (longer-ne-dot y s) (ap (λ (t : ℕ). t ∷ (y ∷ s ++ (dot ∷ []))) is_dot)
      | inr e ↦
          let (w, ws, k) = split_dots-cases (y ∷ s) in
          let start : named (split_dots (x ∷ y ∷ s)) ≡ named (cons_head x (w ∷ ws)) =
            ap named (split_at_other x (y ∷ s) e ∙ ap (cons_head x) k) in
          start ∙ child_of_cons x w (named ws) ∙ ap (λ t. x ∷ t) (ap named (sym k) ∙ ih)
    ]

after_root : trim_end_dots (after (dot ∷ []) (reverse (split_dots []))) ≡ []
unfolding trim_end_dots split_dots bytes_eq
after_root = refl

-- The labels of a name, walked from the root, give the name again.
pub after_labels :
    (owner : Bytes)
    → trim_end_dots (after (dot ∷ []) (reverse (split_dots (trim_end_dots owner))))
      ≡ trim_end_dots owner
after_labels owner = go (trim_end_dots owner) (trim_idem owner)
  where
    go :
        (t : Bytes)
        → trim_end_dots t ≡ t
        → trim_end_dots (after (dot ∷ []) (reverse (split_dots t))) ≡ t
    go [] h = after_root
    go (x ∷ s) h =
        ap trim_end_dots (after-reverse (split_dots (x ∷ s)) ∙ named_trimmed s x h)
        ∙ trim-append (x ∷ s)
        ∙ h
