-- ===== src/Zone/Store.antt =====
-- src/zone.rs: the store after a record is added, and `closest_encloser`.
use ironbind.Prelude.{
  ℕ, zero, suc, ◌+◌, ◌<◌, ◌≡◌, refl, ap, Bool, ◌||◌, Option, none, some, List, [], ◌∷◌, ◌++◌, arith,
  ◌==◌, if◌then◌else◌, length, find?, any, Bool-cases, ◌⊎◌, inl, inr,
}
use ironbind.Prelude.Text.{Bytes, dot, to_ascii_lowercase, bytes_eq, bytes_eq_iff, ends_with}
use ironbind.Prelude.Assoc.{pair_key, lookup-insert}
use ironbind.Proto.RType.{RType}
use ironbind.Proto.Packet.{Record}
use ironbind.Zone.{
  Zone, insert_name, rrset_key, or_default, add, find_rrset, name_exists, parent_of, encloser_loop,
  closest_encloser,
}

-- The record is appended to the set at its name, in any letter case, and type; other sets stay.
pub find_rrset-add :
    (r : Record) (z : Zone) (n : Bytes) (t : RType)
    → find_rrset (add r z) n t ≡ (
        if pair_key.beq (rrset_key n t) (rrset_key r.name r.rtype)
        then some (or_default (find_rrset z r.name r.rtype) ++ (r ∷ []))
        else find_rrset z n t)
unfolding find_rrset add
find_rrset-add r z n t = lookup-insert (rrset_key r.name r.rtype) (rrset_key n t) _ z.rrsets

any-insert_name :
    (p : Bytes → Bool) (n : Bytes) (ns : List Bytes) → any p (insert_name n ns) ≡ (p n || any p ns)
unfolding insert_name
any-insert_name p n [] = refl
any-insert_name p n (m ∷ ms) = ground (arith, bytes_eq_iff n m, any-insert_name p n ms)

-- `n` is `owner` or one of its ancestors, both in lower case.
abbrev at_or_above : Bytes → Bytes → Bool
at_or_above n owner = bytes_eq n owner || ends_with owner (dot ∷ n)

-- After a record is added, the names that exist are those that did, the owner of the record, and
-- every ancestor of the owner, so that empty non-terminals exist.
name_exists-add :
    (r : Record) (z : Zone) (n : Bytes)
    → name_exists (add r z) n
      ≡ (at_or_above (to_ascii_lowercase n) (to_ascii_lowercase r.name) || name_exists z n)
unfolding name_exists add
name_exists-add r z n = ground (
  arith,
  any-insert_name (bytes_eq (to_ascii_lowercase n)) (to_ascii_lowercase r.name) z.names,
  any-insert_name (λ e. ends_with e (dot ∷ to_ascii_lowercase n)) (to_ascii_lowercase r.name)
      z.names,
)

-- The proper ancestors of a name, the nearest first: what follows each of its dots.
unfoldable pub ancestors : Bytes → List Bytes
ancestors [] = []
ancestors (c ∷ cs) = let rest = ancestors cs in if c == dot then cs ∷ rest else rest

abbrev or_origin : Bytes → Option Bytes → Bytes
or_origin origin none = origin
or_origin origin (some n) = n

-- The nearest ancestor that exists or is the origin; the origin, if there is none.
unfoldable pub nearest : Zone → Bytes → Bytes
nearest z n =
    if bytes_eq n z.origin
    then z.origin
    else or_origin z.origin (find? (λ m. name_exists z m || bytes_eq m z.origin) (ancestors n))

ancestors-parent_of :
    (n : Bytes)
    → ((parent_of n ≡ none) × (ancestors n ≡ []))
      ⊎ ((p : Bytes) × (parent_of n ≡ some p)
          × (ancestors n ≡ p ∷ ancestors p)
          × (length p < length n))
unfolding ancestors parent_of
ancestors-parent_of [] = inl (refl, refl)
ancestors-parent_of (c ∷ cs) = elim (Bool-cases (c == dot)) [
  | inl e ↦ inr (cs, rw e refl, rw e refl, omega arith)
  | inr e ↦ elim (ancestors-parent_of cs) [
    | inl h ↦ inl (rw e h.0, rw e h.1)
    | inr (p, h, a, l) ↦ inr (p, rw e h, rw e a, omega arith)
  ]
]

encloser_loop-nearest :
    (fuel : ℕ) (z : Zone) (n : Bytes)
    → length n < fuel
    → encloser_loop fuel z n ≡ some (nearest z n)
unfolding encloser_loop nearest
encloser_loop-nearest zero z n h = elim h [ ]
encloser_loop-nearest (suc fuel) z n h = elim (ancestors-parent_of n) [
  | inl e ↦ ground (arith, bytes_eq_iff n z.origin)
  | inr (p, e, a, l) ↦
      ground
        (arith, bytes_eq_iff n z.origin, bytes_eq_iff p z.origin, encloser_loop-nearest fuel z p)
]

length-to_ascii_lowercase : (n : Bytes) → length (to_ascii_lowercase n) ≡ length n
length-to_ascii_lowercase [] = refl
length-to_ascii_lowercase (c ∷ cs) = ap suc (length-to_ascii_lowercase cs)

-- The loop of `closest_encloser` ends on every name. For the origin it returns the origin, and for any
-- other name its nearest proper ancestor that exists in the zone or is the origin, and the origin where
-- there is no such ancestor.
pub closest_encloser-nearest :
    (z : Zone) (n : Bytes) → closest_encloser z n ≡ some (nearest z (to_ascii_lowercase n))
unfolding closest_encloser
closest_encloser-nearest z n =
    encloser_loop-nearest (length n + 1) z (to_ascii_lowercase n)
      (omega (arith, length-to_ascii_lowercase n))
