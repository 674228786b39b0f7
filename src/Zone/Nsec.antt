-- ===== src/Zone/Nsec.antt =====
-- src/zone.rs: the order of the NSEC owners, and the owner that covers a name.
use mathlib.Core.Path.{subst}
use ironbind.Prelude.{
  ℕ, zero, suc, ◌<◌, ◌≤◌, ◌≡◌, ◌≢◌, refl, ap, ◌∙◌, Bool, true, false, some, List, [], ◌∷◌, ◌++◌,
  arith, length, get_elem?, take, drop, All,
}
use ironbind.Prelude.Text.{Bytes}
use ironbind.Prelude.Sort.{is_lt, partition_point}
use ironbind.Prelude.Sort.Linear.{bytes_cmp-IsLinear, list_cmp-IsLinear}
use ironbind.Prelude.Sort.Sorted.{
  IsOrder, IsLinear-IsOrder, IsOrder-by, IsSorted, sort_by-IsSorted, partition_point-split,
}
use ironbind.Zone.Order.{canonical_order, order_labels}
use ironbind.Zone.{Zone, build_nsec_chain, covering_index, at_index, nsec_covering_owner}

canonical_order-IsOrder : IsOrder canonical_order
unfolding canonical_order
canonical_order-IsOrder =
    IsOrder-by order_labels (IsLinear-IsOrder (list_cmp-IsLinear bytes_cmp-IsLinear))

-- Building the chain leaves the owners of the NSEC records in canonical order.
build_nsec_chain-IsSorted :
    (ttl : ℕ) (z : Zone) → IsSorted canonical_order (build_nsec_chain ttl z).nsec_owners
unfolding build_nsec_chain
build_nsec_chain-IsSorted ttl z = sort_by-IsSorted canonical_order-IsOrder z.names

abbrev IsBefore : Bytes → Bytes → Type 0
IsBefore name o = is_lt (canonical_order o name) ≡ true

abbrev IsNotBefore : Bytes → Bytes → Type 0
IsNotBefore name o = is_lt (canonical_order o name) ≡ false

-- `o` is the owner that covers `name`: the owners from it on back are all before the name and those
-- behind it are not; or no owner is before the name, and `o` is the last.
pub data Covers (owners : List Bytes) (name o : Bytes) : Type 0 where
  between :
      (front back : List Bytes)
      → owners ≡ front ++ (o ∷ back)
      → All (IsBefore name) (front ++ (o ∷ []))
      → All (IsNotBefore name) back
      → Covers owners name o
  wrapped :
      (front : List Bytes)
      → owners ≡ front ++ (o ∷ [])
      → All (IsNotBefore name) owners
      → Covers owners name o

-- A list with an item at `i` is what stands before it, the item, and what stands behind.
split_at :
    (owners : List Bytes) (i : ℕ)
    → i < length owners
    → (o : Bytes) × (get_elem? owners i ≡ some o)
      × (take (suc i) owners ≡ take i owners ++ (o ∷ []))
      × (owners ≡ take i owners ++ (o ∷ drop (suc i) owners))
split_at [] i h = elim h [ ]
split_at (x ∷ xs) zero h = (x, refl, refl, refl)
split_at (x ∷ xs) (suc i) h =
    let (o, g, t, e) = split_at xs i (omega arith) in
    (o, g, ap (λ ys. x ∷ ys) t, ap (λ ys. x ∷ ys) e)

partition_point-le : (p : Bytes → Bool) (xs : List Bytes) → partition_point p xs ≤ length xs
unfolding partition_point
partition_point-le p [] = omega arith
partition_point-le p (x ∷ xs) = ground (arith, partition_point-le p xs)

take_all : (xs : List Bytes) → drop (length xs) xs ≡ []
take_all [] = refl
take_all (x ∷ xs) = take_all xs

Covers-at :
    (owners : List Bytes) (name : Bytes) (p : ℕ)
    → owners ≢ []
    → p ≤ length owners
    → All (IsBefore name) (take p owners)
    → All (IsNotBefore name) (drop p owners)
    → (o : Bytes) × (at_index owners (covering_index p (length owners)) ≡ some o)
      × Covers owners name o
unfolding covering_index
Covers-at [] name p h l b n = absurd (h refl)
Covers-at (x ∷ xs) name zero h l b n =
    let (o, g, t, e) = split_at (x ∷ xs) (length xs) (omega arith) in
    (
      o,
      g,
      wrapped (take (length xs) (x ∷ xs))
          (e ∙ ap (λ ys. take (length xs) (x ∷ xs) ++ (o ∷ ys)) (take_all (x ∷ xs))) n,
    )
Covers-at (x ∷ xs) name (suc p) h l b n =
    let (o, g, t, e) = split_at (x ∷ xs) p (omega arith) in
    (
      o,
      g,
      between (take p (x ∷ xs)) (drop (suc p) (x ∷ xs)) e (subst (λ ys. All (IsBefore name) ys) t b)
          n,
    )

-- In a signed zone whose owners are in canonical order, every name has a covering owner, and it is
-- the last owner that sorts before the name, or the last owner of all if none does.
pub nsec_covering_owner-Covers :
    (z : Zone) (name : Bytes)
    → z.nsec_owners ≢ []
    → IsSorted canonical_order z.nsec_owners
    → (o : Bytes) × (nsec_covering_owner z name ≡ some o) × Covers z.nsec_owners name o
unfolding nsec_covering_owner
nsec_covering_owner-Covers z name h s =
    let before = λ (o : Bytes). is_lt (canonical_order o name) in
    let split = partition_point-split canonical_order-IsOrder name z.nsec_owners s in
    Covers-at z.nsec_owners name (partition_point before z.nsec_owners) h
      (partition_point-le before z.nsec_owners) split.0 split.1
