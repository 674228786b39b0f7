-- ===== src/Prelude/Sort/Sorted.antt =====
-- Ordered lists, for `sort_by` and `partition_point`.
use Prim.Native.Nat.{ℕ, Ordering}
use mathlib.Core.Path.{◌≡◌}
use mathlib.Core.Logic.{inl, inr}
use mathlib.Core.Bool.{true, false}
use mathlib.Core.List.{List, [], ◌∷◌}
use native.Mathlib.Omega.{arith}
use ironbind.Prelude.Tests.{Bool-cases}
use ironbind.Prelude.Lists.{take, drop, All}
use ironbind.Prelude.Sort.{is_lt, is_gt, insert_sorted, sort_by, partition_point}
use ironbind.Prelude.Sort.Linear.{flip, IsLinear}

-- `x` does not come after `y`.
abbrev pub le {ℓ} : {A : Type ℓ} → (A → A → Ordering) → A → A → Type 0
le cmp x y = is_gt (cmp x y) ≡ false

pub record IsOrder {ℓ} {A : Type ℓ} (cmp : A → A → Ordering) : Type ℓ where
  pub swap : (x y : A) → cmp y x ≡ flip (cmp x y)
  pub trans : (x y z : A) → le cmp x y → le cmp y z → le cmp x z

pub IsLinear-IsOrder {ℓ} : {A : Type ℓ} {cmp : A → A → Ordering} → IsLinear cmp → IsOrder cmp
IsLinear-IsOrder o = record {
  swap = o.swap;
  trans = λ x y z h k. ground (arith, o.equal x y, o.equal y z, o.chain x y z);
}

-- The order of items by a key.
pub IsOrder-by {ℓ κ} :
    {A : Type ℓ} {B : Type κ} {cmp : B → B → Ordering} (f : A → B)
    → IsOrder cmp
    → IsOrder (λ (x y : A). cmp (f x) (f y))
IsOrder-by f o = record {
  swap = λ x y. o.swap (f x) (f y);
  trans = λ x y z. o.trans (f x) (f y) (f z);
}

module _ {ℓ} {A : Type ℓ} (cmp : A → A → Ordering) where
  abbrev pub IsSorted : List A → Type 0
  IsSorted [] = Unit
  IsSorted (x ∷ xs) = All (λ y. le cmp x y) xs × IsSorted xs

module _ {ℓ} {A : Type ℓ} {cmp : A → A → Ordering} (o : IsOrder cmp) where
  All-le :
      (x y : A) (ys : List A) → le cmp x y → All (λ z. le cmp y z) ys → All (λ z. le cmp x z) ys
  All-le x y [] h k = tt
  All-le x y (z ∷ zs) h k = (o.trans x y z h k.0, All-le x y zs h k.1)

  All-insert_sorted :
      (P : A → Type 0) (x : A) (ys : List A) → P x → All P ys → All P (insert_sorted cmp x ys)
  unfolding insert_sorted
  All-insert_sorted P x [] h k = (h, tt)
  All-insert_sorted P x (y ∷ ys) h k = elim (Bool-cases (is_gt (cmp x y))) [
    | inl e ↦ rw (e, insert_sorted) (k.0, All-insert_sorted P x ys h k.1)
    | inr e ↦ rw (e, insert_sorted) (h, k)
  ]

  insert_sorted-IsSorted :
      (x : A) (ys : List A) → IsSorted cmp ys → IsSorted cmp (insert_sorted cmp x ys)
  unfolding insert_sorted
  insert_sorted-IsSorted x [] h = (tt, tt)
  insert_sorted-IsSorted x (y ∷ ys) h = elim (Bool-cases (is_gt (cmp x y))) [
    | inl e ↦
        let yx : le cmp y x = rw (o.swap x y) (ground arith) in
        rw (e, insert_sorted)
          (All-insert_sorted (λ z. le cmp y z) x ys yx h.0, insert_sorted-IsSorted x ys h.1)
    | inr e ↦ rw (e, insert_sorted) ((e, All-le x y ys e h.0), h)
  ]

  pub sort_by-IsSorted : (xs : List A) → IsSorted cmp (sort_by cmp xs)
  unfolding sort_by
  sort_by-IsSorted [] = tt
  sort_by-IsSorted (x ∷ xs) = insert_sorted-IsSorted x (sort_by cmp xs) (sort_by-IsSorted xs)

  -- Nothing behind an item that is not before `n` is before `n`.
  All-not_before :
      (n x : A) (xs : List A)
      → is_lt (cmp x n) ≡ false
      → All (λ y. le cmp x y) xs
      → All (λ y. is_lt (cmp y n) ≡ false) xs
  All-not_before n x [] h k = tt
  All-not_before n x (y ∷ ys) h k = (
    ground (arith, o.swap x n, o.swap y n, o.swap n y, o.swap n x, o.trans n x y, k.0),
    All-not_before n x ys h k.1,
  )

  pub partition_point-split :
      (n : A) (xs : List A)
      → IsSorted cmp xs
      → let p : ℕ = partition_point (λ x. is_lt (cmp x n)) xs in
        All (λ x. is_lt (cmp x n) ≡ true) (take p xs)
        × All (λ x. is_lt (cmp x n) ≡ false) (drop p xs)
  unfolding partition_point
  partition_point-split n [] h = (tt, tt)
  partition_point-split n (x ∷ xs) h = elim (Bool-cases (is_lt (cmp x n))) [
    | inl e ↦ let ih = partition_point-split n xs h.1 in rw (e, partition_point) ((e, ih.0), ih.1)
    | inr e ↦ rw (e, partition_point) (tt, (e, All-not_before n x xs e h.0))
  ]
