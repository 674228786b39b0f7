-- ===== src/Prelude/Sort.antt =====
-- What the program uses of `sort_by`, `cmp` on vectors and `partition_point`.
pub mod Linear
pub mod Sorted
use Prim.Native.Nat.{ℕ, zero, suc, ◌+◌, ◌≤◌, compare, Ordering}
use mathlib.Core.Path.{◌≡◌, refl}
use mathlib.Core.Bool.{Bool, true, false}
use mathlib.Core.List.{List, [], ◌∷◌, ◌++◌}
use native.Mathlib.Omega.{arith}
use ironbind.Prelude.Tests.{if◌then◌else◌}
use ironbind.Prelude.Lists.{length, All}

abbrev pub is_lt : Ordering → Bool
is_lt Ordering.lt = true
is_lt Ordering.eq = false
is_lt Ordering.gt = false

abbrev pub is_gt : Ordering → Bool
is_gt Ordering.lt = false
is_gt Ordering.eq = false
is_gt Ordering.gt = true

-- `Ordering::then`
abbrev pub then_cmp : Ordering → Ordering → Ordering
then_cmp Ordering.lt o = Ordering.lt
then_cmp Ordering.eq o = o
then_cmp Ordering.gt o = Ordering.gt

module _ {ℓ} {A : Type ℓ} (cmp : A → A → Ordering) where
  -- `Ord` on a vector: lexicographic.
  unfoldable pub list_cmp : List A → List A → Ordering
  list_cmp [] [] = Ordering.eq
  list_cmp [] (y ∷ ys) = Ordering.lt
  list_cmp (x ∷ xs) [] = Ordering.gt
  list_cmp (x ∷ xs) (y ∷ ys) = elim (cmp x y) [
    | Ordering.lt ↦ Ordering.lt
    | Ordering.eq ↦ list_cmp xs ys
    | Ordering.gt ↦ Ordering.gt
  ]

  unfoldable pub insert_sorted : A → List A → List A
  insert_sorted x [] = x ∷ []
  insert_sorted x (y ∷ ys) = if is_gt (cmp x y) then y ∷ insert_sorted x ys else x ∷ y ∷ ys

  -- `sort_by` is stable, so equal items keep their order.
  unfoldable pub sort_by : List A → List A
  unfolding insert_sorted
  sort_by [] = []
  sort_by (x ∷ xs) = insert_sorted x (sort_by xs)

-- `partition_point(p)` on a slice whose items with `p` stand first: how many they are.
unfoldable pub partition_point {ℓ} : {A : Type ℓ} → (A → Bool) → List A → ℕ
partition_point p [] = 0
partition_point p (x ∷ xs) = let n = partition_point p xs in if p x then suc n else 0
