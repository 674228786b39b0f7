-- ===== src/Prelude/Sort/Linear.antt =====
-- Linear orders given by a comparison: the numbers, and vectors of anything ordered.
use Prim.Native.Nat.{compare, Ordering}
use mathlib.Core.Path.{◌≡◌, refl, sym, ap, ◌∙◌}
use mathlib.Core.List.{List, [], ◌∷◌}
use native.Mathlib.Omega.{arith}
use ironbind.Prelude.Text.{Bytes, bytes_cmp}
use ironbind.Prelude.Sort.{list_cmp}

-- `Ordering::reverse`
abbrev pub flip : Ordering → Ordering
flip Ordering.lt = Ordering.gt
flip Ordering.eq = Ordering.eq
flip Ordering.gt = Ordering.lt

pub record IsLinear {ℓ} {A : Type ℓ} (cmp : A → A → Ordering) : Type ℓ where
  pub same : (x : A) → cmp x x ≡ Ordering.eq
  pub equal : (x y : A) → cmp x y ≡ Ordering.eq → x ≡ y
  pub swap : (x y : A) → cmp y x ≡ flip (cmp x y)
  pub chain : (x y z : A) → cmp x y ≡ Ordering.lt → cmp y z ≡ Ordering.lt → cmp x z ≡ Ordering.lt

pub compare-IsLinear : IsLinear compare
compare-IsLinear = record {
  same = λ x. ground arith;
  equal = λ x y h. ground arith;
  swap = λ x y. ground arith;
  chain = λ x y z h k. ground arith;
}

module _ {ℓ} {A : Type ℓ} {cmp : A → A → Ordering} (o : IsLinear cmp) where
  list_same : (xs : List A) → list_cmp cmp xs xs ≡ Ordering.eq
  unfolding list_cmp
  list_same [] = refl
  list_same (x ∷ xs) = rw (o.same x, list_cmp) (list_same xs)

  list_equal : (xs ys : List A) → list_cmp cmp xs ys ≡ Ordering.eq → xs ≡ ys
  unfolding list_cmp
  list_equal [] [] h = refl
  list_equal [] (y ∷ ys) h = cc
  list_equal (x ∷ xs) [] h = cc
  list_equal (x ∷ xs) (y ∷ ys) h = ground (arith, o.equal x y, list_equal xs ys)

  list_swap : (xs ys : List A) → list_cmp cmp ys xs ≡ flip (list_cmp cmp xs ys)
  unfolding list_cmp
  list_swap [] [] = refl
  list_swap [] (y ∷ ys) = refl
  list_swap (x ∷ xs) [] = refl
  list_swap (x ∷ xs) (y ∷ ys) = ground (arith, o.swap x y, list_swap xs ys)

  list_chain :
      (xs ys zs : List A)
      → list_cmp cmp xs ys ≡ Ordering.lt
      → list_cmp cmp ys zs ≡ Ordering.lt
      → list_cmp cmp xs zs ≡ Ordering.lt
  unfolding list_cmp
  list_chain [] [] zs h k = cc
  list_chain [] (y ∷ ys) [] h k = cc
  list_chain [] (y ∷ ys) (z ∷ zs) h k = refl
  list_chain (x ∷ xs) [] zs h k = cc
  list_chain (x ∷ xs) (y ∷ ys) [] h k = cc
  list_chain (x ∷ xs) (y ∷ ys) (z ∷ zs) h k =
      ground (arith, o.equal x y, o.equal y z, o.chain x y z, list_chain xs ys zs)

  pub list_cmp-IsLinear : IsLinear (list_cmp cmp)
  list_cmp-IsLinear = record {
    same = list_same;
    equal = list_equal;
    swap = list_swap;
    chain = list_chain;
  }

bytes_cmp-list_cmp : (xs ys : Bytes) → bytes_cmp xs ys ≡ list_cmp compare xs ys
unfolding bytes_cmp list_cmp
bytes_cmp-list_cmp [] [] = refl
bytes_cmp-list_cmp [] (y ∷ ys) = refl
bytes_cmp-list_cmp (x ∷ xs) [] = refl
bytes_cmp-list_cmp (x ∷ xs) (y ∷ ys) = ground (arith, bytes_cmp-list_cmp xs ys)

pub bytes_cmp-IsLinear : IsLinear bytes_cmp
bytes_cmp-IsLinear =
    let l = list_cmp-IsLinear compare-IsLinear in
    record {
      same = λ x. bytes_cmp-list_cmp x x ∙ l.same x;
      equal = λ x y h. l.equal x y (sym (bytes_cmp-list_cmp x y) ∙ h);
      swap = λ x y. bytes_cmp-list_cmp y x ∙ l.swap x y ∙ ap flip (sym (bytes_cmp-list_cmp x y));
      chain = λ x y z h k.
          bytes_cmp-list_cmp x z
          ∙ l.chain x y z (sym (bytes_cmp-list_cmp x y) ∙ h) (sym (bytes_cmp-list_cmp y z) ∙ k);
    }
