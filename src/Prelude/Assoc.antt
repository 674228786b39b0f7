-- ===== src/Prelude/Assoc.antt =====
-- Rust's `HashMap` and `BTreeMap` as an association list, over keys with a Boolean equality. An
-- insertion keeps the place of a key that is there; a new key goes to the end, so the order is that
-- of insertion. (A `HashMap` hands its entries in an unspecified order, of which this is one.)
use Prim.Native.Nat.{ℕ, ◌+◌}
use mathlib.Core.Path.{◌≡◌, refl}
use mathlib.Core.Logic.{◌↔◌}
use mathlib.Core.Bool.{Bool, true, false, ◌&&◌}
use mathlib.Core.Option.{Option, none, some}
use mathlib.Core.List.{List, [], ◌∷◌}
use native.Mathlib.Omega.{arith}
use ironbind.Prelude.Tests.{◌==◌, if◌then◌else◌}
use ironbind.Prelude.Lists.{length}
use ironbind.Prelude.Text.{Bytes, bytes_eq, bytes_eq_iff}

-- The equality of a key type, Rust's `Eq`.
pub record Key {ℓ} (K : Type ℓ) : Type ℓ where
  pub beq : K → K → Bool
  pub beq_iff : (j k : K) → (beq j k ≡ true) ↔ (j ≡ k)

instance abbrev pub bytes_key : Key Bytes
bytes_key = record { beq = bytes_eq; beq_iff = bytes_eq_iff }

abbrev pair_eq : Bytes × ℕ → Bytes × ℕ → Bool
pair_eq (m, s) (n, t) = bytes_eq m n && s == t

pub pair_eq_iff : (j k : Bytes × ℕ) → (pair_eq j k ≡ true) ↔ (j ≡ k)
pair_eq_iff (m, s) (n, t) =
    let e = bytes_eq_iff m n in (λ h. ground (arith, e), λ h. ground (arith, e))

instance abbrev pub pair_key : Key (Bytes × ℕ)
pair_key = record { beq = pair_eq; beq_iff = pair_eq_iff }

abbrev pub Assoc {ℓ κ} : Type ℓ → Type κ → Type (ℓ ⊔ κ)
Assoc K V = List (K × V)

abbrev pub is_some {κ} : {V : Type κ} → Option V → Bool
is_some none = false
is_some (some v) = true

abbrev pub kept {κ} : {V : Type κ} → (V → Bool) → Option V → Option V
kept p none = none
kept p (some v) = if p v then some v else none

module _ {ℓ κ} {K : Type ℓ} {V : Type κ} ⦃k : Key K⦄ where
  unfoldable pub lookup : K → Assoc K V → Option V
  lookup i [] = none
  lookup i ((j, v) ∷ m) = if k.beq i j then some v else lookup i m

  unfoldable pub insert : K → V → Assoc K V → Assoc K V
  insert i v [] = (i, v) ∷ []
  insert i v ((j, w) ∷ m) = if k.beq i j then (i, v) ∷ m else (j, w) ∷ insert i v m

  -- `retain`
  unfoldable pub retain : (V → Bool) → Assoc K V → Assoc K V
  retain p [] = []
  retain p ((j, v) ∷ m) = let rest = retain p m in if p v then (j, v) ∷ rest else rest

  -- No key stands twice.
  abbrev pub IsAbsent : K → Assoc K V → Type κ
  IsAbsent i m = lookup i m ≡ none

  abbrev pub IsUnique : Assoc K V → Type κ
  IsUnique [] = Unit
  IsUnique ((j, v) ∷ m) = IsAbsent j m × IsUnique m

  pub lookup-insert :
      (i j : K) (v : V) (m : Assoc K V)
      → lookup j (insert i v m) ≡ (if k.beq j i then some v else lookup j m)
  unfolding lookup insert
  lookup-insert i j v [] = refl
  lookup-insert i j v ((h, w) ∷ m) =
      ground
        (arith, k.beq_iff i j, k.beq_iff j i, k.beq_iff i h, k.beq_iff j h, lookup-insert i j v m)

  pub insert-IsUnique : (i : K) (v : V) (m : Assoc K V) → IsUnique m → IsUnique (insert i v m)
  unfolding lookup insert
  insert-IsUnique i v [] h = (refl, tt)
  insert-IsUnique i v ((j, w) ∷ m) h =
      ground (arith, k.beq_iff i j, k.beq_iff j i, lookup-insert i j v m, insert-IsUnique i v m h.1)

  pub length-insert :
      (i : K) (v : V) (m : Assoc K V)
      → length (insert i v m) ≡ (if is_some (lookup i m) then length m else length m + 1)
  unfolding lookup insert
  length-insert i v [] = refl
  length-insert i v ((j, w) ∷ m) = ground (arith, length-insert i v m)

  pub retain-IsAbsent :
      (p : V → Bool) (i : K) (m : Assoc K V) → IsAbsent i m → IsAbsent i (retain p m)
  unfolding lookup retain
  retain-IsAbsent p i [] h = refl
  retain-IsAbsent p i ((j, v) ∷ m) h = ground (arith, retain-IsAbsent p i m)

  pub retain-IsUnique : (p : V → Bool) (m : Assoc K V) → IsUnique m → IsUnique (retain p m)
  unfolding retain
  retain-IsUnique p [] h = tt
  retain-IsUnique p ((j, v) ∷ m) h =
      ground (arith, retain-IsAbsent p j m h.0, retain-IsUnique p m h.1)

  -- Where keys are unique, a lookup after `retain` sees the old entry if it was kept.
  pub lookup-retain :
      (p : V → Bool) (i : K) (m : Assoc K V)
      → IsUnique m
      → lookup i (retain p m) ≡ kept p (lookup i m)
  unfolding lookup retain
  lookup-retain p i [] h = refl
  lookup-retain p i ((j, v) ∷ m) h =
      ground (arith, k.beq_iff i j, retain-IsAbsent p j m h.0, lookup-retain p i m h.1)
