-- ===== src/Proto/Returns.antt =====
-- src/proto.rs: what an action of `Parser` returns on any buffer of bytes.
use ironbind.Prelude.{
  ℕ, zero, suc, ◌*◌, ◌^◌, ◌<◌, ◌≡◌, refl, some, List, [], ◌∷◌, Result, ok, err, length, get_elem?,
  All, arith, bit_or, Option-cases, inl, inr,
}
use ironbind.Prelude.Text.{Bytes}
use ironbind.Prelude.Bits.{bit_or_shifted}
use ironbind.Proto.Reader.{IoError, Reader, then_read, ◌>>=◌, pure, peek, advance, u8, u16, u32}
use ironbind.Proto.Message.{times}

abbrev pub IsByte : ℕ → Type 0
IsByte b = b < 256

abbrev pub Fits16 : ℕ → Type 0
Fits16 v = v < 2 ^ 16

-- What `m` returns on a buffer of bytes has the property `P`.
pub record Returns {ℓ} {A : Type ℓ} (P : A → Type 0) (m : Reader A) : Type ℓ where
  pub holds : (buf : Bytes) (pos : ℕ) (x : A) → All IsByte buf → (m buf pos).0 ≡ ok x → P x

module _ {ℓ κ} {A : Type ℓ} {B : Type κ} where
  then_read-Returns :
      (P : A → Type 0) (Q : B → Type 0) (f : A → Reader B) (buf : Bytes) (r : Result A IoError × ℕ)
      (y : B)
      → All IsByte buf
      → ((x : A) → r.0 ≡ ok x → P x)
      → ((x : A) → P x → Returns Q (f x))
      → (then_read r f buf).0 ≡ ok y
      → Q y
  then_read-Returns P Q f buf (ok x, pos) y b h k e = (k x (h x refl)).holds buf pos y b e
  then_read-Returns P Q f buf (err x, pos) y b h k e = absurd (ground arith)

  pub Returns-bind :
      (P : A → Type 0) (Q : B → Type 0) (m : Reader A) (f : A → Reader B)
      → Returns P m
      → ((x : A) → P x → Returns Q (f x))
      → Returns Q (m >>= f)
  Returns-bind P Q m f r k = record {
    holds =
        λ buf pos y b e. then_read-Returns P Q f buf (m buf pos) y b (λ x. r.holds buf pos x b) k e;
  }

ok_injective : {A : Type 0} (x y : A) → Path (Result A IoError) (ok x) (ok y) → x ≡ y
ok_injective x y e = ground arith

pub Returns-pure : {A : Type 0} (P : A → Type 0) (x : A) → P x → Returns P (pure x)
Returns-pure P x h = record { holds = λ buf pos y b e. rw (← ok_injective x y e) h }

-- Of the action nothing is known.
pub Returns-any : {A : Type 0} (m : Reader A) → Returns (λ x. Unit {0}) m
Returns-any m = record { holds = λ buf pos x b e. tt }

get_elem?-IsByte : (bs : Bytes) (i b : ℕ) → All IsByte bs → get_elem? bs i ≡ some b → IsByte b
get_elem?-IsByte [] i b h e = absurd (ground arith)
get_elem?-IsByte (x ∷ xs) zero b (h, hs) e = ground arith
get_elem?-IsByte (x ∷ xs) (suc i) b (h, hs) e = get_elem?-IsByte xs i b hs e

peek-Returns : Returns IsByte peek
unfolding peek
peek-Returns = record {
  holds = λ buf pos x b e. elim (Option-cases (get_elem? buf pos)) [
    | inl n ↦ let k = rw (n, peek) at e in absurd (ground arith)
    | inr (v, n) ↦ let k = rw (n, peek) at e in ground (arith, get_elem?-IsByte buf pos v b n)
  ];
}

u8-Returns : Returns IsByte u8
unfolding u8
u8-Returns = Returns-bind IsByte IsByte peek _ peek-Returns (λ b h.
    Returns-bind (λ u. Unit {0}) IsByte (advance 1) _ (Returns-any (advance 1))
      (λ u k. Returns-pure IsByte b h))

pub u16-Returns : Returns Fits16 u16
unfolding u16
u16-Returns =
    Returns-bind IsByte (λ v. v < 2 ^ 16) u8 _ u8-Returns
      (λ hi h.
        Returns-bind IsByte (λ v. v < 2 ^ 16) u8 _ u8-Returns
          (λ lo l.
            Returns-pure (λ v. v < 2 ^ 16) (bit_or (hi * 2 ^ 8) lo)
              (omega (arith, bit_or_shifted 8 hi lo l))))

pub u32-Returns : Returns (λ v. v < 2 ^ 32) u32
unfolding u32
u32-Returns =
    Returns-bind (λ v. v < 2 ^ 16) (λ v. v < 2 ^ 32) u16 _ u16-Returns
      (λ hi h.
        Returns-bind (λ v. v < 2 ^ 16) (λ v. v < 2 ^ 32) u16 _ u16-Returns
          (λ lo l.
            Returns-pure (λ v. v < 2 ^ 32) (bit_or (hi * 2 ^ 16) lo)
              (omega (arith, bit_or_shifted 16 hi lo l))))

-- As many as were asked for, each of them with the property.
abbrev pub Section : {A : Type 0} → (A → Type 0) → ℕ → List A → Type 0
Section P n xs = All P xs × (length xs ≡ n)

pub times-Returns :
    {A : Type 0} (P : A → Type 0) (n : ℕ) (m : Reader A)
    → Returns P m
    → Returns (Section P n) (times n m)
unfolding times
times-Returns P zero m h = Returns-pure (Section P zero) [] (tt, refl)
times-Returns P (suc n) m h = Returns-bind P (Section P (suc n)) m _ h (λ x k.
    Returns-bind (Section P n) (Section P (suc n)) (times n m) _ (times-Returns P n m h)
      (λ xs l. Returns-pure (Section P (suc n)) (x ∷ xs) ((k, l.0), omega (arith, l.1))))
