-- ===== src/Proto/Reads.antt =====
-- src/proto.rs: actions of `Parser` where given bytes stand in a buffer, with any bytes around them.
use ironbind.Prelude.{
  ℕ, ◌+◌, ◌-◌, ◌/◌, ◌%◌, ◌^◌, ◌<◌, ◌≡◌, refl, sym, ap, ◌∙◌, List, [], ◌∷◌, ◌++◌, append_assoc,
  append-nil, ok, arith, length, length-append, get_elem?-append, drop-append, take-append, All,
}
use ironbind.Prelude.Text.{Bytes}
use ironbind.Prelude.Bits.{bit_or_shifted}
use ironbind.Proto.Reader.{Reader, ◌>>=◌, pure, u8, u16, u32, bytes, slice, remaining}
use ironbind.Proto.Message.{times}
use ironbind.Proto.Builder.{be16, be32}
use ironbind.Proto.Builder.Append.{each_bytes}

-- `m` reads exactly the bytes `w`, and returns `v`.
pub record Reads {ℓ} {A : Type ℓ} (m : Reader A) (w : Bytes) (v : A) : Type ℓ where
  pub at : (pre post : Bytes) → m (pre ++ (w ++ post)) (length pre) ≡ (ok v, length pre + length w)

pub Reads-pure {ℓ} : {A : Type ℓ} (v : A) → Reads (pure v) [] v
Reads-pure v = record { at = λ pre post. ground arith }

pub Reads-bind {ℓ κ} :
    {A : Type ℓ} {B : Type κ} (m : Reader A) (f : A → Reader B) {v : A} {u : B} {w x : Bytes}
    → Reads m w v
    → Reads (f v) x u
    → Reads (m >>= f) (w ++ x) u
Reads-bind m f {v} {u} {w} {x} r s = record {
  at = λ pre post.
      let mid : pre ++ (w ++ (x ++ post)) ≡ (pre ++ w) ++ (x ++ post) =
        sym (append_assoc pre w (x ++ post)) in
      let second : f v (pre ++ (w ++ (x ++ post))) (length pre + length w)
          ≡ (ok u, length pre + length w + length x) =
        rw (mid, ← length-append pre w) (s.at (pre ++ w) post) in
      rw (append_assoc w x post, r.at pre (x ++ post), length-append w x)
        (second ∙ ap (λ n. (ok u, n)) (omega arith));
}

pub Reads-eq {ℓ} :
    {A : Type ℓ} (m : Reader A) {w x : Bytes} {v u : A} → Reads m w v → w ≡ x → v ≡ u → Reads m x u
Reads-eq m r e k = rw (← e, ← k) r

pub Reads-u8 : (v : ℕ) → Reads u8 (v ∷ []) v
unfolding u8
Reads-u8 v = record { at = λ pre post. ground (arith, get_elem?-append pre post v) }

pub Reads-u16 : (v : ℕ) → v < 2 ^ 16 → Reads u16 (be16 v) v
unfolding u16
Reads-u16 v h =
    Reads-eq u16
      (Reads-bind u8 _ (Reads-u8 (v / 2 ^ 8 % 256))
        (Reads-bind u8 _ (Reads-u8 (v % 256)) (Reads-pure _)))
      refl (bit_or_shifted 8 (v / 2 ^ 8 % 256) (v % 256) (omega arith) ∙ omega arith)

be32_halves : (v : ℕ) → v < 2 ^ 32 → be16 (v / 2 ^ 16) ++ (be16 (v % 2 ^ 16) ++ []) ≡ be32 v
be32_halves v h = ground arith

pub Reads-u32 : (v : ℕ) → v < 2 ^ 32 → Reads u32 (be32 v) v
unfolding u32
Reads-u32 v h =
    Reads-eq u32
      (Reads-bind u16 _ (Reads-u16 (v / 2 ^ 16) (omega arith))
        (Reads-bind u16 _ (Reads-u16 (v % 2 ^ 16) (omega arith)) (Reads-pure _)))
      (be32_halves v h) (bit_or_shifted 16 (v / 2 ^ 16) (v % 2 ^ 16) (omega arith) ∙ omega arith)

-- The bytes of `w` between `pre` and `post`.
pub slice-append :
    (pre w post : Bytes) → slice (pre ++ (w ++ post)) (length pre) (length pre + length w) ≡ w
slice-append pre w post =
    let e : length pre + length w - length pre ≡ length w = omega arith in
    rw (e, drop-append, take-append) refl

pub Reads-bytes : (w : Bytes) → Reads (bytes (length w)) w w
unfolding bytes
Reads-bytes w = record {
  at = λ pre post.
      ground (arith, slice-append pre w post, length-append pre (w ++ post), length-append w post);
}

-- The same at the end of a buffer.
pub record ReadsLast {ℓ} {A : Type ℓ} (m : Reader A) (w : Bytes) (v : A) : Type ℓ where
  pub at : (pre : Bytes) → m (pre ++ w) (length pre) ≡ (ok v, length pre + length w)

pub ReadsLast-bind {ℓ κ} :
    {A : Type ℓ} {B : Type κ} (m : Reader A) (f : A → Reader B) {v : A} {u : B} {w x : Bytes}
    → Reads m w v
    → ReadsLast (f v) x u
    → ReadsLast (m >>= f) (w ++ x) u
ReadsLast-bind m f {v} {u} {w} {x} r s = record {
  at = λ pre.
      let second : f v (pre ++ (w ++ x)) (length pre + length w)
          ≡ (ok u, length pre + length w + length x) =
        rw (← append_assoc pre w x, ← length-append pre w) (s.at (pre ++ w)) in
      rw (r.at pre x, length-append w x) (second ∙ ap (λ n. (ok u, n)) (omega arith));
}

ReadsLast-eq {ℓ} :
    {A : Type ℓ} (m : Reader A) {w x : Bytes} {v u : A}
    → ReadsLast m w v
    → w ≡ x
    → v ≡ u
    → ReadsLast m x u
ReadsLast-eq m r e k = rw (← e, ← k) r

-- `bytes(remaining())` followed by a return takes all that is left.
pub ReadsLast-bytes {ℓ} :
    {A : Type ℓ} (f : Bytes → A) (w : Bytes)
    → ReadsLast (remaining >>= λ n. bytes n >>= λ b. pure (f b)) w (f w)
unfolding remaining
ReadsLast-bytes f w = record {
  at = λ pre.
      let left : length (pre ++ w) - length pre ≡ length w =
        omega (arith, length-append {0} pre w) in
      let took = rw append-nil at ((Reads-bytes w).at pre []) in rw (left, took) refl;
}

-- `n` values in a row.
pub Reads-times {ℓ} :
    {A : Type ℓ} (m : Reader A) (w : A → Bytes) (xs : List A)
    → All (λ x. Reads m (w x) x) xs
    → Reads (times (length xs) m) (each_bytes w xs) xs
unfolding times each_bytes
Reads-times m w [] h = Reads-pure []
Reads-times m w (x ∷ xs) h =
    Reads-eq _ (Reads-bind m _ h.0 (Reads-bind _ _ (Reads-times m w xs h.1) (Reads-pure _)))
      (rw append-nil refl) refl
