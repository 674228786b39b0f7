-- ===== src/Config/Prefix.antt =====
-- src/config.rs: what `Network::contains` tests.
use ironbind.Prelude.{
  ℕ, zero, suc, ◌+◌, ◌-◌, ◌*◌, ◌/◌, ◌%◌, ◌^◌, ◌≤◌, ◌<◌, ◌≡◌, refl, ap, sym, ◌∙◌, ◌↔◌, true, false,
  arith, bit_and, ltb, ◌==◌, Bool-cases, inl, inr,
}
use ironbind.Prelude.Bits.{bit_and_step}
use native.Mathlib.Nat.{
  pow-suc, suc-mul, div-lt_iff_lt-mul, mod-lt, div-add-mod, eq_of_mul-eq-mul_right,
}
use ironbind.Config.Network.{IpAddr, v4, v6, Network, to_canonical, mask, same_prefix, contains}

and_ones : (p x : ℕ) → x < 2 ^ p → bit_and x (2 ^ p - 1) ≡ x
and_ones zero zero h = refl
and_ones zero (suc x) h = absurd (omega arith)
and_ones (suc p) x h =
    let half : (2 ^ suc p - 1) / 2 ≡ 2 ^ p - 1 = omega (arith, pow-suc 2 p) in
    let ih : bit_and (x / 2) ((2 ^ suc p - 1) / 2) ≡ x / 2 =
      rw half (and_ones p (x / 2) (omega (arith, pow-suc 2 p))) in
    omega (arith, bit_and_step x (2 ^ suc p - 1), pow-suc 2 p, ih)

-- `&` with a mask of the bits from `j` on keeps them and clears the others.
and_high :
    (j m x r : ℕ) → r < 2 ^ j → bit_and x m ≡ x → bit_and (x * 2 ^ j + r) (m * 2 ^ j) ≡ x * 2 ^ j
and_high zero m x zero h k =
    let a : x * 2 ^ 0 + 0 ≡ x = omega arith in
    let b : m * 2 ^ 0 ≡ m = omega arith in let c : x ≡ x * 2 ^ 0 = omega arith in rw (a, b) (k ∙ c)
and_high zero m x (suc r) h k = absurd (omega arith)
and_high (suc j) m x r h k =
    let dx : x * 2 ^ suc j ≡ 2 * (x * 2 ^ j) = omega (arith, ap (λ (t : ℕ). x * t) (pow-suc 2 j)) in
    let dm : m * 2 ^ suc j ≡ 2 * (m * 2 ^ j) = omega (arith, ap (λ (t : ℕ). m * t) (pow-suc 2 j)) in
    let a : (x * 2 ^ suc j + r) / 2 ≡ x * 2 ^ j + r / 2 = omega arith in
    let b : m * 2 ^ suc j / 2 ≡ m * 2 ^ j = omega arith in
    let ih : bit_and ((x * 2 ^ suc j + r) / 2) (m * 2 ^ suc j / 2) ≡ x * 2 ^ j =
      rw (a, b) (and_high j m x (r / 2) (omega (arith, pow-suc 2 j)) k) in
    omega (arith, bit_and_step (x * 2 ^ suc j + r) (m * 2 ^ suc j), ih)

pow_split : (p j : ℕ) → 2 ^ p * 2 ^ j ≡ 2 ^ (p + j)
pow_split zero j = let e : 0 + j ≡ j = omega arith in rw e (omega arith)
pow_split (suc p) j =
    let a : 2 ^ suc p * 2 ^ j ≡ 2 * (2 ^ p * 2 ^ j) =
      omega (arith, ap (λ (t : ℕ). t * 2 ^ j) (pow-suc 2 p)) in
    let b : suc p + j ≡ suc (p + j) = omega arith in
    rw b (omega (arith, a, pow_split p j, pow-suc 2 (p + j)))

pow_pos : (j : ℕ) → 0 < 2 ^ j
pow_pos zero = omega arith
pow_pos (suc j) = omega (arith, pow-suc 2 j, pow_pos j)

pred_mul : (x y : ℕ) → 0 < x → (x - 1) * y + y ≡ x * y
pred_mul zero y h = absurd (omega arith)
pred_mul (suc x) y h = let d : suc x - 1 ≡ x = omega arith in rw d (omega (arith, suc-mul x y))

wrapped32 : (p j : ℕ) → p + j ≡ 32 → (2 ^ 32 - 1) * 2 ^ j % 2 ^ 32 ≡ (2 ^ p - 1) * 2 ^ j
wrapped32 p j e =
    let all_bits : 2 ^ p * 2 ^ j ≡ 2 ^ 32 = omega (arith, pow_split p j, ap (λ (t : ℕ). 2 ^ t) e) in
    let less : (2 ^ p - 1) * 2 ^ j + 2 ^ j ≡ 2 ^ p * 2 ^ j = pred_mul (2 ^ p) (2 ^ j) (pow_pos p) in
    omega (arith, all_bits, less, pow_pos j)

wrapped128 : (p j : ℕ) → p + j ≡ 128 → (2 ^ 128 - 1) * 2 ^ j % 2 ^ 128 ≡ (2 ^ p - 1) * 2 ^ j
wrapped128 p j e =
    let all_bits : 2 ^ p * 2 ^ j ≡ 2 ^ 128 =
      omega (arith, pow_split p j, ap (λ (t : ℕ). 2 ^ t) e) in
    let less : (2 ^ p - 1) * 2 ^ j + 2 ^ j ≡ 2 ^ p * 2 ^ j = pred_mul (2 ^ p) (2 ^ j) (pow_pos p) in
    omega (arith, all_bits, less, pow_pos j)

-- The mask of a width whose wrapped shift is known.
mask_value :
    (w p : ℕ)
    → p ≤ w
    → ((j : ℕ) → p + j ≡ w → (2 ^ w - 1) * 2 ^ j % 2 ^ w ≡ (2 ^ p - 1) * 2 ^ j)
    → mask w p ≡ (2 ^ p - 1) * 2 ^ (w - p)
unfolding mask
mask_value w zero h wrapped =
    let e : w - 0 ≡ w = omega arith in
    let b : ltb w w ≡ false = ground arith in rw (e, b, mask) (omega arith)
mask_value w (suc p) h wrapped =
    let b : ltb (w - suc p) w ≡ true = ground arith in
    rw (b, mask) (wrapped (w - suc p) (omega arith))

-- `a & mask` is the network part of `a`.
masked :
    (w p a : ℕ)
    → p ≤ w
    → a < 2 ^ w
    → mask w p ≡ (2 ^ p - 1) * 2 ^ (w - p)
    → bit_and a (mask w p) ≡ a / 2 ^ (w - p) * 2 ^ (w - p)
masked w p a h fits value =
    let e : p + (w - p) ≡ w = omega arith in
    let all_bits : 2 ^ p * 2 ^ (w - p) ≡ 2 ^ w = rw (pow_split p (w - p), e) refl in
    let high : a / 2 ^ (w - p) < 2 ^ p =
      (div-lt_iff_lt-mul (pow_pos (w - p))).1 (rw all_bits fits) in
    let low : a % 2 ^ (w - p) < 2 ^ (w - p) = mod-lt a (pow_pos (w - p)) in
    let whole : a / 2 ^ (w - p) * 2 ^ (w - p) + a % 2 ^ (w - p) ≡ a =
      omega (arith, div-add-mod a (2 ^ (w - p))) in
    rw value (
      ap (λ (t : ℕ). bit_and t ((2 ^ p - 1) * 2 ^ (w - p))) (sym whole)
      ∙ and_high (w - p) (2 ^ p - 1) (a / 2 ^ (w - p)) (a % 2 ^ (w - p)) low
          (and_ones p (a / 2 ^ (w - p)) high))

same_bits :
    (w p a b : ℕ)
    → p ≤ w
    → a < 2 ^ w
    → b < 2 ^ w
    → mask w p ≡ (2 ^ p - 1) * 2 ^ (w - p)
    → ((bit_and a (mask w p) == bit_and b (mask w p)) ≡ true) ↔ (a / 2 ^ (w - p) ≡ b / 2 ^ (w - p))
same_bits w p a b h ha hb value =
    let ma = masked w p a h ha value in
    let mb = masked w p b h hb value in
    (
      λ e.
          let same : bit_and a (mask w p) ≡ bit_and b (mask w p) = ground arith in
          eq_of_mul-eq-mul_right (2 ^ (w - p)) (pow_pos (w - p)) (a / 2 ^ (w - p)) (b / 2 ^ (w - p))
            (sym ma ∙ same ∙ mb),
      λ e.
          let same : bit_and a (mask w p) ≡ bit_and b (mask w p) =
            ma ∙ ap (λ (t : ℕ). t * 2 ^ (w - p)) e ∙ sym mb in
          ground arith,
    )

-- An address fits its width, and a prefix the width of its address.
abbrev IsAddress : IpAddr → Type 0
IsAddress (v4 a) = a < 2 ^ 32
IsAddress (v6 a) = a < 2 ^ 128

abbrev IsPrefixOf : ℕ → IpAddr → Type 0
IsPrefixOf p (v4 a) = p ≤ 32
IsPrefixOf p (v6 a) = p ≤ 128

-- The same family, and the same number above the host part.
abbrev IsInNetwork : IpAddr → ℕ → IpAddr → Type 0
IsInNetwork (v4 a) p (v4 b) = a / 2 ^ (32 - p) ≡ b / 2 ^ (32 - p)
IsInNetwork (v4 a) p (v6 b) = ⊥
IsInNetwork (v6 a) p (v4 b) = ⊥
IsInNetwork (v6 a) p (v6 b) = a / 2 ^ (128 - p) ≡ b / 2 ^ (128 - p)

same_prefix_iff :
    (a : IpAddr) (p : ℕ) (b : IpAddr)
    → IsAddress a
    → IsPrefixOf p a
    → IsAddress b
    → (same_prefix a p b ≡ true) ↔ IsInNetwork a p b
same_prefix_iff (v4 a) p (v4 b) ha hp hb =
    same_bits 32 p a b hp ha hb (mask_value 32 p hp (wrapped32 p))
same_prefix_iff (v4 a) p (v6 b) ha hp hb = (λ e. absurd (ground arith), λ x. absurd x)
same_prefix_iff (v6 a) p (v4 b) ha hp hb = (λ e. absurd (ground arith), λ x. absurd x)
same_prefix_iff (v6 a) p (v6 b) ha hp hb =
    same_bits 128 p a b hp ha hb (mask_value 128 p hp (wrapped128 p))

to_canonical-IsAddress : (a : IpAddr) → IsAddress a → IsAddress (to_canonical a)
to_canonical-IsAddress (v4 a) h = h
to_canonical-IsAddress (v6 a) h = elim (Bool-cases (a / 2 ^ 32 == 0xffff)) [
  | inl e ↦ rw e (omega arith)
  | inr e ↦ rw e h
]

-- For addresses that fit their width and a prefix that fits its address: a network contains exactly
-- the addresses of its family that have its number above the host part, where an IPv4 address that
-- is mapped into IPv6 counts as an IPv4 address.
pub contains_iff :
    (n : Network) (ip : IpAddr)
    → IsAddress n.address
    → IsPrefixOf n.prefix n.address
    → IsAddress ip
    → (contains n ip ≡ true) ↔ IsInNetwork n.address n.prefix (to_canonical ip)
unfolding contains
contains_iff n ip ha hp hi =
    same_prefix_iff n.address n.prefix (to_canonical ip) ha hp (to_canonical-IsAddress ip hi)
