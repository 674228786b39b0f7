-- ===== src/Dnssec/Sha2.antt =====
-- src/dnssec.rs: SHA-256, SHA-384 and SHA-512, over words of `width` bits.
use Prim.Native.Nat.{bit_xor}
use mathlib.Core.List.{reverse}
use ironbind.Prelude.{
  ℕ, zero, suc, ◌+◌, ◌-◌, ◌*◌, ◌/◌, ◌%◌, ◌^◌, List, [], ◌∷◌, ◌++◌, bit_and, length, take, drop,
  get_elem?, none, some,
}
use ironbind.Prelude.Text.{Bytes}

abbrev k256 : List ℕ
k256 =
    0x428a2f98 ∷ 0x71374491 ∷ 0xb5c0fbcf ∷ 0xe9b5dba5 ∷ 0x3956c25b ∷ 0x59f111f1 ∷ 0x923f82a4
    ∷ 0xab1c5ed5 ∷ 0xd807aa98 ∷ 0x12835b01 ∷ 0x243185be ∷ 0x550c7dc3 ∷ 0x72be5d74 ∷ 0x80deb1fe
    ∷ 0x9bdc06a7 ∷ 0xc19bf174 ∷ 0xe49b69c1 ∷ 0xefbe4786 ∷ 0x0fc19dc6 ∷ 0x240ca1cc ∷ 0x2de92c6f
    ∷ 0x4a7484aa ∷ 0x5cb0a9dc ∷ 0x76f988da ∷ 0x983e5152 ∷ 0xa831c66d ∷ 0xb00327c8 ∷ 0xbf597fc7
    ∷ 0xc6e00bf3 ∷ 0xd5a79147 ∷ 0x06ca6351 ∷ 0x14292967 ∷ 0x27b70a85 ∷ 0x2e1b2138 ∷ 0x4d2c6dfc
    ∷ 0x53380d13 ∷ 0x650a7354 ∷ 0x766a0abb ∷ 0x81c2c92e ∷ 0x92722c85 ∷ 0xa2bfe8a1 ∷ 0xa81a664b
    ∷ 0xc24b8b70 ∷ 0xc76c51a3 ∷ 0xd192e819 ∷ 0xd6990624 ∷ 0xf40e3585 ∷ 0x106aa070 ∷ 0x19a4c116
    ∷ 0x1e376c08 ∷ 0x2748774c ∷ 0x34b0bcb5 ∷ 0x391c0cb3 ∷ 0x4ed8aa4a ∷ 0x5b9cca4f ∷ 0x682e6ff3
    ∷ 0x748f82ee ∷ 0x78a5636f ∷ 0x84c87814 ∷ 0x8cc70208 ∷ 0x90befffa ∷ 0xa4506ceb ∷ 0xbef9a3f7
    ∷ 0xc67178f2 ∷ []

abbrev k512 : List ℕ
k512 =
    0x428a2f98d728ae22 ∷ 0x7137449123ef65cd ∷ 0xb5c0fbcfec4d3b2f ∷ 0xe9b5dba58189dbbc
    ∷ 0x3956c25bf348b538 ∷ 0x59f111f1b605d019 ∷ 0x923f82a4af194f9b ∷ 0xab1c5ed5da6d8118
    ∷ 0xd807aa98a3030242 ∷ 0x12835b0145706fbe ∷ 0x243185be4ee4b28c ∷ 0x550c7dc3d5ffb4e2
    ∷ 0x72be5d74f27b896f ∷ 0x80deb1fe3b1696b1 ∷ 0x9bdc06a725c71235 ∷ 0xc19bf174cf692694
    ∷ 0xe49b69c19ef14ad2 ∷ 0xefbe4786384f25e3 ∷ 0x0fc19dc68b8cd5b5 ∷ 0x240ca1cc77ac9c65
    ∷ 0x2de92c6f592b0275 ∷ 0x4a7484aa6ea6e483 ∷ 0x5cb0a9dcbd41fbd4 ∷ 0x76f988da831153b5
    ∷ 0x983e5152ee66dfab ∷ 0xa831c66d2db43210 ∷ 0xb00327c898fb213f ∷ 0xbf597fc7beef0ee4
    ∷ 0xc6e00bf33da88fc2 ∷ 0xd5a79147930aa725 ∷ 0x06ca6351e003826f ∷ 0x142929670a0e6e70
    ∷ 0x27b70a8546d22ffc ∷ 0x2e1b21385c26c926 ∷ 0x4d2c6dfc5ac42aed ∷ 0x53380d139d95b3df
    ∷ 0x650a73548baf63de ∷ 0x766a0abb3c77b2a8 ∷ 0x81c2c92e47edaee6 ∷ 0x92722c851482353b
    ∷ 0xa2bfe8a14cf10364 ∷ 0xa81a664bbc423001 ∷ 0xc24b8b70d0f89791 ∷ 0xc76c51a30654be30
    ∷ 0xd192e819d6ef5218 ∷ 0xd69906245565a910 ∷ 0xf40e35855771202a ∷ 0x106aa07032bbd1b8
    ∷ 0x19a4c116b8d2d0c8 ∷ 0x1e376c085141ab53 ∷ 0x2748774cdf8eeb99 ∷ 0x34b0bcb5e19b48a8
    ∷ 0x391c0cb3c5c95a63 ∷ 0x4ed8aa4ae3418acb ∷ 0x5b9cca4f7763e373 ∷ 0x682e6ff3d6b2b8a3
    ∷ 0x748f82ee5defb2fc ∷ 0x78a5636f43172f60 ∷ 0x84c87814a1f0ab72 ∷ 0x8cc702081a6439ec
    ∷ 0x90befffa23631e28 ∷ 0xa4506cebde82bde9 ∷ 0xbef9a3f7b2c67915 ∷ 0xc67178f2e372532b
    ∷ 0xca273eceea26619c ∷ 0xd186b8c721c0c207 ∷ 0xeada7dd6cde0eb1e ∷ 0xf57d4f7fee6ed178
    ∷ 0x06f067aa72176fba ∷ 0x0a637dc5a2c898a6 ∷ 0x113f9804bef90dae ∷ 0x1b710b35131c471b
    ∷ 0x28db77f523047d84 ∷ 0x32caab7b40c72493 ∷ 0x3c9ebe0a15c9bebc ∷ 0x431d67c49c100d4c
    ∷ 0x4cc5d4becb3e42b6 ∷ 0x597f299cfc657e2a ∷ 0x5fcb6fab3ad6faec ∷ 0x6c44198c4a475817 ∷ []

abbrev h256 : List ℕ
h256 =
    0x6a09e667 ∷ 0xbb67ae85 ∷ 0x3c6ef372 ∷ 0xa54ff53a ∷ 0x510e527f ∷ 0x9b05688c ∷ 0x1f83d9ab
    ∷ 0x5be0cd19 ∷ []

abbrev h384 : List ℕ
h384 =
    0xcbbb9d5dc1059ed8 ∷ 0x629a292a367cd507 ∷ 0x9159015a3070dd17 ∷ 0x152fecd8f70e5939
    ∷ 0x67332667ffc00b31 ∷ 0x8eb44a8768581511 ∷ 0xdb0c2e0d64f98fa7 ∷ 0x47b5481dbefa4fa4 ∷ []

abbrev h512 : List ℕ
h512 =
    0x6a09e667f3bcc908 ∷ 0xbb67ae8584caa73b ∷ 0x3c6ef372fe94f82b ∷ 0xa54ff53a5f1d36f1
    ∷ 0x510e527fade682d1 ∷ 0x9b05688c2b3e6c1f ∷ 0x1f83d9abfb41bd6b ∷ 0x5be0cd19137e2179 ∷ []

-- The widths, shifts and round constants by which the three functions differ.
pub record Variant : Type 0 where
  pub width : ℕ
  pub constants : List ℕ
  pub small0 : ℕ × ℕ × ℕ
  pub small1 : ℕ × ℕ × ℕ
  pub big0 : ℕ × ℕ × ℕ
  pub big1 : ℕ × ℕ × ℕ
  pub block : ℕ

abbrev narrow : Variant
narrow = record {
  width = 32;
  constants = k256;
  small0 = (7, 18, 3);
  small1 = (17, 19, 10);
  big0 = (2, 13, 22);
  big1 = (6, 11, 25);
  block = 64;
}

abbrev wide : Variant
wide = record {
  width = 64;
  constants = k512;
  small0 = (1, 8, 7);
  small1 = (19, 61, 6);
  big0 = (28, 34, 39);
  big1 = (14, 18, 41);
  block = 128;
}

abbrev rotate_right : ℕ → ℕ → ℕ → ℕ
rotate_right w x n = x / 2 ^ n + x % 2 ^ n * 2 ^ (w - n)

abbrev wrapping_add : ℕ → ℕ → ℕ → ℕ
wrapping_add w a b = (a + b) % 2 ^ w

-- Two rotations and a shift, and three rotations.
abbrev small_sigma : ℕ → ℕ × ℕ × ℕ → ℕ → ℕ
small_sigma w (a, b, c) x = bit_xor (bit_xor (rotate_right w x a) (rotate_right w x b)) (x / 2 ^ c)

abbrev big_sigma : ℕ → ℕ × ℕ × ℕ → ℕ → ℕ
big_sigma w (a, b, c) x =
    bit_xor (bit_xor (rotate_right w x a) (rotate_right w x b)) (rotate_right w x c)

abbrev word_at : List ℕ → ℕ → ℕ
word_at ws i = elim (get_elem? ws i) [ none ↦ 0 | some v ↦ v ]

-- `from_be_bytes` and `to_be_bytes`.
abbrev from_be : Bytes → ℕ → ℕ
from_be [] acc = acc
from_be (b ∷ bs) acc = from_be bs (acc * 2 ^ 8 + b)

abbrev to_be : ℕ → ℕ → Bytes
to_be zero v = []
to_be (suc n) v = v / 2 ^ (8 * n) % 256 ∷ to_be n v

-- The first 16 words of a block, the last one first.
words_of : ℕ → ℕ → Bytes → List ℕ → List ℕ
words_of size zero block acc = acc
words_of size (suc n) block acc =
    words_of size n (drop size block) (from_be (take size block) 0 ∷ acc)

-- The rest of the schedule; the last word stands first, so that `w[i - k]` is item `k - 1`.
extend_words : Variant → ℕ → List ℕ → List ℕ
extend_words v zero ws = ws
extend_words v (suc n) ws =
    let s0 = small_sigma v.width v.small0 (word_at ws 14) in
    let s1 = small_sigma v.width v.small1 (word_at ws 1) in
    let w =
      wrapping_add v.width
        (wrapping_add v.width (wrapping_add v.width (word_at ws 15) s0) (word_at ws 6)) s1 in
    extend_words v n (w ∷ ws)

-- The eight working variables.
pub record Working : Type 0 where
  pub a : ℕ
  pub b : ℕ
  pub c : ℕ
  pub d : ℕ
  pub e : ℕ
  pub f : ℕ
  pub g : ℕ
  pub h : ℕ

round : Variant → ℕ → ℕ → Working → Working
round v k w s =
    let m = v.width in
    let s1 = big_sigma m v.big1 s.e in
    let ch = bit_xor (bit_and s.e s.f) (bit_and (2 ^ m - 1 - s.e) s.g) in
    let temp1 = wrapping_add m (wrapping_add m (wrapping_add m (wrapping_add m s.h s1) ch) k) w in
    let s0 = big_sigma m v.big0 s.a in
    let maj = bit_xor (bit_xor (bit_and s.a s.b) (bit_and s.a s.c)) (bit_and s.b s.c) in
    let temp2 = wrapping_add m s0 maj in
    record {
      a = wrapping_add m temp1 temp2;
      b = s.a;
      c = s.b;
      d = s.c;
      e = wrapping_add m s.d temp1;
      f = s.e;
      g = s.f;
      h = s.g;
    }

-- The rounds over the constants and the schedule.
rounds : Variant → List ℕ → List ℕ → Working → Working
unfolding round
rounds v [] ws s = s
rounds v (k ∷ ks) [] s = s
rounds v (k ∷ ks) (w ∷ ws) s = rounds v ks ws (round v k w s)

add_working : Variant → Working → Working → Working
add_working v s t = record {
  a = wrapping_add v.width s.a t.a;
  b = wrapping_add v.width s.b t.b;
  c = wrapping_add v.width s.c t.c;
  d = wrapping_add v.width s.d t.d;
  e = wrapping_add v.width s.e t.e;
  f = wrapping_add v.width s.f t.f;
  g = wrapping_add v.width s.g t.g;
  h = wrapping_add v.width s.h t.h;
}

compress : Variant → Bytes → Working → Working
unfolding words_of extend_words rounds add_working
compress v block s =
    let first = words_of (v.block / 16) 16 block [] in
    let schedule = reverse (extend_words v (length v.constants - 16) first) in
    add_working v s (rounds v v.constants schedule s)

-- `n` blocks.
blocks : Variant → ℕ → Bytes → Working → Working
unfolding compress
blocks v zero padded s = s
blocks v (suc n) padded s = blocks v n (drop v.block padded) (compress v (take v.block padded) s)

abbrev zero_bytes : ℕ → Bytes
zero_bytes zero = []
zero_bytes (suc n) = 0 ∷ zero_bytes n

-- 0x80, zeros up to the length field, which has an eighth of the block, and the length in bits, of
-- which 64 bits are kept.
padded_of : Variant → Bytes → Bytes
padded_of v msg =
    let field = v.block / 8 in
    let used = (length msg + 1 + field) % v.block in
    let zeros = (v.block - used) % v.block in
    msg
    ++ ((0x80 ∷ zero_bytes zeros) ++ (zero_bytes (field - 8) ++ to_be 8 (length msg * 8 % 2 ^ 64)))

abbrev initial : List ℕ → Working
initial h = record {
  a = word_at h 0;
  b = word_at h 1;
  c = word_at h 2;
  d = word_at h 3;
  e = word_at h 4;
  f = word_at h 5;
  g = word_at h 6;
  h = word_at h 7;
}

abbrev digest_of : ℕ → Working → Bytes
digest_of size s =
    to_be size s.a
    ++ (to_be size s.b
        ++ (to_be size s.c
            ++ (to_be size s.d
                ++ (to_be size s.e ++ (to_be size s.f ++ (to_be size s.g ++ to_be size s.h))))))

sha2 : Variant → List ℕ → Bytes → Bytes
unfolding padded_of blocks
sha2 v start msg =
    let padded = padded_of v msg in
    digest_of (v.block / 16) (blocks v (length padded / v.block) padded (initial start))

unfoldable pub sha256 : Bytes → Bytes
unfolding sha2
sha256 = sha2 narrow h256

unfoldable pub sha512 : Bytes → Bytes
unfolding sha2
sha512 = sha2 wide h512

unfoldable pub sha384 : Bytes → Bytes
unfolding sha2
sha384 msg = take 48 (sha2 wide h384 msg)
