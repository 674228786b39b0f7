-- ===== src/Proto/RType.antt =====
-- src/proto.rs: the enum `RType` and its conversions from and to the wire's 16 bits.
use ironbind.Prelude.{ℕ, ◌≡◌, refl, ◌↔◌, Bool, true, ◌&&◌, arith, ◌==◌, if◌then◌else◌}

pub data RType : Type 0 where
  a ns cname soa ptr mx txt aaaa srv naptr opt ds rrsig nsec dnskey nsec3 nsec3param : RType
  tsig ixfr axfr any : RType
  unknown : ℕ → RType

-- `impl From<u16> for RType`.
unfoldable pub from_u16 : ℕ → RType
from_u16 n =
    if n == 1
    then a
    else if n == 2
    then ns
    else if n == 5
    then cname
    else if n == 6
    then soa
    else if n == 12
    then ptr
    else if n == 15
    then mx
    else if n == 16
    then txt
    else if n == 28
    then aaaa
    else if n == 33
    then srv
    else if n == 35
    then naptr
    else if n == 41
    then opt
    else if n == 43
    then ds
    else if n == 46
    then rrsig
    else if n == 47
    then nsec
    else if n == 48
    then dnskey
    else if n == 50
    then nsec3
    else if n == 51
    then nsec3param
    else if n == 250
    then tsig
    else if n == 251
    then ixfr
    else if n == 252
    then axfr
    else if n == 255
    then any
    else unknown n

-- `impl From<&RType> for u16`.
unfoldable pub to_u16 : RType → ℕ
to_u16 a = 1
to_u16 ns = 2
to_u16 cname = 5
to_u16 soa = 6
to_u16 ptr = 12
to_u16 mx = 15
to_u16 txt = 16
to_u16 aaaa = 28
to_u16 srv = 33
to_u16 naptr = 35
to_u16 opt = 41
to_u16 ds = 43
to_u16 rrsig = 46
to_u16 nsec = 47
to_u16 dnskey = 48
to_u16 nsec3 = 50
to_u16 nsec3param = 51
to_u16 tsig = 250
to_u16 ixfr = 251
to_u16 axfr = 252
to_u16 any = 255
to_u16 (unknown n) = n

-- The derived `PartialEq` compares the variant, here by its number, and then its field.
variant : RType → ℕ
unfolding to_u16
variant (unknown n) = 0
variant a = 1
variant t = to_u16 t

payload : RType → ℕ
payload (unknown n) = n
payload a = 0
payload t = 0

unfoldable pub rtype_eq : RType → RType → Bool
unfolding variant payload
rtype_eq t u = variant t == variant u && payload t == payload u

of_variant : ℕ → ℕ → RType
unfolding from_u16
of_variant v n = if v == 0 then unknown n else from_u16 v

of_variant-variant : (t : RType) → of_variant (variant t) (payload t) ≡ t
unfolding of_variant variant payload
of_variant-variant (unknown n) = refl
of_variant-variant a = refl
of_variant-variant t = refl

pub rtype_eq_iff : (t u : RType) → (rtype_eq t u ≡ true) ↔ (t ≡ u)
unfolding rtype_eq
rtype_eq_iff t u =
    (λ h. ground (arith, of_variant-variant t, of_variant-variant u), λ h. ground arith)

-- A type read off the wire is written back as the same number.
pub to_u16-from_u16 : (n : ℕ) → to_u16 (from_u16 n) ≡ n
unfolding to_u16 from_u16
to_u16-from_u16 n = ground arith

-- A value is canonical if it is not a number with a name of its own stored as `Unknown`.
abbrev pub IsCanonical : RType → Type 0
IsCanonical t = from_u16 (to_u16 t) ≡ t
