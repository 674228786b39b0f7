-- ===== src/Tests/Hashes.antt =====
-- The digests of "abc" that FIPS 180-4 gives.
use ironbind.Prelude.{◌≡◌, refl, [], ◌∷◌, take}
use ironbind.Prelude.Text.{codes}
use ironbind.Zone.Nsec3.{base32hex_encode}
use ironbind.Dnssec.Sha2.{sha256, sha384, sha512}

sha256_abc : take 4 (sha256 (codes "abc")) ≡ 0xba ∷ 0x78 ∷ 0x16 ∷ 0xbf ∷ []
unfolding sha256
sha256_abc = refl

sha384_abc : take 4 (sha384 (codes "abc")) ≡ 0xcb ∷ 0x00 ∷ 0x75 ∷ 0x3f ∷ []
unfolding sha384
sha384_abc = refl

sha512_abc : take 4 (sha512 (codes "abc")) ≡ 0xdd ∷ 0xaf ∷ 0x35 ∷ 0xa1 ∷ []
unfolding sha512
sha512_abc = refl

base32hex_foobar : base32hex_encode (codes "foobar") ≡ codes "CPNMUOJ1E8"
unfolding base32hex_encode
base32hex_foobar = refl
