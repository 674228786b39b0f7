-- ===== src/Tsig/Authentic.antt =====
-- src/tsig.rs: what a message that `verify_message` accepts has.
use ironbind.Prelude.{
  ℕ, ◌≤◌, ◌≡◌, true, some, ok, arith, ltb, Bool-cases, Option-cases, Result-cases, inl, inr,
}
use ironbind.Prelude.Text.{Bytes, codes, bytes_eq, bytes_eq_iff, starts_with}
use ironbind.Tsig.Extract.{Extracted, extract_tsig}
use ironbind.Tsig.{
  TsigKey, TsigKeyring, canonical, get_key, preimage, distance, check_signature, verify_message,
}

-- The last record of the message is a TSIG record that names a key of the ring and an algorithm that
-- begins with hmac-sha256, was made at most its fudge earlier or later than `now`, and has the MAC of
-- the message under the secret of that key.
pub record IsAuthentic (hmac : Bytes → Bytes → Bytes) (now : ℕ) (message : Bytes)
    (ring : TsigKeyring) : Type 0 where
  pub found : Extracted
  pub key : TsigKey
  pub extracted : extract_tsig message ≡ ok found
  pub known : get_key found.name ring ≡ some key
  pub supported : starts_with (canonical found.tsig.algorithm) (codes "hmac-sha256") ≡ true
  pub fresh : distance found.tsig.time_signed now ≤ found.tsig.fudge
  pub mac : hmac key.secret (preimage message found) ≡ found.tsig.mac

module _ (hmac : Bytes → Bytes → Bytes) (now : ℕ) (message : Bytes) where
  check_signature-ok :
      (x : Extracted) (key : TsigKey)
      → check_signature hmac now message x key ≡ ok tt
      → (starts_with (canonical x.tsig.algorithm) (codes "hmac-sha256") ≡ true)
        × (distance x.tsig.time_signed now ≤ x.tsig.fudge)
        × (hmac key.secret (preimage message x) ≡ x.tsig.mac)
  unfolding check_signature
  check_signature-ok x key h =
      elim (Bool-cases (starts_with (canonical x.tsig.algorithm) (codes "hmac-sha256"))) [
        | inr s ↦ let k = rw (s, check_signature) at h in absurd (ground arith)
        | inl s ↦ elim (Bool-cases (ltb x.tsig.fudge (distance x.tsig.time_signed now))) [
          | inl d ↦ let k = rw (s, d, check_signature) at h in absurd (ground arith)
          | inr d ↦ elim (Bool-cases (bytes_eq (hmac key.secret (preimage message x)) x.tsig.mac)) [
            | inr m ↦ let k = rw (s, d, m, check_signature) at h in absurd (ground arith)
            | inl m ↦ (s, ground arith, (bytes_eq_iff _ _).0 m)
          ]
        ]
      ]

  pub verify_message-IsAuthentic :
      (ring : TsigKeyring)
      → verify_message hmac now message ring ≡ ok tt
      → IsAuthentic hmac now message ring
  unfolding verify_message
  verify_message-IsAuthentic ring h = elim (Result-cases (extract_tsig message)) [
    | inr (e, n) ↦ let k = rw (n, verify_message) at h in absurd (ground arith)
    | inl (x, n) ↦ elim (Option-cases (get_key x.name ring)) [
      | inl g ↦ let k = rw (n, g, verify_message) at h in absurd (ground arith)
      | inr (key, g) ↦
          let (s, d, m) = check_signature-ok x key (rw (n, g, verify_message) at h) in
          record {
            found = x;
            key = key;
            extracted = n;
            known = g;
            supported = s;
            fresh = d;
            mac = m;
          }
    ]
  ]
