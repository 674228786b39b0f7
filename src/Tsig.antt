-- ===== src/Tsig.antt =====
-- src/tsig.rs: transaction signatures. `Hmac` of the crate hmac is a parameter: `new_from_slice` takes
-- keys of any length, and `verify_slice` succeeds exactly on the bytes that `finalize` gives. The
-- clock, in seconds, is an argument. `none` stands for an index out of range, a panic.
pub mod Extract
pub mod Walk
pub mod Signed
pub mod Authentic
pub mod RoundTrip
use ironbind.Prelude.{
  ℕ, zero, suc, ◌+◌, ◌-◌, ◌*◌, ◌/◌, ◌%◌, ◌^◌, Bool, true, false, not, Option, none, some, List, [],
  ◌∷◌, ◌++◌, Result, ok, err, ltb, ◌==◌, if◌then◌else◌, length, get_elem?, take, drop, is_empty,
}
use ironbind.Prelude.Text.{Bytes, codes, dot, to_ascii_lowercase, bytes_eq, ends_with, starts_with}
use ironbind.Prelude.Assoc.{Assoc, bytes_key, lookup, insert}
use ironbind.Proto.Packet.{class_any}
use ironbind.Proto.Builder
use ironbind.Proto.Builder.{◌▷◌, be16}
use ironbind.Tsig.Extract.{TsigRdata, TsigError, Extracted, extract_tsig}

pub record TsigKey : Type 0 where
  pub name : Bytes
  pub algorithm : Bytes
  pub secret : Bytes

pub record TsigKeyring : Type 0 where
  pub keys : Assoc Bytes TsigKey

unfoldable pub canonical : Bytes → Bytes
canonical name =
    let n = to_ascii_lowercase name in if ends_with n (dot ∷ []) then n else n ++ (dot ∷ [])

unfoldable pub new : TsigKeyring
new = record { keys = [] }

unfoldable pub insert_key : TsigKey → TsigKeyring → TsigKeyring
unfolding canonical
insert_key key ring = record { keys = insert (canonical key.name) key ring.keys }

unfoldable pub get_key : Bytes → TsigKeyring → Option TsigKey
unfolding canonical
get_key name ring = lookup (canonical name) ring.keys

unfoldable pub is_empty_ring : TsigKeyring → Bool
is_empty_ring ring = is_empty ring.keys

unfoldable pub extend_tsig_variables : Bytes → Bytes → ℕ → ℕ → ℕ → Bytes → Bytes → Bytes
extend_tsig_variables key_name algorithm time_signed fudge error other buf =
    buf
    ++ ([]
        ▷ Builder.name key_name
        ▷ Builder.u16 class_any
        ▷ Builder.u32 0
        ▷ Builder.name algorithm
        ▷ Builder.u16 (time_signed / 2 ^ 32 % 2 ^ 16)
        ▷ Builder.u32 (time_signed % 2 ^ 32)
        ▷ Builder.u16 fudge
        ▷ Builder.u16 error
        ▷ Builder.u16 (length other % 2 ^ 16)
        ▷ Builder.raw other)

unfoldable pub tsig_rdata : Bytes → ℕ → ℕ → Bytes → ℕ → Bytes
tsig_rdata algorithm time_signed fudge mac orig_id =
    []
    ▷ Builder.name algorithm
    ▷ Builder.u16 (time_signed / 2 ^ 32 % 2 ^ 16)
    ▷ Builder.u32 (time_signed % 2 ^ 32)
    ▷ Builder.u16 fudge
    ▷ Builder.u16 (length mac % 2 ^ 16)
    ▷ Builder.raw mac
    ▷ Builder.u16 orig_id
    ▷ Builder.u16 0
    ▷ Builder.u16 0

unfoldable pub append_tsig_rr : Bytes → Bytes → ℕ → ℕ → Bytes → ℕ → Bytes → Bytes
append_tsig_rr key_name algorithm time_signed fudge mac orig_id out =
    let rdata = tsig_rdata algorithm time_signed fudge mac orig_id in
    out
    ++ ([]
        ▷ Builder.name key_name
        ▷ Builder.u16 250
        ▷ Builder.u16 class_any
        ▷ Builder.u32 0
        ▷ Builder.u16 (length rdata % 2 ^ 16)
        ▷ Builder.raw rdata)

-- `u16::from_be_bytes([b[i], b[i + 1]])`
unfoldable read16 : Bytes → ℕ → Option ℕ
read16 b i = elim (get_elem? b i) [
  | none ↦ none
  | some hi ↦ elim (get_elem? b (i + 1)) [ none ↦ none | some lo ↦ some (hi * 2 ^ 8 + lo) ]
]

-- `b[i..i + 2].copy_from_slice(&v.to_be_bytes())`, where both bytes are there.
unfoldable put16 : ℕ → ℕ → Bytes → Bytes
put16 i v b = take i b ++ (be16 v ++ drop (i + 2) b)

abbrev pub fudge_seconds : ℕ
fudge_seconds = 300

-- ARCOUNT is raised by one.
unfoldable pub bump_arcount : Bytes → Option Bytes
unfolding read16 put16
bump_arcount out = elim (read16 out 10) [
  | none ↦ none
  | some arcount ↦ some (put16 10 ((arcount + 1) % 2 ^ 16) out)
]

unfoldable pub sign_message : (Bytes → Bytes → Bytes) → ℕ → Bytes → TsigKey → Option Bytes
unfolding read16
sign_message hmac now message key = elim (read16 message 0) [
  | none ↦ none
  | some orig_id ↦
      let to_sign = extend_tsig_variables key.name key.algorithm now fudge_seconds 0 [] message in
      bump_arcount (
        append_tsig_rr key.name key.algorithm now fudge_seconds (hmac key.secret to_sign) orig_id
          message)
]

-- What the signer of an extracted signature hashed.
unfoldable pub preimage : Bytes → Extracted → Bytes
unfolding put16
preimage message x =
    extend_tsig_variables x.name x.tsig.algorithm x.tsig.time_signed x.tsig.fudge x.tsig.error
      x.tsig.other (put16 10 (x.arcount - 1) (put16 0 x.tsig.orig_id (take x.offset message)))

-- The distance between two times.
abbrev pub distance : ℕ → ℕ → ℕ
distance a b = (a - b) + (b - a)

unfoldable pub check_signature :
    (Bytes → Bytes → Bytes) → ℕ → Bytes → Extracted → TsigKey → Result (Unit {0}) TsigError
check_signature hmac now message x key =
    if not (starts_with (canonical x.tsig.algorithm) (codes "hmac-sha256"))
    then err TsigError.unsupported_algorithm
    else if ltb x.tsig.fudge (distance x.tsig.time_signed now)
    then err TsigError.outside_window
    else if bytes_eq (hmac key.secret (preimage message x)) x.tsig.mac
    then ok tt
    else err TsigError.mac_mismatch

unfoldable pub verify_message :
    (Bytes → Bytes → Bytes) → ℕ → Bytes → TsigKeyring → Result (Unit {0}) TsigError
verify_message hmac now message ring = elim (extract_tsig message) [
  | err e ↦ err e
  | ok x ↦ elim (get_key x.name ring) [
    | none ↦ err TsigError.unknown_key
    | some key ↦ check_signature hmac now message x key
  ]
]
