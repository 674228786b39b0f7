-- ===== src/Tsig/Signed.antt =====
-- src/tsig.rs: the bytes of a signed message, and what `extract_tsig` finds in them.
use ironbind.Prelude.{
  ℕ, ◌+◌, ◌-◌, ◌*◌, ◌/◌, ◌%◌, ◌^◌, ◌<◌, ◌≡◌, refl, ap, ◌∙◌, some, List, [], ◌++◌, append-nil,
  append_assoc, ok, arith, length, All,
}
use ironbind.Prelude.Text.{Bytes}
use ironbind.Proto.Packet.{Question, Record}
use ironbind.Proto.Builder
use ironbind.Proto.Builder.{be16, be32}
use ironbind.Proto.Builder.Append.{
  name_bytes, question_bytes, record_bytes, each_bytes, name-append,
}
use ironbind.Proto.RoundTrip.{IsName, IsQuestion, IsRecord}
use ironbind.Tsig.Extract.{Extracted, extract_from, extract_tsig, finish_tsig}
use ironbind.Tsig.Walk.{head_record, read_last-ReadsAt, signature_bytes, read_tsig-Reads}
use ironbind.Tsig.{
  TsigKey, tsig_rdata, append_tsig_rr, fudge_seconds, bump_arcount, sign_message,
  extend_tsig_variables,
}

-- The header of a message: the identifier, the flags and the four counts.
abbrev pub header : ℕ → ℕ → ℕ → ℕ → ℕ → ℕ → Bytes
header id flags qd an ns ar =
    be16 id ++ (be16 flags ++ (be16 qd ++ (be16 an ++ (be16 ns ++ be16 ar))))

-- The record that signs a message.
abbrev pub rr_bytes : TsigKey → ℕ → Bytes → ℕ → Bytes
rr_bytes key now mac id =
    name_bytes key.name
    ++ (be16 250
        ++ signature_bytes key.algorithm
            (length (tsig_rdata key.algorithm now fudge_seconds mac id) % 2 ^ 16) now fudge_seconds
            mac id)

append_tsig_rr-rr_bytes :
    (key : TsigKey) (now id : ℕ) (mac out : Bytes)
    → length mac < 2 ^ 16
    → append_tsig_rr key.name key.algorithm now fudge_seconds mac id out
      ≡ out ++ rr_bytes key now mac id
unfolding append_tsig_rr tsig_rdata signature_bytes Builder.u16 Builder.u32 Builder.raw
append_tsig_rr-rr_bytes key now id mac out h =
    let e : length mac % 2 ^ 16 ≡ length mac = omega arith in
    rw e (simp (name-append, append_assoc, append-nil))

-- What the signer hashes.
abbrev pub hashed : TsigKey → ℕ → Bytes → Bytes
hashed key now message = extend_tsig_variables key.name key.algorithm now fudge_seconds 0 [] message

bump_arcount-header :
    (id flags qd an ns ar : ℕ) (rest : Bytes)
    → ar + 1 < 2 ^ 16
    → bump_arcount (header id flags qd an ns ar ++ rest)
      ≡ some (header id flags qd an ns (ar + 1) ++ rest)
unfolding bump_arcount
bump_arcount-header id flags qd an ns ar rest h =
    let next : (ar / 2 ^ 8 % 256 * 2 ^ 8 + ar % 256 + 1) % 2 ^ 16 ≡ ar + 1 = omega arith in
    rw next refl

-- `sign_message` puts the record behind the message and raises the last count.
pub sign_message_lem :
    (hmac : Bytes → Bytes → Bytes) (now id flags qd an ns ar : ℕ) (body : Bytes) (key : TsigKey)
    → id < 2 ^ 16
    → ar + 1 < 2 ^ 16
    → ((s m : Bytes) → length (hmac s m) < 2 ^ 16)
    → sign_message hmac now (header id flags qd an ns ar ++ body) key
      ≡ some (
          header id flags qd an ns (ar + 1)
          ++ (body
              ++ rr_bytes key now
                  (hmac key.secret (hashed key now (header id flags qd an ns ar ++ body)))
                  id))
unfolding sign_message
sign_message_lem hmac now id flags qd an ns ar body key hi ha hm =
    let message = header id flags qd an ns ar ++ body in
    let mac = hmac key.secret (hashed key now message) in
    let fits = hm key.secret (hashed key now message) in
    let same_id : id / 2 ^ 8 % 256 * 2 ^ 8 + id % 256 ≡ id = omega arith in
    ap (λ n. bump_arcount (append_tsig_rr key.name key.algorithm now fudge_seconds mac n message))
      same_id
    ∙ ap bump_arcount (append_tsig_rr-rr_bytes key now id mac message fits)
    ∙ bump_arcount-header id flags qd an ns ar (body ++ rr_bytes key now mac id) ha

-- The questions and the records of a message.
abbrev pub sections : List Question → List Record → Bytes
sections qs rs = each_bytes question_bytes qs ++ each_bytes record_bytes rs

-- What `extract_tsig` should find: the signature of `key` with its names as `n` and `a`.
abbrev pub found : Bytes → Bytes → ℕ → Bytes → ℕ → ℕ → ℕ → Extracted
found n a now mac id offset arcount = record {
  name = n;
  tsig = record {
    algorithm = a;
    time_signed = now;
    fudge = fudge_seconds;
    mac = mac;
    orig_id = id;
    error = 0;
    other = [];
  };
  offset = offset;
  arcount = arcount;
}

abbrev buffer : ℕ → ℕ → ℕ → ℕ → ℕ → List Question → List Record → TsigKey → ℕ → Bytes → Bytes
buffer id flags an ns ar qs rs key now mac =
    header id flags (length qs) an ns ar ++ (sections qs rs ++ rr_bytes key now mac id)

extract_from_lem :
    (id flags an ns ar : ℕ) (qs : List Question) (rs : List Record) (key : TsigKey) (n a : Bytes)
    (now : ℕ) (mac : Bytes)
    → All IsQuestion qs
    → All IsRecord rs
    → IsName n
    → name_bytes key.name ≡ name_bytes n
    → IsName a
    → name_bytes key.algorithm ≡ name_bytes a
    → id < 2 ^ 16
    → now < 2 ^ 48
    → length mac < 2 ^ 16
    → extract_from (buffer id flags an ns ar qs rs key now mac) (length qs) (length rs) ar
      ≡ ok (
          found n a now mac id
            (12 + length (each_bytes question_bytes qs) + length (each_bytes record_bytes rs))
            ar)
unfolding extract_from
extract_from_lem id flags an ns ar qs rs key n a now mac hq hr hn en ha ea hi ht hm =
    let h = header id flags (length qs) an ns ar in
    let size = length (tsig_rdata key.algorithm now fudge_seconds mac id) % 2 ^ 16 in
    let sig = signature_bytes key.algorithm size now fudge_seconds mac id in
    let walked =
      h
      ++ (each_bytes question_bytes qs
          ++ (each_bytes record_bytes rs ++ (name_bytes key.name ++ (be16 250 ++ [])))) in
    let split : buffer id flags an ns ar qs rs key now mac ≡ walked ++ sig = simp append_assoc in
    let start : 0 + length walked ≡ length walked = omega arith in
    let last = rw start at ((read_last-ReadsAt h qs rs key.name n refl hq hr hn en).at [] sig) in
    let rest = rw (append-nil sig) at (
      (read_tsig-Reads key.algorithm a mac size now fudge_seconds id ha ea (omega arith) ht
          (omega arith) hm hi).at
        walked []) in
    rw (split, last)
      (ap
        (finish_tsig ar (
          head_record n
            (12 + length (each_bytes question_bytes qs) + length (each_bytes record_bytes rs))))
        rest)

-- `extract_tsig` finds the signature behind the sections that the header counts.
pub extract_tsig_lem :
    (id flags an ns ar : ℕ) (qs : List Question) (rs : List Record) (key : TsigKey) (n a : Bytes)
    (now : ℕ) (mac : Bytes)
    → All IsQuestion qs
    → All IsRecord rs
    → IsName n
    → name_bytes key.name ≡ name_bytes n
    → IsName a
    → name_bytes key.algorithm ≡ name_bytes a
    → id < 2 ^ 16
    → now < 2 ^ 48
    → length mac < 2 ^ 16
    → length qs < 2 ^ 16
    → an < 2 ^ 16
    → ns < 2 ^ 16
    → ar + 1 < 2 ^ 16
    → an + ns + ar ≡ length rs
    → extract_tsig
        (header id flags (length qs) an ns (ar + 1) ++ (sections qs rs ++ rr_bytes key now mac id))
      ≡ ok (
          found n a now mac id
            (12 + length (each_bytes question_bytes qs) + length (each_bytes record_bytes rs))
            (ar + 1))
unfolding extract_tsig
extract_tsig_lem id flags an ns ar qs rs key n a now mac hq hr hn en ha ea hi ht hm lq la ln lr
      count =
    let number : (k : ℕ) → k < 2 ^ 16 → k / 2 ^ 8 % 256 * 2 ^ 8 + k % 256 ≡ k =
      λ k h. omega arith in
    let sum : an + ns + (ar + 1) - 1 ≡ length rs = omega arith in
    rw (number (ar + 1) lr, number (length qs) lq, number an la, number ns ln, sum)
      (ground (
        arith,
        extract_from_lem id flags an ns (ar + 1) qs rs key n a now mac hq hr hn en ha ea hi ht hm,
      ))
