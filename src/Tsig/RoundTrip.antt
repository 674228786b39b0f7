-- ===== src/Tsig/RoundTrip.antt =====
-- src/tsig.rs: `verify_message` on the messages of `sign_message`.
use ironbind.Prelude.{
  ℕ, ◌+◌, ◌-◌, ◌/◌, ◌%◌, ◌^◌, ◌<◌, ◌≤◌, ◌≡◌, refl, sym, ap, ◌∙◌, Bool, true, false, some, List, [],
  ◌++◌, append-nil, append_assoc, ok, err, if◌then◌else◌, Bool-cases, inl, inr, arith, ltb, length,
  length-append, take, take-append, All, All-append,
}
use ironbind.Prelude.Text.{Bytes, codes, bytes_eq, bytes_eq_iff, starts_with}
use ironbind.Proto.Packet.{Question, Record, Packet, class_any}
use ironbind.Proto.Message.{serialize}
use ironbind.Proto.Builder
use ironbind.Proto.Builder.{be16, be32}
use ironbind.Proto.Builder.Append.{
  name_bytes, question_bytes, record_bytes, each_bytes, name-append,
}
use ironbind.Proto.RoundTrip.{IsName, IsRecord}
use ironbind.Proto.RoundTrip.Message.{
  IsWire, opt_records, serialize-message_bytes, each_bytes-append, opt_records-IsRecord,
  length-opt_records,
}
use ironbind.Tsig.Extract.{TsigError, Extracted}
use ironbind.Tsig.Signed.{
  header, rr_bytes, hashed, sections, found, sign_message_lem, extract_tsig_lem,
}
use ironbind.Tsig.{
  TsigKey, TsigKeyring, canonical, get_key, extend_tsig_variables, fudge_seconds, sign_message,
  preimage, distance, check_signature, verify_message,
}

variables_bytes : Bytes → Bytes → ℕ → ℕ → ℕ → Bytes → Bytes
variables_bytes key_name algorithm now fudge error other =
    name_bytes key_name
    ++ (be16 class_any
        ++ (be32 0
            ++ (name_bytes algorithm
                ++ (be16 (now / 2 ^ 32 % 2 ^ 16)
                    ++ (be32 (now % 2 ^ 32)
                        ++ (be16 fudge
                            ++ (be16 error ++ (be16 (length other % 2 ^ 16) ++ other))))))))

extend_tsig_variables-bytes :
    (key_name algorithm : Bytes) (now fudge error : ℕ) (other buf : Bytes)
    → extend_tsig_variables key_name algorithm now fudge error other buf
      ≡ buf ++ variables_bytes key_name algorithm now fudge error other
unfolding extend_tsig_variables variables_bytes Builder.u16 Builder.u32 Builder.raw
extend_tsig_variables-bytes key_name algorithm now fudge error other buf =
    simp (name-append, append_assoc, append-nil)

-- Names with the same wire form hash alike.
extend_tsig_variables_alike :
    (m n a b : Bytes) (now : ℕ) (buf : Bytes)
    → name_bytes m ≡ name_bytes n
    → name_bytes a ≡ name_bytes b
    → extend_tsig_variables m a now fudge_seconds 0 [] buf
      ≡ extend_tsig_variables n b now fudge_seconds 0 [] buf
unfolding variables_bytes
extend_tsig_variables_alike m n a b now buf h k =
    extend_tsig_variables-bytes m a now fudge_seconds 0 [] buf
    ∙ rw (h, k) (sym (extend_tsig_variables-bytes n b now fudge_seconds 0 [] buf))

-- The length of everything before the signature.
abbrev offset_of : List Question → List Record → ℕ
offset_of qs rs = 12 + length (each_bytes question_bytes qs) + length (each_bytes record_bytes rs)

take-signed :
    (id flags qd an ns ar : ℕ) (qs : List Question) (rs : List Record) (rr : Bytes)
    → take (offset_of qs rs) (header id flags qd an ns ar ++ (sections qs rs ++ rr))
      ≡ header id flags qd an ns ar ++ sections qs rs
take-signed id flags qd an ns ar qs rs rr =
    let h = header id flags qd an ns ar in
    let size : offset_of qs rs ≡ length (h ++ sections qs rs) =
      omega (arith, length-append (each_bytes question_bytes qs) (each_bytes record_bytes rs)) in
    rw size (
      ap (take (length (h ++ sections qs rs))) (sym (append_assoc h (sections qs rs) rr))
      ∙ take-append (h ++ sections qs rs) rr)

preimage-hashed :
    (id flags qd an ns ar : ℕ) (qs : List Question) (rs : List Record) (rr : Bytes) (key : TsigKey)
    (n a : Bytes) (now : ℕ) (mac : Bytes)
    → name_bytes key.name ≡ name_bytes n
    → name_bytes key.algorithm ≡ name_bytes a
    → preimage
        (header id flags qd an ns (ar + 1) ++ (sections qs rs ++ rr))
        (found n a now mac id (offset_of qs rs) (ar + 1))
      ≡ hashed key now (header id flags qd an ns ar ++ sections qs rs)
unfolding preimage
preimage-hashed id flags qd an ns ar qs rs rr key n a now mac en ea =
    let before : ar + 1 - 1 ≡ ar = omega arith in
    rw (take-signed id flags qd an ns (ar + 1) qs rs rr, before)
      (sym (
        extend_tsig_variables_alike key.name n key.algorithm a now
          (header id flags qd an ns ar ++ sections qs rs) en ea))

check_signature_lem :
    (hmac : Bytes → Bytes → Bytes) (now : ℕ) (message : Bytes) (x : Extracted) (key : TsigKey)
    → distance x.tsig.time_signed now ≤ x.tsig.fudge
    → hmac key.secret (preimage message x) ≡ x.tsig.mac
    → check_signature hmac now message x key ≡ (
        if starts_with (canonical x.tsig.algorithm) (codes "hmac-sha256")
        then ok tt
        else err TsigError.unsupported_algorithm)
unfolding check_signature
check_signature_lem hmac now message x key d e =
    let fresh : ltb x.tsig.fudge (distance x.tsig.time_signed now) ≡ false = ground arith in
    let same : bytes_eq (hmac key.secret (preimage message x)) x.tsig.mac ≡ true =
      (bytes_eq_iff _ _).1 e in
    elim (Bool-cases (starts_with (canonical x.tsig.algorithm) (codes "hmac-sha256"))) [
      | inl s ↦ rw (s, fresh, same) refl
      | inr s ↦ rw s refl
    ]

-- The records of a message behind its questions.
abbrev records_of : Packet → Bool → List Record
records_of p e = p.answers ++ (p.authority ++ (p.additional ++ opt_records p e))

serialize-header :
    (p : Packet) (e : Bool)
    → IsWire p
    → serialize p e
      ≡ header p.id p.flags
          (length p.questions)
          (length p.answers)
          (length p.authority)
          (length (p.additional ++ opt_records p e))
        ++ sections p.questions (records_of p e)
serialize-header p e h =
    let small : (n : ℕ) → n < 2 ^ 16 → n % 2 ^ 16 ≡ n = λ n k. omega arith in
    let more : length (p.additional ++ opt_records p e) < 2 ^ 16 = omega (
      arith,
      length-append {0} p.additional (opt_records p e),
      length-opt_records p e,
      h.additional_fits,
    ) in
    serialize-message_bytes p e
    ∙ rw
        (
          small (length p.questions) h.questions_fit,
          small (length p.answers) h.answers_fit,
          small (length p.authority) h.authority_fits,
          small _ more,
          each_bytes-append record_bytes p.answers
              (p.authority ++ (p.additional ++ opt_records p e)),
          each_bytes-append record_bytes p.authority (p.additional ++ opt_records p e),
          append-nil,
        )
        refl

-- A message that `sign_message` signs with a key, at a time of 48 bits, is accepted by `verify_message`
-- up to 300 seconds earlier or later, if the name of the algorithm of the key begins with hmac-sha256,
-- and is refused as of an unsupported algorithm otherwise, whatever the function `hmac` is, if its
-- results have fewer than 2 ^ 16 bytes. `n` and `a` are the names of the key and of its algorithm as
-- the parser reads them, and the keyring has the key under `n`; the message is the serialized form of
-- a packet that fits the wire, with room for one more record.
pub verify_message-sign_message :
    (hmac : Bytes → Bytes → Bytes) (now later : ℕ) (p : Packet) (e : Bool) (key : TsigKey)
    (n a : Bytes) (ring : TsigKeyring)
    → ((s m : Bytes) → length (hmac s m) < 2 ^ 16)
    → now < 2 ^ 48
    → now ≤ later + fudge_seconds
    → later ≤ now + fudge_seconds
    → IsWire p
    → length p.additional + 2 < 2 ^ 16
    → IsName n
    → name_bytes key.name ≡ name_bytes n
    → IsName a
    → name_bytes key.algorithm ≡ name_bytes a
    → get_key n ring ≡ some key
    → (signed : Bytes) × (sign_message hmac now (serialize p e) key ≡ some signed)
      × (verify_message hmac later signed ring ≡ (
          if starts_with (canonical a) (codes "hmac-sha256")
          then ok tt
          else err TsigError.unsupported_algorithm))
unfolding verify_message
verify_message-sign_message hmac now later p e key n a ring hm ht before after w room hn en ha ea
      known =
    let rs = records_of p e in
    let ar = length (p.additional ++ opt_records p e) in
    let body = sections p.questions rs in
    let message =
      header p.id p.flags (length p.questions) (length p.answers) (length p.authority) ar ++ body in
    let mac = hmac key.secret (hashed key now message) in
    let fits : ar + 1 < 2 ^ 16 =
      omega (arith, length-append {0} p.additional (opt_records p e), length-opt_records p e) in
    let count : length p.answers + length p.authority + ar ≡ length rs = omega (
      arith,
      length-append {0} p.answers (p.authority ++ (p.additional ++ opt_records p e)),
      length-append {0} p.authority (p.additional ++ opt_records p e),
    ) in
    let all : All IsRecord rs = All-append IsRecord p.answers _ w.answers (
      All-append IsRecord p.authority _ w.authority
        (All-append IsRecord p.additional _ w.additional (opt_records-IsRecord p e w))) in
    let signed =
      header p.id p.flags (length p.questions) (length p.answers) (length p.authority) (ar + 1)
      ++ (body ++ rr_bytes key now mac p.id) in
    let x = found n a now mac p.id (offset_of p.questions rs) (ar + 1) in
    let extracted =
      extract_tsig_lem p.id p.flags (length p.answers) (length p.authority) ar p.questions rs key n
        a now mac w.questions all hn en ha ea w.id_fits ht (hm key.secret (hashed key now message))
        w.questions_fit w.answers_fit w.authority_fits fits count in
    let same =
      preimage-hashed p.id p.flags (length p.questions) (length p.answers) (length p.authority) ar
        p.questions rs (rr_bytes key now mac p.id) key n a now mac en ea in
    let near : distance now later ≤ fudge_seconds = omega arith in
    (
      signed,
      rw (serialize-header p e w) (
          sign_message_lem hmac now p.id p.flags (length p.questions) (length p.answers)
            (length p.authority) ar body key w.id_fits fits hm),
      rw (extracted, known, verify_message)
          (check_signature_lem hmac later signed x key near (ap (hmac key.secret) same)),
    )
