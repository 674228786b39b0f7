-- ===== src/Tests/Signing.antt =====
-- A signature at a concrete key and message.
use ironbind.Prelude.{◌≡◌, refl, true, some, [], ◌∷◌, ok, arith}
use ironbind.Prelude.Text.{
  Bytes, codes, lower, is_utf8, join_dots, split_dots, trim_end_dots, bytes_eq, ends_with,
  starts_with,
}
use ironbind.Prelude.Assoc.{bytes_key, lookup, insert}
use ironbind.Proto.Builder.Append.{name_bytes, label_bytes}
use ironbind.Proto.Message.{serialize}
use ironbind.Proto.Names.{IsLabel}
use ironbind.Proto.RoundTrip.{IsName}
use ironbind.Tests.Wire.{answer, answer-IsWire}
use ironbind.Tsig
use ironbind.Tsig.{
  TsigKey, TsigKeyring, canonical, insert_key, get_key, sign_message, verify_message,
}
use ironbind.Tsig.RoundTrip.{verify_message-sign_message}

abbrev key : TsigKey
key = record {
  name = codes "transfer-key.";
  algorithm = codes "hmac-sha256.";
  secret = 1 ∷ 2 ∷ 3 ∷ [];
}

abbrev ring : TsigKeyring
ring = insert_key key Tsig.new

-- A hash that is always the same.
abbrev constant : Bytes → Bytes → Bytes
constant s m = 7 ∷ 7 ∷ []

name-IsLabel : IsLabel (codes "transfer-key")
unfolding lower is_utf8
name-IsLabel = record {
  nonempty = omega arith;
  short = omega arith;
  no_dot = ground arith;
  is_lower = refl;
  is_text = refl;
}

algorithm-IsLabel : IsLabel (codes "hmac-sha256")
unfolding lower is_utf8
algorithm-IsLabel = record {
  nonempty = omega arith;
  short = omega arith;
  no_dot = ground arith;
  is_lower = refl;
  is_text = refl;
}

name-IsName : IsName (codes "transfer-key")
unfolding join_dots
name-IsName = record {
  labels = codes "transfer-key" ∷ [];
  all = (name-IsLabel, tt);
  is_joined = refl;
}

algorithm-IsName : IsName (codes "hmac-sha256")
unfolding join_dots
algorithm-IsName = record {
  labels = codes "hmac-sha256" ∷ [];
  all = (algorithm-IsLabel, tt);
  is_joined = refl;
}

same_name : name_bytes key.name ≡ name_bytes (codes "transfer-key")
unfolding name_bytes label_bytes split_dots trim_end_dots bytes_eq
same_name = refl

same_algorithm : name_bytes key.algorithm ≡ name_bytes (codes "hmac-sha256")
unfolding name_bytes label_bytes split_dots trim_end_dots bytes_eq
same_algorithm = refl

known : get_key (codes "transfer-key") ring ≡ some key
unfolding get_key insert_key lookup insert canonical ends_with lower bytes_eq Tsig.new
known = refl

verify_message-sign_message_example :
    (signed : Bytes) × (sign_message constant 1000 (serialize answer true) key ≡ some signed)
    × (verify_message constant 1200 signed ring ≡ ok tt)
unfolding starts_with canonical ends_with lower
verify_message-sign_message_example =
    verify_message-sign_message constant 1000 1200 answer true key (codes "transfer-key")
      (codes "hmac-sha256") ring (λ s m. omega arith) (omega arith) (omega arith) (omega arith)
      answer-IsWire (omega arith) name-IsName same_name algorithm-IsName same_algorithm known
