-- ===== src/Proto/Builder.antt =====
-- src/proto.rs: `Builder`, which appends to a buffer, and `canonical_name`.
pub mod Append
use ironbind.Prelude.{
  ℕ, ◌+◌, ◌*◌, ◌/◌, ◌%◌, ◌^◌, Bool, true, false, ◌||◌, List, [], ◌∷◌, ◌++◌, ◌==◌, if◌then◌else◌,
  length, is_empty,
}
use ironbind.Prelude.Text.{Bytes, to_ascii_lowercase, trim_end_dots, split_dots, bytes_eq, dot}
use ironbind.Proto.RType.{to_u16}
use ironbind.Proto.Packet.{Question, Record}

-- `b ▷ f` is the method call `b.f`.
infixl 20 ◌▷◌
abbrev pub ◌▷◌ {ℓ κ} : {A : Type ℓ} {B : Type κ} → A → (A → B) → B
b ▷ f = f b

unfoldable pub u8 : ℕ → Bytes → Bytes
u8 v b = b ++ (v ∷ [])

-- `to_be_bytes`.
abbrev pub be16 : ℕ → Bytes
be16 v = v / 2 ^ 8 % 256 ∷ v % 256 ∷ []

abbrev pub be32 : ℕ → Bytes
be32 v = v / 2 ^ 24 % 256 ∷ v / 2 ^ 16 % 256 ∷ v / 2 ^ 8 % 256 ∷ v % 256 ∷ []

unfoldable pub u16 : ℕ → Bytes → Bytes
u16 v b = b ++ be16 v

unfoldable pub u32 : ℕ → Bytes → Bytes
u32 v b = b ++ be32 v

unfoldable pub raw : Bytes → Bytes → Bytes
raw v b = b ++ v

-- The loop over the labels: an empty one is skipped, and the length is cut to a byte.
unfoldable pub labels : List Bytes → Bytes → Bytes
unfolding u8 raw
labels [] b = b
labels (l ∷ ls) b = labels ls (if is_empty l then b else b ▷ u8 (length l % 256) ▷ raw l)

unfoldable pub name : Bytes → Bytes → Bytes
unfolding u8 labels bytes_eq
name n b =
    if bytes_eq n (dot ∷ []) || is_empty n
    then b ▷ u8 0
    else b ▷ labels (split_dots (trim_end_dots n)) ▷ u8 0

unfoldable pub question : Question → Bytes → Bytes
unfolding name u16
question q b = b ▷ name q.name ▷ u16 (to_u16 q.qtype) ▷ u16 q.qclass

-- `Builder::record`; the length of the data is cut to 16 bits.
unfoldable pub put_record : Record → Bytes → Bytes
unfolding name u16 u32 raw
put_record r b =
    b
    ▷ name r.name
    ▷ u16 (to_u16 r.rtype)
    ▷ u16 r.class
    ▷ u32 r.ttl
    ▷ u16 (length r.rdata % 2 ^ 16)
    ▷ raw r.rdata

unfoldable pub opt : ℕ → Bool → Bytes → Bytes
unfolding u8 u16 u32
opt udp_size dnssec_ok b =
    b ▷ u8 0 ▷ u16 41 ▷ u16 udp_size ▷ u32 (if dnssec_ok then 0x8000 else 0) ▷ u16 0

-- A loop `for x in xs { b.f(x); }`.
abbrev pub each {ℓ} : {A : Type ℓ} → (A → Bytes → Bytes) → List A → Bytes → Bytes
each f [] b = b
each f (x ∷ xs) b = each f xs (f x b)

unfoldable pub canonical_labels : List Bytes → Bytes → Bytes
canonical_labels [] out = out
canonical_labels (l ∷ ls) out = canonical_labels ls (out ++ ((length l % 256) ∷ l))

unfoldable pub canonical_name : Bytes → Bytes
unfolding canonical_labels
canonical_name n =
    let trimmed = trim_end_dots (to_ascii_lowercase n) in
    if is_empty trimmed then 0 ∷ [] else canonical_labels (split_dots trimmed) [] ++ (0 ∷ [])

-- `canonical_rr`.
unfoldable pub canonical_rr : Record → Bytes
unfolding name u16 u32 raw
canonical_rr r =
    []
    ▷ name (to_ascii_lowercase r.name)
    ▷ u16 (to_u16 r.rtype)
    ▷ u16 r.class
    ▷ u32 r.ttl
    ▷ u16 (length r.rdata % 2 ^ 16)
    ▷ raw r.rdata
