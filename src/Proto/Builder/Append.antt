-- ===== src/Proto/Builder/Append.antt =====
-- src/proto.rs: the bytes that each method of `Builder` appends.
use ironbind.Prelude.{
  ◌%◌, ◌^◌, ◌≡◌, sym, ◌∙◌, ◌||◌, List, [], ◌∷◌, ◌++◌, append-nil, append_assoc, if◌then◌else◌,
  length, is_empty, Bool-cases, inl, inr,
}
use ironbind.Prelude.Text.{Bytes, trim_end_dots, split_dots, bytes_eq, dot}
use ironbind.Proto.RType.{to_u16}
use ironbind.Proto.Packet.{Question, Record}
use ironbind.Proto.Builder.{u8, be16, be32, u16, u32, raw, labels, name, question, put_record, each}

-- The wire form of labels that are not empty.
unfoldable pub label_bytes : List Bytes → Bytes
label_bytes [] = []
label_bytes (l ∷ ls) = if is_empty l then label_bytes ls else (length l % 256) ∷ l ++ label_bytes ls

unfoldable pub name_bytes : Bytes → Bytes
name_bytes n =
    if bytes_eq n (dot ∷ []) || is_empty n
    then 0 ∷ []
    else label_bytes (split_dots (trim_end_dots n)) ++ (0 ∷ [])

unfoldable pub question_bytes : Question → Bytes
question_bytes q = name_bytes q.name ++ (be16 (to_u16 q.qtype) ++ be16 q.qclass)

unfoldable pub record_bytes : Record → Bytes
record_bytes r =
    name_bytes r.name
    ++ (be16 (to_u16 r.rtype)
        ++ (be16 r.class ++ (be32 r.ttl ++ (be16 (length r.rdata % 2 ^ 16) ++ r.rdata))))

unfoldable pub each_bytes {ℓ} : {A : Type ℓ} → (A → Bytes) → List A → Bytes
each_bytes f [] = []
each_bytes f (x ∷ xs) = f x ++ each_bytes f xs

labels-append : (ls : List Bytes) (b : Bytes) → labels ls b ≡ b ++ label_bytes ls
unfolding labels label_bytes
labels-append [] b = sym (append-nil b)
labels-append (l ∷ ls) b = elim (Bool-cases (is_empty l)) [
  | inl e ↦ rw e (labels-append ls b)
  | inr e ↦ rw e (labels-append ls _ ∙ simp append_assoc)
]

pub name-append : (n b : Bytes) → name n b ≡ b ++ name_bytes n
unfolding name name_bytes u8
name-append n b = elim (Bool-cases (bytes_eq n (dot ∷ []) || is_empty n)) [
  | inl e ↦ rw e
  | inr e ↦ rw e (rw (labels-append, append_assoc))
]

pub question-append : (q : Question) (b : Bytes) → question q b ≡ b ++ question_bytes q
unfolding question question_bytes u16
question-append q b = simp (name-append, append_assoc)

pub put_record-append : (r : Record) (b : Bytes) → put_record r b ≡ b ++ record_bytes r
unfolding put_record record_bytes u16 u32 raw
put_record-append r b = simp (name-append, append_assoc)

pub each-append {ℓ} :
    {A : Type ℓ} (f : A → Bytes → Bytes) (w : A → Bytes)
    → ((x : A) (b : Bytes) → f x b ≡ b ++ w x)
    → (xs : List A) (b : Bytes) → each f xs b ≡ b ++ each_bytes w xs
unfolding each_bytes
each-append f w h [] b = sym (append-nil b)
each-append f w h (x ∷ xs) b =
    each-append f w h xs (f x b) ∙ rw h (append_assoc b (w x) (each_bytes w xs))
