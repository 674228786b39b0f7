-- ===== src/Proto/RoundTrip/Data.antt =====
-- Record data that `decompress_rdata` leaves as it is: data with no names, and data whose names are
-- written out.
use ironbind.Prelude.{
  ℕ, ◌+◌, ◌%◌, ◌^◌, ◌<◌, ◌≡◌, refl, sym, ap, ◌∙◌, List, [], ◌∷◌, ◌++◌, append-nil, append_assoc, ok,
  arith, length, length-append, All, map,
}
use mathlib.Core.Path.{ap₂}
use ironbind.Prelude.Text.{
  Bytes, dot, bytes_eq, to_ascii_lowercase, lower, join_dots, trim_end_dots,
}
use ironbind.Proto.RType.{RType}
use ironbind.Proto.Reader
use ironbind.Proto.Reader.{Reader, IoError, ◌>>=◌, pure, joined}
use ironbind.Proto.Message.{decompress_rdata, be16_at, soa_bytes}
use ironbind.Proto.Builder
use ironbind.Proto.Builder.{be16, be32, canonical_name, canonical_labels, ◌▷◌}
use ironbind.Proto.Builder.Append.{label_bytes, name_bytes, name-append}
use ironbind.Proto.Reads.{Reads, Reads-pure, Reads-bind, Reads-eq, Reads-u32}
use ironbind.Proto.Names.{
  IsLabel, trim_end_dots-join_dots, split_dots-join_dots, join_dots-nonempty,
}
use ironbind.Proto.Names.Read.{name_bytes-joined, label_bytes_cons}
use ironbind.Proto.RoundTrip.{IsName, Reads-IsName}

map-append' : (xs ys : Bytes) → map lower (xs ++ ys) ≡ map lower xs ++ map lower ys
map-append' [] ys = refl
map-append' (x ∷ xs) ys = ap (λ zs. lower x ∷ zs) (map-append' xs ys)

lower_join_dots :
    (ls : List Bytes) → All IsLabel ls → to_ascii_lowercase (join_dots ls) ≡ join_dots ls
unfolding join_dots lower
lower_join_dots [] h = refl
lower_join_dots (l ∷ []) h = h.0.is_lower
lower_join_dots (l ∷ m ∷ ls) h =
    map-append' l (dot ∷ join_dots (m ∷ ls))
    ∙ ap₂ (λ (x y : Bytes). x ++ (dot ∷ y)) h.0.is_lower (lower_join_dots (m ∷ ls) h.1)

canonical_labels-bytes :
    (ls : List Bytes) (out : Bytes)
    → All IsLabel ls
    → canonical_labels ls out ≡ out ++ label_bytes ls
unfolding canonical_labels
canonical_labels-bytes [] out h = unfold label_bytes in sym (append-nil out)
canonical_labels-bytes (l ∷ ls) out h =
    let size : length l % 256 ≡ length l = omega (arith, h.0.short) in
    rw (size, label_bytes_cons l ls h.0)
      (canonical_labels-bytes ls (out ++ (length l ∷ l)) h.1
        ∙ append_assoc out (length l ∷ l) (label_bytes ls))

root_name : canonical_name (dot ∷ []) ≡ name_bytes (dot ∷ [])
unfolding canonical_name trim_end_dots name_bytes bytes_eq lower
root_name = refl

-- For names in lower case the canonical form is what the builder writes.
canonical_name-name_bytes : (n : Bytes) → IsName n → canonical_name n ≡ name_bytes n
unfolding canonical_name
canonical_name-name_bytes n h = rw h.is_joined (go h.labels h.all)
  where
    go : (ls : List Bytes) → All IsLabel ls → canonical_name (joined ls) ≡ name_bytes (joined ls)
    go [] a = root_name
    go (l ∷ ls) a =
        rw
          (
            lower_join_dots (l ∷ ls) a,
            trim_end_dots-join_dots (l ∷ ls) a,
            join_dots-nonempty l ls a,
            split_dots-join_dots l ls a,
            name_bytes-joined (l ∷ ls) a,
          )
          (ap (λ b. b ++ (0 ∷ [])) (canonical_labels-bytes (l ∷ ls) [] a))

-- NS, CNAME and PTR data: one name.
single_name :
    (n : Bytes)
    → IsName n
    → (pre post : Bytes)
    → (decompress_rdata (pre ++ (name_bytes n ++ post)) RType.ns (name_bytes n) (length pre)
        ≡ name_bytes n)
      × (decompress_rdata (pre ++ (name_bytes n ++ post)) RType.cname (name_bytes n) (length pre)
          ≡ name_bytes n)
      × (decompress_rdata (pre ++ (name_bytes n ++ post)) RType.ptr (name_bytes n) (length pre)
          ≡ name_bytes n)
unfolding decompress_rdata
single_name n h pre post =
    let read = (Reads-IsName n h).at pre post in
    let e = canonical_name-name_bytes n h in
    (rw (read, e) refl, rw (read, e) refl, rw (read, e) refl)

be16-be16_at : (v : ℕ) (b : Bytes) → v < 2 ^ 16 → be16 (be16_at (be16 v ++ b) 0) ≡ be16 v
be16-be16_at v b h = ground arith

-- MX data: a preference and a name.
mx_data :
    (pref : ℕ) (n : Bytes)
    → pref < 2 ^ 16
    → IsName n
    → (pre post : Bytes)
    → decompress_rdata
        (pre ++ ((be16 pref ++ name_bytes n) ++ post))
        RType.mx
        (be16 pref ++ name_bytes n)
        (length pre)
      ≡ be16 pref ++ name_bytes n
unfolding decompress_rdata Builder.u16
mx_data pref n f h pre post =
    let read : Reader.name (pre ++ (be16 pref ++ (name_bytes n ++ post))) (length pre + 2)
        ≡ (ok n, length pre + 2 + length (name_bytes n)) =
      rw (append_assoc pre (be16 pref) (name_bytes n ++ post), length-append pre (be16 pref)) at
        ((Reads-IsName n h).at (pre ++ be16 pref) post) in
    ground (arith, read, name-append n (be16 pref), be16-be16_at pref (name_bytes n))

-- SOA data: two names and five numbers.
soa_data :
    (m r : Bytes) (a b c d e : ℕ)
    → IsName m
    → IsName r
    → a < 2 ^ 32
    → b < 2 ^ 32
    → c < 2 ^ 32
    → d < 2 ^ 32
    → e < 2 ^ 32
    → Reads soa_bytes
        (name_bytes m
          ++ (name_bytes r ++ (be32 a ++ (be32 b ++ (be32 c ++ (be32 d ++ (be32 e ++ [])))))))
        (name_bytes m
          ++ (name_bytes r ++ (be32 a ++ (be32 b ++ (be32 c ++ (be32 d ++ (be32 e ++ [])))))))
unfolding soa_bytes Builder.u32
soa_data m r a b c d e hm hr ha hb hc hd he =
    Reads-eq _
      (Reads-bind Reader.name _ (Reads-IsName m hm) (
        Reads-bind Reader.name _ (Reads-IsName r hr) (
          Reads-bind Reader.u32 _ (Reads-u32 a ha) (
            Reads-bind Reader.u32 _ (Reads-u32 b hb) (
              Reads-bind Reader.u32 _ (Reads-u32 c hc) (
                Reads-bind Reader.u32 _ (Reads-u32 d hd)
                  (Reads-bind Reader.u32 _ (Reads-u32 e he) (Reads-pure _))))))))
      refl (simp (name-append, append_assoc))
