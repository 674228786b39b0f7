-- ===== src/Tsig/Walk.antt =====
-- src/tsig.rs: `extract_tsig` on the bytes of a message with a signature behind it.
use ironbind.Prelude.{
  ℕ, zero, suc, ◌+◌, ◌/◌, ◌%◌, ◌^◌, ◌<◌, ◌≡◌, refl, sym, ap, ◌∙◌, List, [], ◌∷◌, ◌++◌, append-nil,
  append_assoc, ok, arith, length, length-append, All,
}
use ironbind.Prelude.Text.{Bytes}
use ironbind.Prelude.Bits.{bit_or_shifted}
use ironbind.Proto.RType.{to_u16}
use ironbind.Proto.Packet.{Question, Record}
use ironbind.Proto.Reader
use ironbind.Proto.Reader.{Reader, ◌>>=◌, pure}
use ironbind.Proto.Message.{tell, times}
use ironbind.Proto.Builder.{be16, be32}
use ironbind.Proto.Builder.Append.{name_bytes, question_bytes, record_bytes, each_bytes}
use ironbind.Proto.Reads.{
  Reads, Reads-pure, Reads-bind, Reads-eq, Reads-u16, Reads-u32, Reads-bytes,
}
use ironbind.Proto.RoundTrip.{IsName, IsQuestion, IsRecord, Reads-IsName}
use ironbind.Tsig.Extract.{
  LastRecord, skip, skip_question, skip_rr, read_head, skip_records, read_last, read_tsig,
}

-- `m` reads exactly the bytes `w`; what it returns depends on where they stand.
pub record ReadsAt {ℓ} {A : Type ℓ} (m : Reader A) (w : Bytes) (v : ℕ → A) : Type ℓ where
  pub at :
      (pre post : Bytes)
      → m (pre ++ (w ++ post)) (length pre) ≡ (ok (v (length pre)), length pre + length w)

ReadsAt-tell {ℓ} :
    {A : Type ℓ} (f : ℕ → Reader A) {w : Bytes} {v : ℕ → A}
    → ((n : ℕ) → Reads (f n) w (v n))
    → ReadsAt (tell >>= f) w v
unfolding tell
ReadsAt-tell f r = record { at = λ pre post. (r (length pre)).at pre post }

ReadsAt-bind {ℓ κ} :
    {A : Type ℓ} {B : Type κ} (m : Reader A) (f : A → Reader B) {v : A} {u : ℕ → B} {w x : Bytes}
    → Reads m w v
    → ReadsAt (f v) x u
    → ReadsAt (m >>= f) (w ++ x) (λ n. u (n + length w))
ReadsAt-bind m f {v} {u} {w} {x} r s = record {
  at = λ pre post.
      let mid : pre ++ (w ++ (x ++ post)) ≡ (pre ++ w) ++ (x ++ post) =
        sym (append_assoc pre w (x ++ post)) in
      let second : f v (pre ++ (w ++ (x ++ post))) (length pre + length w)
          ≡ (ok (u (length pre + length w)), length pre + length w + length x) =
        rw (mid, ← length-append pre w) (s.at (pre ++ w) post) in
      rw (append_assoc w x post, r.at pre (x ++ post), length-append w x)
        (second ∙ ap (λ n. (ok (u (length pre + length w)), n)) (omega arith));
}

Reads-skip : (n : ℕ) (w : Bytes) → length w ≡ n → Reads (skip n) w tt
unfolding skip
Reads-skip n w h = record { at = λ pre post. rw h refl }

Reads-skip_question : (q : Question) → IsQuestion q → Reads skip_question (question_bytes q) tt
unfolding skip_question question_bytes
Reads-skip_question q h =
    Reads-bind Reader.name _ (Reads-IsName q.name h.name)
      (Reads-skip 4 (be16 (to_u16 q.qtype) ++ be16 q.qclass) refl)

Reads-skip_rr : (r : Record) → IsRecord r → Reads skip_rr (record_bytes r) tt
unfolding skip_rr record_bytes
Reads-skip_rr r h =
    let size : length r.rdata % 2 ^ 16 ≡ length r.rdata = omega (arith, h.rdata_fits) in
    Reads-bind Reader.name _ (Reads-IsName r.name h.name) (
      Reads-bind Reader.u16 _ (Reads-u16 (to_u16 r.rtype) h.rtype_fits) (
        Reads-bind Reader.u16 _ (Reads-u16 r.class h.class_fits) (
          Reads-bind Reader.u32 _ (Reads-u32 r.ttl h.ttl_fits) (
            rw size (
              Reads-bind Reader.u16 _ (Reads-u16 (length r.rdata) h.rdata_fits)
                (Reads-skip (length r.rdata) r.rdata refl))))))

abbrev units : ℕ → List (Unit {0})
units zero = []
units (suc n) = tt ∷ units n

Reads-skips :
    {A : Type 0} (m : Reader (Unit {0})) (w : A → Bytes) (xs : List A)
    → All (λ x. Reads m (w x) tt) xs
    → Reads (times (length xs) m) (each_bytes w xs) (units (length xs))
unfolding times each_bytes
Reads-skips m w [] h = Reads-pure []
Reads-skips m w (x ∷ xs) h =
    Reads-eq _ (Reads-bind m _ h.0 (Reads-bind _ _ (Reads-skips m w xs h.1) (Reads-pure _)))
      (rw append-nil refl) refl

All-map :
    {A : Type 0} (P Q : A → Type 0) → ((x : A) → P x → Q x) → (xs : List A) → All P xs → All Q xs
All-map P Q f [] h = tt
All-map P Q f (x ∷ xs) h = (f x h.0, All-map P Q f xs h.1)

Reads-raw :
    (raw n : Bytes)
    → IsName n
    → name_bytes raw ≡ name_bytes n
    → Reads Reader.name (name_bytes raw) n
Reads-raw raw n h e = rw e (Reads-IsName n h)

abbrev pub head_record : Bytes → ℕ → LastRecord
head_record n m = record { name = n; rtype = 250; offset = m }

Reads-head :
    (raw n : Bytes)
    → IsName n
    → name_bytes raw ≡ name_bytes n
    → (m : ℕ) → Reads (read_head m) (name_bytes raw ++ (be16 250 ++ [])) (head_record n m)
unfolding read_head
Reads-head raw n h e m =
    Reads-eq _
      (Reads-bind Reader.name _ (Reads-raw raw n h e)
        (Reads-bind Reader.u16 _ (Reads-u16 250 (omega arith)) (Reads-pure _)))
      refl refl

skip_records-ReadsAt :
    (rs : List Record) (raw n : Bytes)
    → All IsRecord rs
    → IsName n
    → name_bytes raw ≡ name_bytes n
    → ReadsAt
        (skip_records (length rs))
        (each_bytes record_bytes rs ++ (name_bytes raw ++ (be16 250 ++ [])))
        (λ m. head_record n (m + length (each_bytes record_bytes rs)))
unfolding skip_records
skip_records-ReadsAt rs raw n hr hn e =
    ReadsAt-bind (times (length rs) skip_rr) (λ u. tell >>= read_head) {u = head_record n}
      (Reads-skips skip_rr record_bytes rs (All-map _ _ Reads-skip_rr rs hr))
      (ReadsAt-tell read_head (Reads-head raw n hn e))

-- The walk to the last record, whose name is `n` in the wire form of `raw`.
pub read_last-ReadsAt :
    (header : Bytes) (qs : List Question) (rs : List Record) (raw n : Bytes)
    → length header ≡ 12
    → All IsQuestion qs
    → All IsRecord rs
    → IsName n
    → name_bytes raw ≡ name_bytes n
    → ReadsAt
        (read_last (length qs) (length rs))
        (header
          ++ (each_bytes question_bytes qs
              ++ (each_bytes record_bytes rs ++ (name_bytes raw ++ (be16 250 ++ [])))))
        (λ m. head_record n (
          m
          + length header
          + length (each_bytes question_bytes qs)
          + length (each_bytes record_bytes rs)))
unfolding read_last
read_last-ReadsAt header qs rs raw n h hq hr hn e =
    ReadsAt-bind (skip 12) (λ u. times (length qs) skip_question >>= λ v. skip_records (length rs))
      {u = λ m.
        head_record n
          (m + length (each_bytes question_bytes qs) + length (each_bytes record_bytes rs))}
      (Reads-skip 12 header h)
      (ReadsAt-bind (times (length qs) skip_question) (λ v. skip_records (length rs))
        {u = λ m. head_record n (m + length (each_bytes record_bytes rs))}
        (Reads-skips skip_question question_bytes qs (All-map _ _ Reads-skip_question qs hq))
        (skip_records-ReadsAt rs raw n hr hn e))

-- The signature behind its name and type, as `append_tsig_rr` writes it.
unfoldable pub signature_bytes : Bytes → ℕ → ℕ → ℕ → Bytes → ℕ → Bytes
signature_bytes algorithm size now fudge mac orig_id =
    be16 255
    ++ (be32 0
        ++ (be16 size
            ++ (name_bytes algorithm
                ++ (be16 (now / 2 ^ 32 % 2 ^ 16)
                    ++ (be32 (now % 2 ^ 32)
                        ++ (be16 fudge
                            ++ (be16 (length mac)
                                ++ (mac
                                    ++ (be16 orig_id ++ (be16 0 ++ (be16 0 ++ ([] ++ []))))))))))))

pub read_tsig-Reads :
    (raw a mac : Bytes) (size now fudge orig_id : ℕ)
    → IsName a
    → name_bytes raw ≡ name_bytes a
    → size < 2 ^ 16
    → now < 2 ^ 48
    → fudge < 2 ^ 16
    → length mac < 2 ^ 16
    → orig_id < 2 ^ 16
    → Reads read_tsig (signature_bytes raw size now fudge mac orig_id) (record {
      algorithm = a;
      time_signed = now;
      fudge = fudge;
      mac = mac;
      orig_id = orig_id;
      error = 0;
      other = [];
    })
unfolding read_tsig signature_bytes
read_tsig-Reads raw a mac size now fudge orig_id ha e hs hn hf hm ho =
    Reads-eq _
      (Reads-bind Reader.u16 _ (Reads-u16 255 (omega arith)) (
        Reads-bind Reader.u32 _ (Reads-u32 0 (omega arith)) (
          Reads-bind Reader.u16 _ (Reads-u16 size hs) (
            Reads-bind Reader.name _ (Reads-raw raw a ha e) (
              Reads-bind Reader.u16 _ (Reads-u16 (now / 2 ^ 32 % 2 ^ 16) (omega arith)) (
                Reads-bind Reader.u32 _ (Reads-u32 (now % 2 ^ 32) (omega arith)) (
                  Reads-bind Reader.u16 _ (Reads-u16 fudge hf) (
                    Reads-bind Reader.u16 _ (Reads-u16 (length mac) hm) (
                      Reads-bind _ _ (Reads-bytes mac) (
                        Reads-bind Reader.u16 _ (Reads-u16 orig_id ho) (
                          Reads-bind Reader.u16 _ (Reads-u16 0 (omega arith)) (
                            Reads-bind Reader.u16 _ (Reads-u16 0 (omega arith))
                              (Reads-bind _ _ (Reads-bytes []) (Reads-pure _))))))))))))))
      refl
      (ap
        (λ (t : ℕ). record {
          algorithm = a;
          time_signed = t;
          fudge = fudge;
          mac = mac;
          orig_id = orig_id;
          error = 0;
          other = [];
        })
        (bit_or_shifted 32 (now / 2 ^ 32 % 2 ^ 16) (now % 2 ^ 32) (omega arith) ∙ omega arith))
