-- ===== src/Cache/Eviction.antt =====
-- src/cache.rs: histories of the cache, with the background sweep `evict_expired`.
use ironbind.Prelude.{
  ℕ, ◌≤◌, ◌<◌, ◌≡◌, refl, ◌∙◌, Option, none, some, List, [], ◌∷◌, arith, ltb, All,
}
use ironbind.Prelude.Text.{Bytes}
use ironbind.Prelude.Assoc.{
  Assoc, pair_key, lookup, retain, kept, lookup-retain, IsUnique, insert-IsUnique, retain-IsUnique,
}
use ironbind.Proto.RType.{RType}
use ironbind.Proto.Packet.{Record}
use ironbind.Cache.{
  NegativeKind, Entry, Cache, CacheKey, cache_key, live, get, insert_positive, insert_negative,
  evict_expired,
}
use ironbind.Cache.Laws.{get-insert_positive, get-insert_negative}

-- A write or a sweep of the cache, with the time at which it happens.
pub data Op : Type 0 where
  put_positive : ℕ → Bytes → RType → List Record → ℕ → Op
  put_negative : ℕ → Bytes → RType → NegativeKind → ℕ → Op
  evict : ℕ → Op

abbrev pub time : Op → ℕ
time (put_positive now n t rs ttl) = now
time (put_negative now n t kind ttl) = now
time (evict now) = now

unfoldable apply : Op → Cache → Cache
apply (put_positive now n t rs ttl) c = insert_positive now n t rs ttl c
apply (put_negative now n t kind ttl) c = insert_negative now n t kind ttl c
apply (evict now) c = evict_expired now c

unfoldable pub run : List Op → Cache → Cache
unfolding apply
run [] c = c
run (op ∷ ops) c = run ops (apply op c)

-- The same history without the sweeps.
abbrev pub writes : List Op → List Op
writes [] = []
writes (put_positive now n t rs ttl ∷ ops) = put_positive now n t rs ttl ∷ writes ops
writes (put_negative now n t kind ttl ∷ ops) = put_negative now n t kind ttl ∷ writes ops
writes (evict now ∷ ops) = writes ops

-- Times do not run backwards, and none is after `last`.
abbrev IsOrdered : ℕ → List Op → ℕ → Type 0
IsOrdered start [] last = start ≤ last
IsOrdered start (op ∷ ops) last = (start ≤ time op) × IsOrdered (time op) ops last

abbrev IsLive : ℕ → CacheKey × Entry → Type 0
IsLive now (k, e) = now < e.expires

retain-IsLive :
    (now : ℕ) (m : Assoc CacheKey Entry) → All (IsLive now) (retain (λ e. ltb now e.expires) m)
unfolding retain
retain-IsLive now [] = tt
retain-IsLive now ((k, e) ∷ m) = ground (arith, retain-IsLive now m)

live-kept :
    (now later : ℕ) (o : Option Entry)
    → now ≤ later
    → live later (kept (λ e. ltb now e.expires) o) ≡ live later o
live-kept now later none h = refl
live-kept now later (some e) h = ground arith

-- A sweep leaves only entries that have not expired, and changes no answer at a time from then on.
get-evict_expired :
    (now later : ℕ) (n : Bytes) (t : RType) (c : Cache)
    → IsUnique c.inner
    → now ≤ later
    → All (IsLive now) (evict_expired now c).inner
      × (get later n t (evict_expired now c) ≡ get later n t c)
unfolding get evict_expired
get-evict_expired now later n t c u h = (
  retain-IsLive now c.inner,
  rw (lookup-retain (λ e. ltb now e.expires) (cache_key n t) c.inner u)
      (live-kept now later (lookup (cache_key n t) c.inner) h),
)

apply-IsUnique : (op : Op) (c : Cache) → IsUnique c.inner → IsUnique (apply op c).inner
unfolding apply insert_positive insert_negative evict_expired
apply-IsUnique (put_positive now n t rs ttl) c u = insert-IsUnique (cache_key n t) _ c.inner u
apply-IsUnique (put_negative now n t kind ttl) c u = insert-IsUnique (cache_key n t) _ c.inner u
apply-IsUnique (evict now) c u = retain-IsUnique _ c.inner u

-- Two caches that answer alike from a time on.
abbrev Agree : ℕ → Cache → Cache → Type 0
Agree start c d =
    (later : ℕ) (n : Bytes) (t : RType) → start ≤ later → get later n t c ≡ get later n t d

run-Agree :
    (start last : ℕ) (ops : List Op) (c d : Cache)
    → IsOrdered start ops last
    → IsUnique c.inner
    → Agree start c d
    → Agree last (run ops c) (run (writes ops) d)
unfolding run
run-Agree start last [] c d o u h = λ later n t p. h later n t (omega arith)
run-Agree start last (put_positive now n t rs ttl ∷ ops) c d o u h =
    run-Agree now last ops _ _ o.1 (apply-IsUnique (put_positive now n t rs ttl) c u) λ later m s p.
      let e = h later m s (omega arith) in
      unfold apply in
      rw
        (
          get-insert_positive now later ttl n m t s rs c,
          get-insert_positive now later ttl n m t s rs d,
          e,
        )
        refl
run-Agree start last (put_negative now n t kind ttl ∷ ops) c d o u h =
    run-Agree now last ops _ _ o.1 (apply-IsUnique (put_negative now n t kind ttl) c u)
      λ later m s p.
        let e = h later m s (omega arith) in
        unfold apply in
        rw
          (
            get-insert_negative now later ttl n m t s kind c,
            get-insert_negative now later ttl n m t s kind d,
            e,
          )
          refl
run-Agree start last (evict now ∷ ops) c d o u h =
    run-Agree now last ops _ _ o.1 (apply-IsUnique (evict now) c u) λ later m s p.
      unfold apply in ((get-evict_expired now later m s c u p).1 ∙ h later m s (omega arith))

-- Whatever the history of writes and sweeps, in the order of their times: from then on the cache
-- answers as if no sweep had been made.
pub get_after_sweeps :
    (start last : ℕ) (ops : List Op) (c : Cache)
    → IsOrdered start ops last
    → IsUnique c.inner
    → (later : ℕ) (n : Bytes) (t : RType) → last ≤ later
    → get later n t (run ops c) ≡ get later n t (run (writes ops) c)
get_after_sweeps start last ops c o u later n t h =
    run-Agree start last ops c c o u (λ l m s p. refl) later n t h
