-- ===== src/Cache/Laws.antt =====
-- src/cache.rs: lookups after the writes of the cache.
use ironbind.Prelude.{
  ℕ, ◌+◌, ◌≡◌, refl, Bool, ◌&&◌, none, some, List, ltb, ◌==◌, if◌then◌else◌, Bool-cases, inl, inr,
}
use ironbind.Prelude.Text.{Bytes, to_ascii_lowercase, bytes_eq}
use ironbind.Prelude.Assoc.{Assoc, pair_key, lookup, insert, lookup-insert}
use ironbind.Proto.RType.{RType, to_u16}
use ironbind.Proto.Packet.{Record}
use ironbind.Cache.{
  NegativeKind, records, negative, Entry, Cache, cache_key, from_secs, live, get, clamp_positive,
  insert_positive, clamp_negative, insert_negative, CacheKey,
}

abbrev pub same_key : Bytes → RType → Bytes → RType → Bool
same_key n t m u = bytes_eq (to_ascii_lowercase n) (to_ascii_lowercase m) && to_u16 t == to_u16 u

live-insert :
    (later : ℕ) (i j : CacheKey) (e : Entry) (m : Assoc CacheKey Entry)
    → live later (lookup j (insert i e m)) ≡ (
        if pair_key.beq j i
        then (if ltb later e.expires then some e.value else none)
        else live later (lookup j m))
live-insert later i j e m = elim (Bool-cases (pair_key.beq j i)) [
  | inl h ↦ rw (lookup-insert i j e m, h) refl
  | inr h ↦ rw (lookup-insert i j e m, h) refl
]

-- After a positive answer is stored at `now` with `ttl`, a lookup at any time `later`: for the same
-- type and the same name in any letter case it returns the records exactly while the time is before
-- `now` plus the TTL clamped to one second and one day; for any other key it is what it was.
pub get-insert_positive :
    (now later ttl : ℕ) (n m : Bytes) (t u : RType) (rs : List Record) (c : Cache)
    → get later m u (insert_positive now n t rs ttl c) ≡ (
        if same_key m u n t
        then (if ltb later (now + from_secs (clamp_positive ttl)) then some (records rs) else none)
        else get later m u c)
unfolding get insert_positive cache_key
get-insert_positive now later ttl n m t u rs c =
    live-insert later (cache_key n t) (cache_key m u) _ c.inner

-- After a negative answer is stored at `now` with `ttl`, a lookup at any time `later`: for the same
-- type and the same name in any letter case it returns the answer exactly while the time is before
-- `now` plus the TTL clamped to one second and three hours; for any other key it is what it was.
pub get-insert_negative :
    (now later ttl : ℕ) (n m : Bytes) (t u : RType) (kind : NegativeKind) (c : Cache)
    → get later m u (insert_negative now n t kind ttl c) ≡ (
        if same_key m u n t
        then (if ltb later (now + from_secs (clamp_negative ttl))
            then some (negative kind)
            else none)
        else get later m u c)
unfolding get insert_negative cache_key
get-insert_negative now later ttl n m t u kind c =
    live-insert later (cache_key n t) (cache_key m u) _ c.inner
